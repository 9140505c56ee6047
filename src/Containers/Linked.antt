-- ===== src/Containers/Linked.antt =====
-- kernel/Containers/List.hpp, the links of the list. The items are a function of their address; where there
-- is none, an access is a `fault`. The address of a new item is an argument. The calls that walk along the
-- list are left out.
pub mod Queue
pub mod Runs
mod Tests
use baby_osv.Base.{
  ℕ, ◌+◌, Bool, true, false, Option, none, some, ◌==◌, if◌then◌else◌, update, add32, sub32,
}
use baby_osv.Base.Outcome.{Outcome, ok, fault, access, ◌>>=◌}

pub record Item (A : Type 0) : Type 0 where
  pub value : A
  pub prev : ℕ
  pub next : ℕ

pub record Linked (A : Type 0) : Type 0 where
  pub items : ℕ → Option (Item A)
  pub head : ℕ
  pub tail : ℕ
  pub size : ℕ

module _ {A : Type 0} where
  unfoldable pub empty_list : Linked A
  empty_list = record { items = λ p. none; head = 0; tail = 0; size = 0 }

  abbrev pub new_item : ℕ → A → Linked A → Linked A
  new_item p x l = record l {
    items = update l.items p (some (record { value = x; prev = 0; next = 0 }));
  }

  abbrev pub delete_item : ℕ → Linked A → Linked A
  delete_item p l = record l { items = update l.items p none }

  abbrev pub set_next : ℕ → ℕ → Linked A → Outcome (Linked A)
  set_next p q l = access (l.items p) >>= λ i.
      ok (record l { items = update l.items p (some (record i { next = q })) })

  abbrev pub set_prev : ℕ → ℕ → Linked A → Outcome (Linked A)
  set_prev p q l = access (l.items p) >>= λ i.
      ok (record l { items = update l.items p (some (record i { prev = q })) })

  unfoldable pub push_back : ℕ → A → Linked A → Outcome (Linked A)
  unfolding update
  push_back p x l =
      (if l.head == 0
        then ok (record (new_item p x l) { head = p; tail = p })
        else (set_next l.tail p (new_item p x l) >>= λ m.
            set_prev p l.tail m >>= λ n. ok (record n { tail = p })))
      >>= λ m. ok (record m { size = add32 l.size 1 })

  unfoldable pub pop_front : Linked A → Outcome (A × Linked A)
  unfolding update
  pop_front l = access (l.items l.head) >>= λ i. ok (
    i.value,
    record (delete_item l.head l) {
      head = i.next;
      tail = if l.tail == l.head then 0 else l.tail;
      size = sub32 l.size 1;
    },
  )

  -- The old head keeps its `prev`.
  unfoldable pub push_front : ℕ → A → Linked A → Outcome (Linked A)
  unfolding update
  push_front p x l = ok (record l {
    items = update l.items p (some (record { value = x; prev = 0; next = l.head }));
    head = p;
    tail = if l.tail == 0 then p else l.tail;
    size = add32 l.size 1;
  })

  abbrev pub unlink_last : Item A → Linked A → Outcome (Linked A)
  unlink_last i l =
      if i.prev == 0
      then ok (if l.head == l.tail then record l { head = 0 } else l)
      else set_next i.prev 0 l

  unfoldable pub pop_back : Linked A → Outcome (A × Linked A)
  unfolding update
  pop_back l = access (l.items l.tail) >>= λ i. unlink_last i l >>= λ m.
      ok (i.value, record (delete_item l.tail m) { tail = i.prev; size = sub32 l.size 1 })

  -- On an empty list the code reads through `nullptr`.
  unfoldable pub front : Linked A → Outcome A
  front l = if l.size == 0 then fault else (access (l.items l.head) >>= λ i. ok i.value)

  unfoldable pub back : Linked A → Outcome A
  back l = if l.size == 0 then fault else (access (l.items l.tail) >>= λ i. ok i.value)
