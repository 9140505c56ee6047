-- ===== src/Fat/File/Lost.antt =====
-- What `FileWrite` marks as dirty.
use baby_osv.Base.{
  ℕ, ◌+◌, ◌%◌, ◌≡◌, refl, ap, ◌∙◌, sym, subst, ◌≢◌, inl, inr, Bool, false, ◌&&◌, Option, none, some,
  List, [], ◌∷◌, ltb, ◌==◌, add32, Bool-cases, Option-cases,
}
use baby_osv.Fat.Table.{get_next_cluster}
use baby_osv.Fat.Volume.{
  Info, find_cache, change, get_cache, free_cache, flush_cache, release, is_unused, extend_chain,
}
use baby_osv.Fat.Directory.{buffer_size_of}
use baby_osv.Fat.Entries.{through}
use baby_osv.Fat.File.{
  File, first_cluster, go_to, go_behind, object_for, cleared, put, put_size, advance, update_parent,
  put_in, put_at, file_put_byte, file_write,
}
use baby_osv.Fat.File.Calm.{
  dirty_in, is_dirty, Calm, through-Calm, get_cache-Calm, free_cache-Calm, extend_chain-objects,
  same-Calm,
}

-- What the first part of `FilePutByte` leaves: the parent stays, and nothing becomes dirty.
record Readied (d : ℕ) (i : Info) (f : File) (j : Info) (g : File) : Type 0 where
  calm : Calm d i j
  same_parent : g.parent_cluster ≡ f.parent_cluster

go_to-Readied :
    (c next d : ℕ) (i : Info) (f : File) → Readied d i f (go_to c next i f).0 (go_to c next i f).1
go_to-Readied c next d i f = record {
  calm = λ h. get_cache-Calm next d (free_cache (some c) i) (free_cache-Calm c d i h);
  same_parent = refl;
}

-- The part came out as the given state and file.
came_out :
    (d : ℕ) (i : Info) (f : File) {r : Info × File} {j : Info} {g : File}
    → some r ≡ some (j, g)
    → Readied d i f r.0 r.1
    → Readied d i f j g
came_out d i f {r} {j} {g} e h =
    let same : r ≡ (j, g) = cc in subst (λ (q : Info × File). Readied d i f q.0 q.1) same h

first_cluster-Readied :
    (d : ℕ) (o : Option (ℕ × Info)) (i : Info) (f : File) {j : Info} {g : File}
    → ((n : ℕ) (k : Info) → o ≡ some (n, k) → k.cache_objects ≡ i.cache_objects)
    → first_cluster o f ≡ some (j, g)
    → Readied d i f j g
unfolding through
first_cluster-Readied d none i f kept e = cc
first_cluster-Readied d (some (n, k)) i f {j} {g} kept e = came_out d i f e (record {
  calm = λ h.
      through-Calm n d cleared (get_cache n k) (λ v. refl) (inr (λ v q. q))
        (get_cache-Calm n d k (same-Calm d i k (kept n k refl) h));
  same_parent = refl;
})

go_behind-Readied :
    (c d : ℕ) (o : Option (ℕ × Info)) (i : Info) (f : File) {j : Info} {g : File}
    → ((n : ℕ) (k : Info) → o ≡ some (n, k) → k.cache_objects ≡ i.cache_objects)
    → go_behind c o f ≡ some (j, g)
    → Readied d i f j g
go_behind-Readied c d none i f kept e = cc
go_behind-Readied c d (some (n, k)) i f {j} {g} kept e = came_out d i f e (record {
  calm = λ h. (go_to-Readied c n d k f).calm (same-Calm d i k (kept n k refl) h);
  same_parent = refl;
})

object_for-Readied :
    (d : ℕ) (o : Option ℕ) (i : Info) (f : File) {j : Info} {g : File}
    → object_for o i f ≡ some (j, g)
    → Readied d i f j g
object_for-Readied d none i f {j} {g} e = elim (Bool-cases (f.root_cluster == 0)) [
  | inl q ↦
      first_cluster-Readied d (extend_chain 0 i) i f
        (λ n k h. extend_chain-objects 0 i {n = n} {j = k} h) (cc)
  | inr q ↦
      came_out d i f {r = (get_cache f.root_cluster i, record f { cache = some f.root_cluster })}
        (cc) (record { calm = get_cache-Calm f.root_cluster d i; same_parent = refl })
]
object_for-Readied d (some c) i f {j} {g} e =
    let next = get_next_cluster i.type i.fat c in
    elim (Bool-cases (ltb 0 f.total_offset && (f.total_offset % buffer_size_of i c == 0))) [
      | inl q ↦ elim (Bool-cases (next == 0)) [
        | inl z ↦
            go_behind-Readied c d (extend_chain c i) i f
              (λ n k h. extend_chain-objects c i {n = n} {j = k} h) (cc)
        | inr z ↦ came_out d i f {r = go_to c next i f} (cc) (go_to-Readied c next d i f)
      ]
      | inr q ↦ came_out d i f {r = (i, f)} (cc) (record { calm = λ h. h; same_parent = refl })
    ]

-- The entry's writes go to the parent, which is another cluster.
update_parent-Calm :
    (d : ℕ) (i : Info) (f : File) → d ≢ f.parent_cluster → Calm d i (update_parent i f)
unfolding update_parent through
update_parent-Calm d i f apart h = elim (Bool-cases f.parent_needs_update) [
  | inl e ↦
      let c = f.parent_cluster in
      let got = get_cache c i in
      let written =
        through-Calm c d (put_size f) got (λ v. refl) (inl (λ q. apart (sym q)))
          (get_cache-Calm c d i h) in
      rw e (free_cache-Calm c d (through c (put_size f) got) written)
  | inr e ↦ rw e h
]

advance-parent : (f : File) → (advance f).parent_cluster ≡ f.parent_cluster
advance-parent f = elim (Bool-cases (ltb f.total_size (add32 f.total_offset 1))) [
  | inl e ↦ rw e refl
  | inr e ↦ rw e refl
]

put_in-Readied :
    (byte d : ℕ) (o : Option ℕ) (i : Info) (f : File)
    → d ≢ f.parent_cluster
    → Readied d i f (put_in byte o i f).0 (put_in byte o i f).1
unfolding through
put_in-Readied byte d none i f apart = record { calm = λ h. h; same_parent = refl }
put_in-Readied byte d (some c) i f apart = record {
  calm = λ h.
      update_parent-Calm d (through c (put f.total_offset byte) i) (advance f)
        (λ q. apart (q ∙ advance-parent f))
        (through-Calm c d (put f.total_offset byte) i (λ v. refl) (inr (λ v q. q)) h);
  same_parent = advance-parent f;
}

put_at-Readied :
    (byte d : ℕ) (o : Option (Info × File)) (i : Info) (f : File) {j : Info} {g : File}
    → d ≢ f.parent_cluster
    → ((k : Info) (h : File) → o ≡ some (k, h) → Readied d i f k h)
    → put_at byte o ≡ some (j, g)
    → Readied d i f j g
put_at-Readied byte d none i f apart ready e = cc
put_at-Readied byte d (some (k, h)) i f {j} {g} apart ready e =
    let first = ready k h refl in
    let rest = put_in-Readied byte d h.cache k h (λ q. apart (q ∙ first.same_parent)) in
    came_out d i f {r = put_in byte h.cache k h} e (record {
      calm = λ q. rest.calm (first.calm q);
      same_parent = rest.same_parent ∙ first.same_parent;
    })

file_put_byte-Readied :
    (byte d : ℕ) (i : Info) (f : File) {j : Info} {g : File}
    → d ≢ f.parent_cluster
    → file_put_byte byte i f ≡ some (j, g)
    → Readied d i f j g
unfolding file_put_byte
file_put_byte-Readied byte d i f {j} {g} apart e =
    put_at-Readied byte d (object_for f.cache i f) i f apart
      (λ k h q. object_for-Readied d f.cache i f q) e

-- What `file_write` leaves.
abbrev pub left_by : Bool × ℕ × Info × File → Info
left_by (done, count, i, f) = i

file_write-Calm :
    (bytes : List ℕ) (count d : ℕ) (i : Info) (f : File)
    → d ≢ f.parent_cluster
    → Calm d i (left_by (file_write bytes count i f))
unfolding file_write
file_write-Calm [] count d i f apart h = h
file_write-Calm (b ∷ bs) count d i f apart h = elim (Option-cases (file_put_byte b i f)) [
  | inl e ↦ rw (left_by, e) h
  | inr ((j, g), e) ↦
      let step = file_put_byte-Readied b d i f {j = j} {g = g} apart e in
      rw (left_by, e)
        (file_write-Calm bs (count + 1) d j g (λ q. apart (q ∙ step.same_parent)) (step.calm h))
]

flush_cache_clean : (d : ℕ) (i : Info) → is_dirty i d ≡ false → flush_cache d i ≡ i
unfolding flush_cache
flush_cache_clean d i h = elim (Option-cases (find_cache d i.cache_objects)) [
  | inl e ↦ rw e refl
  | inr (v, e) ↦ (let same : v.dirty ≡ false = sym (ap dirty_in e) ∙ h in rw (e, same) refl)
]

free_cache_clean : (d : ℕ) (i : Info) → is_dirty i d ≡ false → (free_cache (some d) i).disk ≡ i.disk
unfolding free_cache
free_cache_clean d i h =
    let j = record i { cache_objects = change d release i.cache_objects } in
    let still = through-Calm d d release i (λ v. refl) (inr (λ v q. q)) h in
    elim (Bool-cases (is_unused (find_cache d j.cache_objects))) [
      | inl e ↦ rw (e, flush_cache_clean d j still) refl
      | inr e ↦ rw e refl
    ]

-- `FileWrite` leaves the object of every cluster but the parent's as little dirty as it was: if it was
-- clean, `FlushCache` then does nothing and `FreeCache` writes nothing to the disk, whatever bytes were
-- put into the object's buffer.
pub file_write_unsaved :
    (bytes : List ℕ) (count d : ℕ) (i : Info) (f : File)
    → d ≢ f.parent_cluster
    → is_dirty i d ≡ false
    → (flush_cache d (left_by (file_write bytes count i f)) ≡ left_by (file_write bytes count i f))
      × ((free_cache (some d) (left_by (file_write bytes count i f))).disk
          ≡ (left_by (file_write bytes count i f)).disk)
file_write_unsaved bytes count d i f apart h =
    let still = file_write-Calm bytes count d i f apart h in
    let j = left_by (file_write bytes count i f) in
    (flush_cache_clean d j still, free_cache_clean d j still)
