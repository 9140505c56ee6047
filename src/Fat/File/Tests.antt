-- ===== src/Fat/File/Tests.antt =====
-- The theorems on directories and files at concrete inputs.
use baby_osv.Base.{true, ℕ, ◌≡◌, refl, false, none, some, [], ◌∷◌, arith, ◌==◌, if◌then◌else◌}
use baby_osv.Fat.Table.{fat12}
use baby_osv.Fat.Layout.{Bpb}
use baby_osv.Fat.Volume.{Cache, Info, find_cache, flush_cache, free_cache}
use baby_osv.Fat.Directory.{Directory}
use baby_osv.Fat.Directory.Reading.{root_at, directory_read-root, reached, next_in_use}
use baby_osv.Fat.Directory.{directory_read, directory_rewind}
use baby_osv.Fat.Entries.{seek, file_create}
use baby_osv.Fat.Entries.Full.{file_create-none}
use baby_osv.Fat.File.{File, file_write}
use baby_osv.Fat.File.Lost.{left_by, file_write_unsaved}

abbrev floppy : Bpb
floppy = record {
  bytes_per_sector = 512;
  sectors_per_cluster = 1;
  reserved_sectors = 1;
  fats_count = 2;
  root_entries_count = 16;
  sectors_per_fat = 9;
  hidden_sectors = 0;
}

-- The parent's object, the directory in cluster 2, and the file's object, in cluster 5, just read.
abbrev object : ℕ → (ℕ → ℕ) → Cache
object cluster buffer = record {
  ref_count = 1;
  cluster = cluster;
  dirty = false;
  buffer_size = 512;
  buffer = buffer;
}

abbrev volume : Info
volume = record {
  type = fat12;
  bpb = floppy;
  fat = λ p. 0xff;
  disk = λ s o. 65;
  accepts = λ s. true;
  cache_objects = object 5 (λ o. 0) ∷ [];
}

abbrev file : File
file = record {
  root_cluster = 5;
  parent_cluster = 2;
  parent_offset = 64;
  parent_needs_update = false;
  total_offset = 0;
  total_size = 100;
  cache = some 5;
}

abbrev after_write : Info
after_write = left_by (file_write (1 ∷ 2 ∷ 3 ∷ []) 0 volume file)

file_write_unsaved_example :
    (flush_cache 5 after_write ≡ after_write)
    × ((free_cache (some 5) after_write).disk ≡ after_write.disk)
unfolding find_cache
file_write_unsaved_example = file_write_unsaved (1 ∷ 2 ∷ 3 ∷ []) 0 5 volume file (omega arith) refl

abbrev fourth : ℕ → ℕ
fourth o = if o == 96 then 65 else if o == 64 then 0xe5 else 0

-- Free entries, a removed one at offset 64, and one in use at offset 96.
abbrev root : Info
root = record volume { cache_objects = object 0 fourth ∷ [] }

directory_read-root_example :
    directory_read 16 root (root_at 0) ≡ some (reached root fourth (next_in_use fourth 15 0))
unfolding find_cache
directory_read-root_example =
    directory_read-root root {w = object 0 fourth} refl 15 16 0 refl (omega arith)

-- The entry at offset 96 is the next one.
next_is_fourth : next_in_use fourth 15 0 ≡ some 96
next_is_fourth = refl

-- Cluster 2 is a directory of one cluster, whose sixteen entries are all valid.
abbrev directory : Directory
directory = record { root_cluster = 2; buffer_offset = 0; cache = none }

abbrev read_in : Info
read_in = record volume { cache_objects = object 5 (λ o. 0) ∷ object 2 (λ o. 65) ∷ [] }

abbrev searched : Info
searched = record read_in {
  cache_objects = object 5 (λ o. 0) ∷ record (object 2 (λ o. 65)) { ref_count = 2 } ∷ [];
}

all_valid :
    seek 17 (directory_rewind read_in directory).0 (directory_rewind read_in directory).1
    ≡ some (false, searched, record directory { buffer_offset = 480; cache = some 2 })
unfolding seek directory_rewind find_cache
all_valid = refl

file_create-none_example : file_create 17 (65 ∷ []) read_in directory ≡ none
unfolding find_cache
file_create-none_example =
    file_create-none 17 (65 ∷ []) read_in searched directory
      (record directory { buffer_offset = 480; cache = some 2 }) all_valid refl (omega arith)
