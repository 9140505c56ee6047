-- ===== src/Fat/Stream/Tests.antt =====
-- A file of one cluster, read over its end, and moved to it.
use baby_osv.Base.{◌≡◌, refl, inl, false, true, some, [], ◌∷◌, arith}
use baby_osv.Base.Outcome.{ok}
use baby_osv.Fat.Table.{fat12}
use baby_osv.Fat.Volume.{Info}
use baby_osv.Fat.File.{File}
use baby_osv.Fat.Stream.{file_read}
use baby_osv.Fat.Stream.Moves.{Reads}
use baby_osv.Fat.Stream.Amount.{file_read-Reads}

abbrev volume : Info
volume = record {
  type = fat12;
  bpb = record {
    bytes_per_sector = 512;
    sectors_per_cluster = 1;
    reserved_sectors = 1;
    fats_count = 2;
    root_entries_count = 16;
    sectors_per_fat = 9;
    hidden_sectors = 0;
  };
  fat = λ p. 0xff;
  disk = λ s o. 0;
  accepts = λ s. true;
  cache_objects =
      record { ref_count = 1; cluster = 5; dirty = false; buffer_size = 512; buffer = λ o. o } ∷ [];
}

abbrev file : File
file = record {
  root_cluster = 5;
  parent_cluster = 2;
  parent_offset = 64;
  parent_needs_update = false;
  total_offset = 510;
  total_size = 600;
  cache = some 5;
}

reads_two :
    file_read 5 4 volume file
    ≡ some (
        ok (record {
          success = true;
          bytes = 510 ∷ 511 ∷ [];
          info = volume;
          file = record file { total_offset = 512 };
        }))
unfolding file_read
reads_two = refl

file_read-Reads_example : Reads 4 file (file_read 5 4 volume file)
file_read-Reads_example =
    file_read-Reads 5 4 volume file (omega arith) (omega arith) (inl (λ e. cc))
