-- ===== src/Fat/Volume/Tests.antt =====
-- A floppy disk with one cluster in the cache, and the theorems on it.
use Prim.{tt}
use baby_osv.Base.{
  ℕ, ◌*◌, ◌<◌, ◌≡◌, refl, inl, inr, true, some, [], ◌∷◌, arith, update, Bool-cases, ◌==◌,
}
use baby_osv.Fat.Table.{fat12}
use baby_osv.Fat.Layout.{Bpb, get_root_sector, get_sector_to_read}
use baby_osv.Fat.Volume.{
  Cache, Info, sectors_of, first_sector, find_cache, load, get_cache, flush_cache, free_cache,
  flush,
}
use baby_osv.Fat.Volume.Objects.{IsVolume, IsCluster}
use baby_osv.Fat.Volume.View.{Sized, Transparent, view}
use baby_osv.Fat.Volume.Steps.{Transparent-cache}
use baby_osv.Fat.Volume.Saved.{AllClusters, Tidy, flush-Saved}

abbrev floppy : Bpb
floppy = record {
  bytes_per_sector = 512;
  sectors_per_cluster = 1;
  reserved_sectors = 1;
  fats_count = 2;
  root_entries_count = 224;
  sectors_per_fat = 9;
  hidden_sectors = 0;
}

-- Cluster 5 was written: its first bytes are 7.
abbrev written : Cache
written = record { ref_count = 1; cluster = 5; dirty = true; buffer_size = 512; buffer = λ o. 7 }

abbrev volume : Info
volume = record {
  type = fat12;
  bpb = floppy;
  fat = λ p. 0;
  disk = λ s o. 0;
  accepts = λ s. true;
  cache_objects = written ∷ [];
}

floppy-IsVolume : IsVolume floppy 2000
unfolding get_root_sector
floppy-IsVolume = record { whole = refl; some_sectors = omega arith; fits = omega arith }

volume-Sized : Sized volume
unfolding find_cache
volume-Sized = record { sizes = λ d v e. ground (arith, e); takes_all = λ s. refl }

-- The written bytes are on the disk after `Flush`, in sector 36.
saved : (flush volume).disk 36 3 ≡ 7
unfolding flush update get_sector_to_read
saved = refl

Transparent-cache_example :
    Transparent 2000 volume (get_cache 5 volume)
    × Transparent 2000 volume (flush_cache 5 volume)
    × Transparent 2000 volume (free_cache (some 5) volume)
Transparent-cache_example =
    Transparent-cache 2000 5 volume floppy-IsVolume (omega arith, omega arith) volume-Sized

volume-Tidy : Tidy 2000 volume
unfolding find_cache
volume-Tidy d v hc e q o l = elim (Bool-cases (5 == d)) [
  | inl s ↦ absurd (ground (arith, e, q, s))
  | inr s ↦ rw s refl
]

volume-AllClusters : AllClusters 2000 volume.cache_objects
volume-AllClusters = ((omega arith, omega arith), tt)

flush-Saved_example :
    Transparent 2000 volume (flush volume)
    × ((k o : ℕ)
        → IsCluster 2000 k
        → o < sectors_of floppy k * 512
        → load (flush volume).disk (first_sector floppy k) o ≡ view volume k o)
flush-Saved_example =
    flush-Saved 2000 volume floppy-IsVolume volume-AllClusters volume-Sized volume-Tidy
