-- ===== src/Memory/Boot/Tests.antt =====
-- Entries of free memory behind the kernel's end.
use baby_osv.Base.{[]}
use baby_osv.Memory.Map.{Entry}
use baby_osv.Memory.Physical.{Physical}

-- Three megabytes from an odd address on, over the kernel's end.
abbrev extended : Entry
extended = record { base = 0x100001; length = 0x300000; type = 1; attr = 0 }

-- A hundred bytes inside a page.
abbrev crumb : Entry
crumb = record { base = 0x300010; length = 100; type = 1; attr = 0 }

abbrev empty : Physical
empty = record { memory_bitmap = []; max_memory_index = 0 }
