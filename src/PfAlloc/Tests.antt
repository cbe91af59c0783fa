-- ===== src/PfAlloc/Tests.antt =====
-- The theorems on the page-frame allocator, applied to a bitmap of two bytes.
use hyve_mind.Prelude.{
  ◌==◌, if◌then◌else◌, get_elem?, ℕ, ◌+◌, ◌*◌, ◌≤◌, ◌<◌, ◌≡◌, refl, ◌≢◌, not, ◌||◌, none, some, [],
  ◌∷◌, arith,
}
use hyve_mind.PfAlloc.{
  Bitmap, Allocator, advance, take_frame, drop_streak, search, first_scan, free_frames, take_area,
  get_pages_raw, free_pages_raw,
}
use hyve_mind.PfAlloc.Bitmap.{used}
use hyve_mind.PfAlloc.Frames.{
  IsValid, IsArea, get_pages_raw_total, get_pages_raw-IsArea, free_pages_raw-get_pages_raw,
}
use hyve_mind.PfAlloc.Boot.{
  MemmapEntry, limine_memmap_usable, find_contiguous_memory_region, sizeof_allocator,
  init_pf_allocator_metadata, early_initialize_pf_bitmap, early_init_page_frame_allocator,
  in_usable, in_metadata, early_init_page_frame_allocator_lem,
}
use hyve_mind.PfAlloc.Counters.{AreWords}

-- The first four of 16 frames are used.
abbrev some_bitmap : Bitmap
some_bitmap i = if i == 0 then 0xf0 else 0

abbrev some_allocator : Allocator
some_allocator = record {
  bitmap = some_bitmap;
  bitmap_size = 2;
  last_alloc_byte_hint = 0;
  last_alloc_bit_hint = 0;
  allocatable_frames = 12;
  allocated_page_frames = 4;
}

some_allocator-IsValid : IsValid some_allocator
some_allocator-IsValid = record {
  bytes = λ i. ground arith;
  byte_hint_in = omega arith;
  bit_hint_in = omega arith;
}

some_allocator-AreWords : AreWords some_allocator
some_allocator-AreWords = record { allocatable = omega arith; allocated = omega arith }

get_pages_raw-IsArea_example :
    IsArea some_allocator (take_area some_allocator 4 2) 2 0x4000
    × IsValid (take_area some_allocator 4 2)
    × (0 < 2)
unfolding get_pages_raw search advance take_frame drop_streak first_scan free_frames
get_pages_raw-IsArea_example =
    get_pages_raw-IsArea some_allocator (take_area some_allocator 4 2) 2 0x4000 64
      some_allocator-IsValid refl

get_pages_raw_total_example : get_pages_raw 64 some_allocator 13 ≢ none
get_pages_raw_total_example =
    get_pages_raw_total some_allocator 13 64 some_allocator-IsValid (omega arith)

free_pages_raw-get_pages_raw_example :
    used (free_pages_raw (take_area some_allocator 4 2) 2 0x4000).bitmap 5 ≡ used some_bitmap 5
unfolding get_pages_raw search advance take_frame drop_streak first_scan free_frames
free_pages_raw-get_pages_raw_example =
    free_pages_raw-get_pages_raw some_allocator (take_area some_allocator 4 2) 2 0x4000 64 5
      some_allocator-IsValid refl

-- One usable entry of four pages.
abbrev some_entry : MemmapEntry
some_entry = record { base = 0x1000; size = 0x4000; entry_type = 0 }

abbrev booted : Allocator
booted = early_initialize_pf_bitmap (some_entry ∷ []) 0x1000 (init_pf_allocator_metadata (λ i. 0) 2)

early_init_page_frame_allocator_lem_example :
    (i : ℕ) × (entry : MemmapEntry) × (get_elem? (some_entry ∷ []) i ≡ some entry)
    × (entry.entry_type ≡ limine_memmap_usable)
    × (sizeof_allocator + booted.bitmap_size < entry.size)
    × (16 ≤ booted.bitmap_size * 8)
    × ((p : ℕ)
        → p < booted.bitmap_size * 8
        → used booted.bitmap p
          ≡ (in_metadata entry.base booted p || not (in_usable (some_entry ∷ []) p)))
unfolding early_init_page_frame_allocator find_contiguous_memory_region
early_init_page_frame_allocator_lem_example =
    early_init_page_frame_allocator_lem (some_entry ∷ []) 0x10000 16 (λ i. 0) booted
      (λ i. omega arith) refl
