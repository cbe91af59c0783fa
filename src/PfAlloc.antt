-- ===== src/PfAlloc.antt =====
-- The bitmap page-frame allocator: pf_alloc.c.
--
-- The state is `struct pf_bitmap_allocator`; its bitmap is a function from byte indices to bytes, so
-- that a write past its end is a write all the same. Each operation runs under the allocator's
-- spinlock. Physical addresses lie below 2 ^ 52 and are not wrapped; the frame counters are uint64_t
-- and wrap. The search loop takes fuel, and `none` means that the fuel ran out.
pub mod Bitmap
pub mod Search
pub mod Frames
pub mod Counters
pub mod Boot
pub mod Pages
mod Tests
use hyve_mind.Prelude.{
  ltb, ◌==◌, if◌then◌else◌, ℕ, zero, suc, ◌+◌, ◌-◌, ◌*◌, ◌/◌, ◌%◌, ◌^◌, bit_and, bit_or, Bool, true,
  false, not, ◌&&◌, ◌||◌, Option, none, some,
}

abbrev pub Bitmap : Type 0
Bitmap = ℕ → ℕ

pub record Allocator : Type 0 where
  pub bitmap : Bitmap
  pub bitmap_size : ℕ
  pub last_alloc_byte_hint : ℕ
  pub last_alloc_bit_hint : ℕ
  pub allocatable_frames : ℕ
  pub allocated_page_frames : ℕ

abbrev pub page_size : ℕ
page_size = 4096

abbrev pub phys_to_pfn : ℕ → ℕ
phys_to_pfn addr = addr / 2 ^ 12

abbrev pub pfn_to_phys : ℕ → ℕ
pfn_to_phys pfn = pfn * 2 ^ 12

-- `U8_RSHIFT(128, bit_index)`.
abbrev pub frame_mask : ℕ → ℕ
frame_mask bit_index = 128 / 2 ^ bit_index

abbrev pub store : Bitmap → ℕ → ℕ → Bitmap
store b i v j = if j == i then v else b j

-- uint64_t subtraction.
abbrev pub sub64 : ℕ → ℕ → ℕ
sub64 a b = (a + 2 ^ 64 - b) % 2 ^ 64

abbrev pub add64 : ℕ → ℕ → ℕ
add64 a b = (a + b) % 2 ^ 64

pub allocated_nr_frames : Allocator → ℕ → Allocator
allocated_nr_frames a nr = record a {
  allocated_page_frames = add64 a.allocated_page_frames nr;
  allocatable_frames = sub64 a.allocatable_frames nr;
}

pub freed_nr_frames : Allocator → ℕ → Allocator
freed_nr_frames a nr = record a {
  allocatable_frames = add64 a.allocatable_frames nr;
  allocated_page_frames = sub64 a.allocated_page_frames nr;
}

pub set_bitmap_entry : Bitmap → ℕ → Bitmap
set_bitmap_entry b addr =
    let pfn = phys_to_pfn addr in
    store b (pfn / 2 ^ 3) (bit_or (b (pfn / 2 ^ 3)) (frame_mask (pfn % 8)))

pub clear_bitmap_entry : Bitmap → ℕ → Bitmap
clear_bitmap_entry b addr =
    let pfn = phys_to_pfn addr in
    store b (pfn / 2 ^ 3) (bit_and (b (pfn / 2 ^ 3)) (255 - frame_mask (pfn % 8)))

-- `for (i = 0; i < nr; i++)`, on the rounds left.
pub region_loop : (Bitmap → ℕ → Bitmap) → ℕ → ℕ → Bitmap → ℕ → Bitmap
region_loop entry zero i b start_addr = b
region_loop entry (suc rounds) i b start_addr =
    region_loop entry rounds (i + 1) (entry b (start_addr + i * page_size)) start_addr

pub set_bitmap_region : Bitmap → ℕ → ℕ → Bitmap
set_bitmap_region b start_addr nr = region_loop set_bitmap_entry nr 0 b start_addr

pub clear_bitmap_region : Bitmap → ℕ → ℕ → Bitmap
clear_bitmap_region b start_addr nr = region_loop clear_bitmap_entry nr 0 b start_addr

-- The variables of the search in `__get_pages`.
pub record Scan : Type 0 where
  pub byte_pos : ℕ
  pub bit_pos : ℕ
  pub area_start : ℕ
  pub explored_bits : ℕ
  pub free_streak : Bool
  pub remaining_needed : ℕ

-- `!is_used` at the current position.
abbrev pub frame_is_free : Bitmap → ℕ → ℕ → Bool
frame_is_free b byte_pos bit_pos = bit_and (b byte_pos) (frame_mask bit_pos) == 0

-- The end of a round: the next position, and the end of a streak at the end of the bitmap.
pub advance : ℕ → ℕ → Scan → Scan
advance bitmap_size nr s =
    let bit = (s.bit_pos + 1) % 8 in
    let byte = if bit == 0 then (s.byte_pos + 1) % bitmap_size else s.byte_pos in
    let wrapped = byte == 0 && (bit == 0) in
    record {
      byte_pos = byte;
      bit_pos = bit;
      area_start = s.area_start;
      explored_bits = s.explored_bits + 1;
      free_streak = if wrapped then false else s.free_streak;
      remaining_needed = if wrapped then nr else s.remaining_needed;
    }

-- A free frame: a streak begins or goes on.
pub take_frame : ℕ → Scan → Scan
take_frame nr s = record s {
  area_start = if s.remaining_needed == nr then s.byte_pos * 2 ^ 3 + s.bit_pos else s.area_start;
  free_streak = true;
  remaining_needed = s.remaining_needed - 1;
}

pub drop_streak : ℕ → Scan → Scan
drop_streak nr s = record s { free_streak = false; remaining_needed = nr }

-- The first frame of the area that is found, or `none` for an exhausted search.
pub search : ℕ → Bitmap → ℕ → ℕ → Scan → Option (Option ℕ)
search zero b bitmap_size nr s = none
search (suc fuel) b bitmap_size nr s =
    let taken = take_frame nr s in
    let go_on = search fuel b bitmap_size nr (advance bitmap_size nr taken) in
    let restart = search fuel b bitmap_size nr (advance bitmap_size nr (drop_streak nr s)) in
    if (ltb s.explored_bits (bitmap_size * 2 ^ 3) || s.free_streak) && not (s.remaining_needed == 0)
    then if frame_is_free b s.byte_pos s.bit_pos
      then if taken.remaining_needed == 0 then some (some taken.area_start) else go_on
      else restart
    else some none

pub first_scan : Allocator → ℕ → Scan
first_scan a nr = record {
  byte_pos = a.last_alloc_byte_hint;
  bit_pos = a.last_alloc_bit_hint;
  area_start = a.last_alloc_byte_hint * 2 ^ 3 + a.last_alloc_bit_hint;
  explored_bits = 0;
  free_streak = false;
  remaining_needed = nr;
}

-- The frames that the allocator takes to be free.
pub free_frames : Allocator → ℕ
free_frames a = sub64 a.allocatable_frames a.allocated_page_frames

-- The hint for the next search, after an area of `nr` frames from `start`.
pub byte_hint : ℕ → ℕ → ℕ → ℕ
byte_hint bitmap_size start nr =
    let byte_hint_offset = nr / 8 + (if nr % 8 == 0 then 1 else 0) in
    if (start % 8 + nr % 8) % 8 == 0
    then (start / 2 ^ 3 + 1 + byte_hint_offset) % bitmap_size
    else (start / 2 ^ 3 + byte_hint_offset) % bitmap_size

pub bit_hint : ℕ → ℕ → ℕ
bit_hint start nr = (start % 8 + nr % 8) % 8

-- `out_found_area`: the frames are marked and counted, and the hint is stored.
pub take_area : Allocator → ℕ → ℕ → Allocator
take_area a start nr =
    let pfn = start / 2 ^ 3 * 2 ^ 3 + start % 8 in
    record (allocated_nr_frames
      (record a { bitmap = set_bitmap_region a.bitmap (pfn_to_phys pfn) nr }) nr) {
        last_alloc_bit_hint = bit_hint start nr;
        last_alloc_byte_hint = byte_hint a.bitmap_size start nr;
      }

-- `__get_pages`: the physical address of the area and the new state, or `none` for -1.
pub get_pages_raw : ℕ → Allocator → ℕ → Option (Option (ℕ × Allocator))
get_pages_raw fuel a nr =
    if nr == 0 || ltb (free_frames a) nr
    then some none
    else elim (search fuel a.bitmap a.bitmap_size nr (first_scan a nr)) [
      | none ↦ none
      | some found ↦ elim found [
        | none ↦ some none
        | some start ↦
            some (some (pfn_to_phys (start / 2 ^ 3 * 2 ^ 3 + start % 8), take_area a start nr))
      ]
    ]

pub free_pages_raw : Allocator → ℕ → ℕ → Allocator
free_pages_raw a nr addr =
    freed_nr_frames (record a { bitmap = clear_bitmap_region a.bitmap addr nr }) nr
