-- ===== src/PfAlloc/Counters.antt =====
-- The frame counters and the search hint of pf_alloc.c.
use native.Mathlib.Nat.{mod-eq_of_lt}
use hyve_mind.Prelude.{ℕ, ◌+◌, ◌*◌, ◌/◌, ◌%◌, ◌^◌, ◌≤◌, ◌<◌, ◌≡◌, arith}
use hyve_mind.PfAlloc.{
  Allocator, add64, allocated_nr_frames, freed_nr_frames, free_frames, byte_hint, bit_hint,
  take_area, free_pages_raw,
}

pub record AreWords (a : Allocator) : Type 0 where
  pub allocatable : a.allocatable_frames < 2 ^ 64
  pub allocated : a.allocated_page_frames < 2 ^ 64

-- Taking an area of `nr` frames lowers what the allocator takes to be free by twice `nr`: the
-- frames are taken off `allocatable_frames`, and `free_frames` subtracts them once more.
pub free_frames-take_area :
    (a : Allocator) (start nr : ℕ)
    → AreWords a
    → nr < 2 ^ 63
    → add64 (free_frames (take_area a start nr)) (2 * nr) ≡ free_frames a
unfolding free_frames take_area allocated_nr_frames
free_frames-take_area a start nr w h = omega arith

-- So once more than half of the free frames are taken at once, the count runs below zero, and the
-- next request of any size passes the check.
pub free_frames_underflow :
    (a : Allocator) (start nr : ℕ)
    → AreWords a
    → nr ≤ free_frames a
    → free_frames a < 2 * nr
    → nr < 2 ^ 62
    → 2 ^ 63 ≤ free_frames (take_area a start nr)
unfolding free_frames take_area allocated_nr_frames
free_frames_underflow a start nr w h lt small = omega arith

-- Giving the area back restores both counters.
pub counters-free_pages_raw :
    (a : Allocator) (start nr addr : ℕ)
    → AreWords a
    → nr < 2 ^ 64
    → ((free_pages_raw (take_area a start nr) nr addr).allocatable_frames ≡ a.allocatable_frames)
      × ((free_pages_raw (take_area a start nr) nr addr).allocated_page_frames
          ≡ a.allocated_page_frames)
unfolding free_pages_raw freed_nr_frames take_area allocated_nr_frames
counters-free_pages_raw a start nr addr w h = omega arith

-- The position of the stored hint.
abbrev pub hint : ℕ → ℕ → ℕ → ℕ
hint bitmap_size start nr = byte_hint bitmap_size start nr * 8 + bit_hint start nr

-- An area that ends inside the byte in which its last partial byte begins leaves the hint right
-- behind it.
pub hint_behind :
    (bitmap_size start nr : ℕ)
    → 0 < nr % 8
    → start % 8 + nr % 8 < 8
    → start + nr < bitmap_size * 8
    → hint bitmap_size start nr ≡ start + nr
unfolding byte_hint bit_hint
hint_behind bitmap_size start nr r h lt =
    ground (arith, mod-eq_of_lt {n = start / 8 + nr / 8} {m = bitmap_size} (omega arith))

-- One that runs over into the next byte leaves the hint eight frames too early, inside the area or
-- before it.
pub hint_too_early :
    (bitmap_size start nr : ℕ)
    → 8 < start % 8 + nr % 8
    → start + nr < bitmap_size * 8
    → hint bitmap_size start nr + 8 ≡ start + nr
unfolding byte_hint bit_hint
hint_too_early bitmap_size start nr h lt =
    ground (arith, mod-eq_of_lt {n = start / 8 + nr / 8} {m = bitmap_size} (omega arith))
