-- ===== src/PfAlloc/Frames.antt =====
-- Which frames `__get_pages` and `free_pages_raw` of pf_alloc.c hand out and take back.
use native.Mathlib.Nat.{mod-lt}
use hyve_mind.Prelude.{
  ℕ, ◌+◌, ◌*◌, ◌/◌, ◌%◌, ◌≤◌, ◌<◌, ◌≡◌, refl, sym, ap, ◌∙◌, ◌≢◌, inl, false, ◌||◌, none, some,
  arith,
}
use hyve_mind.PfAlloc.Bitmap.{
  used, AreBytes, in_area, set_bitmap_region-used, clear_bitmap_region-used,
}
use hyve_mind.PfAlloc.Search.{
  AtRest, AtRest-IsStreak, IsFreeArea, search-IsFreeArea, Enough, search_ends,
}
use hyve_mind.PfAlloc.{
  Allocator, page_size, phys_to_pfn, pfn_to_phys, allocated_nr_frames, freed_nr_frames,
  set_bitmap_region, search, first_scan, byte_hint, bit_hint, take_area, get_pages_raw,
  free_pages_raw,
}

pub record IsValid (a : Allocator) : Type 0 where
  pub bytes : AreBytes a.bitmap
  pub byte_hint_in : a.last_alloc_byte_hint < a.bitmap_size
  pub bit_hint_in : a.last_alloc_bit_hint < 8

-- What a caller of `__get_pages` may rely on.
pub record IsArea (a a' : Allocator) (nr addr : ℕ) : Type 0 where
  pub aligned : addr % page_size ≡ 0
  pub inside : phys_to_pfn addr + nr ≤ a.bitmap_size * 8
  pub was_free :
      (p : ℕ) → phys_to_pfn addr ≤ p → p < phys_to_pfn addr + nr → used a.bitmap p ≡ false
  pub marked : (p : ℕ) → used a'.bitmap p ≡ (in_area (phys_to_pfn addr) nr p || used a.bitmap p)

first_scan-AtRest :
    (a : Allocator) (nr : ℕ) → IsValid a → 0 < nr → AtRest a.bitmap_size nr (first_scan a nr)
unfolding first_scan
first_scan-AtRest a nr v h = (v.byte_hint_in, v.bit_hint_in, refl, h)

first_scan_in :
    (a : Allocator) (nr : ℕ)
    → IsValid a
    → ((first_scan a nr).byte_pos < a.bitmap_size) × ((first_scan a nr).bit_pos < 8)
unfolding first_scan
first_scan_in a nr v = (v.byte_hint_in, v.bit_hint_in)

first_scan-Enough :
    (a : Allocator) (nr fuel : ℕ)
    → IsValid a
    → a.bitmap_size * 16 < fuel
    → Enough (a.bitmap_size * 8) fuel (first_scan a nr)
unfolding first_scan
first_scan-Enough a nr fuel v h = inl (omega (arith, v.byte_hint_in), omega arith)

-- The search always ends: fuel for two rounds of the bitmap is enough.
pub get_pages_raw_total :
    (a : Allocator) (nr fuel : ℕ)
    → IsValid a
    → a.bitmap_size * 16 < fuel
    → get_pages_raw fuel a nr ≢ none
unfolding get_pages_raw
get_pages_raw_total a nr fuel v h =
    let ends =
      search_ends a.bitmap a.bitmap_size nr fuel (first_scan a nr) (first_scan_in a nr v).0
        (first_scan_in a nr v).1 (first_scan-Enough a nr fuel v h) in
    ground (arith, ends)

take_area-bitmap :
    (a : Allocator) (start nr : ℕ)
    → ((take_area a start nr).bitmap ≡ set_bitmap_region a.bitmap (pfn_to_phys start) nr)
      × ((take_area a start nr).bitmap_size ≡ a.bitmap_size)
      × ((take_area a start nr).last_alloc_byte_hint ≡ byte_hint a.bitmap_size start nr)
      × ((take_area a start nr).last_alloc_bit_hint ≡ bit_hint start nr)
unfolding take_area allocated_nr_frames
take_area-bitmap a start nr =
    (ap (λ (p : ℕ). set_bitmap_region a.bitmap (pfn_to_phys p) nr) (omega arith), refl, refl, refl)

found :
    (a a' : Allocator) (nr addr fuel : ℕ)
    → get_pages_raw fuel a nr ≡ some (some (addr, a'))
    → (start : ℕ) × (0 < nr)
      × (search fuel a.bitmap a.bitmap_size nr (first_scan a nr) ≡ some (some start))
      × (addr ≡ pfn_to_phys start)
      × (a' ≡ take_area a start nr)
unfolding get_pages_raw
found a a' nr addr fuel e = ground arith

hints_in :
    (a : Allocator) (start nr : ℕ)
    → IsValid a
    → (byte_hint a.bitmap_size start nr < a.bitmap_size) × (bit_hint start nr < 8)
unfolding byte_hint bit_hint
hints_in a start nr v =
    let pos : 0 < a.bitmap_size = omega (arith, v.byte_hint_in) in
    ground (
      arith,
      mod-lt (start / 8 + 1 + (nr / 8 + 1)) pos,
      mod-lt (start / 8 + 1 + nr / 8) pos,
      mod-lt (start / 8 + (nr / 8 + 1)) pos,
      mod-lt (start / 8 + nr / 8) pos,
    )

taken-used :
    (a : Allocator) (start nr p : ℕ)
    → IsValid a
    → AreBytes (take_area a start nr).bitmap
      × (used (take_area a start nr).bitmap p ≡ (in_area start nr p || used a.bitmap p))
taken-used a start nr p v =
    let r = set_bitmap_region-used a.bitmap (pfn_to_phys start) nr p v.bytes in
    rw ((take_area-bitmap a start nr).0)
      (r.0, r.1 ∙ ap (λ (s : ℕ). in_area s nr p || used a.bitmap p) (omega arith))

take_area-IsValid : (a : Allocator) (start nr : ℕ) → IsValid a → IsValid (take_area a start nr)
take_area-IsValid a start nr v =
    let t = take_area-bitmap a start nr in
    let h = hints_in a start nr v in
    record {
      bytes = (taken-used a start nr 0 v).0;
      byte_hint_in = rw (t.1, t.2) h.0;
      bit_hint_in = rw (t.3) h.1;
    }

take_area-IsArea :
    (a : Allocator) (start nr : ℕ)
    → IsValid a
    → IsFreeArea a.bitmap a.bitmap_size nr start
    → IsArea a (take_area a start nr) nr (pfn_to_phys start)
take_area-IsArea a start nr v (fits, free) =
    let back : phys_to_pfn (pfn_to_phys start) ≡ start = omega arith in
    record {
      aligned = omega arith;
      inside = omega (arith, fits, back);
      was_free = λ p lo hi. free p (omega (arith, lo, back)) (omega (arith, hi, back));
      marked = λ p.
          (taken-used a start nr p v).1
          ∙ ap (λ (s : ℕ). in_area s nr p || used a.bitmap p) (sym back);
    }

-- A successful `__get_pages` hands out `nr` frames inside the bitmap that were free, marks exactly
-- these, and leaves a valid allocator.
pub get_pages_raw-IsArea :
    (a a' : Allocator) (nr addr fuel : ℕ)
    → IsValid a
    → get_pages_raw fuel a nr ≡ some (some (addr, a'))
    → IsArea a a' nr addr × IsValid a' × (0 < nr)
get_pages_raw-IsArea a a' nr addr fuel v e =
    let f = found a a' nr addr fuel e in
    let start = f.0 in
    let streak =
      AtRest-IsStreak a.bitmap a.bitmap_size nr (first_scan a nr) (first_scan-AtRest a nr v f.1) in
    let area = search-IsFreeArea a.bitmap a.bitmap_size nr fuel start _ streak f.2 in
    rw (f.3, f.4) (take_area-IsArea a start nr v area, take_area-IsValid a start nr v, f.1)

-- Giving an area back makes the bitmap what it was.
pub free_pages_raw-get_pages_raw :
    (a a' : Allocator) (nr addr fuel p : ℕ)
    → IsValid a
    → get_pages_raw fuel a nr ≡ some (some (addr, a'))
    → used (free_pages_raw a' nr addr).bitmap p ≡ used a.bitmap p
unfolding free_pages_raw freed_nr_frames
free_pages_raw-get_pages_raw a a' nr addr fuel p v e =
    let r = get_pages_raw-IsArea a a' nr addr fuel v e in
    let c = (clear_bitmap_region-used a'.bitmap addr nr p r.1.bytes).1 in
    let m = r.0.marked p in let free = r.0.was_free p in ground (arith, c, m, free)
