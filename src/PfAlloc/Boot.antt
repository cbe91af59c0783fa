-- ===== src/PfAlloc/Boot.antt =====
-- The set-up of the allocator at boot, and the functions that hand out mapped pages: pf_alloc.c.
use hyve_mind.Prelude.{
  ltb, ◌==◌, if◌then◌else◌, Bool-cases, Option-cases, get_elem?, every_below, table_row, ℕ, suc,
  ◌+◌, ◌-◌, ◌*◌, ◌/◌, ◌%◌, ◌^◌, ◌≤◌, ◌<◌, bit_and, ◌≡◌, refl, sym, ap, ap₂, ◌∙◌, inl, inr, Bool,
  true, false, not, ◌&&◌, ◌||◌, Option, none, some, List, [], ◌∷◌, arith, dec_lt, ℕ_discrete,
}
use hyve_mind.PfAlloc.{
  Bitmap, Allocator, page_size, frame_mask, add64, allocated_nr_frames, set_bitmap_region,
  clear_bitmap_region,
}
use hyve_mind.PfAlloc.Bitmap.{
  used, AreBytes, in_area, set_bitmap_region-used, clear_bitmap_region-used,
}

-- `struct limine_memmap_entry`; the only type that the allocator tells apart is 0, usable memory.
pub record MemmapEntry : Type 0 where
  pub base : ℕ
  pub size : ℕ
  pub entry_type : ℕ

abbrev pub limine_memmap_usable : ℕ
limine_memmap_usable = 0

unfoldable pub find_contiguous_memory_region : List MemmapEntry → ℕ → ℕ → Option ℕ
find_contiguous_memory_region [] direct_mapping_offset req_region_size = none
find_contiguous_memory_region (entry ∷ entries) direct_mapping_offset req_region_size =
    if entry.entry_type == limine_memmap_usable && ltb req_region_size entry.size
    then some (entry.base + direct_mapping_offset)
    else find_contiguous_memory_region entries direct_mapping_offset req_region_size

-- `sizeof(struct pf_bitmap_allocator)`.
abbrev pub sizeof_allocator : ℕ
sizeof_allocator = 48

-- `bitmap` is what lies behind the bitmap in memory.
pub init_pf_allocator_metadata : Bitmap → ℕ → Allocator
init_pf_allocator_metadata bitmap bitmap_length = record {
  bitmap = λ i. if ltb i bitmap_length then 0xff else bitmap i;
  bitmap_size = bitmap_length;
  last_alloc_byte_hint = 0;
  last_alloc_bit_hint = 0;
  allocatable_frames = 0;
  allocated_page_frames = 0;
}

abbrev pub byte_len_to_pages : ℕ → ℕ
byte_len_to_pages len = len / page_size + (if len % page_size == 0 then 0 else 1)

-- The loop over the memory map.
pub free_usable_regions : List MemmapEntry → Allocator → Allocator
free_usable_regions [] a = a
free_usable_regions (entry ∷ entries) a =
    if entry.entry_type == limine_memmap_usable
    then free_usable_regions entries (record a {
      bitmap = clear_bitmap_region a.bitmap entry.base (byte_len_to_pages entry.size);
      allocatable_frames = add64 a.allocatable_frames (byte_len_to_pages entry.size);
    })
    else free_usable_regions entries a

-- `allocator_base` is the physical address of the allocator.
pub early_initialize_pf_bitmap : List MemmapEntry → ℕ → Allocator → Allocator
early_initialize_pf_bitmap entries allocator_base a =
    let a = free_usable_regions entries a in
    let used_pages = byte_len_to_pages (sizeof_allocator + a.bitmap_size) in
    allocated_nr_frames (record a { bitmap = set_bitmap_region a.bitmap allocator_base used_pages })
      used_pages

-- `none` is the -1 of a memory map without a region that is large enough.
unfoldable pub early_init_page_frame_allocator :
    List MemmapEntry → ℕ → ℕ → Bitmap → Option Allocator
early_init_page_frame_allocator entries direct_mapping_offset nr_of_pfns bitmap =
    let bitmap_size = nr_of_pfns / 2 ^ 3 + (if nr_of_pfns % 8 == 0 then 0 else 1) in
    elim (find_contiguous_memory_region entries direct_mapping_offset
      (sizeof_allocator + bitmap_size)) [
        | none ↦ none
        | some region ↦ some (
            early_initialize_pf_bitmap entries (region - direct_mapping_offset)
              (init_pf_allocator_metadata bitmap bitmap_size))
      ]

-- Frame `p` lies in a usable entry, whose last page may be a partial one.
pub in_usable : List MemmapEntry → ℕ → Bool
in_usable [] p = false
in_usable (entry ∷ entries) p =
    (entry.entry_type == limine_memmap_usable
      && in_area (entry.base / 4096) (byte_len_to_pages entry.size) p)
    || in_usable entries p

free_usable_regions_lem :
    (entries : List MemmapEntry) (a : Allocator) (p : ℕ)
    → AreBytes a.bitmap
    → AreBytes (free_usable_regions entries a).bitmap
      × ((free_usable_regions entries a).bitmap_size ≡ a.bitmap_size)
      × (used (free_usable_regions entries a).bitmap p
          ≡ (not (in_usable entries p) && used a.bitmap p))
unfolding free_usable_regions in_usable
free_usable_regions_lem [] a p h = (h, refl, refl)
free_usable_regions_lem (entry ∷ entries) a p h =
    elim (Bool-cases (entry.entry_type == limine_memmap_usable)) [
      | inl e ↦
          let pages = byte_len_to_pages entry.size in
          let one = clear_bitmap_region-used a.bitmap entry.base pages p h in
          let rest =
            free_usable_regions_lem entries
              (record a {
                bitmap = clear_bitmap_region a.bitmap entry.base pages;
                allocatable_frames = add64 a.allocatable_frames pages;
              })
              p one.0 in
          rw e (
            rest.0,
            rest.1,
            rest.2
                ∙ ap (λ (t : Bool). not (in_usable entries p) && t) one.1
                ∙ both (in_usable entries p) (in_area (entry.base / 4096) pages p)
                    (used a.bitmap p),
          )
      | inr e ↦ rw e (free_usable_regions_lem entries a p h)
    ]
  where
    both : (s t u : Bool) → (not s && (not t && u)) ≡ (not (t || s) && u)
    both true true u = refl
    both true false u = refl
    both false true u = refl
    both false false u = refl

-- The frames of the allocator's own region.
abbrev pub in_metadata : ℕ → Allocator → ℕ → Bool
in_metadata allocator_base a p =
    in_area (allocator_base / 4096) (byte_len_to_pages (sizeof_allocator + a.bitmap_size)) p

pub early_initialize_pf_bitmap_lem :
    (entries : List MemmapEntry) (allocator_base : ℕ) (a : Allocator) (p : ℕ)
    → AreBytes a.bitmap
    → used (early_initialize_pf_bitmap entries allocator_base a).bitmap p
      ≡ (in_metadata allocator_base a p || (not (in_usable entries p) && used a.bitmap p))
unfolding early_initialize_pf_bitmap allocated_nr_frames
early_initialize_pf_bitmap_lem entries allocator_base a p h =
    let f = free_usable_regions_lem entries a p h in
    let pages =
      byte_len_to_pages (sizeof_allocator + (free_usable_regions entries a).bitmap_size) in
    let s =
      set_bitmap_region-used (free_usable_regions entries a).bitmap allocator_base pages p f.0 in
    s.1
    ∙ ap (λ (t : Bool). in_area (allocator_base / 4096) pages p || t) f.2
    ∙ ap
        (λ (n : ℕ).
          in_area (allocator_base / 4096) (byte_len_to_pages (sizeof_allocator + n)) p
          || (not (in_usable entries p) && used a.bitmap p))
        f.1

filled_table : every_below 8 (λ i. not (bit_and 0xff (frame_mask i) == 0)) ≡ true
unfolding every_below
filled_table = refl

init_pf_allocator_metadata_lem :
    (bitmap : Bitmap) (size p : ℕ)
    → AreBytes bitmap
    → AreBytes (init_pf_allocator_metadata bitmap size).bitmap
      × (p < size * 8 → used (init_pf_allocator_metadata bitmap size).bitmap p ≡ true)
unfolding init_pf_allocator_metadata
init_pf_allocator_metadata_lem bitmap size p h = (
  λ i. let old = h i in ground (arith, old),
  λ lt.
      let inside : ltb (p / 2 ^ 3) size ≡ true = ground arith in
      rw inside (
        table_row 8 (λ i. not (bit_and 0xff (frame_mask i) == 0)) (p % 8) filled_table
          (omega arith)),
)

-- A usable entry that is larger than `req`, mapped at `region`.
abbrev IsRegion : List MemmapEntry → ℕ → ℕ → ℕ → Type 0
IsRegion entries offset req region =
    (i : ℕ) × (entry : MemmapEntry) × (get_elem? entries i ≡ some entry)
    × (entry.entry_type ≡ limine_memmap_usable)
    × (req < entry.size)
    × (region ≡ entry.base + offset)

IsRegion-cons :
    (entry : MemmapEntry) (entries : List MemmapEntry) (offset req region : ℕ)
    → IsRegion entries offset req region
    → IsRegion (entry ∷ entries) offset req region
IsRegion-cons entry entries offset req region (i, first, at, t, lt, b) =
    (suc i, first, at, t, lt, b)

find_contiguous_memory_region-IsRegion :
    (entries : List MemmapEntry) (offset req region : ℕ)
    → find_contiguous_memory_region entries offset req ≡ some region
    → IsRegion entries offset req region
unfolding find_contiguous_memory_region
find_contiguous_memory_region-IsRegion [] offset req region e = cc
find_contiguous_memory_region-IsRegion (entry ∷ entries) offset req region e =
    elim (ℕ_discrete entry.entry_type limine_memmap_usable) [
      | yes t ↦ elim (dec_lt req entry.size) [
        | yes lt ↦ (0, entry, refl, t, lt, ground arith)
        | no n ↦
            IsRegion-cons entry entries offset req region
              (find_contiguous_memory_region-IsRegion entries offset req region (ground arith))
      ]
      | no n ↦
          IsRegion-cons entry entries offset req region
            (find_contiguous_memory_region-IsRegion entries offset req region (ground arith))
    ]

metadata_size : (bitmap : Bitmap) (n : ℕ) → (init_pf_allocator_metadata bitmap n).bitmap_size ≡ n
unfolding init_pf_allocator_metadata
metadata_size bitmap n = refl

early_initialize_pf_bitmap_size :
    (entries : List MemmapEntry) (base : ℕ) (a : Allocator)
    → AreBytes a.bitmap
    → (early_initialize_pf_bitmap entries base a).bitmap_size ≡ a.bitmap_size
unfolding early_initialize_pf_bitmap allocated_nr_frames
early_initialize_pf_bitmap_size entries base a h = (free_usable_regions_lem entries a 0 h).1

-- One bit for each frame.
abbrev bitmap_bytes : ℕ → ℕ
bitmap_bytes nr_of_pfns = nr_of_pfns / 2 ^ 3 + (if nr_of_pfns % 8 == 0 then 0 else 1)

init_found :
    (entries : List MemmapEntry) (offset nr_of_pfns : ℕ) (bitmap : Bitmap) (a : Allocator)
    → early_init_page_frame_allocator entries offset nr_of_pfns bitmap ≡ some a
    → (region : ℕ) × (find_contiguous_memory_region entries offset
          (sizeof_allocator + bitmap_bytes nr_of_pfns)
        ≡ some region)
      × (early_initialize_pf_bitmap entries
            (region - offset)
            (init_pf_allocator_metadata bitmap (bitmap_bytes nr_of_pfns))
          ≡ a)
unfolding early_init_page_frame_allocator
init_found entries offset nr_of_pfns bitmap a e =
    elim (Option-cases
      (find_contiguous_memory_region entries offset (sizeof_allocator + bitmap_bytes nr_of_pfns))) [
        | inl z ↦ absurd (ground arith)
        | inr (region, r) ↦ (region, r, ground arith)
      ]

-- After a successful set-up, the allocator's metadata lies in a usable entry that is larger, and a
-- frame of the bitmap is marked as used exactly if it holds metadata or lies in no usable entry.
pub early_init_page_frame_allocator_lem :
    (entries : List MemmapEntry) (offset nr_of_pfns : ℕ) (bitmap : Bitmap) (a : Allocator)
    → AreBytes bitmap
    → early_init_page_frame_allocator entries offset nr_of_pfns bitmap ≡ some a
    → (i : ℕ) × (entry : MemmapEntry) × (get_elem? entries i ≡ some entry)
      × (entry.entry_type ≡ limine_memmap_usable)
      × (sizeof_allocator + a.bitmap_size < entry.size)
      × (nr_of_pfns ≤ a.bitmap_size * 8)
      × ((p : ℕ)
          → p < a.bitmap_size * 8
          → used a.bitmap p ≡ (in_metadata entry.base a p || not (in_usable entries p)))
early_init_page_frame_allocator_lem entries offset nr_of_pfns bitmap a h e =
    let (region, r, q) = init_found entries offset nr_of_pfns bitmap a e in
    let n = bitmap_bytes nr_of_pfns in
    let (i, entry, at, t, lt, b) =
      find_contiguous_memory_region-IsRegion entries offset (sizeof_allocator + n) region r in
    let fresh = init_pf_allocator_metadata bitmap n in
    let h0 = (init_pf_allocator_metadata_lem bitmap n 0 h).0 in
    let size : a.bitmap_size ≡ n =
      ap (λ (c : Allocator). c.bitmap_size) (sym q)
      ∙ early_initialize_pf_bitmap_size entries (region - offset) fresh h0
      ∙ metadata_size bitmap n in
    let base : region - offset ≡ entry.base = omega arith in
    (
      i,
      entry,
      at,
      t,
      omega (arith, lt, size),
      ground (arith, size),
      λ p in_bitmap.
          let filled =
            (init_pf_allocator_metadata_lem bitmap n p h).1 (omega (arith, size, in_bitmap)) in
          let done = early_initialize_pf_bitmap_lem entries (region - offset) fresh p h0 in
          ap (λ (c : Allocator). used c.bitmap p) (sym q)
          ∙ done
          ∙ ap₂
              (λ (x : ℕ) (y : ℕ).
                in_area (x / 4096) (byte_len_to_pages (sizeof_allocator + y)) p
                || (not (in_usable entries p) && used fresh.bitmap p))
              base (metadata_size bitmap n ∙ sym size)
          ∙ ap (λ (u : Bool). in_metadata entry.base a p || (not (in_usable entries p) && u)) filled
          ∙ ap (λ (u : Bool). in_metadata entry.base a p || u)
              (and_true (not (in_usable entries p))),
    )
  where
    and_true : (b : Bool) → (b && true) ≡ b
    and_true true = refl
    and_true false = refl
