-- ===== src/PfAlloc/Bitmap.antt =====
-- The bitmap of pf_alloc.c, frame by frame.
use hyve_mind.Prelude.{
  ltb, leb, ◌==◌, ltb→lt, every_below, table_row, table_holds, ℕ, zero, suc, ◌+◌, ◌-◌, ◌*◌, ◌/◌,
  ◌%◌, ◌^◌, ◌<◌, bit_and, bit_or, ◌≡◌, refl, sym, ap, ap₂, ◌∙◌, ◌≢◌, Bool, true, false, not, ◌&&◌,
  ◌||◌, arith, ℕ_discrete,
}
use hyve_mind.PfAlloc.{
  Bitmap, frame_mask, store, set_bitmap_entry, clear_bitmap_entry, region_loop, set_bitmap_region,
  clear_bitmap_region, frame_is_free,
}

-- Frame `pfn` is marked as used.
abbrev pub used : Bitmap → ℕ → Bool
used b pfn = not (frame_is_free b (pfn / 2 ^ 3) (pfn % 8))

abbrev pub AreBytes : Bitmap → Type 0
AreBytes b = (i : ℕ) → b i < 256

abbrev bit_test : ℕ → ℕ → Bool
bit_test byte bit = not (bit_and byte (frame_mask bit) == 0)

same_bool : Bool → Bool → Bool
same_bool true b = b
same_bool false b = not b

same_bool→eq : (a b : Bool) → same_bool a b ≡ true → a ≡ b
unfolding same_bool
same_bool→eq true true h = refl
same_bool→eq true false h = cc
same_bool→eq false true h = cc
same_bool→eq false false h = refl

set_table :
    every_below 256 (λ byte. every_below 8 (λ i.
      ltb (bit_or byte (frame_mask i)) 256
      && every_below 8
          (λ j. same_bool (bit_test (bit_or byte (frame_mask i)) j) (i == j || bit_test byte j))))
    ≡ true
unfolding every_below same_bool
set_table = refl

clear_table :
    every_below 256 (λ byte. every_below 8 (λ i.
      ltb (bit_and byte (255 - frame_mask i)) 256
      && every_below 8 (λ j.
        same_bool
          (bit_test (bit_and byte (255 - frame_mask i)) j)
          (not (i == j) && bit_test byte j))))
    ≡ true
unfolding every_below same_bool
clear_table = refl

and-true : (a b : Bool) → (a && b) ≡ true → (a ≡ true) × (b ≡ true)
and-true true b h = (refl, h)
and-true false b h = (cc, cc)

module _ (byte i : ℕ) (hb : byte < 256) (hi : i < 8) where
  set_row :
      (bit_or byte (frame_mask i) < 256)
      × ((j : ℕ) → j < 8 → bit_test (bit_or byte (frame_mask i)) j ≡ (i == j || bit_test byte j))
  set_row =
      let row = and-true _ _ (
        table_holds 256 8
          (λ byte i.
            ltb (bit_or byte (frame_mask i)) 256
            && every_below 8 (λ j.
              same_bool (bit_test (bit_or byte (frame_mask i)) j) (i == j || bit_test byte j)))
          byte i set_table hb hi) in
      (ltb→lt _ _ row.0, λ j hj. same_bool→eq _ _ (table_row 8 _ j row.1 hj))

  clear_row :
      (bit_and byte (255 - frame_mask i) < 256)
      × ((j : ℕ)
          → j < 8
          → bit_test (bit_and byte (255 - frame_mask i)) j ≡ (not (i == j) && bit_test byte j))
  clear_row =
      let row = and-true _ _ (
        table_holds 256 8
          (λ byte i.
            ltb (bit_and byte (255 - frame_mask i)) 256
            && every_below 8 (λ j.
              same_bool (bit_test (bit_and byte (255 - frame_mask i)) j)
                (not (i == j) && bit_test byte j)))
          byte i clear_table hb hi) in
      (ltb→lt _ _ row.0, λ j hj. same_bool→eq _ _ (table_row 8 _ j row.1 hj))

-- A frame is its byte and its bit.
frame_eq : (p q : ℕ) → p / 8 ≡ q / 8 → (p == q) ≡ (p % 8 == q % 8)
frame_eq p q e = ground arith

frame_ne : (p q : ℕ) → p / 8 ≢ q / 8 → (p == q) ≡ false
frame_ne p q e = ground arith

set_bitmap_entry-AreBytes :
    (b : Bitmap) (addr : ℕ) → AreBytes b → AreBytes (set_bitmap_entry b addr)
unfolding set_bitmap_entry
set_bitmap_entry-AreBytes b addr h j = elim (ℕ_discrete j (addr / 4096 / 8)) [
  | yes e ↦ ground (
    arith,
    (set_row (b (addr / 4096 / 8)) (addr / 4096 % 8) (h (addr / 4096 / 8)) (omega arith)).0,
  )
  | no n ↦ ground (arith, h j)
]

stored_here :
    (b : Bitmap) (q v p : ℕ) → q / 8 ≡ p / 8 → used (store b (q / 8) v) p ≡ bit_test v (p % 8)
stored_here b q v p e = let t : (p / 8 == q / 8) ≡ true = ground arith in rw t

stored_elsewhere : (b : Bitmap) (q v p : ℕ) → q / 8 ≢ p / 8 → used (store b (q / 8) v) p ≡ used b p
stored_elsewhere b q v p n = let t : (p / 8 == q / 8) ≡ false = ground arith in rw t

set_bitmap_entry-used :
    (b : Bitmap) (addr p : ℕ)
    → AreBytes b
    → used (set_bitmap_entry b addr) p ≡ (addr / 4096 == p || used b p)
unfolding set_bitmap_entry
set_bitmap_entry-used b addr p h = elim (ℕ_discrete (addr / 4096 / 8) (p / 8)) [
  | yes e ↦
      let q = addr / 4096 in
      stored_here b q (bit_or (b (q / 8)) (frame_mask (q % 8))) p e
      ∙ (set_row (b (q / 8)) (q % 8) (h (q / 8)) (omega arith)).1 (p % 8) (omega arith)
      ∙ ap₂ ◌||◌ (sym (frame_eq q p e)) (ap (λ (i : ℕ). bit_test (b i) (p % 8)) e)
  | no n ↦
      stored_elsewhere b (addr / 4096) _ p n
      ∙ ap (λ (t : Bool). t || used b p) (sym (frame_ne (addr / 4096) p n))
]

clear_bitmap_entry-AreBytes :
    (b : Bitmap) (addr : ℕ) → AreBytes b → AreBytes (clear_bitmap_entry b addr)
unfolding clear_bitmap_entry
clear_bitmap_entry-AreBytes b addr h j = elim (ℕ_discrete j (addr / 4096 / 8)) [
  | yes e ↦ ground (
    arith,
    (clear_row (b (addr / 4096 / 8)) (addr / 4096 % 8) (h (addr / 4096 / 8)) (omega arith)).0,
  )
  | no n ↦ ground (arith, h j)
]

clear_bitmap_entry-used :
    (b : Bitmap) (addr p : ℕ)
    → AreBytes b
    → used (clear_bitmap_entry b addr) p ≡ (not (addr / 4096 == p) && used b p)
unfolding clear_bitmap_entry
clear_bitmap_entry-used b addr p h = elim (ℕ_discrete (addr / 4096 / 8) (p / 8)) [
  | yes e ↦
      let q = addr / 4096 in
      stored_here b q (bit_and (b (q / 8)) (255 - frame_mask (q % 8))) p e
      ∙ (clear_row (b (q / 8)) (q % 8) (h (q / 8)) (omega arith)).1 (p % 8) (omega arith)
      ∙ ap₂ (λ s t. not s && t) (sym (frame_eq q p e)) (ap (λ (i : ℕ). bit_test (b i) (p % 8)) e)
  | no n ↦
      stored_elsewhere b (addr / 4096) _ p n
      ∙ ap (λ (t : Bool). not t && used b p) (sym (frame_ne (addr / 4096) p n))
]

-- The frames of an area.
abbrev pub in_area : ℕ → ℕ → ℕ → Bool
in_area first nr p = leb first p && ltb p (first + nr)

region_loop_lem :
    (entry : Bitmap → ℕ → Bitmap) (f : Bool → Bool → Bool)
    → ((u : Bool) → f false u ≡ u)
    → ((s t u : Bool) → f s (f t u) ≡ f (t || s) u)
    → ((b : Bitmap) (addr : ℕ) → AreBytes b → AreBytes (entry b addr))
    → ((b : Bitmap) (addr p : ℕ)
        → AreBytes b
        → used (entry b addr) p ≡ f (addr / 4096 == p) (used b p))
    → (rounds i : ℕ) (b : Bitmap) (start p : ℕ) → AreBytes b
    → AreBytes (region_loop entry rounds i b start)
      × (used (region_loop entry rounds i b start) p
          ≡ f (in_area (start / 4096 + i) rounds p) (used b p))
unfolding region_loop
region_loop_lem entry f unit step keep one zero i b start p h =
    (h, sym (unit (used b p)) ∙ ap (λ (t : Bool). f t (used b p)) (ground arith))
region_loop_lem entry f unit step keep one (suc rounds) i b start p h =
    let addr = start + i * 4096 in
    let rest =
      region_loop_lem entry f unit step keep one rounds (i + 1) (entry b addr) start p
        (keep b addr h) in
    (
      rest.0,
      rest.1
          ∙ ap (f (in_area (start / 4096 + (i + 1)) rounds p)) (one b addr p h)
          ∙ step (in_area (start / 4096 + (i + 1)) rounds p) (addr / 4096 == p) (used b p)
          ∙ ap (λ (t : Bool). f t (used b p))
              (area_step (start / 4096) i rounds p (addr / 4096) (omega arith)),
    )
  where
    area_step :
        (s i rounds p q : ℕ)
        → q ≡ s + i
        → (q == p || in_area (s + (i + 1)) rounds p) ≡ in_area (s + i) (suc rounds) p
    area_step s i rounds p q e = ground arith

or_step : (s t u : Bool) → (s || (t || u)) ≡ ((t || s) || u)
or_step true true u = refl
or_step true false u = refl
or_step false true u = refl
or_step false false u = refl

and_not_step : (s t u : Bool) → (not s && (not t && u)) ≡ (not (t || s) && u)
and_not_step true true u = refl
and_not_step true false u = refl
and_not_step false true u = refl
and_not_step false false u = refl

-- Marking an area marks exactly its frames.
pub set_bitmap_region-used :
    (b : Bitmap) (start nr p : ℕ)
    → AreBytes b
    → AreBytes (set_bitmap_region b start nr)
      × (used (set_bitmap_region b start nr) p ≡ (in_area (start / 4096) nr p || used b p))
unfolding set_bitmap_region
set_bitmap_region-used b start nr p h =
    let r =
      region_loop_lem set_bitmap_entry ◌||◌ (λ u. refl) or_step set_bitmap_entry-AreBytes
        set_bitmap_entry-used nr 0 b start p h in
    (r.0, r.1 ∙ ap (λ (s : ℕ). in_area s nr p || used b p) (omega arith))

-- Clearing an area clears exactly its frames.
pub clear_bitmap_region-used :
    (b : Bitmap) (start nr p : ℕ)
    → AreBytes b
    → AreBytes (clear_bitmap_region b start nr)
      × (used (clear_bitmap_region b start nr) p ≡ (not (in_area (start / 4096) nr p) && used b p))
unfolding clear_bitmap_region
clear_bitmap_region-used b start nr p h =
    let r =
      region_loop_lem clear_bitmap_entry (λ s u. not s && u) (λ u. refl) and_not_step
        clear_bitmap_entry-AreBytes clear_bitmap_entry-used nr 0 b start p h in
    (r.0, r.1 ∙ ap (λ (s : ℕ). not (in_area s nr p) && used b p) (omega arith))
