-- ===== src/Vpic/Lines.antt =====
-- The byte masks of vpic.c, line by line.
use hyve_mind.Prelude.{
  ◌==◌, if◌then◌else◌, ==_iff, every_below, table_holds, bit_at, bit_at-lt, bit_at-bit_and,
  bit_at-bit_or, ℕ, ◌-◌, ◌<◌, min, max, bit_and, bit_or, ◌≡◌, refl, ◌∙◌, Bool, true, false, arith,
}
use hyve_mind.Vpic.Commands.{not8, u8_lshift_one}

not8_table : every_below 256 (λ a. every_below 8 (λ j. bit_at (not8 a) j == 1 - bit_at a j)) ≡ true
unfolding every_below
not8_table = refl

pub bit_at-not8 : (a j : ℕ) → a < 256 → j < 8 → bit_at (not8 a) j ≡ 1 - bit_at a j
bit_at-not8 a j ha hj =
    (==_iff _ _).0
      (table_holds 256 8 (λ a j. bit_at (not8 a) j == 1 - bit_at a j) a j not8_table ha hj)

mask_table :
    every_below 8
      (λ i. every_below 8 (λ j. bit_at (u8_lshift_one i) j == (if i == j then 1 else 0)))
    ≡ true
unfolding every_below
mask_table = refl

pub bit_at-mask : (i j : ℕ) → i < 8 → j < 8 → bit_at (u8_lshift_one i) j ≡ (if i == j then 1 else 0)
bit_at-mask i j hi hj = (==_iff _ _).0 (
    table_holds 8 8 (λ i j. bit_at (u8_lshift_one i) j == (if i == j then 1 else 0)) i j mask_table
      hi hj)

pub mask-lt : (i : ℕ) → u8_lshift_one i < 256
mask-lt i = omega arith

clears : (b : Bool) (x : ℕ) → x < 2 → min x (1 - (if b then 1 else 0)) ≡ (if b then 0 else x)
clears true x hx = omega arith
clears false x hx = omega arith

sets : (b : Bool) (x : ℕ) → x < 2 → max x (if b then 1 else 0) ≡ (if b then 1 else x)
sets true x hx = omega arith
sets false x hx = omega arith

-- `x & ~(1 << i)` and `x | (1 << i)`, line by line.
pub bit_at-clear_line :
    (x i j : ℕ)
    → i < 8
    → j < 8
    → bit_at (bit_and x (not8 (u8_lshift_one i))) j ≡ (if i == j then 0 else bit_at x j)
bit_at-clear_line x i j hi hj =
    bit_at-bit_and x (not8 (u8_lshift_one i)) j
    ∙ rw (bit_at-not8 (u8_lshift_one i) j (mask-lt i) hj, bit_at-mask i j hi hj)
        (clears (i == j) (bit_at x j) (bit_at-lt x j))

pub bit_at-set_line :
    (x i j : ℕ)
    → i < 8
    → j < 8
    → bit_at (bit_or x (u8_lshift_one i)) j ≡ (if i == j then 1 else bit_at x j)
bit_at-set_line x i j hi hj =
    bit_at-bit_or x (u8_lshift_one i) j
    ∙ rw (bit_at-mask i j hi hj) (sets (i == j) (bit_at x j) (bit_at-lt x j))
