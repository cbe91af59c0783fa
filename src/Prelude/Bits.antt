-- ===== src/Prelude/Bits.antt =====
-- Numbers by their binary digits, and the bit operations of C read digit by digit.
use Prim.Native.Nat.{
  ℕ, zero, suc, ◌+◌, ◌-◌, ◌*◌, ◌/◌, ◌%◌, ◌^◌, ◌≤◌, ◌<◌, min, max, bit_and, bit_or, digits,
  bit_and-bitwise, bit_or-bitwise,
}
use mathlib.Core.Path.{◌≡◌, refl, sym, ◌∙◌, ap}
use mathlib.Core.Logic.{◌≢◌}
use native.Mathlib.Nat.{pow-suc, one-le-pow, add-mul-mod_self_left, mod-eq_of_lt, div-add-mod}
use hyve_mind.Prelude.Tests.{ltb, if◌then◌else◌}
use native.Mathlib.Omega.{arith}

-- Digit `i`, lowest first.
abbrev pub bit_at : ℕ → ℕ → ℕ
bit_at x zero = x % 2
bit_at x (suc i) = bit_at (x / 2) i

pub bit_at-lt : (x i : ℕ) → bit_at x i < 2
bit_at-lt x zero = omega arith
bit_at-lt x (suc i) = bit_at-lt (x / 2) i

pub bit_at-zero : (i : ℕ) → bit_at 0 i ≡ 0
bit_at-zero zero = refl
bit_at-zero (suc i) = bit_at-zero i

-- Two numbers with the same digits are equal.
bit_at_ext_fuel : (n x y : ℕ) → x ≤ n → y ≤ n → ((i : ℕ) → bit_at x i ≡ bit_at y i) → x ≡ y
bit_at_ext_fuel zero x y hx hy h = omega arith
bit_at_ext_fuel (suc n) x y hx hy h =
    omega
      (arith, h 0, bit_at_ext_fuel n (x / 2) (y / 2) (omega arith) (omega arith) (λ i. h (suc i)))

pub bit_at_ext : (x y : ℕ) → ((i : ℕ) → bit_at x i ≡ bit_at y i) → x ≡ y
bit_at_ext x y h = bit_at_ext_fuel (x + y) x y (omega arith) (omega arith) h

-- An operation that works digit by digit: `z` is what is left once the first number has run out.
module _ (z : ℕ → ℕ) (f : ℕ → ℕ → ℕ) (unroll : (b : ℕ) → z b ≡ z (b / 2) * 2 + f 0 (b % 2))
    (digit : (x y : ℕ) → x < 2 → y < 2 → f x y < 2) where
  tail_digit : (i b : ℕ) → bit_at (z b) i ≡ f 0 (bit_at b i)
  tail_digit zero b = omega (arith, unroll b, digit 0 (b % 2))
  tail_digit (suc i) b = ap (λ (t : ℕ). bit_at t i) half ∙ tail_digit i (b / 2)
    where
      half : z b / 2 ≡ z (b / 2)
      half = omega (arith, unroll b, digit 0 (b % 2))

  pub bit_at-digits :
      (i n a b : ℕ) → a ≤ n → bit_at (digits z f n a b) i ≡ f (bit_at a i) (bit_at b i)
  bit_at-digits i zero zero b h =
      tail_digit i b ∙ ap (λ (t : ℕ). f t (bit_at b i)) (sym (bit_at-zero i))
  bit_at-digits i zero (suc a) b h = absurd (omega arith)
  bit_at-digits i (suc n) zero b h =
      tail_digit i b ∙ ap (λ (t : ℕ). f t (bit_at b i)) (sym (bit_at-zero i))
  bit_at-digits zero (suc n) (suc a) b h = omega (arith, digit (suc a % 2) (b % 2))
  bit_at-digits (suc i) (suc n) (suc a) b h =
      ap (λ (t : ℕ). bit_at t i) half ∙ bit_at-digits i n (suc a / 2) (b / 2) (omega arith)
    where
      half :
          (digits z f n (suc a / 2) (b / 2) * 2 + f (suc a % 2) (b % 2)) / 2
          ≡ digits z f n (suc a / 2) (b / 2)
      half = omega (arith, digit (suc a % 2) (b % 2))

pub bit_at-bit_and : (a b i : ℕ) → bit_at (bit_and a b) i ≡ min (bit_at a i) (bit_at b i)
bit_at-bit_and a b i =
    ap (λ (t : ℕ). bit_at t i) (bit_and-bitwise a b)
    ∙ bit_at-digits (λ _. zero) min (λ b. omega arith) (λ x y p q. omega arith) i a a b
        (omega arith)

pub bit_at-bit_or : (a b i : ℕ) → bit_at (bit_or a b) i ≡ max (bit_at a i) (bit_at b i)
bit_at-bit_or a b i =
    ap (λ (t : ℕ). bit_at t i) (bit_or-bitwise a b)
    ∙ bit_at-digits (λ b. b) max (λ b. omega arith) (λ x y p q. omega arith) i a a b (omega arith)

pub bit_at-pow_self : (k : ℕ) → bit_at (2 ^ k) k ≡ 1
bit_at-pow_self zero = refl
bit_at-pow_self (suc k) =
    ap (λ (t : ℕ). bit_at t k) (omega (arith, pow-suc 2 k)) ∙ bit_at-pow_self k

pub bit_at-pow_ne : (k i : ℕ) → i ≢ k → bit_at (2 ^ k) i ≡ 0
bit_at-pow_ne zero zero h = absurd (h refl)
bit_at-pow_ne zero (suc i) h = bit_at-zero i
bit_at-pow_ne (suc k) zero h = omega (arith, pow-suc 2 k)
bit_at-pow_ne (suc k) (suc i) h =
    ap (λ (t : ℕ). bit_at t i) (omega (arith, pow-suc 2 k)) ∙ bit_at-pow_ne k i (λ e. h (ap suc e))

pub bit_at-ones : (k i : ℕ) → bit_at (2 ^ k - 1) i ≡ (if ltb i k then 1 else 0)
bit_at-ones zero i = bit_at-zero i ∙ ground arith
bit_at-ones (suc k) zero = ground (arith, pow-suc 2 k, one-le-pow k 2)
bit_at-ones (suc k) (suc i) =
    ap (λ (t : ℕ). bit_at t i)
      (let e : (2 ^ suc k - 1) / 2 ≡ 2 ^ k - 1 = omega (arith, pow-suc 2 k, one-le-pow k 2) in e)
    ∙ bit_at-ones k i
    ∙ ground arith

mod-pow_suc : (x k : ℕ) → x % 2 ^ suc k ≡ x / 2 % 2 ^ k * 2 + x % 2
mod-pow_suc x k =
    ap (λ (t : ℕ). t % 2 ^ suc k) split
    ∙ add-mul-mod_self_left (x / 2 % 2 ^ k * 2 + x % 2) (2 ^ suc k) (x / 2 / 2 ^ k)
    ∙ mod-eq_of_lt small
  where
    small : x / 2 % 2 ^ k * 2 + x % 2 < 2 ^ suc k
    small = omega (arith, pow-suc 2 k, one-le-pow k 2)

    split : x ≡ x / 2 % 2 ^ k * 2 + x % 2 + 2 ^ suc k * (x / 2 / 2 ^ k)
    split =
        omega
          (arith, ap (λ (t : ℕ). t * (x / 2 / 2 ^ k)) (pow-suc 2 k), div-add-mod (x / 2) (2 ^ k))

bit_at-mod : (x k i : ℕ) → bit_at (x % 2 ^ k) i ≡ (if ltb i k then bit_at x i else 0)
bit_at-mod x zero i =
    ap (λ (t : ℕ). bit_at t i) (let e : x % 2 ^ 0 ≡ 0 = omega arith in e)
    ∙ bit_at-zero i
    ∙ ground arith
bit_at-mod x (suc k) zero = ground (arith, mod-pow_suc x k)
bit_at-mod x (suc k) (suc i) =
    ap (λ (t : ℕ). bit_at t i)
      (let e : x % 2 ^ suc k / 2 ≡ x / 2 % 2 ^ k = omega (arith, mod-pow_suc x k) in e)
    ∙ bit_at-mod (x / 2) k i
    ∙ ground arith

-- A mask of `k` ones keeps the remainder by `2 ^ k`.
pub bit_and-ones : (x k : ℕ) → bit_and x (2 ^ k - 1) ≡ x % 2 ^ k
bit_and-ones x k = bit_at_ext _ _ λ i.
    bit_at-bit_and x (2 ^ k - 1) i
    ∙ ground (arith, bit_at-ones k i, bit_at-mod x k i, bit_at-lt x i)
