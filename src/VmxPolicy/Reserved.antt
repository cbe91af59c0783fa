-- ===== src/VmxPolicy/Reserved.antt =====
-- Control vectors bit by bit.
use hyve_mind.Prelude.{
  bit_at, bit_at-lt, bit_at-zero, bit_at_ext, bit_at-bit_and, bit_at-bit_or, ℕ, bit_and, bit_or,
  ◌≡◌, sym, ap, ◌∙◌, arith,
}

-- Every field that `y` sets, `x` sets too.
abbrev pub Within : ℕ → ℕ → Type 0
Within y x = bit_and x y ≡ y

pub and_self : (x : ℕ) → bit_and x x ≡ x
and_self x = bit_at_ext _ _ λ i. simp (bit_at-bit_and) (omega arith)

-- What a control register allows of the required fields is not lost in the sanitized vector.
pub kept_fields : (a0 a1 c d : ℕ) → bit_and (bit_and (bit_or (bit_or c d) a0) a1) c ≡ bit_and a1 c
kept_fields a0 a1 c d = bit_at_ext _ _ λ i. simp (bit_at-bit_and, bit_at-bit_or) (omega arith)

pub kept_allowed : (a1 c : ℕ) → bit_and (bit_and c a1) c ≡ bit_and a1 c
kept_allowed a1 c = bit_at_ext _ _ λ i. simp (bit_at-bit_and) (omega arith)

-- To sanitize a second time changes nothing.
pub reserved_idem :
    (a0 a1 c : ℕ)
    → bit_and a0 a1 ≡ a0
    → bit_and (bit_or c a0) a1 ≡ bit_and (bit_or (bit_and (bit_or c a0) a1) a0) a1
reserved_idem a0 a1 c h = bit_at_ext _ _ λ i.
    let at_i = sym (bit_at-bit_and a0 a1 i) ∙ ap (λ (t : ℕ). bit_at t i) h in
    simp (bit_at-bit_and, bit_at-bit_or) (omega (arith, at_i))

pub allowed_idem : (a1 c : ℕ) → bit_and c a1 ≡ bit_and (bit_and c a1) a1
allowed_idem a1 c = bit_at_ext _ _ λ i. simp (bit_at-bit_and) (omega arith)

-- What is configured without the required fields is within what is configured with them.
pub reserved_mono :
    (a0 a1 c d : ℕ)
    → bit_and (bit_and (bit_or (bit_or c d) a0) a1) (bit_and (bit_or (bit_or 0 d) a0) a1)
      ≡ bit_and (bit_or (bit_or 0 d) a0) a1
reserved_mono a0 a1 c d = bit_at_ext _ _ λ i.
    let zero_at = bit_at-zero i in simp (bit_at-bit_and, bit_at-bit_or) (omega (arith, zero_at))

pub and_zero : (x : ℕ) → bit_and x 0 ≡ 0
and_zero x =
    bit_at_ext _ _
      λ i. let zero_at = bit_at-zero i in simp (bit_at-bit_and) (omega (arith, zero_at))

pub zero_and : (x : ℕ) → bit_and 0 x ≡ 0
zero_and x =
    bit_at_ext _ _
      λ i. let zero_at = bit_at-zero i in simp (bit_at-bit_and) (omega (arith, zero_at))

-- A field that is set in a vector within `x` is set in `x`.
pub within_field : (x y i : ℕ) → bit_and x y ≡ y → bit_at y i ≡ 1 → bit_at x i ≡ 1
within_field x y i h e =
    let at_i = sym (bit_at-bit_and x y i) ∙ ap (λ (t : ℕ). bit_at t i) h in
    omega (arith, at_i, e, bit_at-lt x i)
