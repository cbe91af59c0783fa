-- ===== src/CString/Number.antt =====
-- `strtoul` of string.c: spaces, an optional plus sign, decimal digits.
use hyve_mind.Prelude.{
  if◌then◌else◌, length, ℕ, zero, suc, ◌+◌, ◌-◌, ◌*◌, ◌/◌, ◌≤◌, ◌<◌, ◌≡◌, subst, Bool, true, false,
  some, List, [], ◌∷◌, arith, dec_lt,
}
use hyve_mind.CString.{
  Memory, u64_max, is_digit, digits_at, strtoul_prefix, strtoul_digits, strtoul,
}

-- The number that the digits stand for, after the number `acc`.
abbrev pub value_of : ℕ → List ℕ → ℕ
value_of acc [] = acc
value_of acc (c ∷ cs) = value_of (acc * 10 + (c - b'0')) cs

-- The memory holds these digits, and then something that is no digit.
abbrev pub HoldsDigits : Memory → ℕ → List ℕ → Type 0
HoldsDigits m p [] = is_digit (m p) ≡ false
HoldsDigits m p (c ∷ cs) = (m p ≡ c) × (is_digit c ≡ true) × HoldsDigits m (p + 1) cs

-- The memory holds `k` spaces, a plus sign if `plus` says so, and then the digits.
abbrev pub HoldsNumber : Memory → ℕ → ℕ → Bool → List ℕ → Type 0
HoldsNumber m p zero true cs = (m p ≡ b'+') × HoldsDigits m (p + 1) cs
HoldsNumber m p zero false cs = HoldsDigits m p cs
HoldsNumber m p (suc k) plus cs = (m p ≡ b' ') × HoldsNumber m (p + 1) k plus cs

le-value_of : (acc : ℕ) (cs : List ℕ) → acc ≤ value_of acc cs
le-value_of acc [] = omega arith
le-value_of acc (c ∷ cs) = omega (arith, le-value_of (acc * 10 + (c - b'0')) cs)

module _ (m : Memory) (str : ℕ) where
  digits_fit :
      (cs : List ℕ) (fuel index res a : ℕ)
      → a ≡ str + index
      → length cs < fuel
      → HoldsDigits m a cs
      → value_of res cs ≤ u64_max
      → strtoul_digits fuel index res m str
        ≡ some (record { value = value_of res cs; endptr = a + length cs; overflow = false })
  unfolding strtoul_digits
  digits_fit cs zero index res a e lt h fits = absurd (omega arith)
  digits_fit [] (suc fuel) index res a e lt h fits = ground arith
  digits_fit (c ∷ cs) (suc fuel) index res a e lt h fits = ground (
    arith,
    le-value_of (res * 10 + (c - b'0')) cs,
    digits_fit cs fuel (index + 1) (res * 10 + (c - b'0')) (a + 1) (omega arith) (omega arith) h.2
        fits,
  )

  digits_overflow :
      (cs : List ℕ) (fuel index res a : ℕ)
      → a ≡ str + index
      → length cs < fuel
      → HoldsDigits m a cs
      → res ≤ u64_max
      → u64_max < value_of res cs
      → (k : ℕ) × (k < length cs)
        × (strtoul_digits fuel index res m str
            ≡ some (record { value = u64_max; endptr = a + k; overflow = true }))
  unfolding strtoul_digits
  digits_overflow cs zero index res a e lt h small big = absurd (omega arith)
  digits_overflow [] (suc fuel) index res a e lt h small big = absurd (omega arith)
  digits_overflow (c ∷ cs) (suc fuel) index res a e lt h small big =
      elim (dec_lt ((u64_max - (c - b'0')) / 10) res) [
        | yes over ↦ (0, omega arith, ground arith)
        | no fine ↦
            let (k, hk, r) =
              digits_overflow cs fuel (index + 1) (res * 10 + (c - b'0')) (a + 1) (omega arith)
                (omega arith) h.2 (ground arith) big in
            (suc k, omega arith, ground arith)
      ]

  -- Where the digits begin.
  prefix_lem :
      (k : ℕ) (plus : Bool) (c : ℕ) (cs : List ℕ) (fuel index a : ℕ)
      → a ≡ str + index
      → k < fuel
      → HoldsNumber m a k plus (c ∷ cs)
      → strtoul_prefix fuel index m str ≡ some (digits_at (index + k + (if plus then 1 else 0)))
  unfolding strtoul_prefix
  prefix_lem k plus c cs zero index a e lt h = absurd (omega arith)
  prefix_lem zero true c cs (suc fuel) index a e lt h = ground arith
  prefix_lem zero false c cs (suc fuel) index a e lt h = ground arith
  prefix_lem (suc k) plus c cs (suc fuel) index a e lt h =
      ground
        (arith, prefix_lem k plus c cs fuel (index + 1) (a + 1) (omega arith) (omega arith) h.1)

  HoldsNumber-digits :
      (k : ℕ) (plus : Bool) (cs : List ℕ) (a : ℕ)
      → HoldsNumber m a k plus cs
      → HoldsDigits m (a + k + (if plus then 1 else 0)) cs
  HoldsNumber-digits zero true cs a h = subst (λ (t : ℕ). HoldsDigits m t cs) (omega arith) h.1
  HoldsNumber-digits zero false cs a h = subst (λ (t : ℕ). HoldsDigits m t cs) (omega arith) h
  HoldsNumber-digits (suc k) plus cs a h =
      subst (λ (t : ℕ). HoldsDigits m t cs) (omega arith) (HoldsNumber-digits k plus cs (a + 1) h.1)

-- `strtoul` reads a number behind spaces and a plus sign: a value that fits 64 bits is returned
-- with the address behind its last digit.
pub strtoul-fits :
    (m : Memory) (str k : ℕ) (plus : Bool) (c : ℕ) (cs : List ℕ) (fuel : ℕ)
    → HoldsNumber m str k plus (c ∷ cs)
    → k < fuel
    → length (c ∷ cs) < fuel
    → value_of 0 (c ∷ cs) ≤ u64_max
    → strtoul fuel m str
      ≡ some (record {
        value = value_of 0 (c ∷ cs);
        endptr = str + k + (if plus then 1 else 0) + length (c ∷ cs);
        overflow = false;
      })
unfolding strtoul
strtoul-fits m str k plus c cs fuel h hk lt fits =
    rw (prefix_lem m str k plus c cs fuel 0 str (omega arith) hk h, strtoul)
      (digits_fit m str (c ∷ cs) fuel (0 + k + (if plus then 1 else 0)) 0
        (str + k + (if plus then 1 else 0)) (omega arith) lt
        (HoldsNumber-digits m str k plus (c ∷ cs) str h) fits)

-- A value that does not fit is reported as an overflow, with the greatest value and the address of
-- the digit that went too far.
pub strtoul-overflow :
    (m : Memory) (str k : ℕ) (plus : Bool) (c : ℕ) (cs : List ℕ) (fuel : ℕ)
    → HoldsNumber m str k plus (c ∷ cs)
    → k < fuel
    → length (c ∷ cs) < fuel
    → u64_max < value_of 0 (c ∷ cs)
    → (i : ℕ) × (i < length (c ∷ cs))
      × (strtoul fuel m str
          ≡ some (record {
            value = u64_max;
            endptr = str + k + (if plus then 1 else 0) + i;
            overflow = true;
          }))
unfolding strtoul
strtoul-overflow m str k plus c cs fuel h hk lt big =
    rw (prefix_lem m str k plus c cs fuel 0 str (omega arith) hk h, strtoul)
      (digits_overflow m str (c ∷ cs) fuel (0 + k + (if plus then 1 else 0)) 0
        (str + k + (if plus then 1 else 0)) (omega arith) lt
        (HoldsNumber-digits m str k plus (c ∷ cs) str h) (omega arith) big)
