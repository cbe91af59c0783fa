-- ===== src/Printf/RoundTrip.antt =====
-- What `strtoul` of string.c reads of the numbers that printf.c prints.
use native.Mathlib.Nat.{mul-div-le, pow-suc}
use hyve_mind.Prelude.{
  length, ℕ, zero, suc, ◌+◌, ◌-◌, ◌*◌, ◌/◌, ◌%◌, ◌^◌, ◌≤◌, ◌<◌, ◌≡◌, refl, sym, ap, subst, ◌∙◌,
  false, some, List, [], ◌∷◌, ◌++◌, arith, dec_lt,
}
use hyve_mind.CString.{Memory, store, strtoul}
use hyve_mind.CString.Search.{HoldsString, HoldsString-end}
use hyve_mind.CString.Number.{value_of, HoldsDigits, strtoul-fits}
use hyve_mind.Printf.Loops.{digit_at, HasDigits}
use hyve_mind.Printf.Digits.{
  numeral, length-numeral, digit_at-lt, dec_char, u64_to_dec_string-HoldsString,
}
use hyve_mind.Printf.{u64_to_dec_string}

div-lt_pow : (base k num : ℕ) → 2 ≤ base → num < 2 ^ suc k → num / base < 2 ^ k
div-lt_pow base k num h lt = omega (arith, pow-suc 2 k, mul-div-le num base, double (num / base))
  where
    double : (q : ℕ) → 2 * q ≤ base * q
    double q = grind arith

-- Every number below `2 ^ k` has at most `k` digits in a base of two or more.
pub HasDigits-exists :
    (base k num : ℕ) → 2 ≤ base → num < 2 ^ k → (n : ℕ) × (n ≤ k) × HasDigits base num n
HasDigits-exists base zero num h lt = (0, omega arith, (omega arith))
HasDigits-exists base (suc k) num h lt = elim (dec_lt 0 num) [
  | yes pos ↦
      let (n, le, d) = HasDigits-exists base k (num / base) h (div-lt_pow base k num h lt) in
      (suc n, omega arith, (pos, d))
  | no z ↦ (0, omega arith, omega arith)
]

-- The value of a numeral.
value_of-snoc :
    (acc : ℕ) (cs : List ℕ) (c : ℕ)
    → value_of acc (cs ++ c ∷ []) ≡ value_of acc cs * 10 + (c - b'0')
value_of-snoc acc [] c = refl
value_of-snoc acc (d ∷ cs) c = value_of-snoc (acc * 10 + (d - b'0')) cs c

numeral-snoc :
    (n num : ℕ)
    → numeral 10 dec_char (suc n) num ≡ numeral 10 dec_char n (num / 10) ++ (num % 10 + 48) ∷ []
numeral-snoc zero num = refl
numeral-snoc (suc n) num = ap (◌∷◌ (dec_char (digit_at 10 (num / 10) n))) (numeral-snoc n num)

value_of-numeral : (n num : ℕ) → HasDigits 10 num n → value_of 0 (numeral 10 dec_char n num) ≡ num
value_of-numeral zero num d = omega (arith, d)
value_of-numeral (suc n) num d =
    ap (value_of 0) (numeral-snoc n num)
    ∙ value_of-snoc 0 (numeral 10 dec_char n (num / 10)) (num % 10 + 48)
    ∙ omega (arith, value_of-numeral n (num / 10) d.1)

HoldsDigits-numeral :
    (n num : ℕ) (m : Memory) (p : ℕ)
    → HoldsString m p (numeral 10 dec_char n num)
    → HoldsDigits m p (numeral 10 dec_char n num)
HoldsDigits-numeral zero num m p h = ground arith
HoldsDigits-numeral (suc n) num m p h = (
  h.0,
  ground (arith, digit_at-lt 10 num n (omega arith)),
  HoldsDigits-numeral n num m (p + 1) h.2,
)

-- What `strtoul` makes of a printed number.
abbrev ReadsBack : ℕ → Memory → ℕ → Type 0
ReadsBack num printed buf =
    (end : ℕ) × (strtoul 66 printed buf
      ≡ some (record { value = num; endptr = end; overflow = false }))
    × (printed end ≡ 0)

ReadsBack-digits :
    (c : ℕ) (cs : List ℕ) (num : ℕ) (m : Memory) (buf : ℕ)
    → length cs < 65
    → num < 2 ^ 64
    → HoldsDigits m buf (c ∷ cs)
    → HoldsString m buf (c ∷ cs)
    → value_of 0 (c ∷ cs) ≡ num
    → ReadsBack num m buf
ReadsBack-digits c cs num m buf le lt h hs value = (
  buf + 0 + 0 + suc (length cs),
  strtoul-fits m buf 0 false c cs 66 h (omega arith) (omega arith) (omega (arith, value))
      ∙ ap
          (λ (v : ℕ).
            some (record { value = v; endptr = buf + 0 + 0 + suc (length cs); overflow = false }))
          value,
  ap m (omega arith) ∙ HoldsString-end (c ∷ cs) m buf hs,
)

ReadsBack-numeral :
    (n num : ℕ) (m : Memory) (buf : ℕ)
    → 0 < num
    → n ≤ 64
    → num < 2 ^ 64
    → HasDigits 10 num n
    → HoldsString m buf (numeral 10 dec_char n num)
    → ReadsBack num m buf
ReadsBack-numeral zero num m buf pos le lt d h = absurd (omega arith)
ReadsBack-numeral (suc n) num m buf pos le lt d h =
    ReadsBack-digits (dec_char (digit_at 10 num n)) (numeral 10 dec_char n num) num m buf
      (omega (arith, length-numeral 10 dec_char n num)) lt (HoldsDigits-numeral (suc n) num m buf h)
      h (value_of-numeral (suc n) num d)

printed_zero :
    (fuel : ℕ) (m : Memory) (buf : ℕ)
    → u64_to_dec_string fuel 0 m buf ≡ store (store m buf b'0') (buf + 1) 0
unfolding u64_to_dec_string
printed_zero fuel m buf = refl

ReadsBack-zero : (m : Memory) (buf : ℕ) → ReadsBack 0 (store (store m buf b'0') (buf + 1) 0) buf
ReadsBack-zero m buf =
    ReadsBack-digits b'0' [] 0 _ buf (omega arith) (omega arith) (ground arith) (ground arith) refl

-- `strtoul` reads back every uint64_t that `u64_to_dec_string` prints, up to the NUL, and reports
-- no overflow. 64 rounds of the printing loop and 65 of the reading loops are enough.
pub strtoul-u64_to_dec_string :
    (num : ℕ) (m : Memory) (buf : ℕ)
    → num < 2 ^ 64
    → let printed = u64_to_dec_string 64 num m buf in
      (end : ℕ) × (strtoul 66 printed buf
        ≡ some (record { value = num; endptr = end; overflow = false }))
      × (printed end ≡ 0)
strtoul-u64_to_dec_string num m buf lt = elim (dec_lt 0 num) [
  | yes pos ↦
      let (n, le, d) = HasDigits-exists 10 64 num (omega arith) lt in
      ReadsBack-numeral n num _ buf pos le lt d
        (u64_to_dec_string-HoldsString n 64 num m buf pos le d)
  | no z ↦
      let zero_lem : num ≡ 0 = omega arith in
      subst (λ (t : ℕ). ReadsBack t (u64_to_dec_string 64 t m buf) buf) (sym zero_lem)
        (subst (λ (t : Memory). ReadsBack 0 t buf) (sym (printed_zero 64 m buf))
          (ReadsBack-zero m buf))
]
