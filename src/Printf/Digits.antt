-- ===== src/Printf/Digits.antt =====
-- The strings that the number conversions of printf.c leave in their buffer.
use hyve_mind.Prelude.{
  ltb, leb, ◌==◌, if◌then◌else◌, length, ℕ, zero, suc, ◌+◌, ◌-◌, ◌/◌, ◌^◌, ◌≤◌, ◌<◌, ◌≡◌, refl, sym,
  ap, subst, ◌∙◌, ◌≢◌, false, ◌&&◌, List, [], ◌∷◌, arith,
}
use hyve_mind.CString.{Memory}
use hyve_mind.CString.Search.{HoldsString}
use hyve_mind.Printf.Loops.{
  digit_at, HasDigits, block-in, dec_loop_index, dec_loop_at, hex_char, hex_loop_index, hex_loop_at,
  reverse_loop_at,
}
use hyve_mind.Printf.{dec_loop, finish, u64_to_dec_string, hex_loop, u64_to_hex_string}

-- The numeral of `n` digits in a base, highest first, with the characters of `char`.
abbrev pub numeral : ℕ → (ℕ → ℕ) → ℕ → ℕ → List ℕ
numeral base char zero num = []
numeral base char (suc n) num = char (digit_at base num n) ∷ numeral base char n num

pub length-numeral : (base : ℕ) (char : ℕ → ℕ) (n num : ℕ) → length (numeral base char n num) ≡ n
length-numeral base char zero num = refl
length-numeral base char (suc n) num = ap suc (length-numeral base char n num)

pub digit_at-lt : (base num n : ℕ) → 0 < base → digit_at base num n < base
digit_at-lt base num zero h = omega arith
digit_at-lt base num (suc n) h = digit_at-lt base (num / base) n h

finish_at :
    (n : ℕ) (m : Memory) (buf a : ℕ)
    → finish (n, m) buf a ≡ (
        if a == buf + n
        then 0
        else if leb buf a && ltb a (buf + n)
        then m (buf + (buf + n - 1 - a))
        else m a)
unfolding finish
finish_at n m buf a = ground (arith, reverse_loop_at (n / 2) 0 n m buf a (omega arith))

-- What `finish` makes of digits that stand lowest first.
module _ (base : ℕ) (char : ℕ → ℕ) (num : ℕ) (m : Memory) (buf total : ℕ)
    (lowest_first : (i : ℕ) → i < total → m (buf + i) ≡ char (digit_at base num i))
    (printable : (d : ℕ) → d < base → char d ≢ 0) (positive : 0 < base) where
  finish-HoldsString_from :
      (n a : ℕ)
      → a + n ≡ buf + total
      → n ≤ total
      → HoldsString (finish (total, m) buf) a (numeral base char n num)
  finish-HoldsString_from zero a e h = ground (arith, finish_at total m buf a)
  finish-HoldsString_from (suc n) a e h = (
    ground (
      arith,
      finish_at total m buf a,
      lowest_first n (omega arith),
      ap m (let d : buf + (buf + total - 1 - a) ≡ buf + n = omega arith in d),
    ),
    printable (digit_at base num n) (digit_at-lt base num n positive),
    finish-HoldsString_from n (a + 1) (omega arith) (omega arith),
  )

finish-HoldsString :
    (base : ℕ) (char : ℕ → ℕ) (num buf n : ℕ) (p : ℕ × Memory)
    → p.0 ≡ n
    → ((i : ℕ) → i < n → p.1 (buf + i) ≡ char (digit_at base num i))
    → ((d : ℕ) → d < base → char d ≢ 0)
    → 0 < base
    → HoldsString (finish p buf) buf (numeral base char n num)
finish-HoldsString base char num buf n (index, m) count digits printable pos =
    subst (λ (t : ℕ). HoldsString (finish (t, m) buf) buf (numeral base char n num)) (sym count)
      (finish-HoldsString_from base char num m buf n digits printable pos n buf refl (omega arith))

abbrev pub dec_char : ℕ → ℕ
dec_char d = d + 48

-- A number of `n` decimal digits is printed as these digits, highest first, and a NUL.
pub u64_to_dec_string-HoldsString :
    (n fuel num : ℕ) (m : Memory) (buf : ℕ)
    → 0 < num
    → n ≤ fuel
    → HasDigits 10 num n
    → HoldsString (u64_to_dec_string fuel num m buf) buf (numeral 10 dec_char n num)
unfolding u64_to_dec_string
u64_to_dec_string-HoldsString n fuel num m buf pos h d = rw nonzero (
    finish-HoldsString 10 dec_char num buf n (dec_loop fuel num 0 m buf)
      (dec_loop_index n fuel num 0 m buf h d ∙ omega arith)
      (λ i lt.
        dec_loop_at n fuel num 0 m buf (buf + i) h d
        ∙ block-in m (buf + 0) n i (buf + i) (λ j. dec_char (digit_at 10 num j)) lt (omega arith))
      (λ e lt. omega arith) (omega arith))
  where
    nonzero : (num == 0) ≡ false
    nonzero = ground arith

-- A number of `n` hexadecimal digits is printed as these digits, highest first, and a NUL.
pub u64_to_hex_string-HoldsString :
    (n fuel num : ℕ) (m : Memory) (buf : ℕ)
    → 0 < num
    → num < 2 ^ 64
    → n ≤ fuel
    → HasDigits 16 num n
    → HoldsString (u64_to_hex_string fuel num m buf) buf (numeral 16 hex_char n num)
unfolding u64_to_hex_string
u64_to_hex_string-HoldsString n fuel num m buf pos lt h d = rw nonzero (
    finish-HoldsString 16 hex_char num buf n (hex_loop fuel num 0 m buf)
      (hex_loop_index n fuel num 0 m buf h lt d ∙ omega arith)
      (λ i hi.
        hex_loop_at n fuel num 0 m buf (buf + i) h lt d
        ∙ block-in m (buf + 0) n i (buf + i) (λ j. hex_char (digit_at 16 num j)) hi (omega arith))
      (λ e hd. ground arith) (omega arith))
  where
    nonzero : (num == 0) ≡ false
    nonzero = ground arith
