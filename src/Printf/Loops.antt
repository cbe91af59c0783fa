-- ===== src/Printf/Loops.antt =====
-- The loops of the number conversions of printf.c: digits lowest first, and their reversal.
use hyve_mind.Prelude.{
  ltb, leb, ◌==◌, if◌then◌else◌, lt→ltb, bit_and-ones, ℕ, zero, suc, ◌+◌, ◌-◌, ◌/◌, ◌%◌, ◌^◌, ◌≤◌,
  ◌<◌, ◌≡◌, refl, ap, ◌∙◌, false, ◌&&◌, some, arith, dec_lt,
}
use hyve_mind.CString.{Memory, store}
use hyve_mind.Printf.{dec_loop, reverse_loop, hex_digit, hex_store, hex_loop}

-- Digit `i` of `num`, counted from the right, in a base.
abbrev pub digit_at : ℕ → ℕ → ℕ → ℕ
digit_at base num zero = num % base
digit_at base num (suc i) = digit_at base (num / base) i

-- How many digits `num` has.
abbrev pub HasDigits : ℕ → ℕ → ℕ → Type 0
HasDigits base num zero = num ≡ 0
HasDigits base num (suc n) = (0 < num) × HasDigits base (num / base) n

-- Once a block is written upwards from `p`, where the values are those of `f`.
abbrev pub block : Memory → ℕ → ℕ → (ℕ → ℕ) → Memory
block m p n f a = if leb p a && ltb a (p + n) then f (a - p) else m a

pub block-in : (m : Memory) (p n i a : ℕ) (f : ℕ → ℕ) → i < n → a ≡ p + i → block m p n f a ≡ f i
block-in m p n i a f h e = ground (arith, ap f (let d : a - p ≡ i = omega arith in d))

-- A first byte and the block behind it make one block.
block-suc :
    (m : Memory) (p q n v a : ℕ) (f g : ℕ → ℕ)
    → q ≡ p + 1
    → g 0 ≡ v
    → ((i : ℕ) → g (suc i) ≡ f i)
    → block (store m p v) q n f a ≡ block m p (suc n) g a
block-suc m p q n v a f g e h0 hs = elim (dec_lt p a) [
  | yes up ↦ ground (arith, hs (a - q), ap g (let d : a - p ≡ suc (a - q) = omega arith in d))
  | no down ↦ ground (arith, h0, ap g (let d : a - p ≡ 0 = omega arith in d))
]

pub dec_loop_index :
    (n fuel num index : ℕ) (m : Memory) (buf : ℕ)
    → n ≤ fuel
    → HasDigits 10 num n
    → (dec_loop fuel num index m buf).0 ≡ index + n
unfolding dec_loop
dec_loop_index zero zero num index m buf h d = omega arith
dec_loop_index zero (suc fuel) num index m buf h d = ground arith
dec_loop_index (suc n) zero num index m buf h d = absurd (omega arith)
dec_loop_index (suc n) (suc fuel) num index m buf h d = ground (
  arith,
  dec_loop_index n fuel (num / 10) (index + 1) (store m (buf + index) (num % 10 + 48)) buf
      (omega arith) d.1,
)

pub dec_loop_at :
    (n fuel num index : ℕ) (m : Memory) (buf a : ℕ)
    → n ≤ fuel
    → HasDigits 10 num n
    → (dec_loop fuel num index m buf).1 a ≡ block m (buf + index) n (λ i. digit_at 10 num i + 48) a
unfolding dec_loop
dec_loop_at zero zero num index m buf a h d = ground arith
dec_loop_at zero (suc fuel) num index m buf a h d = ground arith
dec_loop_at (suc n) zero num index m buf a h d = absurd (omega arith)
dec_loop_at (suc n) (suc fuel) num index m buf a h d = rw (lt→ltb 0 num d.0) (
    dec_loop_at n fuel (num / 10) (index + 1) (store m (buf + index) (num % 10 + 48)) buf a
      (omega arith) d.1
    ∙ block-suc m (buf + index) (buf + (index + 1)) n (num % 10 + 48) a
        (λ i. digit_at 10 (num / 10) i + 48) (λ i. digit_at 10 num i + 48) (omega arith) refl
        (λ i. refl))

-- The digit characters of the hexadecimal form.
abbrev pub hex_char : ℕ → ℕ
hex_char d = if ltb d 10 then d + 48 else d + 55

pub hex_digit_lem : (d : ℕ) → d < 16 → hex_digit d ≡ some (hex_char d)
unfolding hex_digit
hex_digit_lem d h = ground arith

hex_stored : (m : Memory) (p d : ℕ) → d < 16 → hex_store m p (hex_digit d) ≡ store m p (hex_char d)
unfolding hex_store
hex_stored m p d h = ap (hex_store m p) (hex_digit_lem d h)

hex_loop_step :
    (fuel num counter : ℕ) (m : Memory) (buf : ℕ)
    → 0 < num
    → num < 2 ^ 64
    → hex_loop (suc fuel) num counter m buf
      ≡ hex_loop fuel (num / 16) (counter + 1) (store m (buf + counter) (hex_char (num % 16))) buf
unfolding hex_loop
hex_loop_step fuel num counter m buf h lt =
    rw (bit_and-ones num 64, bit_and-ones num 4, going)
      (ap (λ (t : Memory). hex_loop fuel (num / 16) (counter + 1) t buf)
        (hex_stored m (buf + counter) (num % 16) (omega arith)))
  where
    going : (num % 2 ^ 64 == 0) ≡ false
    going = ground arith

hex_loop_end :
    (fuel num counter : ℕ) (m : Memory) (buf : ℕ)
    → num ≡ 0
    → hex_loop fuel num counter m buf ≡ (counter, m)
unfolding hex_loop
hex_loop_end zero num counter m buf e = refl
hex_loop_end (suc fuel) num counter m buf e = rw (e, hex_loop)

pub hex_loop_index :
    (n fuel num counter : ℕ) (m : Memory) (buf : ℕ)
    → n ≤ fuel
    → num < 2 ^ 64
    → HasDigits 16 num n
    → (hex_loop fuel num counter m buf).0 ≡ counter + n
hex_loop_index zero fuel num counter m buf h lt d =
    rw (hex_loop_end fuel num counter m buf d) (omega arith)
hex_loop_index (suc n) zero num counter m buf h lt d = absurd (omega arith)
hex_loop_index (suc n) (suc fuel) num counter m buf h lt d =
    rw (hex_loop_step fuel num counter m buf d.0 lt) (
      hex_loop_index n fuel (num / 16) (counter + 1) _ buf (omega arith) (omega arith) d.1
      ∙ omega arith)

pub hex_loop_at :
    (n fuel num counter : ℕ) (m : Memory) (buf a : ℕ)
    → n ≤ fuel
    → num < 2 ^ 64
    → HasDigits 16 num n
    → (hex_loop fuel num counter m buf).1 a
      ≡ block m (buf + counter) n (λ i. hex_char (digit_at 16 num i)) a
hex_loop_at zero fuel num counter m buf a h lt d =
    rw (hex_loop_end fuel num counter m buf d) (ground arith)
hex_loop_at (suc n) zero num counter m buf a h lt d = absurd (omega arith)
hex_loop_at (suc n) (suc fuel) num counter m buf a h lt d =
    rw (hex_loop_step fuel num counter m buf d.0 lt) (
      hex_loop_at n fuel (num / 16) (counter + 1) _ buf a (omega arith) (omega arith) d.1
      ∙ block-suc m (buf + counter) (buf + (counter + 1)) n (hex_char (num % 16)) a
          (λ i. hex_char (digit_at 16 (num / 16) i)) (λ i. hex_char (digit_at 16 num i))
          (omega arith) refl (λ i. refl))

pub reverse_loop_at :
    (rounds i index : ℕ) (m : Memory) (buf a : ℕ)
    → i + rounds ≡ index / 2
    → reverse_loop rounds i index m buf a ≡ (
        if leb (buf + i) a && ltb a (buf + index - i) then m (buf + (buf + index - 1 - a)) else m a)
unfolding reverse_loop
reverse_loop_at zero i index m buf a e = ground arith
reverse_loop_at (suc rounds) i index m buf a e = ground (
  arith,
  reverse_loop_at rounds (i + 1) index
      (store (store m (buf + (index - i - 1)) (m (buf + i))) (buf + i) (m (buf + (index - i - 1))))
      buf a (omega arith),
)
