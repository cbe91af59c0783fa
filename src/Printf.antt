-- ===== src/Printf.antt =====
-- The number conversions and the format loop of printf.c.
--
-- The buffer of a conversion is a block of the memory of `CString`, at the address `buf`. The
-- conversion loops take fuel; 64 rounds are enough for any uint64_t, and the theorems give enough.
-- The format loop takes the characters of the format behind the current index, its arguments in
-- order, and gives the calls of the console.
pub mod Loops
pub mod Digits
pub mod RoundTrip
pub mod Format
mod Tests
use hyve_mind.Prelude.{
  ltb, leb, ◌==◌, if◌then◌else◌, length, drop, ℕ, zero, suc, ◌+◌, ◌-◌, ◌/◌, ◌%◌, ◌^◌, bit_and, Bool,
  not, ◌&&◌, Option, none, some, List, [], ◌∷◌,
}
use hyve_mind.CString.{Memory, store}

-- `while (num > 0) { buf[index++] = num % 10 + 48; num /= 10; }`.
pub dec_loop : ℕ → ℕ → ℕ → Memory → ℕ → ℕ × Memory
dec_loop zero num index m buf = (index, m)
dec_loop (suc fuel) num index m buf =
    let rest = dec_loop fuel (num / 10) (index + 1) (store m (buf + index) (num % 10 + 48)) buf in
    if ltb 0 num then rest else (index, m)

-- `for (i = 0; i < index/2; i++)` with the exchange of two characters.
pub reverse_loop : ℕ → ℕ → ℕ → Memory → ℕ → Memory
reverse_loop zero i index m buf = m
reverse_loop (suc rounds) i index m buf =
    let temp = m (buf + (index - i - 1)) in
    reverse_loop rounds (i + 1) index
      (store (store m (buf + (index - i - 1)) (m (buf + i))) (buf + i) temp) buf

-- The digits are written lowest first, turned round and ended by a NUL.
pub finish : ℕ × Memory → ℕ → Memory
unfolding reverse_loop
finish (index, m) buf = store (reverse_loop (index / 2) 0 index m buf) (buf + index) 0

pub u64_to_dec_string : ℕ → ℕ → Memory → ℕ → Memory
unfolding dec_loop finish
u64_to_dec_string fuel num m buf =
    if num == 0
    then store (store m buf b'0') (buf + 1) 0
    else finish (dec_loop fuel num 0 m buf) buf

-- The character of a digit; a value outside both ranges writes nothing.
pub hex_digit : ℕ → Option ℕ
hex_digit val =
    if leb 0 val && leb val 9
    then some (val + 48)
    else if leb 10 val && leb val 15
    then some (val - 10 + 65)
    else none

pub hex_store : Memory → ℕ → Option ℕ → Memory
hex_store m p none = m
hex_store m p (some c) = store m p c

-- `while (check_zero_mask & num)`, where the mask is `~0`.
pub hex_loop : ℕ → ℕ → ℕ → Memory → ℕ → ℕ × Memory
unfolding hex_digit hex_store
hex_loop zero num counter m buf = (counter, m)
hex_loop (suc fuel) num counter m buf =
    let rest =
      hex_loop fuel (num / 2 ^ 4) (counter + 1)
        (hex_store m (buf + counter) (hex_digit (bit_and num 15))) buf in
    if bit_and num (2 ^ 64 - 1) == 0 then (counter, m) else rest

pub u64_to_hex_string : ℕ → ℕ → Memory → ℕ → Memory
unfolding hex_loop finish
u64_to_hex_string fuel num m buf =
    if num == 0
    then store (store m buf b'0') (buf + 1) 0
    else finish (hex_loop fuel num 0 m buf) buf

-- What the format loop sends to the console: a character, or its argument number `k` as a string
-- or as a number in decimal or hexadecimal form.
pub data Output : Type 0 where
  putc : ℕ → Output
  puts : ℕ → Output
  put_dec : ℕ → Output
  put_hex : ℕ → Output

abbrev pub char_or_nul : List ℕ → ℕ
char_or_nul [] = 0
char_or_nul (c ∷ cs) = c

abbrev emit : Output → Option (List Output) → Option (List Output)
emit o none = none
emit o (some os) = some (o ∷ os)

-- The loop of `__printf` behind its lock, on an initialised console: `fmt` are the characters from
-- the current index on, `args` counts the arguments read.
pub printf_loop : ℕ → List ℕ → ℕ → Option (List Output)
printf_loop fuel [] args = some []
printf_loop zero (c ∷ cs) args = none
printf_loop (suc fuel) (c ∷ cs) args =
    let next = char_or_nul cs in
    let after = char_or_nul (drop 1 cs) in
    let step = printf_loop fuel cs args in
    let step_string = printf_loop fuel (drop 1 cs) (args + 1) in
    let step_number = printf_loop fuel (drop 2 cs) (args + 1) in
    let step_binary = printf_loop fuel (drop 2 cs) args in
    if not (c == b'%')
    then emit (putc c) step
    else if next == b'%'
    then step
    else if next == b's'
    then emit (puts args) step_string
    else if next == b'l' && (after == b'u')
    then emit (put_dec args) step_number
    else if next == b'l' && (after == b'x')
    then emit (put_hex args) step_number
    else if next == b'l' && (after == b'b')
    then step_binary
    else emit (putc c) step

-- The -1 of an uninitialised console is `none`.
pub printf : Bool → List ℕ → Option (List Output)
printf initialized fmt = if initialized then printf_loop (length fmt) fmt 0 else none
