-- ===== src/CString.antt =====
-- The freestanding C library routines of string.c.
--
-- Memory is a function from addresses to bytes; an address is a plain number, since no block lies
-- across the end of the address space. A loop that runs to a NUL takes fuel, and `none` means that
-- the fuel ran out before the loop ended. `char` is read as an unsigned byte: the code only tests it
-- for equality and against the digits, where the sign makes no difference.
pub mod Memory
pub mod Search
pub mod Number
mod Tests
use hyve_mind.Prelude.{
  ltb, leb, ◌==◌, if◌then◌else◌, ℕ, zero, suc, ◌+◌, ◌-◌, ◌*◌, ◌/◌, ◌%◌, ◌^◌, min, Bool, true, false,
  not, ◌&&◌, Option, none, some,
}

abbrev pub Memory : Type 0
Memory = ℕ → ℕ

abbrev pub store : Memory → ℕ → ℕ → Memory
store m p v a = if a == p then v else m a

-- `for (i = 0; i < len; i++) p[i] = (uint8_t) c`, on the rounds left.
memset_loop : ℕ → ℕ → Memory → ℕ → ℕ → Memory
memset_loop zero i m dst c = m
memset_loop (suc rounds) i m dst c = memset_loop rounds (i + 1) (store m (dst + i) (c % 256)) dst c

pub memset : Memory → ℕ → ℕ → ℕ → Memory
unfolding memset_loop
memset m dst c len = memset_loop len 0 m dst c

copy_up : ℕ → ℕ → Memory → ℕ → ℕ → Memory
copy_up zero i m dst src = m
copy_up (suc rounds) i m dst src = copy_up rounds (i + 1) (store m (dst + i) (m (src + i))) dst src

pub memcpy : Memory → ℕ → ℕ → ℕ → Memory
unfolding copy_up
memcpy m dst src len = copy_up len 0 m dst src

-- `for (i = len; i > 0; i--) pdest[i-1] = psrc[i-1]`.
copy_down : ℕ → Memory → ℕ → ℕ → Memory
copy_down zero m dst src = m
copy_down (suc i) m dst src = copy_down i (store m (dst + i) (m (src + i))) dst src

pub memmove : Memory → ℕ → ℕ → ℕ → Memory
unfolding copy_up copy_down
memmove m dst src len =
    if ltb dst src
    then copy_up len 0 m dst src
    else if ltb src dst
    then copy_down len m dst src
    else m

-- The three results of `memcmp`.
pub data Comparison : Type 0 where
  below same above : Comparison

memcmp_loop : ℕ → ℕ → Memory → ℕ → ℕ → Comparison
memcmp_loop zero i m s1 s2 = same
memcmp_loop (suc rounds) i m s1 s2 =
    let rest = memcmp_loop rounds (i + 1) m s1 s2 in
    if not (m (s1 + i) == m (s2 + i))
    then if ltb (m (s1 + i)) (m (s2 + i)) then below else above
    else rest

pub memcmp : Memory → ℕ → ℕ → ℕ → Comparison
unfolding memcmp_loop
memcmp m s1 s2 len = memcmp_loop len 0 m s1 s2

strcmp_loop : ℕ → ℕ → Memory → ℕ → ℕ → Option ℕ
strcmp_loop zero counter m s1 s2 = none
strcmp_loop (suc fuel) counter m s1 s2 =
    let rest = strcmp_loop fuel (counter + 1) m s1 s2 in
    if not (m (s1 + counter) == m (s2 + counter))
    then some 1
    else if m (s1 + counter) == 0
    then some 0
    else rest

-- 0 for equal strings and 1 for others.
pub strcmp : ℕ → Memory → ℕ → ℕ → Option ℕ
unfolding strcmp_loop
strcmp fuel m s1 s2 = strcmp_loop fuel 0 m s1 s2

strncmp_loop : ℕ → ℕ → Memory → ℕ → ℕ → ℕ
strncmp_loop zero i m s1 s2 = 0
strncmp_loop (suc rounds) i m s1 s2 =
    let rest = strncmp_loop rounds (i + 1) m s1 s2 in
    if not (m (s1 + i) == m (s2 + i)) then 1 else if m (s1 + i) == 0 then 0 else rest

pub strncmp : Memory → ℕ → ℕ → ℕ → ℕ
unfolding strncmp_loop
strncmp m s1 s2 len = strncmp_loop len 0 m s1 s2

strlen_loop : ℕ → ℕ → Memory → ℕ → Option ℕ
strlen_loop zero counter m s = none
strlen_loop (suc fuel) counter m s =
    let rest = strlen_loop fuel (counter + 1) m s in
    if m (s + counter) == 0 then some counter else rest

pub strlen : ℕ → Memory → ℕ → Option ℕ
unfolding strlen_loop
strlen fuel m s = strlen_loop fuel 0 m s

-- The block that `hmalloc` returned, or `none` for NULL, is given: `copy` is the address.
pub strdup_nt : ℕ → Memory → ℕ → Option ℕ → Option (Option ℕ × Memory)
strdup_nt fuel m s copy = elim (strlen fuel m s) [
  | none ↦ none
  | some n ↦ elim copy [ none ↦ some (none, m) | some p ↦ some (some p, memcpy m p s (n + 1)) ]
]

pub strndup_nt : ℕ → Memory → ℕ → ℕ → Option ℕ → Option (Option ℕ × Memory)
strndup_nt fuel m s len copy = elim (strlen fuel m s) [
  | none ↦ none
  | some src_len ↦ elim copy [
    | none ↦ some (none, m)
    | some p ↦ some (some p, store (memcpy m p s (min src_len len)) (p + min src_len len) 0)
  ]
]

-- What `strtoul` returns, with `*endptr` and `*overflow`.
pub record Parsed : Type 0 where
  pub value : ℕ
  pub endptr : ℕ
  pub overflow : Bool

abbrev pub u64_max : ℕ
u64_max = 2 ^ 64 - 1

abbrev pub is_digit : ℕ → Bool
is_digit c = leb b'0' c && leb c b'9'

-- Where the search for a sign ends: at the first digit, or with a return of 0.
data Prefix : Type 0 where
  digits_at : ℕ → Prefix
  stop : ℕ → Prefix

strtoul_prefix : ℕ → ℕ → Memory → ℕ → Option Prefix
strtoul_prefix zero index m str = none
strtoul_prefix (suc fuel) index m str =
    let rest = strtoul_prefix fuel (index + 1) m str in
    let c = m (str + index) in
    if c == 0
    then some (digits_at index)
    else if c == b'-'
    then some (stop (str + index))
    else if c == b'+'
    then if is_digit (m (str + index + 1)) then some (digits_at (index + 1)) else some (stop str)
    else if is_digit c
    then some (digits_at index)
    else if c == b' '
    then rest
    else some (stop str)

strtoul_digits : ℕ → ℕ → ℕ → Memory → ℕ → Option Parsed
strtoul_digits zero index res m str = none
strtoul_digits (suc fuel) index res m str =
    let digit = m (str + index) - b'0' in
    let rest = strtoul_digits fuel (index + 1) ((res * 10 + digit) % 2 ^ 64) m str in
    if not (m (str + index) == 0) && is_digit (m (str + index))
    then if ltb ((u64_max - digit) / 10) res
      then some (record { value = u64_max; endptr = str + index; overflow = true })
      else rest
    else some (record { value = res; endptr = str + index; overflow = false })

pub strtoul : ℕ → Memory → ℕ → Option Parsed
unfolding strtoul_prefix strtoul_digits
strtoul fuel m str = elim (strtoul_prefix fuel 0 m str) [
  | none ↦ none
  | some found ↦ elim found [
    | digits_at index ↦ strtoul_digits fuel index 0 m str
    | stop end ↦ some (record { value = 0; endptr = end; overflow = false })
  ]
]
