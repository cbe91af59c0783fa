-- ===== src/CString/Memory.antt =====
-- `memset`, `memcpy`, `memmove` and `memcmp` of string.c, byte by byte.
use hyve_mind.Prelude.{
  ltb, leb, ◌==◌, if◌then◌else◌, Bool-cases, ℕ, zero, suc, ◌+◌, ◌-◌, ◌%◌, ◌≤◌, ◌<◌, ◌≡◌, ◌⊎◌, inl,
  inr, ◌&&◌, arith, dec_lt,
}
use hyve_mind.CString.{
  Memory, store, memset_loop, memset, copy_up, memcpy, copy_down, memmove, Comparison, below, same,
  above, memcmp_loop, memcmp,
}

-- The byte at an address after a block was written: `f` gives the bytes of the block.
abbrev pub written : Memory → ℕ → ℕ → (ℕ → ℕ) → Memory
written m dst len f a = if leb dst a && ltb a (dst + len) then f (a - dst) else m a

memset_loop_lem :
    (rounds i : ℕ) (m : Memory) (dst c a : ℕ)
    → memset_loop rounds i m dst c a
      ≡ (if leb (dst + i) a && ltb a (dst + i + rounds) then c % 256 else m a)
unfolding memset_loop
memset_loop_lem zero i m dst c a = ground arith
memset_loop_lem (suc rounds) i m dst c a =
    ground (arith, memset_loop_lem rounds (i + 1) (store m (dst + i) (c % 256)) dst c a)

-- `memset` fills exactly the block with the byte.
pub memset_lem :
    (m : Memory) (dst c len a : ℕ) → memset m dst c len a ≡ written m dst len (λ _. c % 256) a
unfolding memset
memset_lem m dst c len a = ground (arith, memset_loop_lem len 0 m dst c a)

-- Copying upwards is right where the source does not lie below an overlapping target.
copy_up_lem :
    (rounds i : ℕ) (m : Memory) (dst src a : ℕ)
    → (dst ≤ src) ⊎ (src + i + rounds ≤ dst + i)
    → copy_up rounds i m dst src a
      ≡ (if leb (dst + i) a && ltb a (dst + i + rounds) then m (src + (a - dst)) else m a)
unfolding copy_up
copy_up_lem zero i m dst src a h = ground arith
copy_up_lem (suc rounds) i m dst src a h =
    ground (arith, copy_up_lem rounds (i + 1) (store m (dst + i) (m (src + i))) dst src a)

copy_down_lem :
    (i : ℕ) (m : Memory) (dst src a : ℕ)
    → src ≤ dst
    → copy_down i m dst src a ≡ (if leb dst a && ltb a (dst + i) then m (src + (a - dst)) else m a)
unfolding copy_down
copy_down_lem zero m dst src a h = ground arith
copy_down_lem (suc i) m dst src a h =
    ground (arith, copy_down_lem i (store m (dst + i) (m (src + i))) dst src a h)

-- `memcpy` copies a block to one that does not overlap it.
pub memcpy_lem :
    (m : Memory) (dst src len a : ℕ)
    → (dst + len ≤ src) ⊎ (src + len ≤ dst)
    → memcpy m dst src len a ≡ written m dst len (λ i. m (src + i)) a
unfolding memcpy
memcpy_lem m dst src len a h = ground (arith, copy_up_lem len 0 m dst src a)

-- `memmove` copies a block whether or not source and target overlap: every byte of the target is
-- the byte that the source held before the call, and no other byte changes.
pub memmove_lem :
    (m : Memory) (dst src len a : ℕ)
    → memmove m dst src len a ≡ written m dst len (λ i. m (src + i)) a
unfolding memmove
memmove_lem m dst src len a =
    ground (arith, copy_up_lem len 0 m dst src a, copy_down_lem len m dst src a)

-- The bytes of two blocks, compared at the first place where they differ.
abbrev pub FirstDifference : Memory → ℕ → ℕ → ℕ → ℕ → Comparison → Type 0
FirstDifference m s1 s2 i len same = (k : ℕ) → i ≤ k → k < len → m (s1 + k) ≡ m (s2 + k)
FirstDifference m s1 s2 i len below =
    (n : ℕ) × (n < len)
    × (m (s1 + n) < m (s2 + n))
    × ((k : ℕ) → i ≤ k → k < n → m (s1 + k) ≡ m (s2 + k))
FirstDifference m s1 s2 i len above =
    (n : ℕ) × (n < len)
    × (m (s2 + n) < m (s1 + n))
    × ((k : ℕ) → i ≤ k → k < n → m (s1 + k) ≡ m (s2 + k))

FirstDifference-step :
    (m : Memory) (s1 s2 i len : ℕ) (c : Comparison)
    → m (s1 + i) ≡ m (s2 + i)
    → FirstDifference m s1 s2 (i + 1) len c
    → FirstDifference m s1 s2 i len c
FirstDifference-step m s1 s2 i len same e h = λ k lo hi. elim (dec_lt i k) [
  | yes p ↦ h k (omega arith) hi
  | no p ↦ let q : k ≡ i = omega arith in rw q e
]
FirstDifference-step m s1 s2 i len below e (n, a, b, h) = (
  n,
  a,
  b,
  λ k lo hi. elim (dec_lt i k) [
    | yes p ↦ h k (omega arith) hi
    | no p ↦ let q : k ≡ i = omega arith in rw q e
  ],
)
FirstDifference-step m s1 s2 i len above e (n, a, b, h) = (
  n,
  a,
  b,
  λ k lo hi. elim (dec_lt i k) [
    | yes p ↦ h k (omega arith) hi
    | no p ↦ let q : k ≡ i = omega arith in rw q e
  ],
)

memcmp_loop_lem :
    (rounds i len : ℕ) (m : Memory) (s1 s2 : ℕ)
    → i + rounds ≡ len
    → FirstDifference m s1 s2 i len (memcmp_loop rounds i m s1 s2)
unfolding memcmp_loop
memcmp_loop_lem zero i len m s1 s2 e = λ k lo hi. absurd (omega arith)
memcmp_loop_lem (suc rounds) i len m s1 s2 e = elim (Bool-cases (m (s1 + i) == m (s2 + i))) [
  | inl p ↦
      rw (p, memcmp_loop)
        (FirstDifference-step m s1 s2 i len _ (ground arith)
          (memcmp_loop_lem rounds (i + 1) len m s1 s2 (omega arith)))
  | inr p ↦ elim (Bool-cases (ltb (m (s1 + i)) (m (s2 + i)))) [
    | inl q ↦ rw (p, q, memcmp_loop) (i, omega arith, ground arith, λ k lo hi. absurd (omega arith))
    | inr q ↦ rw (p, q, memcmp_loop) (i, omega arith, ground arith, λ k lo hi. absurd (omega arith))
  ]
]

-- `memcmp` answers 0 exactly for equal blocks, and otherwise the order of the first bytes that
-- differ.
pub memcmp_lem : (m : Memory) (s1 s2 len : ℕ) → FirstDifference m s1 s2 0 len (memcmp m s1 s2 len)
unfolding memcmp
memcmp_lem m s1 s2 len = memcmp_loop_lem len 0 len m s1 s2 (omega arith)
