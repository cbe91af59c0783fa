-- ===== src/CString/Tests.antt =====
-- The theorems on the C library routines, applied to small memories.
use hyve_mind.Prelude.{
  ltb, if◌then◌else◌, get_or, replicate, ℕ, zero, suc, ◌+◌, ◌≡◌, refl, [], ◌∷◌, arith,
}
use hyve_mind.CString.{Memory, memmove}
use hyve_mind.CString.Memory.{written, memmove_lem}
use hyve_mind.CString.Search.{HoldsString}
use hyve_mind.CString.Number.{HoldsDigits}

-- "ab", a NUL, "ac" and zeros.
abbrev two_strings : Memory
two_strings a = get_or (97 ∷ 98 ∷ 0 ∷ 97 ∷ 99 ∷ []) a 0

two_strings-first : HoldsString two_strings 0 (97 ∷ 98 ∷ [])
two_strings-first = (refl, ground arith, (refl, ground arith, refl))

two_strings-second : HoldsString two_strings 3 (97 ∷ 99 ∷ [])
two_strings-second = (refl, ground arith, (refl, ground arith, refl))

-- The target begins inside the source.
memmove_lem_example :
    memmove two_strings 1 0 4 2 ≡ written two_strings 1 4 (λ i. two_strings (0 + i)) 2
memmove_lem_example = memmove_lem two_strings 1 0 4 2

-- Twenty nines.
abbrev nines : Memory
nines a = if ltb a 20 then b'9' else 0

nines-HoldsDigits : (n p : ℕ) → p + n ≡ 20 → HoldsDigits nines p (replicate n b'9')
nines-HoldsDigits zero p e = ground arith
nines-HoldsDigits (suc n) p e = (ground arith, refl, nines-HoldsDigits n (p + 1) (omega arith))
