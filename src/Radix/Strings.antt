-- ===== src/Radix/Strings.antt =====
-- Prefixes of strings, as radix-tree.c compares them.
use hyve_mind.Prelude.{
  ◌==◌, if◌then◌else◌, length, take, drop, ℕ, ◌+◌, ◌<◌, ◌≡◌, refl, ◌⊎◌, inl, inr, Bool, true, false,
  ◌&&◌, Option, none, some, List, [], ◌∷◌, ◌++◌, arith, ℕ_discrete,
}
use hyve_mind.Radix.{get_common_prefix_length}

-- What is left of `k` behind the prefix `p`.
unfoldable pub strip : List ℕ → List ℕ → Option (List ℕ)
strip [] k = some k
strip (x ∷ xs) [] = none
strip (x ∷ xs) (y ∷ ys) = let rest = strip xs ys in if x == y then rest else none

unfoldable pub same_key : List ℕ → List ℕ → Bool
same_key [] [] = true
same_key [] (y ∷ ys) = false
same_key (x ∷ xs) [] = false
same_key (x ∷ xs) (y ∷ ys) = x == y && same_key xs ys

-- The common prefix is the whole of `p` exactly where `p` can be stripped.
pub common_strip :
    (p k : List ℕ)
    → ((get_common_prefix_length p k ≡ length p)
        × (strip p k ≡ some (drop (get_common_prefix_length p k) k)))
      ⊎ ((get_common_prefix_length p k < length p) × (strip p k ≡ none))
unfolding get_common_prefix_length strip
common_strip [] k = inl (refl, refl)
common_strip (x ∷ xs) [] = inr (omega arith, refl)
common_strip (x ∷ xs) (y ∷ ys) = elim (ℕ_discrete x y) [
  | yes e ↦ elim (common_strip xs ys) [
    | inl (n, s) ↦ inl (ground arith, ground arith)
    | inr (n, s) ↦ inr (ground arith, ground arith)
  ]
  | no ne ↦ inr (ground arith, ground arith)
]

-- The key is the common prefix and what comes behind it.
pub common_parts :
    (p k : List ℕ)
    → let n = get_common_prefix_length p k in
      (k ≡ take n p ++ drop n k) × (n + length (drop n k) ≡ length k)
unfolding get_common_prefix_length
common_parts [] k = (refl, omega arith)
common_parts (x ∷ xs) [] = (refl, omega arith)
common_parts (x ∷ xs) (y ∷ ys) =
    let r = common_parts xs ys in
    elim (ℕ_discrete x y) [
      | yes e ↦ (ground (arith, r.0), ground (arith, r.1))
      | no ne ↦ (ground arith, ground arith)
    ]

pub strip-append_self : (p r : List ℕ) → strip p (p ++ r) ≡ some r
unfolding strip
strip-append_self [] r = refl
strip-append_self (x ∷ xs) r = ground (arith, strip-append_self xs r)

abbrev pub then_strip : List ℕ → Option (List ℕ) → Option (List ℕ)
then_strip b none = none
then_strip b (some r) = strip b r

pub strip-append : (a b k : List ℕ) → strip (a ++ b) k ≡ then_strip b (strip a k)
unfolding strip
strip-append [] b k = refl
strip-append (x ∷ xs) b [] = refl
strip-append (x ∷ xs) b (y ∷ ys) = ground (arith, strip-append xs b ys)

pub strip-some : (p k r : List ℕ) → strip p k ≡ some r → k ≡ p ++ r
unfolding strip
strip-some [] k r e = ground arith
strip-some (x ∷ xs) [] r e = cc
strip-some (x ∷ xs) (y ∷ ys) r e = ground (arith, strip-some xs ys r)

pub same_key-append : (p a b : List ℕ) → same_key (p ++ a) (p ++ b) ≡ same_key a b
unfolding same_key
same_key-append [] a b = refl
same_key-append (x ∷ xs) a b = ground (arith, same_key-append xs a b)

-- A key behind the prefix `p` is no key that `p` cannot be stripped from.
pub same_key_unstripped : (p r k : List ℕ) → strip p k ≡ none → same_key k (p ++ r) ≡ false
unfolding same_key strip
same_key_unstripped [] r k e = cc
same_key_unstripped (x ∷ xs) r [] e = refl
same_key_unstripped (x ∷ xs) r (y ∷ ys) e = ground (arith, same_key_unstripped xs r ys)
