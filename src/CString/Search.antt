-- ===== src/CString/Search.antt =====
-- `strlen`, `strcmp`, `strncmp` and the two copies of string.c, over NUL-terminated strings.
use hyve_mind.Prelude.{
  length, take, take-length, ℕ, zero, suc, ◌+◌, ◌-◌, ◌≤◌, ◌<◌, min, ◌≡◌, refl, ap, subst, ◌∙◌, ◌≢◌,
  ◌⊎◌, inl, inr, Option, some, List, [], ◌∷◌, arith,
}
use hyve_mind.CString.{
  Memory, store, memcpy, strcmp_loop, strcmp, strncmp_loop, strncmp, strlen_loop, strlen, strdup_nt,
  strndup_nt,
}
use hyve_mind.CString.Memory.{written, memcpy_lem}

-- The memory holds these characters and then a NUL.
abbrev pub HoldsString : Memory → ℕ → List ℕ → Type 0
HoldsString m p [] = m p ≡ 0
HoldsString m p (c ∷ cs) = (m p ≡ c) × (c ≢ 0) × HoldsString m (p + 1) cs

strlen_loop_lem :
    (cs : List ℕ) (fuel counter a : ℕ) (m : Memory) (s : ℕ)
    → a ≡ s + counter
    → length cs < fuel
    → HoldsString m a cs
    → strlen_loop fuel counter m s ≡ some (counter + length cs)
unfolding strlen_loop
strlen_loop_lem [] zero counter a m s e lt h = absurd (omega arith)
strlen_loop_lem [] (suc fuel) counter a m s e lt h = ground arith
strlen_loop_lem (c ∷ cs) zero counter a m s e lt h = absurd (omega arith)
strlen_loop_lem (c ∷ cs) (suc fuel) counter a m s e lt h =
    ground
      (arith, strlen_loop_lem cs fuel (counter + 1) (a + 1) m s (omega arith) (omega arith) h.2)

-- `strlen` stops at the NUL and counts the characters before it.
pub strlen_lem :
    (cs : List ℕ) (fuel : ℕ) (m : Memory) (s : ℕ)
    → length cs < fuel
    → HoldsString m s cs
    → strlen fuel m s ≡ some (length cs)
unfolding strlen
strlen_lem cs fuel m s lt h =
    strlen_loop_lem cs fuel 0 s m s (omega arith) lt h ∙ ap some (omega arith)

-- The outcome of a comparison of `xs` and `ys`.
abbrev pub Compares : List ℕ → List ℕ → Option ℕ → Type 0
Compares xs ys r = ((xs ≡ ys) × (r ≡ some 0)) ⊎ ((xs ≢ ys) × (r ≡ some 1))

Compares-cons :
    (x : ℕ) (xs ys : List ℕ) (r : Option ℕ) → Compares xs ys r → Compares (x ∷ xs) (x ∷ ys) r
Compares-cons x xs ys r (inl (e, h)) = inl (ap (◌∷◌ x) e, h)
Compares-cons x xs ys r (inr (n, h)) = inr (λ e. n (cc), h)

Compares-step :
    (x y : ℕ) (xs ys : List ℕ) (r rest : Option ℕ)
    → Compares xs ys rest
    → ((x ≡ y) × (r ≡ rest)) ⊎ ((x ≢ y) × (r ≡ some 1))
    → Compares (x ∷ xs) (y ∷ ys) r
Compares-step x y xs ys r rest h (inl (e, q)) = rw (e, q) (Compares-cons y xs ys rest h)
Compares-step x y xs ys r rest h (inr (n, q)) = inr (λ e. n (cc), q)

strcmp_loop_lem :
    (xs ys : List ℕ) (fuel counter a b : ℕ) (m : Memory) (s1 s2 : ℕ)
    → a ≡ s1 + counter
    → b ≡ s2 + counter
    → length xs < fuel
    → HoldsString m a xs
    → HoldsString m b ys
    → Compares xs ys (strcmp_loop fuel counter m s1 s2)
unfolding strcmp_loop
strcmp_loop_lem xs ys zero counter a b m s1 s2 ea eb lt hx hy = absurd (omega arith)
strcmp_loop_lem [] [] (suc fuel) counter a b m s1 s2 ea eb lt hx hy = inl (refl, ground arith)
strcmp_loop_lem [] (y ∷ ys) (suc fuel) counter a b m s1 s2 ea eb lt hx hy =
    inr (λ e. cc, ground arith)
strcmp_loop_lem (x ∷ xs) [] (suc fuel) counter a b m s1 s2 ea eb lt hx hy =
    inr (λ e. cc, ground arith)
strcmp_loop_lem (x ∷ xs) (y ∷ ys) (suc fuel) counter a b m s1 s2 ea eb lt hx hy =
    Compares-step x y xs ys _ (strcmp_loop fuel (counter + 1) m s1 s2)
      (strcmp_loop_lem xs ys fuel (counter + 1) (a + 1) (b + 1) m s1 s2 (omega arith) (omega arith)
        (omega arith) hx.2 hy.2)
      (ground arith)

-- `strcmp` reaches an answer, 0 for equal strings and 1 for different ones.
pub strcmp_lem :
    (xs ys : List ℕ) (fuel : ℕ) (m : Memory) (s1 s2 : ℕ)
    → length xs < fuel
    → HoldsString m s1 xs
    → HoldsString m s2 ys
    → Compares xs ys (strcmp fuel m s1 s2)
unfolding strcmp
strcmp_lem xs ys fuel m s1 s2 lt hx hy =
    strcmp_loop_lem xs ys fuel 0 s1 s2 m s1 s2 (omega arith) (omega arith) lt hx hy

strncmp_loop_lem :
    (xs ys : List ℕ) (rounds i a b : ℕ) (m : Memory) (s1 s2 : ℕ)
    → a ≡ s1 + i
    → b ≡ s2 + i
    → HoldsString m a xs
    → HoldsString m b ys
    → Compares (take rounds xs) (take rounds ys) (some (strncmp_loop rounds i m s1 s2))
unfolding strncmp_loop
strncmp_loop_lem xs ys zero i a b m s1 s2 ea eb hx hy = inl (refl, refl)
strncmp_loop_lem [] [] (suc rounds) i a b m s1 s2 ea eb hx hy = inl (refl, ground arith)
strncmp_loop_lem [] (y ∷ ys) (suc rounds) i a b m s1 s2 ea eb hx hy = inr (λ e. cc, ground arith)
strncmp_loop_lem (x ∷ xs) [] (suc rounds) i a b m s1 s2 ea eb hx hy = inr (λ e. cc, ground arith)
strncmp_loop_lem (x ∷ xs) (y ∷ ys) (suc rounds) i a b m s1 s2 ea eb hx hy =
    Compares-step x y (take rounds xs) (take rounds ys) _
      (some (strncmp_loop rounds (i + 1) m s1 s2))
      (strncmp_loop_lem xs ys rounds (i + 1) (a + 1) (b + 1) m s1 s2 (omega arith) (omega arith)
        hx.2 hy.2)
      (ground arith)

-- `strncmp` compares the first `len` characters, or the whole strings where these are shorter.
pub strncmp_lem :
    (xs ys : List ℕ) (m : Memory) (s1 s2 len : ℕ)
    → HoldsString m s1 xs
    → HoldsString m s2 ys
    → Compares (take len xs) (take len ys) (some (strncmp m s1 s2 len))
unfolding strncmp
strncmp_lem xs ys m s1 s2 len hx hy =
    strncmp_loop_lem xs ys len 0 s1 s2 m s1 s2 (omega arith) (omega arith) hx hy

-- The first `n` characters of a string, standing at another place before a NUL.
HoldsString-taken :
    (n : ℕ) (cs : List ℕ) (m m' : Memory) (p s : ℕ)
    → ((k : ℕ) → k < min n (length cs) → m' (p + k) ≡ m (s + k))
    → m' (p + min n (length cs)) ≡ 0
    → HoldsString m s cs
    → HoldsString m' p (take n cs)
HoldsString-taken zero cs m m' p s agrees end h = ap m' (omega arith) ∙ end
HoldsString-taken (suc n) [] m m' p s agrees end h = ap m' (omega arith) ∙ end
HoldsString-taken (suc n) (c ∷ cs) m m' p s agrees end h = (
  ap m' (omega arith) ∙ agrees 0 (omega arith) ∙ ap m (omega arith) ∙ h.0,
  h.1,
  HoldsString-taken n cs m m' (p + 1) (s + 1)
      (λ k lt. ap m' (omega arith) ∙ agrees (suc k) (omega arith) ∙ ap m (omega arith))
      (ap m' (omega arith) ∙ end) h.2,
)

-- A string that stands at another place too, its NUL included.
HoldsString-moved :
    (cs : List ℕ) (m m' : Memory) (p s : ℕ)
    → ((k : ℕ) → k < length cs → m' (p + k) ≡ m (s + k))
    → m' (p + length cs) ≡ 0
    → HoldsString m s cs
    → HoldsString m' p cs
HoldsString-moved cs m m' p s agrees end h = subst (HoldsString m' p) (take-length cs) (
    HoldsString-taken (length cs) cs m m' p s (λ k lt. agrees k (omega arith))
      (ap m' (omega arith) ∙ end) h)

pub HoldsString-end :
    (cs : List ℕ) (m : Memory) (s : ℕ) → HoldsString m s cs → m (s + length cs) ≡ 0
HoldsString-end [] m s h = ap m (omega arith) ∙ h
HoldsString-end (c ∷ cs) m s h = ap m (omega arith) ∙ HoldsString-end cs m (s + 1) h.2

-- `strdup_nt` into a block that does not overlap the string: both places hold the string.
pub strdup_nt_lem :
    (cs : List ℕ) (fuel : ℕ) (m : Memory) (s p : ℕ)
    → length cs < fuel
    → HoldsString m s cs
    → (p + length cs + 1 ≤ s) ⊎ (s + length cs + 1 ≤ p)
    → (m' : Memory) × (strdup_nt fuel m s (some p) ≡ some (some p, m'))
      × HoldsString m' p cs
      × HoldsString m' s cs
unfolding strdup_nt
strdup_nt_lem cs fuel m s p lt h apart = (
  memcpy m p s (length cs + 1),
  rw (strlen_lem cs fuel m s lt h, strdup_nt),
  HoldsString-moved cs m _ p s (λ k hk. ground (arith, at (p + k), ap m (shift k)))
      (ground (arith, at (p + length cs), ap m (shift (length cs)), HoldsString-end cs m s h)) h,
  HoldsString-moved cs m _ s s (λ k hk. ground (arith, at (s + k)))
      (ground (arith, at (s + length cs), HoldsString-end cs m s h)) h,
)
  where
    at : (a : ℕ) → memcpy m p s (length cs + 1) a ≡ written m p (length cs + 1) (λ i. m (s + i)) a
    at a = memcpy_lem m p s (length cs + 1) a (ground arith)

    shift : (k : ℕ) → s + (p + k - p) ≡ s + k
    shift k = omega arith

-- `strndup_nt` copies the first `len` characters, or the whole string where it is shorter, and ends
-- the copy with a NUL.
pub strndup_nt_lem :
    (cs : List ℕ) (fuel : ℕ) (m : Memory) (s p len : ℕ)
    → length cs < fuel
    → HoldsString m s cs
    → (p + length cs + 1 ≤ s) ⊎ (s + length cs + 1 ≤ p)
    → (m' : Memory) × (strndup_nt fuel m s len (some p) ≡ some (some p, m'))
      × HoldsString m' p (take len cs)
unfolding strndup_nt
strndup_nt_lem cs fuel m s p len lt h apart = (
  store (memcpy m p s n) (p + n) 0,
  rw (strlen_lem cs fuel m s lt h, strndup_nt),
  HoldsString-taken len cs m _ p s (λ k hk. ground (arith, at (p + k), ap m (shift k)))
      (ground arith) h,
)
  where
    n : ℕ
    n = min (length cs) len

    at : (a : ℕ) → memcpy m p s n a ≡ written m p n (λ i. m (s + i)) a
    at a = memcpy_lem m p s n a (ground arith)

    shift : (k : ℕ) → s + (p + k - p) ≡ s + k
    shift k = omega arith
