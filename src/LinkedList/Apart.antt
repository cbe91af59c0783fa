-- ===== src/LinkedList/Apart.antt =====
-- An operation on one list of include/lib/list.h leaves the other lists as they are.
use hyve_mind.Prelude.{ℕ, sym, subst, List, [], ◌∷◌, ◌++◌, arith}
use hyve_mind.LinkedList.{Links, store_pointer, list_add, list_add_tail, list_remove_head}
use hyve_mind.LinkedList.Chain.{
  NotIn, Chain, IsListOf, last, Chain-prev, AgreeOn-store, AgreeOn-refl, Chain-frame,
}
use hyve_mind.LinkedList.Operations.{without, remove_first}

-- No entry of the one is an entry of the other.
abbrev pub Apart : List ℕ → List ℕ → Type 0
Apart [] ys = Unit {0}
Apart (x ∷ xs) ys = NotIn x ys × Apart xs ys

Apart-nil : (xs : List ℕ) → Apart xs []
Apart-nil [] = tt
Apart-nil (x ∷ xs) = (tt, Apart-nil xs)

Apart-cons : (xs ys : List ℕ) (y : ℕ) → Apart xs ys → NotIn y xs → Apart xs (y ∷ ys)
Apart-cons [] ys y h n = tt
Apart-cons (x ∷ xs) ys y h n = (((λ e. n.0 (sym e)), h.0), Apart-cons xs ys y h.1 n.1)

pub Apart-sym : (xs ys : List ℕ) → Apart xs ys → Apart ys xs
Apart-sym [] ys h = Apart-nil ys
Apart-sym (x ∷ xs) ys h = Apart-cons ys xs x (Apart-sym xs ys h.1) h.0

pub Apart-append : (xs ys : List ℕ) (x : ℕ) → Apart xs ys → NotIn x ys → Apart (xs ++ x ∷ []) ys
Apart-append [] ys x h n = (n, tt)
Apart-append (z ∷ zs) ys x h n = (h.0, Apart-append zs ys x h.1 n)

last-Apart : (a : ℕ) (xs ys : List ℕ) → Apart (a ∷ xs) ys → NotIn (last a xs) ys
last-Apart a [] ys h = h.0
last-Apart a (x ∷ xs) ys h = last-Apart x xs ys h.1

pub list_add_tail-Apart :
    (l : Links) (head new other : ℕ) (xs ys : List ℕ)
    → IsListOf l head xs
    → IsListOf l other ys
    → Apart (head ∷ xs) (other ∷ ys)
    → NotIn new (other ∷ ys)
    → IsListOf (list_add_tail l head new) other ys
unfolding list_add_tail
list_add_tail-Apart l head new other xs ys (c, d, nz) (c', d', nz') a n =
    let before = Chain-prev l head head xs c in
    let end = last-Apart head xs (other ∷ ys) a in
    let head_other = a.0.0 in
    let new_other = n.0 in
    (
      rw before (
          Chain-frame l (list_add l new (last head xs) head) other other ys
            (AgreeOn-store (store_pointer l.next new head) l.next (last head xs) new (other ∷ ys)
              end
              (AgreeOn-store l.next l.next new head (other ∷ ys) n
                (AgreeOn-refl l.next (other ∷ ys))))
            (AgreeOn-store (store_pointer l.prev new (last head xs)) l.prev head new ys a.0.1
              (AgreeOn-store l.prev l.prev new (last head xs) ys n.1 (AgreeOn-refl l.prev ys)))
            (ground arith) c'),
      d',
      nz',
    )

without-Chain :
    (l : Links) (head x after other : ℕ) (ys : List ℕ)
    → NotIn head (other ∷ ys)
    → NotIn x (other ∷ ys)
    → NotIn after (other ∷ ys)
    → Chain l other ys other
    → Chain (without l head x after) other ys other
without-Chain l head x after other ys h hx ha c =
    let x_other = hx.0 in
    let after_other = ha.0 in
    Chain-frame l (without l head x after) other other ys
      (AgreeOn-store (store_pointer l.next head after) l.next x 0 (other ∷ ys) hx
        (AgreeOn-store l.next l.next head after (other ∷ ys) h (AgreeOn-refl l.next (other ∷ ys))))
      (AgreeOn-store (store_pointer l.prev after head) l.prev x 0 ys hx.1
        (AgreeOn-store l.prev l.prev after head ys ha.1 (AgreeOn-refl l.prev ys)))
      (ground arith) c

pub list_remove_head-Apart :
    (l : Links) (head x other : ℕ) (xs ys : List ℕ)
    → IsListOf l head (x ∷ xs)
    → IsListOf l other ys
    → Apart (head ∷ x ∷ xs) (other ∷ ys)
    → IsListOf (list_remove_head l head) other ys
list_remove_head-Apart l head x other xs ys (c, d, nz) (c', d', nz') a = (links xs c a, d', nz')
  where
    links :
        (zs : List ℕ)
        → Chain l head (x ∷ zs) head
        → Apart (head ∷ x ∷ zs) (other ∷ ys)
        → Chain (list_remove_head l head) other ys other
    links [] (first, back, rest) b =
        subst (λ (m : Links). Chain m other ys other)
          (sym (remove_first l head x head first back rest.0 nz.1.0))
          (without-Chain l head x head other ys b.0 b.1.0 b.0 c')
    links (z ∷ zs) (first, back, rest) b =
        subst (λ (m : Links). Chain m other ys other)
          (sym (remove_first l head x z first back rest.0 nz.1.0))
          (without-Chain l head x z other ys b.0 b.1.0 b.1.1.0 c')
