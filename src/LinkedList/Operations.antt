-- ===== src/LinkedList/Operations.antt =====
-- What the operations of include/lib/list.h do to the list of entries.
use hyve_mind.Prelude.{◌==◌, ℕ, ◌≡◌, refl, sym, subst, ◌≢◌, false, List, [], ◌∷◌, ◌++◌, arith}
use hyve_mind.LinkedList.{
  Links, store_pointer, set_next, set_prev, init_list_head, list_add, list_add_head, list_add_tail,
  list_remove, list_remove_entry, list_remove_head,
}
use hyve_mind.LinkedList.Chain.{
  NotIn, Distinct, Chain, IsListOf, Chain-prev, AgreeOn-store, AgreeOn-refl, Chain-frame,
  Chain-list_add,
}

NotIn-append : (x y : ℕ) (xs : List ℕ) → NotIn x xs → x ≢ y → NotIn x (xs ++ y ∷ [])
NotIn-append x y [] n h = (h, tt)
NotIn-append x y (z ∷ zs) n h = (n.0, NotIn-append x y zs n.1 h)

Distinct-append : (y : ℕ) (xs : List ℕ) → Distinct xs → NotIn y xs → Distinct (xs ++ y ∷ [])
Distinct-append y [] d n = (tt, tt)
Distinct-append y (x ∷ xs) d n =
    (NotIn-append x y xs d.0 (λ e. n.0 (sym e)), Distinct-append y xs d.1 n.1)

-- An initialized list is empty.
pub init_list_head_lem :
    (l : Links) (head : ℕ) → head ≢ 0 → IsListOf (init_list_head l head) head []
init_list_head_lem l head h = ((ground arith, ground arith), (tt, tt), (λ e. h (sym e), tt))

-- A new entry becomes the last of the list.
pub list_add_tail_lem :
    (l : Links) (head new : ℕ) (xs : List ℕ)
    → IsListOf l head xs
    → NotIn new (head ∷ xs)
    → new ≢ 0
    → IsListOf (list_add_tail l head new) head (xs ++ new ∷ [])
unfolding list_add_tail
list_add_tail_lem l head new xs (c, d, nz) n h = (
  rw (Chain-prev l head head xs c) (Chain-list_add l head head new xs c d d.0 n n.0),
  Distinct-append new (head ∷ xs) d n,
  NotIn-append 0 new (head ∷ xs) nz (λ e. h (sym e)),
)

-- A new entry becomes the first of the list.
pub list_add_head_lem :
    (l : Links) (head new : ℕ) (xs : List ℕ)
    → IsListOf l head xs
    → NotIn new (head ∷ xs)
    → new ≢ 0
    → IsListOf (list_add_head l head new) head (new ∷ xs)
unfolding list_add_head
list_add_head_lem l head new xs (c, d, nz) n h = (
  links xs c d.0 d.1 n,
  (((λ e. n.0 (sym e)), d.0), (n.1, d.1)),
  (nz.0, ((λ e. h (sym e)), nz.1)),
)
  where
    links :
        (ys : List ℕ)
        → Chain l head ys head
        → NotIn head ys
        → Distinct ys
        → NotIn new (head ∷ ys)
        → Chain (list_add l new head (l.next head)) head (new ∷ ys) head
    links [] k dh dy m =
        let first = k.0 in
        let apart = m.0 in
        subst (λ (a : ℕ). Chain (list_add l new head a) head (new ∷ []) head) (sym first)
          (ground arith, ground arith, (ground arith, ground arith))
    links (y ∷ ys) k dh dy m =
        let (first, back, further) = k in
        let apart = m.0 in
        let new_y = m.1.0 in
        let head_y = dh.0 in
        subst (λ (a : ℕ). Chain (list_add l new head a) head (new ∷ y ∷ ys) head) (sym first)
          (
            ground arith,
            ground arith,
            (
              ground arith,
              ground arith,
              Chain-frame l (list_add l new head y) y head ys
                  (AgreeOn-store (store_pointer l.next new y) l.next head new (y ∷ ys) dh
                    (AgreeOn-store l.next l.next new y (y ∷ ys) m.1 (AgreeOn-refl l.next (y ∷ ys))))
                  (AgreeOn-store (store_pointer l.prev new head) l.prev y new ys dy.0
                    (AgreeOn-store l.prev l.prev new head ys m.1.1 (AgreeOn-refl l.prev ys)))
                  (ground arith) further,
            ),
          )

-- The pointers without the first entry.
abbrev pub without : Links → ℕ → ℕ → ℕ → Links
without l head x after = set_next (set_prev (list_remove l head after) x 0) x 0

pub remove_first :
    (l : Links) (head x after : ℕ)
    → l.next head ≡ x
    → l.prev x ≡ head
    → l.next x ≡ after
    → 0 ≢ x
    → list_remove_head l head ≡ without l head x after
unfolding list_remove_entry
remove_first l head x after e1 e2 e3 h =
    let present : (x == 0) ≡ false = ground arith in rw (e1, present, e2, e3) refl

-- The first entry leaves the list.
pub list_remove_head_lem :
    (l : Links) (head x : ℕ) (xs : List ℕ)
    → IsListOf l head (x ∷ xs)
    → IsListOf (list_remove_head l head) head xs
list_remove_head_lem l head x xs (c, d, nz) =
    (links xs c d.0 d.1 nz.1.0, (d.0.1, d.1.1), (nz.0, nz.1.1))
  where
    links :
        (ys : List ℕ)
        → Chain l head (x ∷ ys) head
        → NotIn head (x ∷ ys)
        → Distinct (x ∷ ys)
        → 0 ≢ x
        → Chain (list_remove_head l head) head ys head
    links [] (first, back, rest) dh dx h =
        let head_x = dh.0 in
        subst (λ (m : Links). Chain m head [] head)
          (sym (remove_first l head x head first back rest.0 h)) (ground arith, ground arith)
    links (y ∷ ys) (first, back, rest) dh dx h =
        let (second, back_y, further) = rest in
        let head_x = dh.0 in
        let head_y = dh.1.0 in
        let x_y = dx.0.0 in
        subst (λ (m : Links). Chain m head (y ∷ ys) head)
          (sym (remove_first l head x y first back second h))
          (
            ground arith,
            ground arith,
            Chain-frame l (without l head x y) y head ys
                (AgreeOn-store (store_pointer l.next head y) l.next x 0 (y ∷ ys) dx.0
                  (AgreeOn-store l.next l.next head y (y ∷ ys) dh.1 (AgreeOn-refl l.next (y ∷ ys))))
                (AgreeOn-store (store_pointer l.prev y head) l.prev x 0 ys dx.0.1
                  (AgreeOn-store l.prev l.prev y head ys dx.1.0 (AgreeOn-refl l.prev ys)))
                (ground arith) further,
          )
