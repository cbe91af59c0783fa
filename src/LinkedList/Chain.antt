-- ===== src/LinkedList/Chain.antt =====
-- The list of entries that the pointers of include/lib/list.h spell out.
use hyve_mind.Prelude.{ℕ, ◌≡◌, refl, ◌∙◌, ◌≢◌, List, [], ◌∷◌, ◌++◌, arith}
use hyve_mind.LinkedList.{Links, store_pointer, list_add}

abbrev pub NotIn : ℕ → List ℕ → Type 0
NotIn x [] = Unit {0}
NotIn x (y ∷ ys) = (x ≢ y) × NotIn x ys

abbrev pub Distinct : List ℕ → Type 0
Distinct [] = Unit {0}
Distinct (x ∷ xs) = NotIn x xs × Distinct xs

-- From `a` the entries `xs` follow one another up to `b`, in both directions.
abbrev pub Chain : Links → ℕ → List ℕ → ℕ → Type 0
Chain l a [] b = (l.next a ≡ b) × (l.prev b ≡ a)
Chain l a (x ∷ xs) b = (l.next a ≡ x) × (l.prev x ≡ a) × Chain l x xs b

-- The circular list of `head` has the entries `xs`.
abbrev pub IsListOf : Links → ℕ → List ℕ → Type 0
IsListOf l head xs = Chain l head xs head × Distinct (head ∷ xs) × NotIn 0 (head ∷ xs)

abbrev pub last : ℕ → List ℕ → ℕ
last a [] = a
last a (x ∷ xs) = last x xs

pub Chain-prev : (l : Links) (a b : ℕ) (xs : List ℕ) → Chain l a xs b → l.prev b ≡ last a xs
Chain-prev l a b [] c = c.1
Chain-prev l a b (x ∷ xs) c = Chain-prev l x b xs c.2

pub last-NotIn : (a x : ℕ) (xs : List ℕ) → NotIn a (x ∷ xs) → a ≢ last x xs
last-NotIn a x [] n = n.0
last-NotIn a x (y ∷ ys) n = last-NotIn a y ys n.1

-- Two memories that agree on the addresses of a list.
abbrev pub AgreeOn : (ℕ → ℕ) → (ℕ → ℕ) → List ℕ → Type 0
AgreeOn f g [] = Unit {0}
AgreeOn f g (x ∷ xs) = (f x ≡ g x) × AgreeOn f g xs

pub AgreeOn-store :
    (f g : ℕ → ℕ) (address value : ℕ) (xs : List ℕ)
    → NotIn address xs
    → AgreeOn f g xs
    → AgreeOn (store_pointer f address value) g xs
AgreeOn-store f g address value [] n h = tt
AgreeOn-store f g address value (x ∷ xs) n h =
    let apart = n.0 in let same = h.0 in (ground arith, AgreeOn-store f g address value xs n.1 h.1)

pub AgreeOn-refl : (f : ℕ → ℕ) (xs : List ℕ) → AgreeOn f f xs
AgreeOn-refl f [] = tt
AgreeOn-refl f (x ∷ xs) = (refl, AgreeOn-refl f xs)

-- Pointers that change elsewhere leave a chain as it is.
pub Chain-frame :
    (l l' : Links) (a b : ℕ) (xs : List ℕ)
    → AgreeOn l'.next l.next (a ∷ xs)
    → AgreeOn l'.prev l.prev xs
    → l'.prev b ≡ l.prev b
    → Chain l a xs b
    → Chain l' a xs b
Chain-frame l l' a b [] n p e c = (n.0 ∙ c.0, e ∙ c.1)
Chain-frame l l' a b (x ∷ xs) n p e c =
    (n.0 ∙ c.0, p.0 ∙ c.1, Chain-frame l l' x b xs n.1 p.1 e c.2)

-- An entry added in front of `b` comes last.
pub Chain-list_add :
    (l : Links) (a b new : ℕ) (xs : List ℕ)
    → Chain l a xs b
    → Distinct (a ∷ xs)
    → NotIn b xs
    → NotIn new (a ∷ xs)
    → new ≢ b
    → Chain (list_add l new (last a xs) b) a (xs ++ new ∷ []) b
Chain-list_add l a b new [] c d nb nn ne =
    let apart = nn.0 in (ground arith, ground arith, (ground arith, ground arith))
Chain-list_add l a b new (x ∷ xs) c d nb nn ne =
    let z = last-NotIn a x xs d.0 in
    let (after, before, further) = c in
    let apart = nn.0 in
    let new_x = nn.1.0 in
    let b_x = nb.0 in
    (ground arith, ground arith, Chain-list_add l x b new xs further d.1 nb.1 nn.1 ne)
