-- ===== src/Radix/Lookup.antt =====
-- What a lookup in the radix tree of radix-tree.c does at a node.
use hyve_mind.Prelude.{
  Bool-cases, ℕ, ◌≡◌, refl, ap, ◌∙◌, inl, inr, Bool, true, Option, none, some, List, [], ◌∷◌, arith,
}
use hyve_mind.Radix.{RadixNode, absent, radix_node, prefix, is_absent, set_prefix, radix_tree_get}
use hyve_mind.Radix.Strings.{strip, common_strip}

-- A child stands at the first character of its prefix.
abbrev pub StartsWith : ℕ → RadixNode → Type 0
StartsWith c absent = Unit {0}
StartsWith c (radix_node [] t d ch) = ⊥
StartsWith c (radix_node (x ∷ xs) t d ch) = x ≡ c

abbrev pub IsRadix : RadixNode → Type 0
IsRadix absent = Unit {0}
IsRadix (radix_node p t d ch) = (c : ℕ) → StartsWith c (ch c) × IsRadix (ch c)

-- What the tree below `child` holds at a key that the prefix is stripped from.
abbrev pub get_stripped : RadixNode → Option (List ℕ) → Option ℕ
get_stripped child none = none
get_stripped child (some rest) = radix_tree_get child rest

unfoldable pub get_child : RadixNode → List ℕ → Option ℕ
get_child child k = get_stripped child (strip (prefix child) k)

pub get_child_absent : (n : RadixNode) (k : List ℕ) → is_absent n ≡ true → get_child n k ≡ none
unfolding get_child radix_tree_get strip
get_child_absent absent k e = refl
get_child_absent (radix_node p t d ch) k e = cc

-- A lookup goes on in the child at the first character.
pub radix_tree_get_step :
    (p : List ℕ) (t : Bool) (d : ℕ) (ch : ℕ → RadixNode) (c : ℕ) (cs : List ℕ)
    → radix_tree_get (radix_node p t d ch) (c ∷ cs) ≡ get_child (ch c) (c ∷ cs)
unfolding radix_tree_get get_child
radix_tree_get_step p t d ch c cs = elim (Bool-cases (is_absent (ch c))) [
  | inl e ↦ let z = get_child_absent (ch c) (c ∷ cs) e in ground (arith, z, e)
  | inr e ↦ elim (common_strip (prefix (ch c)) (c ∷ cs)) [
    | inl (n, s) ↦ ground (arith, n, s, e)
    | inr (n, s) ↦ ground (arith, n, s, e)
  ]
]

-- The prefix of a node plays no part in the lookups below it.
pub get-set_prefix :
    (q : List ℕ) (n : RadixNode) (k : List ℕ)
    → radix_tree_get (set_prefix q n) k ≡ radix_tree_get n k
unfolding radix_tree_get
get-set_prefix q absent k = refl
get-set_prefix q (radix_node p t d ch) [] = refl
get-set_prefix q (radix_node p t d ch) (c ∷ cs) = refl

pub get_child_at :
    (n : RadixNode) (q k : List ℕ) (o : Option (List ℕ))
    → prefix n ≡ q
    → strip q k ≡ o
    → get_child n k ≡ get_stripped n o
unfolding get_child
get_child_at n q k o e s = ap (get_stripped n) (ap (λ (p : List ℕ). strip p k) e ∙ s)
