-- ===== src/Radix/Nodes.antt =====
-- The nodes that `__radix_tree_add` of radix-tree.c makes: a new leaf, and the upper half of a split.
use hyve_mind.Prelude.{
  ◌==◌, Option-cases, length, take, drop, take-append-drop, ℕ, zero, suc, ◌<◌, ◌≡◌, refl, sym, ap,
  subst, ◌∙◌, inl, inr, true, false, Option, none, some, List, [], ◌∷◌, arith, ℕ_discrete,
}
use hyve_mind.Radix.{
  RadixNode, absent, radix_node, prefix, is_absent, set_prefix, set_child, fresh_node,
  radix_tree_get, split_node,
}
use hyve_mind.Radix.Strings.{strip, then_strip, strip-append}
use hyve_mind.Radix.Lookup.{
  IsRadix, get_stripped, get_child, get_child_absent, radix_tree_get_step, get-set_prefix,
  get_child_at,
}

fresh_lookups : (key k : List ℕ) → radix_tree_get (set_prefix key fresh_node) k ≡ none
unfolding radix_tree_get
fresh_lookups key [] = refl
fresh_lookups key (x ∷ xs) =
    radix_tree_get_step key false 0 (λ i. absent) x xs ∙ get_child_absent absent (x ∷ xs) refl

-- A new leaf holds nothing before its flag is set.
pub leaf_lookups :
    (key k : List ℕ) (n : RadixNode)
    → is_absent n ≡ true
    → get_child (set_prefix key fresh_node) k ≡ get_child n k
leaf_lookups key k n e = elim (Option-cases (strip key k)) [
  | inl s ↦
      get_child_at (set_prefix key fresh_node) key k none refl s ∙ sym (get_child_absent n k e)
  | inr (r, s) ↦
      get_child_at (set_prefix key fresh_node) key k (some r) refl s
      ∙ fresh_lookups key r
      ∙ sym (get_child_absent n k e)
]

pub leaf-IsRadix : (key : List ℕ) → IsRadix (set_prefix key fresh_node)
leaf-IsRadix key i = (tt, tt)

-- What is left of a prefix that is split before its end.
split_rest : (n : ℕ) (p : List ℕ) → n < length p → (c : ℕ) × (cs : List ℕ) × (drop n p ≡ c ∷ cs)
split_rest n [] h = absurd (omega arith)
split_rest zero (x ∷ xs) h = (x, xs, refl)
split_rest (suc n) (x ∷ xs) h = split_rest n xs (omega arith)

get_stripped-set_prefix :
    (q : List ℕ) (n : RadixNode) (o : Option (List ℕ))
    → get_stripped (set_prefix q n) o ≡ get_stripped n o
get_stripped-set_prefix q n none = refl
get_stripped-set_prefix q n (some r) = get-set_prefix q n r

-- A node whose only child is `child`, under the prefix `c ∷ cs`.
abbrev pub upper : List ℕ → ℕ → List ℕ → RadixNode → RadixNode
upper p c cs child = radix_node p false 0 (set_child (λ i. absent) c (set_prefix (c ∷ cs) child))

upper_lookups :
    (p : List ℕ) (c : ℕ) (cs : List ℕ) (child : RadixNode) (k : List ℕ)
    → is_absent child ≡ false
    → radix_tree_get (upper p c cs child) k ≡ get_stripped child (strip (c ∷ cs) k)
unfolding strip radix_tree_get
upper_lookups p c cs child [] a = refl
upper_lookups p c cs absent (x ∷ xs) a = cc
upper_lookups p c cs (radix_node q t d ch) (x ∷ xs) a =
    let child = radix_node q t d ch in
    let below = set_prefix (c ∷ cs) child in
    let o = strip (c ∷ cs) (x ∷ xs) in
    radix_tree_get_step p false 0 (set_child (λ i. absent) c below) x xs ∙ (elim (ℕ_discrete x c) [
      | yes e ↦
          let at_c : (x == c) ≡ true = ground arith in
          rw at_c (
            get_child_at below (c ∷ cs) (x ∷ xs) o refl refl
            ∙ get_stripped-set_prefix (c ∷ cs) child o)
      | no ne ↦
          let other : (x == c) ≡ false = ground arith in
          let other_c : (c == x) ≡ false = ground arith in
          rw (other, other_c) (get_child_absent absent (x ∷ xs) refl)
    ])

strip_split :
    (p : List ℕ) (n : ℕ) (k : List ℕ) → strip p k ≡ then_strip (drop n p) (strip (take n p) k)
strip_split p n k =
    ap (λ (q : List ℕ). strip q k) (sym (take-append-drop n p))
    ∙ strip-append (take n p) (drop n p) k

split_is_upper :
    (child : RadixNode) (n c : ℕ) (cs : List ℕ)
    → drop n (prefix child) ≡ c ∷ cs
    → split_node child n ≡ upper (take n (prefix child)) c cs child
split_is_upper child n c cs e = rw e refl

-- A split keeps what is below the child.
pub split_lookups :
    (child : RadixNode) (n : ℕ) (k : List ℕ)
    → is_absent child ≡ false
    → n < length (prefix child)
    → get_child (split_node child n) k ≡ get_child child k
split_lookups child n k a h =
    let (c, cs, rest) = split_rest n (prefix child) h in
    let u = upper (take n (prefix child)) c cs child in
    let parts = strip_split (prefix child) n k in
    ap (λ (m : RadixNode). get_child m k) (split_is_upper child n c cs rest)
    ∙ elim (Option-cases (strip (take n (prefix child)) k)) [
      | inl e ↦
          let missing = parts ∙ ap (then_strip (drop n (prefix child))) e in
          get_child_at u (take n (prefix child)) k none refl e
          ∙ sym (get_child_at child (prefix child) k none refl missing)
      | inr (r, e) ↦
          let there =
            parts
            ∙ ap (then_strip (drop n (prefix child))) e
            ∙ ap (λ (q : List ℕ). strip q r) rest in
          get_child_at u (take n (prefix child)) k (some r) refl e
          ∙ upper_lookups (take n (prefix child)) c cs child r a
          ∙ sym (get_child_at child (prefix child) k (strip (c ∷ cs) r) refl there)
    ]

pub upper-IsRadix :
    (p : List ℕ) (c : ℕ) (cs : List ℕ) (child : RadixNode)
    → IsRadix child
    → IsRadix (upper p c cs child)
upper-IsRadix p c cs absent r i = elim (ℕ_discrete i c) [
  | yes e ↦ let at_c : (i == c) ≡ true = ground arith in rw at_c (tt, tt)
  | no ne ↦ let other : (i == c) ≡ false = ground arith in rw other (tt, tt)
]
upper-IsRadix p c cs (radix_node q t d ch) r i = elim (ℕ_discrete i c) [
  | yes e ↦ let at_c : (i == c) ≡ true = ground arith in rw at_c (sym e, r)
  | no ne ↦ let other : (i == c) ≡ false = ground arith in rw other (tt, tt)
]

pub split-IsRadix :
    (child : RadixNode) (n : ℕ)
    → IsRadix child
    → n < length (prefix child)
    → IsRadix (split_node child n)
split-IsRadix child n r h =
    let (c, cs, rest) = split_rest n (prefix child) h in
    subst IsRadix (sym (split_is_upper child n c cs rest))
      (upper-IsRadix (take n (prefix child)) c cs child r)
