-- ===== src/Radix/Add.antt =====
-- What `__radix_tree_add` of radix-tree.c does to the lookups.
use hyve_mind.Prelude.{
  ◌==◌, if◌then◌else◌, Option-cases, ℕ, ◌≡◌, refl, sym, ap, ap₂, subst, ◌∙◌, inl, inr, Bool, true,
  false, ◌&&◌, none, some, List, [], ◌∷◌, ◌++◌, arith, ℕ_discrete,
}
use hyve_mind.Radix.{RadixNode, absent, radix_node, prefix, is_absent, set_child, radix_tree_get}
use hyve_mind.Radix.Strings.{strip, same_key, strip-some, same_key-append, same_key_unstripped}
use hyve_mind.Radix.Lookup.{StartsWith, IsRadix, get_child, radix_tree_get_step, get_child_at}

-- The node after an attempt to add `d` at `key`, which succeeded if `ok`.
pub record Adds (n : RadixNode) (key : List ℕ) (d : ℕ) (ok : Bool) (n' : RadixNode) : Type 0 where
  pub prefix_kept : prefix n' ≡ prefix n
  pub present : is_absent n' ≡ false
  pub radix : IsRadix n'
  pub lookups :
      (k : List ℕ)
      → radix_tree_get n' k ≡ (if ok && same_key k key then some d else radix_tree_get n k)

StartsWith-prefix :
    (c : ℕ) (m m' : RadixNode)
    → prefix m' ≡ prefix m
    → is_absent m ≡ false
    → StartsWith c m
    → StartsWith c m'
StartsWith-prefix c absent m' e a s = cc
StartsWith-prefix c (radix_node [] t d ch) m' e a s = absurd s
StartsWith-prefix c (radix_node (x ∷ xs) t d ch) absent e a s = tt
StartsWith-prefix c (radix_node (x ∷ xs) t d ch) (radix_node [] t' d' ch') e a s = cc
StartsWith-prefix c (radix_node (x ∷ xs) t d ch) (radix_node (y ∷ ys) t' d' ch') e a s = cc

module _ (p : List ℕ) (t : Bool) (old : ℕ) (ch : ℕ → RadixNode) (c : ℕ) (cs : List ℕ) where
  -- A node in which the child at `c` gives way to one with the same lookups, to which a key is added.
  pub with_child-Adds :
      (m m' : RadixNode) (rest : List ℕ) (d : ℕ) (ok : Bool)
      → IsRadix (radix_node p t old ch)
      → StartsWith c m
      → is_absent m ≡ false
      → ((k : List ℕ) → get_child m k ≡ get_child (ch c) k)
      → (c ∷ cs) ≡ prefix m ++ rest
      → Adds m rest d ok m'
      → Adds (radix_node p t old ch) (c ∷ cs) d ok (radix_node p t old (set_child ch c m'))
  unfolding radix_tree_get same_key
  with_child-Adds m m' rest d ok r starts here same key_eq a = record {
    prefix_kept = refl;
    present = refl;
    radix = λ i. elim (ℕ_discrete i c) [
      | yes e ↦
          let at_c : (i == c) ≡ true = ground arith in
          rw at_c (
            subst (λ (j : ℕ). StartsWith j m') (sym e)
                (StartsWith-prefix c m m' a.prefix_kept here starts),
            a.radix,
          )
      | no ne ↦ let other : (i == c) ≡ false = ground arith in rw other (r i)
    ];
    lookups = looked_up;
  }
    where
      below :
          (k : List ℕ)
          → get_child m' k ≡ (if ok && same_key k (c ∷ cs) then some d else get_child (ch c) k)
      below k = elim (Option-cases (strip (prefix m) k)) [
        | inl e ↦
            let new = get_child_at m' (prefix m) k none a.prefix_kept e in
            let old_child = get_child_at m (prefix m) k none refl e in
            let kept = same k in
            let apart = ap (same_key k) key_eq ∙ same_key_unstripped (prefix m) rest k e in
            ground (arith, new, old_child, kept, apart)
        | inr (r, e) ↦
            let new = get_child_at m' (prefix m) k (some r) a.prefix_kept e in
            let old_child = get_child_at m (prefix m) k (some r) refl e in
            let kept = same k in
            let keys =
              ap₂ same_key (strip-some (prefix m) k r e) key_eq
              ∙ same_key-append (prefix m) r rest in
            let added = a.lookups r in ground (arith, new, old_child, kept, keys, added)
      ]

      looked_up :
          (k : List ℕ)
          → radix_tree_get (radix_node p t old (set_child ch c m')) k ≡ (
              if ok && same_key k (c ∷ cs)
              then some d
              else radix_tree_get (radix_node p t old ch) k)
      looked_up [] = ground arith
      looked_up (x ∷ xs) =
          let new = radix_tree_get_step p t old (set_child ch c m') x xs in
          let was = radix_tree_get_step p t old ch x xs in
          elim (ℕ_discrete x c) [
            | yes e ↦
                let at_c : (x == c) ≡ true = ground arith in
                let b = below (x ∷ xs) in
                let slot = ap (λ (i : ℕ). get_child (ch i) (x ∷ xs)) e in
                ground (arith, new, was, b, slot, at_c)
            | no ne ↦ ground (arith, new, was)
          ]
