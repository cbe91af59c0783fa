-- ===== src/Radix/Mapping.antt =====
-- The tree of radix-tree.c as a map from strings to numbers.
use mathlib.Core.List.{append-nil}
use hyve_mind.Prelude.{
  ◌==◌, if◌then◌else◌, Bool-cases, length, drop, ℕ, zero, suc, ◌-◌, ◌<◌, ◌≡◌, refl, sym, ◌⊎◌, inl,
  inr, Bool, true, false, Option, some, List, [], ◌∷◌, ◌++◌, arith, ℕ_discrete,
}
use hyve_mind.Radix.{
  RadixNode, absent, radix_node, prefix, is_absent, set_prefix, set_child, fresh_node,
  get_common_prefix_length, radix_tree_get, split_node, with_child, radix_tree_add,
}
use hyve_mind.Radix.Strings.{same_key, common_strip, common_parts, strip-some}
use hyve_mind.Radix.Lookup.{StartsWith, IsRadix, get_child}
use hyve_mind.Radix.Add.{Adds, with_child-Adds}
use hyve_mind.Radix.Nodes.{leaf_lookups, leaf-IsRadix, split_lookups, split-IsRadix}

-- `r` is a run that adds `d` at `key` below `n`, or that stops because no node is left.
unfoldable pub AddedTo : Option (Bool × RadixNode × ℕ) → RadixNode → List ℕ → ℕ → Type 0
AddedTo r n key d =
    (ok : Bool) × (n' : RadixNode) × (left : ℕ) × (r ≡ some (ok, n', left))
    × Adds n key d ok n'
    × ((ok ≡ true) ⊎ (left ≡ 0))

common_pos :
    (c : ℕ) (cs : List ℕ) (child : RadixNode)
    → StartsWith c child
    → is_absent child ≡ false
    → 0 < get_common_prefix_length (prefix child) (c ∷ cs)
unfolding get_common_prefix_length
common_pos c cs absent s a = cc
common_pos c cs (radix_node [] t d ch) s a = absurd s
common_pos c cs (radix_node (x ∷ xs) t d ch) s a = ground arith

split_starts :
    (c n : ℕ) (child : RadixNode)
    → 0 < n
    → StartsWith c child
    → is_absent child ≡ false
    → StartsWith c (split_node child n)
split_starts c n absent h s a = cc
split_starts c n (radix_node [] t d ch) h s a = absurd s
split_starts c zero (radix_node (x ∷ xs) t d ch) h s a = absurd (omega arith)
split_starts c (suc n) (radix_node (x ∷ xs) t d ch) h s a = s

terminated :
    (p : List ℕ) (t : Bool) (old : ℕ) (ch : ℕ → RadixNode) (d : ℕ)
    → IsRadix (radix_node p t old ch)
    → Adds (radix_node p t old ch) [] d true (radix_node p true d ch)
unfolding radix_tree_get same_key
terminated p t old ch d r = record {
  prefix_kept = refl;
  present = refl;
  radix = r;
  lookups = looked_up;
}
  where
    looked_up :
        (k : List ℕ)
        → radix_tree_get (radix_node p true d ch) k
          ≡ (if same_key k [] then some d else radix_tree_get (radix_node p t old ch) k)
    looked_up [] = refl
    looked_up (x ∷ xs) = refl

unchanged :
    (n : RadixNode) (key : List ℕ) (d : ℕ) → is_absent n ≡ false → IsRadix n → Adds n key d false n
unchanged n key d a r = record { prefix_kept = refl; present = a; radix = r; lookups = λ k. refl }

module _ (p : List ℕ) (t : Bool) (old : ℕ) (ch : ℕ → RadixNode) (c : ℕ) (cs : List ℕ) where
  -- The recursion into a child of which the tree's lookups do not change.
  below_child :
      (run : Option (Bool × RadixNode × ℕ)) (m : RadixNode) (rest : List ℕ) (d : ℕ)
      → IsRadix (radix_node p t old ch)
      → StartsWith c m
      → is_absent m ≡ false
      → ((k : List ℕ) → get_child m k ≡ get_child (ch c) k)
      → (c ∷ cs) ≡ prefix m ++ rest
      → AddedTo run m rest d
      → AddedTo (with_child (radix_node p t old ch) c run) (radix_node p t old ch) (c ∷ cs) d
  unfolding AddedTo
  below_child run m rest d r starts here same key_eq (ok, m', left, e, a, mem) = (
    ok,
    radix_node p t old (set_child ch c m'),
    left,
    rw e refl,
    with_child-Adds p t old ch c cs m m' rest d ok r starts here same key_eq a,
    mem,
  )

-- Within a depth of one more than the key's length the insertion ends. It leaves a well-formed tree,
-- in which the key holds the value and all other keys what they held; where it fails no node is left
-- to allocate, and no key has changed.
pub radix_tree_add_lem :
    (fuel allocs : ℕ) (n : RadixNode) (key : List ℕ) (d : ℕ)
    → length key < fuel
    → is_absent n ≡ false
    → IsRadix n
    → AddedTo (radix_tree_add fuel allocs n key d) n key d
unfolding radix_tree_add AddedTo
radix_tree_add_lem zero allocs n key d h a r = absurd (omega arith)
radix_tree_add_lem (suc fuel) allocs absent key d h a r = cc
radix_tree_add_lem (suc fuel) allocs (radix_node p t old ch) [] d h a r =
    (true, radix_node p true d ch, allocs, refl, terminated p t old ch d r, inl refl)
radix_tree_add_lem (suc fuel) allocs (radix_node p t old ch) (c ∷ cs) d h a r =
    elim (Bool-cases (is_absent (ch c))) [
      | inl e ↦ elim (ℕ_discrete allocs 0) [
        | yes none_left ↦ rw (e, none_left) stop
        | no left ↦
            let some_left : (allocs == 0) ≡ false = ground arith in
            let run =
              radix_tree_add_lem fuel (allocs - 1) leaf [] d (omega arith) refl
                (leaf-IsRadix key) in
            rw (e, some_left)
              (below_child p t old ch c cs (radix_tree_add fuel (allocs - 1) leaf [] d) leaf [] d r
                refl refl (λ k. leaf_lookups key k (ch c) e) (sym (append-nil key)) run)
      ]
      | inr e ↦ elim (common_strip (prefix (ch c)) key) [
        | inl (whole, s) ↦
            let same : (n == length (prefix (ch c))) ≡ true = ground arith in
            let run =
              radix_tree_add_lem fuel allocs (ch c) (drop n key) d (shorter e) e ((r c).1) in
            rw (e, same)
              (below_child p t old ch c cs (radix_tree_add fuel allocs (ch c) (drop n key) d) (ch c)
                (drop n key) d r ((r c).0) e (λ k. refl)
                (strip-some (prefix (ch c)) key (drop n key) s) run)
        | inr (part, s) ↦
            let other : (n == length (prefix (ch c))) ≡ false = ground arith in
            elim (ℕ_discrete allocs 0) [
              | yes none_left ↦ rw (e, other, none_left) stop
              | no left ↦
                  let some_left : (allocs == 0) ≡ false = ground arith in
                  let run =
                    radix_tree_add_lem fuel (allocs - 1) (split_node (ch c) n) (drop n key) d
                      (shorter e) refl (split-IsRadix (ch c) n ((r c).1) part) in
                  rw (e, other, some_left)
                    (below_child p t old ch c cs
                      (radix_tree_add fuel (allocs - 1) (split_node (ch c) n) (drop n key) d)
                      (split_node (ch c) n) (drop n key) d r
                      (split_starts c n (ch c) (common_pos c cs (ch c) ((r c).0) e) ((r c).0) e)
                      refl (λ k. split_lookups (ch c) n k e part)
                      ((common_parts (prefix (ch c)) key).0) run)
            ]
      ]
    ]
  where
    key : List ℕ
    key = c ∷ cs

    leaf : RadixNode
    leaf = set_prefix key fresh_node

    n : ℕ
    n = get_common_prefix_length (prefix (ch c)) key

    shorter : is_absent (ch c) ≡ false → length (drop n key) < fuel
    shorter e =
        let total = (common_parts (prefix (ch c)) key).1 in
        let pos = common_pos c cs (ch c) ((r c).0) e in omega (arith, total, pos, h)

    stop : AddedTo (some (false, radix_node p t old ch, 0)) (radix_node p t old ch) (c ∷ cs) d
    stop = (
      false,
      radix_node p t old ch,
      0,
      refl,
      unchanged (radix_node p t old ch) (c ∷ cs) d refl r,
      inr refl,
    )
