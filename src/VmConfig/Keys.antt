-- ===== src/VmConfig/Keys.antt =====
-- The keys that vm_config.c accepts, in the radix tree of lib/radix-tree.c.
use hyve_mind.Prelude.{
  ◌==◌, if◌then◌else◌, ==_iff, Option-cases, length, get_or, every_below, table_row, ℕ, suc, ◌<◌,
  ◌≡◌, refl, sym, ap, ◌∙◌, inl, inr, Bool, true, false, Option, none, some, List, [], ◌∷◌, arith,
}
use hyve_mind.Radix.{
  RadixNode, is_absent, fresh_node, create_radix_tree, get_common_prefix_length, radix_tree_get,
  radix_tree_add,
}
use hyve_mind.Radix.Strings.{same_key}
use hyve_mind.Radix.Lookup.{IsRadix}
use hyve_mind.Radix.Mapping.{AddedTo, radix_tree_add_lem}
use hyve_mind.VmConfig.Parser.{after_add, add_config_keys, get_config_key_radix}
use hyve_mind.Radix.Add.{Adds}
use hyve_mind.VmConfig.{config_key_strings}

-- What the keys, numbered from `index` on and added in their order, hold at `k`.
abbrev pub added : List (List ℕ) → ℕ → List ℕ → Option ℕ → Option ℕ
added [] index k o = o
added (key ∷ keys) index k o = added keys (suc index) k (if same_key k key then some index else o)

abbrev the_root : RadixNode → Option RadixNode → RadixNode
the_root n none = n
the_root n (some root) = root

-- A key that was added without error.
after_add_lem :
    (o : Option (Bool × RadixNode × ℕ)) (root root' : RadixNode) (key : List ℕ) (d : ℕ)
    (loop : RadixNode → ℕ → Option RadixNode)
    → AddedTo o root key d
    → after_add o loop ≡ some root'
    → (n : RadixNode) × (left : ℕ) × Adds root key d true n × (loop n left ≡ some root')
unfolding AddedTo
after_add_lem o root root' key d loop (true, n, left, run, adds, mem) e =
    (n, left, adds, sym (ap (λ (x : Option (Bool × RadixNode × ℕ)). after_add x loop) run) ∙ e)
after_add_lem o root root' key d loop (false, n, left, run, adds, mem) e =
    let never = sym (ap (λ (x : Option (Bool × RadixNode × ℕ)). after_add x loop) run) ∙ e in
    absurd (cc)

add_config_keys_lem :
    (keys : List (List ℕ)) (allocs index : ℕ) (root root' : RadixNode)
    → IsRadix root
    → is_absent root ≡ false
    → add_config_keys allocs root keys index ≡ some root'
    → (k : List ℕ) → radix_tree_get root' k ≡ added keys index k (radix_tree_get root k)
unfolding add_config_keys
add_config_keys_lem [] allocs index root root' r a e k =
    ap (λ (o : Option RadixNode). radix_tree_get (the_root root o) k) (sym e)
add_config_keys_lem (key ∷ keys) allocs index root root' r a e k =
    let run = radix_tree_add_lem (suc (length key)) allocs root key index (omega arith) a r in
    let (n, left, adds, further) =
      after_add_lem (radix_tree_add (suc (length key)) allocs root key index) root root' key index
        (λ root2 left2. add_config_keys left2 root2 keys (suc index)) run e in
    add_config_keys_lem keys left (suc index) n root' adds.radix adds.present further k
    ∙ ap (added keys (suc index) k) (adds.lookups k)

-- None of the keys.
abbrev pub IsNoKey : List (List ℕ) → List ℕ → Type 0
IsNoKey [] k = Unit {0}
IsNoKey (key ∷ keys) k = (same_key k key ≡ false) × IsNoKey keys k

added_other :
    (keys : List (List ℕ)) (index : ℕ) (k : List ℕ) (o : Option ℕ)
    → IsNoKey keys k
    → added keys index k o ≡ o
added_other [] index k o n = refl
added_other (key ∷ keys) index k o n = rw (n.0) (added_other keys (suc index) k o n.1)

-- The radix tree of the keys is built from the memory of 32 nodes.
abbrev is_built : Option RadixNode → Bool
is_built none = false
is_built (some root) = true

built : is_built (get_config_key_radix 32) ≡ true
unfolding get_config_key_radix add_config_keys create_radix_tree radix_tree_add
    get_common_prefix_length
built = refl

fresh_empty : (k : List ℕ) → radix_tree_get fresh_node k ≡ none
unfolding radix_tree_get
fresh_empty [] = refl
fresh_empty (x ∷ xs) = refl

abbrev holds_number : Option ℕ → ℕ → Bool
holds_number none i = false
holds_number (some j) i = j == i

held : (o : Option ℕ) (i : ℕ) → holds_number o i ≡ true → o ≡ some i
held none i e = cc
held (some j) i e = ap some ((==_iff j i).0 e)

each_key :
    (i : ℕ) → i < 9 → added config_key_strings 0 (get_or config_key_strings i []) none ≡ some i
unfolding every_below same_key
each_key i h = held (added config_key_strings 0 (get_or config_key_strings i []) none) i (
    table_row 9
      (λ j. holds_number (added config_key_strings 0 (get_or config_key_strings j []) none) j) i
      every h)
  where
    every :
        every_below 9
          (λ j. holds_number (added config_key_strings 0 (get_or config_key_strings j []) none) j)
        ≡ true
    every = refl

lookups :
    (root : RadixNode)
    → get_config_key_radix 32 ≡ some root
    → (k : List ℕ) → radix_tree_get root k ≡ added config_key_strings 0 k none
unfolding get_config_key_radix create_radix_tree
lookups root e k =
    add_config_keys_lem config_key_strings 31 0 fresh_node root (λ i. (tt, tt)) refl e k
    ∙ ap (added config_key_strings 0 k) (fresh_empty k)

-- Given enough memory the tree is built, and it holds the keys and nothing else: each key its number.
pub get_config_key_radix_lem :
    (root : RadixNode) × (get_config_key_radix 32 ≡ some root)
    × ((i : ℕ) → i < 9 → radix_tree_get root (get_or config_key_strings i []) ≡ some i)
    × ((k : List ℕ) → IsNoKey config_key_strings k → radix_tree_get root k ≡ none)
get_config_key_radix_lem = elim (Option-cases (get_config_key_radix 32)) [
  | inl e ↦ let never = sym built ∙ ap is_built e in absurd (cc)
  | inr (root, e) ↦ (
    root,
    e,
    (λ i h. lookups root e (get_or config_key_strings i []) ∙ each_key i h),
    (λ k n. lookups root e k ∙ added_other config_key_strings 0 k none n),
  )
]
