-- ===== src/Radix.antt =====
-- The radix tree of lib/radix-tree.c, which maps strings to numbers.
--
-- A node is its prefix, its terminating flag, its data and its array of children, in which `absent`
-- stands for NULL; a string is the list of its characters before the NUL. The nodes are the only
-- allocations that are counted: `allocs` is how many of them will still succeed.
pub mod Strings
pub mod Lookup
pub mod Add
pub mod Nodes
pub mod Mapping
mod Tests
use hyve_mind.Prelude.{
  ltb, ◌==◌, if◌then◌else◌, length, get_or, take, drop, ℕ, zero, suc, ◌-◌, Bool, true, false,
  Option, none, some, List, [], ◌∷◌,
}

pub data RadixNode : Type 0 where
  absent : RadixNode
  radix_node : List ℕ → Bool → ℕ → (ℕ → RadixNode) → RadixNode

abbrev pub prefix : RadixNode → List ℕ
prefix absent = []
prefix (radix_node p t d ch) = p

abbrev pub is_absent : RadixNode → Bool
is_absent absent = true
is_absent (radix_node p t d ch) = false

abbrev pub set_prefix : List ℕ → RadixNode → RadixNode
set_prefix q absent = absent
set_prefix q (radix_node p t d ch) = radix_node q t d ch

abbrev pub set_child : (ℕ → RadixNode) → ℕ → RadixNode → ℕ → RadixNode
set_child ch index child i = if i == index then child else ch i

-- `allocate_radix_node`: zeroed memory.
abbrev pub fresh_node : RadixNode
fresh_node = radix_node [] false 0 (λ i. absent)

-- `create_radix_tree`, with its root.
unfoldable pub create_radix_tree : ℕ → Option (RadixNode × ℕ)
create_radix_tree zero = none
create_radix_tree (suc allocs) = some (fresh_node, allocs)

unfoldable pub get_common_prefix_length : List ℕ → List ℕ → ℕ
get_common_prefix_length [] key = 0
get_common_prefix_length (x ∷ xs) [] = 0
get_common_prefix_length (x ∷ xs) (y ∷ ys) =
    let rest = get_common_prefix_length xs ys in if x == y then suc rest else 0

-- `__radix_tree_get`.
unfoldable pub radix_tree_get : RadixNode → List ℕ → Option ℕ
radix_tree_get absent key = none
radix_tree_get (radix_node p terminating d ch) [] = if terminating then some d else none
radix_tree_get (radix_node p terminating d ch) (c ∷ cs) =
    let child = ch c in
    let child_prefix_len = length (prefix child) in
    let common_prefix_len = get_common_prefix_length (prefix child) (c ∷ cs) in
    let rest = radix_tree_get (ch c) (drop common_prefix_len (c ∷ cs)) in
    if is_absent child then none else if ltb common_prefix_len child_prefix_len then none else rest

pub radix_tree_contains : RadixNode → List ℕ → Bool
radix_tree_contains node key = elim (radix_tree_get node key) [ none ↦ false | some d ↦ true ]

-- The node's part of a split: it keeps the common prefix, and the old child hangs below it.
abbrev pub split_node : RadixNode → ℕ → RadixNode
split_node child common_prefix_len =
    let old_prefix = prefix child in
    let rest = drop common_prefix_len old_prefix in
    radix_node (take common_prefix_len old_prefix) false 0
      (set_child (λ i. absent) (get_or rest 0 0) (set_prefix rest child))

-- A node after the recursion into its child at `index`.
abbrev pub with_child :
    RadixNode → ℕ → Option (Bool × RadixNode × ℕ) → Option (Bool × RadixNode × ℕ)
with_child node index none = none
with_child absent index (some (ok, child, left)) = some (ok, absent, left)
with_child (radix_node p t d ch) index (some (ok, child, left)) =
    some (ok, radix_node p t d (set_child ch index child), left)

-- `__radix_tree_add`, on the depth of its recursion: the result, the node and the allocations left.
unfoldable pub radix_tree_add : ℕ → ℕ → RadixNode → List ℕ → ℕ → Option (Bool × RadixNode × ℕ)
radix_tree_add zero allocs node key d = none
radix_tree_add (suc fuel) allocs absent key d = some (false, absent, allocs)
radix_tree_add (suc fuel) allocs (radix_node p t old ch) [] d =
    some (true, radix_node p true d ch, allocs)
radix_tree_add (suc fuel) allocs (radix_node p t old ch) (c ∷ cs) d =
    let node = radix_node p t old ch in
    let key = c ∷ cs in
    let child = ch c in
    let common_prefix_len = get_common_prefix_length (prefix child) key in
    let out_of_memory : Option (Bool × RadixNode × ℕ) = some (false, node, allocs) in
    let into_leaf = radix_tree_add fuel (allocs - 1) (set_prefix key fresh_node) [] d in
    let into_child = radix_tree_add fuel allocs child (drop common_prefix_len key) d in
    let into_split =
      radix_tree_add fuel (allocs - 1) (split_node child common_prefix_len)
        (drop common_prefix_len key) d in
    if is_absent child
    then if allocs == 0 then out_of_memory else with_child node c into_leaf
    else if common_prefix_len == length (prefix child)
    then with_child node c into_child
    else if allocs == 0
    then out_of_memory
    else with_child node c into_split
