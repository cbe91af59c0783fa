-- ===== src/Radix/Tests.antt =====
-- The radix tree at work.
use hyve_mind.Prelude.{codes, refl, true, [], arith}
use hyve_mind.Radix.{RadixNode, absent, radix_node, radix_tree_add}
use hyve_mind.Radix.Lookup.{IsRadix}
use hyve_mind.Radix.Nodes.{upper, upper-IsRadix}
use hyve_mind.Radix.Mapping.{AddedTo, radix_tree_add_lem}

abbrev abc_tree : RadixNode
abc_tree = upper [] b'a' (codes "bc") (radix_node [] true 1 (λ i. absent))

abc_tree-IsRadix : IsRadix abc_tree
abc_tree-IsRadix =
    upper-IsRadix [] b'a' (codes "bc") (radix_node [] true 1 (λ i. absent)) (λ i. (tt, tt))

radix_tree_add_lem_example :
    AddedTo (radix_tree_add 4 5 abc_tree (codes "abd") 2) abc_tree (codes "abd") 2
radix_tree_add_lem_example =
    radix_tree_add_lem 4 5 abc_tree (codes "abd") 2 (omega arith) refl abc_tree-IsRadix
