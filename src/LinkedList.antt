-- ===== src/LinkedList.antt =====
-- The circular, doubly linked lists of include/lib/list.h.
--
-- A list head or entry is its address, and `Links` holds the two pointers that each address stores;
-- NULL is the address 0.
pub mod Chain
pub mod Operations
pub mod Apart
use hyve_mind.Prelude.{◌==◌, if◌then◌else◌, ℕ, Bool}

pub record Links : Type 0 where
  pub prev : ℕ → ℕ
  pub next : ℕ → ℕ

abbrev pub store_pointer : (ℕ → ℕ) → ℕ → ℕ → ℕ → ℕ
store_pointer memory address value i = if i == address then value else memory i

abbrev pub set_next : Links → ℕ → ℕ → Links
set_next l node value = record l { next = store_pointer l.next node value }

abbrev pub set_prev : Links → ℕ → ℕ → Links
set_prev l node value = record l { prev = store_pointer l.prev node value }

abbrev pub init_list_head : Links → ℕ → Links
init_list_head l head = set_prev (set_next l head head) head head

-- `__list_add`.
abbrev pub list_add : Links → ℕ → ℕ → ℕ → Links
list_add l new_node before_nn after_nn =
    let l1 = set_next l new_node after_nn in
    let l2 = set_prev l1 new_node before_nn in
    let l3 = set_next l2 before_nn new_node in set_prev l3 after_nn new_node

pub list_add_head : Links → ℕ → ℕ → Links
list_add_head l head new_node = list_add l new_node head (l.next head)

pub list_add_tail : Links → ℕ → ℕ → Links
list_add_tail l head new_node = list_add l new_node (l.prev head) head

-- `__list_remove`.
abbrev pub list_remove : Links → ℕ → ℕ → Links
list_remove l before after = set_prev (set_next l before after) after before

pub list_remove_entry : Links → ℕ → Links
list_remove_entry l rm_entry =
    if rm_entry == 0
    then l
    else set_next (set_prev (list_remove l (l.prev rm_entry) (l.next rm_entry)) rm_entry 0) rm_entry
        0

abbrev pub list_remove_head : Links → ℕ → Links
list_remove_head l head = list_remove_entry l (l.next head)

abbrev pub list_remove_tail : Links → ℕ → Links
list_remove_tail l head = list_remove_entry l (l.prev head)

abbrev pub is_list_empty : Links → ℕ → Bool
is_list_empty l head = l.next head == head
