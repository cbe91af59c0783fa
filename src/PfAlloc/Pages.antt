-- ===== src/PfAlloc/Pages.antt =====
-- The functions of pf_alloc.c that hand out mapped pages, through the direct mapping of physical
-- memory.
--
-- `offset` is the constant distance of the direct mapping. The variants that zero the pages are left
-- out: the allocator's own metadata lies in the memory that they write.
use hyve_mind.Prelude.{ℕ, ◌+◌, ◌-◌, Option, none, some}
use hyve_mind.PfAlloc.{Allocator, get_pages_raw, free_pages_raw}

abbrev pub phys_to_virt : ℕ → ℕ → ℕ
phys_to_virt offset addr = addr + offset

abbrev pub virt_to_phys : ℕ → ℕ → ℕ
virt_to_phys offset addr = addr - offset

pub get_page_raw : ℕ → Allocator → Option (Option (ℕ × Allocator))
get_page_raw fuel a = get_pages_raw fuel a 1

unfoldable pub get_pages : ℕ → ℕ → Allocator → ℕ → Option (Option (ℕ × Allocator))
get_pages offset fuel a nr = elim (get_pages_raw fuel a nr) [
  | none ↦ none
  | some found ↦ elim found [
    | none ↦ some none
    | some (phys_addr, a') ↦ some (some (phys_to_virt offset phys_addr, a'))
  ]
]

pub get_page : ℕ → ℕ → Allocator → Option (Option (ℕ × Allocator))
get_page offset fuel a = get_pages offset fuel a 1

pub free_page_raw : Allocator → ℕ → Allocator
free_page_raw a addr = free_pages_raw a 1 addr

pub free_page : ℕ → Allocator → ℕ → Allocator
free_page offset a addr = free_page_raw a (virt_to_phys offset addr)

pub free_pages : ℕ → Allocator → ℕ → ℕ → Allocator
free_pages offset a nr addr = free_pages_raw a nr (virt_to_phys offset addr)
