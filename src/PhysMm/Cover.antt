-- ===== src/PhysMm/Cover.antt =====
-- What the summary of phys_mm.c covers.
use hyve_mind.Prelude.{
  get_elem?, ℕ, zero, suc, ◌+◌, ◌/◌, ◌^◌, ◌≤◌, ◌<◌, min, max, ◌≡◌, refl, ap, some, List, [], ◌∷◌,
  arith,
}
use hyve_mind.PhysMm.{
  RegionType, memmap_usable, memmap_bootloader_reclaimable, memmap_hypervisor, memmap_reserved,
  Region, LimineEntry, hyv_entry, get_boot_mem_info, Totals, add_size, add_entry, sum_entries,
  no_totals, init_system_memory_info,
}

add_size_bounds :
    (r : RegionType) (size : ℕ) (t : Totals)
    → ((add_size r size t).lowest_mapped_paddr ≡ t.lowest_mapped_paddr)
      × ((add_size r size t).highest_mapped_paddr ≡ t.highest_mapped_paddr)
unfolding add_size
add_size_bounds memmap_usable size t = (refl, refl)
add_size_bounds memmap_bootloader_reclaimable size t = (refl, refl)
add_size_bounds memmap_hypervisor size t = (refl, refl)
add_size_bounds memmap_reserved size t = (refl, refl)

add_entry_bounds :
    (t : Totals) (entry : Region)
    → ((add_entry t entry).lowest_mapped_paddr ≡ min entry.start t.lowest_mapped_paddr)
      × ((add_entry t entry).highest_mapped_paddr ≡ max entry.end_addr t.highest_mapped_paddr)
unfolding add_entry
add_entry_bounds t entry = add_size_bounds entry.region_type entry.size _

-- The bounds only move outwards.
sum_entries_grow :
    (entries : List Region) (t : Totals)
    → ((sum_entries entries t).lowest_mapped_paddr ≤ t.lowest_mapped_paddr)
      × (t.highest_mapped_paddr ≤ (sum_entries entries t).highest_mapped_paddr)
unfolding sum_entries
sum_entries_grow [] t = (omega arith, omega arith)
sum_entries_grow (entry ∷ entries) t =
    let rest = sum_entries_grow entries (add_entry t entry) in
    let here = add_entry_bounds t entry in
    (omega (arith, rest.0, here.0), omega (arith, rest.1, here.1))

sum_entries_cover :
    (entries : List Region) (t : Totals) (i : ℕ) (entry : Region)
    → get_elem? entries i ≡ some entry
    → ((sum_entries entries t).lowest_mapped_paddr ≤ entry.start)
      × (entry.end_addr ≤ (sum_entries entries t).highest_mapped_paddr)
unfolding sum_entries
sum_entries_cover [] t i entry e = cc
sum_entries_cover (first ∷ entries) t zero entry e =
    let rest = sum_entries_grow entries (add_entry t first) in
    let here = add_entry_bounds t first in
    let same_entry : first ≡ entry = cc in
    (
      omega (arith, rest.0, here.0, ap (λ (r : Region). r.start) same_entry),
      omega (arith, rest.1, here.1, ap (λ (r : Region). r.end_addr) same_entry),
    )
sum_entries_cover (first ∷ entries) t (suc i) entry e =
    sum_entries_cover entries (add_entry t first) i entry e

converted :
    (entries : List LimineEntry) (i : ℕ) (entry : LimineEntry)
    → get_elem? entries i ≡ some entry
    → get_elem? (get_boot_mem_info entries) i ≡ some (hyv_entry entry)
unfolding get_boot_mem_info
converted [] i entry e = cc
converted (first ∷ entries) zero entry e =
    let same_entry : first ≡ entry = cc in ap (λ (f : LimineEntry). some (hyv_entry f)) same_entry
converted (first ∷ entries) (suc i) entry e = converted entries i entry e

-- Every address of an entry of the boot loader's map that does not run over the end of the address
-- space lies between the lowest and the highest mapped address, and its frame number is one of those
-- that are counted.
pub init_system_memory_info_lem :
    (entries : List LimineEntry) (i : ℕ) (entry : LimineEntry) (addr : ℕ)
    → get_elem? entries i ≡ some entry
    → entry.base ≤ addr
    → addr < entry.base + entry.limine_length
    → entry.base + entry.limine_length ≤ 2 ^ 64
    → let info = init_system_memory_info (get_boot_mem_info entries) in
      (info.lowest_mapped_addr ≤ addr)
      × (addr ≤ info.highest_mapped_addr)
      × (addr / 2 ^ 12 < info.nr_of_pfns)
unfolding init_system_memory_info hyv_entry
init_system_memory_info_lem entries i entry addr e lo hi fits =
    let cover =
      sum_entries_cover (get_boot_mem_info entries) no_totals i (hyv_entry entry)
        (converted entries i entry e) in
    omega (arith, cover.0, cover.1)
