-- ===== src/PhysMm/Tests.antt =====
-- The theorem on the memory map, applied to a map of two entries.
use hyve_mind.Prelude.{◌/◌, ◌^◌, ◌≤◌, ◌<◌, refl, [], ◌∷◌, arith}
use hyve_mind.PhysMm.{LimineEntry, get_boot_mem_info, init_system_memory_info}
use hyve_mind.PhysMm.Cover.{init_system_memory_info_lem}

abbrev low_memory : LimineEntry
low_memory = record { base = 0x1000; limine_length = 0x9000; limine_type = 0 }

abbrev high_memory : LimineEntry
high_memory = record { base = 0x100000; limine_length = 0x800000; limine_type = 5 }

init_system_memory_info_lem_example :
    let info = init_system_memory_info (get_boot_mem_info (low_memory ∷ high_memory ∷ [])) in
    (info.lowest_mapped_addr ≤ 0x200000)
    × (0x200000 ≤ info.highest_mapped_addr)
    × (0x200000 / 2 ^ 12 < info.nr_of_pfns)
init_system_memory_info_lem_example =
    init_system_memory_info_lem (low_memory ∷ high_memory ∷ []) 1 high_memory 0x200000 refl
      (omega arith) (omega arith) (omega arith)
