-- ===== src/PhysMm.antt =====
-- The summary of the physical memory map: phys_mm.c.
--
-- The boot loader's map is a list of entries, and `get_boot_mem_info` turns it into the hypervisor's
-- own. Sizes and addresses are uint64_t and wrap. The placement of the map in the scratch space of
-- the image, and the linker's symbols, stay outside.
pub mod Cover
mod Tests
use hyve_mind.Prelude.{◌==◌, if◌then◌else◌, ℕ, ◌+◌, ◌-◌, ◌/◌, ◌%◌, ◌^◌, min, max, List, [], ◌∷◌}

-- `enum memmap_region_type`.
pub data RegionType : Type 0 where
  memmap_usable memmap_bootloader_reclaimable memmap_hypervisor memmap_reserved : RegionType

-- `struct memmap_entry`.
pub record Region : Type 0 where
  pub start : ℕ
  pub end_addr : ℕ
  pub size : ℕ
  pub region_type : RegionType

-- The fields of `struct limine_memmap_entry`.
pub record LimineEntry : Type 0 where
  pub base : ℕ
  pub limine_length : ℕ
  pub limine_type : ℕ

-- `struct system_memory_info`.
pub record SystemMemoryInfo : Type 0 where
  pub total_size : ℕ
  pub early_usable_memory : ℕ
  pub total_usable_memory : ℕ
  pub lowest_mapped_addr : ℕ
  pub highest_mapped_addr : ℕ
  pub largest_mapped_pfn : ℕ
  pub nr_of_pfns : ℕ

-- The limine types for usable memory, for memory that the boot loader gives back, and for the image.
pub limine_memmap_type_to_hyv_type : ℕ → RegionType
limine_memmap_type_to_hyv_type limine_type =
    if limine_type == 0
    then memmap_usable
    else if limine_type == 5
    then memmap_bootloader_reclaimable
    else if limine_type == 6
    then memmap_hypervisor
    else memmap_reserved

pub hyv_entry : LimineEntry → Region
hyv_entry entry = record {
  start = entry.base;
  end_addr = (entry.base + entry.limine_length + 2 ^ 64 - 1) % 2 ^ 64;
  size = entry.limine_length;
  region_type = limine_memmap_type_to_hyv_type entry.limine_type;
}

-- The loop of `get_boot_mem_info`.
pub get_boot_mem_info : List LimineEntry → List Region
get_boot_mem_info [] = []
get_boot_mem_info (entry ∷ entries) = hyv_entry entry ∷ get_boot_mem_info entries

-- The variables of the loop of `init_system_memory_info`.
pub record Totals : Type 0 where
  pub early_usable_size : ℕ
  pub total_usable_size : ℕ
  pub lowest_mapped_paddr : ℕ
  pub highest_mapped_paddr : ℕ

-- What an entry adds to the sizes.
add_size : RegionType → ℕ → Totals → Totals
add_size memmap_usable size t = record t {
  early_usable_size = (t.early_usable_size + size) % 2 ^ 64;
  total_usable_size = (t.total_usable_size + size) % 2 ^ 64;
}
add_size memmap_bootloader_reclaimable size t = record t {
  total_usable_size = (t.total_usable_size + size) % 2 ^ 64;
}
add_size memmap_hypervisor size t = t
add_size memmap_reserved size t = t

add_entry : Totals → Region → Totals
unfolding add_size
add_entry t entry = add_size entry.region_type entry.size (record t {
  lowest_mapped_paddr = min entry.start t.lowest_mapped_paddr;
  highest_mapped_paddr = max entry.end_addr t.highest_mapped_paddr;
})

pub sum_entries : List Region → Totals → Totals
unfolding add_entry
sum_entries [] t = t
sum_entries (entry ∷ entries) t = sum_entries entries (add_entry t entry)

abbrev pub no_totals : Totals
no_totals = record {
  early_usable_size = 0;
  total_usable_size = 0;
  lowest_mapped_paddr = 2 ^ 64 - 1;
  highest_mapped_paddr = 0;
}

pub init_system_memory_info : List Region → SystemMemoryInfo
init_system_memory_info mem_map =
    let t = sum_entries mem_map no_totals in
    let largest_pfn = t.highest_mapped_paddr / 2 ^ 12 in
    record {
      total_size = 0;
      early_usable_memory = t.early_usable_size;
      total_usable_memory = t.total_usable_size;
      lowest_mapped_addr = t.lowest_mapped_paddr;
      highest_mapped_addr = t.highest_mapped_paddr;
      largest_mapped_pfn = largest_pfn;
      nr_of_pfns = largest_pfn + 1;
    }
