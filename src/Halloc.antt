-- ===== src/Halloc.antt =====
-- The bins of the power-of-two allocator: halloc.c and halloc_internal.h.
--
-- Sizes are size_t; an allocation that no bin serves goes to the page-frame allocator. The free
-- lists in memory are not part of this model.
pub mod Bins
use hyve_mind.Prelude.{leb, if◌then◌else◌, ℕ, List, [], ◌∷◌}

-- `struct bin_config`.
pub record BinConfig : Type 0 where
  pub bin_index : ℕ
  pub chunk_shift : ℕ
  pub nr_of_init_pages : ℕ
  pub repopulate_nr_pages : ℕ

bin_config : ℕ → ℕ → ℕ → ℕ → BinConfig
bin_config idx shift init_pages repopulate_pages = record {
  bin_index = idx;
  chunk_shift = shift;
  nr_of_init_pages = init_pages;
  repopulate_nr_pages = repopulate_pages;
}

-- The seven bins, from 32 to 2048 bytes.
pub bin_configs : List BinConfig
unfolding bin_config
bin_configs =
    bin_config 0 5 1 1
    ∷ bin_config 1 6 1 1
    ∷ bin_config 2 7 1 1
    ∷ bin_config 3 8 1 1
    ∷ bin_config 4 9 1 2
    ∷ bin_config 5 10 4 4
    ∷ bin_config 6 11 8 8
    ∷ []

abbrev pub invalid_bin_index : ℕ
invalid_bin_index = 10

pub size_to_bin_index : ℕ → ℕ
size_to_bin_index size =
    if leb size 32
    then 0
    else if leb size 64
    then 1
    else if leb size 128
    then 2
    else if leb size 256
    then 3
    else if leb size 512
    then 4
    else if leb size 1024
    then 5
    else if leb size 2048
    then 6
    else invalid_bin_index
