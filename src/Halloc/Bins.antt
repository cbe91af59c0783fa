-- ===== src/Halloc/Bins.antt =====
-- Which bin of halloc.c serves a request.
use hyve_mind.Prelude.{get_elem?, ℕ, ◌*◌, ◌^◌, ◌≤◌, ◌<◌, ◌≡◌, refl, sym, subst, some, arith, dec_lt}
use hyve_mind.Halloc.{BinConfig, bin_config, bin_configs, invalid_bin_index, size_to_bin_index}

-- The bin `c` stands at its own index, holds `size` bytes, and no bin of half its size does.
abbrev pub Serves : ℕ → ℕ → Type 0
Serves size i =
    (c : BinConfig) × (get_elem? bin_configs i ≡ some c)
    × (c.bin_index ≡ i)
    × (size ≤ 2 ^ c.chunk_shift)
    × (32 < size → 2 ^ c.chunk_shift < 2 * size)

bin_serves :
    (size i : ℕ) (c : BinConfig)
    → get_elem? bin_configs i ≡ some c
    → c.bin_index ≡ i
    → size ≤ 2 ^ c.chunk_shift
    → (32 < size → 2 ^ c.chunk_shift < 2 * size)
    → size_to_bin_index size ≡ i
    → Serves size (size_to_bin_index size)
bin_serves size i c at idx fits least e = subst (Serves size) (sym e) (c, at, idx, fits, least)

served : (size : ℕ) → size ≤ 2048 → Serves size (size_to_bin_index size)
unfolding size_to_bin_index bin_configs bin_config
served size h = elim (dec_lt 32 size) [
  | no a ↦ bin_serves size 0 _ refl refl (omega arith) (λ l. omega arith) (ground arith)
  | yes a ↦ elim (dec_lt 64 size) [
    | no b ↦ bin_serves size 1 _ refl refl (omega arith) (λ l. omega arith) (ground arith)
    | yes b ↦ elim (dec_lt 128 size) [
      | no d ↦ bin_serves size 2 _ refl refl (omega arith) (λ l. omega arith) (ground arith)
      | yes d ↦ elim (dec_lt 256 size) [
        | no f ↦ bin_serves size 3 _ refl refl (omega arith) (λ l. omega arith) (ground arith)
        | yes f ↦ elim (dec_lt 512 size) [
          | no g ↦ bin_serves size 4 _ refl refl (omega arith) (λ l. omega arith) (ground arith)
          | yes g ↦ elim (dec_lt 1024 size) [
            | no k ↦ bin_serves size 5 _ refl refl (omega arith) (λ l. omega arith) (ground arith)
            | yes k ↦ bin_serves size 6 _ refl refl (omega arith) (λ l. omega arith) (ground arith)
          ]
        ]
      ]
    ]
  ]
]

-- A request of at most 2048 bytes is served by the smallest bin that holds it, and a larger one by
-- none.
pub size_to_bin_index_lem :
    (size : ℕ)
    → (size ≤ 2048 → Serves size (size_to_bin_index size))
      × (2048 < size → size_to_bin_index size ≡ invalid_bin_index)
unfolding size_to_bin_index bin_configs bin_config
size_to_bin_index_lem size = (served size, λ h. ground arith)
