-- ===== src/Vpic/Commands.antt =====
-- The types of arch/x64/include/vm/vpic.h and the command tests of vpic_defs.h.
use hyve_mind.Prelude.{◌==◌, ℕ, ◌-◌, ◌%◌, ◌^◌, bit_and, Bool, not, ◌&&◌, ◌||◌}

-- `enum vpic_state`.
pub data State : Type 0 where
  uninitialized initialized icw2 icw3 icw4 icw2_icw3 icw2_icw4 icw2_icw3_icw4 icw3_icw4 : State

-- `enum vpic_status_read_mode`.
pub data ReadMode : Type 0 where
  read_irr read_isr read_no_action : ReadMode

-- `struct __vpic`.
pub record Chip : Type 0 where
  pub state : State
  pub imr : ℕ
  pub irr : ℕ
  pub isr : ℕ
  pub offset : ℕ
  pub read_mode : ReadMode
  pub sub_device : ℕ
  pub has_parent : Bool

-- `struct vpic`: the master and the slave.
pub record Vpic : Type 0 where
  pub vpic1 : Chip
  pub vpic2 : Chip

-- `~x` on a uint8_t.
abbrev pub not8 : ℕ → ℕ
not8 x = 255 - x % 256

-- `U8_LSHIFT(1, shift)`, stored in a uint8_t.
abbrev pub u8_lshift_one : ℕ → ℕ
u8_lshift_one shift = 2 ^ shift % 256

-- `IS_SET(val, mask)` and `IS_CLEAR(val, mask)`.
abbrev pub is_set : ℕ → ℕ → Bool
is_set val mask = not (bit_and val mask == 0)

abbrev pub is_clear : ℕ → ℕ → Bool
is_clear val mask = bit_and val mask == 0

abbrev pub a0_set : ℕ → Bool
a0_set port = is_set port 1

abbrev pub a0_clear : ℕ → Bool
a0_clear port = is_clear port 1

abbrev pub d3_mask : ℕ
d3_mask = 0x08

abbrev pub d4_mask : ℕ
d4_mask = 0x10

abbrev pub is_icw1 : ℕ → ℕ → Bool
is_icw1 port val = a0_clear port && is_set val d4_mask

abbrev pub is_ocw1 : ℕ → ℕ → Bool
is_ocw1 port val = a0_set port

abbrev pub is_ocw2 : ℕ → ℕ → Bool
is_ocw2 port val = a0_clear port && is_clear val d4_mask && is_clear val d3_mask

abbrev pub is_ocw3 : ℕ → ℕ → Bool
is_ocw3 port val = a0_clear port && is_clear val d4_mask && is_set val d3_mask

abbrev pub icw1_ic4 : ℕ
icw1_ic4 = 0x01

abbrev pub icw1_sngl : ℕ
icw1_sngl = 0x02

-- `X_UNSUPPORTED_FEATURES`: a bit of req0 is set, or one of req1 is clear.
abbrev pub unsupported_features : ℕ → ℕ → ℕ → Bool
unsupported_features val req0 req1 = is_set val req0 || not (bit_and val req1 == req1)

abbrev pub icw1_unsupported : ℕ → Bool
icw1_unsupported val = unsupported_features val 0 0

-- ICW4_AEOI | ICW4_BUF | ICW4_SFNM.
abbrev pub icw4_unsupported : ℕ → Bool
icw4_unsupported val = unsupported_features val 0x1a 0

-- OCW2_R must be clear and OCW2_EOI set.
abbrev pub ocw2_unsupported : ℕ → Bool
ocw2_unsupported val = unsupported_features val 0x80 0x20

-- OCW3_ESMM | OCW3_SMM | OCW3_P.
abbrev pub ocw3_unsupported : ℕ → Bool
ocw3_unsupported val = unsupported_features val 0x64 0

abbrev pub ocw3_ris : ℕ
ocw3_ris = 0x01

abbrev pub ocw3_rr : ℕ
ocw3_rr = 0x02
