-- ===== src/Vpic/Registers.antt =====
-- The registers of a chip, under every operation of arch/x64/vm/vpic.c.
use hyve_mind.Prelude.{
  ltb, leb, ◌==◌, ltb→lt, ==_iff, every_below, table_row, table_holds, Exec, ret, ℕ, ◌+◌, ◌%◌, ◌≤◌,
  ◌<◌, bit_and, bit_or, ◌≡◌, refl, true, ◌&&◌, arith,
}
use hyve_mind.Vpic.Commands.{Chip, not8, u8_lshift_one}
use hyve_mind.Vpic.{
  allocate_vpic, start_init_sequence, handle_init_step, handle_ocw2_write, handle_ocw3_write,
  vpic_write,
}

and_table :
    every_below 256 (λ a. every_below 256 (λ b. leb (bit_and a b) a && leb (bit_and a b) b)) ≡ true
unfolding every_below
and_table = refl

or_table : every_below 256 (λ a. every_below 256 (λ b. ltb (bit_or a b) 256)) ≡ true
unfolding every_below
or_table = refl

pub bit_and-le : (a b : ℕ) → a < 256 → b < 256 → (bit_and a b ≤ a) × (bit_and a b ≤ b)
bit_and-le a b ha hb = ground (
  arith,
  table_holds 256 256 (λ x y. leb (bit_and x y) x && leb (bit_and x y) y) a b and_table ha hb,
)

pub bit_or-lt : (a b : ℕ) → a < 256 → b < 256 → bit_or a b < 256
bit_or-lt a b ha hb =
    ltb→lt _ _ (table_holds 256 256 (λ x y. ltb (bit_or x y) 256) a b or_table ha hb)

offset_table : every_below 256 (λ a. bit_and a 0xf8 % 8 == 0) ≡ true
unfolding every_below
offset_table = refl

bit_and-mod : (a : ℕ) → a < 256 → bit_and a 0xf8 % 8 ≡ 0
bit_and-mod a h = (==_iff _ _).0 (table_row 256 (λ a. bit_and a 0xf8 % 8 == 0) a offset_table h)

-- Every register is a byte, the vector offset leaves room for eight lines, and a slave's own
-- identity is the number of a line of its master.
pub record IsWellFormed (c : Chip) : Type 0 where
  pub imr_byte : c.imr < 256
  pub irr_byte : c.irr < 256
  pub isr_byte : c.isr < 256
  pub offset_byte : c.offset < 256
  pub offset_aligned : c.offset % 8 ≡ 0
  pub sub_device_byte : c.sub_device < 256
  pub sub_device_line : c.has_parent ≡ true → c.sub_device < 8

abbrev Keeps : Exec Chip → Type 0
Keeps r = (c' : Chip) → r ≡ ret c' → IsWellFormed c'

start_init_sequence-IsWellFormed :
    (c : Chip) (val : ℕ) → IsWellFormed c → Keeps (start_init_sequence c val)
unfolding start_init_sequence
start_init_sequence-IsWellFormed c val w c' e = ground arith

handle_init_step-IsWellFormed :
    (c : Chip) (val : ℕ) → val < 256 → IsWellFormed c → Keeps (handle_init_step c val)
unfolding handle_init_step
handle_init_step-IsWellFormed c val h w c' e = ground (
  arith,
  bit_and-le val 0xf8 h (omega arith),
  bit_and-mod val h,
  bit_and-le val 7 h (omega arith),
)

handle_ocw2_write-IsWellFormed :
    (c : Chip) (val : ℕ) → IsWellFormed c → Keeps (handle_ocw2_write c val)
unfolding handle_ocw2_write
handle_ocw2_write-IsWellFormed c val w c' e = ground (
  arith,
  bit_and-le ((c.isr + 255) % 256) c.isr (omega arith) w.isr_byte,
  bit_and-le c.isr (not8 (u8_lshift_one (bit_and val 3))) w.isr_byte (omega arith),
)

handle_ocw3_write-IsWellFormed :
    (c : Chip) (val : ℕ) → IsWellFormed c → Keeps (handle_ocw3_write c val)
unfolding handle_ocw3_write
handle_ocw3_write-IsWellFormed c val w c' e = ground arith

-- Whatever byte the guest writes to whatever port, a chip that goes on has well-formed registers.
pub vpic_write-IsWellFormed :
    (c c' : Chip) (port val : ℕ)
    → val < 256
    → IsWellFormed c
    → vpic_write c port val ≡ ret c'
    → IsWellFormed c'
unfolding vpic_write
vpic_write-IsWellFormed c c' port val h w e = ground (
  arith,
  start_init_sequence-IsWellFormed c val w c',
  handle_init_step-IsWellFormed c val h w c',
  handle_ocw2_write-IsWellFormed c val w c',
  handle_ocw3_write-IsWellFormed c val w c',
)

pub allocate_vpic-IsWellFormed : IsWellFormed allocate_vpic.vpic1 × IsWellFormed allocate_vpic.vpic2
unfolding allocate_vpic
allocate_vpic-IsWellFormed = omega arith

-- A write leaves the role of the chip as it is.
pub vpic_write-has_parent :
    (c c' : Chip) (port val : ℕ) → vpic_write c port val ≡ ret c' → c'.has_parent ≡ c.has_parent
unfolding vpic_write start_init_sequence handle_init_step handle_ocw2_write handle_ocw3_write
vpic_write-has_parent c c' port val e = ground arith
