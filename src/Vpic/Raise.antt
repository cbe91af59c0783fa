-- ===== src/Vpic/Raise.antt =====
-- Raising an interrupt line, and its way to the guest.
use hyve_mind.Prelude.{bit_at, ℕ, ◌-◌, ◌%◌, bit_or, ◌≡◌, some, arith}
use hyve_mind.Vpic.Commands.{initialized, Chip, Vpic, u8_lshift_one}
use hyve_mind.Vpic.Lines.{mask-lt}
use hyve_mind.Vpic.Registers.{bit_or-lt}
use hyve_mind.Vpic.Irq.{AreWellFormed}
use hyve_mind.Vpic.{GuestIrq, pos, negsuc, vpic_raise_external_irq}

-- Raising keeps the registers well formed, whatever the line.
pub raise-AreWellFormed :
    (v v' : Vpic) (irq : GuestIrq)
    → AreWellFormed v
    → vpic_raise_external_irq v irq ≡ some v'
    → AreWellFormed v'
unfolding vpic_raise_external_irq
raise-AreWellFormed v v' (pos irq) w e = ground (
  arith,
  bit_or-lt v.vpic1.irr (u8_lshift_one irq) w.0.irr_byte (mask-lt irq),
  bit_or-lt v.vpic2.irr (u8_lshift_one (irq - 8)) w.1.irr_byte (mask-lt (irq - 8)),
)
raise-AreWellFormed v v' (negsuc n) w e = ground (
  arith,
  bit_or-lt v.vpic1.irr (u8_lshift_one (31 - n % 32)) w.0.irr_byte (mask-lt (31 - n % 32)),
)

-- Raising leaves the roles of the chips as they are.
pub raise-has_parent :
    (v v' : Vpic) (irq : GuestIrq)
    → vpic_raise_external_irq v irq ≡ some v'
    → (v'.vpic1.has_parent ≡ v.vpic1.has_parent) × (v'.vpic2.has_parent ≡ v.vpic2.has_parent)
unfolding vpic_raise_external_irq
raise-has_parent v v' (pos irq) e = ground arith
raise-has_parent v v' (negsuc n) e = ground arith

-- A chip that is set up and idle, with line `i` unmasked.
pub record IsReady (c : Chip) (i : ℕ) : Type 0 where
  pub set_up : c.state ≡ initialized
  pub no_request : c.irr ≡ 0
  pub no_service : c.isr ≡ 0
  pub unmasked : bit_at c.imr i ≡ 0

raised : Chip → ℕ → Chip
raised c i = record c { irr = bit_or c.irr (u8_lshift_one i) }
