-- ===== src/Vpic/Reach.antt =====
-- Everything that happens to the controllers of a guest, as steps.
use hyve_mind.Prelude.{ret, ℕ, ◌<◌, ◌≡◌, refl, ◌∙◌, true, false, some, arith}
use hyve_mind.Vpic.Commands.{Chip, Vpic}
use hyve_mind.Vpic.Registers.{
  vpic_write-IsWellFormed, allocate_vpic-IsWellFormed, vpic_write-has_parent,
}
use hyve_mind.Vpic.Irq.{AreWellFormed, get_pending-AreWellFormed}
use hyve_mind.Vpic.Raise.{raise-AreWellFormed, raise-has_parent}
use hyve_mind.Vpic.{
  allocate_vpic, vpic_write, GuestIrq, vpic_raise_external_irq, vpic_ack, vpic_get_pending_irq,
}

-- The guest writes a byte to a port of either chip, a device raises a line, and the VM entry asks
-- for a vector. Reads change nothing.
pub data Step (v : Vpic) : Vpic → Type 0 where
  write_master :
      {c : Chip} (port val : ℕ)
      → val < 256
      → vpic_write v.vpic1 port val ≡ ret c
      → Step v (record v { vpic1 = c })
  write_slave :
      {c : Chip} (port val : ℕ)
      → val < 256
      → vpic_write v.vpic2 port val ≡ ret c
      → Step v (record v { vpic2 = c })
  raise : {v' : Vpic} (irq : GuestIrq) → vpic_raise_external_irq v irq ≡ some v' → Step v v'
  deliver : Step v (vpic_get_pending_irq v).1

pub data Reach : Vpic → Type 0 where
  allocated : Reach allocate_vpic
  next : {v v' : Vpic} → Reach v → Step v v' → Reach v'

Step-AreWellFormed : {v v' : Vpic} → Step v v' → AreWellFormed v → AreWellFormed v'
Step-AreWellFormed {v} (write_master {c} port val h e) w =
    (vpic_write-IsWellFormed v.vpic1 c port val h w.0 e, w.1)
Step-AreWellFormed {v} (write_slave {c} port val h e) w =
    (w.0, vpic_write-IsWellFormed v.vpic2 c port val h w.1 e)
Step-AreWellFormed {v} (raise {v'} irq e) w = raise-AreWellFormed v v' irq w e
Step-AreWellFormed {v} deliver w = get_pending-AreWellFormed v w

-- The first chip is the master, and the second its slave.
pub record IsCascade (v : Vpic) : Type 0 where
  pub master : v.vpic1.has_parent ≡ false
  pub slave : v.vpic2.has_parent ≡ true

Step-IsCascade : {v v' : Vpic} → Step v v' → IsCascade v → IsCascade v'
unfolding vpic_get_pending_irq vpic_ack
Step-IsCascade {v} (write_master {c} port val h e) p = record {
  master = vpic_write-has_parent v.vpic1 c port val e ∙ p.master;
  slave = p.slave;
}
Step-IsCascade {v} (write_slave {c} port val h e) p = record {
  master = p.master;
  slave = vpic_write-has_parent v.vpic2 c port val e ∙ p.slave;
}
Step-IsCascade {v} (raise {v'} irq e) p =
    let kept = raise-has_parent v v' irq e in
    record { master = kept.0 ∙ p.master; slave = kept.1 ∙ p.slave }
Step-IsCascade {v} deliver p = record {
  master = let m = p.master in ground arith;
  slave = let s = p.slave in ground arith;
}

Reach-IsCascade : {v : Vpic} → Reach v → IsCascade v
unfolding allocate_vpic
Reach-IsCascade allocated = record { master = refl; slave = refl }
Reach-IsCascade (next r s) = Step-IsCascade s (Reach-IsCascade r)

-- In every state that a guest can bring about, all registers are bytes, each chip's vectors are
-- aligned to eight, the first chip is the master and the second its slave, and the slave's identity
-- is the number of a line of the master.
pub Reach-AreWellFormed :
    {v : Vpic} → Reach v → AreWellFormed v × IsCascade v × (v.vpic2.sub_device < 8)
Reach-AreWellFormed {v} r =
    let w = wellformed r in let p = Reach-IsCascade r in (w, p, w.1.sub_device_line p.slave)
  where
    wellformed : {v : Vpic} → Reach v → AreWellFormed v
    wellformed allocated = allocate_vpic-IsWellFormed
    wellformed (next r s) = Step-AreWellFormed s (wellformed r)
