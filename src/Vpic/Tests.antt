-- ===== src/Vpic/Tests.antt =====
-- The theorems on the interrupt controller, applied to concrete chips.
use hyve_mind.Prelude.{ret, ◌>>=◌, ℕ, ◌<◌, ◌≡◌, refl, ◌↔◌, true, false, none, some, arith}
use hyve_mind.Vpic.{
  allocate_vpic, get_init_state_from_icw1, start_init_sequence, ocw2_command, handle_ocw2_write,
  vpic_write, vpic_ack, priority_loop, vpic_get_priority, chip_pending_irq, vpic_get_pending_irq,
}
use hyve_mind.Vpic.Commands.{initialized, icw2, icw2_icw3_icw4, read_irr, Chip, Vpic}
use hyve_mind.Vpic.Registers.{IsWellFormed}
use hyve_mind.Vpic.Init.{send_words, announced, programmed, send_words-programmed}
use hyve_mind.Vpic.Priority.{Offers, chip_pending_irq_iff}
use hyve_mind.Vpic.Irq.{AreWellFormed, Delivers, get_pending-Delivers, get_pending_starved}
use hyve_mind.Vpic.Eoi.{eoi-ack}
use hyve_mind.Vpic.Reach.{write_master, allocated, next, IsCascade, Reach-AreWellFormed}

-- A chip that is set up with no line masked, with these requests and lines in service.
abbrev master : ℕ → ℕ → Chip
master irr isr = record {
  state = initialized;
  imr = 0;
  irr = irr;
  isr = isr;
  offset = 32;
  read_mode = read_irr;
  sub_device = 4;
  has_parent = false;
}

abbrev slave : ℕ → ℕ → Chip
slave irr isr = record {
  state = initialized;
  imr = 0;
  irr = irr;
  isr = isr;
  offset = 40;
  read_mode = read_irr;
  sub_device = 2;
  has_parent = true;
}

abbrev both : Chip → Chip → Vpic
both m s = record { vpic1 = m; vpic2 = s }

master-IsWellFormed : (irr isr : ℕ) → irr < 256 → isr < 256 → IsWellFormed (master irr isr)
master-IsWellFormed irr isr hr hs = record {
  imr_byte = omega arith;
  irr_byte = hr;
  isr_byte = hs;
  offset_byte = omega arith;
  offset_aligned = refl;
  sub_device_byte = omega arith;
  sub_device_line = λ h. absurd (cc);
}

slave-IsWellFormed : (irr isr : ℕ) → irr < 256 → isr < 256 → IsWellFormed (slave irr isr)
slave-IsWellFormed irr isr hr hs = record {
  imr_byte = omega arith;
  irr_byte = hr;
  isr_byte = hs;
  offset_byte = omega arith;
  offset_aligned = refl;
  sub_device_byte = omega arith;
  sub_device_line = λ h. omega arith;
}

both-AreWellFormed :
    (r1 s1 r2 s2 : ℕ)
    → r1 < 256
    → s1 < 256
    → r2 < 256
    → s2 < 256
    → AreWellFormed (both (master r1 s1) (slave r2 s2))
both-AreWellFormed r1 s1 r2 s2 h1 g1 h2 g2 =
    (master-IsWellFormed r1 s1 h1 g1, slave-IsWellFormed r2 s2 h2 g2)

-- Line 1 of the slave and line 3 of the master are requested.
get_pending-Delivers_example :
    Delivers (both (master 8 0) (slave 2 0)) 41 (both (master 8 4) (slave 0 2))
unfolding vpic_get_pending_irq chip_pending_irq vpic_get_priority priority_loop vpic_ack
get_pending-Delivers_example =
    get_pending-Delivers (both (master 8 0) (slave 2 0)) (both (master 8 4) (slave 0 2)) 41
      (both-AreWellFormed 8 0 2 0 (omega arith) (omega arith) (omega arith) (omega arith)) refl

-- The guest begins to set up the master.
abbrev begun : Chip
begun = record allocate_vpic.vpic1 {
  state = icw2_icw3_icw4;
  read_mode = read_irr;
  sub_device = 128;
}

Reach-AreWellFormed_example :
    AreWellFormed (record allocate_vpic { vpic1 = begun })
    × IsCascade (record allocate_vpic { vpic1 = begun })
    × (0 < 8)
unfolding vpic_write start_init_sequence get_init_state_from_icw1 allocate_vpic
Reach-AreWellFormed_example =
    Reach-AreWellFormed {v = record allocate_vpic { vpic1 = begun }}
      (next allocated (write_master 0x20 0x11 (omega arith) refl))

send_words-programmed_example :
    (vpic_write (slave 1 2) 0xa0 0x11 >>= λ chip. send_words chip 0xa1 (announced 0x11 0x28 2 1))
    ≡ ret (programmed (slave 1 2) 0x11 0x28 2)
send_words-programmed_example =
    send_words-programmed (slave 1 2) 0xa0 0xa1 0x11 0x28 2 1 (omega arith) refl refl refl

chip_pending_irq_iff_example : (chip_pending_irq (master 20 8) ≡ some 2) ↔ Offers (master 20 8) 2
chip_pending_irq_iff_example =
    chip_pending_irq_iff (master 20 8) 2 (master-IsWellFormed 20 8 (omega arith) (omega arith))

-- Line 2 is delivered while line 3 is in service.
eoi-ack_example : (master 0 8).isr ≡ (master 4 8).isr
unfolding chip_pending_irq vpic_get_priority priority_loop vpic_ack handle_ocw2_write ocw2_command
eoi-ack_example =
    eoi-ack (master 4 8) (master 0 8) 0x20 2 (master-IsWellFormed 4 8 (omega arith) (omega arith))
      ((chip_pending_irq_iff (master 4 8) 2 (master-IsWellFormed 4 8 (omega arith) (omega arith))).0
        refl)
      refl refl

-- Line 0 of the master (the timer) and line 1 of the slave.
get_pending_starved_example :
    vpic_get_pending_irq (both (master 1 0) (slave 2 0)) ≡ (none, both (master 1 0) (slave 2 0))
unfolding chip_pending_irq vpic_get_priority priority_loop
get_pending_starved_example =
    get_pending_starved (both (master 1 0) (slave 2 0)) 0 1
      (both-AreWellFormed 1 0 2 0 (omega arith) (omega arith) (omega arith) (omega arith))
      ((chip_pending_irq_iff (master 1 0) 0 (master-IsWellFormed 1 0 (omega arith) (omega arith))).0
        refl)
      (omega arith)
      ((chip_pending_irq_iff (slave 2 0) 1 (slave-IsWellFormed 2 0 (omega arith) (omega arith))).0
        refl)

-- The vector offset is the only word that the master still waits for.
abbrev waiting : Chip
waiting = record (master 0 0) { state = icw2 }
