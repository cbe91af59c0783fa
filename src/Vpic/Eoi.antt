-- ===== src/Vpic/Eoi.antt =====
-- The end of an interrupt, signalled through OCW2.
use hyve_mind.Prelude.{
  ltb, ◌==◌, if◌then◌else◌, ==_iff, every_below, table_row, table_holds, implies, bit_at, ret, die,
  ℕ, ◌+◌, ◌-◌, ◌/◌, ◌%◌, ◌^◌, ◌≤◌, ◌<◌, bit_and, bit_or, ◌≡◌, refl, ap, ◌∙◌, ◌↔◌, true, not, ◌&&◌,
  ◌||◌, arith,
}
use hyve_mind.Vpic.Commands.{Chip, not8, u8_lshift_one, ocw2_unsupported}
use hyve_mind.Vpic.Lines.{bit_at-clear_line}
use hyve_mind.Vpic.Registers.{IsWellFormed}
use hyve_mind.Vpic.Priority.{Offers, priority_above}
use hyve_mind.Vpic.{handle_ocw2_write, vpic_ack, vpic_get_priority}

supported_table :
    every_below 256 (λ w. ocw2_unsupported w || (w / 2 ^ 5 == 1) || (w / 2 ^ 5 == 3)) ≡ true
unfolding every_below
supported_table = refl

-- OCW2 halts exactly on the words with an unsupported feature: the two end-of-interrupt commands
-- are all that is left, so that the command switch never meets its default.
pub handle_ocw2_write_dies :
    (c : Chip) (ocw2 : ℕ)
    → ocw2 < 256
    → (handle_ocw2_write c ocw2 ≡ die) ↔ (ocw2_unsupported ocw2 ≡ true)
unfolding handle_ocw2_write
handle_ocw2_write_dies c ocw2 h = ground (
  arith,
  table_row 256 (λ w. ocw2_unsupported w || (w / 2 ^ 5 == 1) || (w / 2 ^ 5 == 3)) ocw2
      supported_table h,
)

-- `(isr - 1) & isr` over all bytes.
lowest_table :
    every_below 256 (λ isr. every_below 8 (λ j.
      bit_at (bit_and ((isr + 255) % 256) isr) j
      == (if vpic_get_priority isr == j then 0 else bit_at isr j)))
    ≡ true
unfolding every_below vpic_get_priority
lowest_table = refl

lowest_lines :
    (isr j : ℕ)
    → isr < 256
    → j < 8
    → bit_at (bit_and ((isr + 255) % 256) isr) j
      ≡ (if vpic_get_priority isr == j then 0 else bit_at isr j)
lowest_lines isr j h hj = (==_iff _ _).0 (
    table_holds 256 8
      (λ isr j.
        bit_at (bit_and ((isr + 255) % 256) isr) j
        == (if vpic_get_priority isr == j then 0 else bit_at isr j))
      isr j lowest_table h hj)

nonspecific_eoi_chip :
    (c c' : Chip) (ocw2 : ℕ)
    → ocw2 / 2 ^ 5 ≡ 1
    → handle_ocw2_write c ocw2 ≡ ret c'
    → c' ≡ record c { isr = bit_and ((c.isr + 255) % 256) c.isr }
unfolding handle_ocw2_write
nonspecific_eoi_chip c c' ocw2 hc e = ground arith

-- A non-specific end of interrupt takes the first line in service out of service, and leaves every
-- other line and the rest of the chip as they are.
pub nonspecific_eoi :
    (c c' : Chip) (ocw2 j : ℕ)
    → IsWellFormed c
    → ocw2 / 2 ^ 5 ≡ 1
    → j < 8
    → handle_ocw2_write c ocw2 ≡ ret c'
    → (bit_at c'.isr j ≡ (if vpic_get_priority c.isr == j then 0 else bit_at c.isr j))
      × (c' ≡ record c { isr = c'.isr })
nonspecific_eoi c c' ocw2 j w hc hj e =
    rw (nonspecific_eoi_chip c c' ocw2 hc e) (lowest_lines c.isr j w.isr_byte hj, refl)

specific_table :
    every_below 8 (λ l.
      (bit_and (0x60 + l) 3 == l % 4)
      && ((0x60 + l) / 2 ^ 5 == 3)
      && not (ocw2_unsupported (0x60 + l)))
    ≡ true
unfolding every_below
specific_table = refl

specific_eoi_chip :
    (c c' : Chip) (l : ℕ)
    → l < 8
    → handle_ocw2_write c (0x60 + l) ≡ ret c'
    → c' ≡ record c { isr = bit_and c.isr (not8 (u8_lshift_one (l % 4))) }
unfolding handle_ocw2_write
specific_eoi_chip c c' l h e = ground (
  arith,
  table_row 8
      (λ l.
        (bit_and (0x60 + l) 3 == l % 4)
        && ((0x60 + l) / 2 ^ 5 == 3)
        && not (ocw2_unsupported (0x60 + l)))
      l specific_table h,
)

-- A specific end of interrupt for a line of the lower half takes that line alone out of service.
pub specific_eoi :
    (c c' : Chip) (l j : ℕ)
    → l < 4
    → j < 8
    → handle_ocw2_write c (0x60 + l) ≡ ret c'
    → bit_at c'.isr j ≡ (if l == j then 0 else bit_at c.isr j)
specific_eoi c c' l j hl hj e = rw (specific_eoi_chip c c' l (omega arith) e) (
    rw (let small : l % 4 ≡ l = omega arith in small)
      (bit_at-clear_line c.isr l j (omega arith) hj))

-- For a line of the upper half it takes the line four below out of service instead, and the line
-- that the guest named stays in service.
pub specific_eoi_wrong_line :
    (c c' : Chip) (l : ℕ)
    → 4 ≤ l
    → l < 8
    → bit_at c.isr l ≡ 1
    → handle_ocw2_write c (0x60 + l) ≡ ret c'
    → (bit_at c'.isr l ≡ 1) × (bit_at c'.isr (l - 4) ≡ 0)
specific_eoi_wrong_line c c' l h hl served e = ground (
  arith,
  specific_eoi_chip c c' l hl e,
  bit_at-clear_line c.isr (l % 4) l (omega arith) hl,
  bit_at-clear_line c.isr (l % 4) (l - 4) (omega arith) (omega arith),
)

restore_table :
    every_below 256 (λ isr. every_below 8 (λ i.
      implies (ltb i (vpic_get_priority isr)) (
        let served = bit_or isr (u8_lshift_one i) in bit_and ((served + 255) % 256) served == isr)))
    ≡ true
unfolding every_below vpic_get_priority
restore_table = refl

restored :
    (isr i : ℕ)
    → isr < 256
    → i < 8
    → i < vpic_get_priority isr
    → let served = bit_or isr (u8_lshift_one i) in bit_and ((served + 255) % 256) served ≡ isr
restored isr i h hi p = ground (
  arith,
  table_holds 256 8
      (λ isr i.
        implies (ltb i (vpic_get_priority isr)) (
          let served = bit_or isr (u8_lshift_one i) in
          bit_and ((served + 255) % 256) served == isr))
      isr i restore_table h hi,
)

-- A delivery and its non-specific end of interrupt leave the lines in service as they were before:
-- interrupts nest like brackets.
pub eoi-ack :
    (c c' : Chip) (ocw2 i : ℕ)
    → IsWellFormed c
    → Offers c i
    → ocw2 / 2 ^ 5 ≡ 1
    → handle_ocw2_write (vpic_ack c i) ocw2 ≡ ret c'
    → c'.isr ≡ c.isr
unfolding vpic_ack
eoi-ack c c' ocw2 i w o hc e =
    ap (λ (u : Chip). u.isr) (nonspecific_eoi_chip (vpic_ack c i) c' ocw2 hc e)
    ∙ restored c.isr i w.isr_byte o.line (priority_above c.isr i w.isr_byte o.line o.idle)
