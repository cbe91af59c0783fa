-- ===== src/Vpic/Priority.antt =====
-- Priorities: line 0 is the highest. What `vpic_get_priority` finds, and which request a chip
-- offers.
use hyve_mind.Prelude.{
  ltb, ◌==◌, every_below, table_row, table_holds, implies, bit_at, bit_at-lt, bit_at-bit_and, ℕ,
  ◌-◌, ◌≤◌, ◌<◌, min, bit_and, ◌≡◌, refl, ap, subst, ◌∙◌, ◌≢◌, ◌↔◌, ◌⊎◌, inr, true, ◌&&◌, ◌||◌,
  some, arith,
}
use hyve_mind.Vpic.Commands.{Chip, not8}
use hyve_mind.Vpic.Lines.{bit_at-not8}
use hyve_mind.Vpic.Registers.{bit_and-le, IsWellFormed}
use hyve_mind.Vpic.{vpic_get_priority, chip_pending_irq}

-- `p` is the first line of the register that is set, or 8.
pub record IsFirstLine (val p : ℕ) : Type 0 where
  pub here : (p ≡ 8) ⊎ ((p < 8) × (bit_at val p ≡ 1))
  pub before : (j : ℕ) → j < p → bit_at val j ≡ 0

here_table :
    every_below 256
      (λ val. let p = vpic_get_priority val in (p == 8) || (ltb p 8 && (bit_at val p == 1)))
    ≡ true
unfolding every_below vpic_get_priority
here_table = refl

before_table :
    every_below 256
      (λ val. every_below 8 (λ j. implies (ltb j (vpic_get_priority val)) (bit_at val j == 0)))
    ≡ true
unfolding every_below vpic_get_priority
before_table = refl

pub vpic_get_priority-IsFirstLine : (val : ℕ) → val < 256 → IsFirstLine val (vpic_get_priority val)
vpic_get_priority-IsFirstLine val h = record { here = here_lem; before = before_lem }
  where
    here_lem :
        (vpic_get_priority val ≡ 8)
        ⊎ ((vpic_get_priority val < 8) × (bit_at val (vpic_get_priority val) ≡ 1))
    here_lem = ground (arith, table_row 256 _ val here_table h)

    before_lem : (j : ℕ) → j < vpic_get_priority val → bit_at val j ≡ 0
    before_lem j hj = ground (
      arith,
      here_lem,
      table_holds 256 8 (λ v j. implies (ltb j (vpic_get_priority v)) (bit_at v j == 0)) val j
          before_table h,
    )

IsFirstLine-unique : (val p q : ℕ) → IsFirstLine val p → IsFirstLine val q → p ≡ q
IsFirstLine-unique val p q a b = ground (arith, a.before q, b.before p, a.here, b.here)

-- `vpic_get_priority` finds the first line that is set, and 8 exactly when none is.
pub vpic_get_priority_iff :
    (val p : ℕ) → val < 256 → (vpic_get_priority val ≡ p) ↔ IsFirstLine val p
vpic_get_priority_iff val p h = (
  λ e. subst (IsFirstLine val) e (vpic_get_priority-IsFirstLine val h),
  λ f. IsFirstLine-unique val _ p (vpic_get_priority-IsFirstLine val h) f,
)

-- The unmasked requests.
abbrev pub requests : Chip → ℕ
requests c = bit_and c.irr (not8 c.imr)

pub bit_at-requests :
    (c : Chip) (j : ℕ)
    → IsWellFormed c
    → j < 8
    → bit_at (requests c) j ≡ min (bit_at c.irr j) (1 - bit_at c.imr j)
bit_at-requests c j w h =
    bit_at-bit_and c.irr (not8 c.imr) j
    ∙ ap (λ (t : ℕ). min (bit_at c.irr j) t) (bit_at-not8 c.imr j w.imr_byte h)

pub requests-lt : (c : Chip) → IsWellFormed c → requests c < 256
requests-lt c w = omega (arith, bit_and-le c.irr (not8 c.imr) w.irr_byte (omega arith))

-- Line `i` is requested and not masked, no line before it is, and no line up to it is in service.
pub record Offers (c : Chip) (i : ℕ) : Type 0 where
  pub line : i < 8
  pub requested : bit_at c.irr i ≡ 1
  pub unmasked : bit_at c.imr i ≡ 0
  pub first : (j : ℕ) → j < i → (bit_at c.irr j ≡ 0) ⊎ (bit_at c.imr j ≡ 1)
  pub idle : (j : ℕ) → j ≤ i → bit_at c.isr j ≡ 0

chip_pending_irq_parts :
    (c : Chip) (i : ℕ)
    → chip_pending_irq c ≡ some i
    → (vpic_get_priority (requests c) ≡ i) × (i ≢ 8) × (i < vpic_get_priority c.isr)
unfolding chip_pending_irq
chip_pending_irq_parts c i e = ground arith

chip_pending_irq_of_parts :
    (c : Chip) (i : ℕ)
    → vpic_get_priority (requests c) ≡ i
    → i < 8
    → i < vpic_get_priority c.isr
    → chip_pending_irq c ≡ some i
unfolding chip_pending_irq
chip_pending_irq_of_parts c i p h q = ground arith

-- A first line of a number with digits below 8 only.
first_line_of :
    (val p : ℕ)
    → val < 256
    → p < 8
    → bit_at val p ≡ 1
    → ((j : ℕ) → j < p → bit_at val j ≡ 0)
    → vpic_get_priority val ≡ p
first_line_of val p h hp hit before =
    (vpic_get_priority_iff val p h).1 (record { here = inr (hp, hit); before = before })

-- The first line in service comes after `i` if no line up to `i` is in service.
pub priority_above :
    (val i : ℕ)
    → val < 256
    → i < 8
    → ((j : ℕ) → j ≤ i → bit_at val j ≡ 0)
    → i < vpic_get_priority val
priority_above val i h hi idle =
    ground (arith, (vpic_get_priority-IsFirstLine val h).here, idle (vpic_get_priority val))

module _ (c : Chip) (w : IsWellFormed c) (i : ℕ) where
  chip_pending_irq-Offers : chip_pending_irq c ≡ some i → Offers c i
  chip_pending_irq-Offers e = record {
    line = line;
    requested = omega (arith, hit, bit_at-requests c i w line, bit_at-lt c.irr i);
    unmasked = omega (arith, hit, bit_at-requests c i w line, bit_at-lt c.imr i);
    first = first;
    idle =
        λ j h. (vpic_get_priority-IsFirstLine c.isr w.isr_byte).before j (omega (arith, parts.2));
  }
    where
      parts : (vpic_get_priority (requests c) ≡ i) × (i ≢ 8) × (i < vpic_get_priority c.isr)
      parts = chip_pending_irq_parts c i e

      found : IsFirstLine (requests c) i
      found = (vpic_get_priority_iff (requests c) i (requests-lt c w)).0 parts.0

      line : i < 8
      line = ground (arith, found.here, parts.1)

      hit : bit_at (requests c) i ≡ 1
      hit = ground (arith, found.here, parts.1)

      first : (j : ℕ) → j < i → (bit_at c.irr j ≡ 0) ⊎ (bit_at c.imr j ≡ 1)
      first j h = ground (
        arith,
        found.before j h,
        bit_at-requests c j w (omega (arith, line)),
        bit_at-lt c.irr j,
        bit_at-lt c.imr j,
      )

  Offers-chip_pending_irq : Offers c i → chip_pending_irq c ≡ some i
  Offers-chip_pending_irq o =
      chip_pending_irq_of_parts c i
        (first_line_of (requests c) i (requests-lt c w) o.line hit before) o.line
        (priority_above c.isr i w.isr_byte o.line o.idle)
    where
      hit : bit_at (requests c) i ≡ 1
      hit = omega (arith, bit_at-requests c i w o.line, o.requested, o.unmasked)

      before : (j : ℕ) → j < i → bit_at (requests c) j ≡ 0
      before j h =
          ground (arith, bit_at-requests c j w (omega (arith, o.line)), o.first j h, o.line)

-- A chip offers line `i` exactly when it is requested and not masked, every line before it is
-- unrequested or masked, and no line up to it is in service.
pub chip_pending_irq_iff :
    (c : Chip) (i : ℕ) → IsWellFormed c → (chip_pending_irq c ≡ some i) ↔ Offers c i
chip_pending_irq_iff c i w = (chip_pending_irq-Offers c w i, Offers-chip_pending_irq c w i)
