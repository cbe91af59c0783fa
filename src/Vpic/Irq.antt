-- ===== src/Vpic/Irq.antt =====
-- Raising and delivering interrupts.
use hyve_mind.Prelude.{
  ltb, ◌==◌, if◌then◌else◌, Bool-cases, Option-cases, bit_at, ℕ, ◌+◌, ◌≤◌, ◌<◌, ◌≡◌, refl, sym, ap,
  subst, ◌⊎◌, inl, inr, Bool, true, false, ◌&&◌, Option, none, some, arith,
}
use hyve_mind.Vpic.Commands.{Chip, Vpic, not8, u8_lshift_one}
use hyve_mind.Vpic.Registers.{bit_and-le, bit_or-lt, IsWellFormed}
use hyve_mind.Vpic.Lines.{mask-lt, bit_at-clear_line, bit_at-set_line}
use hyve_mind.Vpic.Priority.{Offers, chip_pending_irq_iff}
use hyve_mind.Vpic.{
  vpic_ack, vpic_get_priority, chip_pending_irq, above_cascade, vpic_has_pending_irq,
  vpic_get_pending_irq,
}

abbrev pub is_some : Option ℕ → Bool
is_some none = false
is_some (some n) = true

-- `vpic_has_pending_irq` foretells whether `vpic_get_pending_irq` returns a vector.
pub has_pending-get_pending :
    (v : Vpic) → vpic_has_pending_irq v ≡ is_some (vpic_get_pending_irq v).0
unfolding vpic_has_pending_irq vpic_get_pending_irq
has_pending-get_pending v = ground arith

-- Where there is no vector, nothing is acknowledged.
pub get_pending-none :
    (v : Vpic) → (vpic_get_pending_irq v).0 ≡ none → (vpic_get_pending_irq v).1 ≡ v
unfolding vpic_get_pending_irq
get_pending-none v h = ground arith

-- The lines of a chip and of the same chip after it acknowledged line `i`.
pub record Acked (c c' : Chip) (i : ℕ) : Type 0 where
  pub request : (j : ℕ) → j < 8 → bit_at c'.irr j ≡ (if i == j then 0 else bit_at c.irr j)
  pub service : (j : ℕ) → j < 8 → bit_at c'.isr j ≡ (if i == j then 1 else bit_at c.isr j)
  pub mask : c'.imr ≡ c.imr
  pub vectors : c'.offset ≡ c.offset

vpic_ack-Acked : (c : Chip) (i : ℕ) → i < 8 → Acked c (vpic_ack c i) i
unfolding vpic_ack
vpic_ack-Acked c i h = record {
  request = λ j hj. bit_at-clear_line c.irr i j h hj;
  service = λ j hj. bit_at-set_line c.isr i j h hj;
  mask = refl;
  vectors = refl;
}

vpic_ack-IsWellFormed : (c : Chip) (i : ℕ) → IsWellFormed c → IsWellFormed (vpic_ack c i)
unfolding vpic_ack
vpic_ack-IsWellFormed c i w = ground (
  arith,
  bit_and-le c.irr (not8 (u8_lshift_one i)) w.irr_byte (omega arith),
  bit_or-lt c.isr (u8_lshift_one i) w.isr_byte (mask-lt i),
)

get_pending_cases {ℓ} :
    (P : Vpic → Type ℓ) (v : Vpic)
    → P v
    → ((i : ℕ) → P (record { vpic1 = vpic_ack v.vpic1 2; vpic2 = vpic_ack v.vpic2 i }))
    → ((i : ℕ) → P (record v { vpic1 = vpic_ack v.vpic1 i }))
    → P (vpic_get_pending_irq v).1
unfolding vpic_get_pending_irq
get_pending_cases P v stay slave master = elim (Option-cases (chip_pending_irq v.vpic2)) [
  | inr (i, p) ↦
      let free =
        above_cascade (chip_pending_irq v.vpic1) && ltb 2 (vpic_get_priority v.vpic1.isr) in
      rw (p, vpic_get_pending_irq)
        (elim (Bool-cases free) [ inl e ↦ rw e (slave i) | inr e ↦ rw e stay ])
  | inl p ↦ elim (Option-cases (chip_pending_irq v.vpic1)) [
    | inr (i, q) ↦ rw (p, q, vpic_get_pending_irq) (master i)
    | inl q ↦ rw (p, q, vpic_get_pending_irq) stay
  ]
]

abbrev pub AreWellFormed : Vpic → Type 0
AreWellFormed v = IsWellFormed v.vpic1 × IsWellFormed v.vpic2

-- Delivering keeps the registers well formed.
pub get_pending-AreWellFormed :
    (v : Vpic) → AreWellFormed v → AreWellFormed (vpic_get_pending_irq v).1
get_pending-AreWellFormed v w =
    get_pending_cases AreWellFormed v w
      (λ i. (vpic_ack-IsWellFormed v.vpic1 2 w.0, vpic_ack-IsWellFormed v.vpic2 i w.1))
      (λ i. (vpic_ack-IsWellFormed v.vpic1 i w.0, w.1))

delivered_slave :
    (v v' : Vpic) (n i : ℕ)
    → chip_pending_irq v.vpic2 ≡ some i
    → vpic_get_pending_irq v ≡ (some n, v')
    → (n ≡ i + v.vpic2.offset)
      × (v' ≡ record { vpic1 = vpic_ack v.vpic1 2; vpic2 = vpic_ack v.vpic2 i })
unfolding vpic_get_pending_irq
delivered_slave v v' n i p e = ground arith

delivered_master :
    (v v' : Vpic) (n : ℕ)
    → chip_pending_irq v.vpic2 ≡ none
    → vpic_get_pending_irq v ≡ (some n, v')
    → (i : ℕ) × (chip_pending_irq v.vpic1 ≡ some i)
      × (n ≡ i + v.vpic1.offset)
      × (v' ≡ record v { vpic1 = vpic_ack v.vpic1 i })
unfolding vpic_get_pending_irq
delivered_master v v' n p e = ground arith

-- The two ways to deliver the vector `n`.
abbrev pub Delivers : Vpic → ℕ → Vpic → Type 0
Delivers v n v' =
    ((i : ℕ) × Offers v.vpic2 i
      × (n ≡ i + v.vpic2.offset)
      × Acked v.vpic2 v'.vpic2 i
      × Acked v.vpic1 v'.vpic1 2)
    ⊎ ((i : ℕ) × Offers v.vpic1 i
        × (n ≡ i + v.vpic1.offset)
        × Acked v.vpic1 v'.vpic1 i
        × (v'.vpic2 ≡ v.vpic2)
        × (chip_pending_irq v.vpic2 ≡ none))

-- A delivered vector is that of a line which its chip offers. On the slave, that line and line 2 of
-- the master move from requested to in service; on the master, that line alone, and only where the
-- slave offers nothing.
pub get_pending-Delivers :
    (v v' : Vpic) (n : ℕ)
    → AreWellFormed v
    → vpic_get_pending_irq v ≡ (some n, v')
    → Delivers v n v'
get_pending-Delivers v v' n w e = elim (Option-cases (chip_pending_irq v.vpic2)) [
  | inr (i, p) ↦
      let offers = (chip_pending_irq_iff v.vpic2 i w.1).0 p in
      let (vector, after) = delivered_slave v v' n i p e in
      inl (
        i,
        offers,
        vector,
        subst (λ (u : Vpic). Acked v.vpic2 u.vpic2 i) (sym after)
            (vpic_ack-Acked v.vpic2 i offers.line),
        subst (λ (u : Vpic). Acked v.vpic1 u.vpic1 2) (sym after)
            (vpic_ack-Acked v.vpic1 2 (omega arith)),
      )
  | inl p ↦
      let (i, q, vector, after) = delivered_master v v' n p e in
      let offers = (chip_pending_irq_iff v.vpic1 i w.0).0 q in
      inr (
        i,
        offers,
        vector,
        subst (λ (u : Vpic). Acked v.vpic1 u.vpic1 i) (sym after)
            (vpic_ack-Acked v.vpic1 i offers.line),
        ap (λ (u : Vpic). u.vpic2) after,
        p,
      )
]

-- While a line is in service, its chip offers only lines before it.
pub vpic_ack-nested :
    (c : Chip) (i j : ℕ) → IsWellFormed c → i < 8 → chip_pending_irq (vpic_ack c i) ≡ some j → j < i
vpic_ack-nested c i j w hi e =
    let offers = (chip_pending_irq_iff (vpic_ack c i) j (vpic_ack-IsWellFormed c i w)).0 e in
    ground (arith, offers.idle i, (vpic_ack-Acked c i hi).service i hi, offers.line)

-- A request on the slave together with one on lines 0 to 2 of the master blocks both: no vector is
-- delivered, though each chip offers its line.
pub get_pending_starved :
    (v : Vpic) (i k : ℕ)
    → AreWellFormed v
    → Offers v.vpic1 i
    → i ≤ 2
    → Offers v.vpic2 k
    → vpic_get_pending_irq v ≡ (none, v)
unfolding vpic_get_pending_irq
get_pending_starved v i k w o1 h o2 =
    ground
      (arith, (chip_pending_irq_iff v.vpic2 k w.1).1 o2, (chip_pending_irq_iff v.vpic1 i w.0).1 o1)
