-- ===== src/Vpic.antt =====
-- The guest's pair of 8259 interrupt controllers: arch/x64/vm/vpic.c, with the types and command
-- tests of arch/x64/include/vm/vpic.h and vpic_defs.h.
--
-- One `Chip` is a `struct __vpic`. Its registers are uint8_t and are kept as plain numbers; the
-- union of `sub_device_map` and `sub_device_id` is the one field `sub_device`, and `parent_vpic` is
-- only ever tested against NULL. Each operation runs whole under the pair's spinlock, so that it is
-- one function from state to state.
pub mod Commands
pub mod Registers
pub mod Init
pub mod Priority
pub mod Lines
pub mod Irq
pub mod Raise
pub mod Eoi
pub mod Reach
mod Tests
use hyve_mind.Prelude.{
  ltb, leb, ◌==◌, if◌then◌else◌, Exec, ret, die, ◌>>=◌, ℕ, zero, suc, ◌+◌, ◌-◌, ◌/◌, ◌%◌, ◌^◌,
  bit_and, bit_or, Bool, true, false, not, ◌&&◌, Option, none, some,
}
use hyve_mind.Vpic.Commands.{
  State, uninitialized, initialized, icw2, icw3, icw4, icw2_icw3, icw2_icw4, icw2_icw3_icw4,
  icw3_icw4, read_irr, read_isr, read_no_action, Chip, Vpic, not8, u8_lshift_one, is_set, is_clear,
  a0_clear, is_icw1, is_ocw1, is_ocw2, is_ocw3, icw1_ic4, icw1_sngl, icw1_unsupported,
  icw4_unsupported, ocw2_unsupported, ocw3_unsupported, ocw3_ris, ocw3_rr,
}

abbrev blank : Chip
blank = record {
  state = uninitialized;
  imr = 0;
  irr = 0;
  isr = 0;
  offset = 0;
  read_mode = read_irr;
  sub_device = 0;
  has_parent = false;
}

-- `allocate_vpic` after its allocation: zeroed memory, and then the fields that are set.
pub allocate_vpic : Vpic
allocate_vpic = record {
  vpic1 = record blank { sub_device = u8_lshift_one 2 };
  vpic2 = record blank { has_parent = true };
}

pub in_init_sequence : Chip → Bool
in_init_sequence c = elim c.state [ uninitialized ↦ false | initialized ↦ false | _ ↦ true ]

pub get_next_init_state : State → Exec State
get_next_init_state icw2 = ret initialized
get_next_init_state icw3 = ret initialized
get_next_init_state icw4 = ret initialized
get_next_init_state icw2_icw3 = ret icw3
get_next_init_state icw2_icw4 = ret icw4
get_next_init_state icw2_icw3_icw4 = ret icw3_icw4
get_next_init_state icw3_icw4 = ret icw4
get_next_init_state uninitialized = die
get_next_init_state initialized = die

pub get_init_state_from_icw1 : ℕ → State
get_init_state_from_icw1 icw1 =
    if not (is_set icw1 icw1_ic4) && is_set icw1 icw1_sngl
    then icw2
    else if is_set icw1 icw1_ic4 && not (is_set icw1 icw1_sngl)
    then icw2_icw3_icw4
    else if not (is_set icw1 icw1_ic4)
    then icw2_icw3
    else icw2_icw4

pub start_init_sequence : Chip → ℕ → Exec Chip
start_init_sequence c icw1 =
    if icw1_unsupported icw1
    then die
    else ret (record c {
      state = get_init_state_from_icw1 icw1;
      imr = 0;
      read_mode = read_irr;
      sub_device = if c.has_parent then 7 else u8_lshift_one 7;
    })

-- The register that an initialisation word sets; the state still moves on after it.
init_register : State → Chip → ℕ → Exec Chip
init_register icw2 c val = ret (record c { offset = bit_and val 0xf8 })
init_register icw2_icw3 c val = ret (record c { offset = bit_and val 0xf8 })
init_register icw2_icw4 c val = ret (record c { offset = bit_and val 0xf8 })
init_register icw2_icw3_icw4 c val = ret (record c { offset = bit_and val 0xf8 })
init_register icw3 c val =
    ret (record c { sub_device = if c.has_parent then bit_and val 7 else val })
init_register icw3_icw4 c val =
    ret (record c { sub_device = if c.has_parent then bit_and val 7 else val })
init_register icw4 c val = if icw4_unsupported val then die else ret c
init_register uninitialized c val = die
init_register initialized c val = die

pub handle_init_step : Chip → ℕ → Exec Chip
unfolding init_register
handle_init_step c val = do
  c' ← init_register c.state c val
  s ← get_next_init_state c'.state
  ret (record c' { state = s })

-- The two commands that pass `OCW2_UNSUPPORTED`, by `ocw2 >> 5`.
ocw2_command : Chip → ℕ → ℕ → Exec Chip
ocw2_command c ocw2 cmd =
    if cmd == 1
    then ret (record c { isr = bit_and ((c.isr + 255) % 256) c.isr })
    else if cmd == 3
    then ret (record c { isr = bit_and c.isr (not8 (u8_lshift_one (bit_and ocw2 3))) })
    else die

pub handle_ocw2_write : Chip → ℕ → Exec Chip
unfolding ocw2_command
handle_ocw2_write c ocw2 = if ocw2_unsupported ocw2 then die else ocw2_command c ocw2 (ocw2 / 2 ^ 5)

pub handle_ocw3_write : Chip → ℕ → Exec Chip
handle_ocw3_write c ocw3 =
    if ocw3_unsupported ocw3
    then die
    else if not (is_set ocw3 ocw3_rr)
    then ret (record c { read_mode = read_no_action })
    else if is_set ocw3 ocw3_ris
    then ret (record c { read_mode = read_isr })
    else ret (record c { read_mode = read_irr })

-- A command received outside an initialisation sequence.
operation_command : Chip → ℕ → ℕ → Exec Chip
operation_command c port val =
    if is_ocw1 port val
    then ret (record c { imr = val })
    else if is_ocw2 port val
    then handle_ocw2_write c val
    else if is_ocw3 port val
    then handle_ocw3_write c val
    else die

pub vpic_write : Chip → ℕ → ℕ → Exec Chip
unfolding operation_command
vpic_write c port val =
    if is_icw1 port val
    then start_init_sequence c val
    else if in_init_sequence c
    then if a0_clear port then ret c else handle_init_step c val
    else operation_command c port val

-- `none`: `*val` is left as it was.
pub vpic_read : Chip → ℕ → Option ℕ
vpic_read c port =
    if a0_clear port
    then elim c.read_mode [ read_irr ↦ some c.irr | read_isr ↦ some c.isr | read_no_action ↦ none ]
    else some c.imr

-- `-1` and `0` of the C function are `none` and the chip with the request bit set.
raise_ext_irq : Chip → ℕ → Option Chip
raise_ext_irq c irq = elim c.state [
  | initialized ↦ some (record c { irr = bit_or c.irr (u8_lshift_one irq) })
  | _ ↦ none
]

-- A line as the callers name it: `guest_hwirq_t` has no declaration in the repository, and is read
-- as the `int` that `hwirq_t` is. `negsuc n` is the line -1 - n.
pub data GuestIrq : Type 0 where
  pos : ℕ → GuestIrq
  negsuc : ℕ → GuestIrq

-- The low five bits of a negative line, by which the processor shifts.
abbrev shift_of_negsuc : ℕ → ℕ
shift_of_negsuc n = 31 - n % 32

-- The target vCPU is never kicked (`irq_target_vcpu_needs_kick` returns false). A negative line is
-- below VPIC_NUM_PINS and goes to the master.
pub vpic_raise_external_irq : Vpic → GuestIrq → Option Vpic
unfolding raise_ext_irq
vpic_raise_external_irq v (negsuc n) = elim (raise_ext_irq v.vpic1 (shift_of_negsuc n)) [
  | some c ↦ some (record v { vpic1 = c })
  | none ↦ none
]
vpic_raise_external_irq v (pos irq) =
    if leb 16 irq
    then none
    else if leb 8 irq
    then elim (raise_ext_irq v.vpic2 (irq - 8)) [
      | some c ↦ some (record v { vpic2 = c })
      | none ↦ none
    ]
    else elim (raise_ext_irq v.vpic1 irq) [ some c ↦ some (record v { vpic1 = c }) | none ↦ none ]

pub vpic_ack : Chip → ℕ → Chip
vpic_ack c irq =
    let mask = u8_lshift_one irq in
    record c { irr = bit_and c.irr (not8 mask); isr = bit_or c.isr mask }

-- `while (!(val & (1 << prio)) && prio < 8) prio++`, on the rounds that are left.
priority_loop : ℕ → ℕ → ℕ → ℕ
priority_loop zero val prio = prio
priority_loop (suc rounds) val prio =
    let rest = priority_loop rounds val (prio + 1) in
    if is_clear val (2 ^ prio) && ltb prio 8 then rest else prio

-- 8 stands for "no bit is set".
pub vpic_get_priority : ℕ → ℕ
unfolding priority_loop
vpic_get_priority val = if val == 0 then 8 else priority_loop 9 val 0

-- `none` is the -1 of `__vpic_get_pending_irq`.
pub chip_pending_irq : Chip → Option ℕ
chip_pending_irq c =
    let pending = vpic_get_priority (bit_and c.irr (not8 c.imr)) in
    if pending == 8
    then none
    else if ltb pending (vpic_get_priority c.isr)
    then some pending
    else none

-- `(irq1 == -1 || irq1 > 2)`.
abbrev pub above_cascade : Option ℕ → Bool
above_cascade none = true
above_cascade (some irq1) = ltb 2 irq1

pub vpic_has_pending_irq : Vpic → Bool
vpic_has_pending_irq v = elim (chip_pending_irq v.vpic2) [
  | some irq2 ↦ above_cascade (chip_pending_irq v.vpic1) && ltb 2 (vpic_get_priority v.vpic1.isr)
  | none ↦ elim (chip_pending_irq v.vpic1) [ some irq1 ↦ true | none ↦ false ]
]

-- The vector to inject (`none` for -1) and the state after the acknowledgement.
pub vpic_get_pending_irq : Vpic → Option ℕ × Vpic
vpic_get_pending_irq v = elim (chip_pending_irq v.vpic2) [
  | some irq2 ↦
      if above_cascade (chip_pending_irq v.vpic1) && ltb 2 (vpic_get_priority v.vpic1.isr)
      then (
        some (irq2 + v.vpic2.offset),
        record { vpic1 = vpic_ack v.vpic1 2; vpic2 = vpic_ack v.vpic2 irq2 },
      )
      else (none, v)
  | none ↦ elim (chip_pending_irq v.vpic1) [
    | some irq1 ↦ (some (irq1 + v.vpic1.offset), record v { vpic1 = vpic_ack v.vpic1 irq1 })
    | none ↦ (none, v)
  ]
]
