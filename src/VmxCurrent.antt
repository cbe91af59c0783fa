-- ===== src/VmxCurrent.antt =====
-- Which virtual processor's control structure is active and current on which processor, as
-- arch/x64/vmx/vmx.c keeps track of it.
--
-- Processors and virtual processors are numbers; `none` is INVALID_CPUID and the NULL of curr_vcpu. The
-- results of vmptrld, an instruction, are an argument of each operation.
pub mod Coherent
mod Tests
use hyve_mind.Prelude.{
  ◌==◌, if◌then◌else◌, Exec, ret, die, ◌>>=◌, ℕ, ◌≡◌, Bool, true, false, Option, none, some,
}

pub data VmcsLaunchState : Type 0 where
  vmcs_ls_invalid : VmcsLaunchState
  vmcs_ls_clear : VmcsLaunchState
  vmcs_ls_launched : VmcsLaunchState

pub record VmxState : Type 0 where
  pub active_cpu : ℕ → Option ℕ
  pub launch_state : ℕ → VmcsLaunchState
  pub curr_vcpu : ℕ → Option ℕ

abbrev pub is_number : Option ℕ → ℕ → Bool
is_number none n = false
is_number (some m) n = m == n

abbrev pub update {ℓ} : {A : Type ℓ} → (ℕ → A) → ℕ → A → ℕ → A
update f n a i = if i == n then a else f i

-- `__vmx_clear_vcpu` on processor `cpu`.
pub clear_on_cpu : ℕ → ℕ → VmxState → VmxState
clear_on_cpu cpu vcpu s =
    let current =
      if is_number (s.curr_vcpu cpu) vcpu then update s.curr_vcpu cpu none else s.curr_vcpu in
    if is_number (s.active_cpu vcpu) cpu
    then record {
      active_cpu = update s.active_cpu vcpu none;
      launch_state = update s.launch_state vcpu vmcs_ls_clear;
      curr_vcpu = current;
    }
    else s

abbrev pub clear_active : Option ℕ → ℕ → ℕ → VmxState → Exec VmxState
clear_active none cpu vcpu s = ret s
clear_active (some active) cpu vcpu s = if active == cpu then ret (clear_on_cpu cpu vcpu s) else die

pub vmx_clear_vcpu : ℕ → ℕ → VmxState → Exec VmxState
vmx_clear_vcpu cpu vcpu s = clear_active (s.active_cpu vcpu) cpu vcpu s

-- Whether the structure was loaded.
pub vmx_load_vcpu : Bool → ℕ → ℕ → VmxState → Bool × VmxState
vmx_load_vcpu vmptrld cpu vcpu s =
    if vmptrld
    then (true, record s { active_cpu = update s.active_cpu vcpu (some cpu) })
    else (false, s)

abbrev pub claim_if_free : Option ℕ → ℕ → ℕ → VmxState → VmxState
claim_if_free none cpu vcpu s = record s { active_cpu = update s.active_cpu vcpu (some cpu) }
claim_if_free (some active) cpu vcpu s = s

abbrev pub after_load : Bool × VmxState → ℕ → ℕ → Bool × VmxState
after_load (false, s) cpu vcpu = (false, record s { active_cpu = update s.active_cpu vcpu none })
after_load (true, s) cpu vcpu = (true, record s { curr_vcpu = update s.curr_vcpu cpu (some vcpu) })

pub vmx_make_vcpu_current : Bool → ℕ → ℕ → VmxState → Exec (Bool × VmxState)
vmx_make_vcpu_current vmptrld cpu vcpu s =
    let claimed = claim_if_free (s.active_cpu vcpu) cpu vcpu s in
    let left =
      if is_number (claimed.active_cpu vcpu) cpu
      then ret claimed
      else vmx_clear_vcpu cpu vcpu claimed in
    if is_number (s.curr_vcpu cpu) vcpu
    then ret (true, s)
    else (left >>= λ s'. ret (after_load (vmx_load_vcpu vmptrld cpu vcpu s') cpu vcpu))

-- The steps of the processors, in the order in which they take them.
pub data Reach : VmxState → Type 0 where
  at_start :
      (launch : ℕ → VmcsLaunchState)
      → Reach (record { active_cpu = λ i. none; launch_state = launch; curr_vcpu = λ i. none })
  clears :
      (s s' : VmxState) (cpu vcpu : ℕ) → Reach s → vmx_clear_vcpu cpu vcpu s ≡ ret s' → Reach s'
  makes_current :
      (s s' : VmxState) (vmptrld ok : Bool) (cpu vcpu : ℕ)
      → Reach s
      → vmx_make_vcpu_current vmptrld cpu vcpu s ≡ ret (ok, s')
      → Reach s'
