-- ===== src/VmxPolicy.antt =====
-- The VM-execution controls of arch/x64/vmx/policy.c: what the processor and the hypervisor support,
-- and what a policy may configure.
--
-- A control vector is its raw number, and a field of one bit is that bit of it. `read_msr` is the
-- instruction that reads a model-specific register; `vmx_caps` is a policy that is passed along. The
-- field `external_interrupt_handling`, which policy.c sets and vmx/vmcs.h does not declare, is taken
-- to be `external_interrupt_exiting`, the field in its place.
pub mod Reserved
pub mod Controls
pub mod Parts
pub mod Capabilities
pub mod Validation
pub mod Valid
pub mod Configured
pub mod Policies
mod Tests
use hyve_mind.Prelude.{◌==◌, bit_at, ℕ, ◌*◌, ◌/◌, ◌%◌, ◌^◌, bit_and, bit_or, Bool, ◌&&◌}

pub record VirtPolicy : Type 0 where
  pub pin_ctls : ℕ
  pub proc_ctls1 : ℕ
  pub proc_ctls2 : ℕ
  pub proc_ctls3 : ℕ
  pub exit_ctls1 : ℕ
  pub exit_ctls2 : ℕ
  pub entry_ctls : ℕ

pub data PolicyOption : Type 0 where
  vmx_policy_procbased_ctls2 : PolicyOption
  vmx_policy_procbased_ctls3 : PolicyOption
  vmx_policy_vm_exit_ctls2 : PolicyOption
  vmx_policy_ept : PolicyOption
  vmx_policy_msr_bitmap : PolicyOption
  vmx_policy_unrestricted_guest : PolicyOption

pub data PolicyVrfyStatus : Type 0 where
  vmx_policy_valid : PolicyVrfyStatus
  vmx_policy_invalid : PolicyVrfyStatus
  vmx_policy_reserved_field_configured : PolicyVrfyStatus
  vmx_policy_invalid_option_set : PolicyVrfyStatus
  vmx_policy_unsupported_ctl_activated : PolicyVrfyStatus

-- A field of one bit.
abbrev pub field : ℕ → ℕ → Bool
field raw i = bit_at raw i == 1

abbrev pub set_field : ℕ → ℕ → ℕ
set_field raw i = bit_or raw (2 ^ i)

abbrev pub u64_upper32 : ℕ → ℕ
u64_upper32 val = val / 2 ^ 32 % 2 ^ 32

abbrev pub u64_lower32 : ℕ → ℕ
u64_lower32 val = val * 2 ^ 32 % 2 ^ 64 / 2 ^ 32 % 2 ^ 32

abbrev pub u32_lshift : ℕ → ℕ → ℕ
u32_lshift val shift = val * 2 ^ shift % 2 ^ 32

abbrev pub pin_based_ctls_default1 : ℕ
pin_based_ctls_default1 = bit_or (bit_or (u32_lshift 1 1) (u32_lshift 1 2)) (u32_lshift 1 4)

-- The comma in the macro drops all that stands before it.
abbrev pub procbased_ctls1_default1 : ℕ
procbased_ctls1_default1 = u32_lshift 1 26

abbrev pub exit_ctls1_default1 : ℕ
exit_ctls1_default1 =
    bit_or (bit_or (bit_or 511 (u32_lshift 3 10)) (u32_lshift 3 13)) (u32_lshift 3 16)

abbrev pub entry_ctls_default1 : ℕ
entry_ctls_default1 = bit_or 511 (u32_lshift 1 12)

-- The fields that `init_vmx_capabilities` requires.
abbrev pub min_pin_ctls : ℕ
min_pin_ctls = set_field (set_field 0 0) 7

abbrev pub min_proc_ctls1 : ℕ
min_proc_ctls1 = set_field (set_field (set_field 0 31) 28) 21

abbrev pub min_proc_ctls2 : ℕ
min_proc_ctls2 =
    set_field
      (set_field
        (set_field (set_field (set_field (set_field (set_field (set_field 0 1) 7) 12) 3) 0) 4) 8)
      9

abbrev pub min_exit_ctls1 : ℕ
min_exit_ctls1 = set_field (set_field (set_field (set_field 0 15) 9) 21) 20

abbrev pub min_entry_ctls : ℕ
min_entry_ctls = set_field (set_field 0 9) 15

-- The two options are one function on a structure of the shape of a policy.
abbrev pub vmx_policy_is_option_configured : VirtPolicy → PolicyOption → Bool
vmx_policy_is_option_configured policy vmx_policy_procbased_ctls2 = field policy.proc_ctls1 31
vmx_policy_is_option_configured policy vmx_policy_procbased_ctls3 = field policy.proc_ctls1 17
vmx_policy_is_option_configured policy vmx_policy_vm_exit_ctls2 = field policy.exit_ctls1 31
vmx_policy_is_option_configured policy vmx_policy_ept =
    field policy.proc_ctls1 31 && field policy.proc_ctls2 1
vmx_policy_is_option_configured policy vmx_policy_msr_bitmap = field policy.proc_ctls1 28
vmx_policy_is_option_configured policy vmx_policy_unrestricted_guest =
    field policy.proc_ctls1 31 && field policy.proc_ctls2 7

abbrev pub vmx_caps_is_option_supported : VirtPolicy → PolicyOption → Bool
vmx_caps_is_option_supported caps vmx_policy_procbased_ctls2 = field caps.proc_ctls1 31
vmx_caps_is_option_supported caps vmx_policy_procbased_ctls3 = field caps.proc_ctls1 17
vmx_caps_is_option_supported caps vmx_policy_vm_exit_ctls2 = field caps.exit_ctls1 31
vmx_caps_is_option_supported caps vmx_policy_ept =
    field caps.proc_ctls1 31 && field caps.proc_ctls2 1
vmx_caps_is_option_supported caps vmx_policy_msr_bitmap = field caps.proc_ctls1 28
vmx_caps_is_option_supported caps vmx_policy_unrestricted_guest =
    field caps.proc_ctls1 31 && field caps.proc_ctls2 7

-- `VALIDATE_CONTROL`, and the checks of `init_vmx_capabilities`.
abbrev pub validate_control : ℕ → ℕ → Bool
validate_control caps policy = bit_and caps policy == policy
