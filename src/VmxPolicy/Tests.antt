-- ===== src/VmxPolicy/Tests.antt =====
-- The policy of a processor that allows every field and demands none.
use hyve_mind.Prelude.{ℕ, ◌^◌, ◌≡◌, refl, ◌↔◌, true, false}
use hyve_mind.VmxPolicy.{VirtPolicy, vmx_policy_ept, vmx_policy_valid, vmx_caps_is_option_supported}
use hyve_mind.VmxPolicy.Controls.{
  set_reserved_pinbased_ctls, set_reserved_procbased_ctls1, set_reserved_procbased_ctls2,
  set_reserved_procbased_ctls3, set_reserved_vm_exit_ctls1, set_reserved_vm_exit_ctls2,
  set_reserved_vm_entry_ctls, vmx_init_default_policy, init_vmx_capabilities,
}
use hyve_mind.VmxPolicy.Capabilities.{supports_required, capabilities, init_vmx_capabilities_lem}
use hyve_mind.VmxPolicy.Validation.{
  policy_validates_against_capabilities, policy_validates_against_default_values,
  validate_vmx_virt_policy,
}
use hyve_mind.VmxPolicy.Valid.{WithinCaps, InactiveZero, ReservedKept, validate_vmx_virt_policy_iff}
use hyve_mind.VmxPolicy.Configured.{configured_is_supported}
use hyve_mind.VmxPolicy.Policies.{validate_vmx_virt_policy-vmx_init_default_policy}

abbrev all_allowed : ℕ → ℕ
all_allowed msr = 0xffffffff00000000

abbrev no_controls : VirtPolicy
no_controls = record {
  pin_ctls = 0;
  proc_ctls1 = 0;
  proc_ctls2 = 0;
  proc_ctls3 = 0;
  exit_ctls1 = 0;
  exit_ctls2 = 0;
  entry_ctls = 0;
}

abbrev ept_only : VirtPolicy
ept_only = record no_controls { proc_ctls1 = 2 ^ 31; proc_ctls2 = 2 }

init_vmx_capabilities_lem_example :
    (supports_required all_allowed ≡ true
      → init_vmx_capabilities all_allowed no_controls ≡ (true, capabilities all_allowed))
    × (supports_required all_allowed ≡ false
        → (init_vmx_capabilities all_allowed no_controls).0 ≡ false)
init_vmx_capabilities_lem_example = init_vmx_capabilities_lem all_allowed no_controls

initialized_now : init_vmx_capabilities all_allowed no_controls ≡ (true, capabilities all_allowed)
initialized_now = (init_vmx_capabilities_lem all_allowed no_controls).0 refl

validate_vmx_virt_policy_iff_example :
    (validate_vmx_virt_policy all_allowed (capabilities all_allowed) ept_only ≡ vmx_policy_valid)
    ↔ (ReservedKept all_allowed (capabilities all_allowed) ept_only
        × WithinCaps (capabilities all_allowed) ept_only
        × InactiveZero ept_only)
validate_vmx_virt_policy_iff_example =
    validate_vmx_virt_policy_iff all_allowed (capabilities all_allowed) ept_only

ept_only-valid :
    validate_vmx_virt_policy all_allowed (capabilities all_allowed) ept_only ≡ vmx_policy_valid
unfolding capabilities validate_vmx_virt_policy policy_validates_against_capabilities
    policy_validates_against_default_values set_reserved_pinbased_ctls set_reserved_procbased_ctls1
    set_reserved_procbased_ctls2 set_reserved_procbased_ctls3 set_reserved_vm_exit_ctls1
    set_reserved_vm_exit_ctls2 set_reserved_vm_entry_ctls
ept_only-valid = refl

configured_is_supported_example :
    vmx_caps_is_option_supported (capabilities all_allowed) vmx_policy_ept ≡ true
configured_is_supported_example =
    configured_is_supported all_allowed (capabilities all_allowed) ept_only vmx_policy_ept
      ept_only-valid refl

validate_vmx_virt_policy-vmx_init_default_policy_example :
    validate_vmx_virt_policy all_allowed
      (capabilities all_allowed)
      (vmx_init_default_policy all_allowed)
    ≡ vmx_policy_valid
validate_vmx_virt_policy-vmx_init_default_policy_example =
    validate_vmx_virt_policy-vmx_init_default_policy all_allowed refl refl refl refl no_controls
      (capabilities all_allowed) initialized_now
