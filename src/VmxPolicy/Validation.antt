-- ===== src/VmxPolicy/Validation.antt =====
-- The validation of a policy in arch/x64/vmx/policy.c.
use hyve_mind.Prelude.{◌==◌, if◌then◌else◌, ℕ, Bool, true, false, not, ◌&&◌}
use hyve_mind.VmxPolicy.{
  VirtPolicy, PolicyVrfyStatus, vmx_policy_valid, vmx_policy_invalid,
  vmx_policy_reserved_field_configured, vmx_policy_invalid_option_set,
  vmx_policy_unsupported_ctl_activated, field, validate_control,
}
use hyve_mind.VmxPolicy.Controls.{
  set_reserved_pinbased_ctls, set_reserved_procbased_ctls1, set_reserved_procbased_ctls2,
  set_reserved_procbased_ctls3, set_reserved_vm_exit_ctls1, set_reserved_vm_exit_ctls2,
  set_reserved_vm_entry_ctls,
}

unfoldable pub policy_validates_against_capabilities : VirtPolicy → VirtPolicy → PolicyVrfyStatus
policy_validates_against_capabilities caps policy =
    if not (validate_control caps.pin_ctls policy.pin_ctls)
    then vmx_policy_invalid_option_set
    else if not (validate_control caps.proc_ctls1 policy.proc_ctls1)
    then vmx_policy_invalid_option_set
    else if field policy.proc_ctls1 31 && not (validate_control caps.proc_ctls2 policy.proc_ctls2)
    then vmx_policy_invalid_option_set
    else if field policy.proc_ctls1 17 && not (validate_control caps.proc_ctls3 policy.proc_ctls3)
    then vmx_policy_invalid_option_set
    else if not (validate_control caps.exit_ctls1 policy.exit_ctls1)
    then vmx_policy_invalid_option_set
    else if field policy.exit_ctls1 31 && not (validate_control caps.exit_ctls2 policy.exit_ctls2)
    then vmx_policy_invalid_option_set
    else if not (validate_control caps.entry_ctls policy.entry_ctls)
    then vmx_policy_invalid_option_set
    else vmx_policy_valid

unfoldable pub policy_validates_against_default_values :
    (ℕ → ℕ) → VirtPolicy → VirtPolicy → PolicyVrfyStatus
policy_validates_against_default_values read_msr caps policy =
    if not (policy.pin_ctls == set_reserved_pinbased_ctls read_msr policy.pin_ctls)
    then vmx_policy_reserved_field_configured
    else if not (policy.proc_ctls1 == set_reserved_procbased_ctls1 read_msr policy.proc_ctls1)
    then vmx_policy_reserved_field_configured
    else if not (policy.proc_ctls2 == set_reserved_procbased_ctls2 read_msr caps policy.proc_ctls2)
    then vmx_policy_reserved_field_configured
    else if not (policy.proc_ctls3 == set_reserved_procbased_ctls3 read_msr caps policy.proc_ctls3)
    then vmx_policy_reserved_field_configured
    else if not (policy.exit_ctls1 == set_reserved_vm_exit_ctls1 read_msr policy.exit_ctls1)
    then vmx_policy_reserved_field_configured
    else if not (policy.exit_ctls2 == set_reserved_vm_exit_ctls2 read_msr caps policy.exit_ctls2)
    then vmx_policy_reserved_field_configured
    else if not (policy.entry_ctls == set_reserved_vm_entry_ctls read_msr policy.entry_ctls)
    then vmx_policy_reserved_field_configured
    else vmx_policy_valid

abbrev pub is_valid : PolicyVrfyStatus → Bool
is_valid vmx_policy_valid = true
is_valid vmx_policy_invalid = false
is_valid vmx_policy_reserved_field_configured = false
is_valid vmx_policy_invalid_option_set = false
is_valid vmx_policy_unsupported_ctl_activated = false

-- `validate_control_dependencies` has nothing to say yet.
abbrev pub validate_control_dependencies : VirtPolicy → PolicyVrfyStatus
validate_control_dependencies policy = vmx_policy_valid

unfoldable pub validate_vmx_virt_policy : (ℕ → ℕ) → VirtPolicy → VirtPolicy → PolicyVrfyStatus
validate_vmx_virt_policy read_msr caps policy =
    if not (is_valid (policy_validates_against_default_values read_msr caps policy))
    then vmx_policy_invalid
    else if not (is_valid (policy_validates_against_capabilities caps policy))
    then vmx_policy_invalid
    else if not (field policy.proc_ctls1 31) && not (policy.proc_ctls2 == 0)
    then vmx_policy_invalid
    else if not (field policy.proc_ctls1 17) && not (policy.proc_ctls3 == 0)
    then vmx_policy_invalid
    else if not (field policy.exit_ctls1 31) && not (policy.exit_ctls2 == 0)
    then vmx_policy_invalid
    else if not (is_valid (validate_control_dependencies policy))
    then vmx_policy_invalid
    else vmx_policy_valid
