-- ===== src/VmxPolicy/Configured.antt =====
-- What a valid policy of arch/x64/vmx/policy.c configures, against what is supported.
use hyve_mind.Prelude.{
  ==_iff, Bool-cases, bit_at, ℕ, ◌≡◌, refl, sym, ◌∙◌, inl, inr, true, false, ◌&&◌,
}
use hyve_mind.VmxPolicy.{
  VirtPolicy, PolicyOption, vmx_policy_procbased_ctls2, vmx_policy_procbased_ctls3,
  vmx_policy_vm_exit_ctls2, vmx_policy_ept, vmx_policy_msr_bitmap, vmx_policy_unrestricted_guest,
  vmx_policy_valid, field, vmx_policy_is_option_configured, vmx_caps_is_option_supported,
}
use hyve_mind.VmxPolicy.Reserved.{Within, within_field}
use hyve_mind.VmxPolicy.Validation.{validate_vmx_virt_policy}
use hyve_mind.VmxPolicy.Valid.{WithinCaps, validate_vmx_virt_policy_iff}

-- A field of a vector within `x` is a field of `x`.
field-Within : (x y i : ℕ) → Within y x → field y i ≡ true → field x i ≡ true
field-Within x y i h e =
    (==_iff (bit_at x i) 1).1 (within_field x y i h ((==_iff (bit_at y i) 1).0 e))

both-Within :
    (x y a b i j : ℕ)
    → Within y x
    → Within b a
    → field y i && field b j ≡ true
    → field x i && field a j ≡ true
both-Within x y a b i j h k e = elim (Bool-cases (field y i)) [
  | inl on ↦ rw (field-Within x y i h on) (field-Within a b j k (sym (rw on refl) ∙ e))
  | inr off ↦ let never : false ≡ true = sym (rw off refl) ∙ e in absurd (cc)
]

-- In a valid policy every option that is configured is supported.
pub configured_is_supported :
    (read_msr : ℕ → ℕ) (caps p : VirtPolicy) (option : PolicyOption)
    → validate_vmx_virt_policy read_msr caps p ≡ vmx_policy_valid
    → vmx_policy_is_option_configured p option ≡ true
    → vmx_caps_is_option_supported caps option ≡ true
configured_is_supported read_msr caps p option v e =
    supported option ((validate_vmx_virt_policy_iff read_msr caps p).0 v).1 e
  where
    supported :
        (o : PolicyOption)
        → WithinCaps caps p
        → vmx_policy_is_option_configured p o ≡ true
        → vmx_caps_is_option_supported caps o ≡ true
    supported vmx_policy_procbased_ctls2 w h =
        field-Within caps.proc_ctls1 p.proc_ctls1 31 w.proc1 h
    supported vmx_policy_procbased_ctls3 w h =
        field-Within caps.proc_ctls1 p.proc_ctls1 17 w.proc1 h
    supported vmx_policy_vm_exit_ctls2 w h = field-Within caps.exit_ctls1 p.exit_ctls1 31 w.exit1 h
    supported vmx_policy_ept w h =
        both-Within caps.proc_ctls1 p.proc_ctls1 caps.proc_ctls2 p.proc_ctls2 31 1 w.proc1 w.proc2 h
    supported vmx_policy_msr_bitmap w h = field-Within caps.proc_ctls1 p.proc_ctls1 28 w.proc1 h
    supported vmx_policy_unrestricted_guest w h =
        both-Within caps.proc_ctls1 p.proc_ctls1 caps.proc_ctls2 p.proc_ctls2 31 7 w.proc1 w.proc2 h
