-- ===== src/VmxPolicy/Valid.antt =====
-- What it takes to pass the validation of arch/x64/vmx/policy.c.
use hyve_mind.Prelude.{
  ◌==◌, if◌then◌else◌, ℕ, ◌≡◌, refl, sym, ap, ◌∙◌, ◌↔◌, ◌⊎◌, inl, inr, Bool, true, false, not, ◌&&◌,
  arith,
}
use hyve_mind.VmxPolicy.{
  VirtPolicy, PolicyVrfyStatus, vmx_policy_valid, vmx_policy_invalid,
  vmx_policy_reserved_field_configured, vmx_policy_invalid_option_set,
  vmx_policy_unsupported_ctl_activated, field, validate_control,
}
use hyve_mind.VmxPolicy.Controls.{
  set_reserved_pinbased_ctls, set_reserved_procbased_ctls1, set_reserved_procbased_ctls2,
  set_reserved_procbased_ctls3, set_reserved_vm_exit_ctls1, set_reserved_vm_exit_ctls2,
  set_reserved_vm_entry_ctls,
}
use hyve_mind.VmxPolicy.Validation.{
  policy_validates_against_capabilities, policy_validates_against_default_values, is_valid,
  validate_vmx_virt_policy,
}
use hyve_mind.VmxPolicy.Reserved.{Within, and_zero}

-- A check that leads to an error was passed by a valid policy.
passed :
    (bad : PolicyVrfyStatus) (c : Bool) (rest : PolicyVrfyStatus)
    → is_valid bad ≡ false
    → (if c then bad else rest) ≡ vmx_policy_valid
    → (c ≡ false) × (rest ≡ vmx_policy_valid)
passed bad true rest h e = let b = sym (ap is_valid e) ∙ h in cc
passed bad false rest h e = (refl, e)

control-Within : (x y : ℕ) → not (validate_control x y) ≡ false → Within y x
control-Within x y e = ground arith

inactive-Within :
    (on : Bool) (x y : ℕ)
    → (on ≡ true) ⊎ (y ≡ 0)
    → on && not (validate_control x y) ≡ false
    → Within y x
inactive-Within on x y (inl e) h = ground arith
inactive-Within on x y (inr e) h = rw e (and_zero x)

or_zero : (on : Bool) (y : ℕ) → not on && not (y == 0) ≡ false → (on ≡ true) ⊎ (y ≡ 0)
or_zero true y e = inl refl
or_zero false y e = inr (ground arith)

zero_or : (on : Bool) (y : ℕ) → (on ≡ true) ⊎ (y ≡ 0) → not on && not (y == 0) ≡ false
zero_or on y (inl e) = rw e refl
zero_or true y (inr e) = refl
zero_or false y (inr e) = rw e refl

is_valid_iff : (s : PolicyVrfyStatus) → not (is_valid s) ≡ false → s ≡ vmx_policy_valid
is_valid_iff vmx_policy_valid e = refl
is_valid_iff vmx_policy_invalid e = cc
is_valid_iff vmx_policy_reserved_field_configured e = cc
is_valid_iff vmx_policy_invalid_option_set e = cc
is_valid_iff vmx_policy_unsupported_ctl_activated e = cc

-- A policy that configures only what the capabilities hold.
pub record WithinCaps (caps p : VirtPolicy) : Type 0 where
  pub pin : Within p.pin_ctls caps.pin_ctls
  pub proc1 : Within p.proc_ctls1 caps.proc_ctls1
  pub proc2 : Within p.proc_ctls2 caps.proc_ctls2
  pub proc3 : Within p.proc_ctls3 caps.proc_ctls3
  pub exit1 : Within p.exit_ctls1 caps.exit_ctls1
  pub exit2 : Within p.exit_ctls2 caps.exit_ctls2
  pub entry : Within p.entry_ctls caps.entry_ctls

-- A policy that configures no control vector that it does not activate.
pub record InactiveZero (p : VirtPolicy) : Type 0 where
  pub secondary : (field p.proc_ctls1 31 ≡ true) ⊎ (p.proc_ctls2 ≡ 0)
  pub tertiary : (field p.proc_ctls1 17 ≡ true) ⊎ (p.proc_ctls3 ≡ 0)
  pub exit : (field p.exit_ctls1 31 ≡ true) ⊎ (p.exit_ctls2 ≡ 0)

module _ (read_msr : ℕ → ℕ) where
  -- A policy that sets every reserved field as the processor requires it.
  pub record ReservedKept (caps p : VirtPolicy) : Type 0 where
    pub pin : p.pin_ctls ≡ set_reserved_pinbased_ctls read_msr p.pin_ctls
    pub proc1 : p.proc_ctls1 ≡ set_reserved_procbased_ctls1 read_msr p.proc_ctls1
    pub proc2 : p.proc_ctls2 ≡ set_reserved_procbased_ctls2 read_msr caps p.proc_ctls2
    pub proc3 : p.proc_ctls3 ≡ set_reserved_procbased_ctls3 read_msr caps p.proc_ctls3
    pub exit1 : p.exit_ctls1 ≡ set_reserved_vm_exit_ctls1 read_msr p.exit_ctls1
    pub exit2 : p.exit_ctls2 ≡ set_reserved_vm_exit_ctls2 read_msr caps p.exit_ctls2
    pub entry : p.entry_ctls ≡ set_reserved_vm_entry_ctls read_msr p.entry_ctls

  kept_of_valid :
      (caps p : VirtPolicy)
      → policy_validates_against_default_values read_msr caps p ≡ vmx_policy_valid
      → ReservedKept caps p
  unfolding policy_validates_against_default_values
  kept_of_valid caps p e = record {
    pin = ground arith;
    proc1 = ground arith;
    proc2 = ground arith;
    proc3 = ground arith;
    exit1 = ground arith;
    exit2 = ground arith;
    entry = ground arith;
  }

  valid_of_kept :
      (caps p : VirtPolicy)
      → ReservedKept caps p
      → policy_validates_against_default_values read_msr caps p ≡ vmx_policy_valid
  unfolding policy_validates_against_default_values
  valid_of_kept caps p r =
      let e1 = r.pin in
      let e2 = r.proc1 in
      let e3 = r.proc2 in
      let e4 = r.proc3 in let e5 = r.exit1 in let e6 = r.exit2 in let e7 = r.entry in ground arith

  within_of_valid :
      (caps p : VirtPolicy)
      → policy_validates_against_capabilities caps p ≡ vmx_policy_valid
      → InactiveZero p
      → WithinCaps caps p
  unfolding policy_validates_against_capabilities
  within_of_valid caps p e z =
      let bad = vmx_policy_invalid_option_set in
      let (b1, r1) = passed bad _ _ refl e in
      let (b2, r2) = passed bad _ _ refl r1 in
      let (b3, r3) = passed bad _ _ refl r2 in
      let (b4, r4) = passed bad _ _ refl r3 in
      let (b5, r5) = passed bad _ _ refl r4 in
      let (b6, r6) = passed bad _ _ refl r5 in
      let (b7, r7) = passed bad _ _ refl r6 in
      record {
        pin = control-Within caps.pin_ctls p.pin_ctls b1;
        proc1 = control-Within caps.proc_ctls1 p.proc_ctls1 b2;
        proc2 = inactive-Within (field p.proc_ctls1 31) caps.proc_ctls2 p.proc_ctls2 z.secondary b3;
        proc3 = inactive-Within (field p.proc_ctls1 17) caps.proc_ctls3 p.proc_ctls3 z.tertiary b4;
        exit1 = control-Within caps.exit_ctls1 p.exit_ctls1 b5;
        exit2 = inactive-Within (field p.exit_ctls1 31) caps.exit_ctls2 p.exit_ctls2 z.exit b6;
        entry = control-Within caps.entry_ctls p.entry_ctls b7;
      }

  valid_of_within :
      (caps p : VirtPolicy)
      → WithinCaps caps p
      → policy_validates_against_capabilities caps p ≡ vmx_policy_valid
  unfolding policy_validates_against_capabilities
  valid_of_within caps p r =
      let e1 = r.pin in
      let e2 = r.proc1 in
      let e3 = r.proc2 in
      let e4 = r.proc3 in let e5 = r.exit1 in let e6 = r.exit2 in let e7 = r.entry in ground arith

  -- A policy is valid exactly where it keeps the reserved fields, stays within the capabilities and
  -- leaves every control vector that it does not activate at zero.
  pub validate_vmx_virt_policy_iff :
      (caps p : VirtPolicy)
      → (validate_vmx_virt_policy read_msr caps p ≡ vmx_policy_valid)
        ↔ (ReservedKept caps p × WithinCaps caps p × InactiveZero p)
  unfolding validate_vmx_virt_policy
  validate_vmx_virt_policy_iff caps p = (
    λ e.
        let (b1, r1) = passed vmx_policy_invalid _ _ refl e in
        let (b2, r2) = passed vmx_policy_invalid _ _ refl r1 in
        let (b3, r3) = passed vmx_policy_invalid _ _ refl r2 in
        let (b4, r4) = passed vmx_policy_invalid _ _ refl r3 in
        let (b5, r5) = passed vmx_policy_invalid _ _ refl r4 in
        let inactive : InactiveZero p = record {
          secondary = or_zero _ _ b3;
          tertiary = or_zero _ _ b4;
          exit = or_zero _ _ b5;
        } in
        (
          kept_of_valid caps p (is_valid_iff _ b1),
          within_of_valid caps p (is_valid_iff _ b2) inactive,
          inactive,
        ),
    λ (kept, within, inactive).
        let e1 = valid_of_kept caps p kept in
        let e2 = valid_of_within caps p within in
        let e3 = zero_or (field p.proc_ctls1 31) p.proc_ctls2 inactive.secondary in
        let e4 = zero_or (field p.proc_ctls1 17) p.proc_ctls3 inactive.tertiary in
        let e5 = zero_or (field p.exit_ctls1 31) p.exit_ctls2 inactive.exit in
        rw (e1, e2, e3, e4, e5) refl,
  )
