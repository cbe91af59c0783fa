-- ===== src/VmxPolicy/Policies.antt =====
-- The capabilities and the policies that arch/x64/vmx/policy.c makes, against its own validation.
use hyve_mind.Prelude.{Bool-cases, ℕ, bit_and, ◌≡◌, refl, sym, subst, inl, inr, true}
use hyve_mind.VmxPolicy.{
  VirtPolicy, vmx_policy_valid, field, u64_upper32, u64_lower32, pin_based_ctls_default1,
  procbased_ctls1_default1, exit_ctls1_default1, entry_ctls_default1, min_pin_ctls, min_proc_ctls1,
  min_proc_ctls2, min_exit_ctls1, min_entry_ctls,
}
use hyve_mind.VmxPolicy.Controls.{
  get_pinbased_ctls_msr, get_procbased_ctls1_msr, get_procbased_ctls2_msr, get_procbased_ctls3_msr,
  get_vmexit_ctls1_msr, get_vmexit_ctls2_msr, get_vmentry_ctls_msr, set_reserved_pinbased_ctls,
  set_reserved_procbased_ctls1, set_reserved_procbased_ctls2, set_reserved_procbased_ctls3,
  set_reserved_vm_exit_ctls1, set_reserved_vm_exit_ctls2, set_reserved_vm_entry_ctls,
  vmx_init_default_policy, init_vmx_capabilities,
}
use hyve_mind.VmxPolicy.Reserved.{
  and_self, reserved_idem, allowed_idem, reserved_mono, and_zero, zero_and,
}
use hyve_mind.VmxPolicy.Capabilities.{capabilities, initialized, secondary_enabled}
use hyve_mind.VmxPolicy.Validation.{validate_vmx_virt_policy}
use hyve_mind.VmxPolicy.Valid.{WithinCaps, InactiveZero, ReservedKept, validate_vmx_virt_policy_iff}

-- A capability register allows a field to be one where it demands it.
abbrev pub IsControlMsr : ℕ → Type 0
IsControlMsr msr = bit_and (u64_lower32 msr) (u64_upper32 msr) ≡ u64_lower32 msr

module _ (read_msr : ℕ → ℕ) (pin_msr : IsControlMsr (get_pinbased_ctls_msr read_msr))
    (proc_msr : IsControlMsr (get_procbased_ctls1_msr read_msr))
    (exit_msr : IsControlMsr (get_vmexit_ctls1_msr read_msr))
    (entry_msr : IsControlMsr (get_vmentry_ctls_msr read_msr)) where
  kept_ctls2 :
      (c : VirtPolicy) (x : ℕ)
      → let u = u64_upper32 (get_procbased_ctls2_msr read_msr) in
        field c.proc_ctls1 31 ≡ true
        → bit_and x u ≡ set_reserved_procbased_ctls2 read_msr c (bit_and x u)
  unfolding set_reserved_procbased_ctls2
  kept_ctls2 c x on = rw on (allowed_idem (u64_upper32 (get_procbased_ctls2_msr read_msr)) x)

  zero_ctls2 : (c : VirtPolicy) → 0 ≡ set_reserved_procbased_ctls2 read_msr c 0
  unfolding set_reserved_procbased_ctls2
  zero_ctls2 c = elim (Bool-cases (field c.proc_ctls1 31)) [
    | inl on ↦ rw (on, zero_and (u64_upper32 (get_procbased_ctls2_msr read_msr))) refl
    | inr off ↦ rw off refl
  ]

  zero_ctls3 : (c : VirtPolicy) → 0 ≡ set_reserved_procbased_ctls3 read_msr c 0
  unfolding set_reserved_procbased_ctls3
  zero_ctls3 c = elim (Bool-cases (field c.proc_ctls1 17)) [
    | inl on ↦ rw (on, zero_and (get_procbased_ctls3_msr read_msr)) refl
    | inr off ↦ rw off refl
  ]

  zero_exit2 : (c : VirtPolicy) → 0 ≡ set_reserved_vm_exit_ctls2 read_msr c 0
  unfolding set_reserved_vm_exit_ctls2
  zero_exit2 c = elim (Bool-cases (field c.exit_ctls1 31)) [
    | inl on ↦ rw (on, zero_and (get_vmexit_ctls2_msr read_msr)) refl
    | inr off ↦ rw off refl
  ]

  kept_pin :
      (x : ℕ)
      → set_reserved_pinbased_ctls read_msr x
        ≡ set_reserved_pinbased_ctls read_msr (set_reserved_pinbased_ctls read_msr x)
  unfolding set_reserved_pinbased_ctls
  kept_pin x =
      reserved_idem (u64_lower32 (get_pinbased_ctls_msr read_msr))
        (u64_upper32 (get_pinbased_ctls_msr read_msr)) x pin_msr

  kept_proc1 :
      (x : ℕ)
      → set_reserved_procbased_ctls1 read_msr x
        ≡ set_reserved_procbased_ctls1 read_msr (set_reserved_procbased_ctls1 read_msr x)
  unfolding set_reserved_procbased_ctls1
  kept_proc1 x =
      reserved_idem (u64_lower32 (get_procbased_ctls1_msr read_msr))
        (u64_upper32 (get_procbased_ctls1_msr read_msr)) x proc_msr

  kept_exit1 :
      (x : ℕ)
      → set_reserved_vm_exit_ctls1 read_msr x
        ≡ set_reserved_vm_exit_ctls1 read_msr (set_reserved_vm_exit_ctls1 read_msr x)
  unfolding set_reserved_vm_exit_ctls1
  kept_exit1 x =
      reserved_idem (u64_lower32 (get_vmexit_ctls1_msr read_msr))
        (u64_upper32 (get_vmexit_ctls1_msr read_msr)) x exit_msr

  kept_entry :
      (x : ℕ)
      → set_reserved_vm_entry_ctls read_msr x
        ≡ set_reserved_vm_entry_ctls read_msr (set_reserved_vm_entry_ctls read_msr x)
  unfolding set_reserved_vm_entry_ctls
  kept_entry x =
      reserved_idem (u64_lower32 (get_vmentry_ctls_msr read_msr))
        (u64_upper32 (get_vmentry_ctls_msr read_msr)) x entry_msr

  capabilities_kept :
      field (capabilities read_msr).proc_ctls1 31 ≡ true
      → ReservedKept read_msr (capabilities read_msr) (capabilities read_msr)
  unfolding capabilities
  capabilities_kept on = record {
    pin = kept_pin _;
    proc1 = kept_proc1 _;
    proc2 = kept_ctls2 (capabilities read_msr) min_proc_ctls2 on;
    proc3 = zero_ctls3 (capabilities read_msr);
    exit1 = kept_exit1 _;
    exit2 = zero_exit2 (capabilities read_msr);
    entry = kept_entry _;
  }

  default_kept : (c : VirtPolicy) → ReservedKept read_msr c (vmx_init_default_policy read_msr)
  default_kept c = record {
    pin = kept_pin _;
    proc1 = kept_proc1 _;
    proc2 = zero_ctls2 c;
    proc3 = zero_ctls3 c;
    exit1 = kept_exit1 _;
    exit2 = zero_exit2 c;
    entry = kept_entry _;
  }

  -- The capabilities of a processor that holds what is required are themselves a valid policy.
  pub validate_vmx_virt_policy-init_vmx_capabilities :
      (old now : VirtPolicy)
      → init_vmx_capabilities read_msr old ≡ (true, now)
      → validate_vmx_virt_policy read_msr now now ≡ vmx_policy_valid
  unfolding capabilities
  validate_vmx_virt_policy-init_vmx_capabilities old now e =
      let (required, known) = initialized read_msr old now e in
      let on = secondary_enabled read_msr required in
      let within : WithinCaps (capabilities read_msr) (capabilities read_msr) = record {
        pin = and_self _;
        proc1 = and_self _;
        proc2 = and_self _;
        proc3 = and_self _;
        exit1 = and_self _;
        exit2 = and_self _;
        entry = and_self _;
      } in
      let inactive : InactiveZero (capabilities read_msr) = record {
        secondary = inl on;
        tertiary = inr refl;
        exit = inr refl;
      } in
      subst (λ (c : VirtPolicy). validate_vmx_virt_policy read_msr c c ≡ vmx_policy_valid)
        (sym known)
        ((validate_vmx_virt_policy_iff read_msr (capabilities read_msr) (capabilities read_msr)).1
          (capabilities_kept on, within, inactive))

  default_within : WithinCaps (capabilities read_msr) (vmx_init_default_policy read_msr)
  unfolding capabilities set_reserved_pinbased_ctls set_reserved_procbased_ctls1
      set_reserved_vm_exit_ctls1 set_reserved_vm_entry_ctls
  default_within = record {
    pin =
        reserved_mono (u64_lower32 (get_pinbased_ctls_msr read_msr))
          (u64_upper32 (get_pinbased_ctls_msr read_msr)) min_pin_ctls pin_based_ctls_default1;
    proc1 =
        reserved_mono (u64_lower32 (get_procbased_ctls1_msr read_msr))
          (u64_upper32 (get_procbased_ctls1_msr read_msr)) min_proc_ctls1 procbased_ctls1_default1;
    proc2 = and_zero _;
    proc3 = refl;
    exit1 =
        reserved_mono (u64_lower32 (get_vmexit_ctls1_msr read_msr))
          (u64_upper32 (get_vmexit_ctls1_msr read_msr)) min_exit_ctls1 exit_ctls1_default1;
    exit2 = refl;
    entry =
        reserved_mono (u64_lower32 (get_vmentry_ctls_msr read_msr))
          (u64_upper32 (get_vmentry_ctls_msr read_msr)) min_entry_ctls entry_ctls_default1;
  }

  -- The default policy is valid on every processor that the capabilities are initialized on.
  pub validate_vmx_virt_policy-vmx_init_default_policy :
      (old now : VirtPolicy)
      → init_vmx_capabilities read_msr old ≡ (true, now)
      → validate_vmx_virt_policy read_msr now (vmx_init_default_policy read_msr) ≡ vmx_policy_valid
  validate_vmx_virt_policy-vmx_init_default_policy old now e =
      let (required, known) = initialized read_msr old now e in
      let policy = vmx_init_default_policy read_msr in
      let inactive : InactiveZero (vmx_init_default_policy read_msr) = record {
        secondary = inr refl;
        tertiary = inr refl;
        exit = inr refl;
      } in
      subst (λ (c : VirtPolicy). validate_vmx_virt_policy read_msr c policy ≡ vmx_policy_valid)
        (sym known)
        ((validate_vmx_virt_policy_iff read_msr (capabilities read_msr) policy).1
          (default_kept (capabilities read_msr), default_within, inactive))
