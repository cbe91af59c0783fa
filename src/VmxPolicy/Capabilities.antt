-- ===== src/VmxPolicy/Capabilities.antt =====
-- What `init_vmx_capabilities` of arch/x64/vmx/policy.c requires and leaves behind.
use hyve_mind.Prelude.{
  ==_iff, Bool-cases, and_right, and_left, bit_at, ℕ, bit_and, ◌≡◌, refl, sym, ap, ◌∙◌, inl, inr,
  Bool, true, false, ◌&&◌,
}
use hyve_mind.VmxPolicy.{
  VirtPolicy, field, u64_upper32, u64_lower32, procbased_ctls1_default1, min_pin_ctls,
  min_proc_ctls1, min_proc_ctls2, min_exit_ctls1, min_entry_ctls, validate_control,
}
use hyve_mind.VmxPolicy.Controls.{
  get_pinbased_ctls_msr, get_procbased_ctls1_msr, get_procbased_ctls2_msr, get_vmexit_ctls1_msr,
  get_vmentry_ctls_msr, set_reserved_pinbased_ctls_default1, set_reserved_procbased_ctls1,
  set_reserved_procbased_ctls1_default1, set_reserved_vm_exit_ctls1_default1,
  set_reserved_vm_entry_ctls_default1, init_pin_ctls, init_proc_ctls1, init_proc_ctls2,
  init_proc_ctls3, init_exit_ctls1, init_exit_ctls2, init_entry_ctls, ◌and_then◌,
  init_vmx_capabilities,
}
use hyve_mind.VmxPolicy.Reserved.{kept_fields, within_field}
use hyve_mind.VmxPolicy.Parts.{
  Runs, Runs-then, Runs-always, Runs-first, pin_ctls_part, proc_ctls1_part, exit_ctls1_part,
  entry_ctls_part, proc_ctls2_part, proc_ctls3_part, exit_ctls2_part,
}

module _ (read_msr : ℕ → ℕ) where
  -- The processor allows every required field.
  abbrev pub supports_required : Bool
  supports_required =
      validate_control (u64_upper32 (get_pinbased_ctls_msr read_msr)) min_pin_ctls
      && validate_control (u64_upper32 (get_procbased_ctls1_msr read_msr)) min_proc_ctls1
      && validate_control (u64_upper32 (get_procbased_ctls2_msr read_msr)) min_proc_ctls2
      && validate_control (u64_upper32 (get_vmexit_ctls1_msr read_msr)) min_exit_ctls1
      && validate_control (u64_upper32 (get_vmentry_ctls_msr read_msr)) min_entry_ctls

  unfoldable pub capabilities : VirtPolicy
  capabilities = record {
    pin_ctls = set_reserved_pinbased_ctls_default1 read_msr min_pin_ctls;
    proc_ctls1 = set_reserved_procbased_ctls1_default1 read_msr min_proc_ctls1;
    proc_ctls2 = bit_and min_proc_ctls2 (u64_upper32 (get_procbased_ctls2_msr read_msr));
    proc_ctls3 = 0;
    exit_ctls1 = set_reserved_vm_exit_ctls1_default1 read_msr min_exit_ctls1;
    exit_ctls2 = 0;
    entry_ctls = set_reserved_vm_entry_ctls_default1 read_msr min_entry_ctls;
  }

  pub secondary_on :
      validate_control (u64_upper32 (get_procbased_ctls1_msr read_msr)) min_proc_ctls1 ≡ true
      → field (capabilities.proc_ctls1) 31 ≡ true
  unfolding capabilities set_reserved_procbased_ctls1
  secondary_on e =
      let kept =
        kept_fields (u64_lower32 (get_procbased_ctls1_msr read_msr))
          (u64_upper32 (get_procbased_ctls1_msr read_msr)) min_proc_ctls1
          procbased_ctls1_default1 in
      let required =
        (==_iff (bit_and (u64_upper32 (get_procbased_ctls1_msr read_msr)) min_proc_ctls1)
            min_proc_ctls1).0
          e in
      (==_iff (bit_at (capabilities.proc_ctls1) 31) 1).1
        (within_field (capabilities.proc_ctls1) min_proc_ctls1 31 (kept ∙ required) refl)

  -- Initialization succeeds exactly where the processor allows every field that the hypervisor
  -- requires, and the capabilities are then the required and the reserved fields.
  pub init_vmx_capabilities_lem :
      (caps : VirtPolicy)
      → (supports_required ≡ true → init_vmx_capabilities read_msr caps ≡ (true, capabilities))
        × (supports_required ≡ false → (init_vmx_capabilities read_msr caps).0 ≡ false)
  unfolding init_vmx_capabilities capabilities
  init_vmx_capabilities_lem caps = (run.succeeds, run.fails)
    where
      pin : Bool
      pin = validate_control (u64_upper32 (get_pinbased_ctls_msr read_msr)) min_pin_ctls

      proc1 : Bool
      proc1 = validate_control (u64_upper32 (get_procbased_ctls1_msr read_msr)) min_proc_ctls1

      proc2 : Bool
      proc2 = validate_control (u64_upper32 (get_procbased_ctls2_msr read_msr)) min_proc_ctls2

      exit : Bool
      exit = validate_control (u64_upper32 (get_vmexit_ctls1_msr read_msr)) min_exit_ctls1

      entry : Bool
      entry = validate_control (u64_upper32 (get_vmentry_ctls_msr read_msr)) min_entry_ctls

      c1 : VirtPolicy
      c1 = record caps { pin_ctls = capabilities.pin_ctls }

      c2 : VirtPolicy
      c2 = record c1 { proc_ctls1 = capabilities.proc_ctls1 }

      c3 : VirtPolicy
      c3 = record c2 { proc_ctls2 = capabilities.proc_ctls2 }

      c4 : VirtPolicy
      c4 = record c3 { proc_ctls3 = 0 }

      c5 : VirtPolicy
      c5 = record c4 { exit_ctls1 = capabilities.exit_ctls1 }

      c6 : VirtPolicy
      c6 = record c5 { exit_ctls2 = 0 }

      run2 : Runs (init_pin_ctls read_msr caps and_then init_proc_ctls1 read_msr) (pin && proc1) c2
      run2 =
          Runs-then (init_pin_ctls read_msr caps) pin proc1 c1 c2 (init_proc_ctls1 read_msr)
            (Runs-first (init_pin_ctls read_msr caps) pin c1 (pin_ctls_part read_msr caps))
            (λ e. proc_ctls1_part read_msr c1)

      run4 :
          Runs
            (init_pin_ctls read_msr caps
              and_then init_proc_ctls1 read_msr
              and_then init_proc_ctls2 read_msr
              and_then init_proc_ctls3 read_msr)
            (pin && proc1 && proc2)
            c4
      run4 =
          Runs-always _ (pin && proc1 && proc2) c3 c4 (init_proc_ctls3 read_msr)
            (Runs-then _ (pin && proc1) proc2 c2 c3 (init_proc_ctls2 read_msr) run2
              (λ e. proc_ctls2_part read_msr c2 (secondary_on (and_right pin proc1 e))))
            (proc_ctls3_part read_msr c3)

      run : Runs (init_vmx_capabilities read_msr caps) supports_required capabilities
      run =
          Runs-then _ (pin && proc1 && proc2 && exit) entry c6 capabilities
            (init_entry_ctls read_msr)
            (Runs-always _ (pin && proc1 && proc2 && exit) c5 c6 (init_exit_ctls2 read_msr)
              (Runs-then _ (pin && proc1 && proc2) exit c4 c5 (init_exit_ctls1 read_msr) run4
                (λ e. exit_ctls1_part read_msr c4))
              (exit_ctls2_part read_msr c5))
            (λ e. entry_ctls_part read_msr c6)

  -- After a success the processor supports what is required, and the capabilities are known.
  pub initialized :
      (caps now : VirtPolicy)
      → init_vmx_capabilities read_msr caps ≡ (true, now)
      → (supports_required ≡ true) × (now ≡ capabilities)
  initialized caps now e = elim (Bool-cases supports_required) [
    | inl on ↦
        (on, ap (λ (x : Bool × VirtPolicy). x.1) (sym e ∙ (init_vmx_capabilities_lem caps).0 on))
    | inr off ↦
        let fails = sym ((init_vmx_capabilities_lem caps).1 off) in
        let ok = ap (λ (x : Bool × VirtPolicy). x.0) e in absurd (cc)
  ]

  pub secondary_enabled : supports_required ≡ true → field (capabilities.proc_ctls1) 31 ≡ true
  secondary_enabled e = secondary_on (and_right _ _ (and_left _ _ (and_left _ _ (and_left _ _ e))))
