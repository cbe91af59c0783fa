-- ===== src/VmxPolicy/Parts.antt =====
-- The parts of `init_vmx_capabilities` of arch/x64/vmx/policy.c, one control vector each.
use hyve_mind.Prelude.{
  Bool-cases, ℕ, bit_and, ◌≡◌, refl, ap, ◌∙◌, inl, inr, Bool, true, false, ◌&&◌,
}
use hyve_mind.VmxPolicy.{
  VirtPolicy, field, u64_upper32, u64_lower32, pin_based_ctls_default1, procbased_ctls1_default1,
  exit_ctls1_default1, entry_ctls_default1, min_pin_ctls, min_proc_ctls1, min_proc_ctls2,
  min_exit_ctls1, min_entry_ctls, validate_control,
}
use hyve_mind.VmxPolicy.Controls.{
  get_pinbased_ctls_msr, get_procbased_ctls1_msr, get_procbased_ctls2_msr, get_procbased_ctls3_msr,
  get_vmexit_ctls1_msr, get_vmexit_ctls2_msr, get_vmentry_ctls_msr, set_reserved_pinbased_ctls,
  set_reserved_pinbased_ctls_default1, set_reserved_procbased_ctls1,
  set_reserved_procbased_ctls1_default1, set_reserved_procbased_ctls2, set_reserved_procbased_ctls3,
  set_reserved_vm_exit_ctls1, set_reserved_vm_exit_ctls1_default1, set_reserved_vm_exit_ctls2,
  set_reserved_vm_entry_ctls, set_reserved_vm_entry_ctls_default1, init_pin_ctls, init_proc_ctls1,
  init_proc_ctls2, init_proc_ctls3, init_exit_ctls1, init_exit_ctls2, init_entry_ctls, ◌and_then◌,
}
use hyve_mind.VmxPolicy.Reserved.{kept_fields, kept_allowed, zero_and}

-- A run that succeeds with `c` if `s`, and otherwise fails.
pub record Runs (a : Bool × VirtPolicy) (s : Bool) (c : VirtPolicy) : Type 0 where
  pub succeeds : s ≡ true → a ≡ (true, c)
  pub fails : s ≡ false → a.0 ≡ false

pub Runs-then :
    (a : Bool × VirtPolicy) (s s' : Bool) (c c' : VirtPolicy) (f : VirtPolicy → Bool × VirtPolicy)
    → Runs a s c
    → (s ≡ true → f c ≡ (s', c'))
    → Runs (a and_then f) (s && s') c'
Runs-then a true true c c' f r h = record {
  succeeds = λ e. ap (λ (x : Bool × VirtPolicy). x and_then f) (r.succeeds refl) ∙ h refl;
  fails = λ e. cc;
}
Runs-then a true false c c' f r h = record {
  succeeds = λ e. cc;
  fails = λ e.
      ap (λ (x : Bool × VirtPolicy). (x and_then f).0) (r.succeeds refl)
      ∙ ap (λ (x : Bool × VirtPolicy). x.0) (h refl);
}
Runs-then (false, b) false s' c c' f r h = record { succeeds = λ e. cc; fails = λ e. refl }
Runs-then (true, b) false s' c c' f r h = let e = r.fails refl in absurd (cc)

pub Runs-always :
    (a : Bool × VirtPolicy) (s : Bool) (c c' : VirtPolicy) (f : VirtPolicy → Bool × VirtPolicy)
    → Runs a s c
    → f c ≡ (true, c')
    → Runs (a and_then f) s c'
Runs-always a s c c' f r h = record {
  succeeds = λ e. ap (λ (x : Bool × VirtPolicy). x and_then f) (r.succeeds e) ∙ h;
  fails = λ e. still_fails a (r.fails e);
}
  where
    still_fails : (b : Bool × VirtPolicy) → b.0 ≡ false → (b and_then f).0 ≡ false
    still_fails (true, x) e = cc
    still_fails (false, x) e = refl

pub Runs-first : (a : Bool × VirtPolicy) (s : Bool) (c : VirtPolicy) → a ≡ (s, c) → Runs a s c
Runs-first a s c e = record {
  succeeds = λ on. e ∙ ap (λ (b : Bool). (b, c)) on;
  fails = λ off. ap (λ (x : Bool × VirtPolicy). x.0) e ∙ off;
}

module _ (read_msr : ℕ → ℕ) where
  pub pin_ctls_part :
      (c : VirtPolicy)
      → init_pin_ctls read_msr c ≡ (
        validate_control (u64_upper32 (get_pinbased_ctls_msr read_msr)) min_pin_ctls,
        record c { pin_ctls = set_reserved_pinbased_ctls_default1 read_msr min_pin_ctls },
      )
  unfolding init_pin_ctls set_reserved_pinbased_ctls
  pin_ctls_part c =
      rw
        (kept_fields (u64_lower32 (get_pinbased_ctls_msr read_msr))
          (u64_upper32 (get_pinbased_ctls_msr read_msr)) min_pin_ctls pin_based_ctls_default1)
        refl

  pub proc_ctls1_part :
      (c : VirtPolicy)
      → init_proc_ctls1 read_msr c ≡ (
        validate_control (u64_upper32 (get_procbased_ctls1_msr read_msr)) min_proc_ctls1,
        record c { proc_ctls1 = set_reserved_procbased_ctls1_default1 read_msr min_proc_ctls1 },
      )
  unfolding init_proc_ctls1 set_reserved_procbased_ctls1
  proc_ctls1_part c =
      rw
        (kept_fields (u64_lower32 (get_procbased_ctls1_msr read_msr))
          (u64_upper32 (get_procbased_ctls1_msr read_msr)) min_proc_ctls1 procbased_ctls1_default1)
        refl

  pub exit_ctls1_part :
      (c : VirtPolicy)
      → init_exit_ctls1 read_msr c ≡ (
        validate_control (u64_upper32 (get_vmexit_ctls1_msr read_msr)) min_exit_ctls1,
        record c { exit_ctls1 = set_reserved_vm_exit_ctls1_default1 read_msr min_exit_ctls1 },
      )
  unfolding init_exit_ctls1 set_reserved_vm_exit_ctls1
  exit_ctls1_part c =
      rw
        (kept_fields (u64_lower32 (get_vmexit_ctls1_msr read_msr))
          (u64_upper32 (get_vmexit_ctls1_msr read_msr)) min_exit_ctls1 exit_ctls1_default1)
        refl

  pub entry_ctls_part :
      (c : VirtPolicy)
      → init_entry_ctls read_msr c ≡ (
        validate_control (u64_upper32 (get_vmentry_ctls_msr read_msr)) min_entry_ctls,
        record c { entry_ctls = set_reserved_vm_entry_ctls_default1 read_msr min_entry_ctls },
      )
  unfolding init_entry_ctls set_reserved_vm_entry_ctls
  entry_ctls_part c =
      rw
        (kept_fields (u64_lower32 (get_vmentry_ctls_msr read_msr))
          (u64_upper32 (get_vmentry_ctls_msr read_msr)) min_entry_ctls entry_ctls_default1)
        refl

  pub proc_ctls2_part :
      (c : VirtPolicy)
      → field c.proc_ctls1 31 ≡ true
      → init_proc_ctls2 read_msr c ≡ (
        validate_control (u64_upper32 (get_procbased_ctls2_msr read_msr)) min_proc_ctls2,
        record c {
          proc_ctls2 = bit_and min_proc_ctls2 (u64_upper32 (get_procbased_ctls2_msr read_msr));
        },
      )
  unfolding init_proc_ctls2 set_reserved_procbased_ctls2
  proc_ctls2_part c on =
      rw (on, kept_allowed (u64_upper32 (get_procbased_ctls2_msr read_msr)) min_proc_ctls2) refl

  -- No tertiary control is required, and none is enabled.
  pub proc_ctls3_part :
      (c : VirtPolicy) → init_proc_ctls3 read_msr c ≡ (true, record c { proc_ctls3 = 0 })
  unfolding init_proc_ctls3 set_reserved_procbased_ctls3
  proc_ctls3_part c = elim (Bool-cases (field c.proc_ctls1 17)) [
    | inl on ↦ rw (on, zero_and (get_procbased_ctls3_msr read_msr)) refl
    | inr off ↦ rw off refl
  ]

  pub exit_ctls2_part :
      (c : VirtPolicy) → init_exit_ctls2 read_msr c ≡ (true, record c { exit_ctls2 = 0 })
  unfolding init_exit_ctls2 set_reserved_vm_exit_ctls2
  exit_ctls2_part c = elim (Bool-cases (field c.exit_ctls1 31)) [
    | inl on ↦ rw (on, zero_and (get_vmexit_ctls2_msr read_msr)) refl
    | inr off ↦ rw off refl
  ]
