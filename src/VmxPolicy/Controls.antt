-- ===== src/VmxPolicy/Controls.antt =====
-- The functions of arch/x64/vmx/policy.c that read the capability registers.
use hyve_mind.Prelude.{◌==◌, if◌then◌else◌, ℕ, ◌^◌, bit_and, bit_or, Bool, true, false, not}
use hyve_mind.VmxPolicy.{
  VirtPolicy, vmx_policy_procbased_ctls2, vmx_policy_procbased_ctls3, vmx_policy_vm_exit_ctls2,
  field, u64_upper32, u64_lower32, pin_based_ctls_default1, procbased_ctls1_default1,
  exit_ctls1_default1, entry_ctls_default1, min_pin_ctls, min_proc_ctls1, min_proc_ctls2,
  min_exit_ctls1, min_entry_ctls, vmx_caps_is_option_supported, validate_control,
}

abbrev pub msrx64_ia32_vmx_basic : ℕ
msrx64_ia32_vmx_basic = 0x480

-- `(ctls.raw | allowed0) & allowed1`, the two halves of a capability register.
abbrev pub allowed0_allowed1 : ℕ → ℕ → ℕ
allowed0_allowed1 msr ctls = bit_and (bit_or ctls (u64_lower32 msr)) (u64_upper32 msr)

module _ (read_msr : ℕ → ℕ) where
  abbrev pub get_x_ctls_msr : ℕ → ℕ → ℕ
  get_x_ctls_msr true_msr msr =
      if bit_and (read_msr msrx64_ia32_vmx_basic) (2 ^ 55) == 0
      then read_msr msr
      else read_msr true_msr

  abbrev pub get_pinbased_ctls_msr : ℕ
  get_pinbased_ctls_msr = get_x_ctls_msr 0x48d 0x481

  abbrev pub get_procbased_ctls1_msr : ℕ
  get_procbased_ctls1_msr = get_x_ctls_msr 0x48e 0x482

  abbrev pub get_procbased_ctls2_msr : ℕ
  get_procbased_ctls2_msr = read_msr 0x48b

  abbrev pub get_procbased_ctls3_msr : ℕ
  get_procbased_ctls3_msr = read_msr 0x492

  abbrev pub get_vmexit_ctls1_msr : ℕ
  get_vmexit_ctls1_msr = get_x_ctls_msr 0x48f 0x483

  abbrev pub get_vmexit_ctls2_msr : ℕ
  get_vmexit_ctls2_msr = read_msr 0x493

  abbrev pub get_vmentry_ctls_msr : ℕ
  get_vmentry_ctls_msr = get_x_ctls_msr 0x490 0x484

  unfoldable pub set_reserved_pinbased_ctls : ℕ → ℕ
  set_reserved_pinbased_ctls ctls = allowed0_allowed1 get_pinbased_ctls_msr ctls

  abbrev pub set_reserved_pinbased_ctls_default1 : ℕ → ℕ
  set_reserved_pinbased_ctls_default1 ctls =
      set_reserved_pinbased_ctls (bit_or ctls pin_based_ctls_default1)

  unfoldable pub set_reserved_procbased_ctls1 : ℕ → ℕ
  set_reserved_procbased_ctls1 ctls = allowed0_allowed1 get_procbased_ctls1_msr ctls

  abbrev pub set_reserved_procbased_ctls1_default1 : ℕ → ℕ
  set_reserved_procbased_ctls1_default1 ctls =
      set_reserved_procbased_ctls1 (bit_or ctls procbased_ctls1_default1)

  unfoldable pub set_reserved_procbased_ctls2 : VirtPolicy → ℕ → ℕ
  set_reserved_procbased_ctls2 caps ctls =
      if not (vmx_caps_is_option_supported caps vmx_policy_procbased_ctls2)
      then 0
      else bit_and ctls (u64_upper32 get_procbased_ctls2_msr)

  unfoldable pub set_reserved_procbased_ctls3 : VirtPolicy → ℕ → ℕ
  set_reserved_procbased_ctls3 caps ctls =
      if not (vmx_caps_is_option_supported caps vmx_policy_procbased_ctls3)
      then 0
      else bit_and ctls get_procbased_ctls3_msr

  unfoldable pub set_reserved_vm_exit_ctls1 : ℕ → ℕ
  set_reserved_vm_exit_ctls1 ctls = allowed0_allowed1 get_vmexit_ctls1_msr ctls

  abbrev pub set_reserved_vm_exit_ctls1_default1 : ℕ → ℕ
  set_reserved_vm_exit_ctls1_default1 ctls =
      set_reserved_vm_exit_ctls1 (bit_or ctls exit_ctls1_default1)

  unfoldable pub set_reserved_vm_exit_ctls2 : VirtPolicy → ℕ → ℕ
  set_reserved_vm_exit_ctls2 caps ctls =
      if not (vmx_caps_is_option_supported caps vmx_policy_vm_exit_ctls2)
      then 0
      else bit_and ctls get_vmexit_ctls2_msr

  unfoldable pub set_reserved_vm_entry_ctls : ℕ → ℕ
  set_reserved_vm_entry_ctls ctls = allowed0_allowed1 get_vmentry_ctls_msr ctls

  abbrev pub set_reserved_vm_entry_ctls_default1 : ℕ → ℕ
  set_reserved_vm_entry_ctls_default1 ctls =
      set_reserved_vm_entry_ctls (bit_or ctls entry_ctls_default1)

  -- The parts of `init_vmx_capabilities` in its order: each fills in one control vector and returns
  -- whether it holds what is required.
  unfoldable pub init_pin_ctls : VirtPolicy → Bool × VirtPolicy
  init_pin_ctls caps =
      let ctls = set_reserved_pinbased_ctls_default1 min_pin_ctls in
      (validate_control ctls min_pin_ctls, record caps { pin_ctls = ctls })

  unfoldable pub init_proc_ctls1 : VirtPolicy → Bool × VirtPolicy
  init_proc_ctls1 caps =
      let ctls = set_reserved_procbased_ctls1_default1 min_proc_ctls1 in
      (validate_control ctls min_proc_ctls1, record caps { proc_ctls1 = ctls })

  unfoldable pub init_proc_ctls2 : VirtPolicy → Bool × VirtPolicy
  init_proc_ctls2 caps =
      let ctls = set_reserved_procbased_ctls2 caps min_proc_ctls2 in
      if field caps.proc_ctls1 31
      then (validate_control ctls min_proc_ctls2, record caps { proc_ctls2 = ctls })
      else (true, record caps { proc_ctls2 = 0 })

  unfoldable pub init_proc_ctls3 : VirtPolicy → Bool × VirtPolicy
  init_proc_ctls3 caps =
      let ctls = set_reserved_procbased_ctls3 caps 0 in
      if field caps.proc_ctls1 17
      then (validate_control ctls 0, record caps { proc_ctls3 = ctls })
      else (true, record caps { proc_ctls3 = 0 })

  unfoldable pub init_exit_ctls1 : VirtPolicy → Bool × VirtPolicy
  init_exit_ctls1 caps =
      let ctls = set_reserved_vm_exit_ctls1_default1 min_exit_ctls1 in
      (validate_control ctls min_exit_ctls1, record caps { exit_ctls1 = ctls })

  unfoldable pub init_exit_ctls2 : VirtPolicy → Bool × VirtPolicy
  init_exit_ctls2 caps =
      let ctls = set_reserved_vm_exit_ctls2 caps 0 in
      if field caps.exit_ctls1 31
      then (validate_control ctls 0, record caps { exit_ctls2 = ctls })
      else (true, record caps { exit_ctls2 = 0 })

  unfoldable pub init_entry_ctls : VirtPolicy → Bool × VirtPolicy
  init_entry_ctls caps =
      let ctls = set_reserved_vm_entry_ctls_default1 min_entry_ctls in
      (validate_control ctls min_entry_ctls, record caps { entry_ctls = ctls })

  -- `set_reserved_*` reads the capabilities of the time it is called; a policy starts as zeros.
  abbrev pub vmx_init_default_policy : VirtPolicy
  vmx_init_default_policy = record {
    pin_ctls = set_reserved_pinbased_ctls_default1 0;
    proc_ctls1 = set_reserved_procbased_ctls1_default1 0;
    proc_ctls2 = 0;
    proc_ctls3 = 0;
    exit_ctls1 = set_reserved_vm_exit_ctls1_default1 0;
    exit_ctls2 = 0;
    entry_ctls = set_reserved_vm_entry_ctls_default1 0;
  }

-- A part that runs only where those before it have returned no error.
infixl 5 ◌and_then◌
abbrev pub ◌and_then◌ : Bool × VirtPolicy → (VirtPolicy → Bool × VirtPolicy) → Bool × VirtPolicy
(true, caps) and_then part = part caps
(false, caps) and_then part = (false, caps)

-- Whether every required control is supported, and the capabilities.
unfoldable pub init_vmx_capabilities : (ℕ → ℕ) → VirtPolicy → Bool × VirtPolicy
init_vmx_capabilities read_msr caps =
    init_pin_ctls read_msr caps
    and_then init_proc_ctls1 read_msr
    and_then init_proc_ctls2 read_msr
    and_then init_proc_ctls3 read_msr
    and_then init_exit_ctls1 read_msr
    and_then init_exit_ctls2 read_msr
    and_then init_entry_ctls read_msr
