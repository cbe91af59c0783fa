-- ===== src/VmConfig/Config.antt =====
-- The configurations that vm_config.c makes of the requests.
--
-- The vector of the configurations has the capacity of the number of requests, which is all that is
-- pushed onto it. The allocations of strdup_nt succeed.
use hyve_mind.Prelude.{
  if◌then◌else◌, ℕ, zero, suc, ◌*◌, ◌%◌, ◌^◌, Bool, true, false, Option, none, some, List, [], ◌∷◌,
  ◌++◌,
}
use hyve_mind.Radix.Strings.{same_key}
use hyve_mind.VmConfig.{
  GuestType, guest_unspecified, mirror_vmm, linux_direct_boot_32bit, MemGranularity, bytes, kb, mb,
  gb, VmRequest,
}

-- What the code does: it returns, it reads a string at NULL, or `die_reason` halts the machine.
pub data Run {ℓ} (A : Type ℓ) : Type ℓ where
  ok : A → Run A
  null_read : Run A
  died : Run A

abbrev pub and_then {ℓ κ} : {A : Type ℓ} {B : Type κ} → Run A → (A → Run B) → Run B
and_then (ok a) f = f a
and_then null_read f = null_read
and_then died f = died

-- A module of the boot loader: its string, its address and its size.
pub record LimineFile : Type 0 where
  pub string : List ℕ
  pub address : ℕ
  pub size : ℕ

pub record GuestUartInfo : Type 0 where
  pub configured : Bool
  pub host_base_port : ℕ
  pub host_irq : ℕ
  pub vm_irq : ℕ

pub record FileInfo : Type 0 where
  pub addr : ℕ
  pub size : ℕ

pub record VmConfigEntry : Type 0 where
  pub name : Option (List ℕ)
  pub guest_type : GuestType
  pub nr_vcpus : ℕ
  pub mem_size : ℕ
  pub granularity : MemGranularity
  pub bzimage : FileInfo
  pub initramfs : FileInfo
  pub cmdline_str : Option (List ℕ)
  pub uart_info : GuestUartInfo

abbrev pub uart_of : ℕ → ℕ → GuestUartInfo
uart_of port irq = record { configured = true; host_base_port = port; host_irq = irq; vm_irq = 4 }

abbrev pub no_uart : GuestUartInfo
no_uart = record { configured = false; host_base_port = 0; host_irq = 0; vm_irq = 0 }

-- `get_serial_dev_info`, with the table `serial_devices`.
abbrev pub get_serial_dev_info : ℕ → GuestUartInfo
get_serial_dev_info zero = no_uart
get_serial_dev_info (suc zero) = uart_of 0x3f8 4
get_serial_dev_info (suc (suc zero)) = uart_of 0x2f8 5
get_serial_dev_info (suc (suc (suc n))) = uart_of 0x3e8 6

-- The loop compares the name with the string of each module; `none` is NULL.
unfoldable pub get_limine_file : List LimineFile → Option (List ℕ) → Run (Option LimineFile)
get_limine_file [] file_name = ok none
get_limine_file (m ∷ mods) none = null_read
get_limine_file (m ∷ mods) (some s) =
    let further = get_limine_file mods (some s) in
    if same_key s m.string then ok (some m) else further

-- The length of the string is read first.
abbrev pub strdup_nt_of : Option (List ℕ) → Run (Option (List ℕ))
strdup_nt_of none = null_read
strdup_nt_of (some s) = ok (some s)

abbrev pub info_of : LimineFile → FileInfo
info_of f = record { addr = f.address; size = f.size }

-- What `get_linux_boot_info` does once it has searched for the initramfs, and for the bzImage.
abbrev pub with_initramfs :
    VmRequest → VmConfigEntry → Option LimineFile → Run (Bool × VmConfigEntry)
with_initramfs request config none = ok (false, config)
with_initramfs request config (some i) =
    and_then (strdup_nt_of request.cmdline_str)
      (λ cmdline. ok (true, record config { initramfs = info_of i; cmdline_str = cmdline }))

abbrev pub with_bzimage :
    List LimineFile → VmRequest → VmConfigEntry → Option LimineFile → Run (Bool × VmConfigEntry)
with_bzimage mods request config none = ok (false, config)
with_bzimage mods request config (some b) =
    and_then (get_limine_file mods request.initramfs_name)
      (with_initramfs request (record config { bzimage = info_of b }))

abbrev pub get_linux_boot_info :
    List LimineFile → VmRequest → VmConfigEntry → Run (Bool × VmConfigEntry)
get_linux_boot_info mods request config =
    and_then (get_limine_file mods request.bzimage_name) (with_bzimage mods request config)

abbrev pub boot_info :
    GuestType → List LimineFile → VmRequest → VmConfigEntry → Run (Bool × VmConfigEntry)
boot_info guest_unspecified mods request config = died
boot_info mirror_vmm mods request config = ok (true, config)
boot_info linux_direct_boot_32bit mods request config = get_linux_boot_info mods request config

abbrev pub base_config : VmRequest → VmConfigEntry
base_config req = record {
  name = req.name;
  guest_type = req.guest_type;
  nr_vcpus = req.vcpus;
  mem_size = req.mem_size;
  granularity = req.granularity;
  bzimage = record { addr = 0; size = 0 };
  initramfs = record { addr = 0; size = 0 };
  cmdline_str = none;
  uart_info = get_serial_dev_info req.serial_id;
}

unfoldable pub vm_req_to_vm_config : List LimineFile → VmRequest → Run (Bool × VmConfigEntry)
vm_req_to_vm_config mods req =
    and_then (strdup_nt_of req.name) (λ name. boot_info req.guest_type mods req (base_config req))

-- The loop of `get_vm_configs`, with the configurations that it has pushed so far.
unfoldable pub convert_requests :
    List LimineFile → List VmRequest → List VmConfigEntry → Run (Option (List VmConfigEntry))
convert_requests mods [] configs = ok (some configs)
convert_requests mods (req ∷ reqs) configs = and_then (vm_req_to_vm_config mods req) (λ converted.
    let (success, config) = converted in
    let further = convert_requests mods reqs (configs ++ config ∷ []) in
    if success then further else ok none)

-- `get_vm_configs` on the requests of the file, or NULL where those could not be read.
unfoldable pub get_vm_configs :
    List LimineFile → Option (List VmRequest) → Run (Option (List VmConfigEntry))
get_vm_configs mods none = ok none
get_vm_configs mods (some []) = ok none
get_vm_configs mods (some (req ∷ reqs)) = convert_requests mods (req ∷ reqs) []

-- The memory size of a configuration in bytes.
abbrev pub req_bytes : MemGranularity → ℕ → ℕ
req_bytes bytes mem_size = mem_size
req_bytes kb mem_size = mem_size * 2 ^ 10 % 2 ^ 64
req_bytes mb mem_size = mem_size * 2 ^ 20 % 2 ^ 64
req_bytes gb mem_size = mem_size * 2 ^ 30 % 2 ^ 64

unfoldable pub get_vm_config_req_bytes : VmConfigEntry → ℕ
get_vm_config_req_bytes config = req_bytes config.granularity config.mem_size
