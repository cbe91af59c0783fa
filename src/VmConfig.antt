-- ===== src/VmConfig.antt =====
-- The parser of the virtual machines' configuration file: vm_config.c, on the tokens that
-- lib/mem_file.c finds.
--
-- A string is the list of its characters before the NUL. `seek_next_token` is not called here: its
-- results, one after another, are the input of the parser, and the end of the list is SEEK_OOM. A copy
-- of a string always has its memory.
pub mod Values
pub mod Parser
pub mod Induction
pub mod Requests
pub mod Devices
pub mod Keys
pub mod Config
pub mod Files
pub mod Booting
pub mod Cmdline
pub mod Sizes
mod Tests
use hyve_mind.Prelude.{
  ◌==◌, codes, ℕ, Bool, true, false, not, ◌&&◌, Option, none, some, List, [], ◌∷◌,
}

pub data GuestType : Type 0 where
  guest_unspecified : GuestType
  mirror_vmm : GuestType
  linux_direct_boot_32bit : GuestType

pub data MemGranularity : Type 0 where
  bytes : MemGranularity
  kb : MemGranularity
  mb : MemGranularity
  gb : MemGranularity

pub data ConfigKey : Type 0 where
  config_vm_name_key : ConfigKey
  config_vm_type_key : ConfigKey
  config_vm_vcpus_key : ConfigKey
  config_vm_mem_size_key : ConfigKey
  config_vm_mem_granularity_key : ConfigKey
  config_vm_boot_linux_bzimage_key : ConfigKey
  config_vm_boot_linux_initramfs_key : ConfigKey
  config_vm_boot_linux_cmdline_key : ConfigKey
  config_vm_dev_serial_key : ConfigKey

abbrev pub config_key_strings : List (List ℕ)
config_key_strings =
    codes "vm.name"
    ∷ codes "vm.type"
    ∷ codes "vm.vcpus"
    ∷ codes "vm.mem.size"
    ∷ codes "vm.mem.granularity"
    ∷ codes "vm.boot.linux.bzimage"
    ∷ codes "vm.boot.linux.initramfs"
    ∷ codes "vm.boot.linux.cmdline"
    ∷ codes "vm.dev.serial"
    ∷ []

abbrev pub config_keys : List ConfigKey
config_keys =
    config_vm_name_key ∷ config_vm_type_key ∷ config_vm_vcpus_key ∷ config_vm_mem_size_key
    ∷ config_vm_mem_granularity_key ∷ config_vm_boot_linux_bzimage_key
    ∷ config_vm_boot_linux_initramfs_key ∷ config_vm_boot_linux_cmdline_key
    ∷ config_vm_dev_serial_key ∷ []

abbrev pub config_section_start : List ℕ
config_section_start = codes "[start]"

abbrev pub config_section_end : List ℕ
config_section_end = codes "[end]"

abbrev pub config_section_delim : List ℕ
config_section_delim = codes "="

pub record VmRequest : Type 0 where
  pub id : ℕ
  pub name : Option (List ℕ)
  pub guest_type : GuestType
  pub vcpus : ℕ
  pub mem_size : ℕ
  pub granularity : MemGranularity
  pub bzimage_name : Option (List ℕ)
  pub initramfs_name : Option (List ℕ)
  pub cmdline_str : Option (List ℕ)
  pub serial_id : ℕ

-- A zeroed request.
abbrev pub fresh_request : ℕ → VmRequest
fresh_request id = record {
  id = id;
  name = none;
  guest_type = guest_unspecified;
  vcpus = 0;
  mem_size = 0;
  granularity = bytes;
  bzimage_name = none;
  initramfs_name = none;
  cmdline_str = none;
  serial_id = 0;
}

abbrev pub is_present : Option (List ℕ) → Bool
is_present none = false
is_present (some s) = true

abbrev pub boot_files_set : GuestType → VmRequest → Bool
boot_files_set guest_unspecified request = false
boot_files_set mirror_vmm request = true
boot_files_set linux_direct_boot_32bit request =
    is_present request.bzimage_name && is_present request.initramfs_name

pub valid_config_request : VmRequest → Bool
valid_config_request request =
    is_present request.name
    && not (request.vcpus == 0)
    && not (request.mem_size == 0)
    && boot_files_set request.guest_type request

pub data TokenState : Type 0 where
  token_search_start_marker : TokenState
  token_search_config_entry_start : TokenState
  token_search_entry_delim : TokenState
  token_search_entry_val : TokenState

pub data ParsingState : Type 0 where
  ps_continue : ParsingState
  ps_done_success : ParsingState
  ps_stop_error : ParsingState
  ps_config_entry_completed : ParsingState

pub data ConfigParsingStatus : Type 0 where
  parsing_success : ConfigParsingStatus
  parsing_err_invalid_entry : ConfigParsingStatus
  parsing_err_malformed_file : ConfigParsingStatus

-- What `seek_next_token` finds in the file.
pub data Found : Type 0 where
  token : List ℕ → Found
  invalid_symbol : Found

-- `assignee` is that of each serial device, `none` for -1.
pub record ParserState : Type 0 where
  pub token_state : TokenState
  pub key : ConfigKey
  pub request : VmRequest
  pub assignee : ℕ → Option ℕ
