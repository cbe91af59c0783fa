-- ===== src/VmConfig/Values.antt =====
-- The values of the configuration's keys, as `set_vm_request_val` of vm_config.c reads them.
use hyve_mind.Prelude.{
  leb, ◌==◌, if◌then◌else◌, length, get_or, codes, ℕ, zero, suc, ◌%◌, ◌^◌, Bool, true, false, not,
  ◌&&◌, ◌||◌, Option, none, some, List, [], ◌∷◌,
}
use hyve_mind.CString.{Parsed, strtoul}
use hyve_mind.VmConfig.{
  GuestType, guest_unspecified, mirror_vmm, linux_direct_boot_32bit, MemGranularity, bytes, kb, mb,
  gb, ConfigKey, config_vm_name_key, config_vm_type_key, config_vm_vcpus_key,
  config_vm_mem_size_key, config_vm_mem_granularity_key, config_vm_boot_linux_bzimage_key,
  config_vm_boot_linux_initramfs_key, config_vm_boot_linux_cmdline_key, config_vm_dev_serial_key,
  VmRequest, ParserState,
}
use hyve_mind.Radix.Strings.{same_key}

-- The place of a string in a table that ends at NULL, from `index` on; `none` is -1.
abbrev pub index_of : List (List ℕ) → List ℕ → ℕ → Option ℕ
index_of [] str index = none
index_of (s ∷ strings) str index =
    let further = index_of strings str (suc index) in if same_key s str then some index else further

abbrev pub guest_type_at : Option ℕ → Option GuestType
guest_type_at none = none
guest_type_at (some zero) = some guest_unspecified
guest_type_at (some (suc zero)) = some mirror_vmm
guest_type_at (some (suc (suc n))) = some linux_direct_boot_32bit

abbrev pub get_guest_type_from_string : List ℕ → Option GuestType
get_guest_type_from_string str =
    guest_type_at (index_of (codes "MIRROR_VMM" ∷ codes "LINUX_DIRECT_BOOT_32BIT" ∷ []) str 1)

abbrev pub mem_granularity_at : Option ℕ → Option MemGranularity
mem_granularity_at none = none
mem_granularity_at (some zero) = some bytes
mem_granularity_at (some (suc zero)) = some kb
mem_granularity_at (some (suc (suc zero))) = some mb
mem_granularity_at (some (suc (suc (suc n)))) = some gb

abbrev pub get_mem_granularity_from_string : List ℕ → Option MemGranularity
get_mem_granularity_from_string str =
    mem_granularity_at (index_of (codes "bytes" ∷ codes "kb" ∷ codes "mb" ∷ codes "gb" ∷ []) str 0)

-- The characters of a string and its NUL, from the address 0 on.
abbrev pub string_memory : List ℕ → ℕ → ℕ
string_memory s i = get_or s i 0

-- `strtoul` on a value; the loops end at its NUL, within the fuel.
abbrev pub parsed_value : List ℕ → Option Parsed
parsed_value value = strtoul (suc (length value)) (string_memory value) 0

abbrev pub is_only_digits : List ℕ → ℕ → Bool → Bool
is_only_digits value endptr overflow =
    let end = string_memory value endptr in
    not ((endptr == 0 || not (end == 0)) && not (end == b'-') && not overflow)

abbrev pub is_positive_integer : List ℕ → ℕ → ℕ → Bool → Bool
is_positive_integer value number endptr overflow =
    not (overflow || string_memory value endptr == b'-' || number == 0)

abbrev pub is_valid_serial_dev_id : ℕ → Bool
is_valid_serial_dev_id id = leb 1 id && leb id 3

abbrev pub accepted_number : List ℕ → Option Parsed → Option ℕ
accepted_number value none = none
accepted_number value (some p) =
    let number = p.value % 2 ^ 32 in
    if is_only_digits value p.endptr p.overflow
      && is_positive_integer value number p.endptr p.overflow
    then some number
    else none

-- The checks that the code makes of every number: the 32 bits that are left of it, if it is accepted.
unfoldable pub positive_value : List ℕ → Option ℕ
positive_value value = accepted_number value (parsed_value value)

-- A serial device is free for a request, or already its own.
abbrev pub assignable : Option ℕ → ℕ → Bool
assignable none id = true
assignable (some assignee) id = assignee == id

abbrev pub set_type : ParserState → Option GuestType → Bool × ParserState
set_type s none = (false, s)
set_type s (some t) = (true, record s { request = record s.request { guest_type = t } })

abbrev pub set_vcpus : ParserState → Option ℕ → Bool × ParserState
set_vcpus s none = (false, s)
set_vcpus s (some n) = (true, record s { request = record s.request { vcpus = n } })

abbrev pub set_mem_size : ParserState → Option ℕ → Bool × ParserState
set_mem_size s none = (false, s)
set_mem_size s (some n) = (true, record s { request = record s.request { mem_size = n } })

abbrev pub set_granularity : ParserState → Option MemGranularity → Bool × ParserState
set_granularity s none = (false, s)
set_granularity s (some g) = (true, record s { request = record s.request { granularity = g } })

abbrev pub set_serial : ParserState → Option ℕ → Bool × ParserState
set_serial s none = (false, s)
set_serial s (some d) =
    if is_valid_serial_dev_id d && assignable (s.assignee d) s.request.id
    then (
      true,
      record s {
        assignee = λ i. if i == d then some s.request.id else s.assignee i;
        request = record s.request { serial_id = d };
      },
    )
    else (false, s)

abbrev pub set_string : ParserState → VmRequest → Bool × ParserState
set_string s request = (true, record s { request = request })

-- Whether the value is accepted, and the request with it. After an error the parser stops, and the
-- request is not used again.
unfoldable pub set_vm_request_val : ConfigKey → ParserState → List ℕ → Bool × ParserState
set_vm_request_val config_vm_name_key s value =
    set_string s (record s.request { name = some value })
set_vm_request_val config_vm_type_key s value = set_type s (get_guest_type_from_string value)
set_vm_request_val config_vm_vcpus_key s value = set_vcpus s (positive_value value)
set_vm_request_val config_vm_mem_size_key s value = set_mem_size s (positive_value value)
set_vm_request_val config_vm_mem_granularity_key s value =
    set_granularity s (get_mem_granularity_from_string value)
set_vm_request_val config_vm_boot_linux_bzimage_key s value =
    set_string s (record s.request { bzimage_name = some value })
set_vm_request_val config_vm_boot_linux_initramfs_key s value =
    set_string s (record s.request { initramfs_name = some value })
set_vm_request_val config_vm_boot_linux_cmdline_key s value =
    set_string s (record s.request { cmdline_str = some value })
set_vm_request_val config_vm_dev_serial_key s value = set_serial s (positive_value value)
