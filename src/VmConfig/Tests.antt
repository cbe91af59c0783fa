-- ===== src/VmConfig/Tests.antt =====
-- The configuration file's parser at work.
use hyve_mind.Prelude.{
  codes, ℕ, ◌≡◌, refl, ap, ◌≢◌, ◌↔◌, inl, true, none, some, List, [], ◌∷◌, arith,
}
use hyve_mind.Radix.{RadixNode, absent}
use hyve_mind.Radix.Strings.{same_key}
use hyve_mind.VmConfig.{
  linux_direct_boot_32bit, VmRequest, fresh_request, valid_config_request, Found, token,
}
use hyve_mind.VmConfig.Values.{positive_value}
use hyve_mind.VmConfig.Parser.{get_config_key_radix, parse_vm_config_file, initial_state}
use hyve_mind.VmConfig.Induction.{Returns}
use hyve_mind.VmConfig.Requests.{All, parse_vm_config_file-valid}
use hyve_mind.VmConfig.Devices.{Unshared, parse_vm_config_file-Unshared}
use hyve_mind.VmConfig.Config.{ok, null_read, LimineFile, VmConfigEntry, info_of, get_vm_configs}
use hyve_mind.VmConfig.Files.{Names}
use hyve_mind.VmConfig.Booting.{ConfiguresAll, get_vm_configs_lem}
use hyve_mind.VmConfig.Cmdline.{OneLacksCmdline, get_vm_configs-null_read}
use hyve_mind.VmConfig.Sizes.{AllDigits, positive_value_lem}

abbrev line : List ℕ → List ℕ → List Found → List Found
line key value rest = token key ∷ token (codes "=") ∷ token value ∷ rest

-- One virtual machine, with a serial device.
abbrev one_machine : List Found
one_machine =
    token (codes "[start]")
    ∷ line (codes "vm.name") (codes "a") (
        line (codes "vm.type") (codes "MIRROR_VMM") (
          line (codes "vm.vcpus") (codes "2") (
            line (codes "vm.mem.size") (codes "64")
              (line (codes "vm.dev.serial") (codes "1") (token (codes "[end]") ∷ [])))))

-- A tree of the keys in question, each below the root.
abbrev small_keys : RadixNode
small_keys = elim (get_config_key_radix 32) [ none ↦ absent | some root ↦ root ]

parse_vm_config_file-valid_example :
    Returns
      (All (λ r. valid_config_request r ≡ true))
      (parse_vm_config_file small_keys (initial_state (λ i. none)) [] one_machine)
parse_vm_config_file-valid_example = parse_vm_config_file-valid small_keys (λ i. none) one_machine

parse_vm_config_file-Unshared_example :
    Returns Unshared (parse_vm_config_file small_keys (initial_state (λ i. none)) [] one_machine)
parse_vm_config_file-Unshared_example =
    parse_vm_config_file-Unshared small_keys (λ i. none) one_machine

abbrev linux_request : VmRequest
linux_request = record (fresh_request 0) {
  name = some (codes "a");
  guest_type = linux_direct_boot_32bit;
  vcpus = 1;
  mem_size = 64;
  bzimage_name = some (codes "k");
  initramfs_name = some (codes "i");
}

abbrev kernel : LimineFile
kernel = record { string = codes "k"; address = 4096; size = 100 }

abbrev ramdisk : LimineFile
ramdisk = record { string = codes "i"; address = 8192; size = 200 }

kernel_found : Names (kernel ∷ ramdisk ∷ []) (some (codes "k")) (info_of kernel)
kernel_found = (codes "k", kernel, refl, ([], ramdisk ∷ [], refl, refl, tt), refl, refl)

ramdisk_found : Names (kernel ∷ ramdisk ∷ []) (some (codes "i")) (info_of ramdisk)
unfolding same_key
ramdisk_found = (codes "i", ramdisk, refl, (kernel ∷ [], [], refl, refl, (other, tt)), refl, refl)
  where
    other : codes "k" ≢ codes "i"
    other e = absurd (let q = ap (same_key (codes "i")) e in cc)

get_vm_configs_lem_example :
    let r = record linux_request { cmdline_str = some (codes "q") } in
    (cs : List VmConfigEntry) × (get_vm_configs (kernel ∷ ramdisk ∷ []) (some (r ∷ []))
      ≡ ok (some cs))
    × ConfiguresAll (kernel ∷ ramdisk ∷ []) (r ∷ []) cs
get_vm_configs_lem_example =
    get_vm_configs_lem (kernel ∷ ramdisk ∷ [])
      (record linux_request { cmdline_str = some (codes "q") }) []
      (
        (codes "a", refl),
        ((info_of kernel, kernel_found), (info_of ramdisk, ramdisk_found), (codes "q", refl)),
        tt,
      )

-- The request is valid.
linux_request-valid : valid_config_request linux_request ≡ true
unfolding valid_config_request
linux_request-valid = refl

get_vm_configs-null_read_example :
    (get_vm_configs (kernel ∷ ramdisk ∷ []) (some (linux_request ∷ [])) ≡ null_read)
    ↔ OneLacksCmdline (kernel ∷ ramdisk ∷ []) (linux_request ∷ [])
get_vm_configs-null_read_example =
    get_vm_configs-null_read (kernel ∷ ramdisk ∷ []) linux_request [] (linux_request-valid, tt)

-- The search for its files succeeds, and then the copy of the command line reads at NULL.
lacking : get_vm_configs (kernel ∷ ramdisk ∷ []) (some (linux_request ∷ [])) ≡ null_read
lacking =
    (get_vm_configs-null_read (kernel ∷ ramdisk ∷ []) linux_request [] (linux_request-valid, tt)).1
      (inl (record {
        linux = refl;
        bzimage = (info_of kernel, kernel_found);
        initramfs = (info_of ramdisk, ramdisk_found);
        cmdline = refl;
      }))

all_digits : AllDigits (codes "4294967297")
all_digits = (refl, (refl, (refl, (refl, (refl, (refl, (refl, (refl, (refl, (refl, tt))))))))))

positive_value_lem_example : positive_value (codes "4294967297") ≡ some 1
positive_value_lem_example =
    positive_value_lem b'4' (codes "294967297") all_digits (omega arith) (omega arith)
