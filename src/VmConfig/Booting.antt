-- ===== src/VmConfig/Booting.antt =====
-- Requests that vm_config.c can make configurations of.
use mathlib.Core.List.{append-nil, append_assoc}
use hyve_mind.Prelude.{
  ℕ, ◌≡◌, refl, sym, ap, subst, ◌∙◌, true, false, Option, none, some, List, [], ◌∷◌, ◌++◌,
}
use hyve_mind.VmConfig.{
  GuestType, guest_unspecified, mirror_vmm, linux_direct_boot_32bit, VmRequest,
}
use hyve_mind.VmConfig.Config.{
  ok, and_then, LimineFile, GuestUartInfo, FileInfo, VmConfigEntry, get_serial_dev_info,
  strdup_nt_of, info_of, boot_info, base_config, vm_req_to_vm_config, convert_requests,
  get_vm_configs,
}
use hyve_mind.VmConfig.Files.{Names, Names-found}

-- The boot files of a request are there; a Linux guest has a command line.
abbrev pub Bootable : List LimineFile → GuestType → VmRequest → Type 0
Bootable mods guest_unspecified r = ⊥
Bootable mods mirror_vmm r = Unit {0}
Bootable mods linux_direct_boot_32bit r =
    ((b : FileInfo) × Names mods r.bzimage_name b)
    × ((i : FileInfo) × Names mods r.initramfs_name i)
    × ((s : List ℕ) × (r.cmdline_str ≡ some s))

abbrev pub BootsWith : List LimineFile → GuestType → VmRequest → VmConfigEntry → Type 0
BootsWith mods guest_unspecified r c = ⊥
BootsWith mods mirror_vmm r c = Unit {0}
BootsWith mods linux_direct_boot_32bit r c =
    Names mods r.bzimage_name c.bzimage
    × Names mods r.initramfs_name c.initramfs
    × (c.cmdline_str ≡ r.cmdline_str)

-- The guest has the device of the host with this port and line, as its line 4.
abbrev pub HasUart : GuestUartInfo → ℕ → ℕ → Type 0
HasUart u port irq =
    (u.configured ≡ true) × (u.host_base_port ≡ port) × (u.host_irq ≡ irq) × (u.vm_irq ≡ 4)

-- The configuration is what was requested.
pub record Configures (mods : List LimineFile) (r : VmRequest) (c : VmConfigEntry) : Type 0 where
  pub name : c.name ≡ r.name
  pub guest_type : c.guest_type ≡ r.guest_type
  pub vcpus : c.nr_vcpus ≡ r.vcpus
  pub mem_size : c.mem_size ≡ r.mem_size
  pub granularity : c.granularity ≡ r.granularity
  pub no_device : r.serial_id ≡ 0 → c.uart_info.configured ≡ false
  pub device_1 : r.serial_id ≡ 1 → HasUart c.uart_info 0x3f8 4
  pub device_2 : r.serial_id ≡ 2 → HasUart c.uart_info 0x2f8 5
  pub device_3 : r.serial_id ≡ 3 → HasUart c.uart_info 0x3e8 6
  pub boot : BootsWith mods r.guest_type r c

-- The configuration has the settings of the request, whatever it boots.
settings :
    (mods : List LimineFile) (r : VmRequest) (t : GuestType) (bz ini : FileInfo)
    (cmd : Option (List ℕ))
    → r.guest_type ≡ t
    → let c = record (base_config r) { bzimage = bz; initramfs = ini; cmdline_str = cmd } in
      BootsWith mods t r c → Configures mods r c
settings mods r t bz ini cmd e b = record {
  name = refl;
  guest_type = refl;
  vcpus = refl;
  mem_size = refl;
  granularity = refl;
  no_device = λ e. ap (λ (i : ℕ). (get_serial_dev_info i).configured) e;
  device_1 = λ e.
      subst (λ (i : ℕ). HasUart (get_serial_dev_info i) 0x3f8 4) (sym e) (refl, refl, refl, refl);
  device_2 = λ e.
      subst (λ (i : ℕ). HasUart (get_serial_dev_info i) 0x2f8 5) (sym e) (refl, refl, refl, refl);
  device_3 = λ e.
      subst (λ (i : ℕ). HasUart (get_serial_dev_info i) 0x3e8 6) (sym e) (refl, refl, refl, refl);
  boot =
      subst
        (λ (x : GuestType).
          BootsWith mods x r
            (record (base_config r) { bzimage = bz; initramfs = ini; cmdline_str = cmd }))
        (sym e) b;
}

boots :
    (mods : List LimineFile) (r : VmRequest) (t : GuestType)
    → r.guest_type ≡ t
    → Bootable mods t r
    → (c : VmConfigEntry) × (boot_info t mods r (base_config r) ≡ ok (true, c))
      × Configures mods r c
boots mods r guest_unspecified e b = absurd b
boots mods r mirror_vmm e b = (
  base_config r,
  refl,
  settings mods r mirror_vmm (base_config r).bzimage (base_config r).initramfs none e tt,
)
boots mods r linux_direct_boot_32bit e ((b, kernel), (i, ramdisk), (s, c)) =
    let (bf, b1, b2) = Names-found mods r.bzimage_name b kernel in
    let (nf, n1, n2) = Names-found mods r.initramfs_name i ramdisk in
    (
      record (base_config r) { bzimage = info_of bf; initramfs = info_of nf; cmdline_str = some s },
      rw (b1, n1, c) refl,
      settings mods r linux_direct_boot_32bit (info_of bf) (info_of nf) (some s) e (b2, n2, sym c),
    )

pub convertible :
    (mods : List LimineFile) (r : VmRequest) (s : List ℕ)
    → r.name ≡ some s
    → Bootable mods r.guest_type r
    → (c : VmConfigEntry) × (vm_req_to_vm_config mods r ≡ ok (true, c)) × Configures mods r c
unfolding vm_req_to_vm_config
convertible mods r s named b =
    let (c, e, k) = boots mods r r.guest_type refl b in
    (
      c,
      ap
            (λ (n : Option (List ℕ)).
              and_then (strdup_nt_of n) (λ name. boot_info r.guest_type mods r (base_config r)))
            named
          ∙ e,
      k,
    )

-- Every request has a name and can boot.
abbrev pub AllBootable : List LimineFile → List VmRequest → Type 0
AllBootable mods [] = Unit {0}
AllBootable mods (r ∷ rs) =
    ((s : List ℕ) × (r.name ≡ some s)) × Bootable mods r.guest_type r × AllBootable mods rs

abbrev pub ConfiguresAll : List LimineFile → List VmRequest → List VmConfigEntry → Type 0
ConfiguresAll mods [] [] = Unit {0}
ConfiguresAll mods [] (c ∷ cs) = ⊥
ConfiguresAll mods (r ∷ rs) [] = ⊥
ConfiguresAll mods (r ∷ rs) (c ∷ cs) = Configures mods r c × ConfiguresAll mods rs cs

converted :
    (mods : List LimineFile) (rs : List VmRequest) (before : List VmConfigEntry)
    → AllBootable mods rs
    → (cs : List VmConfigEntry) × (convert_requests mods rs before ≡ ok (some (before ++ cs)))
      × ConfiguresAll mods rs cs
unfolding convert_requests
converted mods [] before h =
    ([], ap (λ (x : List VmConfigEntry). ok (some x)) (sym (append-nil before)), tt)
converted mods (r ∷ rs) before ((s, named), b, h) =
    let (c, e, k) = convertible mods r s named b in
    let (cs, e', ks) = converted mods rs (before ++ c ∷ []) h in
    (
      c ∷ cs,
      rw e (e' ∙ ap (λ (x : List VmConfigEntry). ok (some x)) (append_assoc before (c ∷ []) cs)),
      (k, ks),
    )

-- Where every request has a name and its boot files, and a Linux guest a command line too, each
-- request becomes one configuration, in the order of the file: with its settings, the port and line of
-- its serial device, and for a Linux guest the addresses and sizes of the first modules with the names
-- of its boot files, and its command line.
pub get_vm_configs_lem :
    (mods : List LimineFile) (r : VmRequest) (rs : List VmRequest)
    → AllBootable mods (r ∷ rs)
    → (cs : List VmConfigEntry) × (get_vm_configs mods (some (r ∷ rs)) ≡ ok (some cs))
      × ConfiguresAll mods (r ∷ rs) cs
unfolding get_vm_configs
get_vm_configs_lem mods r rs h = converted mods (r ∷ rs) [] h
