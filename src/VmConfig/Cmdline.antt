-- ===== src/VmConfig/Cmdline.antt =====
-- Requests of vm_config.c that lack a command line.
use hyve_mind.Prelude.{
  ◌==◌, if◌then◌else◌, Option-cases, and_right, and_left, ℕ, ◌≡◌, refl, sym, ap, ◌∙◌, ◌↔◌, ◌⊎◌, inl,
  inr, Bool, true, false, not, ◌&&◌, Option, none, some, List, [], ◌∷◌, ◌++◌,
}
use hyve_mind.VmConfig.{
  GuestType, guest_unspecified, mirror_vmm, linux_direct_boot_32bit, VmRequest, is_present,
  boot_files_set, valid_config_request,
}
use hyve_mind.VmConfig.Requests.{All}
use hyve_mind.VmConfig.Config.{
  Run, ok, null_read, and_then, LimineFile, FileInfo, VmConfigEntry, strdup_nt_of, info_of,
  boot_info, base_config, vm_req_to_vm_config, convert_requests, get_vm_configs,
}
use hyve_mind.VmConfig.Files.{Names, get_limine_file-cases, Names-found}
use hyve_mind.VmConfig.Booting.{Bootable, convertible}

-- A Linux guest whose boot files are there has no command line.
pub record LacksCmdline (mods : List LimineFile) (r : VmRequest) : Type 0 where
  pub linux : r.guest_type ≡ linux_direct_boot_32bit
  pub bzimage : (b : FileInfo) × Names mods r.bzimage_name b
  pub initramfs : (i : FileInfo) × Names mods r.initramfs_name i
  pub cmdline : r.cmdline_str ≡ none

-- A request lacks its command line, and those before it can boot.
abbrev pub OneLacksCmdline : List LimineFile → List VmRequest → Type 0
OneLacksCmdline mods [] = ⊥
OneLacksCmdline mods (r ∷ rs) =
    LacksCmdline mods r ⊎ (Bootable mods r.guest_type r × OneLacksCmdline mods rs)

abbrev pub IsValidRequest : VmRequest → Type 0
IsValidRequest r = valid_config_request r ≡ true

present : (o : Option (List ℕ)) → is_present o ≡ true → (s : List ℕ) × (o ≡ some s)
present none e = absurd (cc)
present (some s) e = (s, refl)

-- What is known of a valid request.
valid_parts :
    (r : VmRequest)
    → IsValidRequest r
    → ((s : List ℕ) × (r.name ≡ some s)) × (boot_files_set r.guest_type r ≡ true)
unfolding valid_config_request
valid_parts r v =
    let left = is_present r.name && not (r.vcpus == 0) && not (r.mem_size == 0) in
    let front =
      and_left (is_present r.name && not (r.vcpus == 0)) (not (r.mem_size == 0))
        (and_left left (boot_files_set r.guest_type r) v) in
    (
      present r.name (and_left (is_present r.name) (not (r.vcpus == 0)) front),
      and_right left (boot_files_set r.guest_type r) v,
    )

-- A request is refused, can boot, or lacks its command line.
abbrev Outcome : List LimineFile → VmRequest → GuestType → Type 0
Outcome mods r t =
    ((c : VmConfigEntry) × (boot_info t mods r (base_config r) ≡ ok (false, c)))
    ⊎ (Bootable mods t r
        ⊎ ((t ≡ linux_direct_boot_32bit)
            × ((b : FileInfo) × Names mods r.bzimage_name b)
            × ((i : FileInfo) × Names mods r.initramfs_name i)
            × (r.cmdline_str ≡ none)))

outcome :
    (mods : List LimineFile) (r : VmRequest) (t : GuestType)
    → boot_files_set t r ≡ true
    → Outcome mods r t
outcome mods r guest_unspecified e = absurd (cc)
outcome mods r mirror_vmm e = inr (inl tt)
outcome mods r linux_direct_boot_32bit e =
    let (b, named_b) = present r.bzimage_name (and_left _ (is_present r.initramfs_name) e) in
    let (i, named_i) = present r.initramfs_name (and_right (is_present r.bzimage_name) _ e) in
    elim (get_limine_file-cases b mods) [
      | inl (missing, h) ↦ inl (base_config r, rw (named_b, missing) refl)
      | inr (bf, found_b, first_b) ↦ elim (get_limine_file-cases i mods) [
        | inl (missing, h) ↦ inl (
          record (base_config r) { bzimage = info_of bf },
          rw (named_b, found_b, named_i, missing) refl,
        )
        | inr (nf, found_i, first_i) ↦
            let kernel : (x : FileInfo) × Names mods r.bzimage_name x =
              (info_of bf, (b, bf, named_b, first_b, refl, refl)) in
            let ramdisk : (x : FileInfo) × Names mods r.initramfs_name x =
              (info_of nf, (i, nf, named_i, first_i, refl, refl)) in
            elim (Option-cases r.cmdline_str) [
              | inl c ↦ inr (inr (refl, kernel, ramdisk, c))
              | inr (s, c) ↦ inr (inl (kernel, ramdisk, (s, c)))
            ]
      ]
    ]

named_boot :
    (mods : List LimineFile) (r : VmRequest) (s : List ℕ)
    → r.name ≡ some s
    → vm_req_to_vm_config mods r ≡ boot_info r.guest_type mods r (base_config r)
unfolding vm_req_to_vm_config
named_boot mods r s e =
    ap
      (λ (n : Option (List ℕ)).
        and_then (strdup_nt_of n) (λ name. boot_info r.guest_type mods r (base_config r)))
      e

lacking_reads :
    (mods : List LimineFile) (r : VmRequest) (s : List ℕ)
    → r.name ≡ some s
    → LacksCmdline mods r
    → vm_req_to_vm_config mods r ≡ null_read
lacking_reads mods r s e l =
    let (bf, found_b, x) = Names-found mods r.bzimage_name l.bzimage.0 l.bzimage.1 in
    let (nf, found_i, y) = Names-found mods r.initramfs_name l.initramfs.0 l.initramfs.1 in
    named_boot mods r s e
    ∙ ap (λ (t : GuestType). boot_info t mods r (base_config r)) l.linux
    ∙ (let c = l.cmdline in rw (found_b, found_i, c) refl)

converting :
    (mods : List LimineFile) (rs : List VmRequest) (before : List VmConfigEntry)
    → All IsValidRequest rs
    → (convert_requests mods rs before ≡ null_read) ↔ OneLacksCmdline mods rs
unfolding convert_requests
converting mods [] before v = (λ e. absurd (cc), λ x. absurd x)
converting mods (r ∷ rs) before v =
    let ((s, named), files) = valid_parts r v.0 in
    (
      λ e. elim (outcome mods r r.guest_type files) [
        | inl (c, refused) ↦ let step = named_boot mods r s named ∙ refused in absurd (stuck step e)
        | inr (inl b) ↦
            let (c, step, k) = convertible mods r s named b in
            inr (b, (converting mods rs (before ++ c ∷ []) v.1).0 (after step e))
        | inr (inr (linux, b, i, c)) ↦
            inl (record { linux = linux; bzimage = b; initramfs = i; cmdline = c })
      ],
      λ x. elim x [
        | inl l ↦ rw (lacking_reads mods r s named l) refl
        | inr (b, later) ↦
            let (c, step, k) = convertible mods r s named b in
            rw step ((converting mods rs (before ++ c ∷ []) v.1).1 later)
      ],
    )
  where
    Next : Run (Bool × VmConfigEntry) → Run (Option (List VmConfigEntry))
    Next o = and_then o (λ converted.
        let (success, config) = converted in
        let further = convert_requests mods rs (before ++ config ∷ []) in
        if success then further else ok none)

    stuck :
        {c : VmConfigEntry}
        → vm_req_to_vm_config mods r ≡ ok (false, c)
        → Next (vm_req_to_vm_config mods r) ≡ null_read
        → ⊥
    stuck step e = let q = sym (ap Next step) ∙ e in cc

    after :
        {c : VmConfigEntry}
        → vm_req_to_vm_config mods r ≡ ok (true, c)
        → Next (vm_req_to_vm_config mods r) ≡ null_read
        → convert_requests mods rs (before ++ c ∷ []) ≡ null_read
    after step e = sym (ap Next step) ∙ e

-- On valid requests the code reads a string at NULL exactly where one is for a Linux guest whose boot
-- files are there and that has no command line, and all requests before it can boot.
pub get_vm_configs-null_read :
    (mods : List LimineFile) (r : VmRequest) (rs : List VmRequest)
    → All IsValidRequest (r ∷ rs)
    → (get_vm_configs mods (some (r ∷ rs)) ≡ null_read) ↔ OneLacksCmdline mods (r ∷ rs)
unfolding get_vm_configs
get_vm_configs-null_read mods r rs v = converting mods (r ∷ rs) [] v
