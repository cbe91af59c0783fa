-- ===== src/VmConfig/Requests.antt =====
-- The requests that the parser of vm_config.c returns.
use hyve_mind.Prelude.{
  ◌==◌, if◌then◌else◌, Bool-cases, and_right, ℕ, ◌≡◌, refl, ◌⊎◌, inl, inr, Bool, true, false, ◌&&◌,
  Option, none, some, List, [], ◌∷◌, ◌++◌,
}
use hyve_mind.Radix.{RadixNode, radix_tree_get}
use hyve_mind.Radix.Strings.{same_key}
use hyve_mind.VmConfig.{
  GuestType, MemGranularity, ConfigKey, config_vm_name_key, config_vm_type_key, config_vm_vcpus_key,
  config_vm_mem_size_key, config_vm_mem_granularity_key, config_vm_boot_linux_bzimage_key,
  config_vm_boot_linux_initramfs_key, config_vm_boot_linux_cmdline_key, config_vm_dev_serial_key,
  config_section_start, config_section_end, config_section_delim, VmRequest, valid_config_request,
  TokenState, token_search_start_marker, token_search_config_entry_start, token_search_entry_delim,
  token_search_entry_val, ParsingState, Found, ParserState,
}
use hyve_mind.VmConfig.Values.{
  is_valid_serial_dev_id, positive_value, assignable, set_type, set_vcpus, set_mem_size,
  set_granularity, set_serial, set_vm_request_val,
}
use hyve_mind.VmConfig.Parser.{
  key_found, is_reserved, value_set, handle, parse_vm_config_file, initial_state,
}
use hyve_mind.VmConfig.Induction.{Returns, parse_induction}

abbrev pub All : (VmRequest → Type 0) → List VmRequest → Type 0
All P [] = Unit {0}
All P (r ∷ rs) = P r × All P rs

pub All-append :
    (P : VmRequest → Type 0) (rs : List VmRequest) (r : VmRequest)
    → All P rs
    → P r
    → All P (rs ++ r ∷ [])
All-append P [] r h p = (p, tt)
All-append P (q ∷ qs) r h p = (h.0, All-append P qs r h.1 p)

pub All-map :
    (P Q : VmRequest → Type 0) (rs : List VmRequest)
    → ((r : VmRequest) → P r → Q r)
    → All P rs
    → All Q rs
All-map P Q [] f h = tt
All-map P Q (r ∷ rs) f h = (f r h.0, All-map P Q rs f h.1)

-- What a handler may change of the request and of the serial devices: it may give a free device to
-- the request.
unfoldable pub Effect : ParserState → ParserState → Type 0
Effect s s' =
    (s'.request.id ≡ s.request.id)
    × (((s'.request.serial_id ≡ s.request.serial_id) × (s'.assignee ≡ s.assignee))
        ⊎ ((d : ℕ) × (assignable (s.assignee d) s.request.id ≡ true)
            × (s'.request.serial_id ≡ d)
            × (s'.assignee ≡ (λ i. if i == d then some s.request.id else s.assignee i))))

untouched :
    (s s' : ParserState)
    → s'.request.id ≡ s.request.id
    → s'.request.serial_id ≡ s.request.serial_id
    → s'.assignee ≡ s.assignee
    → Effect s s'
unfolding Effect
untouched s s' e1 e2 e3 = (e1, inl (e2, e3))

set_serial-Effect : (s : ParserState) (o : Option ℕ) → Effect s (set_serial s o).1
unfolding Effect
set_serial-Effect s none = untouched s s refl refl refl
set_serial-Effect s (some d) =
    elim (Bool-cases (is_valid_serial_dev_id d && assignable (s.assignee d) s.request.id)) [
      | inl ok ↦ rw ok (refl, inr (d, and_right (is_valid_serial_dev_id d) _ ok, refl, refl))
      | inr bad ↦ rw bad (refl, inl (refl, refl))
    ]

set_type-Effect : (s : ParserState) (o : Option GuestType) → Effect s (set_type s o).1
set_type-Effect s none = untouched s s refl refl refl
set_type-Effect s (some t) = untouched s (set_type s (some t)).1 refl refl refl

set_vcpus-Effect : (s : ParserState) (o : Option ℕ) → Effect s (set_vcpus s o).1
set_vcpus-Effect s none = untouched s s refl refl refl
set_vcpus-Effect s (some n) = untouched s (set_vcpus s (some n)).1 refl refl refl

set_mem_size-Effect : (s : ParserState) (o : Option ℕ) → Effect s (set_mem_size s o).1
set_mem_size-Effect s none = untouched s s refl refl refl
set_mem_size-Effect s (some n) = untouched s (set_mem_size s (some n)).1 refl refl refl

set_granularity-Effect :
    (s : ParserState) (o : Option MemGranularity) → Effect s (set_granularity s o).1
set_granularity-Effect s none = untouched s s refl refl refl
set_granularity-Effect s (some g) = untouched s (set_granularity s (some g)).1 refl refl refl

set_vm_request_val-Effect :
    (key : ConfigKey) (s : ParserState) (value : List ℕ)
    → Effect s (set_vm_request_val key s value).1
unfolding set_vm_request_val
set_vm_request_val-Effect config_vm_name_key s v = untouched s _ refl refl refl
set_vm_request_val-Effect config_vm_type_key s v = set_type-Effect s _
set_vm_request_val-Effect config_vm_vcpus_key s v = set_vcpus-Effect s _
set_vm_request_val-Effect config_vm_mem_size_key s v = set_mem_size-Effect s _
set_vm_request_val-Effect config_vm_mem_granularity_key s v = set_granularity-Effect s _
set_vm_request_val-Effect config_vm_boot_linux_bzimage_key s v = untouched s _ refl refl refl
set_vm_request_val-Effect config_vm_boot_linux_initramfs_key s v = untouched s _ refl refl refl
set_vm_request_val-Effect config_vm_boot_linux_cmdline_key s v = untouched s _ refl refl refl
set_vm_request_val-Effect config_vm_dev_serial_key s v = set_serial-Effect s (positive_value v)

either-Effect :
    (s : ParserState) (b : Bool) (x y : ParsingState × ParserState)
    → Effect s x.1
    → Effect s y.1
    → Effect s (if b then x else y).1
either-Effect s true x y h k = h
either-Effect s false x y h k = k

same-Effect : (s : ParserState) (ts : TokenState) → Effect s (record s { token_state = ts })
same-Effect s ts = untouched s (record s { token_state = ts }) refl refl refl

key_found-Effect : (s : ParserState) (o : Option ℕ) → Effect s (key_found s o).1
key_found-Effect s none = untouched s s refl refl refl
key_found-Effect s (some n) = untouched s (key_found s (some n)).1 refl refl refl

value_set-Effect :
    (s : ParserState) (r : Bool × ParserState) → Effect s r.1 → Effect s (value_set r).1
unfolding Effect
value_set-Effect s (true, s') h = h
value_set-Effect s (false, s') h = h

-- Every handler has such an effect.
pub handle-Effect :
    (ts : TokenState) (keys : RadixNode) (s : ParserState) (t : List ℕ)
    → Effect s (handle ts keys s t).1
handle-Effect token_search_start_marker keys s t =
    either-Effect s (same_key config_section_start t) _ _
      (same-Effect s token_search_config_entry_start) (untouched s s refl refl refl)
handle-Effect token_search_config_entry_start keys s t =
    either-Effect s (same_key config_section_end t) _ _ (same-Effect s token_search_start_marker)
      (key_found-Effect s (radix_tree_get keys t))
handle-Effect token_search_entry_delim keys s t =
    either-Effect s (same_key config_section_delim t) _ _ (same-Effect s token_search_entry_val)
      (untouched s s refl refl refl)
handle-Effect token_search_entry_val keys s t =
    either-Effect s (is_reserved t) _ _ (untouched s s refl refl refl)
      (value_set-Effect s (set_vm_request_val s.key s t) (set_vm_request_val-Effect s.key s t))

-- Every request that the parser returns is valid.
pub parse_vm_config_file-valid :
    (keys : RadixNode) (assignee : ℕ → Option ℕ) (tokens : List Found)
    → Returns
        (All (λ r. valid_config_request r ≡ true))
        (parse_vm_config_file keys (initial_state assignee) [] tokens)
parse_vm_config_file-valid keys assignee tokens =
    parse_induction (λ s reqs. All (λ r. valid_config_request r ≡ true) reqs)
      (All (λ r. valid_config_request r ≡ true)) keys (λ s reqs h. h) (λ s reqs t h. h)
      (λ s reqs h v. All-append (λ r. valid_config_request r ≡ true) reqs s.request h v) tokens
      (initial_state assignee) [] tt
