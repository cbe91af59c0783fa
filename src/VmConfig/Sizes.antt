-- ===== src/VmConfig/Sizes.antt =====
-- The numbers of the configuration file of vm_config.c, and the memory sizes that follow from them.
use hyve_mind.Prelude.{
  ◌==◌, if◌then◌else◌, length, get_or, ℕ, suc, ◌+◌, ◌*◌, ◌%◌, ◌^◌, ◌≤◌, ◌<◌, ◌≡◌, refl, ap, ◌∙◌,
  true, false, some, List, [], ◌∷◌, arith,
}
use hyve_mind.CString.{Memory, u64_max, is_digit}
use hyve_mind.CString.Number.{value_of, HoldsDigits, strtoul-fits}
use hyve_mind.VmConfig.{MemGranularity, bytes, kb, mb, gb}
use hyve_mind.VmConfig.Values.{string_memory, accepted_number, positive_value}
use hyve_mind.VmConfig.Config.{VmConfigEntry, req_bytes, get_vm_config_req_bytes}

abbrev pub unit_bytes : MemGranularity → ℕ
unit_bytes bytes = 1
unit_bytes kb = 1024
unit_bytes mb = 1048576
unit_bytes gb = 1073741824

-- A memory size of 32 bits is not cut off when it is turned into bytes.
pub get_vm_config_req_bytes_lem :
    (c : VmConfigEntry)
    → c.mem_size < 2 ^ 32
    → (get_vm_config_req_bytes c ≡ c.mem_size * unit_bytes c.granularity)
      × (get_vm_config_req_bytes c < 2 ^ 62)
unfolding get_vm_config_req_bytes
get_vm_config_req_bytes_lem c h = by_unit c.granularity
  where
    by_unit :
        (g : MemGranularity)
        → (req_bytes g c.mem_size ≡ c.mem_size * unit_bytes g) × (req_bytes g c.mem_size < 2 ^ 62)
    by_unit bytes = (omega arith, omega arith)
    by_unit kb = (omega arith, omega arith)
    by_unit mb = (omega arith, omega arith)
    by_unit gb = (omega arith, omega arith)

-- The digits of a number and nothing else.
abbrev pub AllDigits : List ℕ → Type 0
AllDigits [] = Unit {0}
AllDigits (c ∷ cs) = (is_digit c ≡ true) × AllDigits cs

digits_in_memory :
    (m : Memory) (p : ℕ) (cs : List ℕ)
    → ((i : ℕ) → m (p + i) ≡ get_or cs i 0)
    → AllDigits cs
    → HoldsDigits m p cs
digits_in_memory m p [] h d =
    let here : m p ≡ 0 = ap m (let e : p ≡ p + 0 = omega arith in e) ∙ h 0 in rw here refl
digits_in_memory m p (c ∷ cs) h d = (
  ap m (let e : p ≡ p + 0 = omega arith in e) ∙ h 0,
  d.0,
  digits_in_memory m (p + 1) cs
      (λ i. ap m (let e : p + 1 + i ≡ p + suc i = omega arith in e) ∙ h (suc i)) d.1,
)

get_or_end : (cs : List ℕ) → get_or cs (length cs) 0 ≡ 0
get_or_end [] = refl
get_or_end (c ∷ cs) = get_or_end cs

-- A number that is followed by the end of the value.
accepted_whole :
    (value : List ℕ) (end n : ℕ)
    → 0 < end
    → string_memory value end ≡ 0
    → 0 < n % 2 ^ 32
    → accepted_number value (some (record { value = n; endptr = end; overflow = false }))
      ≡ some (n % 2 ^ 32)
accepted_whole value end n e nul pos =
    let not_zero : (n % 2 ^ 32 == 0) ≡ false = ground arith in
    let not_start : (end == 0) ≡ false = ground arith in rw (nul, not_zero, not_start) refl

-- A value of digits alone that fits 64 bits is accepted if its lowest 32 bits are not zero, and these
-- are what is left of it.
pub positive_value_lem :
    (c : ℕ) (cs : List ℕ)
    → AllDigits (c ∷ cs)
    → value_of 0 (c ∷ cs) ≤ u64_max
    → 0 < value_of 0 (c ∷ cs) % 2 ^ 32
    → positive_value (c ∷ cs) ≡ some (value_of 0 (c ∷ cs) % 2 ^ 32)
unfolding positive_value
positive_value_lem c cs d fits pos =
    let value = c ∷ cs in
    let read =
      strtoul-fits (string_memory value) 0 0 false c cs (suc (length value))
        (digits_in_memory (string_memory value) 0 value
          (λ i. ap (string_memory value) (let e : 0 + i ≡ i = omega arith in e)) d)
        (omega arith) (omega arith) fits in
    let end = 0 + 0 + (if false then 1 else 0) + length value in
    let at_end : end ≡ suc (length cs) = omega arith in
    ap (accepted_number value) read
    ∙ accepted_whole value end (value_of 0 value) (omega arith)
        (ap (string_memory value) at_end ∙ get_or_end cs) pos
