-- ===== src/Printf/Tests.antt =====
-- The theorems on printf.c, applied to concrete numbers and formats.
use hyve_mind.Prelude.{ℕ, ◌≡◌, false, some, arith}
use hyve_mind.CString.{Memory, strtoul}
use hyve_mind.Printf.{u64_to_dec_string}
use hyve_mind.Printf.RoundTrip.{strtoul-u64_to_dec_string}

abbrev blank : Memory
blank a = 0

strtoul-u64_to_dec_string_example :
    (end : ℕ) × (strtoul 66 (u64_to_dec_string 64 1024 blank 4) 4
      ≡ some (record { value = 1024; endptr = end; overflow = false }))
    × (u64_to_dec_string 64 1024 blank 4 end ≡ 0)
strtoul-u64_to_dec_string_example = strtoul-u64_to_dec_string 1024 blank 4 (omega arith)
