-- ===== src/Timer/Frequency.antt =====
-- The frequency of the time stamp counter: arch/x64/timer.c.
--
-- What the processor and the HPET answer is a record. A division by zero raises an exception, which
-- halts the machine.
use hyve_mind.Timer.{get_ticks_from_ns}
use hyve_mind.Prelude.{
  ◌==◌, if◌then◌else◌, bit_and-ones, Exec, ret, die, ℕ, ◌+◌, ◌-◌, ◌*◌, ◌/◌, ◌%◌, ◌^◌, ◌≤◌, ◌<◌,
  bit_and, ◌≡◌, ◌⊎◌, Bool, false, not, ◌&&◌, ◌||◌, Option, none, some, arith,
}

-- The answers that `compute_tsc_frequency` asks for: CPUID leaf 0x15 where it exists, the version
-- leaf, MSR_PLATFORM_INFO, and the counter before and after a sleep on the HPET, if there is one.
pub record TscSources : Type 0 where
  pub crystal_leaf_in_range : Bool
  pub crystal_eax : ℕ
  pub crystal_ebx : ℕ
  pub crystal_ecx : ℕ
  pub version_eax : ℕ
  pub platform_info : ℕ
  pub hpet : Option (ℕ × ℕ)

-- The models with a bus of 100 MHz, Sandy Bridge to Broadwell.
pub is_100mhz_model : ℕ → Bool
is_100mhz_model m =
    m == 0x2a
    || (m == 0x2d
        || (m == 0x3a
            || (m == 0x3e
                || (m == 0x3c
                    || (m == 0x3f
                        || (m == 0x45
                            || (m == 0x46
                                || (m == 0x3d || (m == 0x47 || (m == 0x4f || m == 0x56))))))))))

-- The models with a bus of 133 MHz, Nehalem.
pub is_133mhz_model : ℕ → Bool
is_133mhz_model m = m == 0x1e || (m == 0x1f || (m == 0x1a || m == 0x2e))

pub get_scalable_bus_frequency : ℕ → ℕ
unfolding is_100mhz_model is_133mhz_model
get_scalable_bus_frequency eax =
    let model_id = bit_and (eax / 2 ^ 4) 0x0f in
    let family_id = bit_and (eax / 2 ^ 8) 0x0f in
    if family_id == 6
    then if is_100mhz_model model_id then 100 else if is_133mhz_model model_id then 133 else 0
    else 0

-- The counter's ticks in a tenth of a second, ten times; `none` is TIMER_ERROR.
pub hpet_frequency : Option (ℕ × ℕ) → Option ℕ
hpet_frequency none = none
hpet_frequency (some (tsc_start, tsc_end)) = some ((tsc_end + 2 ^ 64 - tsc_start) * 10 % 2 ^ 64)

pub compute_tsc_frequency : TscSources → Exec (Option ℕ)
compute_tsc_frequency s =
    let max_non_turbo_ratio = bit_and (s.platform_info / 2 ^ 8) 0xff in
    let bus = get_scalable_bus_frequency s.version_eax in
    if s.crystal_leaf_in_range && not (s.crystal_ebx == 0 || s.crystal_ecx == 0)
    then if s.crystal_eax == 0
      then die
      else ret (some (s.crystal_ecx * s.crystal_ebx % 2 ^ 32 / s.crystal_eax))
    else if not (max_non_turbo_ratio == 0) && not (bus == 0)
    then ret (some (max_non_turbo_ratio * bus))
    else ret (hpet_frequency s.hpet)

-- Every model id that the switch lists has a high digit, which the mask of the model id cuts off.
no_known_bus : (eax : ℕ) → get_scalable_bus_frequency eax ≡ 0
unfolding get_scalable_bus_frequency is_100mhz_model is_133mhz_model
no_known_bus eax =
    let low : bit_and (eax / 2 ^ 4) 0x0f ≡ eax / 2 ^ 4 % 2 ^ 4 = bit_and-ones (eax / 2 ^ 4) 4 in
    rw low (ground arith)

-- Where the crystal clock is not enumerated, the frequency is always the one measured with the
-- HPET, whatever processor and platform MSR report: the bus frequencies of the known models are
-- never used.
pub compute_tsc_frequency_hpet :
    (s : TscSources)
    → (s.crystal_leaf_in_range ≡ false) ⊎ (s.crystal_ebx ≡ 0) ⊎ (s.crystal_ecx ≡ 0)
    → compute_tsc_frequency s ≡ ret (hpet_frequency s.hpet)
unfolding compute_tsc_frequency
compute_tsc_frequency_hpet s h = let dead = no_known_bus s.version_eax in ground (arith, dead)

-- A time in nanoseconds is rounded up to ticks: a timer never elapses early, and less than one tick
-- late, where the ticks fit 64 bits.
pub get_ticks_from_ns_lem :
    (clock_hz time_ns : ℕ)
    → clock_hz * time_ns < 2 ^ 64 * 1000000000 - 1000000000
    → (clock_hz * time_ns ≤ get_ticks_from_ns clock_hz time_ns * 1000000000)
      × (get_ticks_from_ns clock_hz time_ns * 1000000000 < clock_hz * time_ns + 1000000000)
unfolding get_ticks_from_ns
get_ticks_from_ns_lem clock_hz time_ns h = omega arith
