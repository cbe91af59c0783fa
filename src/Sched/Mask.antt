-- ===== src/Sched/Mask.antt =====
-- The choice of a processor in sched.c and include/cpu_topology.h.
use hyve_mind.Prelude.{
  ◌==◌, bit_at, bit_at-lt, ℕ, zero, suc, ◌+◌, ◌-◌, ◌%◌, ◌^◌, ◌≤◌, ◌<◌, ◌≡◌, refl, subst, ◌⊎◌, inl,
  inr, true, false, some, arith, ℕ_discrete,
}
use hyve_mind.Sched.{
  invalid_cpuid, next_cpuid_loop, get_next_cpuid_in_mask, get_next_submission_tq_cpuid,
}

-- `c` is the lowest processor of the mask that is not below `offset`.
pub record IsNextCpu (mask offset c : ℕ) : Type 0 where
  pub in_mask : bit_at mask c ≡ 1
  pub not_below : offset ≤ c
  pub in_range : c < 32
  pub lowest : (i : ℕ) → offset ≤ i → i < c → bit_at mask i ≡ 0

next_cpuid_loop_lem :
    (mask left position : ℕ)
    → position + left ≡ 32
    → IsNextCpu mask position (next_cpuid_loop mask position left)
      ⊎ ((next_cpuid_loop mask position left ≡ invalid_cpuid)
          × ((i : ℕ) → position ≤ i → i < 32 → bit_at mask i ≡ 0))
unfolding next_cpuid_loop
next_cpuid_loop_lem mask zero position h = inr (refl, λ i p q. absurd (omega arith))
next_cpuid_loop_lem mask (suc left) position h = elim (ℕ_discrete (bit_at mask position) 1) [
  | yes e ↦
      let found : (bit_at mask position == 1) ≡ true = ground arith in
      rw found (
        inl (record {
          in_mask = e;
          not_below = omega arith;
          in_range = omega arith;
          lowest = λ i p q. absurd (omega arith);
        }))
  | no ne ↦
      let other : (bit_at mask position == 1) ≡ false = ground arith in
      let here : bit_at mask position ≡ 0 = omega (arith, bit_at-lt mask position) in
      rw other (elim (next_cpuid_loop_lem mask left (suc position) (omega arith)) [
        | inl n ↦ inl (record {
          in_mask = n.in_mask;
          not_below = omega (arith, n.not_below);
          in_range = n.in_range;
          lowest = λ i p q. from_here i p (λ p'. n.lowest i p' q) here;
        })
        | inr (e, all) ↦ inr (e, λ i p q. from_here i p (λ p'. all i p' q) here)
      ])
]
  where
    from_here :
        (i : ℕ)
        → position ≤ i
        → (suc position ≤ i → bit_at mask i ≡ 0)
        → bit_at mask position ≡ 0
        → bit_at mask i ≡ 0
    from_here i p f h0 = elim (ℕ_discrete position i) [
      | yes e ↦ subst (λ (j : ℕ). bit_at mask j ≡ 0) e h0
      | no ne ↦ f (omega arith)
    ]

-- The result is the lowest processor of the mask from `offset` on, and the invalid number where there
-- is none.
pub get_next_cpuid_in_mask_lem :
    (mask offset : ℕ)
    → offset ≤ 32
    → IsNextCpu mask offset (get_next_cpuid_in_mask mask offset)
      ⊎ ((get_next_cpuid_in_mask mask offset ≡ invalid_cpuid)
          × ((i : ℕ) → offset ≤ i → i < 32 → bit_at mask i ≡ 0))
get_next_cpuid_in_mask_lem mask offset h =
    next_cpuid_loop_lem mask (32 - offset) offset (omega arith)

first_cpu :
    (mask k : ℕ) → k < 32 → bit_at mask k ≡ 1 → IsNextCpu mask 0 (get_next_cpuid_in_mask mask 0)
first_cpu mask k h e = elim (get_next_cpuid_in_mask_lem mask 0 (omega arith)) [
  | inl n ↦ n
  | inr (f, all) ↦ let z = all k (omega arith) h in absurd (omega (arith, z, e))
]

after_invalid :
    (fuel mask k : ℕ)
    → k < 32
    → bit_at mask k ≡ 1
    → get_next_submission_tq_cpuid (suc fuel) mask invalid_cpuid
      ≡ some (get_next_cpuid_in_mask mask 0)
unfolding get_next_submission_tq_cpuid
after_invalid fuel mask k h e = refl

-- Where some processor is online, the choice ends within a depth of two. It is the next processor of the
-- mask after the previous one, and the first of the mask where there is none after it or none was
-- chosen before.
pub get_next_submission_tq_cpuid_lem :
    (mask prev k : ℕ)
    → k < 32
    → bit_at mask k ≡ 1
    → (prev < 32) ⊎ (prev ≡ invalid_cpuid)
    → (c : ℕ) × (get_next_submission_tq_cpuid 2 mask prev ≡ some c)
      × ((IsNextCpu mask (suc prev) c)
          ⊎ (((prev ≡ invalid_cpuid) ⊎ ((i : ℕ) → prev < i → i < 32 → bit_at mask i ≡ 0))
              × IsNextCpu mask 0 c))
unfolding get_next_submission_tq_cpuid
get_next_submission_tq_cpuid_lem mask prev k h e (inr p) =
    let never : (prev == invalid_cpuid) ≡ true = ground arith in
    (get_next_cpuid_in_mask mask 0, rw never refl, inr (inl p, first_cpu mask k h e))
get_next_submission_tq_cpuid_lem mask prev k h e (inl p) =
    let chosen : (prev == invalid_cpuid) ≡ false = ground arith in
    let offset : (prev + 1) % 2 ^ 32 ≡ suc prev = omega arith in
    elim (get_next_cpuid_in_mask_lem mask (suc prev) (omega arith)) [
      | inl n ↦
          let in_range = n.in_range in
          let valid : (get_next_cpuid_in_mask mask (suc prev) == invalid_cpuid) ≡ false =
            ground arith in
          (get_next_cpuid_in_mask mask (suc prev), rw (chosen, offset, valid) refl, inl n)
      | inr (none_left, all) ↦
          let missing : (get_next_cpuid_in_mask mask (suc prev) == invalid_cpuid) ≡ true =
            ground arith in
          (
            get_next_cpuid_in_mask mask 0,
            rw (chosen, offset, missing) refl,
            inr (inr all, first_cpu mask k h e),
          )
    ]
