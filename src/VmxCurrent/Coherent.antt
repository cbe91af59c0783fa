-- ===== src/VmxCurrent/Coherent.antt =====
-- The bookkeeping of arch/x64/vmx/vmx.c is coherent.
use hyve_mind.Prelude.{
  ◌==◌, if◌then◌else◌, ==_iff, Bool-cases, Option-cases, some_injective, Exec, ret, die, ℕ, ◌≡◌,
  refl, sym, ap, subst, ◌∙◌, ◌≢◌, ◌↔◌, inl, inr, Bool, true, false, Option, none, some, arith,
  ℕ_discrete,
}
use hyve_mind.VmxCurrent.{
  VmxState, is_number, update, clear_on_cpu, clear_active, vmx_clear_vcpu, vmx_load_vcpu,
  after_load, vmx_make_vcpu_current, Reach, at_start, clears, makes_current,
}

-- What is current on a processor is active there.
abbrev pub IsCoherent : VmxState → Type 0
IsCoherent s = (cpu vcpu : ℕ) → s.curr_vcpu cpu ≡ some vcpu → s.active_cpu vcpu ≡ some cpu

is_number_iff : (o : Option ℕ) (n : ℕ) → (is_number o n ≡ true) ↔ (o ≡ some n)
is_number_iff none n = ((λ e. cc), (λ e. cc))
is_number_iff (some m) n =
    ((λ e. ap some ((==_iff m n).0 e)), (λ e. (==_iff m n).1 (some_injective m n e)))

-- What is still current once `vcpu` is no longer current on `cpu`.
drop_current :
    (curr : ℕ → Option ℕ) (cpu vcpu c v : ℕ)
    → (if is_number (curr cpu) vcpu then update curr cpu none else curr) c ≡ some v
    → (curr c ≡ some v) × (c ≡ cpu → v ≢ vcpu)
drop_current curr cpu vcpu c v e = elim (Bool-cases (is_number (curr cpu) vcpu)) [
  | inl was ↦
      let dropped : update curr cpu none c ≡ some v = sym (rw was refl) ∙ e in
      elim (ℕ_discrete c cpu) [
        | yes here ↦
            let at : (c == cpu) ≡ true = ground arith in
            let gone : none ≡ some v = sym (rw at refl) ∙ dropped in absurd (cc)
        | no ne ↦
            let other : (c == cpu) ≡ false = ground arith in
            (sym (rw other refl) ∙ dropped, λ here. absurd (ne here))
      ]
  | inr not_was ↦
      let kept : curr c ≡ some v = sym (rw not_was refl) ∙ e in
      (
        kept,
        λ here same.
            let is = (is_number_iff (curr cpu) vcpu).1 (ap curr (sym here) ∙ kept ∙ ap some same) in
            absurd (cc),
      )
]

clear_on_cpu-IsCoherent :
    (cpu vcpu : ℕ) (s : VmxState) → IsCoherent s → IsCoherent (clear_on_cpu cpu vcpu s)
unfolding clear_on_cpu
clear_on_cpu-IsCoherent cpu vcpu s h c v e = elim (Bool-cases (is_number (s.active_cpu vcpu) cpu)) [
  | inl mine ↦
      let current : (if is_number (s.curr_vcpu cpu) vcpu
              then update s.curr_vcpu cpu none
              else s.curr_vcpu)
            c
          ≡ some v =
        sym (rw mine refl) ∙ e in
      let (was, apart) = drop_current s.curr_vcpu cpu vcpu c v current in
      let active = (is_number_iff (s.active_cpu vcpu) cpu).0 mine in
      let other : v ≢ vcpu = λ same.
        apart (some_injective c cpu (sym (h c v was) ∙ ap s.active_cpu same ∙ active)) same in
      let differs : (v == vcpu) ≡ false = ground arith in rw (mine, differs) (h c v was)
  | inr not_mine ↦ rw not_mine (h c v (sym (rw not_mine refl) ∙ e))
]

-- A run that returns leaves a coherent state, and after a success the virtual processor is current.
abbrev Made : ℕ → ℕ → Exec (Bool × VmxState) → Type 0
Made cpu vcpu die = Unit {0}
Made cpu vcpu (ret (ok, s)) = IsCoherent s × (ok ≡ true → s.curr_vcpu cpu ≡ some vcpu)

loaded :
    (vmptrld : Bool) (cpu vcpu : ℕ) (s : VmxState)
    → IsCoherent s
    → s.active_cpu vcpu ≡ some cpu
    → is_number (s.curr_vcpu cpu) vcpu ≡ false
    → Made cpu vcpu (ret (after_load (vmx_load_vcpu vmptrld cpu vcpu s) cpu vcpu))
unfolding vmx_load_vcpu
loaded true cpu vcpu s h active absent =
    let this : (cpu == cpu) ≡ true = ground arith in (coherent, λ e. rw this refl)
  where
    coherent : IsCoherent (record s {
      active_cpu = update s.active_cpu vcpu (some cpu);
      curr_vcpu = update s.curr_vcpu cpu (some vcpu);
    })
    coherent c v e = elim (ℕ_discrete c cpu) [
      | yes here ↦
          let at : (c == cpu) ≡ true = ground arith in
          let same = some_injective vcpu v (sym (rw at refl) ∙ e) in
          let at_v : (v == vcpu) ≡ true = ground arith in rw at_v (ap some (sym here))
      | no ne ↦
          let other : (c == cpu) ≡ false = ground arith in
          let was = h c v (sym (rw other refl) ∙ e) in
          elim (ℕ_discrete v vcpu) [
            | yes same ↦
                absurd (ne (some_injective c cpu (sym was ∙ ap s.active_cpu same ∙ active)))
            | no apart ↦ let differs : (v == vcpu) ≡ false = ground arith in rw differs was
          ]
    ]
loaded false cpu vcpu s h active absent = (coherent, λ e. cc)
  where
    coherent : IsCoherent (record s { active_cpu = update s.active_cpu vcpu none })
    coherent c v e = elim (ℕ_discrete v vcpu) [
      | yes same ↦
          let here = some_injective c cpu (sym (h c v e) ∙ ap s.active_cpu same ∙ active) in
          let is =
            (is_number_iff (s.curr_vcpu cpu) vcpu).1
              (ap s.curr_vcpu (sym here) ∙ e ∙ ap some same) in
          absurd (cc)
      | no apart ↦ let differs : (v == vcpu) ≡ false = ground arith in rw differs (h c v e)
    ]

claimed-IsCoherent :
    (cpu vcpu : ℕ) (s : VmxState)
    → s.active_cpu vcpu ≡ none
    → IsCoherent s
    → IsCoherent (record s { active_cpu = update s.active_cpu vcpu (some cpu) })
claimed-IsCoherent cpu vcpu s free h c v e = elim (ℕ_discrete v vcpu) [
  | yes same ↦ let never = sym free ∙ ap s.active_cpu (sym same) ∙ h c v e in absurd (cc)
  | no apart ↦ let differs : (v == vcpu) ≡ false = ground arith in rw differs (h c v e)
]

-- Making a virtual processor current keeps the bookkeeping coherent, whatever vmptrld answers, and
-- after a success it is current. The machine halts where it would have to be taken from another
-- processor.
pub vmx_make_vcpu_current_lem :
    (vmptrld : Bool) (cpu vcpu : ℕ) (s : VmxState)
    → IsCoherent s
    → Made cpu vcpu (vmx_make_vcpu_current vmptrld cpu vcpu s)
unfolding vmx_make_vcpu_current vmx_clear_vcpu
vmx_make_vcpu_current_lem vmptrld cpu vcpu s h =
    elim (Bool-cases (is_number (s.curr_vcpu cpu) vcpu)) [
      | inl current ↦ rw current (h, λ e. (is_number_iff (s.curr_vcpu cpu) vcpu).0 current)
      | inr absent ↦ elim (Option-cases (s.active_cpu vcpu)) [
        | inl free ↦
            let this : (vcpu == vcpu) ≡ true = ground arith in
            let mine : (cpu == cpu) ≡ true = ground arith in
            rw (absent, free, this, mine)
              (loaded vmptrld cpu vcpu
                (record s { active_cpu = update s.active_cpu vcpu (some cpu) })
                (claimed-IsCoherent cpu vcpu s free h) (rw this refl) absent)
        | inr (a, active) ↦ elim (ℕ_discrete a cpu) [
          | yes same ↦
              let mine : (a == cpu) ≡ true = ground arith in
              rw (absent, active, active, mine)
                (loaded vmptrld cpu vcpu s h (active ∙ ap some same) absent)
          | no ne ↦
              let other : (a == cpu) ≡ false = ground arith in rw (absent, active, active, other) tt
        ]
      ]
    ]

abbrev Cleared : Exec VmxState → Type 0
Cleared die = Unit {0}
Cleared (ret s) = IsCoherent s

clear_active-Cleared :
    (o : Option ℕ) (cpu vcpu : ℕ) (s : VmxState)
    → IsCoherent s
    → Cleared (clear_active o cpu vcpu s)
clear_active-Cleared none cpu vcpu s h = h
clear_active-Cleared (some a) cpu vcpu s h = elim (Bool-cases (a == cpu)) [
  | inl mine ↦ rw mine (clear_on_cpu-IsCoherent cpu vcpu s h)
  | inr other ↦ rw other tt
]

-- However the processors clear virtual processors and make them current, in any order and whatever
-- vmptrld answers, what is current on a processor is active there. As it is active on one processor
-- at most, it is never current on two.
pub Reach-IsCoherent : (s : VmxState) → Reach s → IsCoherent s
unfolding vmx_clear_vcpu
Reach-IsCoherent _ (at_start launch) = λ c v e. cc
Reach-IsCoherent _ (clears s s' cpu vcpu r e) =
    subst Cleared e (clear_active-Cleared (s.active_cpu vcpu) cpu vcpu s (Reach-IsCoherent s r))
Reach-IsCoherent _ (makes_current s s' vmptrld ok cpu vcpu r e) =
    (subst (Made cpu vcpu) e
      (vmx_make_vcpu_current_lem vmptrld cpu vcpu s (Reach-IsCoherent s r))).0
