-- ===== src/Timer/Interrupt.antt =====
-- The timer interrupt of timer.c: `irq_timer_handler` and the actions that it calls.
--
-- The actions are functions behind pointers, none of which the repository defines. The handler deletes
-- the first timer of the heap after the action, so an action has to leave that timer the first.
use hyve_mind.Prelude.{
  ◌==◌, Option-cases, length, get_elem?, ℕ, suc, ◌+◌, ◌%◌, ◌^◌, ◌≤◌, ◌<◌, ◌≡◌, refl, sym, ap, subst,
  ◌∙◌, ◌≢◌, ◌⊎◌, inl, inr, true, false, none, some, List, [], ◌∷◌, arith, dec_lt,
}
use hyve_mind.Timer.{
  delete_root, get_heap_root, World, apic_program_tsc_deadline_timer, arch_reprogram_timer,
  is_periodic, rearm, run_timer, irq_loop, irq_timer_handler,
}
use hyve_mind.Timer.Contents.{one_if}
use hyve_mind.Timer.Heap.{held, root_is_first, delete_root_lem}
use hyve_mind.Timer.Handler.{IsGood, rearm-IsGood, rearm_lem}

-- The world after the action of the timer at `root`.
abbrev pub acted : (ℕ → ℕ → ℕ → World → World) → ℕ → ℕ → World → World
acted timer_action now root w =
    timer_action (w.timers root).timer_action now (w.timers root).data_arg w

-- An action leaves a good heap good, and its first timer the first. It may change all else: it may
-- take timers off, and add later ones.
abbrev pub KeepsFirst : (ℕ → ℕ → ℕ → World → World) → Type 0
KeepsFirst timer_action =
    (f now d : ℕ) (w : World)
    → IsGood w
    → IsGood (timer_action f now d w)
      × (get_heap_root (timer_action f now d w).timer_heap ≡ get_heap_root w.timer_heap)

-- From `w`, the timer at `root` has run: its action has, and then it is back on the heap with its next
-- deadline if it is periodic, and off the heap if it is not. No other timer has changed since its action.
pub record HasRun (timer_action : ℕ → ℕ → ℕ → World → World) (now root : ℕ) (w w' : World)
    : Type 0 where
  pub periodic :
      is_periodic ((acted timer_action now root w).timers root).type ≡ true
      → ((x : ℕ) → held w'.timer_heap x ≡ held (acted timer_action now root w).timer_heap x)
        × ((w'.timers root).elapse_deadline
            ≡ (((acted timer_action now root w).timers root).elapse_deadline
                + ((acted timer_action now root w).timers root).periodic_ticks)
              % 2 ^ 64)
  pub oneshot :
      is_periodic ((acted timer_action now root w).timers root).type ≡ false
      → (x : ℕ)
      → one_if (root == x) + held w'.timer_heap x
        ≡ held (acted timer_action now root w).timer_heap x
  pub others : (x : ℕ) → x ≢ root → w'.timers x ≡ (acted timer_action now root w).timers x

-- From `w` to `w'` the first timer of the heap has run once for each of some first readings, each time
-- because its deadline was not after the reading. The hardware timer plays no part.
pub data Ran (timer_action : ℕ → ℕ → ℕ → World → World) (now : ℕ)
    : List ℕ → World → World → Type 0 where
  ended :
      {readings : List ℕ} {w w' : World}
      → w'.timers ≡ w.timers
      → w'.timer_heap ≡ w.timer_heap
      → Ran timer_action now readings w w'
  run_first :
      {tsc : ℕ} {rest : List ℕ} {w w1 w' : World} (root : ℕ)
      → get_heap_root w.timer_heap ≡ some root
      → (w.timers root).elapse_deadline ≤ tsc
      → HasRun timer_action now root w w1
      → Ran timer_action now rest w1 w'
      → Ran timer_action now (tsc ∷ rest) w w'

-- What is on the heap is not due at one of the readings, and the hardware timer stands at the
-- earliest deadline.
abbrev pub IsSettled : List ℕ → World → Type 0
IsSettled readings w =
    (get_heap_root w.timer_heap ≡ none)
    ⊎ ((root i tsc : ℕ) × (get_heap_root w.timer_heap ≡ some root)
        × (get_elem? readings i ≡ some tsc)
        × (tsc < (w.timers root).elapse_deadline)
        × (w.msr_apic_tsc_deadline ≡ (w.timers root).elapse_deadline))

IsSettled-later :
    (tsc : ℕ) (rest : List ℕ) (w : World) → IsSettled rest w → IsSettled (tsc ∷ rest) w
IsSettled-later tsc rest w (inl z) = inl z
IsSettled-later tsc rest w (inr (root, i, t, r, at, lt, msr)) = inr (root, suc i, t, r, at, lt, msr)

-- Every timer on the heap runs once.
abbrev pub AreOneshot : World → Type 0
AreOneshot w = (x : ℕ) → 1 ≤ held w.timer_heap x → is_periodic (w.timers x).type ≡ false

-- An action adds no timers, and no periodic one, to a heap of one-shot timers.
abbrev pub AddsNone : (ℕ → ℕ → ℕ → World → World) → Type 0
AddsNone timer_action =
    (f now d : ℕ) (w : World)
    → AreOneshot w
    → AreOneshot (timer_action f now d w)
      × ((timer_action f now d w).timer_heap.insertion_idx ≤ w.timer_heap.insertion_idx)

module _ (timer_action : ℕ → ℕ → ℕ → World → World) where
  irq_end :
      (now : ℕ) (w w' : World)
      → irq_loop timer_action now [] w ≡ some w'
      → (get_heap_root w.timer_heap ≡ none) × (w ≡ w')
  unfolding irq_loop
  irq_end now w w' e = elim (Option-cases (get_heap_root w.timer_heap)) [
    | inl z ↦ (z, ground arith)
    | inr (root, r) ↦ absurd (ground arith)
  ]

  irq_step :
      (now tsc : ℕ) (rest : List ℕ) (w w' : World)
      → irq_loop timer_action now (tsc ∷ rest) w ≡ some w'
      → ((get_heap_root w.timer_heap ≡ none) × (w ≡ w'))
        ⊎ ((root : ℕ) × (get_heap_root w.timer_heap ≡ some root)
            × (tsc < (w.timers root).elapse_deadline)
            × ((arch_reprogram_timer w (w.timers root).elapse_deadline).0 ≡ w'))
        ⊎ ((root : ℕ) × (get_heap_root w.timer_heap ≡ some root)
            × ((w.timers root).elapse_deadline ≤ tsc)
            × (irq_loop timer_action now rest (run_timer timer_action now w root) ≡ some w'))
  unfolding irq_loop
  irq_step now tsc rest w w' e = elim (Option-cases (get_heap_root w.timer_heap)) [
    | inl z ↦ inl (z, ground arith)
    | inr (root, r) ↦ elim (dec_lt tsc (w.timers root).elapse_deadline) [
      | yes lt ↦ inr (inl (root, r, lt, ground arith))
      | no ge ↦ inr (inr (root, r, omega (arith, ge), ground arith))
    ]
  ]

  reprogrammed :
      (root tsc i : ℕ) (readings : List ℕ) (w : World)
      → IsGood w
      → get_heap_root w.timer_heap ≡ some root
      → get_elem? readings i ≡ some tsc
      → tsc < (w.timers root).elapse_deadline
      → IsGood (arch_reprogram_timer w (w.timers root).elapse_deadline).0
        × IsSettled readings (arch_reprogram_timer w (w.timers root).elapse_deadline).0
  unfolding arch_reprogram_timer apic_program_tsc_deadline_timer
  reprogrammed root tsc i readings w g r at lt =
      (record { valid = g.valid; once = g.once }, inr (root, i, tsc, r, at, lt, refl))

  reprogrammed-Ran :
      (now : ℕ) (readings : List ℕ) (w : World) (deadline : ℕ)
      → Ran timer_action now readings w (arch_reprogram_timer w deadline).0
  unfolding arch_reprogram_timer apic_program_tsc_deadline_timer
  reprogrammed-Ran now readings w deadline = ended refl refl

module _ (timer_action : ℕ → ℕ → ℕ → World → World) (keeps : KeepsFirst timer_action) where
  -- The world once the timer that ran is deleted.
  abbrev deleted : ℕ → ℕ → World → World
  deleted now root w =
      let a = acted timer_action now root w in
      record a { timer_heap = delete_root a.timers a.timer_heap }

  root_after :
      (now root : ℕ) (w : World)
      → IsGood w
      → get_heap_root w.timer_heap ≡ some root
      → get_heap_root (acted timer_action now root w).timer_heap ≡ some root
  root_after now root w g e =
      (keeps (w.timers root).timer_action now (w.timers root).data_arg w g).1 ∙ e

  deleted_lem :
      (now root : ℕ) (w : World)
      → IsGood w
      → get_heap_root w.timer_heap ≡ some root
      → IsGood (deleted now root w)
        × ((deleted now root w).timer_heap.insertion_idx < (deleted now root w).timer_heap.capacity)
        × (held (deleted now root w).timer_heap root ≡ 0)
        × ((x : ℕ)
            → one_if (root == x) + held (deleted now root w).timer_heap x
              ≡ held (acted timer_action now root w).timer_heap x)
        × ((deleted now root w).timer_heap.insertion_idx + 1
            ≡ (acted timer_action now root w).timer_heap.insertion_idx)
  deleted_lem now root w g e =
      let a = acted timer_action now root w in
      let good = (keeps (w.timers root).timer_action now (w.timers root).data_arg w g).0 in
      let d = delete_root_lem a.timers a.timer_heap root good.valid (root_after now root w g e) in
      (
        record {
          valid = d.0;
          once = λ x. let q = d.2 x in let once = good.once x in omega (arith, q, once);
        },
        omega (arith, d.1, d.3, good.valid.bounded),
        let q = d.2 root in let once = good.once root in ground (arith, q, once),
        d.2,
        d.1,
      )

  run_timer-HasRun :
      (now root : ℕ) (w : World)
      → IsGood w
      → get_heap_root w.timer_heap ≡ some root
      → IsGood (run_timer timer_action now w root)
        × HasRun timer_action now root w (run_timer timer_action now w root)
  unfolding run_timer
  run_timer-HasRun now root w g e =
      let (good, room, absent, counts, size) = deleted_lem now root w g e in
      let r = rearm_lem (deleted now root w) root good room absent in
      (
        rearm-IsGood (deleted now root w) root good room absent,
        record {
          periodic = λ p. ((λ x. (r.0 p).0 x ∙ counts x), (r.0 p).1);
          oneshot = λ p x.
              ap (λ (v : World). one_if (root == x) + held v.timer_heap x) (r.1 p) ∙ counts x;
          others = r.2;
        },
      )

  irq_loop_lem :
      (now : ℕ) (readings : List ℕ) (w w' : World)
      → IsGood w
      → irq_loop timer_action now readings w ≡ some w'
      → IsGood w' × IsSettled readings w' × Ran timer_action now readings w w'
  irq_loop_lem now [] w w' g e =
      let (z, q) = irq_end timer_action now w w' e in
      subst (λ v. IsGood v × IsSettled [] v × Ran timer_action now [] w v) q
        (g, inl z, ended refl refl)
  irq_loop_lem now (tsc ∷ rest) w w' g e = elim (irq_step timer_action now tsc rest w w' e) [
    | inl (z, q) ↦
        subst (λ v. IsGood v × IsSettled (tsc ∷ rest) v × Ran timer_action now (tsc ∷ rest) w v) q
          (g, inl z, ended refl refl)
    | inr (inl (root, r, lt, q)) ↦
        let (good, settled) = reprogrammed timer_action root tsc 0 (tsc ∷ rest) w g r refl lt in
        subst (λ v. IsGood v × IsSettled (tsc ∷ rest) v × Ran timer_action now (tsc ∷ rest) w v) q
          (good, settled, reprogrammed-Ran timer_action now (tsc ∷ rest) w _)
    | inr (inr (root, r, due, q)) ↦
        let next = run_timer-HasRun now root w g r in
        let later = irq_loop_lem now rest (run_timer timer_action now w root) w' next.0 q in
        (later.0, IsSettled-later tsc rest w' later.1, run_first root r due next.1 later.2)
  ]

  -- Where the heap is valid and holds no timer twice, every action keeps it so and leaves its first
  -- timer the first, and the handler returns: the first timer of the heap has run for each of some
  -- first readings, one at a time and because it was due at that reading, with its action called, and
  -- is off the heap if it is a one-shot timer and back with its next deadline if it is periodic. The
  -- heap is again valid without a timer held twice, its first timer is not due at one of the readings,
  -- and the hardware timer stands at its deadline, or the heap is empty.
  pub irq_timer_handler_lem :
      (now : ℕ) (readings : List ℕ) (w w' : World)
      → IsGood w
      → irq_timer_handler timer_action (now ∷ readings) w ≡ some w'
      → IsGood w' × IsSettled readings w' × Ran timer_action now readings w w'
  unfolding irq_timer_handler
  irq_timer_handler_lem now readings w w' g e = irq_loop_lem now readings w w' g e

  run_timer-AreOneshot :
      (now root : ℕ) (w : World)
      → AddsNone timer_action
      → AreOneshot w
      → IsGood w
      → get_heap_root w.timer_heap ≡ some root
      → AreOneshot (run_timer timer_action now w root)
        × ((run_timer timer_action now w root).timer_heap.insertion_idx + 1
            ≤ w.timer_heap.insertion_idx)
  unfolding run_timer
  run_timer-AreOneshot now root w adds shots g e =
      let (good, room, absent, counts, size) = deleted_lem now root w g e in
      let a = adds (w.timers root).timer_action now (w.timers root).data_arg w shots in
      let same : rearm (deleted now root w) root ≡ deleted now root w =
        (rearm_lem (deleted now root w) root good room absent).1
          (a.0 root (let c = counts root in ground (arith, c))) in
      subst
        (λ (v : World).
          AreOneshot v × (v.timer_heap.insertion_idx + 1 ≤ w.timer_heap.insertion_idx))
        (sym same) (λ x h. a.0 x (omega (arith, h, counts x)), omega (arith, size, a.1))

  irq_loop_ends :
      (now : ℕ) (readings : List ℕ) (w : World)
      → AddsNone timer_action
      → IsGood w
      → AreOneshot w
      → w.timer_heap.insertion_idx ≤ length readings + 1
      → irq_loop timer_action now readings w ≢ none
  unfolding irq_loop
  irq_loop_ends now [] w adds g shots le = elim (Option-cases (get_heap_root w.timer_heap)) [
    | inl z ↦ ground arith
    | inr (root, r) ↦ absurd (omega (arith, root_is_first w.timer_heap root r, le))
  ]
  irq_loop_ends now (tsc ∷ rest) w adds g shots le =
      elim (Option-cases (get_heap_root w.timer_heap)) [
        | inl z ↦ ground arith
        | inr (root, r) ↦
            let next = run_timer-AreOneshot now root w adds shots g r in
            let later =
              irq_loop_ends now rest (run_timer timer_action now w root) adds
                (run_timer-HasRun now root w g r).0 next.0 (omega (arith, next.1, le)) in
            ground (arith, later)
      ]

  -- Where the heap is valid, holds no timer twice and one-shot timers only, and every action keeps it
  -- so, adds no timer and leaves the first timer the first, the handler ends: one reading for each
  -- timer, and one more for `now`, are enough.
  pub irq_timer_handler_total :
      (readings : List ℕ) (w : World)
      → AddsNone timer_action
      → IsGood w
      → AreOneshot w
      → w.timer_heap.insertion_idx ≤ length readings
      → irq_timer_handler timer_action readings w ≢ none
  unfolding irq_timer_handler
  irq_timer_handler_total [] w adds g shots le = absurd (omega (arith, g.valid.started, le))
  irq_timer_handler_total (now ∷ readings) w adds g shots le =
      irq_loop_ends now readings w adds g shots (omega (arith, le))
