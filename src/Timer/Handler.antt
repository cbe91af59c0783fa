-- ===== src/Timer/Handler.antt =====
-- `add_timer` of timer.c, and the timers that the interrupt handler adds again.
use hyve_mind.Prelude.{
  ◌==◌, Bool-cases, Option-cases, ℕ, ◌+◌, ◌/◌, ◌%◌, ◌^◌, ◌≤◌, ◌<◌, ◌≡◌, refl, sym, ap, subst, ◌∙◌,
  ◌≢◌, inl, inr, true, false, some, arith, ℕ_discrete,
}
use hyve_mind.Timer.{
  timer_success, Timer, Timers, TimerHeap, heap_max_idx, store, get_heap_root, heap_add_timer,
  World, apic_program_tsc_deadline_timer, arch_reprogram_timer, is_success, is_periodic, add_timer,
  rearm,
}
use hyve_mind.Timer.Contents.{one_if, occurrences_pos}
use hyve_mind.Timer.Heap.{
  IsValid, held, heap_add_timer_lem, get_heap_root_least, get_heap_root-none,
}

-- The hardware timer stands at the earliest deadline of the heap.
abbrev pub IsArmed : World → Type 0
IsArmed w =
    (root : ℕ)
    → get_heap_root w.timer_heap ≡ some root
    → w.msr_apic_tsc_deadline ≡ (w.timers root).elapse_deadline

-- A valid heap that holds no timer twice.
pub record IsGood (w : World) : Type 0 where
  pub valid : IsValid w.timers w.timer_heap
  pub once : (x : ℕ) → held w.timer_heap x ≤ 1

-- The root after a timer is added: its deadline is the new timer's, or the root's before.
add_timer_root :
    (w : World) (timer root : ℕ)
    → IsValid w.timers w.timer_heap
    → w.timer_heap.insertion_idx < w.timer_heap.capacity
    → get_heap_root (heap_add_timer w.timers w.timer_heap timer).0 ≡ some root
    → (w.timers root).elapse_deadline ≢ (w.timers timer).elapse_deadline
    → IsArmed w
    → w.msr_apic_tsc_deadline ≡ (w.timers root).elapse_deadline
add_timer_root w timer root v room e ne armed = elim (Option-cases (get_heap_root w.timer_heap)) [
  | inl none_before ↦
      absurd (omega (arith, get_heap_root-none w.timer_heap root none_before, held_before))
  | inr (old, was) ↦
      let below = (get_heap_root_least w.timers w.timer_heap old root v was).1 held_before in
      let old_held = (get_heap_root_least w.timers w.timer_heap old root v was).0 in
      let above =
        (get_heap_root_least w.timers _ root old a.1 e).1 (omega (arith, a.3 old, old_held)) in
      omega (arith, armed old was, below, above)
]
  where
    a :
        ((heap_add_timer w.timers w.timer_heap timer).1 ≡ timer_success)
        × IsValid w.timers (heap_add_timer w.timers w.timer_heap timer).0
        × ((heap_add_timer w.timers w.timer_heap timer).0.insertion_idx
            ≡ w.timer_heap.insertion_idx + 1)
        × ((x : ℕ)
            → held (heap_add_timer w.timers w.timer_heap timer).0 x
              ≡ one_if (timer == x) + held w.timer_heap x)
    a = heap_add_timer_lem w.timers w.timer_heap timer v room

    different : (timer == root) ≡ false
    different = elim (ℕ_discrete timer root) [
      | yes q ↦ absurd (ne (ap (λ (t : ℕ). (w.timers t).elapse_deadline) (sym q)))
      | no n ↦ ground arith
    ]

    held_before : 1 ≤ held w.timer_heap root
    held_before =
        let now = (get_heap_root_least w.timers _ root root a.1 e).0 in
        let step = a.3 root in omega (arith, now, step, ap one_if different)

pub add_timer_eq :
    (w : World) (timer : ℕ)
    → (heap_add_timer w.timers w.timer_heap timer).1 ≡ timer_success
    → ((add_timer w timer).1 ≡ timer_success)
      × ((add_timer w timer).0.timers ≡ w.timers)
      × ((add_timer w timer).0.timer_heap ≡ (heap_add_timer w.timers w.timer_heap timer).0)
      × ((root : ℕ)
          → get_heap_root (heap_add_timer w.timers w.timer_heap timer).0 ≡ some root
          → ((w.timers root).elapse_deadline ≢ (w.timers timer).elapse_deadline
              → w.msr_apic_tsc_deadline ≡ (w.timers root).elapse_deadline)
          → (add_timer w timer).0.msr_apic_tsc_deadline ≡ (w.timers root).elapse_deadline)
unfolding add_timer arch_reprogram_timer apic_program_tsc_deadline_timer is_success
add_timer_eq w timer e = (
  ground arith,
  ground arith,
  ground arith,
  λ root er same_or.
      elim (ℕ_discrete (w.timers root).elapse_deadline (w.timers timer).elapse_deadline) [
        | yes q ↦ ground arith
        | no n ↦ let kept = same_or n in ground (arith, kept)
      ],
)

-- Adding a timer to a valid heap with room succeeds, and leaves a valid heap that holds the timer once
-- more. Where the hardware timer stood at the earliest deadline of the heap before, or the heap was
-- empty, it stands at the earliest deadline after.
pub add_timer_lem :
    (w : World) (timer : ℕ)
    → IsValid w.timers w.timer_heap
    → w.timer_heap.insertion_idx < w.timer_heap.capacity
    → ((add_timer w timer).1 ≡ timer_success)
      × IsValid (add_timer w timer).0.timers (add_timer w timer).0.timer_heap
      × ((x : ℕ)
          → held (add_timer w timer).0.timer_heap x ≡ one_if (timer == x) + held w.timer_heap x)
      × (IsArmed w → IsArmed (add_timer w timer).0)
add_timer_lem w timer v room =
    let a = heap_add_timer_lem w.timers w.timer_heap timer v room in
    let q = add_timer_eq w timer a.0 in
    (
      q.0,
      rw (q.1, q.2) a.1,
      λ x. rw q.2 (a.3 x),
      λ armed root e.
          let e' = subst (λ (h : TimerHeap). get_heap_root h ≡ some root) q.2 e in
          q.3 root e' (λ ne. add_timer_root w timer root v room e' ne armed)
          ∙ ap (λ (ts : Timers). (ts root).elapse_deadline) (sym q.1),
    )

add_timer-IsGood :
    (w : World) (timer : ℕ)
    → IsGood w
    → w.timer_heap.insertion_idx < w.timer_heap.capacity
    → held w.timer_heap timer ≡ 0
    → IsGood (add_timer w timer).0
add_timer-IsGood w timer g room absent =
    let a = add_timer_lem w timer g.valid room in
    record {
      valid = a.1;
      once = λ x. elim (ℕ_discrete timer x) [
        | yes e ↦
            let same = ap (held w.timer_heap) e in let step = a.2 x in ground (arith, step, same)
        | no n ↦ let step = a.2 x in let once = g.once x in ground (arith, step, once)
      ];
    }

-- A change of a timer that is not on the heap.
store-IsValid :
    (ts : Timers) (heap : TimerHeap) (timer : ℕ) (t : Timer)
    → IsValid ts heap
    → held heap timer ≡ 0
    → IsValid (store ts timer t) heap
store-IsValid ts heap timer t v absent = record {
  started = v.started;
  bounded = v.bounded;
  order = λ i lo hi.
      let order = v.order i lo hi in
      let child = elsewhere i (omega arith) hi in
      let parent = elsewhere (i / 2) (omega arith) (omega arith) in
      ground (arith, order, child, parent);
}
  where
    elsewhere : (i : ℕ) → 1 ≤ i → i < heap.insertion_idx → (heap.flattened_tree i == timer) ≡ false
    elsewhere i lo hi = elim (ℕ_discrete (heap.flattened_tree i) timer) [
      | yes e ↦
          let pos = occurrences_pos heap.flattened_tree (heap_max_idx heap) i lo (omega arith) in
          absurd (omega (arith, pos, absent, ap (held heap) e))
      | no n ↦ ground arith
    ]

pub rearm-IsGood :
    (w : World) (timer : ℕ)
    → IsGood w
    → w.timer_heap.insertion_idx < w.timer_heap.capacity
    → held w.timer_heap timer ≡ 0
    → IsGood (rearm w timer)
unfolding rearm
rearm-IsGood w timer g room absent = elim (Bool-cases (is_periodic (w.timers timer).type)) [
  | inl e ↦ rw e (
      add_timer-IsGood _ timer
        (record {
          valid = store-IsValid w.timers w.timer_heap timer _ g.valid absent;
          once = g.once;
        })
        room absent)
  | inr e ↦ rw e g
]

-- A one-shot timer is left off the heap, and a periodic one is back on it with its next deadline.
pub rearm_lem :
    (w : World) (timer : ℕ)
    → IsGood w
    → w.timer_heap.insertion_idx < w.timer_heap.capacity
    → held w.timer_heap timer ≡ 0
    → (is_periodic (w.timers timer).type ≡ true
        → ((x : ℕ) → held (rearm w timer).timer_heap x ≡ one_if (timer == x) + held w.timer_heap x)
          × (((rearm w timer).timers timer).elapse_deadline
              ≡ ((w.timers timer).elapse_deadline + (w.timers timer).periodic_ticks) % 2 ^ 64))
      × (is_periodic (w.timers timer).type ≡ false → rearm w timer ≡ w)
      × ((x : ℕ) → x ≢ timer → (rearm w timer).timers x ≡ w.timers x)
unfolding rearm
rearm_lem w timer g room absent = elim (Bool-cases (is_periodic (w.timers timer).type)) [
  | inl e ↦ rw e (
    λ y. (
      (add_timer_lem later timer later_valid room).2,
      ap (λ (ts : Timers). (ts timer).elapse_deadline) kept ∙ ground arith,
    ),
    λ n. absurd (cc),
    λ x ne. ap (λ (ts : Timers). ts x) kept ∙ ground arith,
  )
  | inr e ↦ rw e (λ y. absurd (cc), λ n. refl, λ x ne. refl)
]
  where
    t : Timer
    t = w.timers timer

    later : World
    later = record w {
      timers =
          store w.timers timer
            (record t { elapse_deadline = (t.elapse_deadline + t.periodic_ticks) % 2 ^ 64 });
    }

    later_valid : IsValid later.timers later.timer_heap
    later_valid = store-IsValid w.timers w.timer_heap timer _ g.valid absent

    kept : (add_timer later timer).0.timers ≡ later.timers
    kept = (add_timer_eq later timer (heap_add_timer_lem _ _ timer later_valid room).0).1
