-- ===== src/Timer/Tests.antt =====
-- The theorems on timers, applied to a heap of two timers.
use hyve_mind.Prelude.{
  ◌==◌, ret, ℕ, ◌+◌, ◌*◌, ◌≡◌, refl, ◌≢◌, inl, true, false, none, some, [], ◌∷◌, arith,
}
use hyve_mind.Timer.{
  timer_oneshot, timer_success, Timers, TimerHeap, init_timer_heap_capacity, largest_of, down_loop,
  heapify_down, delete_heap_element, delete_root, get_heap_root, World, arch_reprogram_timer,
  is_periodic, add_timer, rearm, run_timer, irq_loop, irq_timer_handler,
}
use hyve_mind.Timer.Contents.{one_if, occurrences_suc, occurrences_zero}
use hyve_mind.Timer.Heap.{IsValid, held, delete_root_lem}
use hyve_mind.Timer.Frequency.{
  TscSources, hpet_frequency, compute_tsc_frequency, compute_tsc_frequency_hpet,
}
use hyve_mind.Timer.Handler.{IsArmed, IsGood, add_timer_lem}
use hyve_mind.Timer.Interrupt.{
  KeepsFirst, Ran, IsSettled, AddsNone, irq_timer_handler_lem, irq_timer_handler_total,
}

-- The timer at address `p` elapses at ten times `p`.
abbrev some_timers : Timers
some_timers p = record {
  elapse_deadline = p * 10;
  periodic_ticks = 0;
  type = timer_oneshot;
  timer_action = 0;
  data_arg = 0;
  cpu = 0;
}

abbrev two_timers : TimerHeap
two_timers = record {
  flattened_tree = λ i. i;
  capacity = init_timer_heap_capacity;
  insertion_idx = 3;
}

two_timers-IsValid : IsValid some_timers two_timers
two_timers-IsValid = record {
  started = omega arith;
  bounded = omega arith;
  order = λ i lo hi. omega arith;
}

abbrev some_world : World
some_world = record {
  timers = some_timers;
  timer_heap = two_timers;
  tsc_deadline_timer_configured = true;
  msr_apic_tsc_deadline = 10;
}

some_world-IsGood : IsGood some_world
some_world-IsGood = record {
  valid = two_timers-IsValid;
  once = λ x.
      let t = two_timers.flattened_tree in
      let two = occurrences_suc t x 2 (omega arith) in
      let one = occurrences_suc t x 1 (omega arith) in
      let none_left = occurrences_zero t x in ground (arith, two, one, none_left);
}

abbrev no_action : ℕ → ℕ → ℕ → World → World
no_action f now d w = w

no_action-KeepsFirst : KeepsFirst no_action
no_action-KeepsFirst f now d w g = (g, refl)

no_action-AddsNone : AddsNone no_action
no_action-AddsNone f now d w shots = (shots, omega arith)

-- The first timer has elapsed at 15, the second has not.
irq_timer_handler_lem_example :
    let w' = (arch_reprogram_timer (run_timer no_action 15 some_world 1) 20).0 in
    IsGood w' × IsSettled (15 ∷ 15 ∷ []) w' × Ran no_action 15 (15 ∷ 15 ∷ []) some_world w'
unfolding irq_timer_handler irq_loop run_timer rearm is_periodic arch_reprogram_timer get_heap_root
    delete_root delete_heap_element heapify_down down_loop largest_of
irq_timer_handler_lem_example =
    irq_timer_handler_lem no_action no_action-KeepsFirst 15 (15 ∷ 15 ∷ []) some_world
      (arch_reprogram_timer (run_timer no_action 15 some_world 1) 20).0 some_world-IsGood refl

irq_timer_handler_total_example : irq_timer_handler no_action (30 ∷ 30 ∷ 30 ∷ []) some_world ≢ none
unfolding is_periodic
irq_timer_handler_total_example =
    irq_timer_handler_total no_action no_action-KeepsFirst (30 ∷ 30 ∷ 30 ∷ []) some_world
      no_action-AddsNone some_world-IsGood (λ x h. refl) (omega arith)

add_timer_lem_example :
    ((add_timer some_world 5).1 ≡ timer_success)
    × IsValid (add_timer some_world 5).0.timers (add_timer some_world 5).0.timer_heap
    × ((x : ℕ) → held (add_timer some_world 5).0.timer_heap x ≡ one_if (5 == x) + held two_timers x)
    × (IsArmed some_world → IsArmed (add_timer some_world 5).0)
add_timer_lem_example = add_timer_lem some_world 5 two_timers-IsValid (omega arith)

delete_root_lem_example :
    IsValid some_timers (delete_root some_timers two_timers)
    × ((delete_root some_timers two_timers).insertion_idx + 1 ≡ 3)
    × ((x : ℕ) → one_if (1 == x) + held (delete_root some_timers two_timers) x ≡ held two_timers x)
    × ((delete_root some_timers two_timers).capacity ≡ init_timer_heap_capacity)
unfolding get_heap_root
delete_root_lem_example = delete_root_lem some_timers two_timers 1 two_timers-IsValid refl

-- A Haswell with a ratio of 34, and a measurement of 340 million ticks in a tenth of a second.
abbrev haswell : TscSources
haswell = record {
  crystal_leaf_in_range = false;
  crystal_eax = 0;
  crystal_ebx = 0;
  crystal_ecx = 0;
  version_eax = 0x306c3;
  platform_info = 0x2200;
  hpet = some (1000, 340001000);
}

compute_tsc_frequency_hpet_example :
    compute_tsc_frequency haswell ≡ ret (hpet_frequency (some (1000, 340001000)))
compute_tsc_frequency_hpet_example = compute_tsc_frequency_hpet haswell (inl refl)
