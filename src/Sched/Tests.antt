-- ===== src/Sched/Tests.antt =====
-- The scheduler at work, on a queue with the tasks 40 and 50.
use hyve_mind.Prelude.{
  ◌==◌, if◌then◌else◌, bit_at, ℕ, ◌<◌, ◌≡◌, refl, ◌⊎◌, inl, some, List, [], ◌∷◌, arith,
}
use hyve_mind.Sched.{
  task_runnable, task_blocked, cpu_init, cpu_idle, TaskQueue, SchedState, init_task_queue,
  tq_submit_task, tq_get_next_task, launched, schedule, invalid_cpuid, get_next_submission_tq_cpuid,
}
use hyve_mind.Sched.Queues.{
  Holds, Unqueued, init_task_queue_lem, tq_submit_task_lem, Taken, tq_get_next_task_lem,
}
use hyve_mind.Sched.Rounds.{schedule_idle}
use hyve_mind.Sched.Fairness.{rounds, rounds_lem}
use hyve_mind.Sched.Mask.{IsNextCpu, get_next_submission_tq_cpuid_lem}

abbrev queue : TaskQueue
queue = record { runnable_tasks = 10; blocked_tasks = 20; idle_task = 30 }

abbrev at_boot : SchedState
at_boot = record {
  links = record { prev = λ i. 0; next = λ i. 0 };
  task_state = λ i. if i == 50 then task_blocked else task_runnable;
  current = 0;
  cpu_state = cpu_init;
}

abbrev empty_queue : SchedState
empty_queue = init_task_queue queue at_boot

-- A task that comes back at once.
abbrev comes_back : ℕ → SchedState → SchedState
comes_back task s = s

empty_queue-Holds : Holds queue empty_queue [] []
empty_queue-Holds =
    init_task_queue_lem queue at_boot (λ e. omega (arith, e)) (λ e. omega (arith, e))
      (λ e. omega (arith, e))

Unqueued-above : (task : ℕ) → 20 < task → Unqueued queue task [] []
Unqueued-above task h = record {
  not_null = λ e. omega (arith, e);
  not_runnable = ((λ e. omega (arith, e)), tt);
  not_blocked = ((λ e. omega (arith, e)), tt);
}

tq_submit_task_lem_example : Holds queue (tq_submit_task queue empty_queue 50) [] (50 ∷ [])
tq_submit_task_lem_example =
    tq_submit_task_lem queue empty_queue 50 [] [] empty_queue-Holds
      (Unqueued-above 50 (omega arith))

one_task-Holds : Holds queue (tq_submit_task queue empty_queue 40) (40 ∷ []) []
one_task-Holds =
    tq_submit_task_lem queue empty_queue 40 [] [] empty_queue-Holds
      (Unqueued-above 40 (omega arith))

-- The tasks of a queue with one task.
abbrev one_task : List ℕ
one_task = 40 ∷ []

tq_get_next_task_lem_example :
    let s = tq_submit_task queue empty_queue 40 in
    ((one_task ≡ []) × (tq_get_next_task queue s ≡ (0, s)))
    ⊎ ((task : ℕ) × (later : List ℕ) × (s' : SchedState) × (one_task ≡ task ∷ later)
        × Taken queue s s' task later [])
tq_get_next_task_lem_example =
    tq_get_next_task_lem queue (tq_submit_task queue empty_queue 40) (40 ∷ []) [] one_task-Holds

schedule_idle_example :
    let s' = schedule comes_back queue empty_queue in
    (((launched queue (tq_get_next_task queue empty_queue)).1).cpu_state ≡ cpu_idle)
    × Holds queue s' (30 ∷ []) []
    × ((launched queue (tq_get_next_task queue s')).0 ≡ 30)
    × (((launched queue (tq_get_next_task queue s')).1).cpu_state ≡ cpu_init)
schedule_idle_example =
    schedule_idle comes_back queue (λ t r. refl) empty_queue [] empty_queue-Holds
      (Unqueued-above 30 (omega arith)) (λ r. refl)

rounds_lem_example :
    ((rounds comes_back queue 1 (tq_submit_task queue empty_queue 40)).0 ≡ 40 ∷ [])
    × Holds queue (rounds comes_back queue 1 (tq_submit_task queue empty_queue 40)).1 (40 ∷ []) []
rounds_lem_example =
    rounds_lem comes_back queue (λ t r. refl) (λ t r. refl) (40 ∷ []) [] []
      (tq_submit_task queue empty_queue 40) one_task-Holds

get_next_submission_tq_cpuid_lem_example :
    (c : ℕ) × (get_next_submission_tq_cpuid 2 5 2 ≡ some c)
    × (IsNextCpu 5 3 c
        ⊎ (((2 ≡ invalid_cpuid) ⊎ ((i : ℕ) → 2 < i → i < 32 → bit_at 5 i ≡ 0)) × IsNextCpu 5 0 c))
get_next_submission_tq_cpuid_lem_example =
    get_next_submission_tq_cpuid_lem 5 2 0 (omega arith) refl (inl (omega arith))
