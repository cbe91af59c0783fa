-- ===== src/Sched/Rounds.antt =====
-- What one round of `__schedule` of sched.c does to the task queue.
use hyve_mind.Prelude.{◌==◌, ℕ, ◌≡◌, refl, sym, ap, subst, ◌∙◌, true, false, List, [], ◌∷◌, arith}
use hyve_mind.Sched.{
  TaskSchedState, task_not_schedulable, task_runnable, task_running, task_blocked, task_killed,
  cpu_init, cpu_idle, TaskQueue, SchedState, set_task_state, submit_as, tq_submit_task,
  tq_get_next_task, launched, finished, schedule,
}
use hyve_mind.Sched.Queues.{
  Holds, Unqueued, runnable_after, blocked_after, tq_submit_task_lem, next_of_none, next_of_some,
}

Holds-links :
    (tq : TaskQueue) (s s' : SchedState) (rs bs : List ℕ)
    → s'.links ≡ s.links
    → Holds tq s rs bs
    → Holds tq s' rs bs
Holds-links tq s s' rs bs e h = record {
  runnable = rw e h.runnable;
  blocked = rw e h.blocked;
  apart = h.apart;
}

-- A task that comes back is added to the queue of its state.
finished-Holds :
    (tq : TaskQueue) (task : ℕ) (s s' : SchedState) (rs bs : List ℕ)
    → Holds tq s rs bs
    → Unqueued tq task rs bs
    → s'.links ≡ s.links
    → Holds tq
        (finished tq task s')
        (runnable_after (s'.task_state task) task rs)
        (blocked_after (s'.task_state task) task bs)
finished-Holds tq task s s' rs bs h u e =
    let back = record s' { cpu_state = cpu_init } in
    tq_submit_task_lem tq back task rs bs (Holds-links tq s back rs bs e h) u

submit-cpu_state :
    (tq : TaskQueue) (s : SchedState) (task : ℕ)
    → (tq_submit_task tq s task).cpu_state ≡ s.cpu_state
unfolding tq_submit_task
submit-cpu_state tq s task = by_state (s.task_state task)
  where
    by_state : (st : TaskSchedState) → (submit_as st tq s task).cpu_state ≡ s.cpu_state
    by_state task_running = refl
    by_state task_runnable = refl
    by_state task_blocked = refl
    by_state task_not_schedulable = refl
    by_state task_killed = refl

module _ (launch_task : ℕ → SchedState → SchedState) (tq : TaskQueue)
    (keeps : (t : ℕ) (r : SchedState) → (launch_task t r).links ≡ r.links) where
  -- A round launches the task that has been runnable longest, as a running task. If tasks leave the
  -- queues alone, it is then at the end of the queue of the state it has come back with, and all
  -- other tasks are where they were.
  pub schedule_lem :
      (s : SchedState) (task : ℕ) (later bs : List ℕ)
      → Holds tq s (task ∷ later) bs
      → (r : SchedState) × (launched tq (tq_get_next_task tq s) ≡ (task, r))
        × (r.task_state task ≡ task_running)
        × (r.cpu_state ≡ s.cpu_state)
        × Holds tq
            (schedule launch_task tq s)
            (runnable_after ((launch_task task r).task_state task) task later)
            (blocked_after ((launch_task task r).task_state task) task bs)
  unfolding schedule
  schedule_lem s task later bs h =
      let (s', t) = next_of_some tq s task later bs h in
      let r = set_task_state (record s' { current = task }) task_running in
      let present : (task == 0) ≡ false = let n = t.unqueued.not_null in ground arith in
      let launches : launched tq (tq_get_next_task tq s) ≡ (task, r) = rw (t.got, present) refl in
      let this : (task == task) ≡ true = ground arith in
      (
        r,
        launches,
        rw this refl,
        ap (λ (x : SchedState). x.cpu_state) t.same,
        subst
            (λ (x : ℕ × SchedState).
              Holds tq (finished tq x.0 (launch_task x.0 x.1))
                (runnable_after ((launch_task task r).task_state task) task later)
                (blocked_after ((launch_task task r).task_state task) task bs))
            (sym launches)
            (finished-Holds tq task s' (launch_task task r) later bs t.queue t.unqueued
              (keeps task r)),
      )

  -- A round without a runnable task launches the idle task, and then, the idle task being in state
  -- running, adds it to the runnable tasks. The next round takes it from there, and this time the
  -- processor is not marked as idle.
  pub schedule_idle :
      (s : SchedState) (bs : List ℕ)
      → Holds tq s [] bs
      → Unqueued tq tq.idle_task [] bs
      → ((r : SchedState) → (launch_task tq.idle_task r).task_state ≡ r.task_state)
      → let s' = schedule launch_task tq s in
        (((launched tq (tq_get_next_task tq s)).1).cpu_state ≡ cpu_idle)
        × Holds tq s' (tq.idle_task ∷ []) bs
        × ((launched tq (tq_get_next_task tq s')).0 ≡ tq.idle_task)
        × (((launched tq (tq_get_next_task tq s')).1).cpu_state ≡ cpu_init)
  unfolding schedule
  schedule_idle s bs h u back =
      let (r', launches', state', cpu', queue') = schedule_lem after tq.idle_task [] bs queue in
      (
        ap (λ (x : ℕ × SchedState). x.1.cpu_state) launches,
        queue,
        ap (λ (x : ℕ × SchedState). x.0) launches',
        ap (λ (x : ℕ × SchedState). x.1.cpu_state) launches' ∙ cpu' ∙ busy,
      )
    where
      r : SchedState
      r = set_task_state (record s { cpu_state = cpu_idle; current = tq.idle_task }) task_running

      after : SchedState
      after = schedule launch_task tq s

      launches : launched tq (tq_get_next_task tq s) ≡ (tq.idle_task, r)
      launches = rw (next_of_none tq s bs h) refl

      this : (tq.idle_task == tq.idle_task) ≡ true
      this = ground arith

      still_running : (launch_task tq.idle_task r).task_state tq.idle_task ≡ task_running
      still_running = ap (λ (f : ℕ → TaskSchedState). f tq.idle_task) (back r) ∙ rw this refl

      ends : after ≡ finished tq tq.idle_task (launch_task tq.idle_task r)
      ends = ap (λ (x : ℕ × SchedState). finished tq x.0 (launch_task x.0 x.1)) launches

      queue : Holds tq after (tq.idle_task ∷ []) bs
      queue =
          subst (λ (x : SchedState). Holds tq x (tq.idle_task ∷ []) bs) (sym ends)
            (subst
              (λ (st : TaskSchedState).
                Holds tq (finished tq tq.idle_task (launch_task tq.idle_task r))
                  (runnable_after st tq.idle_task []) (blocked_after st tq.idle_task bs))
              still_running
              (finished-Holds tq tq.idle_task s (launch_task tq.idle_task r) [] bs h u
                (keeps tq.idle_task r)))

      busy : after.cpu_state ≡ cpu_init
      busy =
          ap (λ (x : SchedState). x.cpu_state) ends
          ∙ submit-cpu_state tq (record (launch_task tq.idle_task r) { cpu_state = cpu_init })
              tq.idle_task
