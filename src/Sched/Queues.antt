-- ===== src/Sched/Queues.antt =====
-- The task queue of sched.c as two lists of tasks.
use hyve_mind.Prelude.{
  ℕ, ◌≡◌, refl, sym, ◌≢◌, ◌⊎◌, inl, inr, true, false, List, [], ◌∷◌, ◌++◌, arith,
}
use hyve_mind.LinkedList.Chain.{NotIn, IsListOf}
use hyve_mind.LinkedList.Apart.{
  Apart, Apart-sym, Apart-append, list_add_tail-Apart, list_remove_head-Apart,
}
use hyve_mind.Sched.{
  TaskSchedState, task_not_schedulable, task_runnable, task_running, task_blocked, task_killed,
  TaskQueue, SchedState, init_task_queue, tq_submit_blocked_task, tq_submit_runnable_task,
  submit_as, tq_submit_task, tq_get_next_task,
}
use hyve_mind.LinkedList.{init_list_head, list_remove_head, is_list_empty}
use hyve_mind.LinkedList.Operations.{init_list_head_lem, list_add_tail_lem, list_remove_head_lem}

-- The pointers spell out the runnable tasks `rs` and the blocked tasks `bs`, which have no task in common.
pub record Holds (tq : TaskQueue) (s : SchedState) (rs bs : List ℕ) : Type 0 where
  pub runnable : IsListOf s.links tq.runnable_tasks rs
  pub blocked : IsListOf s.links tq.blocked_tasks bs
  pub apart : Apart (tq.runnable_tasks ∷ rs) (tq.blocked_tasks ∷ bs)

-- A task that is in no queue.
pub record Unqueued (tq : TaskQueue) (task : ℕ) (rs bs : List ℕ) : Type 0 where
  pub not_null : task ≢ 0
  pub not_runnable : NotIn task (tq.runnable_tasks ∷ rs)
  pub not_blocked : NotIn task (tq.blocked_tasks ∷ bs)

abbrev pub runnable_after : TaskSchedState → ℕ → List ℕ → List ℕ
runnable_after task_running task rs = rs ++ task ∷ []
runnable_after task_runnable task rs = rs ++ task ∷ []
runnable_after task_blocked task rs = rs
runnable_after task_not_schedulable task rs = rs
runnable_after task_killed task rs = rs

abbrev pub blocked_after : TaskSchedState → ℕ → List ℕ → List ℕ
blocked_after task_running task bs = bs
blocked_after task_runnable task bs = bs
blocked_after task_blocked task bs = bs ++ task ∷ []
blocked_after task_not_schedulable task bs = bs
blocked_after task_killed task bs = bs

-- A queue that was just initialized has no tasks.
pub init_task_queue_lem :
    (tq : TaskQueue) (s : SchedState)
    → tq.runnable_tasks ≢ 0
    → tq.blocked_tasks ≢ 0
    → tq.runnable_tasks ≢ tq.blocked_tasks
    → Holds tq (init_task_queue tq s) [] []
init_task_queue_lem tq s r b d = record {
  runnable = ((ground arith, ground arith), (tt, tt), ((λ e. r (sym e)), tt));
  blocked = init_list_head_lem (init_list_head s.links tq.runnable_tasks) tq.blocked_tasks b;
  apart = ((d, tt), tt);
}

submit_runnable :
    (tq : TaskQueue) (s : SchedState) (task : ℕ) (rs bs : List ℕ)
    → Holds tq s rs bs
    → Unqueued tq task rs bs
    → Holds tq (tq_submit_runnable_task tq s task) (rs ++ task ∷ []) bs
submit_runnable tq s task rs bs h u = record {
  runnable =
      list_add_tail_lem s.links tq.runnable_tasks task rs h.runnable u.not_runnable u.not_null;
  blocked =
      list_add_tail-Apart s.links tq.runnable_tasks task tq.blocked_tasks rs bs h.runnable h.blocked
        h.apart u.not_blocked;
  apart = Apart-append (tq.runnable_tasks ∷ rs) (tq.blocked_tasks ∷ bs) task h.apart u.not_blocked;
}

submit_blocked :
    (tq : TaskQueue) (s : SchedState) (task : ℕ) (rs bs : List ℕ)
    → Holds tq s rs bs
    → Unqueued tq task rs bs
    → Holds tq (tq_submit_blocked_task tq s task) rs (bs ++ task ∷ [])
submit_blocked tq s task rs bs h u =
    let back = Apart-sym (tq.runnable_tasks ∷ rs) (tq.blocked_tasks ∷ bs) h.apart in
    record {
      runnable =
          list_add_tail-Apart s.links tq.blocked_tasks task tq.runnable_tasks bs rs h.blocked
            h.runnable back u.not_runnable;
      blocked =
          list_add_tail_lem s.links tq.blocked_tasks task bs h.blocked u.not_blocked u.not_null;
      apart =
          Apart-sym (tq.blocked_tasks ∷ bs ++ task ∷ []) (tq.runnable_tasks ∷ rs) (
            Apart-append (tq.blocked_tasks ∷ bs) (tq.runnable_tasks ∷ rs) task back u.not_runnable);
    }

-- A task is added to the end of the queue of its state; one that is killed or not schedulable is added
-- to none.
pub tq_submit_task_lem :
    (tq : TaskQueue) (s : SchedState) (task : ℕ) (rs bs : List ℕ)
    → Holds tq s rs bs
    → Unqueued tq task rs bs
    → Holds tq
        (tq_submit_task tq s task)
        (runnable_after (s.task_state task) task rs)
        (blocked_after (s.task_state task) task bs)
unfolding tq_submit_task
tq_submit_task_lem tq s task rs bs h u = by_state (s.task_state task)
  where
    by_state :
        (st : TaskSchedState)
        → Holds tq (submit_as st tq s task) (runnable_after st task rs) (blocked_after st task bs)
    by_state task_running = submit_runnable tq s task rs bs h u
    by_state task_runnable = submit_runnable tq s task rs bs h u
    by_state task_blocked = submit_blocked tq s task rs bs h u
    by_state task_not_schedulable = h
    by_state task_killed = h

pub next_of_none :
    (tq : TaskQueue) (s : SchedState) (bs : List ℕ)
    → Holds tq s [] bs
    → tq_get_next_task tq s ≡ (0, s)
unfolding tq_get_next_task
next_of_none tq s bs h =
    let (c, d, nz) = h.runnable in
    let empty : is_list_empty s.links tq.runnable_tasks ≡ true = let e = c.0 in ground arith in
    rw empty refl

-- The task has left the queue, and nothing but the pointers has changed.
pub record Taken (tq : TaskQueue) (s s' : SchedState) (task : ℕ) (later bs : List ℕ) : Type 0 where
  pub got : tq_get_next_task tq s ≡ (task, s')
  pub queue : Holds tq s' later bs
  pub unqueued : Unqueued tq task later bs
  pub same : s' ≡ record s { links = s'.links }

pub next_of_some :
    (tq : TaskQueue) (s : SchedState) (task : ℕ) (later bs : List ℕ)
    → Holds tq s (task ∷ later) bs
    → (s' : SchedState) × Taken tq s s' task later bs
unfolding tq_get_next_task
next_of_some tq s task later bs h =
    let (c, d, nz) = h.runnable in
    let (first, back, rest) = c in
    let head_task = d.0.0 in
    let full : is_list_empty s.links tq.runnable_tasks ≡ false = ground arith in
    (
      record s { links = list_remove_head s.links tq.runnable_tasks },
      record {
        got = rw (full, first) refl;
        queue = record {
          runnable = list_remove_head_lem s.links tq.runnable_tasks task later h.runnable;
          blocked =
              list_remove_head-Apart s.links tq.runnable_tasks task tq.blocked_tasks later bs
                h.runnable h.blocked h.apart;
          apart = (h.apart.0, h.apart.1.1);
        };
        unqueued = record {
          not_null = λ e. nz.1.0 (sym e);
          not_runnable = ((λ e. head_task (sym e)), d.1.0);
          not_blocked = h.apart.1.0;
        };
        same = refl;
      },
    )

-- The next task is the one that has been runnable longest, and it leaves the queue; where none is
-- runnable the result is NULL and nothing changes.
pub tq_get_next_task_lem :
    (tq : TaskQueue) (s : SchedState) (rs bs : List ℕ)
    → Holds tq s rs bs
    → ((rs ≡ []) × (tq_get_next_task tq s ≡ (0, s)))
      ⊎ ((task : ℕ) × (later : List ℕ) × (s' : SchedState) × (rs ≡ task ∷ later)
          × Taken tq s s' task later bs)
tq_get_next_task_lem tq s [] bs h = inl (refl, next_of_none tq s bs h)
tq_get_next_task_lem tq s (task ∷ later) bs h =
    let (s', taken) = next_of_some tq s task later bs h in inr (task, later, s', refl, taken)
