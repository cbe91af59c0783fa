-- ===== src/Sched/Fairness.antt =====
-- Rounds of `__schedule` of sched.c, one after another.
use mathlib.Core.List.{append-nil, append_assoc}
use hyve_mind.Prelude.{
  length, ℕ, zero, suc, ◌≡◌, refl, sym, ap, ap₂, subst, ◌∙◌, List, [], ◌∷◌, ◌++◌,
}
use hyve_mind.Sched.{TaskSchedState, TaskQueue, SchedState, tq_get_next_task, launched, schedule}
use hyve_mind.Sched.Queues.{Holds, runnable_after, blocked_after}
use hyve_mind.Sched.Rounds.{schedule_lem}

-- The tasks that so many rounds launch, and the state after them.
pub rounds : (ℕ → SchedState → SchedState) → TaskQueue → ℕ → SchedState → List ℕ × SchedState
rounds launch_task tq zero s = ([], s)
rounds launch_task tq (suc n) s =
    let (tasks, s') = rounds launch_task tq n (schedule launch_task tq s) in
    ((launched tq (tq_get_next_task tq s)).0 ∷ tasks, s')

module _ (launch_task : ℕ → SchedState → SchedState) (tq : TaskQueue)
    (keeps : (t : ℕ) (r : SchedState) → (launch_task t r).links ≡ r.links)
    (stays : (t : ℕ) (r : SchedState) → (launch_task t r).task_state ≡ r.task_state) where
  -- Tasks that come back running take turns: as many rounds as there are tasks launch each of them once,
  -- in the order of the queue, and more generally a front part `xs` of the queue is launched within
  -- as many rounds as it has tasks and then stands at the end of the queue.
  pub rounds_lem :
      (xs ys bs : List ℕ) (s : SchedState)
      → Holds tq s (xs ++ ys) bs
      → ((rounds launch_task tq (length xs) s).0 ≡ xs)
        × Holds tq (rounds launch_task tq (length xs) s).1 (ys ++ xs) bs
  unfolding rounds
  rounds_lem [] ys bs s h =
      (refl, subst (λ (zs : List ℕ). Holds tq s zs bs) (sym (append-nil ys)) h)
  rounds_lem (x ∷ xs) ys bs s h =
      let (r, first, running_x, cpu, queue) =
        schedule_lem launch_task tq keeps s x (xs ++ ys) bs h in
      let back = ap (λ (f : ℕ → TaskSchedState). f x) (stays x r) ∙ running_x in
      let s' = schedule launch_task tq s in
      let requeued =
        subst
          (λ (st : TaskSchedState).
            Holds tq s' (runnable_after st x (xs ++ ys)) (blocked_after st x bs))
          back queue in
      let later =
        rounds_lem xs (ys ++ x ∷ []) bs s'
          (subst (λ (zs : List ℕ). Holds tq s' zs bs) (append_assoc xs ys (x ∷ [])) requeued) in
      (
        ap₂ ◌∷◌ (ap (λ (p : ℕ × SchedState). p.0) first) later.0,
        subst (λ (zs : List ℕ). Holds tq (rounds launch_task tq (length xs) s').1 zs bs)
            (append_assoc ys (x ∷ []) xs) later.1,
      )
