-- ===== src/Sched.antt =====
-- The scheduler of sched.c: the task queue of one processor, its scheduling step, and the choice of
-- the processor that a new task is submitted to.
--
-- A task is the address of its entry `sched_queue`. The steps are those of one processor in their
-- order: the locks and the interrupt flag are not part of the state. What a task does once it is
-- launched is the parameter `launch_task`.
pub mod Queues
pub mod Rounds
pub mod Fairness
pub mod Mask
mod Tests
use hyve_mind.Prelude.{
  ◌==◌, if◌then◌else◌, bit_at, ℕ, zero, suc, ◌+◌, ◌-◌, ◌%◌, ◌^◌, Option, none, some,
}
use hyve_mind.LinkedList.{Links, init_list_head, list_add_tail, list_remove_head, is_list_empty}

pub data TaskSchedState : Type 0 where
  task_not_schedulable : TaskSchedState
  task_runnable : TaskSchedState
  task_running : TaskSchedState
  task_blocked : TaskSchedState
  task_killed : TaskSchedState

pub data CpuState : Type 0 where
  cpu_init : CpuState
  cpu_idle : CpuState

-- The addresses of the two list heads of a task queue, and of the task that idles.
pub record TaskQueue : Type 0 where
  pub runnable_tasks : ℕ
  pub blocked_tasks : ℕ
  pub idle_task : ℕ

pub record SchedState : Type 0 where
  pub links : Links
  pub task_state : ℕ → TaskSchedState
  pub current : ℕ
  pub cpu_state : CpuState

-- `__init_task_queue`: the queue is zeroed, and both lists are initialized.
abbrev pub init_task_queue : TaskQueue → SchedState → SchedState
init_task_queue tq s = record s {
  links = init_list_head (init_list_head s.links tq.runnable_tasks) tq.blocked_tasks;
  current = 0;
}

abbrev pub set_task_state : SchedState → TaskSchedState → SchedState
set_task_state s new = record s { task_state = λ i. if i == s.current then new else s.task_state i }

abbrev pub tq_submit_blocked_task : TaskQueue → SchedState → ℕ → SchedState
tq_submit_blocked_task tq s task = record s { links = list_add_tail s.links tq.blocked_tasks task }

abbrev pub tq_submit_runnable_task : TaskQueue → SchedState → ℕ → SchedState
tq_submit_runnable_task tq s task = record s {
  links = list_add_tail s.links tq.runnable_tasks task;
}

-- The queue that a task of this state is added to, if any.
abbrev pub submit_as : TaskSchedState → TaskQueue → SchedState → ℕ → SchedState
submit_as task_running tq s task = tq_submit_runnable_task tq s task
submit_as task_runnable tq s task = tq_submit_runnable_task tq s task
submit_as task_blocked tq s task = tq_submit_blocked_task tq s task
submit_as task_not_schedulable tq s task = s
submit_as task_killed tq s task = s

unfoldable pub tq_submit_task : TaskQueue → SchedState → ℕ → SchedState
tq_submit_task tq s task = submit_as (s.task_state task) tq s task

-- The first runnable task, or NULL.
pub tq_get_next_task : TaskQueue → SchedState → ℕ × SchedState
tq_get_next_task tq s =
    let next = s.links.next tq.runnable_tasks in
    if is_list_empty s.links tq.runnable_tasks
    then (0, s)
    else (next, record s { links = list_remove_head s.links tq.runnable_tasks })

-- `__schedule` from the choice of the task to its launch.
abbrev pub launched : TaskQueue → ℕ × SchedState → ℕ × SchedState
launched tq (next, s) =
    let idle = record s { cpu_state = cpu_idle; current = tq.idle_task } in
    if next == 0
    then (tq.idle_task, set_task_state idle task_running)
    else (next, set_task_state (record s { current = next }) task_running)

-- `__schedule`, once the task that was launched has come back.
abbrev pub finished : TaskQueue → ℕ → SchedState → SchedState
finished tq task s = tq_submit_task tq (record s { cpu_state = cpu_init }) task

unfoldable pub schedule : (ℕ → SchedState → SchedState) → TaskQueue → SchedState → SchedState
schedule launch_task tq s =
    let (task, running) = launched tq (tq_get_next_task tq s) in
    finished tq task (launch_task task running)

abbrev pub invalid_cpuid : ℕ
invalid_cpuid = 2 ^ 32 - 1

-- The loop of `get_next_cpuid_in_mask` at `offset + idx`, with so many bits still to test.
pub next_cpuid_loop : ℕ → ℕ → ℕ → ℕ
next_cpuid_loop mask position zero = invalid_cpuid
next_cpuid_loop mask position (suc left) =
    let further = next_cpuid_loop mask (suc position) left in
    if bit_at mask position == 1 then position else further

abbrev pub get_next_cpuid_in_mask : ℕ → ℕ → ℕ
get_next_cpuid_in_mask mask offset = next_cpuid_loop mask offset (32 - offset)

-- `get_next_submission_tq_cpuid` on the depth of its recursion: the result is also the new value of
-- `prev_submission_tq_cpuid`.
pub get_next_submission_tq_cpuid : ℕ → ℕ → ℕ → Option ℕ
get_next_submission_tq_cpuid zero cpumask prev = none
get_next_submission_tq_cpuid (suc fuel) cpumask prev =
    let again = get_next_submission_tq_cpuid fuel cpumask invalid_cpuid in
    let next = get_next_cpuid_in_mask cpumask ((prev + 1) % 2 ^ 32) in
    if prev == invalid_cpuid
    then some (get_next_cpuid_in_mask cpumask 0)
    else if next == invalid_cpuid
    then again
    else some next
