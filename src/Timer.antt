-- ===== src/Timer.antt =====
-- The timers of a processor: timer.c, and the hardware timer of arch/x64/timer.c and apic.c.
--
-- The state holds the timers by their address, the per-cpu heap, the deadline MSR and the calls of
-- the timers' actions. The heap's array is a function, so that a read past its end is a read all the
-- same. Interrupts are off while the heap changes, and no operation is interrupted. The time stamp
-- counter is the list of the values that the reads return, in their order; a run that needs more
-- readings than the list holds is `none`.
pub mod Order
pub mod Contents
pub mod Heap
pub mod Handler
pub mod Interrupt
pub mod Frequency
mod Tests
use hyve_mind.Prelude.{
  ltb, leb, ◌==◌, if◌then◌else◌, ℕ, zero, suc, ◌+◌, ◌-◌, ◌*◌, ◌/◌, ◌%◌, ◌^◌, Bool, true, false, not,
  ◌&&◌, ◌||◌, Option, none, some, List, [], ◌∷◌,
}

pub data TimerType : Type 0 where
  timer_oneshot : TimerType
  timer_periodic : TimerType

pub data TimerStatus : Type 0 where
  timer_success : TimerStatus
  timer_init_failed : TimerStatus
  timer_no_mem : TimerStatus
  timer_no_capacity : TimerStatus
  timer_programming_failed : TimerStatus
  timer_error : TimerStatus

pub record Timer : Type 0 where
  pub elapse_deadline : ℕ
  pub periodic_ticks : ℕ
  pub type : TimerType
  pub timer_action : ℕ
  pub data_arg : ℕ
  pub cpu : ℕ

-- The timers by their address.
abbrev pub Timers : Type 0
Timers = ℕ → Timer

abbrev pub Tree : Type 0
Tree = ℕ → ℕ

pub record TimerHeap : Type 0 where
  pub flattened_tree : Tree
  pub capacity : ℕ
  pub insertion_idx : ℕ

abbrev pub heap_root_index : ℕ
heap_root_index = 1

abbrev pub init_timer_heap_capacity : ℕ
init_timer_heap_capacity = 512

-- The heap once both allocations of `init_timer_heap` succeed.
pub init_timer_heap : Tree → TimerHeap
init_timer_heap tree = record {
  flattened_tree = tree;
  capacity = init_timer_heap_capacity;
  insertion_idx = heap_root_index;
}

abbrev pub heap_max_idx : TimerHeap → ℕ
heap_max_idx heap = heap.insertion_idx - 1

abbrev pub store {ℓ} : {A : Type ℓ} → (ℕ → A) → ℕ → A → ℕ → A
store t i v j = if j == i then v else t j

abbrev pub heap_swap : Tree → ℕ → ℕ → Tree
heap_swap arr idx1 idx2 = store (store arr idx1 (arr idx2)) idx2 (arr idx1)

-- The deadline of the timer at an index.
abbrev pub deadline_at : Timers → Tree → ℕ → ℕ
deadline_at ts arr idx = (ts (arr idx)).elapse_deadline

-- The rounds of `heapify_up`; there are fewer of them than `idx`.
pub up_loop : Timers → ℕ → Tree → ℕ → Tree
up_loop ts zero arr idx = arr
up_loop ts (suc rounds) arr idx =
    let parent_idx = idx / 2 in
    let rest = up_loop ts rounds (heap_swap arr idx parent_idx) parent_idx in
    if parent_idx == 0 || leb (deadline_at ts arr parent_idx) (deadline_at ts arr idx)
    then arr
    else rest

pub heapify_up : Timers → TimerHeap → ℕ → TimerHeap
heapify_up ts heap node_idx = record heap {
  flattened_tree = up_loop ts node_idx heap.flattened_tree node_idx;
}

-- `largest` of `heapify_down`: the earliest of a node and its children.
pub largest_of : Timers → ℕ → Tree → ℕ → ℕ
largest_of ts max_idx arr idx =
    let left = idx * 2 in
    let right = idx * 2 + 1 in
    let largest =
      if leb left max_idx && ltb (deadline_at ts arr left) (deadline_at ts arr idx)
      then left
      else idx in
    if leb right max_idx && ltb (deadline_at ts arr right) (deadline_at ts arr largest)
    then right
    else largest

-- The rounds of `heapify_down`; the index at least doubles in each, so there are at most `max_idx`.
pub down_loop : Timers → ℕ → ℕ → Tree → ℕ → Tree
down_loop ts max_idx zero arr idx = arr
down_loop ts max_idx (suc rounds) arr idx =
    let largest = largest_of ts max_idx arr idx in
    let rest = down_loop ts max_idx rounds (heap_swap arr idx largest) largest in
    if largest == idx then arr else rest

pub heapify_down : Timers → TimerHeap → ℕ → TimerHeap
heapify_down ts heap node_idx = record heap {
  flattened_tree =
      down_loop ts (heap_max_idx heap) (heap_max_idx heap) heap.flattened_tree node_idx;
}

pub delete_heap_element : Timers → TimerHeap → ℕ → TimerHeap
delete_heap_element ts heap idx =
    if leb heap.insertion_idx idx
    then heap
    else heapify_down ts
        (record heap {
          flattened_tree = store heap.flattened_tree idx (heap.flattened_tree (heap_max_idx heap));
          insertion_idx = heap.insertion_idx - 1;
        })
        idx

pub delete_root : Timers → TimerHeap → TimerHeap
delete_root ts heap = delete_heap_element ts heap heap_root_index

pub get_heap_root : TimerHeap → Option ℕ
get_heap_root heap =
    if leb heap.insertion_idx heap_root_index
    then none
    else some (heap.flattened_tree heap_root_index)

pub heap_add_timer : Timers → TimerHeap → ℕ → TimerHeap × TimerStatus
heap_add_timer ts heap timer =
    if leb heap.capacity heap.insertion_idx
    then (heap, timer_no_capacity)
    else let heap = record heap {
      flattened_tree = store heap.flattened_tree heap.insertion_idx timer;
    } in
      let heap = heapify_up ts heap heap.insertion_idx in
      (record heap { insertion_idx = heap.insertion_idx + 1 }, timer_success)

pub record World : Type 0 where
  pub timers : Timers
  pub timer_heap : TimerHeap
  pub tsc_deadline_timer_configured : Bool
  pub msr_apic_tsc_deadline : ℕ

-- It programs the MSR and returns APIC_SUCCESS in each case.
pub apic_program_tsc_deadline_timer : World → ℕ → World
apic_program_tsc_deadline_timer w tsc_deadline = record w {
  tsc_deadline_timer_configured = true;
  msr_apic_tsc_deadline = tsc_deadline;
}

pub arch_reprogram_timer : World → ℕ → World × TimerStatus
arch_reprogram_timer w deadline = (apic_program_tsc_deadline_timer w deadline, timer_success)

is_success : TimerStatus → Bool
is_success timer_success = true
is_success timer_init_failed = false
is_success timer_no_mem = false
is_success timer_no_capacity = false
is_success timer_programming_failed = false
is_success timer_error = false

pub is_periodic : TimerType → Bool
is_periodic timer_oneshot = false
is_periodic timer_periodic = true

pub add_timer : World → ℕ → World × TimerStatus
add_timer w timer =
    let added = heap_add_timer w.timers w.timer_heap timer in
    let w = record w { timer_heap = added.0 } in
    let deadline = (w.timers timer).elapse_deadline in
    let programmed = arch_reprogram_timer w deadline in
    if not (is_success added.1) then (w, timer_error) else elim (get_heap_root w.timer_heap) [
      | none ↦ (w, timer_success)
      | some earliest ↦
          if (w.timers earliest).elapse_deadline == deadline
          then if is_success programmed.1
            then programmed
            else (programmed.0, timer_programming_failed)
          else (w, timer_success)
    ]

-- `(U128(clock_hz) * time_ns + (sec_to_ns(1) - 1)) / sec_to_ns(1)`, stored in a uint64_t.
pub get_ticks_from_ns : ℕ → ℕ → ℕ
get_ticks_from_ns clock_hz time_ns = (clock_hz * time_ns + (1000000000 - 1)) / 1000000000 % 2 ^ 64

pub get_ticks_from_hz : ℕ → ℕ → ℕ → ℕ
get_ticks_from_hz clock_hz ticks hz = clock_hz * ticks / hz % 2 ^ 64

-- `__init_timer`, once `hmalloc` returns, on processor `cpu`.
pub init_timer : ℕ → ℕ → ℕ → TimerType → Timer
init_timer cpu deadline ticks type = record {
  elapse_deadline = deadline;
  periodic_ticks = ticks;
  type = type;
  timer_action = 0;
  data_arg = 0;
  cpu = cpu;
}

pub init_timer_deadline : ℕ → ℕ → Timer
init_timer_deadline cpu timer_deadline = init_timer cpu timer_deadline 0 timer_oneshot

pub init_timer_ns : ℕ → ℕ → ℕ → ℕ → TimerType → Timer
init_timer_ns cpu clock_hz now time_ns type =
    let ticks = get_ticks_from_ns clock_hz time_ns in
    init_timer cpu ((now + ticks) % 2 ^ 64) ticks type

pub init_timer_hz : ℕ → ℕ → ℕ → ℕ → ℕ → TimerType → Timer
init_timer_hz cpu clock_hz now hz ticks type =
    let timer_ticks = get_ticks_from_hz clock_hz ticks hz in
    init_timer cpu ((now + timer_ticks) % 2 ^ 64) timer_ticks type

-- A timer that has run and is off the heap: a periodic one is added again.
pub rearm : World → ℕ → World
rearm w timer =
    let t = w.timers timer in
    let later = record t { elapse_deadline = (t.elapse_deadline + t.periodic_ticks) % 2 ^ 64 } in
    if is_periodic t.type
    then (add_timer (record w { timers = store w.timers timer later }) timer).0
    else w

-- The actions are functions behind pointers: their effect is a parameter.
module _ (timer_action : ℕ → ℕ → ℕ → World → World) where
  -- A timer is due: its action, its deletion, its next period.
  pub run_timer : ℕ → World → ℕ → World
  run_timer now w earliest =
      let t = w.timers earliest in
      let w = timer_action t.timer_action now t.data_arg w in
      let w = record w { timer_heap = delete_root w.timers w.timer_heap } in rearm w earliest

  -- The loop, on the readings that are left.
  pub irq_loop : ℕ → List ℕ → World → Option World
  irq_loop now [] w = elim (get_heap_root w.timer_heap) [ none ↦ some w | some earliest ↦ none ]
  irq_loop now (tsc ∷ rest) w = elim (get_heap_root w.timer_heap) [
    | none ↦ some w
    | some earliest ↦
        let later = irq_loop now rest (run_timer now w earliest) in
        if ltb tsc (w.timers earliest).elapse_deadline
        then some (arch_reprogram_timer w (w.timers earliest).elapse_deadline).0
        else later
  ]

  pub irq_timer_handler : List ℕ → World → Option World
  irq_timer_handler [] w = none
  irq_timer_handler (now ∷ readings) w = irq_loop now readings w
