-- ===== src/Timer/Heap.antt =====
-- The operations on the heap of timer.c.
use hyve_mind.Prelude.{
  leb, ◌==◌, ℕ, ◌+◌, ◌-◌, ◌≤◌, ◌<◌, ◌≡◌, refl, sym, ap, subst, ◌∙◌, false, none, some, arith,
  ℕ_discrete,
}
use hyve_mind.Timer.{
  timer_success, timer_no_capacity, Timers, Tree, TimerHeap, init_timer_heap, heap_max_idx, store,
  deadline_at, up_loop, heapify_up, down_loop, heapify_down, delete_heap_element, delete_root,
  get_heap_root, heap_add_timer,
}
use hyve_mind.Timer.Order.{IsHeap, MayRise, MaySink, root_least, up_loop-IsHeap, down_loop-IsHeap}
use hyve_mind.Timer.Contents.{
  one_if, occurrences, occurrences_suc, occurrences_zero, occurrences-store, occurrences_pos,
  held_somewhere, occurrences-up_loop, occurrences-down_loop,
}

pub record IsValid (ts : Timers) (heap : TimerHeap) : Type 0 where
  pub started : 1 ≤ heap.insertion_idx
  pub bounded : heap.insertion_idx ≤ heap.capacity
  pub order : IsHeap (deadline_at ts heap.flattened_tree) heap.insertion_idx

-- How often the heap holds a timer.
abbrev pub held : TimerHeap → ℕ → ℕ
held heap timer = occurrences heap.flattened_tree timer (heap_max_idx heap)

pub init_timer_heap-IsValid : (ts : Timers) (t : Tree) → IsValid ts (init_timer_heap t)
unfolding init_timer_heap
init_timer_heap-IsValid ts t = record {
  started = omega arith;
  bounded = omega arith;
  order = λ i lo hi. absurd (omega arith);
}

-- The array with a new timer in the first free place, before `heapify_up`.
stored-MayRise :
    (ts : Timers) (heap : TimerHeap) (timer : ℕ)
    → IsValid ts heap
    → MayRise
        (deadline_at ts (store heap.flattened_tree heap.insertion_idx timer))
        (heap.insertion_idx + 1)
        heap.insertion_idx
stored-MayRise ts heap timer v = record {
  edge = λ i lo hi ne. let order = v.order i lo (omega (arith, ne)) in ground (arith, order);
  skip = λ i two hi e. absurd (omega arith);
}

-- Adding a timer: a valid heap that holds this timer once more.
pub heap_add_timer_lem :
    (ts : Timers) (heap : TimerHeap) (timer : ℕ)
    → IsValid ts heap
    → heap.insertion_idx < heap.capacity
    → ((heap_add_timer ts heap timer).1 ≡ timer_success)
      × IsValid ts (heap_add_timer ts heap timer).0
      × ((heap_add_timer ts heap timer).0.insertion_idx ≡ heap.insertion_idx + 1)
      × ((x : ℕ) → held (heap_add_timer ts heap timer).0 x ≡ one_if (timer == x) + held heap x)
unfolding heap_add_timer heapify_up
heap_add_timer_lem ts heap timer v room =
    let n = heap.insertion_idx in
    let full : leb heap.capacity n ≡ false = ground arith in
    rw full (
      refl,
      record {
        started = omega arith;
        bounded = omega arith;
        order =
            up_loop-IsHeap ts (store heap.flattened_tree n timer) (n + 1) n n
              (stored-MayRise ts heap timer v) v.started (omega arith) (omega arith);
      },
      refl,
      λ x. added x,
    )
  where
    added :
        (x : ℕ)
        → occurrences
            (up_loop ts heap.insertion_idx
              (store heap.flattened_tree heap.insertion_idx timer)
              heap.insertion_idx)
            x
            (heap.insertion_idx + 1 - 1)
          ≡ one_if (timer == x) + held heap x
    added x =
        let n = heap.insertion_idx in
        let t = heap.flattened_tree in
        let one = v.started in
        let loop = occurrences-up_loop ts x n n (store t n timer) n one (omega arith) in
        let stored = occurrences-store t x n n timer one (omega arith) in
        let last = occurrences_suc t x n one in
        let index : n + 1 - 1 ≡ n = omega arith in rw index (omega (arith, loop, stored, last))

-- A full heap takes no timer.
pub heap_add_timer_full :
    (ts : Timers) (heap : TimerHeap) (timer : ℕ)
    → heap.capacity ≤ heap.insertion_idx
    → heap_add_timer ts heap timer ≡ (heap, timer_no_capacity)
unfolding heap_add_timer
heap_add_timer_full ts heap timer full = ground arith

pub root_is_first :
    (heap : TimerHeap) (root : ℕ)
    → get_heap_root heap ≡ some root
    → (1 < heap.insertion_idx) × (heap.flattened_tree 1 ≡ root)
unfolding get_heap_root
root_is_first heap root e = ground arith

-- The root is the timer with the earliest deadline.
pub get_heap_root_least :
    (ts : Timers) (heap : TimerHeap) (root x : ℕ)
    → IsValid ts heap
    → get_heap_root heap ≡ some root
    → (1 ≤ held heap root) × (1 ≤ held heap x → (ts root).elapse_deadline ≤ (ts x).elapse_deadline)
get_heap_root_least ts heap root x v e =
    let some_root = root_is_first heap root e in
    let t = heap.flattened_tree in
    (
      subst (λ (r : ℕ). 1 ≤ held heap r) some_root.1
          (occurrences_pos t (heap_max_idx heap) 1 (omega arith) (omega (arith, some_root.0))),
      λ h.
          let (i, lo, hi, q) = held_somewhere t x (heap_max_idx heap) h in
          let least =
            root_least (deadline_at ts t) heap.insertion_idx i i v.order lo
              (omega (arith, some_root.0)) (omega arith) in
          omega (
            arith,
            least,
            ap (λ (r : ℕ). (ts r).elapse_deadline) q,
            ap (λ (r : ℕ). (ts r).elapse_deadline) some_root.1,
          ),
    )

-- Without a root, nothing is held.
pub get_heap_root-none : (heap : TimerHeap) (x : ℕ) → get_heap_root heap ≡ none → held heap x ≡ 0
unfolding get_heap_root
get_heap_root-none heap x e =
    let empty : heap.insertion_idx ≤ 1 = ground arith in
    ap (occurrences heap.flattened_tree x) (let z : heap_max_idx heap ≡ 0 = omega arith in z)
    ∙ occurrences_zero heap.flattened_tree x

-- The array with the last timer in the root's place, before `heapify_down`.
abbrev unrooted : TimerHeap → Tree
unrooted heap = store heap.flattened_tree 1 (heap.flattened_tree (heap.insertion_idx - 1))

delete_root_eq :
    (ts : Timers) (heap : TimerHeap)
    → 1 < heap.insertion_idx
    → delete_root ts heap ≡ record heap {
      flattened_tree =
          down_loop ts (heap.insertion_idx - 1 - 1) (heap.insertion_idx - 1 - 1) (unrooted heap) 1;
      insertion_idx = heap.insertion_idx - 1;
    }
unfolding delete_root delete_heap_element heapify_down
delete_root_eq ts heap h = ground arith

unrooted-MaySink :
    (ts : Timers) (heap : TimerHeap)
    → IsValid ts heap
    → MaySink (deadline_at ts (unrooted heap)) (heap.insertion_idx - 1) 1
unrooted-MaySink ts heap v = record {
  edge = λ i lo hi ne. let order = v.order i lo (omega (arith, hi)) in ground (arith, order);
  skip = λ i two hi e. absurd (omega arith);
}

unrooted-held :
    (ts : Timers) (heap : TimerHeap) (x : ℕ)
    → 1 < heap.insertion_idx
    → one_if (heap.flattened_tree 1 == x)
        + occurrences
            (down_loop ts
              (heap.insertion_idx - 1 - 1)
              (heap.insertion_idx - 1 - 1)
              (unrooted heap)
              1)
            x
            (heap.insertion_idx - 1 - 1)
      ≡ held heap x
unrooted-held ts heap x h = elim (ℕ_discrete (heap.insertion_idx - 1) 1) [
  | yes e ↦
      let empty =
        occurrences_zero (down_loop ts 0 0 (store heap.flattened_tree 1 (heap.flattened_tree 1)) 1)
          x in
      let nothing = occurrences_zero heap.flattened_tree x in
      let all = occurrences_suc heap.flattened_tree x 1 (omega arith) in
      rw e (omega (arith, empty, nothing, all))
  | no n ↦
      let m = heap.insertion_idx - 1 - 1 in
      let t = heap.flattened_tree in
      let loop = occurrences-down_loop ts x m m (unrooted heap) 1 (omega arith) (omega arith) in
      let stored =
        occurrences-store t x m 1 (t (heap.insertion_idx - 1)) (omega arith) (omega arith) in
      let all = occurrences_suc t x (heap.insertion_idx - 1) (omega arith) in
      omega (arith, loop, stored, all)
]

-- Deleting the root leaves a valid heap that holds the root once less.
pub delete_root_lem :
    (ts : Timers) (heap : TimerHeap) (root : ℕ)
    → IsValid ts heap
    → get_heap_root heap ≡ some root
    → IsValid ts (delete_root ts heap)
      × ((delete_root ts heap).insertion_idx + 1 ≡ heap.insertion_idx)
      × ((x : ℕ) → one_if (root == x) + held (delete_root ts heap) x ≡ held heap x)
      × ((delete_root ts heap).capacity ≡ heap.capacity)
delete_root_lem ts heap root v e =
    let r = root_is_first heap root e in
    let n = heap.insertion_idx in
    rw (delete_root_eq ts heap r.0) (
      record {
        started = omega (arith, r.0);
        bounded = omega (arith, v.bounded);
        order =
            down_loop-IsHeap ts (n - 1) (n - 1 - 1) (n - 1 - 1) (unrooted heap) 1
              (omega (arith, r.0)) (unrooted-MaySink ts heap v) (omega arith) (omega arith);
      },
      omega (arith, r.0),
      λ x.
          ap
            (λ (q : ℕ).
              one_if (q == x)
              + occurrences (down_loop ts (n - 1 - 1) (n - 1 - 1) (unrooted heap) 1) x (n - 1 - 1))
            (sym r.1)
          ∙ unrooted-held ts heap x r.0,
      refl,
    )
