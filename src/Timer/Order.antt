-- ===== src/Timer/Order.antt =====
-- The order of the heap of timer.c under `heapify_up` and `heapify_down`.
use hyve_mind.Prelude.{
  ltb, leb, ◌==◌, if◌then◌else◌, ℕ, zero, suc, ◌+◌, ◌*◌, ◌/◌, ◌%◌, ◌≤◌, ◌<◌, ◌≡◌, refl, sym, ap,
  subst, ◌≢◌, ◌⊎◌, inl, inr, true, false, ◌&&◌, arith, dec_lt, ℕ_discrete,
}
use hyve_mind.Timer.{Timers, Tree, heap_swap, deadline_at, up_loop, largest_of, down_loop}

-- No node is earlier than its parent, below index `n`.
abbrev pub IsHeap : (ℕ → ℕ) → ℕ → Type 0
IsHeap k n = (i : ℕ) → 2 ≤ i → i < n → k (i / 2) ≤ k i

-- The children of `idx` are no earlier than its parent.
abbrev pub AreLater : (ℕ → ℕ) → ℕ → ℕ → Type 0
AreLater k n idx = (i : ℕ) → 2 ≤ idx → i < n → i / 2 ≡ idx → k (idx / 2) ≤ k i

-- A heap but for the node `idx`, which may be too early.
pub record MayRise (k : ℕ → ℕ) (n idx : ℕ) : Type 0 where
  pub edge : (i : ℕ) → 2 ≤ i → i < n → i ≢ idx → k (i / 2) ≤ k i
  pub skip : AreLater k n idx

-- A heap but for the node `idx`, which may be too late.
pub record MaySink (k : ℕ → ℕ) (n idx : ℕ) : Type 0 where
  pub edge : (i : ℕ) → 2 ≤ i → i < n → i / 2 ≢ idx → k (i / 2) ≤ k i
  pub skip : AreLater k n idx

-- The deadlines before and after `heap_swap`.
record AreSwapped (k k' : ℕ → ℕ) (a b : ℕ) : Type 0 where
  left : k' a ≡ k b
  right : k' b ≡ k a
  other : (x : ℕ) → x ≢ a → x ≢ b → k' x ≡ k x

heap_swap-AreSwapped :
    (ts : Timers) (t : Tree) (a b : ℕ)
    → AreSwapped (deadline_at ts t) (deadline_at ts (heap_swap t a b)) a b
heap_swap-AreSwapped ts t a b = record {
  left = elim (ℕ_discrete a b) [ yes e ↦ ground arith | no n ↦ ground arith ];
  right = ground arith;
  other = λ x na nb. ground arith;
}

module _ (k k' : ℕ → ℕ) (n idx : ℕ) where
  -- A node that is earlier than its parent moves up.
  rise :
      MayRise k n idx
      → 2 ≤ idx
      → idx < n
      → k idx < k (idx / 2)
      → AreSwapped k k' idx (idx / 2)
      → MayRise k' n (idx / 2)
  rise v two lt early s = record {
    edge = λ i lo hi ne. elim (ℕ_discrete i idx) [
      | yes e ↦ ground (arith, s.left, s.right)
      | no ni ↦ elim (ℕ_discrete (i / 2) idx) [
        | yes e ↦ ground (arith, s.left, s.other i ni ne, v.skip i two hi e)
        | no np ↦ elim (ℕ_discrete (i / 2) (idx / 2)) [
          | yes e ↦ ground (arith, s.right, s.other i ni ne, v.edge i lo hi ni)
          | no nq ↦ ground (arith, s.other i ni ne, s.other (i / 2) np nq, v.edge i lo hi ni)
        ]
      ]
    ];
    skip = λ i lo hi e.
        let up = s.other (idx / 2 / 2) (omega arith) (omega arith) in
        let parent = v.edge (idx / 2) lo (omega arith) (omega arith) in
        elim (ℕ_discrete i idx) [
          | yes q ↦ ground (arith, up, parent, s.left)
          | no ni ↦
              ground (arith, up, parent, s.other i ni (omega arith), v.edge i (omega arith) hi ni)
        ];
  }

  -- A node moves down to its earliest child, which is earlier.
  sink :
      (c : ℕ)
      → MaySink k n idx
      → 1 ≤ idx
      → c / 2 ≡ idx
      → c < n
      → k c < k idx
      → ((i : ℕ) → i / 2 ≡ idx → i < n → k c ≤ k i)
      → AreSwapped k k' idx c
      → MaySink k' n c
  sink c v one child lt early least s = record {
    edge = λ i lo hi ne. elim (ℕ_discrete (i / 2) idx) [
      | yes e ↦ elim (ℕ_discrete i c) [
        | yes q ↦ ground (arith, s.left, s.right)
        | no nc ↦ ground (arith, s.left, s.other i (omega arith) nc, least i e hi)
      ]
      | no np ↦ elim (ℕ_discrete i idx) [
        | yes e ↦ ground (arith, s.left, s.other (i / 2) np ne, v.skip c (omega arith) lt child)
        | no ni ↦
            ground (arith, s.other i ni (omega arith), s.other (i / 2) np ne, v.edge i lo hi np)
      ]
    ];
    skip = λ i two hi e. ground (
      arith,
      s.left,
      s.other i (omega arith) (omega arith),
      v.edge i (omega arith) hi (omega arith),
    );
  }

-- The root is the earliest.
pub root_least : (k : ℕ → ℕ) (n fuel i : ℕ) → IsHeap k n → 1 ≤ i → i < n → i ≤ fuel → k 1 ≤ k i
root_least k n zero i h lo hi le = absurd (omega arith)
root_least k n (suc fuel) i h lo hi le = elim (ℕ_discrete i 1) [
  | yes e ↦ ground arith
  | no ne ↦
      let above = root_least k n fuel (i / 2) h (omega arith) (omega arith) (omega arith) in
      omega (arith, above, h i (omega arith) hi)
]

module _ (ts : Timers) (t : Tree) where
  pub up_round :
      (rounds idx : ℕ)
      → (((idx / 2 ≡ 0) ⊎ (deadline_at ts t (idx / 2) ≤ deadline_at ts t idx))
          × (up_loop ts (suc rounds) t idx ≡ t))
        ⊎ ((2 ≤ idx)
            × (deadline_at ts t idx < deadline_at ts t (idx / 2))
            × (up_loop ts (suc rounds) t idx
                ≡ up_loop ts rounds (heap_swap t idx (idx / 2)) (idx / 2)))
  unfolding up_loop
  up_round rounds idx = elim (ℕ_discrete (idx / 2) 0) [
    | yes e ↦ inl (inl e, ground arith)
    | no n ↦ elim (dec_lt (deadline_at ts t idx) (deadline_at ts t (idx / 2))) [
      | yes lt ↦ inr (omega arith, lt, ground arith)
      | no ge ↦ inl (inr (omega arith), ground arith)
    ]
  ]

  rise_done :
      (n idx : ℕ)
      → MayRise (deadline_at ts t) n idx
      → (idx / 2 ≡ 0) ⊎ (deadline_at ts t (idx / 2) ≤ deadline_at ts t idx)
      → IsHeap (deadline_at ts t) n
  rise_done n idx v h i lo hi = elim (ℕ_discrete i idx) [
    | yes e ↦ elim h [
      | inl z ↦ absurd (omega arith)
      | inr le ↦ subst (λ (i : ℕ). deadline_at ts t (i / 2) ≤ deadline_at ts t i) (sym e) le
    ]
    | no ne ↦ v.edge i lo hi ne
  ]

pub up_loop-IsHeap :
    (ts : Timers) (t : Tree) (n rounds idx : ℕ)
    → MayRise (deadline_at ts t) n idx
    → 1 ≤ idx
    → idx < n
    → idx ≤ rounds
    → IsHeap (deadline_at ts (up_loop ts rounds t idx)) n
up_loop-IsHeap ts t n zero idx v one lt enough = absurd (omega arith)
up_loop-IsHeap ts t n (suc rounds) idx v one lt enough = elim (up_round ts t rounds idx) [
  | inl (h, e) ↦ rw e (rise_done ts t n idx v h)
  | inr (two, early, e) ↦ rw e (
      up_loop-IsHeap ts (heap_swap t idx (idx / 2)) n rounds (idx / 2)
        (rise _ _ n idx v two lt early (heap_swap-AreSwapped ts t idx (idx / 2))) (omega arith)
        (omega arith) (omega arith))
]

-- What `heapify_down` compares.
module _ (ts : Timers) (t : Tree) (n idx : ℕ) where
  sink_done :
      MaySink (deadline_at ts t) n idx
      → ((i : ℕ) → i / 2 ≡ idx → i < n → deadline_at ts t idx ≤ deadline_at ts t i)
      → IsHeap (deadline_at ts t) n
  sink_done v h i lo hi = elim (ℕ_discrete (i / 2) idx) [
    | yes e ↦ omega (arith, ap (deadline_at ts t) e, h i e hi)
    | no ne ↦ v.edge i lo hi ne
  ]

  children : (i : ℕ) → i / 2 ≡ idx → (i ≡ idx * 2) ⊎ (i ≡ idx * 2 + 1)
  children i e = elim (ℕ_discrete (i % 2) 0) [
    | yes z ↦ inl (omega arith)
    | no o ↦ inr (omega arith)
  ]

  -- One comparison with a child.
  abbrev earlier : ℕ → ℕ → ℕ → ℕ
  earlier max_idx a c =
      if leb c max_idx && ltb (deadline_at ts t c) (deadline_at ts t a) then c else a

  earlier_cases :
      (max_idx a c : ℕ)
      → ((earlier max_idx a c ≡ a) × (c ≤ max_idx → deadline_at ts t a ≤ deadline_at ts t c))
        ⊎ ((earlier max_idx a c ≡ c) × (c ≤ max_idx) × (deadline_at ts t c < deadline_at ts t a))
  earlier_cases max_idx a c = elim (dec_lt max_idx c) [
    | yes h ↦ inl (ground arith, λ le. absurd (omega arith))
    | no h ↦ elim (dec_lt (deadline_at ts t c) (deadline_at ts t a)) [
      | yes lt ↦ inr (ground arith, omega arith, lt)
      | no ge ↦ inl (ground arith, λ le. omega arith)
    ]
  ]

  abbrev pub LargestCases : ℕ → Type 0
  LargestCases m =
      ((m ≡ idx) × ((i : ℕ) → i / 2 ≡ idx → i < n → deadline_at ts t idx ≤ deadline_at ts t i))
      ⊎ ((m / 2 ≡ idx)
          × (m < n)
          × (deadline_at ts t m < deadline_at ts t idx)
          × ((i : ℕ) → i / 2 ≡ idx → i < n → deadline_at ts t m ≤ deadline_at ts t i))

  no_later_child :
      (m : ℕ)
      → (idx * 2 < n → deadline_at ts t m ≤ deadline_at ts t (idx * 2))
      → (idx * 2 + 1 < n → deadline_at ts t m ≤ deadline_at ts t (idx * 2 + 1))
      → (i : ℕ) → i / 2 ≡ idx
      → i < n
      → deadline_at ts t m ≤ deadline_at ts t i
  no_later_child m hl hr i e lt = elim (children i e) [
    | inl q ↦ omega (arith, hl (omega arith), ap (deadline_at ts t) q)
    | inr q ↦ omega (arith, hr (omega arith), ap (deadline_at ts t) q)
  ]

  pub largest_of_cases :
      (max_idx : ℕ) → n ≡ max_idx + 1 → LargestCases (largest_of ts max_idx t idx)
  unfolding largest_of
  largest_of_cases max_idx en = elim (earlier_cases max_idx idx left) [
    | inl (e, hl) ↦ rw e (elim (earlier_cases max_idx idx right) [
      | inl (q, hr) ↦
          rw q (inl (refl, no_later_child idx (λ lt. hl (omega arith)) (λ lt. hr (omega arith))))
      | inr (q, le, lt) ↦ rw q (
          inr (
            omega arith,
            omega arith,
            lt,
            no_later_child right (λ l. omega (arith, hl (omega arith))) (λ l. omega arith),
          ))
    ])
    | inr (e, le, lt) ↦ rw e (elim (earlier_cases max_idx left right) [
      | inl (q, hr) ↦ rw q (
          inr (
            omega arith,
            omega arith,
            lt,
            no_later_child left (λ l. omega arith) (λ l. hr (omega arith)),
          ))
      | inr (q, le', lt') ↦ rw q (
          inr (
            omega arith,
            omega arith,
            omega arith,
            no_later_child right (λ l. omega arith) (λ l. omega arith),
          ))
    ])
  ]
    where
      left : ℕ
      left = idx * 2

      right : ℕ
      right = idx * 2 + 1

pub down_loop-IsHeap :
    (ts : Timers) (n max_idx rounds : ℕ) (t : Tree) (idx : ℕ)
    → n ≡ max_idx + 1
    → MaySink (deadline_at ts t) n idx
    → 1 ≤ idx
    → max_idx ≤ idx + rounds
    → IsHeap (deadline_at ts (down_loop ts max_idx rounds t idx)) n
unfolding down_loop
down_loop-IsHeap ts n max_idx zero t idx en v one enough =
    sink_done ts t n idx v (λ i e lt. absurd (omega arith))
down_loop-IsHeap ts n max_idx (suc rounds) t idx en v one enough =
    elim (largest_of_cases ts t n idx max_idx en) [
      | inl (e, least) ↦
          let done : (largest_of ts max_idx t idx == idx) ≡ true = ground arith in
          rw done (sink_done ts t n idx v least)
      | inr (child, lt, early, least) ↦
          let c = largest_of ts max_idx t idx in
          let more : (c == idx) ≡ false = ground arith in
          rw more (
            down_loop-IsHeap ts n max_idx rounds (heap_swap t idx c) c en
              (sink _ _ n idx c v one child lt early least (heap_swap-AreSwapped ts t idx c))
              (omega arith) (omega arith))
    ]
