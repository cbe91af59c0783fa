-- ===== src/Timer/Contents.antt =====
-- Which timers the heap of timer.c holds, and how often.
use hyve_mind.Prelude.{
  ◌==◌, if◌then◌else◌, ℕ, zero, suc, ◌+◌, ◌-◌, ◌/◌, ◌≤◌, ◌<◌, ◌≡◌, refl, ap, ◌∙◌, inl, inr, Bool,
  true, false, arith, ℕ_discrete,
}
use hyve_mind.Timer.{Timers, Tree, store, heap_swap, up_loop, largest_of, down_loop}
use hyve_mind.Timer.Order.{up_round, largest_of_cases}

abbrev pub one_if : Bool → ℕ
one_if b = if b then 1 else 0

-- How often `timer` stands at the indices from 1 to the given one.
pub occurrences : Tree → ℕ → ℕ → ℕ
occurrences t timer zero = 0
occurrences t timer (suc i) = one_if (t (suc i) == timer) + occurrences t timer i

pub occurrences_suc :
    (t : Tree) (x i : ℕ) → 1 ≤ i → occurrences t x i ≡ one_if (t i == x) + occurrences t x (i - 1)
unfolding occurrences
occurrences_suc t x zero h = absurd (omega arith)
occurrences_suc t x (suc i) h =
    ap (λ (j : ℕ). one_if (t (suc i) == x) + occurrences t x j) (omega arith)

pub occurrences_zero : (t : Tree) (x : ℕ) → occurrences t x 0 ≡ 0
unfolding occurrences
occurrences_zero t x = refl

occurrences-store_above :
    (t : Tree) (x m i v : ℕ) → m < i → occurrences (store t i v) x m ≡ occurrences t x m
unfolding occurrences
occurrences-store_above t x zero i v h = refl
occurrences-store_above t x (suc m) i v h =
    let rest = occurrences-store_above t x m i v (omega arith) in ground (arith, rest)

pub occurrences-store :
    (t : Tree) (x m i v : ℕ)
    → 1 ≤ i
    → i ≤ m
    → occurrences (store t i v) x m + one_if (t i == x) ≡ occurrences t x m + one_if (v == x)
unfolding occurrences
occurrences-store t x zero i v lo hi = absurd (omega arith)
occurrences-store t x (suc m) i v lo hi = elim (ℕ_discrete i (suc m)) [
  | yes e ↦
      let rest = occurrences-store_above t x m i v (omega arith) in
      let here : (suc m == i) ≡ true = ground arith in
      let there = ap t e in ground (arith, rest, here, there)
  | no n ↦
      let rest = occurrences-store t x m i v lo (omega arith) in
      let here : (suc m == i) ≡ false = ground arith in ground (arith, rest, here)
]

-- A timer at an index is held.
pub occurrences_pos : (t : Tree) (m i : ℕ) → 1 ≤ i → i ≤ m → 1 ≤ occurrences t (t i) m
unfolding occurrences
occurrences_pos t zero i lo hi = absurd (omega arith)
occurrences_pos t (suc m) i lo hi = elim (ℕ_discrete i (suc m)) [
  | yes e ↦ let there = ap t e in ground (arith, there)
  | no n ↦ let rest = occurrences_pos t m i lo (omega arith) in omega (arith, rest)
]

-- A held timer stands at an index.
pub held_somewhere :
    (t : Tree) (x m : ℕ) → 1 ≤ occurrences t x m → (i : ℕ) × (1 ≤ i) × (i ≤ m) × (t i ≡ x)
unfolding occurrences
held_somewhere t x zero h = absurd (omega arith)
held_somewhere t x (suc m) h = elim (ℕ_discrete (t (suc m)) x) [
  | yes e ↦ (suc m, omega arith, omega arith, e)
  | no n ↦ let (i, lo, hi, e) = held_somewhere t x m (ground arith) in (i, lo, omega arith, e)
]

occurrences-heap_swap :
    (t : Tree) (x m a b : ℕ)
    → 1 ≤ a
    → a ≤ m
    → 1 ≤ b
    → b ≤ m
    → occurrences (heap_swap t a b) x m ≡ occurrences t x m
occurrences-heap_swap t x m a b la ha lb hb =
    let first = occurrences-store t x m a (t b) la ha in
    let second = occurrences-store (store t a (t b)) x m b (t a) lb hb in
    let between : store t a (t b) b ≡ t b = ground arith in
    let test = ap (λ (v : ℕ). one_if (v == x)) between in omega (arith, first, second, test)

pub occurrences-up_loop :
    (ts : Timers) (x m rounds : ℕ) (t : Tree) (idx : ℕ)
    → 1 ≤ idx
    → idx ≤ m
    → occurrences (up_loop ts rounds t idx) x m ≡ occurrences t x m
unfolding up_loop
occurrences-up_loop ts x m zero t idx lo hi = refl
occurrences-up_loop ts x m (suc rounds) t idx lo hi = elim (up_round ts t rounds idx) [
  | inl (h, e) ↦ ap (λ (t : Tree). occurrences t x m) e
  | inr (two, early, e) ↦
      ap (λ (t : Tree). occurrences t x m) e
      ∙ occurrences-up_loop ts x m rounds (heap_swap t idx (idx / 2)) (idx / 2) (omega arith)
          (omega arith)
      ∙ occurrences-heap_swap t x m idx (idx / 2) lo hi (omega arith) (omega arith)
]

pub occurrences-down_loop :
    (ts : Timers) (x max_idx rounds : ℕ) (t : Tree) (idx : ℕ)
    → 1 ≤ idx
    → idx ≤ max_idx
    → occurrences (down_loop ts max_idx rounds t idx) x max_idx ≡ occurrences t x max_idx
unfolding down_loop
occurrences-down_loop ts x max_idx zero t idx lo hi = refl
occurrences-down_loop ts x max_idx (suc rounds) t idx lo hi =
    elim (largest_of_cases ts t (max_idx + 1) idx max_idx refl) [
      | inl (e, least) ↦
          let done : (largest_of ts max_idx t idx == idx) ≡ true = ground arith in rw done refl
      | inr (child, lt, early, least) ↦
          let c = largest_of ts max_idx t idx in
          let more : (c == idx) ≡ false = ground arith in
          rw more (
            occurrences-down_loop ts x max_idx rounds (heap_swap t idx c) c (omega arith)
              (omega arith)
            ∙ occurrences-heap_swap t x max_idx idx c lo hi (omega arith) (omega arith))
    ]
