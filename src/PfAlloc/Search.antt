-- ===== src/PfAlloc/Search.antt =====
-- The search of `__get_pages` for an area of free frames.
use native.Mathlib.Nat.{mod-eq_of_lt, mod_self}
use hyve_mind.Prelude.{
  ltb, Bool-cases, ℕ, zero, suc, ◌+◌, ◌-◌, ◌*◌, ◌/◌, ◌%◌, ◌≤◌, ◌<◌, ◌≡◌, refl, ap, ap₂, ◌∙◌, ◌≢◌,
  ◌⊎◌, inl, inr, true, false, not, ◌||◌, none, some, arith, dec_lt, ℕ_discrete,
}
use hyve_mind.PfAlloc.Bitmap.{used}
use hyve_mind.PfAlloc.{Bitmap, Scan, frame_is_free, advance, take_frame, drop_streak, search}

-- The position of a search.
abbrev pub position : Scan → ℕ
position s = s.byte_pos * 8 + s.bit_pos

-- The search stands inside the bitmap, and what it counts as a streak are free frames that end
-- where it stands.
pub record IsStreak (b : Bitmap) (size nr : ℕ) (s : Scan) : Type 0 where
  pub byte_in : s.byte_pos < size
  pub bit_in : s.bit_pos < 8
  pub left : s.remaining_needed ≤ nr
  pub wanted : 0 < s.remaining_needed
  pub ends_here :
      (s.remaining_needed ≡ nr) ⊎ (s.area_start + (nr - s.remaining_needed) ≡ position s)
  pub free :
      (p : ℕ) → s.remaining_needed < nr → s.area_start ≤ p → p < position s → used b p ≡ false

-- One position further on.
abbrev step_on : Scan → Scan
step_on s = record s {
  byte_pos = (position s + 1) / 8;
  bit_pos = (position s + 1) % 8;
  explored_bits = s.explored_bits + 1;
}

-- Back at the first frame, with no streak.
abbrev wrap_round : ℕ → Scan → Scan
wrap_round nr s = record s {
  byte_pos = 0;
  bit_pos = 0;
  explored_bits = s.explored_bits + 1;
  free_streak = false;
  remaining_needed = nr;
}

advance_within : (size nr : ℕ) (s : Scan) → s.bit_pos < 7 → advance size nr s ≡ step_on s
unfolding advance
advance_within size nr s h = ground arith

advance_next :
    (size nr : ℕ) (s : Scan) → s.bit_pos ≡ 7 → s.byte_pos + 1 < size → advance size nr s ≡ step_on s
unfolding advance
advance_next size nr s h lt = ground (arith, mod-eq_of_lt lt)

advance_last :
    (size nr : ℕ) (s : Scan)
    → s.bit_pos ≡ 7
    → s.byte_pos + 1 ≡ size
    → advance size nr s ≡ wrap_round nr s
unfolding advance
advance_last size nr s h e = ground (arith, mod_self size)

advance_cases :
    (size nr : ℕ) (s : Scan)
    → s.byte_pos < size
    → s.bit_pos < 8
    → ((position s + 1 < size * 8) × (advance size nr s ≡ step_on s))
      ⊎ ((position s + 1 ≡ size * 8) × (advance size nr s ≡ wrap_round nr s))
advance_cases size nr s hb hi = elim (dec_lt s.bit_pos 7) [
  | yes h ↦ inl (omega arith, advance_within size nr s h)
  | no h ↦ elim (dec_lt (s.byte_pos + 1) size) [
    | yes lt ↦ inl (omega arith, advance_next size nr s (omega arith) lt)
    | no ge ↦ inr (omega arith, advance_last size nr s (omega arith) (omega arith))
  ]
]

advance_in :
    (size nr : ℕ) (s : Scan)
    → s.byte_pos < size
    → s.bit_pos < 8
    → ((advance size nr s).byte_pos < size) × ((advance size nr s).bit_pos < 8)
advance_in size nr s hb hi = elim (advance_cases size nr s hb hi) [
  | inl (h, e) ↦ rw e (omega arith, omega arith)
  | inr (h, e) ↦ rw e (omega arith, omega arith)
]

used_here :
    (b : Bitmap) (s : Scan)
    → s.bit_pos < 8
    → frame_is_free b s.byte_pos s.bit_pos ≡ true
    → used b (position s) ≡ false
used_here b s h e =
    ap₂ (λ i j. not (frame_is_free b i j)) (let d : position s / 8 ≡ s.byte_pos = omega arith in d)
      (let d : position s % 8 ≡ s.bit_pos = omega arith in d)
    ∙ ap not e

-- A streak of which nothing is claimed.
abbrev pub AtRest : ℕ → ℕ → Scan → Type 0
AtRest size nr s = (s.byte_pos < size) × (s.bit_pos < 8) × (s.remaining_needed ≡ nr) × (0 < nr)

pub AtRest-IsStreak :
    (b : Bitmap) (size nr : ℕ) (s : Scan) → AtRest size nr s → IsStreak b size nr s
AtRest-IsStreak b size nr s (hb, hi, e, pos) = record {
  byte_in = hb;
  bit_in = hi;
  left = omega arith;
  wanted = omega arith;
  ends_here = inl e;
  free = λ p h. absurd (omega (arith, h, e));
}

-- An area of free frames inside the bitmap.
abbrev pub IsFreeArea : Bitmap → ℕ → ℕ → ℕ → Type 0
IsFreeArea b size nr start =
    (start + nr ≤ size * 8) × ((p : ℕ) → start ≤ p → p < start + nr → used b p ≡ false)

module _ (b : Bitmap) (size nr : ℕ) where
  -- After a used frame.
  restart-IsStreak :
      (s : Scan) → IsStreak b size nr s → IsStreak b size nr (advance size nr (drop_streak nr s))
  unfolding drop_streak
  restart-IsStreak s v = elim (advance_cases size nr (drop_streak nr s) v.byte_in v.bit_in) [
    | inl (h, e) ↦ rw e (
        AtRest-IsStreak b size nr _
          (omega arith, omega arith, refl, omega (arith, v.wanted, v.left)))
    | inr (h, e) ↦ rw e (
        AtRest-IsStreak b size nr _
          (omega (arith, v.byte_in), omega arith, refl, omega (arith, v.wanted, v.left)))
  ]

  -- The streak with the current frame.
  record Taken (s : Scan) : Type 0 where
    fewer : (take_frame nr s).remaining_needed + 1 ≡ s.remaining_needed
    joined :
        (take_frame nr s).area_start + (nr - (take_frame nr s).remaining_needed) ≡ position s + 1
    area_free : (p : ℕ) → (take_frame nr s).area_start ≤ p → p < position s + 1 → used b p ≡ false

  take_frame-Taken :
      (s : Scan) → IsStreak b size nr s → frame_is_free b s.byte_pos s.bit_pos ≡ true → Taken s
  unfolding take_frame
  take_frame-Taken s v e = record {
    fewer = omega (arith, v.wanted);
    joined = ground (arith, v.ends_here, v.left, v.wanted);
    area_free = λ p lo hi. elim (ℕ_discrete p (position s)) [
      | yes q ↦ ap (used b) q ∙ used_here b s v.bit_in e
      | no n ↦ elim (ℕ_discrete s.remaining_needed nr) [
        | yes q ↦ absurd (ground arith)
        | no m ↦ v.free p (omega (arith, v.left)) (ground arith) (omega arith)
      ]
    ];
  }

  taken_place :
      (s : Scan)
      → ((take_frame nr s).byte_pos ≡ s.byte_pos) × ((take_frame nr s).bit_pos ≡ s.bit_pos)
  unfolding take_frame
  taken_place s = (refl, refl)

  -- After a free frame that does not complete the area.
  go_on-IsStreak :
      (s : Scan)
      → IsStreak b size nr s
      → frame_is_free b s.byte_pos s.bit_pos ≡ true
      → 0 < (take_frame nr s).remaining_needed
      → IsStreak b size nr (advance size nr (take_frame nr s))
  go_on-IsStreak s v e more = elim (advance_cases size nr (take_frame nr s) taken_in.0 taken_in.1) [
    | inl (h, eq) ↦ rw eq (record {
      byte_in = omega (arith, h);
      bit_in = omega arith;
      left = omega (arith, t.fewer, v.left);
      wanted = more;
      ends_here = inr (omega (arith, t.joined, here.0, here.1));
      free = λ p lt lo hi. t.area_free p lo (omega (arith, here.0, here.1));
    })
    | inr (h, eq) ↦ rw eq (
        AtRest-IsStreak b size nr _
          (omega (arith, v.byte_in), omega arith, refl, omega (arith, v.wanted, v.left)))
  ]
    where
      t : Taken s
      t = take_frame-Taken s v e

      here : ((take_frame nr s).byte_pos ≡ s.byte_pos) × ((take_frame nr s).bit_pos ≡ s.bit_pos)
      here = taken_place s

      taken_in : ((take_frame nr s).byte_pos < size) × ((take_frame nr s).bit_pos < 8)
      taken_in = omega (arith, here.0, here.1, v.byte_in, v.bit_in)

  search_step :
      (fuel start : ℕ) (s : Scan)
      → search (suc fuel) b size nr s ≡ some (some start)
      → ((frame_is_free b s.byte_pos s.bit_pos ≡ true)
          × ((take_frame nr s).remaining_needed ≡ 0)
          × (start ≡ (take_frame nr s).area_start))
        ⊎ ((frame_is_free b s.byte_pos s.bit_pos ≡ true)
            × (0 < (take_frame nr s).remaining_needed)
            × (search fuel b size nr (advance size nr (take_frame nr s)) ≡ some (some start)))
        ⊎ (search fuel b size nr (advance size nr (drop_streak nr s)) ≡ some (some start))
  unfolding search
  search_step fuel start s e = ground arith

  -- What the search returns is an area of free frames.
  pub search-IsFreeArea :
      (fuel start : ℕ) (s : Scan)
      → IsStreak b size nr s
      → search fuel b size nr s ≡ some (some start)
      → IsFreeArea b size nr start
  unfolding search
  search-IsFreeArea zero start s v e = cc
  search-IsFreeArea (suc fuel) start s v e = elim (search_step fuel start s e) [
    | inl (f, done, eq) ↦
        let t = take_frame-Taken s v f in
        (
          omega (arith, t.joined, v.byte_in, v.bit_in, done, eq),
          λ p lo hi. t.area_free p (omega arith) (omega (arith, t.joined)),
        )
    | inr more ↦ elim more [
      | inl (f, wanted, rest) ↦ search-IsFreeArea fuel start _ (go_on-IsStreak s v f wanted) rest
      | inr rest ↦ search-IsFreeArea fuel start _ (restart-IsStreak s v) rest
    ]
  ]

-- Enough fuel: two rounds of the bitmap, or one round for a streak that outlasts the first.
abbrev pub Enough : ℕ → ℕ → Scan → Type 0
Enough total fuel s =
    ((s.explored_bits < total) × (total - s.explored_bits + total < fuel))
    ⊎ ((total ≤ s.explored_bits) × (s.free_streak ≡ false) × (0 < fuel))
    ⊎ ((total ≤ s.explored_bits) × (total - position s < fuel))

-- A scan before `advance`, at the place and the count of the round.
advance-Enough :
    (size nr fuel : ℕ) (s s' : Scan)
    → s.byte_pos < size
    → s.bit_pos < 8
    → s'.byte_pos ≡ s.byte_pos
    → s'.bit_pos ≡ s.bit_pos
    → s'.explored_bits ≡ s.explored_bits
    → (ltb s.explored_bits (size * 8) || s.free_streak) ≡ true
    → Enough (size * 8) (suc fuel) s
    → Enough (size * 8) fuel (advance size nr s')
advance-Enough size nr fuel s s' hb hi eb ei ex going enough =
    elim (advance_cases size nr s' (omega arith) (omega arith)) [
      | inl (h, e) ↦ rw e (elim (dec_lt (s.explored_bits + 1) (size * 8)) [
        | yes l ↦ inl (ground arith)
        | no g ↦ inr (inr (ground arith))
      ])
      | inr (h, e) ↦ rw e (elim (dec_lt (s.explored_bits + 1) (size * 8)) [
        | yes l ↦ inl (ground arith)
        | no g ↦ inr (inl (omega arith, refl, ground arith))
      ])
    ]

drop_place :
    (nr : ℕ) (s : Scan)
    → ((drop_streak nr s).byte_pos ≡ s.byte_pos)
      × ((drop_streak nr s).bit_pos ≡ s.bit_pos)
      × ((drop_streak nr s).explored_bits ≡ s.explored_bits)
unfolding drop_streak
drop_place nr s = (refl, refl, refl)

taken_explored : (nr : ℕ) (s : Scan) → (take_frame nr s).explored_bits ≡ s.explored_bits
unfolding take_frame
taken_explored nr s = refl

search_round :
    (b : Bitmap) (size nr fuel : ℕ) (s : Scan)
    → ((ltb s.explored_bits (size * 8) || s.free_streak) ≡ true
        → search fuel b size nr (advance size nr (take_frame nr s)) ≢ none)
    → ((ltb s.explored_bits (size * 8) || s.free_streak) ≡ true
        → search fuel b size nr (advance size nr (drop_streak nr s)) ≢ none)
    → search (suc fuel) b size nr s ≢ none
unfolding search
search_round b size nr fuel s ht hd =
    elim (Bool-cases (ltb s.explored_bits (size * 8) || s.free_streak)) [
      | inl going ↦ let t = ht going in let d = hd going in ground (arith, t, d)
      | inr done ↦ ground arith
    ]

pub search_ends :
    (b : Bitmap) (size nr fuel : ℕ) (s : Scan)
    → s.byte_pos < size
    → s.bit_pos < 8
    → Enough (size * 8) fuel s
    → search fuel b size nr s ≢ none
search_ends b size nr zero s hb hi enough = absurd (ground arith)
search_ends b size nr (suc fuel) s hb hi enough =
    let t = taken_place b size nr s in
    let d = drop_place nr s in
    search_round b size nr fuel s
      (λ going.
        search_ends b size nr fuel (advance size nr (take_frame nr s))
          (advance_in size nr (take_frame nr s) (omega arith) (omega arith)).0
          (advance_in size nr (take_frame nr s) (omega arith) (omega arith)).1
          (advance-Enough size nr fuel s (take_frame nr s) hb hi t.0 t.1 (taken_explored nr s) going
            enough))
      (λ going.
        search_ends b size nr fuel (advance size nr (drop_streak nr s))
          (advance_in size nr (drop_streak nr s) (omega arith) (omega arith)).0
          (advance_in size nr (drop_streak nr s) (omega arith) (omega arith)).1
          (advance-Enough size nr fuel s (drop_streak nr s) hb hi d.0 d.1 d.2 going enough))
