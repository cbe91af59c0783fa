-- ===== src/MemFile/Line.antt =====
-- A line of a file that ends in a line break, as mem_file.c reads it.
use hyve_mind.Prelude.{
  ◌==◌, ==_iff, Bool-cases, ℕ, zero, suc, ◌+◌, ◌-◌, ◌≤◌, ◌<◌, ◌≡◌, refl, ap, ◌∙◌, ◌≢◌, ◌⊎◌, inl,
  inr, true, false, Option, some, arith, ℕ_discrete,
}
use hyve_mind.MemFile.{
  FileOps, MemFile, file_oom, seek_invalid_symbol, seek_no_token, seek_token, Seek, line_break,
  quote, outside, inside_token, ends_token, seek_loop, seek_token_in_line,
}

-- From `s` on stand valid characters, up to the one at `p`, which ends the token.
abbrev pub IsWord : MemFile → ℕ → ℕ → Type 0
IsWord file s p =
    (s < p)
    × ((i : ℕ) → s ≤ i → i < p → file.ops.is_valid_token_char (file.f i) ≡ true)
    × (ends_token file.ops (file.f p) ≡ true)

-- The token that was found: a word or one delimiter, with its first and its last character.
abbrev pub IsTokenAt : MemFile → Seek → Type 0
IsTokenAt file r =
    (r.end + 1 ≡ r.pos)
    × (IsWord file r.start r.pos
        ⊎ ((r.start ≡ r.end) × (file.ops.is_delim (file.f r.start) ≡ true)))

-- A character that neither ends a token nor belongs to one.
abbrev pub IsForbidden : FileOps → ℕ → Type 0
IsForbidden ops c = (ends_token ops c ≡ false) × (ops.is_valid_token_char c ≡ false)

-- The search ends at or before the place `q`: with the token that the blanks ahead of it lead to, at
-- a line break that only blanks lead to, or at a character that is not allowed, which blanks and then
-- valid characters lead to. `started` is where the token, or what would be one, begins.
pub record FoundInLine (file : MemFile) (o : Option Seek) (pos q : ℕ) : Type 0 where
  pub found : Seek
  pub started : ℕ
  pub returns : o ≡ some found
  pub within : (pos ≤ found.pos) × (found.pos ≤ q)
  pub after_blanks :
      (pos ≤ started)
      × (started ≤ found.pos)
      × ((i : ℕ) → pos ≤ i → i < started → file.ops.is_whitespace (file.f i) ≡ true)
  pub outcome :
      ((found.status ≡ seek_token) × (found.start ≡ started) × IsTokenAt file found)
      ⊎ (((found.status ≡ seek_no_token) × (found.pos ≡ started) × (file.f found.pos ≡ line_break))
          ⊎ ((found.status ≡ seek_invalid_symbol)
              × IsForbidden file.ops (file.f found.pos)
              × ((i : ℕ)
                  → started ≤ i
                  → i < found.pos
                  → file.ops.is_valid_token_char (file.f i) ≡ true)))

blank_ahead :
    (file : MemFile) (pos s : ℕ)
    → file.ops.is_whitespace (file.f pos) ≡ true
    → ((i : ℕ) → pos + 1 ≤ i → i < s → file.ops.is_whitespace (file.f i) ≡ true)
    → (i : ℕ) → pos ≤ i
    → i < s
    → file.ops.is_whitespace (file.f i) ≡ true
blank_ahead file pos s w v i h k = elim (ℕ_discrete i pos) [
  | yes e ↦ ap (λ (j : ℕ). file.ops.is_whitespace (file.f j)) e ∙ w
  | no ne ↦ v i (omega arith) k
]

-- A blank ahead changes nothing.
FoundInLine-later :
    (file : MemFile) (o : Option Seek) (pos q : ℕ)
    → file.ops.is_whitespace (file.f pos) ≡ true
    → FoundInLine file o (pos + 1) q
    → FoundInLine file o pos q
FoundInLine-later file o pos q w h = record {
  found = h.found;
  started = h.started;
  returns = h.returns;
  within = (omega (arith, h.within), h.within.1);
  after_blanks = (
    omega (arith, h.after_blanks.0),
    h.after_blanks.1,
    blank_ahead file pos h.started w h.after_blanks.2,
  );
  outcome = h.outcome;
}

-- A character that ends no token is not the line break at `q`.
before_break :
    (file : MemFile) (pos q : ℕ)
    → pos ≤ q
    → file.f q ≡ line_break
    → (file.f pos == line_break) ≡ false
    → pos < q
before_break file pos q h b n = elim (ℕ_discrete pos q) [
  | yes e ↦ let at_q = ap file.f e ∙ b in absurd (ground arith)
  | no ne ↦ omega arith
]

no_break : (ops : FileOps) (c : ℕ) → ends_token ops c ≡ false → (c == line_break) ≡ false
no_break ops c e = ground arith

valid_to_here :
    (file : MemFile) (s pos : ℕ)
    → ((i : ℕ) → s ≤ i → i < pos → file.ops.is_valid_token_char (file.f i) ≡ true)
    → file.ops.is_valid_token_char (file.f pos) ≡ true
    → (i : ℕ) → s ≤ i
    → i < pos + 1
    → file.ops.is_valid_token_char (file.f i) ≡ true
valid_to_here file s pos v w i h k = elim (ℕ_discrete i pos) [
  | yes e ↦ ap (λ (j : ℕ). file.ops.is_valid_token_char (file.f j)) e ∙ w
  | no ne ↦ v i h (omega arith)
]

no_blanks :
    (file : MemFile) (s pos : ℕ)
    → s ≤ pos
    → (s ≤ s) × (s ≤ pos) × ((i : ℕ) → s ≤ i → i < s → file.ops.is_whitespace (file.f i) ≡ true)
no_blanks file s pos h = (omega arith, h, λ i a b. absurd (omega arith))

module _ (file : MemFile) (start end q : ℕ) (break : file.f q ≡ line_break)
    (unquoted : (i : ℕ) → i < q → file.f i ≢ quote) where
  inside-FoundInLine :
      (fuel s pos : ℕ)
      → pos ≤ q
      → q < pos + fuel
      → s < pos
      → ((i : ℕ) → s ≤ i → i < pos → file.ops.is_valid_token_char (file.f i) ≡ true)
      → FoundInLine file (seek_loop fuel file start end inside_token s pos) s q
  unfolding seek_loop
  inside-FoundInLine zero s pos h f lt v = absurd (omega arith)
  inside-FoundInLine (suc fuel) s pos h f lt v =
      elim (Bool-cases (ends_token file.ops (file.f pos))) [
        | inl e ↦ rw e (record {
          found = record { status = seek_token; pos = pos; start = s; end = pos - 1 };
          started = s;
          returns = refl;
          within = (omega arith, h);
          after_blanks = no_blanks file s pos (omega arith);
          outcome = inl (refl, refl, (omega arith, inl (lt, v, e)));
        })
        | inr e ↦ elim (Bool-cases (file.ops.is_valid_token_char (file.f pos))) [
          | inl w ↦
              rw (e, w)
                (inside-FoundInLine fuel s (pos + 1)
                  (let lt' = before_break file pos q h break (no_break file.ops (file.f pos) e) in
                    omega arith)
                  (omega arith) (omega arith) (valid_to_here file s pos v w))
          | inr w ↦
              rw (e, w)
                (record {
                  found = record {
                    status = seek_invalid_symbol;
                    pos = pos;
                    start = start;
                    end = end;
                  };
                  started = s;
                  returns = refl;
                  within = (omega arith, h);
                  after_blanks = no_blanks file s pos (omega arith);
                  outcome = inr (inr (refl, (e, w), v));
                })
        ]
      ]

  outside-FoundInLine :
      (fuel s pos : ℕ)
      → pos ≤ q
      → q < pos + fuel
      → FoundInLine file (seek_loop fuel file start end outside s pos) pos q
  unfolding seek_loop
  outside-FoundInLine zero s pos h f = absurd (omega arith)
  outside-FoundInLine (suc fuel) s pos h f = elim (Bool-cases (file.f pos == line_break)) [
    | inl e ↦ rw e (record {
      found = record { status = seek_no_token; pos = pos; start = end; end = end };
      started = pos;
      returns = refl;
      within = (omega arith, h);
      after_blanks = no_blanks file pos pos (omega arith);
      outcome = inr (inl (refl, refl, (==_iff (file.f pos) line_break).0 e));
    })
    | inr n ↦
        let lt = before_break file pos q h break n in
        elim (Bool-cases (file.ops.is_whitespace (file.f pos))) [
          | inl w ↦
              rw (n, w)
                (FoundInLine-later file _ pos q w
                  (outside-FoundInLine fuel s (pos + 1) (omega arith) (omega arith)))
          | inr w ↦ elim (Bool-cases (file.ops.is_delim (file.f pos))) [
            | inl d ↦
                rw (n, w, d)
                  (record {
                    found = record { status = seek_token; pos = pos + 1; start = pos; end = pos };
                    started = pos;
                    returns = refl;
                    within = (omega arith, omega arith);
                    after_blanks = no_blanks file pos (pos + 1) (omega arith);
                    outcome = inl (refl, refl, (refl, inr (refl, d)));
                  })
            | inr d ↦ elim (Bool-cases (file.ops.is_valid_token_char (file.f pos))) [
              | inl v ↦
                  rw (n, w, d, v)
                    (inside-FoundInLine fuel pos (pos + 1) (omega arith) (omega arith) (omega arith)
                      (valid_to_here file pos pos (λ i a b. absurd (omega arith)) v))
              | inr v ↦
                  let plain = unquoted pos lt in
                  let no_quote : (file.f pos == quote) ≡ false = ground arith in
                  let ends : ends_token file.ops (file.f pos) ≡ false = ground arith in
                  rw (n, w, d, v, no_quote)
                    (record {
                      found = record {
                        status = seek_invalid_symbol;
                        pos = pos;
                        start = start;
                        end = end;
                      };
                      started = pos;
                      returns = refl;
                      within = (omega arith, h);
                      after_blanks = no_blanks file pos pos (omega arith);
                      outcome = inr (inr (refl, (ends, v), λ i a b. absurd (omega arith)));
                    })
            ]
          ]
        ]
  ]

-- Where the cursor lies before the size, a line break ahead and no quote before it, the search ends at or before that line break,
-- within as many rounds as there are characters up to it. It passes over blanks only. Then it finds a
-- word of valid characters that a blank, a delimiter or a line break ends, or one delimiter; or it
-- finds no token and stands at a line break; or it stands at a character that neither ends a token
-- nor belongs to one, with only valid characters between the blanks and it. The size of the file
-- plays no part.
pub seek_token_in_line_lem :
    (file : MemFile) (start end q fuel : ℕ)
    → file.f q ≡ line_break
    → ((i : ℕ) → i < q → file.f i ≢ quote)
    → file.pos < file.size
    → file.pos ≤ q
    → q < file.pos + fuel
    → FoundInLine file (seek_token_in_line fuel file start end) file.pos q
unfolding seek_token_in_line
seek_token_in_line_lem file start end q fuel break unquoted more h f =
    let open_file : file_oom file ≡ false = ground arith in
    rw open_file (outside-FoundInLine file start end q break unquoted fuel 0 file.pos h f)
