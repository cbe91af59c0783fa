-- ===== src/Vpic/Init.antt =====
-- The initialisation sequence of a chip: which words it waits for, and what they leave behind.
use hyve_mind.Prelude.{
  ltb, ◌==◌, if◌then◌else◌, ==_iff, Bool-cases, every_below, table_row, Exec, ret, ◌>>=◌, ℕ, ◌+◌,
  ◌<◌, bit_and, ◌≡◌, refl, ◌⊎◌, inl, inr, true, false, List, [], ◌∷◌, ◌++◌, arith,
}
use hyve_mind.Vpic.Commands.{
  State, uninitialized, initialized, icw2, icw3, icw4, icw2_icw3, icw2_icw4, icw2_icw3_icw4,
  icw3_icw4, read_irr, Chip, is_set, a0_set, a0_clear, is_icw1, icw1_ic4, icw1_sngl,
  icw4_unsupported,
}
use hyve_mind.Vpic.{
  in_init_sequence, get_next_init_state, get_init_state_from_icw1, start_init_sequence,
  handle_init_step, vpic_write,
}

-- A guest's writes of several words to one port.
pub send_words : Chip → ℕ → List ℕ → Exec Chip
send_words c port [] = ret c
send_words c port (w ∷ ws) = vpic_write c port w >>= λ c'. send_words c' port ws

-- The words that ICW1 announces: ICW3 unless the chip is single, ICW4 if IC4 is set.
abbrev pub announced : ℕ → ℕ → ℕ → ℕ → List ℕ
announced icw1 w2 w3 w4 =
    w2 ∷ (if is_set icw1 icw1_sngl then [] else w3 ∷ [])
    ++ (if is_set icw1 icw1_ic4 then w4 ∷ [] else [])

-- The chip that the data sheet promises after such a sequence.
pub programmed : Chip → ℕ → ℕ → ℕ → Chip
programmed c icw1 w2 w3 = record c {
  state = initialized;
  imr = 0;
  read_mode = read_irr;
  offset = bit_and w2 0xf8;
  sub_device =
      if is_set icw1 icw1_sngl
      then if c.has_parent then 7 else 0x80
      else if c.has_parent
      then bit_and w3 7
      else w3;
}

and_zero_table : every_below 256 (λ a. bit_and a 0 == 0) ≡ true
unfolding every_below
and_zero_table = refl

bit_and-zero : (a : ℕ) → a < 256 → bit_and a 0 ≡ 0
bit_and-zero a h = (==_iff _ _).0 (table_row 256 (λ a. bit_and a 0 == 0) a and_zero_table h)

vpic_write_icw1 :
    (c : Chip) (port icw1 : ℕ)
    → icw1 < 256
    → is_icw1 port icw1 ≡ true
    → vpic_write c port icw1
      ≡ ret (record c {
        state = get_init_state_from_icw1 icw1;
        imr = 0;
        read_mode = read_irr;
        sub_device = if c.has_parent then 7 else 0x80;
      })
unfolding vpic_write start_init_sequence
vpic_write_icw1 c port icw1 h hp = rw (hp, bit_and-zero icw1 h) refl

vpic_write_data :
    (c : Chip) (port val : ℕ)
    → a0_set port ≡ true
    → in_init_sequence c ≡ true
    → vpic_write c port val ≡ handle_init_step c val
unfolding vpic_write
vpic_write_data c port val hp h = ground arith

-- From any state, ICW1 on the command port and then the announced words on the data port leave the
-- chip initialised, with its mask cleared, IRR selected for reads, the vector offset of ICW2 and
-- the cascade setting of ICW3 (or the default of a single chip); requests and services are kept.
-- ICW4 may set no unsupported mode.
pub send_words-programmed :
    (c : Chip) (command port icw1 w2 w3 w4 : ℕ)
    → icw1 < 256
    → is_icw1 command icw1 ≡ true
    → a0_set port ≡ true
    → icw4_unsupported w4 ≡ false
    → (vpic_write c command icw1 >>= λ c'. send_words c' port (announced icw1 w2 w3 w4))
      ≡ ret (programmed c icw1 w2 w3)
unfolding send_words programmed vpic_write in_init_sequence handle_init_step get_next_init_state
    get_init_state_from_icw1
send_words-programmed c command port icw1 w2 w3 w4 h hc hp h4 =
    rw (vpic_write_icw1 c command icw1 h hc) (elim (Bool-cases (is_set icw1 icw1_sngl)) [
      | inl s ↦ elim (Bool-cases (is_set icw1 icw1_ic4)) [
        | inl i ↦ rw (s, i, hq, vpic_write, h4)
        | inr i ↦ ground arith
      ]
      | inr s ↦ ground arith
    ])
  where
    hq : a0_clear port ≡ false
    hq = ground arith

-- The words that a chip in this state still waits for.
pub words_left : State → ℕ
words_left uninitialized = 0
words_left initialized = 0
words_left icw2 = 1
words_left icw3 = 1
words_left icw4 = 1
words_left icw2_icw3 = 2
words_left icw2_icw4 = 2
words_left icw3_icw4 = 2
words_left icw2_icw3_icw4 = 3

handle_init_step-words_left :
    (c c' : Chip) (val : ℕ)
    → handle_init_step c val ≡ ret c'
    → words_left c.state ≡ words_left c'.state + 1
unfolding handle_init_step words_left get_next_init_state
handle_init_step-words_left c c' val e = ground arith

-- Within a sequence, a word on the data port that the chip accepts brings it one word nearer to the
-- end of the sequence, and a word on the command port that is no ICW1 changes nothing.
pub vpic_write-words_left :
    (c c' : Chip) (port val : ℕ)
    → in_init_sequence c ≡ true
    → is_icw1 port val ≡ false
    → vpic_write c port val ≡ ret c'
    → ((a0_clear port ≡ true) × (c' ≡ c))
      ⊎ ((a0_clear port ≡ false) × (words_left c.state ≡ words_left c'.state + 1))
unfolding vpic_write
vpic_write-words_left c c' port val h hi e = ground (arith, handle_init_step-words_left c c' val)

-- A sequence is under way exactly while words are left.
pub in_init_sequence-words_left : (c : Chip) → in_init_sequence c ≡ ltb 0 (words_left c.state)
unfolding in_init_sequence words_left
in_init_sequence-words_left c = ground arith
