-- ===== src/Printf/Format.antt =====
-- The format loop of printf.c.
use hyve_mind.Prelude.{
  ◌==◌, if◌then◌else◌, length, drop, length-drop, ℕ, zero, suc, ◌+◌, ◌≤◌, ◌≡◌, refl, ap, ◌∙◌, ◌≢◌,
  Bool, true, false, not, ◌&&◌, Option, none, some, List, [], ◌∷◌, ◌++◌, map, arith,
}
use hyve_mind.Printf.{Output, putc, puts, put_dec, put_hex, char_or_nul, emit, printf_loop}

if_ends :
    (b : Bool) (x y : Option (List Output)) → x ≢ none → y ≢ none → (if b then x else y) ≢ none
if_ends true x y hx hy = hx
if_ends false x y hx hy = hy

emit_ends : (o : Output) (x : Option (List Output)) → x ≢ none → emit o x ≢ none
emit_ends o none h = h
emit_ends o (some out) h = λ e. cc

round_ends :
    (fuel c : ℕ) (cs : List ℕ) (args : ℕ)
    → printf_loop fuel cs args ≢ none
    → printf_loop fuel (drop 1 cs) (args + 1) ≢ none
    → printf_loop fuel (drop 2 cs) (args + 1) ≢ none
    → printf_loop fuel (drop 2 cs) args ≢ none
    → printf_loop (suc fuel) (c ∷ cs) args ≢ none
unfolding printf_loop
round_ends fuel c cs args step string number binary =
    if_ends (not (c == b'%')) _ _ (emit_ends (putc c) _ step) (
      if_ends (char_or_nul cs == b'%') _ _ step (
        if_ends (char_or_nul cs == b's') _ _ (emit_ends (puts args) _ string) (
          if_ends (char_or_nul cs == b'l' && (char_or_nul (drop 1 cs) == b'u')) _ _
            (emit_ends (put_dec args) _ number)
            (if_ends (char_or_nul cs == b'l' && (char_or_nul (drop 1 cs) == b'x')) _ _
              (emit_ends (put_hex args) _ number)
              (if_ends (char_or_nul cs == b'l' && (char_or_nul (drop 1 cs) == b'b')) _ _ binary
                (emit_ends (putc c) _ step))))))

-- The loop ends: each round passes at least one character.
pub printf_loop_total :
    (fuel : ℕ) (fmt : List ℕ) (args : ℕ) → length fmt ≤ fuel → printf_loop fuel fmt args ≢ none
unfolding printf_loop
printf_loop_total zero [] args h = λ e. cc
printf_loop_total (suc fuel) [] args h = λ e. cc
printf_loop_total zero (c ∷ cs) args h = absurd (omega arith)
printf_loop_total (suc fuel) (c ∷ cs) args h =
    round_ends fuel c cs args (printf_loop_total fuel cs args (omega arith))
      (printf_loop_total fuel (drop 1 cs) (args + 1) (omega (arith, length-drop 1 cs)))
      (printf_loop_total fuel (drop 2 cs) (args + 1) (omega (arith, length-drop 2 cs)))
      (printf_loop_total fuel (drop 2 cs) args (omega (arith, length-drop 2 cs)))

-- A `%%` is no escape: the first `%` is dropped, and the second opens a conversion with whatever
-- follows it, so that `%%s` prints a string argument like `%s`.
pub printf_loop_percent :
    (fuel : ℕ) (fmt : List ℕ) (args : ℕ)
    → printf_loop (suc fuel) (b'%' ∷ b'%' ∷ fmt) args ≡ printf_loop fuel (b'%' ∷ fmt) args
unfolding printf_loop
printf_loop_percent fuel fmt args = refl

-- The characters of a text without `%`.
abbrev pub IsPlain : List ℕ → Type 0
IsPlain [] = Unit
IsPlain (c ∷ cs) = (c ≢ b'%') × IsPlain cs

plain_step :
    (fuel c : ℕ) (cs : List ℕ) (args : ℕ) (out : List Output)
    → c ≢ b'%'
    → printf_loop fuel cs args ≡ some out
    → printf_loop (suc fuel) (c ∷ cs) args ≡ some (putc c ∷ out)
unfolding printf_loop
plain_step fuel c cs args out h e = let plain : (c == b'%') ≡ false = ground arith in rw (plain, e)

-- Text in front of a conversion is printed character by character.
pub printf_loop_plain :
    (text fmt : List ℕ) (fuel args : ℕ) (out : List Output)
    → IsPlain text
    → printf_loop fuel fmt args ≡ some out
    → printf_loop (length text + fuel) (text ++ fmt) args ≡ some (map putc text ++ out)
printf_loop_plain [] fmt fuel args out p h =
    ap (λ (t : ℕ). printf_loop t fmt args) (omega arith) ∙ h
printf_loop_plain (c ∷ cs) fmt fuel args out p h =
    ap (λ (t : ℕ). printf_loop t (c ∷ (cs ++ fmt)) args)
      (let e : suc (length cs) + fuel ≡ suc (length cs + fuel) = omega arith in e)
    ∙ plain_step (length cs + fuel) c (cs ++ fmt) args (map putc cs ++ out) p.0
        (printf_loop_plain cs fmt fuel args out p.1 h)
