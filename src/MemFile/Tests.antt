-- ===== src/MemFile/Tests.antt =====
-- The file reader at work.
use hyve_mind.Prelude.{get_or, codes, ℕ, zero, suc, ◌<◌, refl, ◌≢◌, arith}
use hyve_mind.MemFile.{MemFile, line_break, quote, seek_token_in_line, config_ops}
use hyve_mind.MemFile.Line.{FoundInLine, seek_token_in_line_lem}

-- The line ` a=1` and its line break.
abbrev one_line : MemFile
one_line = record {
  f = λ i. get_or (codes " a=1") i line_break;
  pos = 0;
  size = 5;
  ops = config_ops;
}

seek_token_in_line_lem_example : FoundInLine one_line (seek_token_in_line 5 one_line 0 0) 0 4
seek_token_in_line_lem_example =
    seek_token_in_line_lem one_line 0 0 4 5 refl unquoted (omega arith) (omega arith) (omega arith)
  where
    unquoted : (i : ℕ) → i < 4 → one_line.f i ≢ quote
    unquoted zero h = λ e. omega (arith, e)
    unquoted (suc zero) h = λ e. omega (arith, e)
    unquoted (suc (suc zero)) h = λ e. omega (arith, e)
    unquoted (suc (suc (suc zero))) h = λ e. omega (arith, e)
    unquoted (suc (suc (suc (suc i)))) h = absurd (omega arith)
