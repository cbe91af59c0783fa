-- ===== src/MemFile.antt =====
-- The file reader of lib/mem_file.c, with the characters of include/vm_config_defs.h.
--
-- A file is the memory from its first character on, its size and its cursor: as in the code, a read is
-- not kept within the size. The loops take fuel, and `none` means that it ran out.
pub mod Line
mod Tests
use hyve_mind.Prelude.{
  ltb, leb, ◌==◌, if◌then◌else◌, ℕ, zero, suc, ◌+◌, ◌-◌, Bool, true, false, not, ◌&&◌, ◌||◌, Option,
  none, some,
}

pub record FileOps : Type 0 where
  pub is_whitespace : ℕ → Bool
  pub is_delim : ℕ → Bool
  pub is_valid_token_char : ℕ → Bool

pub record MemFile : Type 0 where
  pub f : ℕ → ℕ
  pub pos : ℕ
  pub size : ℕ
  pub ops : FileOps

abbrev pub file_oom : MemFile → Bool
file_oom file = leb file.size file.pos

pub data SeekStatus : Type 0 where
  seek_oom : SeekStatus
  seek_exclusive_violation : SeekStatus
  seek_invalid_symbol : SeekStatus
  seek_no_token : SeekStatus
  seek_token : SeekStatus
  seek_success : SeekStatus

-- A status, the new cursor, and the place of the token.
pub record Seek : Type 0 where
  pub status : SeekStatus
  pub pos : ℕ
  pub start : ℕ
  pub end : ℕ

abbrev pub line_break : ℕ
line_break = b'\n'

abbrev pub quote : ℕ
quote = 34

-- Whether the loop stands in a token.
pub data Place : Type 0 where
  outside : Place
  inside_token : Place
  in_quoted_token : Place

abbrev pub ends_token : FileOps → ℕ → Bool
ends_token ops c = c == line_break || ops.is_whitespace c || ops.is_delim c

-- The loop of `seek_token_in_line`; `start` and `end` are what the caller's variables hold.
pub seek_loop : ℕ → MemFile → ℕ → ℕ → Place → ℕ → ℕ → Option Seek
seek_loop zero file start end place start_pos pos = none
seek_loop (suc fuel) file start end in_quoted_token start_pos pos =
    let further = seek_loop fuel file start end in_quoted_token start_pos (pos + 1) in
    let ok = if ltb (start_pos + 1) (pos - 1) then seek_token else seek_invalid_symbol in
    if file.f pos == quote
    then some (record { status = ok; pos = pos + 1; start = start_pos + 1; end = pos - 1 })
    else further
seek_loop (suc fuel) file start end outside start_pos pos =
    let c = file.f pos in
    let skipped = seek_loop fuel file start end outside start_pos (pos + 1) in
    let begun = seek_loop fuel file start end inside_token pos (pos + 1) in
    let quoted = seek_loop fuel file start end in_quoted_token pos (pos + 1) in
    if c == line_break
    then some (record { status = seek_no_token; pos = pos; start = end; end = end })
    else if file.ops.is_whitespace c
    then skipped
    else if file.ops.is_delim c
    then some (record { status = seek_token; pos = pos + 1; start = pos; end = pos })
    else if file.ops.is_valid_token_char c
    then begun
    else if c == quote
    then quoted
    else some (record { status = seek_invalid_symbol; pos = pos; start = start; end = end })
seek_loop (suc fuel) file start end inside_token start_pos pos =
    let c = file.f pos in
    let further = seek_loop fuel file start end inside_token start_pos (pos + 1) in
    if ends_token file.ops c
    then some (record { status = seek_token; pos = pos; start = start_pos; end = pos - 1 })
    else if file.ops.is_valid_token_char c
    then further
    else some (record { status = seek_invalid_symbol; pos = pos; start = start; end = end })

pub seek_token_in_line : ℕ → MemFile → ℕ → ℕ → Option Seek
seek_token_in_line fuel file start end =
    if file_oom file
    then some (record { status = seek_oom; pos = file.pos; start = start; end = end })
    else seek_loop fuel file start end outside 0 file.pos

-- The loop of `__seek_newline`: whether it met the line break or a violation, and where.
pub newline_loop : ℕ → MemFile → Bool → ℕ → Option (Bool × ℕ)
newline_loop zero file exclusive pos = none
newline_loop (suc fuel) file exclusive pos =
    let further = newline_loop fuel file exclusive (pos + 1) in
    if file.f pos == line_break
    then some (true, pos + 1)
    else if exclusive && not (file.ops.is_whitespace (file.f pos))
    then some (false, pos)
    else further

abbrev pub newline_found : MemFile → Option (Bool × ℕ) → Option (SeekStatus × ℕ)
newline_found file none = none
newline_found file (some (false, pos)) = some (seek_exclusive_violation, pos)
newline_found file (some (true, pos)) =
    some ((if leb file.size pos then seek_oom else seek_success), pos)

pub seek_newline : ℕ → MemFile → Bool → Option (SeekStatus × ℕ)
seek_newline fuel file exclusive =
    if file_oom file
    then some (seek_oom, file.pos)
    else newline_found file (newline_loop fuel file exclusive file.pos)

-- `is_config_whitespace`, `is_config_delim` and `is_valid_config_token_char`.
abbrev pub is_config_whitespace : ℕ → Bool
is_config_whitespace c = c == b' ' || c == b'\r' || c == b'\t'

abbrev pub is_config_delim : ℕ → Bool
is_config_delim c = c == b'='

abbrev pub is_valid_config_token_char : ℕ → Bool
is_valid_config_token_char c =
    (leb b'A' c && leb c b'Z')
    || (leb b'a' c && leb c b'z')
    || (leb b'0' c && leb c b'9')
    || c == b'['
    || c == b']'
    || c == b'-'
    || c == b'_'
    || c == b'.'

abbrev pub config_ops : FileOps
config_ops = record {
  is_whitespace = is_config_whitespace;
  is_delim = is_config_delim;
  is_valid_token_char = is_valid_config_token_char;
}
