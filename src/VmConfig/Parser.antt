-- ===== src/VmConfig/Parser.antt =====
-- The state machine of vm_config.c that reads the configuration file token by token.
use hyve_mind.Prelude.{
  leb, if◌then◌else◌, length, Exec, ret, die, ℕ, zero, suc, Bool, true, false, ◌||◌, Option, none,
  some, List, [], ◌∷◌, ◌++◌,
}
use hyve_mind.Radix.{RadixNode, create_radix_tree, radix_tree_get, radix_tree_add}
use hyve_mind.Radix.Strings.{same_key}
use hyve_mind.VmConfig.{
  ConfigKey, config_vm_name_key, config_key_strings, config_keys, config_section_start,
  config_section_end, config_section_delim, VmRequest, fresh_request, valid_config_request,
  TokenState, token_search_start_marker, token_search_config_entry_start, token_search_entry_delim,
  token_search_entry_val, ParsingState, ps_continue, ps_done_success, ps_stop_error,
  ps_config_entry_completed, ConfigParsingStatus, parsing_success, parsing_err_invalid_entry,
  parsing_err_malformed_file, Found, token, invalid_symbol, ParserState,
}
use hyve_mind.VmConfig.Values.{set_vm_request_val}

abbrev pub key_at : List ConfigKey → ℕ → ConfigKey
key_at [] n = config_vm_name_key
key_at (k ∷ ks) zero = k
key_at (k ∷ ks) (suc n) = key_at ks n

-- A key was added, or the memory ran out: then the tree is given up.
abbrev pub after_add :
    Option (Bool × RadixNode × ℕ) → (RadixNode → ℕ → Option RadixNode) → Option RadixNode
after_add none loop = none
after_add (some (false, root, left)) loop = none
after_add (some (true, root, left)) loop = loop root left

-- The loop of `get_config_key_radix` over the keys from `index` on.
unfoldable pub add_config_keys : ℕ → RadixNode → List (List ℕ) → ℕ → Option RadixNode
add_config_keys allocs root [] index = some root
add_config_keys allocs root (key ∷ keys) index =
    after_add (radix_tree_add (suc (length key)) allocs root key index)
      λ root' left. add_config_keys left root' keys (suc index)

abbrev pub with_root : Option (RadixNode × ℕ) → Option RadixNode
with_root none = none
with_root (some (root, left)) = add_config_keys left root config_key_strings 0

unfoldable pub get_config_key_radix : ℕ → Option RadixNode
get_config_key_radix allocs = with_root (create_radix_tree allocs)

abbrev pub handle_search_start_marker : ParserState → List ℕ → ParsingState × ParserState
handle_search_start_marker s t =
    if same_key config_section_start t
    then (ps_continue, record s { token_state = token_search_config_entry_start })
    else (ps_stop_error, s)

abbrev pub key_found : ParserState → Option ℕ → ParsingState × ParserState
key_found s none = (ps_stop_error, s)
key_found s (some key_val) = (
  ps_continue,
  record s { key = key_at config_keys key_val; token_state = token_search_entry_delim },
)

abbrev pub handle_search_config_entry_start :
    RadixNode → ParserState → List ℕ → ParsingState × ParserState
handle_search_config_entry_start supported_keys s t =
    if same_key config_section_end t
    then (ps_config_entry_completed, record s { token_state = token_search_start_marker })
    else key_found s (radix_tree_get supported_keys t)

abbrev pub handle_search_delim : ParserState → List ℕ → ParsingState × ParserState
handle_search_delim s t =
    if same_key config_section_delim t
    then (ps_continue, record s { token_state = token_search_entry_val })
    else (ps_stop_error, s)

abbrev pub is_reserved : List ℕ → Bool
is_reserved t =
    same_key config_section_start t
    || same_key config_section_end t
    || same_key config_section_delim t

abbrev pub value_set : Bool × ParserState → ParsingState × ParserState
value_set (false, s) = (ps_stop_error, s)
value_set (true, s) = (ps_continue, record s { token_state = token_search_config_entry_start })

abbrev pub handle_search_value : ParserState → List ℕ → ParsingState × ParserState
handle_search_value s t =
    if is_reserved t then (ps_stop_error, s) else value_set (set_vm_request_val s.key s t)

-- The handler of the parser's state.
abbrev pub handle : TokenState → RadixNode → ParserState → List ℕ → ParsingState × ParserState
handle token_search_start_marker supported_keys s t = handle_search_start_marker s t
handle token_search_config_entry_start supported_keys s t =
    handle_search_config_entry_start supported_keys s t
handle token_search_entry_delim supported_keys s t = handle_search_delim s t
handle token_search_entry_val supported_keys s t = handle_search_value s t

-- The handlers at SEEK_OOM.
abbrev pub handle_oom : TokenState → ParsingState
handle_oom token_search_start_marker = ps_done_success
handle_oom token_search_config_entry_start = ps_stop_error
handle_oom token_search_entry_delim = ps_stop_error
handle_oom token_search_entry_val = ps_stop_error

abbrev pub parsing_result : ParsingState → ConfigParsingStatus
parsing_result ps_done_success = parsing_success
parsing_result ps_continue = parsing_err_malformed_file
parsing_result ps_stop_error = parsing_err_malformed_file
parsing_result ps_config_entry_completed = parsing_err_malformed_file

abbrev pub default_vec_init_capacity : ℕ
default_vec_init_capacity = 512

-- `push_back` on a vector of requests.
abbrev pub push_back_vm_req_vector : List VmRequest → VmRequest → Exec (List VmRequest)
push_back_vm_req_vector reqs request =
    if leb default_vec_init_capacity (length reqs) then die else ret (reqs ++ request ∷ [])

-- How an iteration of the loop of `parse_vm_config_file` ends.
pub data Iteration : Type 0 where
  going : ParserState → List VmRequest → Iteration
  stopped : ConfigParsingStatus → List VmRequest → Iteration
  halted : Iteration

-- The next entry starts with a zeroed request that has the next number.
abbrev pub next_entry : ParserState → ParserState
next_entry s = record s { request = fresh_request (suc s.request.id) }

abbrev pub pushed : ParserState → Exec (List VmRequest) → Iteration
pushed s die = halted
pushed s (ret reqs) = going (next_entry s) reqs

abbrev pub entry_completed : Bool → ParserState → List VmRequest → Iteration
entry_completed false s reqs = stopped parsing_err_invalid_entry reqs
entry_completed true s reqs = pushed s (push_back_vm_req_vector reqs s.request)

abbrev pub after_handler : ParsingState → ParserState → List VmRequest → Iteration
after_handler ps_continue s reqs = going s reqs
after_handler ps_done_success s reqs = stopped parsing_success reqs
after_handler ps_stop_error s reqs = stopped parsing_err_malformed_file reqs
after_handler ps_config_entry_completed s reqs =
    entry_completed (valid_config_request s.request) s reqs

abbrev pub resume :
    Iteration
    → (ParserState → List VmRequest → Exec (ConfigParsingStatus × List VmRequest))
    → Exec (ConfigParsingStatus × List VmRequest)
resume (going s reqs) loop = loop s reqs
resume (stopped status reqs) loop = ret (status, reqs)
resume halted loop = die

-- The loop of `parse_vm_config_file` from the next token on.
unfoldable pub parse_vm_config_file :
    RadixNode
    → ParserState
    → List VmRequest
    → List Found
    → Exec (ConfigParsingStatus × List VmRequest)
parse_vm_config_file supported_keys s reqs [] =
    ret (parsing_result (handle_oom s.token_state), reqs)
parse_vm_config_file supported_keys s reqs (invalid_symbol ∷ rest) =
    ret (parsing_err_malformed_file, reqs)
parse_vm_config_file supported_keys s reqs (token t ∷ rest) =
    let (next, s') = handle s.token_state supported_keys s t in
    resume (after_handler next s' reqs)
      (λ s2 reqs2. parse_vm_config_file supported_keys s2 reqs2 rest)

abbrev pub initial_state : (ℕ → Option ℕ) → ParserState
initial_state assignee = record {
  token_state = token_search_start_marker;
  key = config_vm_name_key;
  request = fresh_request 0;
  assignee = assignee;
}
