-- ===== src/VmConfig/Induction.antt =====
-- Properties that the loop of `parse_vm_config_file` of vm_config.c keeps from token to token.
use hyve_mind.Prelude.{
  leb, Bool-cases, length, Exec, ret, die, ℕ, ◌≡◌, refl, inl, inr, Bool, true, false, List, [], ◌∷◌,
  ◌++◌,
}
use hyve_mind.Radix.{RadixNode}
use hyve_mind.VmConfig.{
  VmRequest, valid_config_request, ParsingState, ps_continue, ps_done_success, ps_stop_error,
  ps_config_entry_completed, ConfigParsingStatus, Found, token, invalid_symbol, ParserState,
}
use hyve_mind.VmConfig.Parser.{
  handle, default_vec_init_capacity, push_back_vm_req_vector, Iteration, going, stopped, halted,
  next_entry, pushed, entry_completed, after_handler, resume, parse_vm_config_file,
}

-- What holds of the requests of a parser that returns.
abbrev pub Returns :
    (List VmRequest → Type 0) → Exec (ConfigParsingStatus × List VmRequest) → Type 0
Returns Q (ret (status, reqs)) = Q reqs
Returns Q die = Unit {0}

module _ (P : ParserState → List VmRequest → Type 0) (Q : List VmRequest → Type 0)
    (keys : RadixNode) (done : (s : ParserState) (reqs : List VmRequest) → P s reqs → Q reqs)
    (handled : (s : ParserState) (reqs : List VmRequest) (t : List ℕ)
      → P s reqs
      → P (handle s.token_state keys s t).1 reqs)
    (completed : (s : ParserState) (reqs : List VmRequest)
      → P s reqs
      → valid_config_request s.request ≡ true
      → P (next_entry s) (reqs ++ s.request ∷ [])) where
  abbrev Kept : Iteration → Type 0
  Kept (going s reqs) = P s reqs
  Kept (stopped status reqs) = Q reqs
  Kept halted = Unit {0}

  Kept-pushed :
      (s : ParserState) (reqs : List VmRequest)
      → P s reqs
      → valid_config_request s.request ≡ true
      → Kept (pushed s (push_back_vm_req_vector reqs s.request))
  Kept-pushed s reqs h v = elim (Bool-cases (leb default_vec_init_capacity (length reqs))) [
    | inl full ↦ rw full tt
    | inr room ↦ rw room (completed s reqs h v)
  ]

  Kept-entry_completed :
      (b : Bool) (s : ParserState) (reqs : List VmRequest)
      → valid_config_request s.request ≡ b
      → P s reqs
      → Kept (entry_completed b s reqs)
  Kept-entry_completed true s reqs v h = Kept-pushed s reqs h v
  Kept-entry_completed false s reqs v h = done s reqs h

  Kept-after_handler :
      (next : ParsingState) (s : ParserState) (reqs : List VmRequest)
      → P s reqs
      → Kept (after_handler next s reqs)
  Kept-after_handler ps_continue s reqs h = h
  Kept-after_handler ps_done_success s reqs h = done s reqs h
  Kept-after_handler ps_stop_error s reqs h = done s reqs h
  Kept-after_handler ps_config_entry_completed s reqs h =
      Kept-entry_completed (valid_config_request s.request) s reqs refl h

  Kept-resume :
      (i : Iteration)
      (loop : ParserState → List VmRequest → Exec (ConfigParsingStatus × List VmRequest))
      → ((s : ParserState) (reqs : List VmRequest) → P s reqs → Returns Q (loop s reqs))
      → Kept i
      → Returns Q (resume i loop)
  Kept-resume (going s reqs) loop k h = k s reqs h
  Kept-resume (stopped status reqs) loop k h = h
  Kept-resume halted loop k h = tt

  pub parse_induction :
      (tokens : List Found) (s : ParserState) (reqs : List VmRequest)
      → P s reqs
      → Returns Q (parse_vm_config_file keys s reqs tokens)
  unfolding parse_vm_config_file
  parse_induction [] s reqs h = done s reqs h
  parse_induction (invalid_symbol ∷ rest) s reqs h = done s reqs h
  parse_induction (token t ∷ rest) s reqs h =
      let (next, s') = handle s.token_state keys s t in
      Kept-resume (after_handler next s' reqs) (λ s2 reqs2. parse_vm_config_file keys s2 reqs2 rest)
        (λ s2 reqs2 h2. parse_induction rest s2 reqs2 h2)
        (Kept-after_handler next s' reqs (handled s reqs t h))
