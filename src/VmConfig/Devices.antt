-- ===== src/VmConfig/Devices.antt =====
-- The serial devices that the parser of vm_config.c gives to the requests.
use hyve_mind.Prelude.{
  ◌==◌, if◌then◌else◌, some_injective, ℕ, suc, ◌<◌, ◌≡◌, refl, sym, ap, ◌∙◌, ◌⊎◌, inl, inr, true,
  false, Option, some, List, [], ◌∷◌, ◌++◌, arith, ℕ_discrete,
}
use hyve_mind.Radix.{RadixNode}
use hyve_mind.VmConfig.{VmRequest, Found, ParserState}
use hyve_mind.VmConfig.Values.{assignable}
use hyve_mind.VmConfig.Parser.{handle, next_entry, parse_vm_config_file, initial_state}
use hyve_mind.VmConfig.Induction.{Returns, parse_induction}
use hyve_mind.VmConfig.Requests.{All, All-append, All-map, Effect, handle-Effect}

-- The device of a request, if it has one, is assigned to it.
abbrev Owned : (ℕ → Option ℕ) → VmRequest → Type 0
Owned assignee r = (r.serial_id ≡ 0) ⊎ (assignee r.serial_id ≡ some r.id)

abbrev Earlier : (ℕ → Option ℕ) → ℕ → VmRequest → Type 0
Earlier assignee id r = Owned assignee r × (r.id < id)

-- Two requests with the same device have none.
abbrev pub ShareNone : VmRequest → VmRequest → Type 0
ShareNone r q = q.serial_id ≡ r.serial_id → r.serial_id ≡ 0

-- No two requests share a device, and their numbers are in ascending order.
abbrev pub Unshared : List VmRequest → Type 0
Unshared [] = Unit {0}
Unshared (r ∷ rs) = All (λ q. ShareNone r q × (r.id < q.id)) rs × Unshared rs

record Assigned (s : ParserState) (reqs : List VmRequest) : Type 0 where
  earlier : All (Earlier s.assignee s.request.id) reqs
  current : Owned s.assignee s.request
  unshared : Unshared reqs

Unshared-append :
    (rs : List VmRequest) (q : VmRequest)
    → Unshared rs
    → All (λ r. ShareNone r q × (r.id < q.id)) rs
    → Unshared (rs ++ q ∷ [])
Unshared-append [] q h k = (tt, tt)
Unshared-append (r ∷ rs) q h k =
    (All-append (λ p. ShareNone r p × (r.id < p.id)) rs q h.0 k.0, Unshared-append rs q h.1 k.1)

-- Two owners of one device have the same number.
owners :
    (assignee : ℕ → Option ℕ) (id : ℕ) (q r : VmRequest)
    → Owned assignee q
    → id ≡ q.id
    → Earlier assignee id r
    → ShareNone r q × (r.id < q.id)
owners assignee id q r (inl e) i (h, lt) = ((λ same. sym same ∙ e), omega arith)
owners assignee id q r (inr e) i (inl z, lt) = ((λ same. z), omega arith)
owners assignee id q r (inr e) i (inr o, lt) = (
  (λ same.
      let same_id = some_injective q.id r.id (sym e ∙ ap assignee same ∙ o) in
      absurd (omega arith)),
  omega arith,
)

-- A device that a request may take is not that of an earlier one.
still_owned :
    (assignee : ℕ → Option ℕ) (id d : ℕ) (r : VmRequest)
    → assignable (assignee d) id ≡ true
    → Earlier assignee id r
    → Earlier (λ i. if i == d then some id else assignee i) id r
still_owned assignee id d r free (inl z, lt) = (inl z, lt)
still_owned assignee id d r free (inr o, lt) = elim (ℕ_discrete r.serial_id d) [
  | yes e ↦
      let taken : assignable (some r.id) id ≡ true =
        ap (λ (x : Option ℕ). assignable x id) (sym o ∙ ap assignee e) ∙ free in
      absurd (ground arith)
  | no ne ↦ let other : (r.serial_id == d) ≡ false = ground arith in (inr (rw other o), lt)
]

handled :
    (s s' : ParserState) (reqs : List VmRequest) → Effect s s' → Assigned s reqs → Assigned s' reqs
unfolding Effect
handled s s' reqs (same_id, inl (serial, same)) h = record {
  earlier = rw (same, same_id) h.earlier;
  current = rw (same, same_id, serial) h.current;
  unshared = h.unshared;
}
handled s s' reqs (same_id, inr (d, free, serial, new)) h =
    let here : (d == d) ≡ true = ground arith in
    record {
      earlier =
          rw (new, same_id)
            (All-map (Earlier s.assignee s.request.id)
              (Earlier (λ i. if i == d then some s.request.id else s.assignee i) s.request.id) reqs
              (λ r e. still_owned s.assignee s.request.id d r free e) h.earlier);
      current = rw (new, same_id, serial, here) (inr refl);
      unshared = h.unshared;
    }

completed :
    (s : ParserState) (reqs : List VmRequest)
    → Assigned s reqs
    → Assigned (next_entry s) (reqs ++ s.request ∷ [])
completed s reqs h = record {
  earlier =
      All-append (Earlier s.assignee (suc s.request.id)) reqs s.request
        (All-map (Earlier s.assignee s.request.id) (Earlier s.assignee (suc s.request.id)) reqs
          (λ r e. (e.0, omega (arith, e.1))) h.earlier)
        (h.current, omega arith);
  current = inl refl;
  unshared = Unshared-append reqs s.request h.unshared (
      All-map (Earlier s.assignee s.request.id) (λ r. ShareNone r s.request × (r.id < s.request.id))
        reqs (λ r e. owners s.assignee s.request.id s.request r h.current refl e) h.earlier);
}

-- No serial device is given to two virtual machines, and the requests are numbered in ascending order.
pub parse_vm_config_file-Unshared :
    (keys : RadixNode) (assignee : ℕ → Option ℕ) (tokens : List Found)
    → Returns Unshared (parse_vm_config_file keys (initial_state assignee) [] tokens)
parse_vm_config_file-Unshared keys assignee tokens =
    parse_induction Assigned Unshared keys (λ s reqs h. h.unshared)
      (λ s reqs t h.
        handled s (handle s.token_state keys s t).1 reqs (handle-Effect s.token_state keys s t) h)
      (λ s reqs h v. completed s reqs h) tokens (initial_state assignee) []
      (record { earlier = tt; current = inl refl; unshared = tt })
