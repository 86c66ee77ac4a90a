-- ===== src/ConnectionData/Phases.antt =====
-- Fastcgi/ConnectionData.h: the life of one request as a state machine, and the operations on its id.
use santiago_old.Prelude.{
  ℕ, ◌≡◌, ◌∙◌, refl, inl, inr, Bool, true, false, Bool-cases, none, some, List, length, ◌==◌,
  if◌then◌else◌,
}
use santiago_old.Exec.{
  Outcome, ok, thrown, halted, Exception, request_id_exists, abort_request_id_missing,
  stdin_request_id_missing, stdin_closed, params_request_id_missing, params_closed,
  cleanup_request_id_missing,
}
use santiago_old.OrderedMap.{nat_key, find, assign, erase, find-assign, find-erase}
use santiago_old.Pairs.Bounds.{parse_pairs-total}
use santiago_old.RequestData.{parse_fcgi_params}
use santiago_old.ConnectionData.{
  ConnectionData, Entry, Notice, quiet, request_ready, became_empty, has_flag, set_flag, set_object,
  check_for_empty_request_map, check_for_request_ready, handle_begin_request, handle_abort_request,
  handle_stdin, complete_params, handle_params, cleanup_request,
}
use santiago_old.ConnectionData.Changes.{
  Op, begins, aborts, stdin_chunk, params_chunk, cleans_up, perform,
}
use santiago_old.ConnectionData.Untouched.{id_of}
use santiago_old.ConnectionData.Chunks.{==-self}

-- A request is absent, or is there and has the end of its params and the end of its input.
pub data Phase : Type 0 where
  absent : Phase
  present : Bool → Bool → Phase

-- What an operation comes to for its request.
pub data Verdict : Type 0 where
  accepted announced asserted : Verdict
  refused : Exception → Verdict

-- The phase after an operation on the request.
unfoldable pub phase_after : Op → Phase → Phase
phase_after (begins i) absent = present false false
phase_after (begins i) (present p s) = present p s
phase_after (aborts i) ph = absent
phase_after (stdin_chunk i b) absent = absent
phase_after (stdin_chunk i b) (present p s) = present p (if length b == 0 then true else s)
phase_after (params_chunk i b) absent = absent
phase_after (params_chunk i b) (present p s) = present (if length b == 0 then true else p) s
phase_after (cleans_up i) absent = absent
phase_after (cleans_up i) (present p true) = absent
phase_after (cleans_up i) (present p false) = present p false

-- Whether it is accepted, and whether it makes the ready callback.
unfoldable pub judged : Op → Phase → Verdict
judged (begins i) absent = accepted
judged (begins i) (present p s) = refused request_id_exists
judged (aborts i) absent = refused abort_request_id_missing
judged (aborts i) (present p s) = accepted
judged (stdin_chunk i b) absent = refused stdin_request_id_missing
judged (stdin_chunk i b) (present p true) = refused stdin_closed
judged (stdin_chunk i b) (present p false) =
    if length b == 0 then (if p then announced else accepted) else accepted
judged (params_chunk i b) absent = refused params_request_id_missing
judged (params_chunk i b) (present true s) = refused params_closed
judged (params_chunk i b) (present false s) =
    if length b == 0 then (if s then announced else accepted) else accepted
judged (cleans_up i) absent = refused cleanup_request_id_missing
judged (cleans_up i) (present p true) = accepted
judged (cleans_up i) (present p false) = asserted

unfoldable pub verdict : Outcome Notice → Verdict
verdict (ok quiet) = accepted
verdict (ok became_empty) = accepted
verdict (ok (request_ready i p)) = announced
verdict (thrown e) = refused e
verdict (halted h) = asserted

-- The two flags as the request state.
abbrev pub flags : Bool → Bool → ℕ
flags false false = 0
flags false true = 1
flags true false = 2
flags true true = 3

abbrev pub InPhase : ConnectionData → ℕ → Phase → Type 0
InPhase d i absent = find i d.request_map ≡ none
InPhase d i (present p s) =
    (object : ℕ) × (find i d.request_map
      ≡ some (record { request_state = flags p s; request_data = object }))

abbrev Refines : Op → ConnectionData → Phase → Type 0
Refines op d ph =
    InPhase (perform op d).1 (id_of op) (phase_after op ph)
    × (verdict (perform op d).0 ≡ judged op ph)

found : (i : ℕ) (x : Entry) (d : ConnectionData) → find i (assign i x d.request_map) ≡ some x
found i x d = find-assign i i x d.request_map ∙ rw (==-self i) refl

lost : (i : ℕ) (d : ConnectionData) → find i (erase i d.request_map) ≡ none
lost i d = find-erase i i d.request_map ∙ rw (==-self i) refl

verdict-empty : (d : ConnectionData) → verdict (ok (check_for_empty_request_map d)) ≡ accepted
unfolding check_for_empty_request_map verdict
verdict-empty d = elim (Bool-cases (length d.request_map == 0)) [
  | inl e ↦ rw e refl
  | inr e ↦ rw e refl
]

begins-Refines :
    (i : ℕ) (d : ConnectionData) (ph : Phase) → InPhase d i ph → Refines (begins i) d ph
unfolding perform handle_begin_request phase_after judged verdict
begins-Refines i d absent h = rw (h, handle_begin_request) ((d.next_object, found i _ d), refl)
begins-Refines i d (present p s) (o, h) = rw (h, handle_begin_request) ((o, h), refl)

aborts-Refines :
    (i : ℕ) (d : ConnectionData) (ph : Phase) → InPhase d i ph → Refines (aborts i) d ph
unfolding perform handle_abort_request phase_after judged
aborts-Refines i d absent h = rw (h, handle_abort_request) (h, (unfold verdict in refl))
aborts-Refines i d (present p s) (o, h) = rw (h, handle_abort_request) (lost i d, verdict-empty _)

cleans_up-Refines :
    (i : ℕ) (d : ConnectionData) (ph : Phase) → InPhase d i ph → Refines (cleans_up i) d ph
unfolding perform cleanup_request phase_after judged has_flag
cleans_up-Refines i d absent h = rw (h, cleanup_request) (h, (unfold verdict in refl))
cleans_up-Refines i d (present false false) (o, h) =
    rw (h, cleanup_request) ((o, h), (unfold verdict in refl))
cleans_up-Refines i d (present true false) (o, h) =
    rw (h, cleanup_request) ((o, h), (unfold verdict in refl))
cleans_up-Refines i d (present false true) (o, h) =
    rw (h, cleanup_request) (lost i d, verdict-empty _)
cleans_up-Refines i d (present true true) (o, h) =
    rw (h, cleanup_request) (lost i d, verdict-empty _)

stdin-Refines :
    (i : ℕ) (b : List ℕ) (d : ConnectionData) (ph : Phase)
    → InPhase d i ph
    → Refines (stdin_chunk i b) d ph
unfolding perform handle_stdin phase_after judged has_flag set_flag set_object
    check_for_request_ready verdict
stdin-Refines i b d absent h = rw (h, handle_stdin) (h, refl)
stdin-Refines i b d (present false true) (o, h) =
    rw (h, handle_stdin)
      (elim (Bool-cases (length b == 0)) [
        | inl e ↦ rw e ((o, h), refl)
        | inr e ↦ rw e ((o, h), refl)
      ])
stdin-Refines i b d (present true true) (o, h) =
    rw (h, handle_stdin)
      (elim (Bool-cases (length b == 0)) [
        | inl e ↦ rw e ((o, h), refl)
        | inr e ↦ rw e ((o, h), refl)
      ])
stdin-Refines i b d (present false false) (o, h) = elim (Bool-cases (length b == 0)) [
  | inl e ↦ rw (h, handle_stdin, e) ((o, found i _ d), refl)
  | inr e ↦ rw (h, handle_stdin, e) ((o, h), refl)
]
stdin-Refines i b d (present true false) (o, h) = elim (Bool-cases (length b == 0)) [
  | inl e ↦ rw (h, handle_stdin, e) ((o, found i _ d), refl)
  | inr e ↦ rw (h, handle_stdin, e) ((o, h), refl)
]

params-Refines :
    (i : ℕ) (b : List ℕ) (d : ConnectionData) (ph : Phase)
    → InPhase d i ph
    → Refines (params_chunk i b) d ph
unfolding perform handle_params complete_params parse_fcgi_params phase_after judged has_flag
    set_flag set_object check_for_request_ready verdict
params-Refines i b d absent h = rw (h, handle_params) (h, refl)
params-Refines i b d (present true false) (o, h) = elim (Bool-cases (length b == 0)) [
  | inl e ↦ rw (h, handle_params, e) ((o, h), refl)
  | inr e ↦ rw (h, handle_params, e) ((o, h), refl)
]
params-Refines i b d (present true true) (o, h) = elim (Bool-cases (length b == 0)) [
  | inl e ↦ rw (h, handle_params, e) ((o, h), refl)
  | inr e ↦ rw (h, handle_params, e) ((o, h), refl)
]
params-Refines i b d (present false false) (o, h) = elim (Bool-cases (length b == 0)) [
  | inl e ↦
      let (m, run) = parse_pairs-total (d.objects o).params_buffer (d.objects o).params_map in
      rw (h, handle_params, e)
        (rw (run, parse_fcgi_params, complete_params) ((o, found i _ d), refl))
  | inr e ↦ rw (h, handle_params, e) ((o, h), refl)
]
params-Refines i b d (present false true) (o, h) = elim (Bool-cases (length b == 0)) [
  | inl e ↦
      let (m, run) = parse_pairs-total (d.objects o).params_buffer (d.objects o).params_map in
      rw (h, handle_params, e)
        (rw (run, parse_fcgi_params, complete_params) ((o, found i _ d), refl))
  | inr e ↦ rw (h, handle_params, e) ((o, h), refl)
]

-- On every branch, errors included, an operation on a request does what the state machine of its
-- phase says: the request is in the phase after it, and the operation is accepted, makes the ready
-- callback, is refused with the machine's exception, or fails its assertion, as the machine judges.
pub perform-Refines :
    (op : Op) (d : ConnectionData) (ph : Phase)
    → InPhase d (id_of op) ph
    → InPhase (perform op d).1 (id_of op) (phase_after op ph)
      × (verdict (perform op d).0 ≡ judged op ph)
perform-Refines (begins i) d ph h = begins-Refines i d ph h
perform-Refines (aborts i) d ph h = aborts-Refines i d ph h
perform-Refines (stdin_chunk i b) d ph h = stdin-Refines i b d ph h
perform-Refines (params_chunk i b) d ph h = params-Refines i b d ph h
perform-Refines (cleans_up i) d ph h = cleans_up-Refines i d ph h
