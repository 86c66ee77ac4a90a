-- ===== src/ConnectionData/Changes.antt =====
-- Fastcgi/ConnectionData.h: the operations as one type, and the changes of the request map.
use santiago_old.Prelude.{
  ℕ, suc, ◌≡◌, inl, inr, refl, none, some, List, Bool, false, Bool-cases, Option-cases, arith,
  length, ◌==◌, ◌&&◌, if◌then◌else◌,
}
use santiago_old.Exec.{Exec, Outcome, ok, Outcome-cases}
use santiago_old.OrderedMap.{nat_key, find, erase, assign}
use santiago_old.RequestData.{parse_fcgi_params}
use santiago_old.ConnectionData.{
  ConnectionData, Entry, Notice, quiet, request_ready, has_flag, in_completed, params_completed,
  check_for_empty_request_map, check_for_request_ready, set_flag, set_object, flagged,
  complete_params, handle_begin_request, handle_abort_request, handle_stdin, handle_params,
  cleanup_request,
}

pub data Op : Type 0 where
  begins : ℕ → Op
  aborts : ℕ → Op
  stdin_chunk : ℕ → List ℕ → Op
  params_chunk : ℕ → List ℕ → Op
  cleans_up : ℕ → Op

unfoldable pub perform : Op → Exec ConnectionData Notice
perform (begins i) = handle_begin_request i
perform (aborts i) = handle_abort_request i
perform (stdin_chunk i b) = handle_stdin i b
perform (params_chunk i b) = handle_params i b
perform (cleans_up i) = cleanup_request i

-- Both streams of a request are at their end.
unfoldable pub is_complete : Entry → Bool
is_complete e = has_flag e.request_state params_completed && has_flag e.request_state in_completed

abbrev pub notice_of : Outcome Notice → Notice
notice_of (ok n) = n
notice_of _ = quiet

abbrev pub ready_notice : ℕ → Entry → Notice
ready_notice i e = if is_complete e then request_ready i e.request_data else quiet

abbrev pub IsReady : Notice → Type 0
IsReady (request_ready i p) = Unit
IsReady _ = ⊥

-- How an operation changes the map, with the callback that it makes.
pub data Change (d d' : ConnectionData) (n : Notice) : Type 0 where
  same :
      d'.request_map ≡ d.request_map → d'.next_object ≡ d.next_object → ¬ IsReady n → Change d d' n
  added :
      (i : ℕ)
      → find i d.request_map ≡ none
      → d'.request_map
        ≡ assign i (record { request_state = 0; request_data = d.next_object }) d.request_map
      → d'.next_object ≡ suc d.next_object
      → ¬ IsReady n
      → Change d d' n
  removed :
      (i : ℕ)
      → d'.request_map ≡ erase i d.request_map
      → d'.next_object ≡ d.next_object
      → ¬ IsReady n
      → Change d d' n
  marked :
      (i : ℕ) (e : Entry) (f : ℕ)
      → find i d.request_map ≡ some e
      → is_complete e ≡ false
      → d'.request_map ≡ assign i (flagged f e) d.request_map
      → d'.next_object ≡ d.next_object
      → n ≡ ready_notice i (flagged f e)
      → Change d d' n

abbrev pub Changes : Exec ConnectionData Notice → ConnectionData → Type 0
Changes m d = Change d (m d).1 (notice_of (m d).0)

not-IsReady-empty : (d : ConnectionData) → ¬ IsReady (check_for_empty_request_map d)
unfolding check_for_empty_request_map
not-IsReady-empty d h = elim (Bool-cases (length d.request_map == 0)) [
  | inl e ↦ rw e at h
  | inr e ↦ rw e at h
]

check_for_request_ready_lem : (i : ℕ) (e : Entry) → check_for_request_ready i e ≡ ready_notice i e
unfolding check_for_request_ready is_complete
check_for_request_ready_lem i e = refl

not-IsReady : (i : ℕ) (e : Entry) → is_complete e ≡ false → ¬ IsReady (check_for_request_ready i e)
not-IsReady i e open_still h = rw (check_for_request_ready_lem i e, open_still) at h

begins-Change : (i : ℕ) (d : ConnectionData) → Changes (handle_begin_request i) d
unfolding handle_begin_request
begins-Change i d = elim (Option-cases (find i d.request_map)) [
  | inl e ↦ rw (e, handle_begin_request) (added i e refl refl (λ h. h))
  | inr (x, e) ↦ rw (e, handle_begin_request) (same refl refl (λ h. h))
]

aborts-Change : (i : ℕ) (d : ConnectionData) → Changes (handle_abort_request i) d
unfolding handle_abort_request
aborts-Change i d = elim (Option-cases (find i d.request_map)) [
  | inl e ↦ rw (e, handle_abort_request) (same refl refl (λ h. h))
  | inr (x, e) ↦ rw (e, handle_abort_request) (removed i refl refl (not-IsReady-empty _))
]

open_stdin : (e : Entry) → has_flag e.request_state in_completed ≡ false → is_complete e ≡ false
unfolding is_complete
open_stdin e h = ground (arith, h)

open_params :
    (e : Entry) → has_flag e.request_state params_completed ≡ false → is_complete e ≡ false
unfolding is_complete
open_params e h = ground (arith, h)

marked_notice :
    (i f : ℕ) (e : Entry) → check_for_request_ready i (flagged f e) ≡ ready_notice i (flagged f e)
marked_notice i f e = check_for_request_ready_lem i (flagged f e)

stdin-Change : (i : ℕ) (b : List ℕ) (d : ConnectionData) → Changes (handle_stdin i b) d
unfolding handle_stdin set_flag set_object
stdin-Change i b d = elim (Option-cases (find i d.request_map)) [
  | inl missing ↦ rw (missing, handle_stdin) (same refl refl (λ h. h))
  | inr (e, found) ↦ elim (Bool-cases (has_flag e.request_state in_completed)) [
    | inl ended ↦ rw (found, ended, handle_stdin) (same refl refl (λ h. h))
    | inr more ↦ elim (Bool-cases (length b == 0)) [
      | inl last ↦
          rw (found, more, last, handle_stdin)
            (marked i e in_completed found (open_stdin e more) refl refl
              (marked_notice i in_completed e))
      | inr chunk ↦
          rw (found, more, chunk, handle_stdin)
            (same refl refl (not-IsReady i e (open_stdin e more)))
    ]
  ]
]

complete_params-Change :
    (i : ℕ) (e : Entry) (d : ConnectionData)
    → find i d.request_map ≡ some e
    → has_flag e.request_state params_completed ≡ false
    → Changes (complete_params i e) d
unfolding complete_params set_flag set_object
complete_params-Change i e d found more =
    elim (Outcome-cases (parse_fcgi_params (d.objects e.request_data))) [
      | inl (r, parsed) ↦
          rw (parsed, complete_params)
            (marked i e params_completed found (open_params e more) refl refl
              (marked_notice i params_completed e))
      | inr (inl (x, raised)) ↦ rw (raised, complete_params) (same refl refl (λ h. h))
      | inr (inr (x, stopped)) ↦ rw (stopped, complete_params) (same refl refl (λ h. h))
    ]

params-Change : (i : ℕ) (b : List ℕ) (d : ConnectionData) → Changes (handle_params i b) d
unfolding handle_params set_object
params-Change i b d = elim (Option-cases (find i d.request_map)) [
  | inl missing ↦ rw (missing, handle_params) (same refl refl (λ h. h))
  | inr (e, found) ↦ elim (Bool-cases (has_flag e.request_state params_completed)) [
    | inl ended ↦ rw (found, ended, handle_params) (same refl refl (λ h. h))
    | inr more ↦ elim (Bool-cases (length b == 0)) [
      | inl last ↦ rw (found, more, last, handle_params) (complete_params-Change i e d found more)
      | inr chunk ↦
          rw (found, more, chunk, handle_params)
            (same refl refl (not-IsReady i e (open_params e more)))
    ]
  ]
]

cleans_up-Change : (i : ℕ) (d : ConnectionData) → Changes (cleanup_request i) d
unfolding cleanup_request
cleans_up-Change i d = elim (Option-cases (find i d.request_map)) [
  | inl missing ↦ rw (missing, cleanup_request) (same refl refl (λ h. h))
  | inr (e, found) ↦ elim (Bool-cases (has_flag e.request_state in_completed)) [
    | inl ended ↦ rw (found, ended, cleanup_request) (removed i refl refl (not-IsReady-empty _))
    | inr more ↦ rw (found, more, cleanup_request) (same refl refl (λ h. h))
  ]
]

-- Every operation makes one of the four changes.
pub perform-Change : (op : Op) (d : ConnectionData) → Changes (perform op) d
unfolding perform
perform-Change (begins i) d = begins-Change i d
perform-Change (aborts i) d = aborts-Change i d
perform-Change (stdin_chunk i b) d = stdin-Change i b d
perform-Change (params_chunk i b) d = params-Change i b d
perform-Change (cleans_up i) d = cleans_up-Change i d
