-- ===== src/ConnectionData/Filled.antt =====
-- Fastcgi/ConnectionData.h: the operations and emptyCallbackFn.
use santiago_old.Prelude.{
  ℕ, ◌≡◌, ◌≢◌, ◌⊎◌, inl, inr, List, [], Bool-cases, Option-cases, arith, length, ◌==◌,
}
use santiago_old.Exec.{Exec, ok, Outcome-cases}
use santiago_old.OrderedMap.{nat_key, find, erase, assign-ne-nil, ne-nil_of_length}
use santiago_old.RequestData.{parse_fcgi_params}
use santiago_old.ConnectionData.{
  ConnectionData, Entry, Notice, became_empty, in_completed, params_completed,
  check_for_empty_request_map, set_flag, set_object, flagged, complete_params, handle_begin_request,
  handle_abort_request, handle_stdin, handle_params, cleanup_request,
}

abbrev pub IsFilled : ConnectionData → Type 0
IsFilled d = d.request_map ≢ []

-- An operation that starts with requests leaves some, unless it ends with emptyCallbackFn.
abbrev pub KeepsFilled : Exec ConnectionData Notice → Type 0
KeepsFilled m = (d : ConnectionData) → IsFilled d → ((m d).0 ≡ ok became_empty) ⊎ IsFilled (m d).1

check_cases : (d : ConnectionData) → (check_for_empty_request_map d ≡ became_empty) ⊎ IsFilled d
unfolding check_for_empty_request_map
check_cases d = elim (Bool-cases (length d.request_map == 0)) [
  | inl e ↦ inl (ground arith)
  | inr e ↦ inr (ne-nil_of_length d.request_map e)
]

erased_cases :
    (i : ℕ) (d : ConnectionData)
    → (check_for_empty_request_map (record d { request_map = erase i d.request_map })
        ≡ became_empty)
      ⊎ (erase i d.request_map ≢ [])
erased_cases i d = check_cases (record d { request_map = erase i d.request_map })

pub handle_begin_request-KeepsFilled : (i : ℕ) → KeepsFilled (handle_begin_request i)
unfolding handle_begin_request
handle_begin_request-KeepsFilled i d h = inr (
    ground (
      arith,
      assign-ne-nil i (record { request_state = 0; request_data = d.next_object }) d.request_map,
    ))

pub handle_abort_request-KeepsFilled : (i : ℕ) → KeepsFilled (handle_abort_request i)
unfolding handle_abort_request
handle_abort_request-KeepsFilled i d h = ground (arith, erased_cases i d)

set_flag-IsFilled : (i f : ℕ) (e : Entry) (d : ConnectionData) → IsFilled (set_flag i f e d)
unfolding set_flag
set_flag-IsFilled i f e d = assign-ne-nil i (flagged f e) d.request_map

pub handle_stdin-KeepsFilled : (i : ℕ) (b : List ℕ) → KeepsFilled (handle_stdin i b)
unfolding handle_stdin set_object
handle_stdin-KeepsFilled i b d h = elim (Option-cases (find i d.request_map)) [
  | inl missing ↦ inr (ground (arith, missing))
  | inr (e, found) ↦ inr (ground (arith, found, set_flag-IsFilled i in_completed e d))
]

complete_params-IsFilled :
    (i : ℕ) (e : Entry) (d : ConnectionData) → IsFilled d → IsFilled (complete_params i e d).1
unfolding complete_params
complete_params-IsFilled i e d h =
    elim (Outcome-cases (parse_fcgi_params (d.objects e.request_data))) [
      | inl (r, parsed) ↦
          ground (arith, parsed, set_flag-IsFilled i params_completed e (set_object e r d))
      | inr (inl (x, raised)) ↦ ground (arith, raised)
      | inr (inr (x, stopped)) ↦ ground (arith, stopped)
    ]

pub handle_params-KeepsFilled : (i : ℕ) (b : List ℕ) → KeepsFilled (handle_params i b)
unfolding handle_params set_object
handle_params-KeepsFilled i b d h = elim (Option-cases (find i d.request_map)) [
  | inl missing ↦ inr (ground (arith, missing))
  | inr (e, found) ↦ inr (ground (arith, found, complete_params-IsFilled i e d h))
]

pub cleanup_request-KeepsFilled : (i : ℕ) → KeepsFilled (cleanup_request i)
unfolding cleanup_request
cleanup_request-KeepsFilled i d h = ground (arith, erased_cases i d)
