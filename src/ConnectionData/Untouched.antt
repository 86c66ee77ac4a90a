-- ===== src/ConnectionData/Untouched.antt =====
-- Fastcgi/ConnectionData.h: the entry and the object of a request, over operations on other ids.
use santiago_old.Prelude.{
  ℕ, ◌≡◌, ◌≢◌, inl, inr, refl, some, List, Bool-cases, Option-cases, arith, ◌==◌, ==_iff, length,
}
use santiago_old.Exec.{Outcome-cases}
use santiago_old.OrderedMap.{nat_key, find, assign, erase, find-assign, find-erase}
use santiago_old.RequestData.{RequestData, parse_fcgi_params}
use santiago_old.ConnectionData.{
  ConnectionData, Entry, has_flag, in_completed, params_completed, update, handle_begin_request,
  handle_abort_request, handle_stdin, handle_params, cleanup_request, complete_params, set_flag,
  set_object,
}
use santiago_old.ConnectionData.Changes.{
  Op, begins, aborts, stdin_chunk, params_chunk, cleans_up, perform,
}
use santiago_old.ConnectionData.Addresses.{Holds, IsAddressed}

abbrev pub id_of : Op → ℕ
id_of (begins i) = i
id_of (aborts i) = i
id_of (stdin_chunk i b) = i
id_of (params_chunk i b) = i
id_of (cleans_up i) = i

-- The entry of a request and its object are as they were.
pub record Untouched (d d' : ConnectionData) (i : ℕ) (e : Entry) : Type 0 where
  pub held : Holds d' i e
  pub object : d'.objects e.request_data ≡ d.objects e.request_data

module _ (d : ConnectionData) (i j : ℕ) (e : Entry) (v : IsAddressed d) (here : Holds d i e)
    (other : j ≢ i) where
  same_map : Untouched d d i e
  same_map = record { held = here; object = refl }

  held-assign : (x : Entry) → find i (assign j x d.request_map) ≡ some e
  held-assign x = ground (arith, find-assign j i x d.request_map, here, other)

  held-erase : find i (erase j d.request_map) ≡ some e
  held-erase = ground (arith, find-erase j i d.request_map, here, other)

  -- Another object is changed.
  object-update :
      (x : Entry) (r : RequestData)
      → find j d.request_map ≡ some x
      → update d.objects x.request_data r e.request_data ≡ d.objects e.request_data
  object-update x r found = elim (Bool-cases (x.request_data == e.request_data)) [
    | inl eq ↦ absurd (other (v.apart j i x e found here ((==_iff _ _).0 eq)))
    | inr ne ↦ rw ne refl
  ]

  begins-Untouched : Untouched d (handle_begin_request j d).1 i e
  unfolding handle_begin_request
  begins-Untouched = elim (Option-cases (find j d.request_map)) [
    | inr (x, f) ↦ rw (f, handle_begin_request) same_map
    | inl f ↦
        rw (f, handle_begin_request)
          (record { held = held-assign _; object = ground (arith, v.fresh i e here) })
  ]

  aborts-Untouched : Untouched d (handle_abort_request j d).1 i e
  unfolding handle_abort_request
  aborts-Untouched = elim (Option-cases (find j d.request_map)) [
    | inl f ↦ rw (f, handle_abort_request) same_map
    | inr (x, f) ↦ rw (f, handle_abort_request) (record { held = held-erase; object = refl })
  ]

  cleans_up-Untouched : Untouched d (cleanup_request j d).1 i e
  unfolding cleanup_request
  cleans_up-Untouched = elim (Option-cases (find j d.request_map)) [
    | inl f ↦ rw (f, cleanup_request) same_map
    | inr (x, f) ↦ elim (Bool-cases (has_flag x.request_state in_completed)) [
      | inl ended ↦ rw (f, ended, cleanup_request) (record { held = held-erase; object = refl })
      | inr more ↦ rw (f, more, cleanup_request) same_map
    ]
  ]

  stdin-Untouched : (b : List ℕ) → Untouched d (handle_stdin j b d).1 i e
  unfolding handle_stdin set_flag set_object
  stdin-Untouched b = elim (Option-cases (find j d.request_map)) [
    | inl f ↦ rw (f, handle_stdin) same_map
    | inr (x, f) ↦ elim (Bool-cases (has_flag x.request_state in_completed)) [
      | inl ended ↦ rw (f, ended, handle_stdin) same_map
      | inr more ↦ elim (Bool-cases (length b == 0)) [
        | inl last ↦
            rw (f, more, last, handle_stdin) (record { held = held-assign _; object = refl })
        | inr chunk ↦
            rw (f, more, chunk, handle_stdin) (record { held = here; object = object-update x _ f })
      ]
    ]
  ]

  complete_params-Untouched :
      (x : Entry) → find j d.request_map ≡ some x → Untouched d (complete_params j x d).1 i e
  unfolding complete_params set_flag set_object
  complete_params-Untouched x f =
      elim (Outcome-cases (parse_fcgi_params (d.objects x.request_data))) [
        | inl (r, parsed) ↦
            rw (parsed, complete_params)
              (record { held = held-assign _; object = object-update x r f })
        | inr (inl (y, raised)) ↦ rw (raised, complete_params) same_map
        | inr (inr (y, stopped)) ↦ rw (stopped, complete_params) same_map
      ]

  params-Untouched : (b : List ℕ) → Untouched d (handle_params j b d).1 i e
  unfolding handle_params set_object
  params-Untouched b = elim (Option-cases (find j d.request_map)) [
    | inl f ↦ rw (f, handle_params) same_map
    | inr (x, f) ↦ elim (Bool-cases (has_flag x.request_state params_completed)) [
      | inl ended ↦ rw (f, ended, handle_params) same_map
      | inr more ↦ elim (Bool-cases (length b == 0)) [
        | inl last ↦ rw (f, more, last, handle_params) (complete_params-Untouched x f)
        | inr chunk ↦
            rw (f, more, chunk, handle_params)
              (record { held = here; object = object-update x _ f })
      ]
    ]
  ]

  pub perform-Untouched : (op : Op) → id_of op ≡ j → Untouched d (perform op d).1 i e
  unfolding perform
  perform-Untouched (begins k) eq = rw eq begins-Untouched
  perform-Untouched (aborts k) eq = rw eq aborts-Untouched
  perform-Untouched (stdin_chunk k b) eq = rw eq (stdin-Untouched b)
  perform-Untouched (params_chunk k b) eq = rw eq (params-Untouched b)
  perform-Untouched (cleans_up k) eq = rw eq cleans_up-Untouched
