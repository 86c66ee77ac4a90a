-- ===== src/ConnectionData/Ends.antt =====
-- Fastcgi/ConnectionData.h: the operations end.
use santiago_old.Prelude.{ℕ, inl, inr, Option-cases, List, length, ◌==◌, ◌&&◌}
use santiago_old.Exec.Ends.{Terminates, ok-Ends, thrown-Ends, assertion_failed-Ends, if-Ends}
use santiago_old.OrderedMap.{nat_key, find}
use santiago_old.Pairs.Bounds.{parse_pairs-total}
use santiago_old.RequestData.{parse_fcgi_params}
use santiago_old.ConnectionData.{
  Entry, has_flag, in_completed, params_completed, handle_begin_request, handle_abort_request,
  handle_stdin, complete_params, handle_params, cleanup_request,
}

pub handle_begin_request-Terminates : (i : ℕ) → Terminates (handle_begin_request i)
unfolding handle_begin_request
handle_begin_request-Terminates i = record {
  at = λ d. elim (Option-cases (find i d.request_map)) [
    | inl e ↦ rw (e, handle_begin_request) (ok-Ends _)
    | inr (x, e) ↦ rw (e, handle_begin_request) (thrown-Ends _)
  ];
}

pub handle_abort_request-Terminates : (i : ℕ) → Terminates (handle_abort_request i)
unfolding handle_abort_request
handle_abort_request-Terminates i = record {
  at = λ d. elim (Option-cases (find i d.request_map)) [
    | inl e ↦ rw (e, handle_abort_request) (thrown-Ends _)
    | inr (x, e) ↦ rw (e, handle_abort_request) (ok-Ends _)
  ];
}

pub handle_stdin-Terminates : (i : ℕ) (b : List ℕ) → Terminates (handle_stdin i b)
unfolding handle_stdin
handle_stdin-Terminates i b = record {
  at = λ d. elim (Option-cases (find i d.request_map)) [
    | inl e ↦ rw (e, handle_stdin) (thrown-Ends _)
    | inr (x, e) ↦
        rw (e, handle_stdin)
          (if-Ends (has_flag x.request_state in_completed) _ _ (thrown-Ends _)
            (if-Ends (length b == 0) _ _ (ok-Ends _) (ok-Ends _)))
  ];
}

complete_params-Terminates : (i : ℕ) (e : Entry) → Terminates (complete_params i e)
unfolding complete_params parse_fcgi_params
complete_params-Terminates i e = record {
  at = λ d.
      let r = d.objects e.request_data in
      let (params, run) = parse_pairs-total r.params_buffer r.params_map in
      rw (run, parse_fcgi_params, complete_params) (ok-Ends _);
}

pub handle_params-Terminates : (i : ℕ) (b : List ℕ) → Terminates (handle_params i b)
unfolding handle_params
handle_params-Terminates i b = record {
  at = λ d. elim (Option-cases (find i d.request_map)) [
    | inl e ↦ rw (e, handle_params) (thrown-Ends _)
    | inr (x, e) ↦
        rw (e, handle_params)
          (if-Ends (has_flag x.request_state params_completed) _ _ (thrown-Ends _)
            (if-Ends (length b == 0) _ _ ((complete_params-Terminates i x).at d) (ok-Ends _)))
  ];
}

pub cleanup_request-Terminates : (i : ℕ) → Terminates (cleanup_request i)
unfolding cleanup_request
cleanup_request-Terminates i = record {
  at = λ d. elim (Option-cases (find i d.request_map)) [
    | inl e ↦ rw (e, cleanup_request) (thrown-Ends _)
    | inr (x, e) ↦
        rw (e, cleanup_request)
          (if-Ends (has_flag x.request_state in_completed && has_flag x.request_state in_completed)
            _ _ (ok-Ends _) assertion_failed-Ends)
  ];
}
