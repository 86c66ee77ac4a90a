-- ===== src/Tests/Turns.antt =====
-- A reply that waits in the strand behind a task for a request that is gone.
use santiago_old.Prelude.{◌≡◌, ◌∙◌, ap, refl, List, [], ◌∷◌, arith}
use santiago_old.Exec.{ok}
use santiago_old.OrderedMap.{nat_key, find, assign, place, replace}
use santiago_old.Pairs.{parse_pairs, parse_loop}
use santiago_old.Strand.{Task, commit_reply_task}
use santiago_old.PacketSocket.{new_packet_socket}
use santiago_old.RequestData.{new_request_data, parse_fcgi_params}
use santiago_old.ConnectionData
use santiago_old.ConnectionData.{new_connection_data, has_flag, is_valid_request}
use santiago_old.ConnectionData.Changes.{perform}
use santiago_old.ConnectionData.Addresses.{run, IsAddressed, run-IsAddressed, new-IsAddressed}
use santiago_old.Connection.{
  Connection, Event, run_task, step, run_oldest, commit_reply_impl, new_connection,
  with_packet_socket,
}
use santiago_old.Connection.Commit.{commit-IsAnswered}
use santiago_old.Connection.Replies.{IsGone}
use santiago_old.Connection.Turns.{run_events, turns, run_events-step, reply_runs}
use santiago_old.Tests.{memory}
use santiago_old.Tests.Replies.{ready, complete, complete_held, complete_ended, nothing_written}

abbrev with_tasks : List Task → Connection
with_tasks ts = with_packet_socket ready (record ready.packet_socket { connection_strand = ts })

abbrev waiting : Connection
waiting = with_tasks (commit_reply_task 9 5 ∷ commit_reply_task 7 0 ∷ [])

abbrev two_turns : List Event
two_turns = run_task ∷ run_task ∷ []

first_turn : step run_task waiting ≡ (ok tt, with_tasks (commit_reply_task 7 0 ∷ []))
unfolding step run_oldest commit_reply_impl is_valid_request run perform new_connection_data
    ConnectionData.handle_begin_request ConnectionData.handle_params ConnectionData.handle_stdin
    ConnectionData.complete_params ConnectionData.set_flag ConnectionData.set_object has_flag
    parse_fcgi_params parse_pairs parse_loop new_request_data find assign place replace
first_turn = refl

second_turn : (step run_task (with_tasks (commit_reply_task 7 0 ∷ []))).0 ≡ ok tt
unfolding step run_oldest new_connection new_packet_socket
second_turn =
    (commit-IsAnswered 7 complete (with_tasks []) complete_held complete_ended refl (λ k. refl)
      (rw nothing_written.0 (omega arith)) (rw nothing_written.1 (omega arith))).returns

both_return : (run_events two_turns waiting).0 ≡ ok tt
both_return =
    let t = with_tasks (commit_reply_task 7 0 ∷ []) in
    ap (λ r. r.0)
      (run_events-step run_task (run_task ∷ []) waiting t first_turn
        ∙ run_events-step run_task [] t (step run_task t).1 (cc second_turn))
    ∙ (unfold run_events in refl)

waiting-IsAddressed : IsAddressed waiting.connection_data
waiting-IsAddressed = run-IsAddressed _ (new_connection_data memory) (new-IsAddressed memory)

reply_runs_example : IsGone 7 0 (run_events two_turns waiting).1
unfolding turns
reply_runs_example =
    reply_runs two_turns (commit_reply_task 9 5 ∷ []) [] 7 complete waiting waiting-IsAddressed
      complete_held refl both_return (omega arith)
