-- ===== src/Tests/Connections.antt =====
-- Connections.
use santiago_old.Prelude.{true, ◌+◌, ◌≤◌, ◌≡◌, refl, inl, inr, false, none, List, [], ◌∷◌, arith}
use santiago_old.Exec.{ok}
use santiago_old.Exec.Ends.{Ends}
use santiago_old.OrderedMap.{nat_key, find, assign, place, replace, erase}
use santiago_old.PacketSocket
use santiago_old.PacketSocket.{opened, new_packet_socket, start_async_packet_read}
use santiago_old.Pairs.{parse_pairs, parse_loop}
use santiago_old.RequestData.{new_request_data, parse_fcgi_params}
use santiago_old.ConnectionData
use santiago_old.ConnectionData.{ConnectionData, Entry, new_connection_data}
use santiago_old.ConnectionData.Changes.{Op, begins, aborts, stdin_chunk, params_chunk, perform}
use santiago_old.ConnectionData.Addresses.{Holds, run}
use santiago_old.ConnectionData.Delivery.{Delivers, request-Delivers}
use santiago_old.ConnectionData.Phases.{
  InPhase, present, phase_after, judged, verdict, perform-Refines,
}
use santiago_old.ConnectionData.Readiness.{ready_count, ready_at_most_once}
use santiago_old.RecordSocket
use santiago_old.RecordSocket.{on_abort_request}
use santiago_old.Connection.{
  Connection, callbacks, close_and_cleanup, on_data, with_packet_socket, new_connection, start,
  step, read_done, reply_posted, commit_reply_impl,
}
use santiago_old.Connection.Invariant.{Inv}
use santiago_old.Connection.Life.{Reach, here, next, IsEnabled, started, reach-Inv}
use santiago_old.Connection.Ends.{step-Ends}
use santiago_old.Connection.Silence.{IsSilent, reach-IsSilent}
use santiago_old.Connection.HandOver.{handed_over, handed_over_once}
use santiago_old.Connection.Reads.{pending, reads_run, one_read_only}
use santiago_old.Connection.Stale.{stale_reply}
use santiago_old.Tests.{quiet_socket, memory, begin_bytes}

abbrev pub begun : Connection
begun = started quiet_socket memory

begun_reads : IsEnabled (read_done false begin_bytes) begun
unfolding start RecordSocket.start new_connection new_packet_socket start_async_packet_read
begun_reads = omega arith

abbrev one_read : Reach begun (step (read_done false begin_bytes) begun).1
one_read = next here (read_done false begin_bytes) begun_reads refl

reach-Inv_example : Inv (step (read_done false begin_bytes) begun).1
reach-Inv_example =
    reach-Inv quiet_socket memory (step (read_done false begin_bytes) begun).1 one_read

step-Ends_example : Ends (step (read_done false begin_bytes) begun).0
step-Ends_example = step-Ends (read_done false begin_bytes) begun

abbrev ended : Connection
ended = (close_and_cleanup begun).1

ended_closed : PacketSocket.is_closed ended.packet_socket.state ≡ true
unfolding close_and_cleanup PacketSocket.close start RecordSocket.start new_connection
    new_packet_socket start_async_packet_read
ended_closed = refl

ended_reads : IsEnabled (read_done false begin_bytes) (step (reply_posted 7 0) ended).1
unfolding step santiago_old.Connection.commit_reply close_and_cleanup PacketSocket.close start
    RecordSocket.start new_connection new_packet_socket start_async_packet_read
ended_reads = omega arith

reach-IsSilent_example :
    IsSilent ended.packet_socket.protocol_socket.sent
      (step (read_done false begin_bytes) (step (reply_posted 7 0) ended).1).1
reach-IsSilent_example =
    reach-IsSilent ended (step (read_done false begin_bytes) (step (reply_posted 7 0) ended).1).1
      (next (next here (reply_posted 7 0) tt refl) (read_done false begin_bytes) ended_reads refl)
      ended_closed

handed_over_once_example : handed_over 0 (step (read_done false begin_bytes) begun).1.calls ≤ 1
handed_over_once_example =
    handed_over_once 0 quiet_socket memory (step (read_done false begin_bytes) begun).1 one_read

one_read_only_example :
    reads_run one_read + pending (step (read_done false begin_bytes) begun).1 ≡ 1
one_read_only_example =
    one_read_only quiet_socket memory (step (read_done false begin_bytes) begun).1 one_read refl

-- The request 7 is begun, aborted, and begun again with another object.
abbrev aborted : ConnectionData
aborted = (perform (aborts 7) (run (begins 7 ∷ []) (new_connection_data memory))).1

abbrev seventh : Entry
seventh = record { request_state = 0; request_data = 0 }

seventh_held : Holds (run (begins 7 ∷ []) (new_connection_data memory)) 7 seventh
unfolding run perform new_connection_data ConnectionData.handle_begin_request find assign place
seventh_held = refl

seventh_gone : find 7 aborted.request_map ≡ none
unfolding run perform new_connection_data ConnectionData.handle_begin_request
    ConnectionData.handle_abort_request find assign place erase
seventh_gone = refl

abbrev reused : Connection
reused = record (new_connection quiet_socket memory) {
  connection_data = run (begins 7 ∷ []) aborted;
}

stale_reply_example : commit_reply_impl 7 0 reused ≡ (ok tt, reused)
stale_reply_example =
    stale_reply memory (begins 7 ∷ []) (begins 7 ∷ []) (aborts 7) 7 7 seventh reused seventh_held
      seventh_gone refl

-- A request that is complete, and is then sent more than it may.
abbrev busy : List Op
busy =
    begins 7
    ∷ params_chunk 7 []
    ∷ stdin_chunk 7 []
    ∷ stdin_chunk 7 (104 ∷ [])
    ∷ params_chunk 7 []
    ∷ []

ready_at_most_once_example : ready_count 0 busy (new_connection_data memory) ≤ 1
ready_at_most_once_example = ready_at_most_once 0 busy memory

-- The params of the request 7 are at their end.
abbrev half_done : ConnectionData
half_done = run (begins 7 ∷ params_chunk 7 [] ∷ []) (new_connection_data memory)

half_done_phase : InPhase half_done 7 (present true false)
unfolding run perform new_connection_data ConnectionData.handle_begin_request
    ConnectionData.handle_params ConnectionData.complete_params ConnectionData.set_flag
    ConnectionData.set_object ConnectionData.has_flag parse_fcgi_params parse_pairs parse_loop
    new_request_data find assign place replace
half_done_phase = (0, refl)

perform-Refines_example :
    InPhase
      (perform (stdin_chunk 7 []) half_done).1
      7
      (phase_after (stdin_chunk 7 []) (present true false))
    × (verdict (perform (stdin_chunk 7 []) half_done).0
        ≡ judged (stdin_chunk 7 []) (present true false))
perform-Refines_example =
    perform-Refines (stdin_chunk 7 []) half_done (present true false) half_done_phase

-- Chunks of the request 7, with an operation on the request 8 between them.
abbrev chunks : List Op
chunks =
    params_chunk 7 (1 ∷ 1 ∷ 65 ∷ [])
    ∷ stdin_chunk 7 (104 ∷ [])
    ∷ begins 8
    ∷ params_chunk 7 (66 ∷ [])
    ∷ stdin_chunk 7 (105 ∷ [])
    ∷ []

nothing_begun : find 7 (run [] (new_connection_data memory)).request_map ≡ none
unfolding run new_connection_data find
nothing_begun = refl

request-Delivers_example : Delivers 7 chunks (run [] (new_connection_data memory))
request-Delivers_example = request-Delivers [] chunks memory 7 nothing_begun (
  inr (omega arith),
  (inr (omega arith), (inl (λ e. omega (arith, e)), (inr (omega arith), (inr (omega arith), tt)))),
)
