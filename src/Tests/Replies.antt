-- ===== src/Tests/Replies.antt =====
-- A reply to a request that is complete.
use santiago_old.Prelude.{ℕ, ◌≡◌, false, List, refl, true, false, [], ◌∷◌, ◌++◌, arith}
use santiago_old.Text.{bytes}
use santiago_old.PacketSocket.Frames.{written_packet}
use santiago_old.RecordSocket.{handle_new_packet}
use santiago_old.Connection.Values.{Answers, get_values-Answers}
use santiago_old.Connection.Abort.{abort_body, abort-IsAnswered}
use santiago_old.OrderedMap.{nat_key, find, assign, place, replace}
use santiago_old.Pairs.{parse_pairs, parse_loop}
use santiago_old.PacketSocket.{opened, new_packet_socket}
use santiago_old.PacketSocket.Frames.{packets_bytes}
use santiago_old.RequestData.{new_request_data, parse_fcgi_params}
use santiago_old.ConnectionData
use santiago_old.ConnectionData.{ConnectionData, Entry, new_connection_data, has_flag, in_completed}
use santiago_old.ConnectionData.Changes.{
  begins, stdin_chunk, params_chunk, aborts, cleans_up, perform,
}
use santiago_old.ConnectionData.Untouched.{Untouched}
use santiago_old.ConnectionData.Apart.{requests_apart}
use santiago_old.ConnectionData.Addresses.{Holds, run}
use santiago_old.RecordSocket.Answers.{reply_packets}
use santiago_old.Connection.{callbacks, Connection, new_connection, commit_reply_impl}
use santiago_old.Connection.Commit.{IsAnswered, commit-IsAnswered}
use santiago_old.Tests.{quiet_socket, memory}

abbrev pub complete_data : ConnectionData
complete_data =
    run (begins 7 ∷ params_chunk 7 [] ∷ stdin_chunk 7 [] ∷ []) (new_connection_data memory)

abbrev pub complete : Entry
complete = record { request_state = 3; request_data = 0 }

abbrev pub ready : Connection
ready = record (new_connection quiet_socket memory) { connection_data = complete_data }

pub complete_held : Holds ready.connection_data 7 complete
unfolding run perform new_connection_data ConnectionData.handle_begin_request
    ConnectionData.handle_params ConnectionData.handle_stdin ConnectionData.complete_params
    ConnectionData.set_flag ConnectionData.set_object has_flag parse_fcgi_params parse_pairs
    parse_loop new_request_data find assign place replace
complete_held = refl

pub complete_ended : has_flag complete.request_state in_completed ≡ true
unfolding has_flag
complete_ended = refl

ready_opened : ready.packet_socket.state ≡ opened
unfolding new_connection new_packet_socket
ready_opened = refl

ready_reliable : (k : ℕ) → ready.packet_socket.protocol_socket.write_fails k ≡ false
unfolding new_connection new_packet_socket
ready_reliable k = refl

pub nothing_written :
    ((ready.connection_data.objects 0).out_buffer ≡ [])
    × ((ready.connection_data.objects 0).err_buffer ≡ [])
unfolding run perform new_connection_data ConnectionData.handle_begin_request
    ConnectionData.handle_params ConnectionData.handle_stdin ConnectionData.complete_params
    ConnectionData.set_flag ConnectionData.set_object has_flag parse_fcgi_params parse_pairs
    parse_loop new_request_data find assign place replace
nothing_written = (refl, refl)

commit-IsAnswered_example :
    IsAnswered 7
      (ready.packet_socket.protocol_socket.sent
        ++ packets_bytes (reply_packets 7 (ready.connection_data.objects 0)))
      (commit_reply_impl 7 0 ready)
commit-IsAnswered_example =
    commit-IsAnswered 7 complete ready complete_held complete_ended ready_opened ready_reliable
      (rw nothing_written.0 (omega arith)) (rw nothing_written.1 (omega arith))

requests_apart_example :
    Untouched complete_data
      (run (begins 8 ∷ params_chunk 8 (1 ∷ []) ∷ aborts 9 ∷ cleans_up 8 ∷ []) complete_data)
      7
      complete
requests_apart_example =
    requests_apart (begins 7 ∷ params_chunk 7 [] ∷ stdin_chunk 7 [] ∷ [])
      (begins 8 ∷ params_chunk 8 (1 ∷ []) ∷ aborts 9 ∷ cleans_up 8 ∷ []) memory 7 complete
      complete_held (omega arith, (omega arith, (omega arith, (omega arith, tt))))

abort-IsAnswered_example :
    IsAnswered 7
      (ready.packet_socket.protocol_socket.sent
        ++ packets_bytes (written_packet 7 0 abort_body ∷ []))
      (handle_new_packet callbacks false 7 2 [] ready)
abort-IsAnswered_example =
    abort-IsAnswered 7 complete [] ready complete_held ready_opened ready_reliable

-- FCGI_MAX_REQS and another name, each without a value.
abbrev asking : List ℕ
asking = 13 ∷ 0 ∷ (bytes "FCGI_MAX_REQS" ++ (5 ∷ 0 ∷ bytes "OTHER"))

get_values-Answers_example :
    Answers asking ready (handle_new_packet callbacks false 0 9 asking ready)
get_values-Answers_example =
    get_values-Answers 0 asking ready (omega arith) ready_opened ready_reliable
