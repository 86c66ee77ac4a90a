-- ===== src/Tests/Runs.antt =====
-- Whole reads on a connection.
use santiago_old.Prelude.{ℕ, ◌≡◌, refl, true, false, List, [], ◌∷◌, ◌++◌}
use santiago_old.Exec.{halted, assertion_failed}
use santiago_old.OrderedMap.{nat_key, find, assign, place, replace, erase}
use santiago_old.Text.{text_key}
use santiago_old.Protocol
use santiago_old.Protocol.{header_bytes}
use santiago_old.Pairs.{parse_pairs, parse_loop}
use santiago_old.PacketSocket
use santiago_old.PacketSocket.{
  ProtocolSocket, new_packet_socket, write_packet, write_loop, write_round, asio_write,
  buffer_sequence, packet_header,
}
use santiago_old.PacketSocket.Read.{
  read_header, consume, handle_packet, after_try, read_round, read_loop, after_read, handle_read,
}
use santiago_old.RequestData.{new_request_data, parse_fcgi_params}
use santiago_old.ConnectionData
use santiago_old.ConnectionData.{new_connection_data}
use santiago_old.RecordSocket
use santiago_old.Connection.{
  new_request_call, host, new_connection, close_and_cleanup, handle_transceiver_event,
  handle_request_ready, on_notice, on_data,
}
use santiago_old.Tests.{quiet_socket, memory, begin_bytes, end_bytes}

-- A request that is begun, and whose streams are ended at once, is handed over.
handed_over :
    (handle_read host false (begin_bytes ++ end_bytes) (new_connection quiet_socket memory)).1.calls
    ≡ new_request_call 7 0 ∷ []
unfolding handle_read after_read read_loop read_round read_header after_try handle_packet consume
    new_connection new_packet_socket RecordSocket.handle_new_packet RecordSocket.on_begin_request
    RecordSocket.begin_request_body RecordSocket.on_begin_body on_data on_notice
    handle_request_ready ConnectionData.handle_begin_request ConnectionData.handle_params
    ConnectionData.handle_stdin ConnectionData.complete_params ConnectionData.set_flag
    ConnectionData.set_object ConnectionData.has_flag ConnectionData.check_for_request_ready
    new_connection_data parse_fcgi_params parse_pairs parse_loop new_request_data find assign place
    replace
handed_over = refl

-- A socket on which every write fails.
abbrev broken_socket : ProtocolSocket
broken_socket = record quiet_socket { write_fails = λ k. true }

-- FCGI_ABORT_REQUEST for the request 7, and FCGI_GET_VALUES without names.
abbrev abort_and_query : List ℕ
abort_and_query = 1 ∷ 2 ∷ 0 ∷ 7 ∷ 0 ∷ 0 ∷ 0 ∷ 0 ∷ 1 ∷ 9 ∷ 0 ∷ 0 ∷ 0 ∷ 0 ∷ 0 ∷ 0 ∷ []

-- The answer to the abort fails, which closes the connection; the query is answered all the same,
-- and stops at the assertion of writePacket.
answered_after_close :
    (handle_read host false
      (begin_bytes ++ abort_and_query)
      (new_connection broken_socket memory)).0
    ≡ halted assertion_failed
unfolding handle_read after_read read_loop read_round read_header after_try handle_packet consume
    new_connection new_packet_socket RecordSocket.handle_new_packet RecordSocket.on_begin_request
    RecordSocket.begin_request_body RecordSocket.on_begin_body RecordSocket.on_abort_request
    RecordSocket.on_get_values RecordSocket.write_or_report RecordSocket.write_values on_data
    on_notice handle_transceiver_event close_and_cleanup ConnectionData.handle_begin_request
    ConnectionData.handle_abort_request ConnectionData.clear PacketSocket.close write_packet
    write_loop write_round asio_write buffer_sequence packet_header header_bytes
    Protocol.end_request_body new_connection_data parse_pairs parse_loop find assign place erase
answered_after_close = refl
