-- ===== src/Tests/Deliveries.antt =====
-- A request from the bytes of a read to the acceptor, and a connection that is closed.
use santiago_old.Prelude.{
  ◌≤◌, ◌≡◌, refl, true, false, some, none, [], ◌++◌, arith, length, if◌then◌else◌,
}
use santiago_old.Exec.{ok}
use santiago_old.OrderedMap.{nat_key, find, assign, place, replace}
use santiago_old.Pairs.{parse_pairs, parse_loop}
use santiago_old.PacketSocket
use santiago_old.PacketSocket.{new_packet_socket, start_async_packet_read}
use santiago_old.PacketSocket.Read.{
  read_header, consume, handle_packet, after_try, read_round, read_loop, after_read, handle_read,
}
use santiago_old.RequestData.{new_request_data, parse_fcgi_params}
use santiago_old.ConnectionData
use santiago_old.ConnectionData.{Entry, new_connection_data}
use santiago_old.ConnectionData.Changes.{is_complete}
use santiago_old.ConnectionData.Addresses.{Holds}
use santiago_old.RecordSocket
use santiago_old.Connection
use santiago_old.Connection.{
  Connection, Event, read_done, step, new_connection, start, on_data, on_notice,
  handle_request_ready, close_and_cleanup, handle_transceiver_event,
}
use santiago_old.Connection.HandOver.{handed_over}
use santiago_old.Connection.Tally.{handed_over_when_complete}
use santiago_old.Connection.Life.{here, next, IsEnabled}
use santiago_old.Acceptor.{
  Acceptor, AcceptorEvent, connection_event, acceptor_step, handle_accept, accept_connection,
  new_acceptor, run_connection, deliver, handle_connection_close, handle_new_request,
}
use santiago_old.Acceptor.Delivery.{made}
use santiago_old.Acceptor.Histories.{AcceptorReach, and_then, IsPossible}
use santiago_old.Acceptor.Once.{one_request_when_complete, never_twice}
use santiago_old.Acceptor.Drain.{run_tasks, closed_connection_goes}
use santiago_old.Tests.{quiet_socket, memory, begin_bytes, end_bytes}
use santiago_old.Tests.Connections.{begun}
use santiago_old.Tests.Acceptors.{with_one, one_accept, begun_found}

-- The request 7 is begun, and its streams are ended.
abbrev pub whole_request : Event
whole_request = read_done false (begin_bytes ++ end_bytes)

abbrev pub loaded : Connection
loaded = (step whole_request begun).1

pub whole_request_reads : IsEnabled whole_request begun
unfolding start RecordSocket.start new_connection new_packet_socket start_async_packet_read
whole_request_reads = omega arith

abbrev pub complete_entry : Entry
complete_entry = record { request_state = 3; request_data = 0 }

pub loaded-Holds : Holds loaded.connection_data 7 complete_entry
unfolding step handle_read after_read read_loop read_round read_header after_try handle_packet
    consume start RecordSocket.start start_async_packet_read new_connection new_packet_socket
    RecordSocket.handle_new_packet RecordSocket.on_begin_request RecordSocket.begin_request_body
    RecordSocket.on_begin_body on_data on_notice handle_request_ready
    ConnectionData.handle_begin_request ConnectionData.handle_params ConnectionData.handle_stdin
    ConnectionData.complete_params ConnectionData.set_flag ConnectionData.set_object
    ConnectionData.has_flag ConnectionData.check_for_request_ready new_connection_data
    parse_fcgi_params parse_pairs parse_loop new_request_data find assign place replace
loaded-Holds = refl

handed_over_when_complete_example :
    handed_over 0 loaded.calls ≡ (if is_complete complete_entry then 1 else 0)
handed_over_when_complete_example =
    handed_over_when_complete quiet_socket memory loaded 7 complete_entry
      (next here whole_request whole_request_reads refl) loaded-Holds

-- The same in an acceptor.
abbrev loading : AcceptorEvent
loading = connection_event 0 whole_request

abbrev with_request : Acceptor
with_request = (acceptor_step loading with_one).1

loading-IsPossible : IsPossible loading with_one
loading-IsPossible = (begun, begun_found, whole_request_reads)

loading_returns : (acceptor_step loading with_one).0 ≡ ok tt
unfolding acceptor_step handle_accept accept_connection new_acceptor run_connection deliver
    handle_new_request step handle_read after_read read_loop read_round read_header after_try
    handle_packet consume start RecordSocket.start start_async_packet_read new_connection
    new_packet_socket RecordSocket.handle_new_packet RecordSocket.on_begin_request
    RecordSocket.begin_request_body RecordSocket.on_begin_body on_data on_notice
    handle_request_ready ConnectionData.handle_begin_request ConnectionData.handle_params
    ConnectionData.handle_stdin ConnectionData.complete_params ConnectionData.set_flag
    ConnectionData.set_object ConnectionData.has_flag ConnectionData.check_for_request_ready
    new_connection_data parse_fcgi_params parse_pairs parse_loop new_request_data find assign place
    replace
loading_returns = refl

loaded_found : find 0 with_request.active_connections ≡ some loaded
unfolding acceptor_step handle_accept accept_connection new_acceptor run_connection deliver
    handle_new_request step handle_read after_read read_loop read_round read_header after_try
    handle_packet consume start RecordSocket.start start_async_packet_read new_connection
    new_packet_socket RecordSocket.handle_new_packet RecordSocket.on_begin_request
    RecordSocket.begin_request_body RecordSocket.on_begin_body on_data on_notice
    handle_request_ready ConnectionData.handle_begin_request ConnectionData.handle_params
    ConnectionData.handle_stdin ConnectionData.complete_params ConnectionData.set_flag
    ConnectionData.set_object ConnectionData.has_flag ConnectionData.check_for_request_ready
    new_connection_data parse_fcgi_params parse_pairs parse_loop new_request_data find assign place
    replace
loaded_found = refl

abbrev one_load : AcceptorReach new_acceptor with_request
one_load = and_then one_accept loading loading-IsPossible loading_returns refl

one_request_when_complete_example :
    made 0 0 with_request ≡ (if is_complete complete_entry then 1 else 0)
one_request_when_complete_example =
    one_request_when_complete with_request 0 7 loaded complete_entry one_load loaded_found
      loaded-Holds

never_twice_example : made 0 0 with_request ≤ 1
never_twice_example = never_twice with_request 0 0 one_load

-- The read of the only connection reports an error.
abbrev failing : AcceptorEvent
failing = connection_event 0 (read_done true [])

abbrev with_closed : Acceptor
with_closed = (acceptor_step failing with_one).1

abbrev closed_one : Connection
closed_one = (step (read_done true []) begun).1

failing-IsPossible : IsPossible failing with_one
failing-IsPossible = (
  begun,
  begun_found,
  unfold start RecordSocket.start new_connection new_packet_socket start_async_packet_read in
      omega arith,
)

failing_returns : (acceptor_step failing with_one).0 ≡ ok tt
unfolding acceptor_step handle_accept accept_connection new_acceptor run_connection deliver
    handle_connection_close step handle_read after_read start RecordSocket.start
    start_async_packet_read new_connection new_packet_socket RecordSocket.handle_new_packet
    RecordSocket.close handle_transceiver_event close_and_cleanup PacketSocket.close find assign
    place replace
failing_returns = refl

closed_found : find 0 with_closed.active_connections ≡ some closed_one
unfolding acceptor_step handle_accept accept_connection new_acceptor run_connection deliver
    handle_connection_close step handle_read after_read start RecordSocket.start
    start_async_packet_read new_connection new_packet_socket RecordSocket.handle_new_packet
    RecordSocket.close handle_transceiver_event close_and_cleanup PacketSocket.close find assign
    place replace
closed_found = refl

closed_state : closed_one.state ≡ Connection.closed
unfolding step handle_read after_read start RecordSocket.start start_async_packet_read
    new_connection new_packet_socket RecordSocket.handle_new_packet RecordSocket.close
    handle_transceiver_event close_and_cleanup PacketSocket.close
closed_state = refl

closed_connection_goes_example :
    ((run_tasks (length with_closed.strand) with_closed).0 ≡ ok tt)
    × (find 0 (run_tasks (length with_closed.strand) with_closed).1.active_connections ≡ none)
closed_connection_goes_example =
    closed_connection_goes with_closed 0 closed_one
      (and_then one_accept failing failing-IsPossible failing_returns refl) closed_found
      closed_state
