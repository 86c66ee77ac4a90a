-- ===== src/Tests/Applications.antt =====
-- A server with its acceptor: a request arrives, gets a handler and is committed.
use santiago_old.Prelude.{ℕ, ◌≡◌, refl, true, false, Option, some, arith}
use santiago_old.Exec.{ok}
use santiago_old.OrderedMap.{nat_key, find, assign, place, replace}
use santiago_old.Pairs.{ParamsMap, parse_pairs, parse_loop}
use santiago_old.PacketSocket.{new_packet_socket, start_async_packet_read}
use santiago_old.PacketSocket.Read.{
  read_header, consume, handle_packet, after_try, read_round, read_loop, after_read, handle_read,
}
use santiago_old.RequestData.{new_request_data, parse_fcgi_params}
use santiago_old.ConnectionData
use santiago_old.ConnectionData.{new_connection_data}
use santiago_old.ConnectionData.Changes.{is_complete}
use santiago_old.ConnectionData.Addresses.{Holds}
use santiago_old.RecordSocket
use santiago_old.Connection.{
  Connection, step, new_connection, start, on_data, on_notice, handle_request_ready, commit_reply,
}
use santiago_old.Request
use santiago_old.Request.{Request, RequestId, new_request, lock_both, lock_data, is_alive, in_map}
use santiago_old.RequestHandler
use santiago_old.RequestHandler.{RequestHandler, new_request_handler}
use santiago_old.Acceptor.{
  acceptor_step, handle_accept, accept_connection, new_acceptor, run_connection, deliver,
  run_oldest_task,
}
use santiago_old.Acceptor
use santiago_old.Server
use santiago_old.Server.{id_key}
use santiago_old.Server.Handlers.{count}
use santiago_old.Application.{
  Application, new_application, ApplicationReach, at_start, and_then, accept_finished,
  connection_happens, task_runs, request_used, commits, application_step, CanHappen, LivesOn,
  on_acceptor, run_task, new_request_callback, is_routed, new_server_request, with_connections,
  use_request, forward, commit,
}
use santiago_old.Application.Tended.{IsTended}
use santiago_old.Application.NothingLost.{no_request_lost}
use santiago_old.Tests.{quiet_socket, memory}
use santiago_old.Tests.Connections.{begun}
use santiago_old.Tests.Deliveries.{
  loaded, whole_request, whole_request_reads, complete_entry, loaded-Holds,
}

abbrev no_handlers : ℕ → RequestHandler
no_handlers h = new_request_handler

abbrev no_requests : RequestId → Request
no_requests k = new_request 0 0 0

abbrev to_third : ParamsMap → Option ℕ
to_third params = some 3

abbrev fresh : Application
fresh = new_application no_handlers no_requests

abbrev connected : Application
connected = (application_step (accept_finished false quiet_socket memory) fresh).1

abbrev arrived : Application
arrived = (application_step (connection_happens 0 whole_request) connected).1

abbrev handled : Application
handled = (application_step (task_runs to_third) arrived).1

abbrev committed : Application
committed = (application_step (request_used commits (0, 7)) handled).1

abbrev replying : Connection
replying = commit_reply 7 0 loaded

accept_lives :
    LivesOn
      (accept_finished false quiet_socket memory)
      (application_step (accept_finished false quiet_socket memory) fresh).0
unfolding application_step on_acceptor acceptor_step handle_accept new_application new_acceptor find
accept_lives = refl

begun_in : find 0 connected.acceptor.active_connections ≡ some begun
unfolding application_step on_acceptor acceptor_step handle_accept accept_connection new_application
    new_acceptor find assign place
begun_in = refl

read_lives : (application_step (connection_happens 0 whole_request) connected).0 ≡ ok tt
unfolding application_step on_acceptor acceptor_step new_application handle_accept accept_connection
    new_acceptor run_connection deliver Acceptor.handle_new_request step handle_read after_read
    read_loop read_round read_header after_try handle_packet consume start RecordSocket.start
    start_async_packet_read new_connection new_packet_socket RecordSocket.handle_new_packet
    RecordSocket.on_begin_request RecordSocket.begin_request_body RecordSocket.on_begin_body on_data
    on_notice handle_request_ready ConnectionData.handle_begin_request ConnectionData.handle_params
    ConnectionData.handle_stdin ConnectionData.complete_params ConnectionData.set_flag
    ConnectionData.set_object ConnectionData.has_flag ConnectionData.check_for_request_ready
    new_connection_data parse_fcgi_params parse_pairs parse_loop new_request_data find assign place
    replace
read_lives = refl

task_lives : (application_step (task_runs to_third) arrived).0 ≡ ok tt
unfolding application_step on_acceptor acceptor_step new_application handle_accept accept_connection
    new_acceptor run_connection deliver Acceptor.handle_new_request step handle_read after_read
    read_loop read_round read_header after_try handle_packet consume start RecordSocket.start
    start_async_packet_read new_connection new_packet_socket RecordSocket.handle_new_packet
    RecordSocket.on_begin_request RecordSocket.begin_request_body RecordSocket.on_begin_body on_data
    on_notice handle_request_ready ConnectionData.handle_begin_request ConnectionData.handle_params
    ConnectionData.handle_stdin ConnectionData.complete_params ConnectionData.set_flag
    ConnectionData.set_object ConnectionData.has_flag ConnectionData.check_for_request_ready
    new_connection_data parse_fcgi_params parse_pairs parse_loop new_request_data find assign place
    replace run_task new_request_callback run_oldest_task new_request Server.handle_new_request
    Server.store_handler Server.post_handle_request Server.new_server RequestHandler.get_strand
    RequestHandler.check_is_initialized RequestHandler.dereference RequestHandler.init
    RequestHandler.post Request.get_fcgi_params Request.get_connection_and_request_data lock_both
    lock_data is_alive in_map Request.get_id Server.hosted
task_lives = refl

request_alive : CanHappen (request_used commits (0, 7)) handled
unfolding application_step on_acceptor acceptor_step new_application handle_accept accept_connection
    new_acceptor run_connection deliver Acceptor.handle_new_request step handle_read after_read
    read_loop read_round read_header after_try handle_packet consume start RecordSocket.start
    start_async_packet_read new_connection new_packet_socket RecordSocket.handle_new_packet
    RecordSocket.on_begin_request RecordSocket.begin_request_body RecordSocket.on_begin_body on_data
    on_notice handle_request_ready ConnectionData.handle_begin_request ConnectionData.handle_params
    ConnectionData.handle_stdin ConnectionData.complete_params ConnectionData.set_flag
    ConnectionData.set_object ConnectionData.has_flag ConnectionData.check_for_request_ready
    new_connection_data parse_fcgi_params parse_pairs parse_loop new_request_data find assign place
    replace run_task new_request_callback run_oldest_task new_request Server.handle_new_request
    Server.store_handler Server.post_handle_request Server.new_server RequestHandler.get_strand
    RequestHandler.check_is_initialized RequestHandler.dereference RequestHandler.init
    RequestHandler.post Request.get_fcgi_params Request.get_connection_and_request_data lock_both
    lock_data is_alive in_map Request.get_id Server.hosted count Server.id_same is_routed
    new_server_request
request_alive = omega arith

replying_in : find 0 committed.acceptor.active_connections ≡ some replying
unfolding application_step on_acceptor acceptor_step new_application handle_accept accept_connection
    new_acceptor run_connection deliver Acceptor.handle_new_request step handle_read after_read
    read_loop read_round read_header after_try handle_packet consume start RecordSocket.start
    start_async_packet_read new_connection new_packet_socket RecordSocket.handle_new_packet
    RecordSocket.on_begin_request RecordSocket.begin_request_body RecordSocket.on_begin_body on_data
    on_notice handle_request_ready ConnectionData.handle_begin_request ConnectionData.handle_params
    ConnectionData.handle_stdin ConnectionData.complete_params ConnectionData.set_flag
    ConnectionData.set_object ConnectionData.has_flag ConnectionData.check_for_request_ready
    new_connection_data parse_fcgi_params parse_pairs parse_loop new_request_data find assign place
    replace run_task new_request_callback run_oldest_task new_request Server.handle_new_request
    Server.store_handler Server.post_handle_request Server.new_server RequestHandler.get_strand
    RequestHandler.check_is_initialized RequestHandler.dereference RequestHandler.init
    RequestHandler.post Request.get_fcgi_params Request.get_connection_and_request_data lock_both
    lock_data is_alive in_map Request.get_id Server.hosted use_request commit forward Request.commit
    Request.mark_replied Request.put_connection commit_reply new_server_request with_connections
    is_routed Server.id_same
replying_in = refl

replying-Holds : Holds replying.connection_data 7 complete_entry
unfolding commit_reply
replying-Holds = loaded-Holds

complete : is_complete complete_entry ≡ true
unfolding is_complete ConnectionData.has_flag
complete = refl

abbrev history : ApplicationReach fresh committed
history =
    and_then
      (and_then
        (and_then
          (and_then at_start (accept_finished false quiet_socket memory) bound accept_lives refl)
          (connection_happens 0 whole_request) (begun, begun_in, whole_request_reads) read_lives
          refl)
        (task_runs to_third) tt task_lives refl)
      (request_used commits (0, 7)) request_alive tt refl
  where
    bound : CanHappen (accept_finished false quiet_socket memory) fresh
    bound = unfold new_application new_acceptor in omega arith

no_request_lost_example : IsTended committed 0 7 0 replying
no_request_lost_example =
    no_request_lost no_handlers no_requests committed 0 7 replying complete_entry history
      replying_in replying-Holds complete
