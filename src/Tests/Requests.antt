-- ===== src/Tests/Requests.antt =====
-- Requests and servers.
use santiago_old.Prelude.{
  ℕ, ◌≤◌, ◌<◌, ◌≡◌, ◌≢◌, refl, true, false, Option, some, none, [], ◌∷◌, arith,
}
use santiago_old.RequestData.{new_request_data}
use santiago_old.Exec.{ok, thrown, halted, assertion_failed, not_active, handler_not_initialized}
use santiago_old.OrderedMap.{nat_key, find, assign, place}
use santiago_old.Pairs.{ParamsMap}
use santiago_old.ConnectionData.{ConnectionData, new_connection_data}
use santiago_old.ConnectionData.Changes.{begins, perform}
use santiago_old.ConnectionData
use santiago_old.Connection.{new_connection}
use santiago_old.Request.{
  Request, Held, new_request, is_valid, lock_both, lock_data, is_alive, in_map, commit, cancel,
  destroy_amid, after_cancel, get_connection_and_request_data, ConnectionMap,
}
use santiago_old.Request
use santiago_old.Request.Once.{Refuses, answer, answered_once}
use santiago_old.Server
use santiago_old.RequestHandler
use santiago_old.RequestHandler.{
  RequestHandler, Hosted, new_request_handler, init, handle_request_task, callback_task,
  post_in_strand, check_is_initialized,
}
use santiago_old.Server.Handling.{Hands, handle_new_request-Hands}
use santiago_old.Server.{
  post_handle_request, Server, new_server, request_arrived, run_deletion, started_by_user,
  server_step, is_started, id_key,
}
use santiago_old.Server.Handlers.{count}
use santiago_old.Server.Histories.{
  ServerReach, at_start, and_then, handler_kept, deletion_asserts, destroy_stops, stopped_for_good,
}
use santiago_old.Tests.{quiet_socket, memory}

-- The connection 0 with the request 7.
abbrev seventh : Held
seventh = record {
  request = new_request 7 0 0;
  active_connections =
      (
        0,
        record (new_connection quiet_socket memory) {
          connection_data = (perform (begins 7) (new_connection_data memory)).1;
        },
      )
      ∷ [];
}

seventh_valid : is_valid seventh ≡ true
unfolding is_valid lock_both lock_data is_alive in_map new_request find perform new_connection_data
    ConnectionData.handle_begin_request assign place
seventh_valid = refl

answered_once_example :
    ((answer true seventh).0 ≡ ok tt)
    × (is_valid (answer true seventh).1 ≡ false)
    × Refuses (answer true seventh).1
answered_once_example = answered_once true seventh seventh_valid

-- The connection is gone before the destructor cancels.
abbrev lost : ConnectionMap → ConnectionMap
lost m = []

raced : (destroy_amid lost seventh).0 ≡ halted assertion_failed
unfolding destroy_amid after_cancel cancel get_connection_and_request_data is_valid lock_both
    lock_data is_alive in_map new_request find perform new_connection_data
    ConnectionData.handle_begin_request assign place
raced = refl

abbrev no_handler : ℕ → RequestHandler
no_handler h = record { strand = none }

-- Every request goes to the handler 3.
abbrev route : ParamsMap → Option ℕ
route params = some 3

abbrev serving : Server
serving = (server_step (request_arrived route seventh) (new_server no_handler)).1

abbrev one_request : ServerReach (new_server no_handler) serving
one_request = and_then at_start (request_arrived route seventh) tt refl

seventh_lives : 0 < count (0, 7) serving.live
unfolding server_step new_server count Server.handle_new_request Server.store_handler
    Server.post_handle_request RequestHandler.init Request.get_id Server.id_same
    Request.get_fcgi_params Request.get_connection_and_request_data lock_both lock_data is_alive
    in_map new_request find perform new_connection_data ConnectionData.handle_begin_request assign
    place
seventh_lives = omega arith

handler_kept_example :
    (find (0, 7) serving.active_request_handlers ≢ none) × (count (0, 7) serving.live ≤ 1)
handler_kept_example = handler_kept no_handler serving (0, 7) one_request seventh_lives

deletion_asserts_example : (server_step run_deletion serving).0 ≡ ok tt
deletion_asserts_example = deletion_asserts no_handler serving one_request

abbrev running : Server
running = (server_step started_by_user (new_server no_handler)).1

running_started : is_started running.status ≡ true
unfolding server_step new_server Server.start Server.run_threads
running_started = refl

five_threads : running.running_threads ≡ 5
unfolding server_step new_server Server.start Server.run_threads
five_threads = refl

destroy_stops_example :
    ((Server.destroy running).0 ≡ ok tt)
    × (is_started (Server.destroy running).1.status ≡ false)
    × ((Server.destroy running).1.running_threads ≡ 0)
destroy_stops_example = destroy_stops no_handler running (and_then at_start started_by_user tt refl)

stopped_for_good_example :
    (server_step started_by_user (Server.stop running).1).1.running_threads ≡ 0
stopped_for_good_example =
    stopped_for_good no_handler running (server_step started_by_user (Server.stop running).1).1
      (and_then at_start started_by_user tt refl) running_started
      (and_then at_start started_by_user tt refl)

-- The id is used again while the handler of the first request is kept.
reused_id : (server_step (request_arrived route seventh) serving).0 ≡ halted assertion_failed
unfolding server_step new_server Server.handle_new_request Server.store_handler
    Server.post_handle_request RequestHandler.init Request.get_id Server.id_same
    Request.get_fcgi_params Request.get_connection_and_request_data lock_both lock_data is_alive
    in_map new_request find perform new_connection_data ConnectionData.handle_begin_request assign
    place
reused_id = refl

-- The request was aborted before the server is given it.
aborted_first :
    (server_step
      (request_arrived route (record seventh { active_connections = [] }))
      (new_server no_handler)).0
    ≡ thrown not_active
unfolding server_step Server.handle_new_request Request.get_fcgi_params
    Request.get_connection_and_request_data lock_both new_request find
aborted_first = refl

-- A handler that the user has just made, before the server takes it.
abbrev new_handler : Hosted
new_handler = record {
  handler = new_request_handler;
  strands = record { tasks = λ t. []; next_strand = 0 };
}

seventh_params : (Request.get_fcgi_params seventh).0 ≡ ok []
unfolding Request.get_fcgi_params Request.get_connection_and_request_data lock_both lock_data
    is_alive in_map new_request find perform new_connection_data ConnectionData.handle_begin_request
    assign place new_request_data
seventh_params = refl

nothing_stored :
    find (Request.get_id seventh.request) (new_server no_handler).active_request_handlers ≡ none
unfolding new_server find
nothing_stored = refl

handle_new_request-Hands_example :
    Hands
      (Request.get_id seventh.request)
      3
      (new_server no_handler).strands.next_strand
      (4 ∷ 5 ∷ [])
      (Server.handle_new_request route seventh (new_server no_handler))
handle_new_request-Hands_example =
    handle_new_request-Hands route [] 3 (4 ∷ 5 ∷ []) seventh (new_server no_handler) seventh_params
      refl nothing_stored

-- A handler that no server has taken refuses.
not_taken : (post_in_strand 4 new_handler).0 ≡ thrown handler_not_initialized
unfolding post_in_strand check_is_initialized new_request_handler
not_taken = refl
