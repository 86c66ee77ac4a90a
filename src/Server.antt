-- ===== src/Server.antt =====
-- Server/Server.h: the handlers of a user's requests, and the requests that they hold. What route returns is the user's choice.
pub mod Handlers
pub mod Histories
pub mod Handling
use santiago_old.Prelude.{
  ℕ, suc, ◌+◌, ◌≡◌, ◌↔◌, refl, Bool, true, false, ◌&&◌, Option, none, some, List, [], ◌∷◌, ◌++◌,
  ltb, ◌==◌, ==_iff, if◌then◌else◌, arith,
}
use santiago_old.Exec.{
  Exec, Outcome, ok, thrown, halted, ◌>>=◌, assertion_failed, server_started, server_stopped,
  waits_forever,
}
use santiago_old.OrderedMap.{Key, OrderedMap, find, assign, erase}
use santiago_old.Pairs.{ParamsMap}
use santiago_old.Request.{Request, RequestId, get_id, Held, get_fcgi_params}
use santiago_old.RequestHandler.{
  RequestHandler, Strands, Hosted, IoService, io_service, handle_request_task, init, get_strand,
  post,
}

unfoldable pub id_same : RequestId → RequestId → Bool
id_same a b = a.0 == b.0 && a.1 == b.1

-- operator< of std::pair
unfoldable pub id_before : RequestId → RequestId → Bool
id_before a b = if ltb a.0 b.0 then true else if ltb b.0 a.0 then false else ltb a.1 b.1

pub id_same_iff : (a b : RequestId) → (id_same a b ≡ true) ↔ (a ≡ b)
unfolding id_same
id_same_iff (a, b) (c, d) = ground (arith, ==_iff a c, ==_iff b d)

instance abbrev pub id_key : Key RequestId
id_key = record { same = id_same; before = id_before; same_iff = id_same_iff }

pub data Status : Type 0 where
  started stopped : Status

abbrev pub is_started : Status → Bool
is_started started = true
is_started stopped = false

-- The state. A RequestHandlerPtr is an address of `handlers`, and `acceptor_strand` holds the
-- handleRequestDeleteImpl calls posted in the acceptor's strand. `live` are the Server::Request
-- objects that are alive, by their ids.
pub record Server : Type 0 where
  pub status : Status
  pub running_threads : ℕ
  pub io_stopped : Bool
  pub active_request_handlers : OrderedMap RequestId ℕ
  pub handlers : ℕ → RequestHandler
  pub strands : Strands
  pub acceptor_strand : List RequestId
  pub live : List RequestId

-- The constructor.
unfoldable pub new_server : (ℕ → RequestHandler) → Server
new_server memory = record {
  status = stopped;
  running_threads = 0;
  io_stopped = false;
  active_request_handlers = [];
  handlers = memory;
  strands = record { tasks = λ t. []; next_strand = 0 };
  acceptor_strand = [];
  live = [];
}

-- NO_OF_ASIO_USER_THREADS
abbrev pub no_of_asio_user_threads : ℕ
no_of_asio_user_threads = 5

-- getIOService
unfoldable pub get_io_service : Server → IoService
get_io_service s = io_service

-- The threads of start() in io_service::run, which returns at once once the io_service is stopped.
unfoldable pub run_threads : Server → Server
run_threads s = if s.io_stopped then s else record s { running_threads = no_of_asio_user_threads }

-- start
unfoldable pub start : Exec Server (Unit {0})
unfolding run_threads
start s =
    if is_started s.status
    then (thrown server_started, s)
    else (ok tt, run_threads (record s { status = started }))

-- io_service::stop
unfoldable pub stop_io_service : Server → Server
stop_io_service s = record s { io_stopped = true }

-- The loop of join() over the threads. With work in the io_service a thread leaves run only when it is
-- stopped.
unfoldable pub join_threads : Exec Server (Unit {0})
join_threads s =
    if s.io_stopped
    then (ok tt, record s { running_threads = 0 })
    else if s.running_threads == 0
    then (ok tt, s)
    else (halted waits_forever, s)

-- stop
unfoldable pub stop : Exec Server (Unit {0})
unfolding stop_io_service join_threads
stop s =
    if is_started s.status
    then join_threads (stop_io_service (record s { status = stopped }))
    else (thrown server_stopped, s)

-- The destructor.
unfoldable pub destroy : Exec Server (Unit {0})
destroy s = if is_started s.status then stop s else (ok tt, s)

abbrev pub update_handler : (ℕ → RequestHandler) → ℕ → RequestHandler → ℕ → RequestHandler
update_handler handlers h r q = if h == q then r else handlers q

-- A handler with the strands, and what an action of the handler leaves of them.
unfoldable pub hosted : ℕ → Server → Hosted
hosted h s = record { handler = s.handlers h; strands = s.strands }

unfoldable pub with_hosted : ℕ → Hosted → Server → Server
with_hosted h r s = record s {
  handlers = update_handler s.handlers h r.handler;
  strands = r.strands;
}

-- requestHandler->getStrand().post of the handleRequest
unfoldable pub post_handle_request : RequestId → Exec Hosted (Unit {0})
post_handle_request request_id = do
  strand ← get_strand
  post strand (handle_request_task request_id)

-- handleNewRequest from the handler on: it is initialized and stored, and its handleRequest is
-- posted with a new Server::Request.
unfoldable pub store_handler : RequestId → ℕ → Exec Server (Unit {0})
store_handler request_id h s =
    let r = init (hosted h s) in
    elim (find request_id s.active_request_handlers) [
      | some _ ↦ (halted assertion_failed, with_hosted h r s)
      | none ↦
          let (o, r') = post_handle_request request_id r in
          (
            o,
            record (with_hosted h r' s) {
              active_request_handlers = assign request_id h s.active_request_handlers;
              live = request_id ∷ s.live;
            },
          )
    ]

-- handleNewRequest, over the Fastcgi request as it is when the acceptor's strand calls.
unfoldable pub handle_new_request : (ParamsMap → Option ℕ) → Held → Exec Server (Unit {0})
handle_new_request route held s = elim (get_fcgi_params held).0 [
  | thrown e ↦ (thrown e, s)
  | halted x ↦ (halted x, s)
  | ok params ↦ elim (route params) [
    | none ↦ (ok tt, s)
    | some h ↦ store_handler (get_id held.request) h s
  ]
]

-- handleRequestDelete
unfoldable pub handle_request_delete : RequestId → Server → Server
handle_request_delete request_id s =
    if is_started s.status
    then record s { acceptor_strand = s.acceptor_strand ++ (request_id ∷ []) }
    else s

-- handleRequestDeleteImpl
unfoldable pub handle_request_delete_impl : RequestId → Exec Server (Unit {0})
handle_request_delete_impl request_id s = elim (find request_id s.active_request_handlers) [
  | none ↦ (halted assertion_failed, s)
  | some _ ↦
      (ok tt, record s { active_request_handlers = erase request_id s.active_request_handlers })
]

-- One of the objects is gone.
unfoldable pub remove_one : RequestId → List RequestId → List RequestId
remove_one i [] = []
remove_one i (j ∷ ids) = let rest = remove_one i ids in if id_same i j then ids else j ∷ rest

-- The destructor of a Server::Request calls handleRequestDelete.
unfoldable pub delete_request : RequestId → Server → Server
delete_request request_id s =
    handle_request_delete request_id (record s { live = remove_one request_id s.live })

-- A request is handed over, a request object is destroyed, the acceptor's strand runs its oldest
-- deletion, or the user starts or stops the server.
pub data ServerEvent : Type 0 where
  request_arrived : (ParamsMap → Option ℕ) → Held → ServerEvent
  request_destroyed : RequestId → ServerEvent
  run_deletion : ServerEvent
  started_by_user : ServerEvent
  stopped_by_user : ServerEvent

unfoldable pub run_oldest_deletion : List RequestId → Exec Server (Unit {0})
run_oldest_deletion [] s = (ok tt, s)
run_oldest_deletion (request_id ∷ rest) s =
    handle_request_delete_impl request_id (record s { acceptor_strand = rest })

unfoldable pub server_step : ServerEvent → Exec Server (Unit {0})
server_step (request_arrived route held) s = handle_new_request route held s
server_step (request_destroyed request_id) s = (ok tt, delete_request request_id s)
server_step run_deletion s = run_oldest_deletion s.acceptor_strand s
server_step started_by_user s = start s
server_step stopped_by_user s = stop s
