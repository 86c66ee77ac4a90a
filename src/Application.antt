-- ===== src/Application.antt =====
-- Server/Server.h over Fastcgi/Acceptor.h, and Server/Request.h: a server with its acceptor, and the
-- Server::Request objects of the user, each with the Fastcgi::Request that it owns.
pub mod Tended
pub mod Effects
pub mod Uses
pub mod Drops
pub mod Tasks
pub mod Connections
pub mod NothingLost
use santiago_old.Prelude.{
  ℕ, suc, ◌<◌, ◌≡◌, ◌^◌, Bool, true, false, Option, none, some, List, [], ◌∷◌, if◌then◌else◌,
}
use santiago_old.Exec.{Exec, Outcome, ok, thrown, halted}
use santiago_old.OrderedMap.{nat_key, find}
use santiago_old.Pairs.{ParamsMap}
use santiago_old.PacketSocket.{ProtocolSocket}
use santiago_old.RequestData.{RequestData}
use santiago_old.Connection.{Connection, Event}
use santiago_old.Connection.Life.{IsEnabled}
use santiago_old.Request
use santiago_old.Request.{Request, RequestId, get_id, Held, ConnectionMap, get_fcgi_params}
use santiago_old.RequestHandler.{RequestHandler}
use santiago_old.Acceptor.{
  Acceptor, Task, close_connection_task, new_request_task, new_acceptor, run_oldest_task,
  acceptor_step, accept_done, run_acceptor_task, connection_event,
}
use santiago_old.Server
use santiago_old.Server.{Server, new_server, id_same, delete_request}
use santiago_old.Server.Handlers.{count}

-- A Server::Request is known by the id that its deletion callback was bound to; for one that is alive
-- `fastcgi_requests` has the object behind _fastcgiRequest.
pub record Application : Type 0 where
  pub acceptor : Acceptor
  pub server : Server
  pub fastcgi_requests : RequestId → Request

-- A Fastcgi request as it is found now.
abbrev pub held : Request → Application → Held
held r s = record { request = r; active_connections = s.acceptor.active_connections }

unfoldable pub with_connections : ConnectionMap → Application → Application
with_connections m s = record s { acceptor = record s.acceptor { active_connections = m } }

abbrev pub set_request : RequestId → Request → (RequestId → Request) → RequestId → Request
set_request k r requests j = if id_same k j then r else requests j

-- The constructor of a Server::Request.
unfoldable pub new_server_request : RequestId → Request → Application → Application
new_server_request k r s = record s { fastcgi_requests = set_request k r s.fastcgi_requests }

-- A call of a Server::Request on its Fastcgi request.
unfoldable pub forward : {A : Type 0} → Exec Held A → RequestId → Exec Application A
forward m k s =
    let (r, h) = m (held (s.fastcgi_requests k) s) in
    (r, new_server_request k h.request (with_connections h.active_connections s))

-- The calls of a Server::Request.
unfoldable pub get_stdin_buffer : RequestId → Exec Application (List ℕ)
get_stdin_buffer = forward Request.get_stdin_buffer

unfoldable pub get_fcgi_params_of : RequestId → Exec Application ParamsMap
get_fcgi_params_of = forward get_fcgi_params

unfoldable pub err : List ℕ → RequestId → Exec Application (Unit {0})
err text = forward (Request.err text)

unfoldable pub out : List ℕ → RequestId → Exec Application (Unit {0})
out text = forward (Request.out text)

unfoldable pub set_app_status : ℕ → RequestId → Exec Application (Unit {0})
set_app_status status = forward (Request.set_app_status status)

unfoldable pub commit : RequestId → Exec Application (Unit {0})
commit = forward Request.commit

unfoldable pub cancel : RequestId → Exec Application (Unit {0})
cancel = forward Request.cancel

-- The destructor of a Server::Request: the deletion is posted, and the last pointer to the Fastcgi
-- request goes.
unfoldable pub destroy_request : RequestId → Exec Application (Unit {0})
destroy_request k s = forward Request.destroy k (record s { server = delete_request k s.server })

-- The last pointer to a Fastcgi request goes that no Server::Request owns.
unfoldable pub drop_request : Request → Application → Application
drop_request r s = with_connections (Request.destroy (held r s)).1.active_connections s

-- route finds a handler.
unfoldable pub is_routed : (ParamsMap → Option ℕ) → Held → Bool
is_routed route h = elim (get_fcgi_params h).0 [
  | ok params ↦ elim (route params) [ none ↦ false | some _ ↦ true ]
  | thrown e ↦ false
  | halted x ↦ false
]

-- _newRequestCallbackFn is bound to handleNewRequest. The request lives on in a Server::Request if one
-- is made for it, and else its last pointer goes with the task.
unfoldable pub new_request_callback : (ParamsMap → Option ℕ) → Request → Exec Application (Unit {0})
new_request_callback route r s =
    let (o, server) = Server.handle_new_request route (held r s) s.server in
    let t = record s { server = server } in
    (o, if is_routed route (held r s) then new_server_request (get_id r) r t else drop_request r t)

-- The oldest of the acceptor's own tasks.
unfoldable pub run_task : (ParamsMap → Option ℕ) → List Task → Exec Application (Unit {0})
run_task route [] s = (ok tt, s)
run_task route (close_connection_task i ∷ rest) s =
    let (o, a) = run_oldest_task (close_connection_task i ∷ rest) s.acceptor in
    (o, record s { acceptor = a })
run_task route (new_request_task r ∷ rest) s =
    new_request_callback route r
      (record s { acceptor = (run_oldest_task (new_request_task r ∷ rest) s.acceptor).1 })

-- What the user does with a Server::Request that is alive.
pub data RequestUse : Type 0 where
  commits cancels : RequestUse
  sets_status : ℕ → RequestUse
  writes_out writes_err : List ℕ → RequestUse

unfoldable pub use_request : RequestUse → RequestId → Exec Application (Unit {0})
use_request commits k = commit k
use_request cancels k = cancel k
use_request (sets_status status) k = set_app_status status k
use_request (writes_out text) k = out text k
use_request (writes_err text) k = err text k

-- An accept finishes, something happens to a connection, the strand of the acceptor runs its oldest
-- task or the oldest deletion of a handler, and the user uses or drops a request and starts or stops
-- the server. Which kind of task is next in the strand is left open.
pub data ApplicationEvent : Type 0 where
  accept_finished : Bool → ProtocolSocket → (ℕ → RequestData) → ApplicationEvent
  connection_happens : ℕ → Event → ApplicationEvent
  task_runs : (ParamsMap → Option ℕ) → ApplicationEvent
  deletion_runs : ApplicationEvent
  request_used : RequestUse → RequestId → ApplicationEvent
  request_dropped : RequestId → ApplicationEvent
  server_starts server_stops : ApplicationEvent

unfoldable pub on_acceptor : Exec Acceptor (Unit {0}) → Exec Application (Unit {0})
on_acceptor m s = let (o, a) = m s.acceptor in (o, record s { acceptor = a })

unfoldable pub on_server : Exec Server (Unit {0}) → Exec Application (Unit {0})
on_server m s = let (o, t) = m s.server in (o, record s { server = t })

unfoldable pub application_step : ApplicationEvent → Exec Application (Unit {0})
application_step (accept_finished error socket memory) s =
    on_acceptor (acceptor_step (accept_done error socket memory)) s
application_step (connection_happens i e) s = on_acceptor (acceptor_step (connection_event i e)) s
application_step (task_runs route) s = run_task route s.acceptor.strand s
application_step deletion_runs s = on_server (Server.server_step Server.run_deletion) s
application_step (request_used u k) s = use_request u k s
application_step (request_dropped k) s = destroy_request k s
application_step server_starts s = on_server Server.start s
application_step server_stops s = on_server Server.stop s

-- The constructor of the server makes its acceptor.
unfoldable pub new_application : (ℕ → RequestHandler) → (RequestId → Request) → Application
new_application handlers requests = record {
  acceptor = new_acceptor;
  server = new_server handlers;
  fastcgi_requests = requests;
}

-- Only requests that are alive are used and dropped, an event of a connection needs what the
-- connection needs for it, and the counter of connections must not wrap.
abbrev pub CanHappen : ApplicationEvent → Application → Type 0
CanHappen (accept_finished error socket memory) s = suc s.acceptor.next_connection_id < 2 ^ 32
CanHappen (connection_happens i e) s =
    (c : Connection) × (find i s.acceptor.active_connections ≡ some c) × IsEnabled e c
CanHappen (request_used u k) s = 0 < count k s.server.live
CanHappen (request_dropped k) s = 0 < count k s.server.live
CanHappen _ s = Unit

-- What the calls of the user throw is the user's to catch; anything else but a return ends the
-- process.
abbrev pub LivesOn : ApplicationEvent → Outcome (Unit {0}) → Type 0
LivesOn (request_used u k) o = Unit
LivesOn server_starts o = Unit
LivesOn server_stops o = Unit
LivesOn _ o = o ≡ ok tt

-- The histories of an application in which the process lives on.
pub data ApplicationReach (s : Application) : Application → Type 0 where
  at_start : ApplicationReach s s
  and_then :
      {t t' : Application}
      → ApplicationReach s t
      → (e : ApplicationEvent) → CanHappen e t
      → LivesOn e (application_step e t).0
      → t' ≡ (application_step e t).1
      → ApplicationReach s t'
