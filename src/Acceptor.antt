-- ===== src/Acceptor.antt =====
-- Fastcgi/Acceptor.h: the connections that are alive, and the acceptor's strand. A connection's
-- handlers run in its own strand, and its calls reach the acceptor when they return.
pub mod Tasks
pub mod Connections
pub mod Delivery
pub mod Steps
pub mod Histories
pub mod Once
pub mod Drain
use santiago_old.Prelude.{
  ℕ, suc, ◌+◌, ◌-◌, ◌%◌, ◌^◌, Bool, true, false, Option, none, some, List, [], ◌∷◌, ◌++◌, length,
  drop,
}
use santiago_old.Exec.{
  Exec, Outcome, ok, thrown, halted, assertion_failed, pure, modify, assert, continue, ◌>>=◌, ◌>>◌,
}
use santiago_old.OrderedMap.{nat_key, find, assign, erase}
use santiago_old.PacketSocket.{ProtocolSocket}
use santiago_old.RequestData.{RequestData}
use santiago_old.Connection
use santiago_old.Connection.{
  Connection, AcceptorCall, new_request_call, close_call, new_connection, Event, step,
}
use santiago_old.Request.{Request, ConnectionMap, new_request}

-- What is posted in the acceptor's strand.
pub data Task : Type 0 where
  close_connection_task : ℕ → Task
  new_request_task : Request → Task

-- The state, with the async_accept calls that are under way and the requests that
-- _newRequestCallbackFn was given.
pub record Acceptor : Type 0 where
  pub active_connections : ConnectionMap
  pub next_connection_id : ℕ
  pub strand : List Task
  pub accepts_pending : ℕ
  pub new_requests : List Request

-- The constructor listens for the first connection.
unfoldable pub new_acceptor : Acceptor
new_acceptor = record {
  active_connections = [];
  next_connection_id = 0;
  strand = [];
  accepts_pending = 1;
  new_requests = [];
}

abbrev pub post : Task → Acceptor → Acceptor
post t a = record a { strand = a.strand ++ (t ∷ []) }

-- handleAccept from the new connection on.
unfoldable pub accept_connection : ℕ → ProtocolSocket → (ℕ → RequestData) → Acceptor → Acceptor
accept_connection connection_id socket memory a = record a {
  active_connections =
      assign connection_id (Connection.start (new_connection socket memory)).1 a.active_connections;
  accepts_pending = suc a.accepts_pending;
}

-- handleAccept: the id is a 32-bit counter. After an error it does not listen again.
unfoldable pub handle_accept : Bool → ProtocolSocket → (ℕ → RequestData) → Exec Acceptor (Unit {0})
handle_accept true socket memory a = (ok tt, a)
handle_accept false socket memory a =
    let connection_id = a.next_connection_id in
    let b = record a { next_connection_id = suc connection_id % 2 ^ 32 } in
    elim (find connection_id a.active_connections) [
      | some _ ↦ (halted assertion_failed, b)
      | none ↦ (ok tt, accept_connection connection_id socket memory b)
    ]

-- handleConnectionClose
unfoldable pub handle_connection_close : ℕ → Exec Acceptor (Unit {0})
handle_connection_close connection_id a = elim (find connection_id a.active_connections) [
  | none ↦ (halted assertion_failed, a)
  | some _ ↦ (ok tt, post (close_connection_task connection_id) a)
]

-- closeConnection
unfoldable pub close_connection : ℕ → Exec Acceptor (Unit {0})
close_connection connection_id a = elim (find connection_id a.active_connections) [
  | none ↦ (halted assertion_failed, a)
  | some _ ↦ (ok tt, record a { active_connections = erase connection_id a.active_connections })
]

-- handleNewRequest, with what the weak pointer locks to
unfoldable pub handle_new_request : ℕ → ℕ → Option ℕ → Exec Acceptor (Unit {0})
handle_new_request connection_id request_id none a = (ok tt, a)
handle_new_request connection_id request_id (some request_data) a =
    elim (find connection_id a.active_connections) [
      | none ↦ (halted assertion_failed, a)
      | some _ ↦
          (ok tt, post (new_request_task (new_request request_id request_data connection_id)) a)
    ]

-- The calls of a connection. When handleRequestReady calls, the map holds the object, so the weak
-- pointer locks.
unfoldable pub deliver : ℕ → List AcceptorCall → Exec Acceptor (Unit {0})
deliver connection_id [] a = (ok tt, a)
deliver connection_id (new_request_call request_id request_data ∷ calls) a =
    let (r, b) = handle_new_request connection_id request_id (some request_data) a in
    continue r (λ _. deliver connection_id calls) b
deliver connection_id (close_call ∷ calls) a =
    let (r, b) = handle_connection_close connection_id a in
    continue r (λ _. deliver connection_id calls) b

-- An accept finishes, the acceptor's strand runs its oldest task, or something happens to a
-- connection.
pub data AcceptorEvent : Type 0 where
  accept_done : Bool → ProtocolSocket → (ℕ → RequestData) → AcceptorEvent
  run_acceptor_task : AcceptorEvent
  connection_event : ℕ → Event → AcceptorEvent

-- The finished accept is no longer under way.
abbrev pub accepted : Acceptor → Acceptor
accepted a = record a { accepts_pending = a.accepts_pending - 1 }

unfoldable pub run_oldest_task : List Task → Exec Acceptor (Unit {0})
run_oldest_task [] a = (ok tt, a)
run_oldest_task (close_connection_task connection_id ∷ rest) a =
    close_connection connection_id (record a { strand = rest })
run_oldest_task (new_request_task request ∷ rest) a =
    (ok tt, record a { strand = rest; new_requests = a.new_requests ++ (request ∷ []) })

-- A handler of a connection in the map, and then its calls.
unfoldable pub run_connection : ℕ → Event → Connection → Exec Acceptor (Unit {0})
run_connection connection_id e c a =
    let (r, d) = step e c in
    continue r (λ _. deliver connection_id (drop (length c.calls) d.calls))
      (record a { active_connections = assign connection_id d a.active_connections })

unfoldable pub acceptor_step : AcceptorEvent → Exec Acceptor (Unit {0})
acceptor_step (accept_done error socket memory) a = handle_accept error socket memory (accepted a)
acceptor_step run_acceptor_task a = run_oldest_task a.strand a
acceptor_step (connection_event connection_id e) a =
    elim (find connection_id a.active_connections) [
      | none ↦ (ok tt, a)
      | some c ↦ run_connection connection_id e c a
    ]
