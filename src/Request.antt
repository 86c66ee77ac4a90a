-- ===== src/Request.antt =====
-- Fastcgi/Request.h: the handle of the user of the module on one request. Its weak pointers lock
-- while the acceptor's map holds the connection, and while the connection holds the object.
pub mod Once
pub mod Effects
use santiago_old.Prelude.{
  ℕ, Bool, true, false, not, ◌&&◌, Option, none, some, List, [], ◌∷◌, ◌++◌, ◌==◌, if◌then◌else◌,
}
use santiago_old.Exec.{
  Exec, Outcome, ok, thrown, halted, assertion_failed, already_replied, not_active, pure, modify,
  ◌>>=◌,
}
use santiago_old.OrderedMap.{OrderedMap, nat_key, find, assign}
use santiago_old.Text.{bytes}
use santiago_old.Strand.{Task, flush_protocol_socket_task, commit_reply_task}
use santiago_old.Pairs.{ParamsMap}
use santiago_old.RequestData.{RequestData, write_out, write_err}
use santiago_old.ConnectionData.{Entry, RequestMap, update}
use santiago_old.Connection.{Connection, commit_reply}

-- _dataWeakPtr is none once it is reset.
pub record Request : Type 0 where
  pub request_id : ℕ
  pub data_weak_ptr : Option ℕ
  pub connection_id : ℕ
  pub has_replied : Bool

abbrev pub ConnectionMap : Type 0
ConnectionMap = OrderedMap ℕ Connection

-- A request with the connections that are alive.
pub record Held : Type 0 where
  pub request : Request
  pub active_connections : ConnectionMap

-- std::pair<unsigned,unsigned>
abbrev pub RequestId : Type 0
RequestId = ℕ × ℕ

-- getId
unfoldable pub get_id : Request → RequestId
get_id r = (r.connection_id, r.request_id)

-- The constructor.
unfoldable pub new_request : ℕ → ℕ → ℕ → Request
new_request request_id request_data connection_id = record {
  request_id = request_id;
  data_weak_ptr = some request_data;
  connection_id = connection_id;
  has_replied = false;
}

-- The shared pointers to an object: the entries of the request map and the replies that wait.
unfoldable pub in_map : ℕ → RequestMap → Bool
in_map p [] = false
in_map p ((i, e) ∷ m) = let rest = in_map p m in if e.request_data == p then true else rest

unfoldable pub in_strand : ℕ → List Task → Bool
in_strand p [] = false
in_strand p (flush_protocol_socket_task ∷ tasks) = in_strand p tasks
in_strand p (commit_reply_task i q ∷ tasks) =
    let rest = in_strand p tasks in if q == p then true else rest

unfoldable pub is_alive : ℕ → Connection → Bool
is_alive p c =
    if in_map p c.connection_data.request_map
    then true
    else in_strand p c.packet_socket.connection_strand

-- _dataWeakPtr.lock()
unfoldable pub lock_data : Option ℕ → Connection → Option ℕ
lock_data none c = none
lock_data (some p) c = if is_alive p c then some p else none

-- Both weak pointers locked; an object goes with its connection.
unfoldable pub lock_both : Held → Option (Connection × ℕ)
lock_both s = elim (find s.request.connection_id s.active_connections) [
  | none ↦ none
  | some c ↦ elim (lock_data s.request.data_weak_ptr c) [ none ↦ none | some p ↦ some (c, p) ]
]

-- isValid
unfoldable pub is_valid : Held → Bool
is_valid s = not s.request.has_replied && elim (lock_both s) [ none ↦ false | some _ ↦ true ]

-- getConnectionAndRequestData
unfoldable pub get_connection_and_request_data : Exec Held (Connection × ℕ)
get_connection_and_request_data s =
    if s.request.has_replied
    then (thrown already_replied, s)
    else elim (lock_both s) [ none ↦ (thrown not_active, s) | some r ↦ (ok r, s) ]

-- The connection of the request after a change.
unfoldable pub put_connection : Connection → Held → Held
put_connection c s = record s {
  active_connections = assign s.request.connection_id c s.active_connections;
}

-- Changes the object of a connection.
unfoldable pub change_object : (RequestData → RequestData) → ℕ → Connection → Connection
change_object f p c = record c {
  connection_data = record c.connection_data {
    objects = update c.connection_data.objects p (f (c.connection_data.objects p));
  };
}

-- _dataWeakPtr.reset(); _hasReplied = true;
unfoldable pub mark_replied : Held → Held
mark_replied s = record s {
  request = record s.request { data_weak_ptr = none; has_replied = true };
}

-- commit
unfoldable pub commit : Exec Held (Unit {0})
commit = do
  pair ← get_connection_and_request_data
  λ s. (ok tt, mark_replied (put_connection (commit_reply s.request.request_id pair.1 pair.0) s))

-- What cancel does to the buffers: the output is dropped, and the error stream says why.
unfoldable pub cancelled_data : RequestData → RequestData
cancelled_data d =
    write_err (bytes "Request cancelled by application server") (record d { out_buffer = [] })

-- cancel
unfoldable pub cancel : Exec Held (Unit {0})
cancel = do
  pair ← get_connection_and_request_data
  λ s. (
    ok tt,
    mark_replied (
        put_connection
          (commit_reply s.request.request_id pair.1 (change_object cancelled_data pair.1 pair.0))
          s),
  )

-- What setAppStatus, out() << text and err() << text do.
unfoldable pub on_object : (RequestData → RequestData) → Exec Held (Unit {0})
on_object f = do
  pair ← get_connection_and_request_data
  λ s. (ok tt, put_connection (change_object f pair.1 pair.0) s)

unfoldable pub set_app_status : ℕ → Exec Held (Unit {0})
set_app_status status = on_object (λ d. record d { app_status = status })

unfoldable pub out : List ℕ → Exec Held (Unit {0})
out text = on_object (write_out text)

unfoldable pub err : List ℕ → Exec Held (Unit {0})
err text = on_object (write_err text)

-- getStdinBuffer and getFCGIParams
unfoldable pub get_stdin_buffer : Exec Held (List ℕ)
get_stdin_buffer = do
  pair ← get_connection_and_request_data
  λ s. (ok (pair.0.connection_data.objects pair.1).in_buffer, s)

unfoldable pub get_fcgi_params : Exec Held ParamsMap
get_fcgi_params = do
  pair ← get_connection_and_request_data
  λ s. (ok (pair.0.connection_data.objects pair.1).params_map, s)

-- The catch of the destructor asserts false.
unfoldable pub after_cancel : Outcome (Unit {0}) → Outcome (Unit {0})
after_cancel (ok u) = ok u
after_cancel (thrown e) = halted assertion_failed
after_cancel (halted h) = halted h

-- The destructor. isValid and cancel lock the weak pointers each for itself, and `others` is what
-- the handlers of other threads do to the connections between the two.
unfoldable pub destroy_amid : (ConnectionMap → ConnectionMap) → Exec Held (Unit {0})
destroy_amid others s =
    if is_valid s
    then (let (r, t) = cancel (record s { active_connections = others s.active_connections }) in
        (after_cancel r, t))
    else (ok tt, s)

-- The destructor where no handler runs between its two steps.
unfoldable pub destroy : Exec Held (Unit {0})
unfolding destroy_amid
destroy = destroy_amid (λ m. m)
