-- ===== src/Connection.antt =====
-- Fastcgi/Connection.h: the packet socket, the request data and the life of one connection.
-- Handlers run one after another in the connection's strand, so each is one action.
pub mod Invariant
pub mod Packets
pub mod Sockets
pub mod Steps
pub mod Calls
pub mod HandOver
pub mod Tally
pub mod Announce
pub mod Replies
pub mod DataLaws
pub mod Turns
pub mod Arrival
pub mod Begins
pub mod Feeds
pub mod Arrived
pub mod Service
pub mod Abort
pub mod Values
pub mod Commit
pub mod Silence
pub mod Ends
pub mod Life
pub mod Reads
pub mod Stale
use santiago_old.Prelude.{
  ℕ, zero, suc, ◌%◌, ◌^◌, Bool, true, false, Option, none, some, List, [], ◌∷◌, ◌++◌, ◌==◌,
  if◌then◌else◌, length,
}
use santiago_old.Exec.{
  Exec, Outcome, ok, thrown, halted, assertion_failed, pure, halt, zoom, modify, assert, ◌>>=◌,
  ◌>>◌,
}
use santiago_old.Protocol.{TransceiverEventInfo, socket_closed, connection_wind_down}
use santiago_old.Strand.{Task, flush_protocol_socket_task, commit_reply_task}
use santiago_old.PacketSocket
use santiago_old.PacketSocket.{
  PacketSocket, ProtocolSocket, new_packet_socket, flush_protocol_socket,
}
use santiago_old.PacketSocket.Read.{Host, handle_read}
use santiago_old.RequestData.{RequestData}
use santiago_old.ConnectionData
use santiago_old.ConnectionData.{ConnectionData, Notice, quiet, request_ready, became_empty}
use santiago_old.RecordSocket
use santiago_old.RecordSocket.{Callbacks, Replying}

pub data ConnectionState : Type 0 where
  opened closing closed : ConnectionState

-- The callbacks into the acceptor, _newRequestCallbackFn and _closeCallbackFn, as they are made.
pub data AcceptorCall : Type 0 where
  new_request_call : ℕ → ℕ → AcceptorCall
  close_call : AcceptorCall

pub record Connection : Type 0 where
  pub state : ConnectionState
  pub connection_data : ConnectionData
  pub packet_socket : PacketSocket
  pub calls : List AcceptorCall

abbrev pub not_closed : ConnectionState → Bool
not_closed closed = false
not_closed _ = true

abbrev pub is_closing : ConnectionState → Bool
is_closing closing = true
is_closing _ = false

-- The constructor.
unfoldable pub new_connection : ProtocolSocket → (ℕ → RequestData) → Connection
new_connection socket memory = record {
  state = opened;
  connection_data = ConnectionData.new_connection_data memory;
  packet_socket = new_packet_socket socket;
  calls = [];
}

abbrev pub with_packet_socket : Connection → PacketSocket → Connection
with_packet_socket c p = record c { packet_socket = p }

abbrev pub call : AcceptorCall → Connection → Connection
call a c = record c { calls = c.calls ++ (a ∷ []) }

-- closeAndCleanup
unfoldable pub close_and_cleanup : Exec Connection (Unit {0})
close_and_cleanup = modify λ c. call close_call (record c {
  connection_data = ConnectionData.clear c.connection_data;
  packet_socket = PacketSocket.close c.packet_socket;
  state = closed;
})

-- handleRequestReady
unfoldable pub handle_request_ready : ℕ → ℕ → Exec Connection (Unit {0})
handle_request_ready request_id new_request =
    modify (call (new_request_call request_id new_request))

-- handleTransceiverEvent
unfoldable pub handle_transceiver_event : TransceiverEventInfo → Exec Connection (Unit {0})
handle_transceiver_event socket_closed = do assert (λ c. not_closed c.state); close_and_cleanup
handle_transceiver_event connection_wind_down = do
  assert (λ c. not_closed c.state)
  modify (λ c. record c { state = closing })
  λ c. if length c.connection_data.request_map == 0 then close_and_cleanup c else (ok tt, c)

-- handleOnEmpty
unfoldable pub handle_on_empty : Exec Connection (Unit {0})
handle_on_empty c = if is_closing c.state then close_and_cleanup c else (ok tt, c)

-- The callback that an operation of ConnectionData ends with.
unfoldable pub on_notice : Notice → Exec Connection (Unit {0})
on_notice quiet = pure tt
on_notice (request_ready request_id new_request) = handle_request_ready request_id new_request
on_notice became_empty = handle_on_empty

-- An operation of ConnectionData on _data, with its callback.
unfoldable pub on_data : Exec ConnectionData Notice → Exec Connection (Unit {0})
on_data m = do
  notice ← zoom (λ c. c.connection_data) (λ c d. record c { connection_data = d }) m
  on_notice notice

-- What the constructor binds into the record socket.
abbrev pub callbacks : Callbacks Connection
callbacks = record {
  socket = λ c. c.packet_socket;
  with_socket = with_packet_socket;
  begin_request = λ i. on_data (ConnectionData.handle_begin_request i);
  abort_request = λ i. on_data (ConnectionData.handle_abort_request i);
  stdin = λ i b. on_data (ConnectionData.handle_stdin i b);
  params = λ i b. on_data (ConnectionData.handle_params i b);
  transceiver_event = handle_transceiver_event;
}

-- What the record socket binds into the packet socket.
abbrev pub host : Host Connection
host = record {
  socket = λ c. c.packet_socket;
  with_socket = with_packet_socket;
  new_packet = RecordSocket.handle_new_packet callbacks;
}

-- start
unfoldable pub start : Exec Connection (Unit {0})
start = RecordSocket.start callbacks

-- commitReply posts commitReplyImpl in the strand.
unfoldable pub commit_reply : ℕ → ℕ → Connection → Connection
commit_reply request_id request_data c = with_packet_socket c (record c.packet_socket {
  connection_strand =
      c.packet_socket.connection_strand ++ (commit_reply_task request_id request_data ∷ []);
})

-- sendReply on the buffers of an object.
unfoldable pub send_reply_of : ℕ → ℕ → Exec Connection Bool
send_reply_of request_id request_data =
    zoom
      (λ c.
        let replying : Replying = record {
          packet_socket = c.packet_socket;
          request = c.connection_data.objects request_data;
        } in
        replying)
      (λ c r. record c {
        packet_socket = r.packet_socket;
        connection_data = record c.connection_data {
          objects = ConnectionData.update c.connection_data.objects request_data r.request;
        };
      })
      (RecordSocket.send_reply request_id)

-- commitReplyImpl
unfoldable pub commit_reply_impl : ℕ → ℕ → Exec Connection (Unit {0})
commit_reply_impl request_id request_data c =
    if ConnectionData.is_valid_request request_id request_data c.connection_data
    then (do
      ec ← send_reply_of request_id request_data
      if ec then close_and_cleanup else on_data (ConnectionData.cleanup_request request_id))
        c
    else (ok tt, c)

-- What happens to a connection: a read finishes, the strand runs its oldest task, or a request
-- posts a reply.
pub data Event : Type 0 where
  read_done : Bool → List ℕ → Event
  run_task : Event
  reply_posted : ℕ → ℕ → Event

unfoldable pub run_oldest : List Task → Exec Connection (Unit {0})
run_oldest [] c = (ok tt, c)
run_oldest (flush_protocol_socket_task ∷ rest) c =
    zoom (λ d. d.packet_socket) with_packet_socket flush_protocol_socket
      (with_packet_socket c (record c.packet_socket { connection_strand = rest }))
run_oldest (commit_reply_task request_id request_data ∷ rest) c =
    commit_reply_impl request_id request_data
      (with_packet_socket c (record c.packet_socket { connection_strand = rest }))

unfoldable pub step : Event → Exec Connection (Unit {0})
step (read_done error received) c = handle_read host error received c
step run_task c = run_oldest c.packet_socket.connection_strand c
step (reply_posted request_id request_data) c = (ok tt, commit_reply request_id request_data c)
