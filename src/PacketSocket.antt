-- ===== src/PacketSocket.antt =====
-- Fastcgi/PacketSocket.h: the state, writing and closing. Reading is in the child `Read`.
pub mod Read
pub mod Frames
pub mod Writing
pub mod Effects
pub mod Keeps
pub mod Reading
pub mod Peer
pub mod Wire
pub mod Ends
use santiago_old.Prelude.{
  ℕ, zero, suc, ◌+◌, ◌-◌, ◌/◌, ◌%◌, ◌^◌, min, Bool, true, false, List, [], ◌∷◌, ◌++◌, ◌==◌,
  if◌then◌else◌, length, take, drop, replicate,
}
use santiago_old.Exec.{
  Exec, Outcome, ok, thrown, halted, assertion_failed, out_of_fuel, pure, halt, assert, ◌>>=◌, ◌>>◌,
}
use santiago_old.Protocol.{Header, header_bytes, fcgi_version_1, fcgi_max_length}
use santiago_old.Strand.{Strand, flush_protocol_socket_task}

pub data SocketState : Type 0 where
  opened closed : SocketState

-- The boost socket. What the network does is the environment's choice: `write_fails k` tells
-- whether the write number k reports an error, and `unread` holds what read_some still delivers
-- before it reports one.
pub record ProtocolSocket : Type 0 where
  pub write_fails : ℕ → Bool
  pub writes : ℕ
  pub sent : List ℕ
  pub unread : List (List ℕ)
  pub reads_pending : ℕ
  pub cancelled : Bool
  pub is_shut_down : Bool

pub record PacketSocket : Type 0 where
  pub state : SocketState
  pub protocol_socket : ProtocolSocket
  pub input_buffer : List ℕ
  pub connection_strand : Strand

abbrev pub is_closed : SocketState → Bool
is_closed opened = false
is_closed closed = true

-- The constructor, over a socket that was accepted.
unfoldable pub new_packet_socket : ProtocolSocket → PacketSocket
new_packet_socket socket = record {
  state = opened;
  protocol_socket = socket;
  input_buffer = [];
  connection_strand = [];
}

-- startAsyncPacketRead: one async_read_some is under way.
unfoldable pub start_async_packet_read : PacketSocket → PacketSocket
start_async_packet_read s = record s {
  protocol_socket = record s.protocol_socket {
    reads_pending = suc s.protocol_socket.reads_pending;
  };
}

-- close
unfoldable pub close : PacketSocket → PacketSocket
close s = if is_closed s.state then s else record s {
  state = closed;
  protocol_socket = record s.protocol_socket { cancelled = true; is_shut_down = true };
  connection_strand = s.connection_strand ++ (flush_protocol_socket_task ∷ []);
}

-- boost::asio::write of the whole buffer sequence; the result is whether ec is set.
unfoldable pub asio_write : List ℕ → PacketSocket → Bool × PacketSocket
asio_write bytes s =
    let socket = s.protocol_socket in
    if socket.write_fails socket.writes
    then (true, record s { protocol_socket = record socket { writes = suc socket.writes } })
    else (
      false,
      record s {
        protocol_socket = record socket { writes = suc socket.writes; sent = socket.sent ++ bytes };
      },
    )

-- (8 - (written % 8)) % 8
abbrev pub padding_of : ℕ → ℕ
padding_of written = (8 - written % 8) % 8

-- The header of one packet of writePacket.
unfoldable pub packet_header : ℕ → ℕ → ℕ → Header
packet_header request_id header_type written = record {
  version = fcgi_version_1;
  type = header_type;
  request_id_b1 = request_id / 2 ^ 8 % 256;
  request_id_b0 = request_id % 256;
  content_length_b1 = written / 2 ^ 8 % 256;
  content_length_b0 = written % 256;
  padding_length = padding_of written;
  reserved = 0;
}

-- bufferSequence: the header, the content and the padding.
unfoldable pub buffer_sequence : ℕ → ℕ → List ℕ → List ℕ
unfolding packet_header
buffer_sequence request_id header_type content =
    header_bytes (packet_header request_id header_type (length content))
    ++ (content ++ replicate (padding_of (length content)) 0)

-- One round of the loop of writePacket, which writes `written` bytes of what is left of the
-- content, content_ + n; `next` is the loop on what is left then.
unfoldable pub write_round :
    (List ℕ → Exec PacketSocket Bool) → ℕ → ℕ → List ℕ → ℕ → Exec PacketSocket Bool
write_round next request_id header_type rest written s =
    let (ec, s') = asio_write (buffer_sequence request_id header_type (take written rest)) s in
    elim ec [
      | true ↦ (ok true, close s')
      | false ↦ elim (length rest == written) [
        | true ↦ (ok false, s')
        | false ↦ next (drop written rest) s'
      ]
    ]

-- The loop of writePacket. The fuel counts rounds.
unfoldable pub write_loop : ℕ → ℕ → ℕ → List ℕ → Exec PacketSocket Bool
write_loop zero request_id header_type rest s = (halted out_of_fuel, s)
write_loop (suc fuel) request_id header_type rest s =
    write_round (write_loop fuel request_id header_type) request_id header_type rest
      (min (length rest) fcgi_max_length) s

-- writePacket: the result is whether ec is set. Each round but the last writes 0xffff bytes, so
-- one round more than the content has bytes is enough.
unfoldable pub write_packet : ℕ → ℕ → ℕ → List ℕ → Exec PacketSocket Bool
write_packet request_id header_type content_length content = do
  assert (λ s. elim s.state [ opened ↦ true | closed ↦ false ])
  write_loop (suc content_length) request_id header_type (take content_length content)

-- The do-while loop of flushProtocolSocket over what read_some still delivers.
unfoldable pub flush_loop : List (List ℕ) → PacketSocket → PacketSocket
flush_loop [] s = record s {
  input_buffer = [];
  protocol_socket = record s.protocol_socket { unread = [] };
}
flush_loop (chunk ∷ unread) s = flush_loop unread (record s { input_buffer = chunk })

-- flushProtocolSocket
unfoldable pub flush_protocol_socket : Exec PacketSocket (Unit {0})
unfolding flush_loop
flush_protocol_socket = do
  assert (λ s. is_closed s.state)
  λ s. (ok tt, flush_loop s.protocol_socket.unread s)
