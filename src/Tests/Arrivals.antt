-- ===== src/Tests/Arrivals.antt =====
-- A request that a read brings: params in one packet, and input in one packet.
use santiago_old.Prelude.{ℕ, ◌≡◌, refl, inl, inr, false, none, List, [], ◌∷◌, ◌++◌, arith, All}
use santiago_old.OrderedMap.{find}
use santiago_old.PacketSocket
use santiago_old.PacketSocket.{new_packet_socket}
use santiago_old.PacketSocket.Read.{read_header, handle_read}
use santiago_old.PacketSocket.Frames.{Packet, IsPacket, packets_bytes}
use santiago_old.ConnectionData.{new_connection_data}
use santiago_old.ConnectionData.Addresses.{new-IsAddressed}
use santiago_old.Connection.{Connection, new_connection, host}
use santiago_old.Connection.Feeds.{ops_of}
use santiago_old.Connection.Arrived.{RequestPackets, IsRequest, sent, Arrives, request-Arrives}
use santiago_old.Tests.{quiet_socket, memory, begin_packet}

abbrev pub packet : ℕ → List ℕ → Packet
packet type content = record {
  request_id = 7;
  type = type;
  content = content;
  padding = 0 ∷ [];
  reserved = 0;
}

-- A=B in the params, and "hi" in the input.
abbrev pub posted : RequestPackets
posted = record {
  begin = begin_packet;
  chunks = packet 4 (1 ∷ 1 ∷ 65 ∷ 66 ∷ []) ∷ packet 5 (104 ∷ 105 ∷ []) ∷ [];
  params_end = packet 4 [];
  input_end = packet 5 [];
}

abbrev pub idle : Connection
idle = new_connection quiet_socket memory

pub idle_opened : idle.packet_socket.state ≡ PacketSocket.opened
unfolding new_connection new_packet_socket
idle_opened = refl

pub idle_empty :
    idle.packet_socket.input_buffer ++ packets_bytes (sent posted)
    ≡ packets_bytes (sent posted) ++ []
unfolding new_connection new_packet_socket packets_bytes PacketSocket.Frames.packet_bytes
    santiago_old.Protocol.header_bytes PacketSocket.Frames.header_of
idle_empty = refl

pub posted-IsRequest : IsRequest 7 posted
posted-IsRequest = record {
  begins_it = record {
    own = refl;
    type = refl;
    flags = 1;
    more = _;
    body = refl;
    whole = omega arith;
  };
  feeds = (
    record { chunk = record { own = refl; stream = inl refl }; filled = omega arith },
    (record { chunk = record { own = refl; stream = inr refl }; filled = omega arith }, tt),
  );
  ends_params = record { own = refl; stream = refl; empty = refl };
  ends_input = record { own = refl; stream = refl; empty = refl };
}

pub small-IsPacket : All IsPacket (sent posted)
small-IsPacket = (
  record { id_fits = omega arith; content_fits = omega arith },
  (
    record { id_fits = omega arith; content_fits = omega arith },
    (
      record { id_fits = omega arith; content_fits = omega arith },
      (
        record { id_fits = omega arith; content_fits = omega arith },
        (record { id_fits = omega arith; content_fits = omega arith }, tt),
      ),
    ),
  ),
)

pub none_left : read_header [] ≡ none
unfolding read_header
none_left = refl

request-Arrives_example :
    Arrives 7
      (ops_of posted.chunks)
      idle
      (handle_read host false (packets_bytes (sent posted)) idle)
unfolding new_connection new_connection_data find
request-Arrives_example =
    request-Arrives 7 posted [] (packets_bytes (sent posted)) idle posted-IsRequest small-IsPacket
      (inl none_left) idle_opened idle_empty refl (new-IsAddressed memory) refl
