-- ===== src/Tests.antt =====
-- The data that the tests run on.
pub mod Packets
pub mod Connections
pub mod Acceptors
pub mod Deliveries
pub mod Requests
pub mod Applications
pub mod Runs
pub mod Replies
pub mod Arrivals
pub mod Peers
pub mod Services
pub mod Turns
use santiago_old.Prelude.{ℕ, ◌*◌, Bool, false, List, [], ◌∷◌}
use santiago_old.PacketSocket.{ProtocolSocket, PacketSocket, new_packet_socket}
use santiago_old.PacketSocket.Frames.{Packet}
use santiago_old.RequestData.{RequestData}

-- A socket that reports no error.
abbrev pub quiet_socket : ProtocolSocket
quiet_socket = record {
  write_fails = λ k. false;
  writes = 0;
  sent = [];
  unread = [];
  reads_pending = 0;
  cancelled = false;
  is_shut_down = false;
}

abbrev pub blank_data : RequestData
blank_data = record {
  params_map = [];
  params_buffer = [];
  in_buffer = [];
  out_buffer = [];
  err_buffer = [];
  app_status = 0;
}

abbrev pub memory : ℕ → RequestData
memory p = blank_data

-- FCGI_BEGIN_REQUEST for the request 7: a responder that keeps the connection.
abbrev pub begin_packet : Packet
begin_packet = record {
  request_id = 7;
  type = 1;
  content = 0 ∷ 1 ∷ 1 ∷ 0 ∷ 0 ∷ 0 ∷ 0 ∷ 0 ∷ [];
  padding = [];
  reserved = 0;
}

abbrev pub begin_bytes : List ℕ
begin_bytes = 1 ∷ 1 ∷ 0 ∷ 7 ∷ 0 ∷ 8 ∷ 0 ∷ 0 ∷ 0 ∷ 1 ∷ 1 ∷ 0 ∷ 0 ∷ 0 ∷ 0 ∷ 0 ∷ []

-- FCGI_PARAMS and FCGI_STDIN without content, which end the two streams of the request 7.
abbrev pub end_bytes : List ℕ
end_bytes = 1 ∷ 4 ∷ 0 ∷ 7 ∷ 0 ∷ 0 ∷ 0 ∷ 0 ∷ 1 ∷ 5 ∷ 0 ∷ 7 ∷ 0 ∷ 0 ∷ 0 ∷ 0 ∷ []
