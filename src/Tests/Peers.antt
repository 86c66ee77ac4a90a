-- ===== src/Tests/Peers.antt =====
-- A reply that a peer reads back.
use santiago_old.Prelude.{ℕ, ◌≡◌, refl, false, [], ◌∷◌, arith}
use santiago_old.Exec.{ok}
use santiago_old.PacketSocket.{PacketSocket, opened, new_packet_socket}
use santiago_old.PacketSocket.Read.{handle_read}
use santiago_old.PacketSocket.Peer.{Peer, recorder}
use santiago_old.RecordSocket.{Replying, send_reply}
use santiago_old.RecordSocket.Received.{IsReply, newly_sent, send_reply_read_back}
use santiago_old.Tests.{quiet_socket, blank_data}

abbrev pub new_socket : PacketSocket
new_socket = new_packet_socket quiet_socket

-- The output "hi", the error text "!", and the status 5.
abbrev greeting : Replying
greeting = record {
  packet_socket = new_socket;
  request = record blank_data { out_buffer = 104 ∷ 105 ∷ []; err_buffer = 33 ∷ []; app_status = 5 };
}

abbrev pub listener : Peer
listener = record { socket = new_socket; received = [] }

new_socket_opened : new_socket.state ≡ opened
unfolding new_packet_socket
new_socket_opened = refl

new_socket_reliable : (k : ℕ) → new_socket.protocol_socket.write_fails k ≡ false
unfolding new_packet_socket
new_socket_reliable k = refl

new_socket_empty : new_socket.input_buffer ≡ []
unfolding new_packet_socket
new_socket_empty = refl

send_reply_read_back_example :
    let r = handle_read recorder false (newly_sent greeting (send_reply 7 greeting).1) listener in
    (r.0 ≡ ok tt) × IsReply 7 greeting.request r.1.received
send_reply_read_back_example =
    send_reply_read_back 7 greeting listener new_socket_opened new_socket_reliable (omega arith)
      (omega arith) new_socket_opened new_socket_empty refl
