-- ===== src/PacketSocket/Peer.antt =====
-- Fastcgi/PacketSocket.h: a peer that reads with a packet socket of its own and records what it is
-- handed.
use santiago_old.Prelude.{
  ℕ, ◌≡◌, ◌∙◌, refl, sym, inl, false, List, [], ◌∷◌, ◌++◌, append-nil, append_assoc, arith, All,
  map,
}
use santiago_old.Exec.{Outcome, ok}
use santiago_old.PacketSocket.{PacketSocket, opened}
use santiago_old.PacketSocket.Read.{Host, consume, packet_size, after_read, handle_read}
use santiago_old.PacketSocket.Frames.{Packet, IsPacket, header_of, packets_bytes}
use santiago_old.PacketSocket.Reading.{HostLaws, serve_packets, handle_read-serve_packets}

-- What newPacketCallbackFn is given for a packet.
pub record Frame : Type 0 where
  pub request_id : ℕ
  pub type : ℕ
  pub content : List ℕ

pub record Peer : Type 0 where
  pub socket : PacketSocket
  pub received : List Frame

abbrev pub frame_of : Packet → Frame
frame_of p = record { request_id = p.request_id; type = p.type; content = p.content }

abbrev pub recorder : Host Peer
recorder = record {
  socket = λ s. s.socket;
  with_socket = λ s p. record s { socket = p };
  new_packet = λ e i t b s. (
    ok tt,
    record s { received = s.received ++ (record { request_id = i; type = t; content = b } ∷ []) },
  );
}

recorder_laws : HostLaws recorder
recorder_laws = record { socket-with_socket = λ s p. refl; keeps_input = λ e i t b s. refl }

-- A peer that was handed frames after those that it has.
pub record Takes (frames : List Frame) (s : Peer) (r : Outcome (Unit {0}) × Peer) : Type 0 where
  pub returns : r.0 ≡ ok tt
  pub takes : r.1.received ≡ s.received ++ frames

serve_packets_step :
    (p : Packet) (ps : List Packet) (s t : Peer)
    → s.socket.state ≡ opened
    → consume recorder
        (packet_size (header_of p))
        (record s { received = s.received ++ (frame_of p ∷ []) })
      ≡ t
    → t.socket.state ≡ opened
    → serve_packets recorder (p ∷ ps) s ≡ serve_packets recorder ps t
unfolding serve_packets
serve_packets_step p ps s t h e h' = ground (arith, e, h')

serve_packets-Takes :
    (ps : List Packet) (s : Peer)
    → s.socket.state ≡ opened
    → Takes (map frame_of ps) s (serve_packets recorder ps s)
unfolding serve_packets consume
serve_packets-Takes [] s h = record { returns = refl; takes = sym (append-nil s.received) }
serve_packets-Takes (p ∷ ps) s h =
    let t =
      consume recorder (packet_size (header_of p))
        (record s { received = s.received ++ (frame_of p ∷ []) }) in
    let rest = serve_packets-Takes ps t h in
    rw (serve_packets_step p ps s t h refl h) (record {
      returns = rest.returns;
      takes = rest.takes ∙ append_assoc s.received (frame_of p ∷ []) (map frame_of ps);
    })

-- Packets in one read on an empty buffer.
pub handle_read-Takes :
    (ps : List Packet) (s : Peer)
    → All IsPacket ps
    → s.socket.state ≡ opened
    → s.socket.input_buffer ≡ []
    → Takes (map frame_of ps) s (handle_read recorder false (packets_bytes ps) s)
handle_read-Takes ps s fits is_open empty =
    let run =
      handle_read-serve_packets recorder recorder_laws ps [] (packets_bytes ps) s fits
        (inl (unfold santiago_old.PacketSocket.Read.read_header in refl)) is_open
        (rw (empty, append-nil (packets_bytes ps)) refl) in
    let v =
      serve_packets-Takes ps (after_read recorder (packets_bytes ps) s)
        (unfold after_read in is_open) in
    rw run (record { returns = v.returns; takes = v.takes ∙ (unfold after_read in refl) })
