-- ===== src/PacketSocket/Wire.antt =====
-- Fastcgi/PacketSocket.h: writePacket on a socket that reports no error.
use santiago_old.Prelude.{
  ℕ, suc, ◌+◌, ◌≡◌, ◌∙◌, ap, false, List, [], ◌∷◌, ◌++◌, append-nil, append_assoc, map, arith,
  length, All,
}
use santiago_old.Exec.{ok}
use santiago_old.PacketSocket.{PacketSocket, opened, asio_write, buffer_sequence, write_packet}
use santiago_old.PacketSocket.Frames.{
  Packet, IsPacket, packet_bytes, packets_bytes, written_packet, buffer_sequence-packet_bytes,
  written_packet-IsPacket,
}
use santiago_old.PacketSocket.Writing.{
  finished, pieces_of, put_packets, write_packet_cuts, FitsPacket, pieces_of-FitsPacket,
}

abbrev pub IsReliable : PacketSocket → Type 0
IsReliable s = (k : ℕ) → s.protocol_socket.write_fails k ≡ false

-- After some writes that sent these bytes.
abbrev pub wrote : ℕ → List ℕ → PacketSocket → PacketSocket
wrote n bytes s = record s {
  protocol_socket = record s.protocol_socket {
    writes = s.protocol_socket.writes + n;
    sent = s.protocol_socket.sent ++ bytes;
  };
}

-- The packets that carry a content.
unfoldable pub packets_of : ℕ → ℕ → List ℕ → List Packet
packets_of request_id type content = map (written_packet request_id type) (pieces_of content)

wrote-wrote :
    (m n : ℕ) (xs ys : List ℕ) (s : PacketSocket)
    → wrote n ys (wrote m xs s) ≡ wrote (m + n) (xs ++ ys) s
wrote-wrote m n xs ys s =
    let writes : s.protocol_socket.writes + m + n ≡ s.protocol_socket.writes + (m + n) =
      omega arith in
    rw (writes, append_assoc s.protocol_socket.sent xs ys)

wrote-nothing : (s : PacketSocket) → wrote 0 [] s ≡ s
wrote-nothing s =
    let writes : s.protocol_socket.writes + 0 ≡ s.protocol_socket.writes = omega arith in
    rw (writes, append-nil s.protocol_socket.sent)

asio_write-wrote :
    (bytes : List ℕ) (s : PacketSocket)
    → IsReliable s
    → asio_write bytes s ≡ (false, wrote 1 bytes s)
unfolding asio_write
asio_write-wrote bytes s h =
    let writes : s.protocol_socket.writes + 1 ≡ suc s.protocol_socket.writes = omega arith in
    rw (h s.protocol_socket.writes, writes)

put_packets_step :
    (request_id type : ℕ) (p : List ℕ) (ps : List (List ℕ)) (s t : PacketSocket)
    → asio_write (buffer_sequence request_id type p) s ≡ (false, t)
    → put_packets request_id type (p ∷ ps) s ≡ put_packets request_id type ps t
unfolding put_packets
put_packets_step request_id type p ps s t h = ground (arith, h)

put_packets-wrote :
    (request_id type : ℕ) (ps : List (List ℕ)) (s : PacketSocket)
    → IsReliable s
    → put_packets request_id type ps s
      ≡ (false, wrote (length ps) (packets_bytes (map (written_packet request_id type) ps)) s)
unfolding put_packets packets_bytes
put_packets-wrote request_id type [] s h = rw (wrote-nothing s)
put_packets-wrote request_id type (p ∷ ps) s h =
    let bytes = packet_bytes (written_packet request_id type p) in
    let tail = packets_bytes (map (written_packet request_id type) ps) in
    let n : 1 + length ps ≡ suc (length ps) = omega arith in
    let first : asio_write (buffer_sequence request_id type p) s ≡ (false, wrote 1 bytes s) =
      rw (buffer_sequence-packet_bytes request_id type p) (asio_write-wrote bytes s h) in
    put_packets_step request_id type p ps s (wrote 1 bytes s) first
    ∙ put_packets-wrote request_id type ps (wrote 1 bytes s) h
    ∙ rw (wrote-wrote 1 (length ps) bytes tail s, n)

-- writePacket writes the packets of its content.
pub write_packet-wrote :
    (request_id type : ℕ) (content : List ℕ) (s : PacketSocket)
    → s.state ≡ opened
    → IsReliable s
    → write_packet request_id type (length content) content s ≡ (
      ok false,
      wrote (length (pieces_of content)) (packets_bytes (packets_of request_id type content)) s,
    )
unfolding packets_of
write_packet-wrote request_id type content s h reliable =
    (write_packet_cuts request_id type content s h).0
    ∙ ap finished (put_packets-wrote request_id type (pieces_of content) s reliable)

packets-IsPacket :
    (request_id type : ℕ) (ps : List (List ℕ))
    → All FitsPacket ps
    → All IsPacket (map (written_packet request_id type) ps)
packets-IsPacket request_id type [] h = tt
packets-IsPacket request_id type (p ∷ ps) (h, hs) =
    (written_packet-IsPacket request_id type p h, packets-IsPacket request_id type ps hs)

pub packets_of-IsPacket :
    (request_id type : ℕ) (content : List ℕ) → All IsPacket (packets_of request_id type content)
unfolding packets_of
packets_of-IsPacket request_id type content =
    packets-IsPacket request_id type (pieces_of content) (pieces_of-FitsPacket content)
