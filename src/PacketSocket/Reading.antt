-- ===== src/PacketSocket/Reading.antt =====
-- Fastcgi/PacketSocket.h: handleRead over a buffer that holds packets.
use santiago_old.Prelude.{
  ℕ, zero, suc, ◌≤◌, ◌<◌, ◌≡◌, sym, ap, ◌∙◌, ◌⊎◌, Bool, true, false, not, List, [], ◌∷◌, ◌++◌,
  append_assoc, arith, subst, none, some, inl, inr, ltb, length, length-append, All,
}
use santiago_old.Exec.{Exec, ok, thrown, halted}
use santiago_old.Protocol.{Header, header_bytes, fcgi_version_1}
use santiago_old.PacketSocket.{PacketSocket, opened, is_closed}
use santiago_old.PacketSocket.Read.{
  Host, read_header, packet_size, consume, handle_packet, after_try, read_round, read_loop,
  after_read, handle_read,
}
use santiago_old.PacketSocket.Frames.{
  Packet, IsPacket, header_of, packet_bytes, packets_bytes, read_header-packet_bytes,
  request_id_of-header_of, packet_size-header_of, content-packet_bytes, drop-packet_size,
  version-header_of, type-header_of,
}

-- What the loop relies on: the owner keeps the socket that it is given, and a callback leaves the
-- input buffer alone.
pub record HostLaws {S : Type 0} (host : Host S) : Type 0 where
  pub socket-with_socket : (s : S) (p : PacketSocket) → host.socket (host.with_socket s p) ≡ p
  pub keeps_input :
      (e : Bool) (i t : ℕ) (b : List ℕ) (s : S)
      → (host.socket (host.new_packet e i t b s).1).input_buffer ≡ (host.socket s).input_buffer

-- The start of a packet that has not arrived whole.
abbrev pub IsPartial : List ℕ → Type 0
IsPartial rest =
    (read_header rest ≡ none)
    ⊎ ((h : Header) × (read_header rest ≡ some h)
        × (h.version ≡ fcgi_version_1)
        × (length rest < packet_size h))

module _ {S : Type 0} (host : Host S) where
  -- Packets handed over one after the other. A packet is taken out of the buffer after its
  -- callback, also if that throws; a callback that returns with the socket closed ends the loop.
  unfoldable pub serve_packets : List Packet → Exec S (Unit {0})
  serve_packets [] s = (ok tt, s)
  serve_packets (p ∷ ps) s =
      let (r, t) = host.new_packet false p.request_id p.type p.content s in
      let u = consume host (packet_size (header_of p)) t in
      elim r [
        | ok _ ↦ elim (is_closed (host.socket u).state) [
          | true ↦ (ok tt, u)
          | false ↦ serve_packets ps u
        ]
        | thrown e ↦ serve_packets ps u
        | halted h ↦ (halted h, t)
      ]

  -- The try block on a whole packet.
  unfoldable pub serve : Packet → Exec S Bool
  serve p s =
      let (r, t) = host.new_packet false p.request_id p.type p.content s in
      elim r [
        | ok _ ↦
            let u = consume host (packet_size (header_of p)) t in
            (ok (not (is_closed (host.socket u).state)), u)
        | thrown e ↦ (thrown e, t)
        | halted h ↦ (halted h, t)
      ]

  handle_packet-serve :
      (p : Packet) (rest : List ℕ) (s : S)
      → IsPacket p
      → (host.socket s).input_buffer ≡ packet_bytes p ++ rest
      → handle_packet host (header_of p) s ≡ serve p s
  unfolding handle_packet serve
  handle_packet-serve p rest s fits e =
      let whole : ltb (length (packet_bytes p ++ rest)) (packet_size (header_of p)) ≡ false =
        rw (packet_size-header_of p rest fits, length-append (packet_bytes p) rest)
          (ground arith) in
      rw
        (
          e,
          request_id_of-header_of p rest fits,
          content-packet_bytes p rest fits,
          version-header_of p rest,
          type-header_of p rest,
          whole,
        )
        (ground arith)

module _ {S : Type 0} (host : Host S) (laws : HostLaws host) where
  consumed :
      (p : Packet) (rest : List ℕ) (s t : S)
      → IsPacket p
      → (host.socket s).input_buffer ≡ packet_bytes p ++ rest
      → (host.socket t).input_buffer ≡ (host.socket s).input_buffer
      → (host.socket (consume host (packet_size (header_of p)) t)).input_buffer ≡ rest
  unfolding consume
  consumed p rest s t fits e same =
      rw (laws.socket-with_socket t _) (rw (same, e) (drop-packet_size p rest fits))

  read_loop-partial :
      (fuel : ℕ) (s : S)
      → IsPartial (host.socket s).input_buffer
      → read_loop host (suc fuel) s ≡ (ok tt, s)
  unfolding read_loop read_round after_try handle_packet
  read_loop-partial fuel s (inl none_yet) = ground arith
  read_loop-partial fuel s (inr (h, whole_header, version_1, short)) = ground arith

  read_loop_step :
      (p : Packet) (ps : List Packet) (fuel : ℕ) (s : S)
      → read_header (host.socket s).input_buffer ≡ some (header_of p)
      → handle_packet host (header_of p) s ≡ serve host p s
      → (let t = (host.new_packet false p.request_id p.type p.content s).1 in
          let u = consume host (packet_size (header_of p)) t in
          read_loop host fuel u ≡ serve_packets host ps u)
      → read_loop host (suc fuel) s ≡ serve_packets host (p ∷ ps) s
  unfolding read_loop read_round after_try serve_packets serve
  read_loop_step p ps fuel s header body rest = ground arith

  read_loop-serve_packets :
      (ps : List Packet) (rest : List ℕ) (fuel : ℕ) (s : S)
      → All IsPacket ps
      → IsPartial rest
      → (host.socket s).input_buffer ≡ packets_bytes ps ++ rest
      → length ps < fuel
      → read_loop host fuel s ≡ serve_packets host ps s
  read_loop-serve_packets ps rest zero s fits partial e h = absurd (omega arith)
  read_loop-serve_packets [] rest (suc fuel) s fits partial e h =
      unfold packets_bytes serve_packets in
      read_loop-partial fuel s (subst IsPartial (sym e) partial)
  read_loop-serve_packets (p ∷ ps) rest (suc fuel) s (fit, fits) partial e h =
      let buffer : (host.socket s).input_buffer ≡ packet_bytes p ++ (packets_bytes ps ++ rest) =
        e ∙ (unfold packets_bytes in append_assoc (packet_bytes p) (packets_bytes ps) rest) in
      let header : read_header (host.socket s).input_buffer ≡ some (header_of p) =
        ap read_header buffer ∙ read_header-packet_bytes p (packets_bytes ps ++ rest) in
      let t = (host.new_packet false p.request_id p.type p.content s).1 in
      let u = consume host (packet_size (header_of p)) t in
      let left : (host.socket u).input_buffer ≡ packets_bytes ps ++ rest =
        consumed p (packets_bytes ps ++ rest) s t fit buffer (laws.keeps_input _ _ _ _ s) in
      read_loop_step p ps fuel s header
        (handle_packet-serve host p (packets_bytes ps ++ rest) s fit buffer)
        (read_loop-serve_packets ps rest fuel u fits partial left (omega arith))

  length-packets_bytes : (ps : List Packet) → length ps ≤ length (packets_bytes ps)
  unfolding packets_bytes packet_bytes header_bytes
  length-packets_bytes [] = omega arith
  length-packets_bytes (p ∷ ps) =
      omega (arith, length-packets_bytes ps, length-append (packet_bytes p) (packets_bytes ps))

  -- When a read has filled the buffer of an open socket up to packets ps and the start of another,
  -- however the bytes were cut into reads, handleRead hands ps over in order, and takes each out of
  -- the buffer after its callback, also after one that throws; it ends before the last only after a
  -- callback that returns with the socket closed or that stops the process.
  pub handle_read-serve_packets :
      (ps : List Packet) (rest received : List ℕ) (s : S)
      → All IsPacket ps
      → IsPartial rest
      → (host.socket s).state ≡ opened
      → (host.socket s).input_buffer ++ received ≡ packets_bytes ps ++ rest
      → handle_read host false received s ≡ serve_packets host ps (after_read host received s)
  unfolding handle_read
  handle_read-serve_packets ps rest received s fits partial is_open e =
      let t = after_read host received s in
      let still_open : (host.socket t).state ≡ opened =
        unfold after_read in rw (laws.socket-with_socket s _, is_open) in
      let buffer : (host.socket t).input_buffer ≡ packets_bytes ps ++ rest =
        unfold after_read in rw (laws.socket-with_socket s _, e) in
      let enough : length ps < suc (length (host.socket t).input_buffer) =
        rw buffer (omega (arith, length-append (packets_bytes ps) rest, length-packets_bytes ps)) in
      rw still_open (
        read_loop-serve_packets ps rest (suc (length (host.socket t).input_buffer)) t fits partial
          buffer enough)
