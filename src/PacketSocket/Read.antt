-- ===== src/PacketSocket/Read.antt =====
-- Fastcgi/PacketSocket.h: handleRead, over the object that owns the packet socket.
use santiago_old.Prelude.{
  ℕ, zero, suc, ◌+◌, ◌-◌, ◌*◌, Bool, true, false, not, Option, none, some, List, [], ◌∷◌, ◌++◌, ltb,
  ◌==◌, if◌then◌else◌, length, take, drop,
}
use santiago_old.Exec.{
  Exec, Outcome, ok, thrown, halted, out_of_fuel, unsupported_version, modify, ◌>>◌,
}
use santiago_old.Protocol.{Header, fcgi_version_1, fcgi_header_len}
use santiago_old.PacketSocket.{PacketSocket, is_closed, close}

-- The owner of a packet socket: where it keeps the socket, and its newPacketCallbackFn with the
-- error flag, the request id, the header type and the content.
pub record Host (S : Type 0) : Type 0 where
  pub socket : S → PacketSocket
  pub with_socket : S → PacketSocket → S
  pub new_packet : Bool → ℕ → ℕ → List ℕ → Exec S (Unit {0})

-- The header that the first bytes are read as; none if there are fewer than FCGI_HEADER_LEN.
unfoldable pub read_header : List ℕ → Option Header
read_header (v ∷ t ∷ r1 ∷ r0 ∷ c1 ∷ c0 ∷ p ∷ x ∷ rest) = some (record {
  version = v;
  type = t;
  request_id_b1 = r1;
  request_id_b0 = r0;
  content_length_b1 = c1;
  content_length_b0 = c0;
  padding_length = p;
  reserved = x;
})
read_header _ = none

abbrev pub request_id_of : Header → ℕ
request_id_of h = h.request_id_b1 * 256 + h.request_id_b0

abbrev pub content_length_of : Header → ℕ
content_length_of h = h.content_length_b1 * 256 + h.content_length_b0

-- FCGI_HEADER_LEN + contentLength + header.paddingLength
abbrev pub packet_size : Header → ℕ
packet_size h = fcgi_header_len + content_length_of h + h.padding_length

module _ {S : Type 0} (host : Host S) where
  -- _inputBuffer.consume(k), which stops at the end of the buffer
  unfoldable pub consume : ℕ → S → S
  consume k s =
      let p = host.socket s in
      host.with_socket s (record p { input_buffer = drop k p.input_buffer })

  -- The try block: whether the loop goes on.
  unfoldable pub handle_packet : Header → Exec S Bool
  handle_packet h s =
      let buffer = (host.socket s).input_buffer in
      if h.version == fcgi_version_1
      then if ltb (length buffer) (packet_size h)
        then (ok false, s)
        else (do
          host.new_packet false (request_id_of h) h.type
              (take (content_length_of h) (drop fcgi_header_len buffer))
          modify (consume (packet_size h))
          (λ t. (ok (not (is_closed (host.socket t).state)), t)))
            s
      else (thrown unsupported_version, s)

  -- What follows the try block: the next round, the end of the loop, or the catch, which takes the
  -- packet out of the buffer and goes on.
  unfoldable pub after_try : Exec S (Unit {0}) → Header → Outcome Bool → Exec S (Unit {0})
  after_try next h (ok true) t = next t
  after_try next h (ok false) t = (ok tt, t)
  after_try next h (thrown e) t = next (consume (packet_size h) t)
  after_try next h (halted x) t = (halted x, t)

  -- One round of the while loop, where the buffer holds a header.
  unfoldable pub read_round : Exec S (Unit {0}) → Option Header → Exec S (Unit {0})
  read_round next none s = (ok tt, s)
  read_round next (some h) s = let (r, t) = handle_packet h s in after_try next h r t

  -- The while loop. The fuel counts rounds.
  unfoldable pub read_loop : ℕ → Exec S (Unit {0})
  read_loop zero s = (halted out_of_fuel, s)
  read_loop (suc fuel) s = read_round (read_loop fuel) (read_header (host.socket s).input_buffer) s

  -- The finished async_read_some: its bytes are committed behind the buffer.
  unfoldable pub after_read : List ℕ → S → S
  after_read received s =
      let p = host.socket s in
      host.with_socket s (record p {
        input_buffer = p.input_buffer ++ received;
        protocol_socket = record p.protocol_socket {
          reads_pending = p.protocol_socket.reads_pending - 1;
        };
      })

  -- handleRead. Each round of the loop takes a header at least, so one round for each byte and one
  -- more are enough. It does not start another read.
  unfoldable pub handle_read : Bool → List ℕ → Exec S (Unit {0})
  handle_read error received s =
      let t = after_read received s in
      let p = host.socket t in
      if is_closed p.state
      then (ok tt, t)
      else if error
      then host.new_packet true 0 0 [] (host.with_socket t (close p))
      else read_loop (suc (length p.input_buffer)) t
