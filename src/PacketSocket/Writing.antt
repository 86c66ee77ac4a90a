-- ===== src/PacketSocket/Writing.antt =====
-- Fastcgi/PacketSocket.h: the loop of writePacket, and the pieces of a content.
use santiago_old.Prelude.{
  ℕ, zero, suc, ◌≤◌, ◌<◌, ◌≡◌, refl, Bool, true, false, List, [], ◌∷◌, ◌++◌, append-nil, arith, leb,
  leb→le, min, if◌then◌else◌, length, length-take, length-drop, take, drop, take-append-drop,
  take_all, All, Bool-cases, inl, inr,
}
use santiago_old.Exec.{Exec, Outcome, ok}
use santiago_old.Protocol.{fcgi_max_length}
use santiago_old.PacketSocket.{
  PacketSocket, opened, asio_write, buffer_sequence, write_round, write_loop, write_packet, close,
}

-- The contents of the packets that carry a content: full ones, and one for what is left over.
unfoldable pub pieces : ℕ → List ℕ → List (List ℕ)
pieces zero content = content ∷ []
pieces (suc fuel) content =
    let rest = pieces fuel (drop fcgi_max_length content) in
    if leb (length content) fcgi_max_length
    then content ∷ []
    else take fcgi_max_length content ∷ rest

abbrev pub pieces_of : List ℕ → List (List ℕ)
pieces_of content = pieces (length content) content

unfoldable pub joined : List (List ℕ) → List ℕ
joined [] = []
joined (piece ∷ rest) = piece ++ joined rest

joined-pieces_fuel : (fuel : ℕ) (content : List ℕ) → joined (pieces fuel content) ≡ content
unfolding pieces joined
joined-pieces_fuel zero content = append-nil content
joined-pieces_fuel (suc fuel) content = elim (Bool-cases (leb (length content) fcgi_max_length)) [
  | inl short ↦ rw (short, append-nil)
  | inr long ↦ rw long (
      rw (joined-pieces_fuel fuel (drop fcgi_max_length content))
        (take-append-drop fcgi_max_length content))
]

pub joined-pieces_of : (content : List ℕ) → joined (pieces_of content) ≡ content
joined-pieces_of content = joined-pieces_fuel (length content) content

abbrev pub FitsPacket : List ℕ → Type 0
FitsPacket piece = length piece ≤ fcgi_max_length

leb-false→lt : (a b : ℕ) → leb a b ≡ false → b < a
leb-false→lt a b h = ground arith

pieces-FitsPacket :
    (fuel : ℕ) (content : List ℕ) → length content ≤ fuel → All FitsPacket (pieces fuel content)
unfolding pieces
pieces-FitsPacket zero content h = omega arith
pieces-FitsPacket (suc fuel) content h = elim (Bool-cases (leb (length content) fcgi_max_length)) [
  | inl short ↦ rw short (leb→le _ _ short, tt)
  | inr long ↦ rw long (
    omega (arith, length-take fcgi_max_length content),
    pieces-FitsPacket fuel (drop fcgi_max_length content)
        (omega (arith, length-drop fcgi_max_length content)),
  )
]

pub pieces_of-FitsPacket : (content : List ℕ) → All FitsPacket (pieces_of content)
pieces_of-FitsPacket content = pieces-FitsPacket (length content) content (omega arith)

abbrev pub IsFilled : List ℕ → Type 0
IsFilled piece = 0 < length piece

pieces-IsFilled :
    (fuel : ℕ) (content : List ℕ) → IsFilled content → All IsFilled (pieces fuel content)
unfolding pieces
pieces-IsFilled zero content h = (h, tt)
pieces-IsFilled (suc fuel) content h = elim (Bool-cases (leb (length content) fcgi_max_length)) [
  | inl short ↦ rw short (h, tt)
  | inr long ↦
      let more = leb-false→lt (length content) fcgi_max_length long in
      rw long (
        omega (arith, length-take fcgi_max_length content),
        pieces-IsFilled fuel (drop fcgi_max_length content)
            (omega (arith, length-drop fcgi_max_length content)),
      )
]

pub pieces_of-IsFilled : (content : List ℕ) → IsFilled content → All IsFilled (pieces_of content)
pieces_of-IsFilled content = pieces-IsFilled (length content) content

-- One packet after the other until a write fails, which closes the socket.
unfoldable pub put_packets : ℕ → ℕ → List (List ℕ) → PacketSocket → Bool × PacketSocket
put_packets request_id type [] s = (false, s)
put_packets request_id type (piece ∷ rest) s =
    let (ec, s') = asio_write (buffer_sequence request_id type piece) s in
    elim ec [ true ↦ (true, close s') | false ↦ put_packets request_id type rest s' ]

abbrev pub finished : Bool × PacketSocket → Outcome Bool × PacketSocket
finished r = (ok r.0, r.1)

abbrev Next : Type 0
Next = List ℕ → Exec PacketSocket Bool

module _ (next : Next) (request_id type : ℕ) (content : List ℕ) where
  round_last :
      (s : PacketSocket)
      → write_round next request_id type content (length content) s
        ≡ finished (put_packets request_id type (content ∷ []) s)
  unfolding write_round put_packets
  round_last s = ground (arith, take_all (length content) content (omega arith))

  module _ (piece : List ℕ) (written : ℕ) where
    -- A round that does not reach the end of the content.
    round_more :
        (s : PacketSocket) (pieces' : List (List ℕ))
        → take written content ≡ piece
        → written < length content
        → ((t : PacketSocket)
            → next (drop written content) t ≡ finished (put_packets request_id type pieces' t))
        → write_round next request_id type content written s
          ≡ finished (put_packets request_id type (piece ∷ pieces') s)
    unfolding write_round put_packets
    round_more s pieces' cut short more =
        ground (arith, cut, more (asio_write (buffer_sequence request_id type piece) s).1)

pub write_loop-put_packets :
    (fuel request_id type : ℕ) (content : List ℕ) (s : PacketSocket)
    → length content ≤ fuel
    → write_loop (suc fuel) request_id type content s
      ≡ finished (put_packets request_id type (pieces fuel content) s)
unfolding write_loop pieces
write_loop-put_packets zero request_id type content s h =
    let all_of : min (length content) fcgi_max_length ≡ length content = omega arith in
    rw all_of (round_last _ request_id type content s)
write_loop-put_packets (suc fuel) request_id type content s h =
    elim (Bool-cases (leb (length content) fcgi_max_length)) [
      | inl short ↦
          let fits = leb→le _ _ short in
          let all_of : min (length content) fcgi_max_length ≡ length content = omega arith in
          rw (short, all_of) (round_last _ request_id type content s)
      | inr long ↦
          let more = leb-false→lt (length content) fcgi_max_length long in
          let full : min (length content) fcgi_max_length ≡ fcgi_max_length = omega arith in
          let rest = drop fcgi_max_length content in
          let left : length rest ≤ fuel = omega (arith, length-drop fcgi_max_length content) in
          rw (long, full)
            (round_more _ request_id type content (take fcgi_max_length content) fcgi_max_length s
              (pieces fuel rest) refl more
              (λ t. write_loop-put_packets fuel request_id type rest t left))
    ]

write_packet_open :
    (request_id type : ℕ) (content : List ℕ) (s : PacketSocket)
    → s.state ≡ opened
    → write_packet request_id type (length content) content s
      ≡ finished (put_packets request_id type (pieces_of content) s)
unfolding write_packet
write_packet_open request_id type content s h =
    let whole = take_all (length content) content (omega arith) in
    let run = write_loop-put_packets (length content) request_id type content s (omega arith) in
    ground (arith, whole, run)

-- On an open socket writePacket comes back, and writes the content cut into packets one after the
-- other until a write fails. Joined, the packets' contents are the content; each fits a header; and
-- none of them is empty, which would end a stream, unless the content itself is.
pub write_packet_cuts :
    (request_id type : ℕ) (content : List ℕ) (s : PacketSocket)
    → s.state ≡ opened
    → (write_packet request_id type (length content) content s ≡ (
      ok (put_packets request_id type (pieces_of content) s).0,
      (put_packets request_id type (pieces_of content) s).1,
    ))
      × (joined (pieces_of content) ≡ content)
      × All FitsPacket (pieces_of content)
      × (0 < length content → All IsFilled (pieces_of content))
write_packet_cuts request_id type content s h = (
  write_packet_open request_id type content s h,
  joined-pieces_of content,
  pieces_of-FitsPacket content,
  pieces_of-IsFilled content,
)
