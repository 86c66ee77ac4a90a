-- ===== src/RecordSocket/Reply.antt =====
-- Fastcgi/RecordSocket.h: sendReply, on an open and on a closed socket.
use santiago_old.Prelude.{
  Extends-refl, Extends-trans, ℕ, ◌≡◌, ◌∙◌, ◌⊎◌, inl, inr, refl, List, [], Bool, true, false,
  Bool-cases, arith, length, ◌==◌, if◌then◌else◌, ◌%◌, ◌^◌,
}
use santiago_old.Exec.{Exec, Outcome, ok, halted, assertion_failed, continue}
use santiago_old.PacketSocket
use santiago_old.PacketSocket.{PacketSocket}
use santiago_old.PacketSocket.Effects.{
  write_packet-cases, write_packet-closed, state_after, SocketState-cases, SameInput, Grows,
}
use santiago_old.RequestData.{RequestData}
use santiago_old.RecordSocket.{Replying, send_then, send_end, send_err, send_reply}

-- On a closed socket the first assertion fails and nothing is changed. On an open one a part of
-- sendReply returns.
abbrev pub Replies : Replying → Outcome Bool × Replying → Type 0
Replies s r =
    ((s.packet_socket.state ≡ PacketSocket.closed) × (r ≡ (halted assertion_failed, s)))
    ⊎ ((ec : Bool) × (t : Replying) × (r ≡ (ok ec, t))
        × (s.packet_socket.state ≡ PacketSocket.opened)
        × (t.packet_socket.state ≡ state_after ec)
        × SameInput s.packet_socket t.packet_socket)

SameInput-trans : {p q r : PacketSocket} → SameInput p q → SameInput q r → SameInput p r
SameInput-trans a b = record {
  buffer = b.buffer ∙ a.buffer;
  reads = b.reads ∙ a.reads;
  faults = b.faults ∙ a.faults;
  waits = Extends-trans a.waits b.waits;
}

-- What starts on an open socket where another action stopped goes on from that action's start.
opened_again :
    (s t : Replying) (r : Outcome Bool × Replying)
    → s.packet_socket.state ≡ PacketSocket.opened
    → t.packet_socket.state ≡ PacketSocket.opened
    → SameInput s.packet_socket t.packet_socket
    → Replies t r
    → Replies s r
opened_again s t r es et same (inl (e, _)) = absurd (ground (arith, et, e))
opened_again s t r es et same (inr (ec, u, run, _, st, same')) =
    inr (ec, u, run, es, st, SameInput-trans same same')

SameInput-refl : (p : PacketSocket) → SameInput p p
SameInput-refl p = record {
  buffer = refl;
  reads = refl;
  faults = refl;
  waits = Extends-refl p.connection_strand;
}

-- The same from a state whose request data differ.
with_request-Replies :
    (t : Replying) (d : RequestData) (r : Outcome Bool × Replying)
    → t.packet_socket.state ≡ PacketSocket.opened
    → Replies (record t { request = d }) r
    → Replies t r
with_request-Replies t d r e =
    opened_again t (record t { request = d }) r e e (SameInput-refl t.packet_socket)

-- What follows a write without an error starts on an open socket.
module _ (rest : Exec Replying Bool)
    (rest-Replies : (t : Replying)
      → t.packet_socket.state ≡ PacketSocket.opened
      → Replies t (rest t)) where
  after_write :
      (s t : Replying) (ec : Bool)
      → s.packet_socket.state ≡ PacketSocket.opened
      → t.packet_socket.state ≡ state_after ec
      → SameInput s.packet_socket t.packet_socket
      → Replies s (continue (ok ec) (λ b. if b then (λ u. (ok true, u)) else rest) t)
  after_write s t true es st same = inr (true, t, refl, es, st, same)
  after_write s t false es st same = opened_again s t _ es st same (rest-Replies t st)

  send_then-Replies :
      (i ty : ℕ) (content : List ℕ) (s : Replying) → Replies s (send_then i ty content rest s)
  unfolding send_then
  send_then-Replies i ty content s = elim (SocketState-cases s.packet_socket.state) [
    | inr e ↦
        rw (write_packet-closed i ty (length content % 2 ^ 32) content s.packet_socket e)
          (inl (e, refl))
    | inl e ↦
        let (ec, p, run, st, same) =
          write_packet-cases i ty (length content % 2 ^ 32) content s.packet_socket e in
        rw run (after_write s (record s { packet_socket = p }) ec e st same)
  ]

nothing-Replies :
    (t : Replying) → t.packet_socket.state ≡ PacketSocket.opened → Replies t (ok false, t)
nothing-Replies t e = inr (false, t, refl, e, e, SameInput-refl t.packet_socket)

send_end-Replies : (i : ℕ) (s : Replying) → Replies s (send_end i s)
unfolding send_end
send_end-Replies i s =
    send_then-Replies _
      (λ t _. send_then-Replies _ (λ u _. send_then-Replies _ nothing-Replies i _ _ u) i _ _ t) i _
      _ s

-- Emptying a buffer before the rest leaves the socket as it was.
send_err-Replies : (i : ℕ) (s : Replying) → Replies s (send_err i s)
unfolding send_err
send_err-Replies i s = elim (Bool-cases (length s.request.err_buffer == 0)) [
  | inl e ↦ rw e (send_end-Replies i s)
  | inr e ↦ rw e (
      send_then-Replies _
        (λ t st.
          with_request-Replies t (record t.request { err_buffer = [] }) _ st (send_end-Replies i _))
        i _ _ s)
]

-- sendReply returns on every open socket, which stays open exactly if ec is not set; on a closed
-- one it stops at the assertion of writePacket.
pub send_reply-Replies : (i : ℕ) (s : Replying) → Replies s (send_reply i s)
unfolding send_reply
send_reply-Replies i s = elim (Bool-cases (length s.request.out_buffer == 0)) [
  | inl e ↦ rw e (send_err-Replies i s)
  | inr e ↦ rw e (
      send_then-Replies _
        (λ t st.
          with_request-Replies t (record t.request { out_buffer = [] }) _ st (send_err-Replies i _))
        i _ _ s)
]

-- sendReply keeps the tasks that wait in the strand.
pub send_reply-Grows :
    (i : ℕ) (s : Replying) → Grows s.packet_socket (send_reply i s).1.packet_socket
send_reply-Grows i s = elim (send_reply-Replies i s) [
  | inl (_, run) ↦ rw run (Extends-refl s.packet_socket.connection_strand)
  | inr (ec, t, run, _, _, same) ↦ rw run same.waits
]
