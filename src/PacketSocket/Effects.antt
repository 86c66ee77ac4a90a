-- ===== src/PacketSocket/Effects.antt =====
-- Fastcgi/PacketSocket.h: the packet socket before and after writePacket.
use santiago_old.Prelude.{
  subst, ℕ, ◌≡◌, refl, Bool, true, false, List, [], ◌∷◌, arith, length-take, take, Extends,
  Extends-refl, Extends-append, Bool-cases, ◌⊎◌, inl, inr,
}
use santiago_old.Exec.{ok, halted, assertion_failed}
use santiago_old.Strand.{flush_protocol_socket_task}
use santiago_old.PacketSocket.{
  PacketSocket, is_closed, SocketState, opened, closed, asio_write, buffer_sequence, write_packet,
  close,
}
use santiago_old.PacketSocket.Writing.{pieces, put_packets, write_loop-put_packets}

abbrev pub state_after : Bool → SocketState
state_after true = closed
state_after false = opened

pub record SameInput (s t : PacketSocket) : Type 0 where
  pub buffer : t.input_buffer ≡ s.input_buffer
  pub reads : t.protocol_socket.reads_pending ≡ s.protocol_socket.reads_pending
  pub faults : t.protocol_socket.write_fails ≡ s.protocol_socket.write_fails
  pub waits : Extends s.connection_strand t.connection_strand

pub close-Extends : (s : PacketSocket) → Extends s.connection_strand (close s).connection_strand
unfolding close
close-Extends s = elim (Bool-cases (is_closed s.state)) [
  | inl e ↦ rw e (Extends-refl s.connection_strand)
  | inr e ↦ rw e (Extends-append s.connection_strand (flush_protocol_socket_task ∷ []))
]

module _ (request_id type : ℕ) where
  put_packets-state :
      (ps : List (List ℕ)) (s : PacketSocket)
      → s.state ≡ opened
      → (put_packets request_id type ps s).1.state
        ≡ state_after (put_packets request_id type ps s).0
  unfolding put_packets asio_write close
  put_packets-state [] s h = h
  put_packets-state (p ∷ ps) s h =
      ground (arith, put_packets-state ps (asio_write (buffer_sequence request_id type p) s).1)

  asio_write-strand :
      (bytes : List ℕ) (s : PacketSocket)
      → (asio_write bytes s).1.connection_strand ≡ s.connection_strand
  unfolding asio_write
  asio_write-strand bytes s = ground arith

  put_packets-Extends :
      (ps : List (List ℕ)) (s : PacketSocket)
      → Extends s.connection_strand (put_packets request_id type ps s).1.connection_strand
  unfolding put_packets
  put_packets-Extends [] s = Extends-refl s.connection_strand
  put_packets-Extends (p ∷ ps) s =
      let bytes = buffer_sequence request_id type p in
      let t = (asio_write bytes s).1 in
      subst (λ ts. Extends ts (put_packets request_id type (p ∷ ps) s).1.connection_strand)
        (asio_write-strand bytes s)
        (went_on (asio_write bytes s).0 t (close-Extends t) (put_packets-Extends ps t))
    where
      went_on :
          (ec : Bool) (t : PacketSocket)
          → Extends t.connection_strand (close t).connection_strand
          → Extends t.connection_strand (put_packets request_id type ps t).1.connection_strand
          → Extends t.connection_strand
              (elim ec as (λ _. Bool × PacketSocket) [
                | true ↦ (true, close t)
                | false ↦ put_packets request_id type ps t
              ]).1.connection_strand
      went_on true t a b = a
      went_on false t a b = b

  put_packets-SameInput :
      (ps : List (List ℕ)) (s : PacketSocket) → SameInput s (put_packets request_id type ps s).1
  unfolding put_packets asio_write close
  put_packets-SameInput [] s = record {
    buffer = refl;
    reads = refl;
    faults = refl;
    waits = Extends-refl s.connection_strand;
  }
  put_packets-SameInput (p ∷ ps) s =
      let t = (asio_write (buffer_sequence request_id type p) s).1 in
      let rest = put_packets-SameInput ps t in
      record {
        buffer = ground (arith, rest.buffer);
        reads = ground (arith, rest.reads);
        faults = ground (arith, rest.faults);
        waits = put_packets-Extends (p ∷ ps) s;
      }

module _ (request_id type n : ℕ) (content : List ℕ) (s : PacketSocket) where
  abbrev outcome : Bool × PacketSocket
  outcome = put_packets request_id type (pieces n (take n content)) s

  pub write_packet-opened :
      s.state ≡ opened → write_packet request_id type n content s ≡ (ok outcome.0, outcome.1)
  unfolding write_packet
  write_packet-opened h =
      let run =
        write_loop-put_packets n request_id type (take n content) s
          (omega (arith, length-take n content)) in
      ground (arith, run)

  -- writePacket on a closed socket fails its assertion and writes nothing.
  pub write_packet-closed :
      s.state ≡ closed → write_packet request_id type n content s ≡ (halted assertion_failed, s)
  unfolding write_packet
  write_packet-closed h = ground arith

  pub write_packet-cases :
      s.state ≡ opened
      → (ec : Bool) × (t : PacketSocket) × (write_packet request_id type n content s ≡ (ok ec, t))
        × (t.state ≡ state_after ec)
        × SameInput s t
  write_packet-cases h = (
    outcome.0,
    outcome.1,
    write_packet-opened h,
    put_packets-state request_id type (pieces n (take n content)) s h,
    put_packets-SameInput request_id type (pieces n (take n content)) s,
  )

pub SocketState-cases : (x : SocketState) → (x ≡ opened) ⊎ (x ≡ closed)
SocketState-cases opened = inl refl
SocketState-cases closed = inr refl

-- The tasks that wait in the strand are kept, in their order, and others come after them.
abbrev pub Grows : PacketSocket → PacketSocket → Type 0
Grows s t = Extends s.connection_strand t.connection_strand

pub write_packet-Grows :
    (request_id type n : ℕ) (content : List ℕ) (s : PacketSocket)
    → Grows s (write_packet request_id type n content s).1
write_packet-Grows request_id type n content s = elim (SocketState-cases s.state) [
  | inr e ↦
      rw (write_packet-closed request_id type n content s e) (Extends-refl s.connection_strand)
  | inl e ↦
      let (ec, t, run, _, same) = write_packet-cases request_id type n content s e in
      rw run same.waits
]
