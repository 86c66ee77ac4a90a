-- ===== src/Connection/Sockets.antt =====
-- Fastcgi/RecordSocket.h: handleNewPacket over a connection, and the parts of its packet socket.
use santiago_old.Prelude.{
  ℕ, ◌≡◌, ◌∙◌, inl, inr, refl, List, Bool, true, false, arith, length, if◌then◌else◌, ◌%◌, ◌^◌,
}
use santiago_old.Exec.{Exec, Outcome, ok, thrown, halted, continue}
use santiago_old.Protocol.{TransceiverEventInfo, socket_closed, connection_wind_down}
use santiago_old.PacketSocket
use santiago_old.PacketSocket.{PacketSocket}
use santiago_old.PacketSocket.Effects.{
  SocketState-cases, write_packet-cases, write_packet-closed, SameInput,
}
use santiago_old.PacketSocket.Reading.{HostLaws}
use santiago_old.ConnectionData.{ConnectionData, Notice, quiet, request_ready, became_empty}
use santiago_old.RecordSocket
use santiago_old.RecordSocket.{write_or_report, handle_new_packet}
use santiago_old.Connection.{
  Connection, with_packet_socket, close_and_cleanup, handle_transceiver_event, handle_on_empty,
  handle_request_ready, on_notice, on_data, callbacks, host,
}
use santiago_old.Connection.Packets.{PacketLaws, packet-Keeps}

module _ {A : Type 0} (part : PacketSocket → A)
    (part-write : (p q : PacketSocket) → SameInput p q → part q ≡ part p)
    (part-close : (p : PacketSocket) → part (PacketSocket.close p) ≡ part p) where
  pub close_and_cleanup-part :
      (c : Connection) → part (close_and_cleanup c).1.packet_socket ≡ part c.packet_socket
  unfolding close_and_cleanup
  close_and_cleanup-part c = part-close c.packet_socket

  module _ (c : Connection) where
    pub event-part :
        (i : TransceiverEventInfo)
        → part (handle_transceiver_event i c).1.packet_socket ≡ part c.packet_socket
    unfolding handle_transceiver_event
    event-part socket_closed = ground (arith, close_and_cleanup-part c)
    event-part connection_wind_down =
        ground
          (arith, close_and_cleanup-part (record c { state = santiago_old.Connection.closing }))

    notice-part :
        (r : Outcome Notice) → part (continue r on_notice c).1.packet_socket ≡ part c.packet_socket
    unfolding on_notice handle_on_empty handle_request_ready
    notice-part (ok quiet) = refl
    notice-part (ok (request_ready i p)) = refl
    notice-part (ok became_empty) = ground (arith, close_and_cleanup-part c)
    notice-part (thrown e) = refl
    notice-part (halted h) = refl

  pub on_data-part :
      (m : Exec ConnectionData Notice) (c : Connection)
      → part (on_data m c).1.packet_socket ≡ part c.packet_socket
  unfolding on_data
  on_data-part m c =
      notice-part (record c { connection_data = (m c.connection_data).1 }) (m c.connection_data).0

  reported-part :
      (c : Connection) (ec : Bool) (p : PacketSocket)
      → SameInput c.packet_socket p
      → part
          (continue
            (ok ec)
            (λ b. if b then handle_transceiver_event socket_closed else (λ s. (ok tt, s)))
            (with_packet_socket c p)).1.packet_socket
        ≡ part c.packet_socket
  reported-part c true p same =
      event-part (with_packet_socket c p) socket_closed ∙ part-write c.packet_socket p same
  reported-part c false p same = part-write c.packet_socket p same

  write_or_report-part :
      (i t : ℕ) (b : List ℕ) (c : Connection)
      → part (write_or_report callbacks i t b c).1.packet_socket ≡ part c.packet_socket
  unfolding write_or_report
  write_or_report-part i t b c = elim (SocketState-cases c.packet_socket.state) [
    | inr e ↦ rw (write_packet-closed i t (length b % 2 ^ 32) b c.packet_socket e)
    | inl e ↦
        let (ec, p, run, _, same) =
          write_packet-cases i t (length b % 2 ^ 32) b c.packet_socket e in
        rw run (reported-part c ec p same)
  ]

  -- A connection whose packet socket has this part.
  pub HasPart : A → Connection → Type 0
  HasPart a c = part c.packet_socket ≡ a

  pub HasPart-laws : (a : A) → PacketLaws (HasPart a)
  unfolding HasPart
  HasPart-laws a = record {
    write = λ i t b. record { at = λ c v. write_or_report-part i t b c ∙ v };
    begin = λ i. record { at = λ c v. on_data-part _ c ∙ v };
    abort = λ i. record { at = λ c v. on_data-part _ c ∙ v };
    stdin = λ i b. record { at = λ c v. on_data-part _ c ∙ v };
    params = λ i b. record { at = λ c v. on_data-part _ c ∙ v };
    wind_down = record { at = λ c v. event-part c connection_wind_down ∙ v };
  }

  -- handleNewPacket on a packet and on an error keeps the part.
  pub handle_new_packet-part :
      (e : Bool) (i t : ℕ) (b : List ℕ) (c : Connection)
      → part (handle_new_packet callbacks e i t b c).1.packet_socket ≡ part c.packet_socket
  unfolding HasPart
  handle_new_packet-part false i t b c =
      (packet-Keeps (HasPart-laws (part c.packet_socket)) i t b).at c refl
  handle_new_packet-part true i t b c =
      unfold handle_new_packet RecordSocket.close in
      event-part (with_packet_socket c (PacketSocket.close c.packet_socket)) socket_closed
      ∙ part-close c.packet_socket

close-input_buffer : (p : PacketSocket) → (PacketSocket.close p).input_buffer ≡ p.input_buffer
unfolding PacketSocket.close
close-input_buffer p = ground arith

-- handleRead may be run over a connection.
pub connection_host : HostLaws host
connection_host = record {
  socket-with_socket = λ c p. refl;
  keeps_input =
      handle_new_packet-part (λ p. p.input_buffer) (λ p q same. same.buffer) close-input_buffer;
}
