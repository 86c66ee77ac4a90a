-- ===== src/Connection/Invariant.antt =====
-- Fastcgi/Connection.h: the invariant of a connection, over its handlers.
use santiago_old.Prelude.{
  ℕ, suc, ◌+◌, ◌≡◌, ◌⊎◌, inl, inr, refl, List, [], ◌∷◌, ◌++◌, Bool, true, false, not, Bool-cases,
  arith, length, ◌==◌, if◌then◌else◌, ◌%◌, ◌^◌,
}
use santiago_old.Exec.{Exec, Outcome, ok, thrown, halted, assertion_failed, continue}
use santiago_old.OrderedMap.{nat_key, ne-nil_of_length}
use santiago_old.Protocol.{socket_closed, connection_wind_down, TransceiverEventInfo}
use santiago_old.PacketSocket
use santiago_old.PacketSocket.{PacketSocket}
use santiago_old.PacketSocket.Effects.{
  write_packet-cases, write_packet-closed, state_after, SocketState-cases,
}
use santiago_old.ConnectionData.{ConnectionData, Notice, quiet, request_ready, became_empty}
use santiago_old.ConnectionData.Filled.{KeepsFilled, IsFilled}
use santiago_old.RecordSocket.{write_or_report}
use santiago_old.Connection.{
  Connection, ConnectionState, closing, closed, AcceptorCall, new_request_call, close_call,
  not_closed, is_closing, with_packet_socket, call, close_and_cleanup, handle_transceiver_event,
  handle_on_empty, handle_request_ready, on_notice, on_data, callbacks,
}

-- How often _closeCallbackFn was called.
unfoldable pub close_calls : List AcceptorCall → ℕ
close_calls [] = 0
close_calls (close_call ∷ calls) = suc (close_calls calls)
close_calls (new_request_call i p ∷ calls) = close_calls calls

abbrev pub closes_of : ConnectionState → ℕ
closes_of closed = 1
closes_of _ = 0

-- The connection and its packet socket close together; the close callback is made once, by closing;
-- and a connection that winds down has a request left, so that something will close it.
pub record Inv (c : Connection) : Type 0 where
  pub closes_together : PacketSocket.is_closed c.packet_socket.state ≡ not (not_closed c.state)
  pub closes_once : close_calls c.calls ≡ closes_of c.state
  pub winds_down : c.state ≡ closing → IsFilled c.connection_data

-- Between a failed write and its report only the packet socket is closed.
pub record IsUnreported (c : Connection) : Type 0 where
  pub not_closed_yet : not_closed c.state ≡ true
  pub no_close : close_calls c.calls ≡ 0

pub close_calls-append :
    (xs ys : List AcceptorCall) → close_calls (xs ++ ys) ≡ close_calls xs + close_calls ys
unfolding close_calls
close_calls-append [] ys = omega arith
close_calls-append (close_call ∷ xs) ys = omega (arith, close_calls-append xs ys)
close_calls-append (new_request_call i p ∷ xs) ys = close_calls-append xs ys

module _ (c : Connection) where
  pub Inv-IsUnreported : Inv c → not_closed c.state ≡ true → IsUnreported c
  Inv-IsUnreported v h = ground (arith, v.closes_once)

  pub close_and_cleanup-Inv : IsUnreported c → Inv (close_and_cleanup c).1
  unfolding close_and_cleanup PacketSocket.close close_calls
  close_and_cleanup-Inv u = record {
    closes_together = ground arith;
    closes_once = rw (close_calls-append c.calls (close_call ∷ [])) (ground (arith, u.no_close));
    winds_down = λ e. cc;
  }

  pub handle_transceiver_event-closed :
      (i : TransceiverEventInfo)
      → not_closed c.state ≡ false
      → handle_transceiver_event i c ≡ (halted assertion_failed, c)
  unfolding handle_transceiver_event
  handle_transceiver_event-closed socket_closed h = ground arith
  handle_transceiver_event-closed connection_wind_down h = ground arith

  pub report-Inv : IsUnreported c → Inv (handle_transceiver_event socket_closed c).1
  report-Inv u = rw e (close_and_cleanup-Inv u)
    where
      e : handle_transceiver_event socket_closed c ≡ close_and_cleanup c
      e = unfold handle_transceiver_event in ground (arith, u.not_closed_yet)

module _ (c : Connection) where
  wound : Connection
  wound = record c { state = closing }

  wind_down_cases :
      not_closed c.state ≡ true
      → ((handle_transceiver_event connection_wind_down c ≡ close_and_cleanup wound))
        ⊎ ((handle_transceiver_event connection_wind_down c ≡ (ok tt, wound))
            × IsFilled c.connection_data)
  unfolding handle_transceiver_event wound
  wind_down_cases h = elim (Bool-cases (length c.connection_data.request_map == 0)) [
    | inl e ↦ inl (ground (arith, h, e))
    | inr e ↦ inr (ground (arith, h, e), ne-nil_of_length _ e)
  ]

  pub wind_down-Inv : Inv c → Inv (handle_transceiver_event connection_wind_down c).1
  wind_down-Inv v = elim (Bool-cases (not_closed c.state)) [
    | inr done ↦ rw (handle_transceiver_event-closed c connection_wind_down done) v
    | inl live ↦ elim (wind_down_cases live) [
      | inl e ↦ rw e (
          close_and_cleanup-Inv wound (
            unfold wound in
            record { not_closed_yet = refl; no_close = ground (arith, v.closes_once) }))
      | inr (e, filled) ↦ rw e (
          unfold wound in
          record {
            closes_together = ground (arith, v.closes_together);
            closes_once = ground (arith, v.closes_once);
            winds_down = λ _. filled;
          })
    ]
  ]

-- Two of the three hold at any time between two calls, also while a callback is still to be made.
pub record IsInStep (c : Connection) : Type 0 where
  pub closes_together : PacketSocket.is_closed c.packet_socket.state ≡ not (not_closed c.state)
  pub closes_once : close_calls c.calls ≡ closes_of c.state

module _ (c : Connection) where
  idle-Inv : IsInStep c → (c.state ≡ closing → IsFilled c.connection_data) → Inv c
  idle-Inv v h = record {
    closes_together = v.closes_together;
    closes_once = v.closes_once;
    winds_down = h;
  }

  handle_on_empty-Inv : IsInStep c → Inv (handle_on_empty c).1
  unfolding handle_on_empty
  handle_on_empty-Inv v = elim (Bool-cases (is_closing c.state)) [
    | inl e ↦ rw e (
        close_and_cleanup-Inv c (record {
          not_closed_yet = ground (arith, e);
          no_close = ground (arith, e, v.closes_once);
        }))
    | inr e ↦ rw e (idle-Inv v (λ h. absurd (ground (arith, e, h))))
  ]

  new_request-IsInStep : (i p : ℕ) → IsInStep c → IsInStep (call (new_request_call i p) c)
  unfolding close_calls
  new_request-IsInStep i p v = record {
    closes_together = v.closes_together;
    closes_once =
        rw (close_calls-append c.calls (new_request_call i p ∷ [])) (omega (arith, v.closes_once));
  }

-- The callback of an operation, if one that empties the map says so.
result-Inv :
    (r : Outcome Notice) (c : Connection)
    → IsInStep c
    → (c.state ≡ closing → (r ≡ ok became_empty) ⊎ IsFilled c.connection_data)
    → Inv (continue r on_notice c).1
unfolding on_notice handle_request_ready
result-Inv (ok quiet) c v h = idle-Inv c v (λ e. elim (h e) [ inl x ↦ cc | inr f ↦ f ])
result-Inv (ok (request_ready i p)) c v h =
    idle-Inv (call (new_request_call i p) c) (new_request-IsInStep c i p v)
      (λ e. elim (h e) [ inl x ↦ cc | inr f ↦ f ])
result-Inv (ok became_empty) c v h = handle_on_empty-Inv c v
result-Inv (thrown x) c v h = idle-Inv c v (λ e. elim (h e) [ inl y ↦ cc | inr f ↦ f ])
result-Inv (halted x) c v h = idle-Inv c v (λ e. elim (h e) [ inl y ↦ cc | inr f ↦ f ])

-- An operation of ConnectionData, with its callback, keeps the invariant.
pub on_data-Inv :
    (m : Exec ConnectionData Notice) (c : Connection) → KeepsFilled m → Inv c → Inv (on_data m c).1
unfolding on_data
on_data-Inv m c keeps v =
    result-Inv (m c.connection_data).0 (record c { connection_data = (m c.connection_data).1 })
      (record { closes_together = v.closes_together; closes_once = v.closes_once })
      (λ e. keeps c.connection_data (v.winds_down e))

-- After a write: the packet socket is open, or ec is set and the connection is to close.
module _ (c : Connection) (t : PacketSocket) (v : Inv c) where
  pub opened-not_closed : c.packet_socket.state ≡ PacketSocket.opened → not_closed c.state ≡ true
  opened-not_closed e = ground (arith, e, v.closes_together)

  pub written-Inv :
      c.packet_socket.state ≡ PacketSocket.opened
      → t.state ≡ PacketSocket.opened
      → Inv (with_packet_socket c t)
  written-Inv e st = record {
    closes_together = ground (arith, e, st, v.closes_together);
    closes_once = v.closes_once;
    winds_down = v.winds_down;
  }

  pub failed-IsUnreported :
      c.packet_socket.state ≡ PacketSocket.opened → IsUnreported (with_packet_socket c t)
  failed-IsUnreported e = record {
    not_closed_yet = opened-not_closed e;
    no_close = ground (arith, opened-not_closed e, v.closes_once);
  }

-- writePacket, with the report of an error to handleTransceiverEvent.
pub write_or_report-Inv :
    (i t : ℕ) (content : List ℕ) (c : Connection)
    → Inv c
    → Inv (write_or_report callbacks i t content c).1
unfolding write_or_report
write_or_report-Inv i t content c v = elim (SocketState-cases c.packet_socket.state) [
  | inr e ↦ rw (write_packet-closed i t (length content % 2 ^ 32) content c.packet_socket e) v
  | inl e ↦
      let (ec, p, run, st, _) =
        write_packet-cases i t (length content % 2 ^ 32) content c.packet_socket e in
      rw run (reported ec p e st)
]
  where
    reported :
        (ec : Bool) (p : PacketSocket)
        → c.packet_socket.state ≡ PacketSocket.opened
        → p.state ≡ state_after ec
        → Inv
            (continue
              (ok ec)
              (λ b. if b then handle_transceiver_event socket_closed else (λ s. (ok tt, s)))
              (with_packet_socket c p)).1
    reported true p e st = report-Inv (with_packet_socket c p) (failed-IsUnreported c p v e)
    reported false p e st = written-Inv c p v e st
