-- ===== src/Connection/Packets.antt =====
-- Fastcgi/RecordSocket.h and PacketSocket.h: predicates of a connection over its packets.
use santiago_old.Prelude.{
  ℕ, suc, ◌≡◌, inl, inr, Option, none, some, List, [], Bool, true, false, Bool-cases, arith, length,
  ◌==◌, if◌then◌else◌, ltb, ◌%◌,
}
use santiago_old.Exec.{Exec, Outcome, ok, thrown, halted, continue, ◌>>=◌}
use santiago_old.Protocol.{connection_wind_down}
use santiago_old.Pairs.{parse_pairs}
use santiago_old.PacketSocket
use santiago_old.PacketSocket.{PacketSocket}
use santiago_old.PacketSocket.Read.{consume, read_loop, after_read, handle_read}
use santiago_old.PacketSocket.Keeps.{read_loop-Keeps}
use santiago_old.ConnectionData
use santiago_old.ConnectionData.Filled.{
  handle_begin_request-KeepsFilled, handle_abort_request-KeepsFilled, handle_stdin-KeepsFilled,
  handle_params-KeepsFilled,
}
use santiago_old.RecordSocket.{
  write_or_report, on_get_values, on_begin_body, on_begin_request, on_abort_request,
  on_unknown_type, handle_new_packet, close,
}
use santiago_old.Connection.{
  Connection, with_packet_socket, on_data, handle_transceiver_event, callbacks, host,
}
use santiago_old.Connection.Invariant.{
  Inv, IsUnreported, on_data-Inv, wind_down-Inv, write_or_report-Inv, report-Inv, Inv-IsUnreported,
}

-- An action that keeps P, whatever its outcome.
pub record Keeps (P : Connection → Type 0) (m : Exec Connection (Unit {0})) : Type 0 where
  pub at : (c : Connection) → P c → P (m c).1

-- The parts that handleNewPacket is made of.
pub record PacketLaws (P : Connection → Type 0) : Type 0 where
  pub write : (i t : ℕ) (b : List ℕ) → Keeps P (write_or_report callbacks i t b)
  pub begin : (i : ℕ) → Keeps P (on_data (ConnectionData.handle_begin_request i))
  pub abort : (i : ℕ) → Keeps P (on_data (ConnectionData.handle_abort_request i))
  pub stdin : (i : ℕ) (b : List ℕ) → Keeps P (on_data (ConnectionData.handle_stdin i b))
  pub params : (i : ℕ) (b : List ℕ) → Keeps P (on_data (ConnectionData.handle_params i b))
  pub wind_down : Keeps P (handle_transceiver_event connection_wind_down)

module _ {P : Connection → Type 0} where
  pub continue-Keeps :
      {A : Type 0} (k : A → Exec Connection (Unit {0}))
      → ((a : A) → Keeps P (k a))
      → (r : Outcome A) (c : Connection) → P c
      → P (continue r k c).1
  continue-Keeps k hk (ok a) c v = (hk a).at c v
  continue-Keeps k hk (thrown e) c v = v
  continue-Keeps k hk (halted h) c v = v

  pub then-Keeps :
      (m : Exec Connection (Unit {0})) (k : Unit {0} → Exec Connection (Unit {0}))
      → Keeps P m
      → ((x : Unit {0}) → Keeps P (k x))
      → Keeps P (m >>= k)
  then-Keeps m k hm hk = record { at = λ c v. continue-Keeps k hk _ _ (hm.at c v) }

  pub if-Keeps :
      (b : Bool) (m n : Exec Connection (Unit {0}))
      → Keeps P m
      → Keeps P n
      → Keeps P (if b then m else n)
  if-Keeps true m n hm hn = hm
  if-Keeps false m n hm hn = hn

  pub nothing-Keeps : (r : Outcome (Unit {0})) → Keeps P (λ c. (r, c))
  nothing-Keeps r = record { at = λ c v. v }

module _ {P : Connection → Type 0} (laws : PacketLaws P) where
  get_values-Keeps : (b : List ℕ) → Keeps P (on_get_values callbacks b)
  unfolding on_get_values
  get_values-Keeps b = record {
    at = λ c v. continue-Keeps _ (λ pairs. laws.write _ _ _) (parse_pairs b []) c v;
  }

  begin_body-Keeps : (i : ℕ) (o : Option (ℕ × ℕ)) → Keeps P (on_begin_body callbacks i o)
  unfolding on_begin_body
  begin_body-Keeps i none = nothing-Keeps _
  begin_body-Keeps i (some (role, flags)) =
      if-Keeps (role == 1) _ _
        (then-Keeps _ _ (laws.begin i)
          (λ _. if-Keeps (flags % 2 == 0) _ _ laws.wind_down (nothing-Keeps _)))
        (laws.write _ _ _)

  begin_packet-Keeps : (i : ℕ) (b : List ℕ) → Keeps P (on_begin_request callbacks i b)
  unfolding on_begin_request
  begin_packet-Keeps i b = if-Keeps (ltb (length b) 8) _ _ (nothing-Keeps _) (begin_body-Keeps i _)

  -- handleNewPacket keeps what its parts keep.
  pub packet-Keeps : (i t : ℕ) (b : List ℕ) → Keeps P (handle_new_packet callbacks false i t b)
  unfolding handle_new_packet on_abort_request on_unknown_type
  packet-Keeps i t b = if-Keeps (t == 9) _ _ (get_values-Keeps b) (
      if-Keeps (t == 1) _ _ (begin_packet-Keeps i b) (
        if-Keeps (t == 2) _ _ (then-Keeps _ _ (laws.write _ _ _) (λ _. laws.abort i)) (
          if-Keeps (t == 4) _ _ (laws.params i b) (
            if-Keeps (t == 5) _ _ (laws.stdin i b)
              (if-Keeps (t == 8) _ _ (nothing-Keeps _) (laws.write _ _ _))))))

Inv-laws : PacketLaws Inv
Inv-laws = record {
  write = λ i t b. record { at = λ c v. write_or_report-Inv i t b c v };
  begin = λ i. record { at = λ c v. on_data-Inv _ c (handle_begin_request-KeepsFilled i) v };
  abort = λ i. record { at = λ c v. on_data-Inv _ c (handle_abort_request-KeepsFilled i) v };
  stdin = λ i b. record { at = λ c v. on_data-Inv _ c (handle_stdin-KeepsFilled i b) v };
  params = λ i b. record { at = λ c v. on_data-Inv _ c (handle_params-KeepsFilled i b) v };
  wind_down = record { at = λ c v. wind_down-Inv c v };
}

-- The loop of handleRead.
consume-Inv : (k : ℕ) (c : Connection) → Inv c → Inv (consume host k c)
unfolding consume
consume-Inv k c v = record {
  closes_together = v.closes_together;
  closes_once = v.closes_once;
  winds_down = v.winds_down;
}

read_loop-Inv : (fuel : ℕ) (c : Connection) → Inv c → Inv (read_loop host fuel c).1
read_loop-Inv = read_loop-Keeps host Inv (λ i t b. (packet-Keeps Inv-laws i t b).at) consume-Inv

after_read-Inv : (received : List ℕ) (c : Connection) → Inv c → Inv (after_read host received c)
unfolding after_read
after_read-Inv received c v = record {
  closes_together = v.closes_together;
  closes_once = v.closes_once;
  winds_down = v.winds_down;
}

-- A failed read closes the packet socket, and the connection after it.
error-Inv :
    (c : Connection) (p : PacketSocket)
    → IsUnreported c
    → Inv (handle_new_packet callbacks true 0 0 [] (with_packet_socket c p)).1
unfolding handle_new_packet close
error-Inv c p u = report-Inv _ (record { not_closed_yet = u.not_closed_yet; no_close = u.no_close })

-- handleRead keeps the invariant, whatever bytes arrive and whether or not the read failed.
pub handle_read-Inv :
    (error : Bool) (received : List ℕ) (c : Connection)
    → Inv c
    → Inv (handle_read host error received c).1
unfolding handle_read
handle_read-Inv error received c v =
    elim (Bool-cases (PacketSocket.is_closed d.packet_socket.state)) [
      | inl e ↦ rw e w
      | inr e ↦ rw e (open_read error e)
    ]
  where
    d : Connection
    d = after_read host received c

    w : Inv d
    w = after_read-Inv received c v

    open_read :
        (b : Bool)
        → PacketSocket.is_closed d.packet_socket.state ≡ false
        → Inv
            (if b
              then handle_new_packet callbacks true 0 0 []
                  (with_packet_socket d (PacketSocket.close d.packet_socket))
              else read_loop host (suc (length d.packet_socket.input_buffer)) d).1
    open_read true e = error-Inv d _ (Inv-IsUnreported d w (ground (arith, e, w.closes_together)))
    open_read false e = read_loop-Inv _ d w
