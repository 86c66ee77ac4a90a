-- ===== src/Connection/Steps.antt =====
-- Fastcgi/Connection.h: predicates that do not read the packet socket, over the events of a connection.
use santiago_old.Prelude.{
  Extends-refl, Extends-trans, ℕ, suc, ◌%◌, ◌^◌, ◌≡◌, List, [], ◌∷◌, Bool, true, false, arith,
  length, ◌==◌, inl, inr, Bool-cases, if◌then◌else◌,
}
use santiago_old.Exec.{ok}
use santiago_old.Protocol.{TransceiverEventInfo, socket_closed, connection_wind_down}
use santiago_old.Strand.{Task, flush_protocol_socket_task, commit_reply_task}
use santiago_old.PacketSocket
use santiago_old.PacketSocket.{PacketSocket}
use santiago_old.PacketSocket.Read.{consume, after_read, handle_read, read_loop}
use santiago_old.PacketSocket.Keeps.{read_loop-Keeps}
use santiago_old.ConnectionData
use santiago_old.ConnectionData.{ConnectionData, Notice, quiet, request_ready, became_empty}
use santiago_old.RequestData.{RequestData}
use santiago_old.RecordSocket
use santiago_old.PacketSocket.Effects.{Grows, write_packet-Grows, close-Extends}
use santiago_old.RecordSocket.Reply.{send_reply-Grows}
use santiago_old.RecordSocket.{Replying, write_or_report, handle_new_packet}
use santiago_old.Connection.{
  Connection, closing, not_closed, with_packet_socket, close_and_cleanup, handle_transceiver_event,
  on_data, callbacks, host, send_reply_of, commit_reply_impl, commit_reply, run_oldest, Event,
  read_done, run_task, reply_posted, step,
}
use santiago_old.Connection.Invariant.{handle_transceiver_event-closed}
use santiago_old.Connection.Packets.{Keeps, PacketLaws, packet-Keeps, continue-Keeps, nothing-Keeps}
use santiago_old.ConnectionData.Changes.{
  Op, perform, begins, aborts, stdin_chunk, params_chunk, cleans_up,
}

-- What such a predicate has to keep in a handler, which takes no task off the strand.
pub record HandlerLaws (P : Connection → Type 0) : Type 0 where
  pub socket :
      (c : Connection) (p : PacketSocket)
      → Grows c.packet_socket p
      → P c
      → P (with_packet_socket c p)
  pub objects :
      (c : Connection) (o : ℕ → RequestData)
      → P c
      → P (record c { connection_data = record c.connection_data { objects = o } })
  pub operation : (op : Op) → Keeps P (on_data (perform op))
  pub closes : Keeps P close_and_cleanup
  pub winds : (c : Connection) → P c → P (record c { state = closing })

-- What such a predicate has to keep.
pub record StepLaws (P : Connection → Type 0) : Type 0 where
  pub socket : (c : Connection) (p : PacketSocket) → P c → P (with_packet_socket c p)
  pub objects :
      (c : Connection) (o : ℕ → RequestData)
      → P c
      → P (record c { connection_data = record c.connection_data { objects = o } })
  pub operation : (op : Op) → Keeps P (on_data (perform op))
  pub closes : Keeps P close_and_cleanup
  pub winds : (c : Connection) → P c → P (record c { state = closing })

abbrev pub replying_of : ℕ → Connection → Replying
replying_of p c = record { packet_socket = c.packet_socket; request = c.connection_data.objects p }

module _ {P : Connection → Type 0} (laws : HandlerLaws P) where
  -- The end of handleOnEmpty and of the wind-down.
  closing_if-Keeps :
      (b : Bool) (c : Connection) → P c → P (if b then close_and_cleanup c else (ok tt, c)).1
  closing_if-Keeps true c v = laws.closes.at c v
  closing_if-Keeps false c v = v

  pub event-Keeps : (i : TransceiverEventInfo) → Keeps (P) (handle_transceiver_event i)
  event-Keeps i = record { at = go i }
    where
      go : (j : TransceiverEventInfo) (c : Connection) → P c → P (handle_transceiver_event j c).1
      go j c v = elim (Bool-cases (not_closed c.state)) [
        | inr done ↦ rw (handle_transceiver_event-closed c j done) v
        | inl live ↦ live_event j live
      ]
        where
          live_event :
              (k : TransceiverEventInfo)
              → not_closed c.state ≡ true
              → P (handle_transceiver_event k c).1
          live_event socket_closed live =
              let closes : handle_transceiver_event socket_closed c ≡ close_and_cleanup c =
                unfold handle_transceiver_event in ground (arith, live) in
              rw closes (laws.closes.at c v)
          live_event connection_wind_down live =
              let d = record c { state = closing } in
              let winds : handle_transceiver_event connection_wind_down c ≡ (
                  if length d.connection_data.request_map == 0
                  then close_and_cleanup d
                  else (ok tt, d)) =
                unfold handle_transceiver_event in ground (arith, live) in
              rw winds (closing_if-Keeps _ d (laws.winds c v))

  write-Keeps : (i t : ℕ) (b : List ℕ) → Keeps (P) (write_or_report callbacks i t b)
  unfolding write_or_report
  write-Keeps i t b = record {
    at = λ c v.
        continue-Keeps _ reported (RecordSocket.send i t b c.packet_socket).0
          (with_packet_socket c (RecordSocket.send i t b c.packet_socket).1)
          (laws.socket c _ (write_packet-Grows i t (length b % 2 ^ 32) b c.packet_socket) v);
  }
    where
      reported :
          (ec : Bool)
          → Keeps (P) (if ec then handle_transceiver_event socket_closed else (λ s. (ok tt, s)))
      reported true = event-Keeps socket_closed
      reported false = nothing-Keeps (ok tt)

  packet_laws : PacketLaws (P)
  packet_laws = record {
    write = write-Keeps;
    begin = λ i. unfold perform in laws.operation (begins i);
    abort = λ i. unfold perform in laws.operation (aborts i);
    stdin = λ i b. unfold perform in laws.operation (stdin_chunk i b);
    params = λ i b. unfold perform in laws.operation (params_chunk i b);
    wind_down = event-Keeps connection_wind_down;
  }

  loop-Keeps : (fuel : ℕ) (c : Connection) → P c → P (read_loop host fuel c).1
  loop-Keeps =
      read_loop-Keeps host (P) (λ i t b. (packet-Keeps packet_laws i t b).at)
        (λ k c v. unfold consume in laws.socket c _ (Extends-refl _) v)

  pub handle_read-Keeps :
      (error : Bool) (received : List ℕ) → Keeps (P) (handle_read host error received)
  unfolding handle_read
  handle_read-Keeps error received = record {
    at = λ c v.
        arrived error (after_read host received c)
          (unfold after_read in laws.socket c _ (Extends-refl _) v);
  }
    where
      open_read :
          (e : Bool) (d : Connection)
          → P d
          → P
              (if e
                then handle_new_packet callbacks true 0 0 []
                    (with_packet_socket d (PacketSocket.close d.packet_socket))
                else read_loop host (suc (length d.packet_socket.input_buffer)) d).1
      open_read true d v =
          unfold handle_new_packet RecordSocket.close in
          (event-Keeps socket_closed).at _
            (laws.socket d _ (Extends-trans (close-Extends d.packet_socket) (close-Extends _)) v)
      open_read false d v = loop-Keeps _ d v

      arrived :
          (e : Bool) (d : Connection)
          → P d
          → P
              (if PacketSocket.is_closed d.packet_socket.state
                then (ok tt, d)
                else if e
                then handle_new_packet callbacks true 0 0 []
                    (with_packet_socket d (PacketSocket.close d.packet_socket))
                else read_loop host (suc (length d.packet_socket.input_buffer)) d).1
      arrived e d v = elim (Bool-cases (PacketSocket.is_closed d.packet_socket.state)) [
        | inl done ↦ rw done v
        | inr live ↦ rw live (open_read e d v)
      ]

  pub reply-Keeps : (i p : ℕ) → Keeps (P) (commit_reply_impl i p)
  unfolding commit_reply_impl
  reply-Keeps i p = record {
    at = λ c v. elim (Bool-cases (ConnectionData.is_valid_request i p c.connection_data)) [
      | inr e ↦ rw e v
      | inl e ↦ rw e (
          continue-Keeps _ sent (send_reply_of i p c).0 (send_reply_of i p c).1 (
            unfold send_reply_of in
            laws.objects (with_packet_socket c _) _
              (laws.socket c _ (send_reply-Grows i (replying_of p c)) v)))
    ];
  }
    where
      sent :
          (ec : Bool)
          → Keeps (P) (if ec then close_and_cleanup else on_data (ConnectionData.cleanup_request i))
      sent true = laws.closes
      sent false = unfold perform in laws.operation (cleans_up i)

module _ {P : Connection → Type 0} (laws : StepLaws P) where
  handler_laws : HandlerLaws P
  handler_laws = record {
    socket = λ c p grows v. laws.socket c p v;
    objects = laws.objects;
    operation = laws.operation;
    closes = laws.closes;
    winds = laws.winds;
  }

  run_oldest-Keeps : (tasks : List Task) → Keeps (P) (run_oldest tasks)
  unfolding run_oldest
  run_oldest-Keeps [] = nothing-Keeps (ok tt)
  run_oldest-Keeps (flush_protocol_socket_task ∷ rest) = record { at = λ c v. laws.socket c _ v }
  run_oldest-Keeps (commit_reply_task i p ∷ rest) = record {
    at = λ c v. (reply-Keeps handler_laws i p).at _ (laws.socket c _ v);
  }

  pub step-Keeps : (e : Event) → Keeps P (step e)
  unfolding step commit_reply
  step-Keeps (read_done error received) = handle_read-Keeps handler_laws error received
  step-Keeps run_task = record {
    at = λ c v. (run_oldest-Keeps c.packet_socket.connection_strand).at c v;
  }
  step-Keeps (reply_posted i p) = record { at = λ c v. laws.socket c _ v }
