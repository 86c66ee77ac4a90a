-- ===== src/Connection/Ends.antt =====
-- Fastcgi/Connection.h: the handlers of a connection end.
use santiago_old.Prelude.{
  ℕ, inl, inr, Bool, true, false, Bool-cases, Option, none, some, List, [], ◌∷◌, length, ◌==◌, ltb,
  if◌then◌else◌, ◌%◌, ◌^◌,
}
use santiago_old.Exec.{Exec, Outcome, ok, continue, assert, modify}
use santiago_old.Exec.Ends.{
  Ends, Terminates, ok-Ends, thrown-Ends, assertion_failed-Ends, out_of_bounds-Ends, continue-Ends,
  bind-Terminates, if-Terminates, if-Ends,
}
use santiago_old.Protocol.{TransceiverEventInfo, socket_closed, connection_wind_down}
use santiago_old.Strand.{Task, flush_protocol_socket_task, commit_reply_task}
use santiago_old.Pairs.Bounds.{parse_pairs-total}
use santiago_old.PacketSocket
use santiago_old.PacketSocket.{PacketSocket, flush_protocol_socket, flush_loop}
use santiago_old.PacketSocket.Read.{handle_read}
use santiago_old.PacketSocket.Ends.{handle_read-Ends}
use santiago_old.PacketSocket.Effects.{SocketState-cases, write_packet-opened, write_packet-closed}
use santiago_old.ConnectionData
use santiago_old.ConnectionData.{ConnectionData, Notice, quiet, request_ready, became_empty}
use santiago_old.ConnectionData.Ends.{
  handle_begin_request-Terminates, handle_abort_request-Terminates, handle_stdin-Terminates,
  handle_params-Terminates, cleanup_request-Terminates,
}
use santiago_old.RecordSocket
use santiago_old.RecordSocket.{
  write_or_report, on_get_values, on_begin_body, on_begin_request, on_abort_request,
  on_unknown_type, handle_new_packet, begin_request_body, send, send_reply,
}
use santiago_old.RecordSocket.Reply.{send_reply-Replies, Replies}
use santiago_old.Connection.{
  Connection, closing, not_closed, is_closing, close_and_cleanup, handle_transceiver_event,
  handle_on_empty, handle_request_ready, on_notice, on_data, callbacks, host, send_reply_of,
  commit_reply_impl, run_oldest, Event, read_done, run_task, reply_posted, step,
}
use santiago_old.Connection.Sockets.{connection_host}

assert-Terminates : {S : Type 0} (test : S → Bool) → Terminates (assert test)
assert-Terminates test = record {
  at = λ s. elim (Bool-cases (test s)) [
    | inl e ↦ rw (e, assert) (ok-Ends tt)
    | inr e ↦ rw (e, assert) assertion_failed-Ends
  ];
}

returns : {S A : Type 0} (f : S → A) (g : S → S) → Terminates (λ s. (ok (f s), g s))
returns f g = record { at = λ s. ok-Ends (f s) }

close_and_cleanup-Terminates : Terminates close_and_cleanup
unfolding close_and_cleanup
close_and_cleanup-Terminates = record { at = λ c. ok-Ends tt }

event-Terminates : (i : TransceiverEventInfo) → Terminates (handle_transceiver_event i)
unfolding handle_transceiver_event
event-Terminates socket_closed =
    bind-Terminates _ _ (assert-Terminates _) (λ _. close_and_cleanup-Terminates)
event-Terminates connection_wind_down =
    bind-Terminates (assert (λ c. not_closed c.state)) _
      (assert-Terminates (λ c. not_closed c.state))
      (λ _.
        bind-Terminates (modify (λ c. record c { state = closing }))
          (λ _ c.
            if length c.connection_data.request_map == 0 then close_and_cleanup c else (ok tt, c))
          (returns (λ c. tt) (λ c. record c { state = closing }))
          (λ _. record {
            at = λ c.
                if-Ends (length c.connection_data.request_map == 0) (close_and_cleanup c) (ok tt, c)
                  (close_and_cleanup-Terminates.at c) (ok-Ends tt);
          }))

notice-Terminates : (n : Notice) → Terminates (on_notice n)
unfolding on_notice handle_request_ready handle_on_empty
notice-Terminates quiet = record { at = λ c. ok-Ends tt }
notice-Terminates (request_ready i p) = record { at = λ c. ok-Ends tt }
notice-Terminates became_empty = record {
  at = λ c. if-Ends (is_closing c.state) _ _ (close_and_cleanup-Terminates.at c) (ok-Ends tt);
}

on_data-Terminates : (m : Exec ConnectionData Notice) → Terminates m → Terminates (on_data m)
unfolding on_data
on_data-Terminates m h = record {
  at = λ c.
      continue-Ends (m c.connection_data).0 on_notice _ (h.at c.connection_data) notice-Terminates;
}

write-Terminates : (i t : ℕ) (b : List ℕ) → Terminates (write_or_report callbacks i t b)
unfolding write_or_report
write-Terminates i t b = record {
  at = λ c. elim (SocketState-cases c.packet_socket.state) [
    | inr e ↦
        rw (write_packet-closed i t (length b % 2 ^ 32) b c.packet_socket e) assertion_failed-Ends
    | inl e ↦
        rw (write_packet-opened i t (length b % 2 ^ 32) b c.packet_socket e)
          ((if-Terminates _ _ _ (event-Terminates socket_closed) (returns (λ s. tt) (λ s. s))).at _)
  ];
}

get_values-Terminates : (b : List ℕ) → Terminates (on_get_values callbacks b)
unfolding on_get_values
get_values-Terminates b = record {
  at = λ c. let (pairs, run) = parse_pairs-total b [] in rw run ((write-Terminates _ _ _).at c);
}

begin_body-Terminates : (i : ℕ) (o : Option (ℕ × ℕ)) → Terminates (on_begin_body callbacks i o)
unfolding on_begin_body
begin_body-Terminates i none = record { at = λ c. out_of_bounds-Ends }
begin_body-Terminates i (some (role, flags)) =
    if-Terminates (role == 1) _ _
      (bind-Terminates _ _ (on_data-Terminates _ (handle_begin_request-Terminates i)) (λ _.
        if-Terminates (flags % 2 == 0) _ _ (event-Terminates connection_wind_down)
          (returns (λ s. tt) (λ s. s))))
      (write-Terminates _ _ _)

begin_packet-Terminates : (i : ℕ) (b : List ℕ) → Terminates (on_begin_request callbacks i b)
unfolding on_begin_request
begin_packet-Terminates i b =
    if-Terminates (ltb (length b) 8) _ _ (record { at = λ c. thrown-Ends _ })
      (begin_body-Terminates i _)

packet-Terminates : (i t : ℕ) (b : List ℕ) → Terminates (handle_new_packet callbacks false i t b)
unfolding handle_new_packet on_abort_request on_unknown_type
packet-Terminates i t b = if-Terminates (t == 9) _ _ (get_values-Terminates b) (
    if-Terminates (t == 1) _ _ (begin_packet-Terminates i b) (
      if-Terminates (t == 2) _ _
        (bind-Terminates _ _ (write-Terminates _ _ _)
          (λ _. on_data-Terminates _ (handle_abort_request-Terminates i)))
        (if-Terminates (t == 4) _ _ (on_data-Terminates _ (handle_params-Terminates i b)) (
          if-Terminates (t == 5) _ _ (on_data-Terminates _ (handle_stdin-Terminates i b)) (
            if-Terminates (t == 8) _ _ (record { at = λ c. thrown-Ends _ })
              (write-Terminates _ _ _))))))

error-Terminates : Terminates (handle_new_packet callbacks true 0 0 [])
unfolding handle_new_packet RecordSocket.close
error-Terminates =
    bind-Terminates _ _ (record { at = λ c. ok-Ends tt }) (λ _. event-Terminates socket_closed)

read-Terminates : (error : Bool) (received : List ℕ) → Terminates (handle_read host error received)
read-Terminates error received = record {
  at =
      handle_read-Ends host connection_host (λ i t b. (packet-Terminates i t b).at)
        error-Terminates.at error received;
}

reply-Ends :
    (i : ℕ) (c : Connection) (r : Outcome Bool × RecordSocket.Replying) (d : Connection)
    (s : RecordSocket.Replying)
    → Replies s r
    → Ends
        (continue r.0
          (λ ec. if ec then close_and_cleanup else on_data (ConnectionData.cleanup_request i))
          d).0
reply-Ends i c r d s (inl (e, run)) = rw run assertion_failed-Ends
reply-Ends i c r d s (inr (ec, t, run, _, _, _)) = rw run (
    (if-Terminates ec _ _ close_and_cleanup-Terminates
        (on_data-Terminates _ (cleanup_request-Terminates i))).at
      d)

commit-Terminates : (i p : ℕ) → Terminates (commit_reply_impl i p)
unfolding commit_reply_impl send_reply_of
commit-Terminates i p = record {
  at = λ c.
      if-Ends (ConnectionData.is_valid_request i p c.connection_data) _ _
        (reply-Ends i c _ _ _ (send_reply-Replies i _)) (ok-Ends tt);
}

run_oldest-Terminates : (tasks : List Task) → Terminates (run_oldest tasks)
unfolding run_oldest flush_protocol_socket
run_oldest-Terminates [] = record { at = λ c. ok-Ends tt }
run_oldest-Terminates (flush_protocol_socket_task ∷ rest) = record {
  at = λ c.
      (bind-Terminates _ _ (assert-Terminates (λ x. PacketSocket.is_closed x.state))
          (λ _. returns (λ s. tt) (λ x. flush_loop x.protocol_socket.unread x))).at
        (record c.packet_socket { connection_strand = rest });
}
run_oldest-Terminates (commit_reply_task i p ∷ rest) = record {
  at = λ c. (commit-Terminates i p).at _;
}

-- Every handler of a connection ends, whatever bytes arrive and whatever the network does: no loop
-- of the model runs out of the rounds that it is given.
pub step-Ends : (e : Event) (c : Connection) → Ends (step e c).0
unfolding step
step-Ends (read_done error received) c = (read-Terminates error received).at c
step-Ends run_task c = (run_oldest-Terminates c.packet_socket.connection_strand).at c
step-Ends (reply_posted i p) c = ok-Ends tt
