-- ===== src/Connection/Life.antt =====
-- Fastcgi/Connection.h: the histories of a connection, as events of its strand.
use santiago_old.Prelude.{
  ℕ, ◌<◌, ◌≡◌, inl, inr, refl, List, [], ◌∷◌, Bool, true, false, Bool-cases, arith, if◌then◌else◌,
}
use santiago_old.Exec.{Exec, Outcome, continue}
use santiago_old.Strand.{Task, flush_protocol_socket_task, commit_reply_task}
use santiago_old.PacketSocket
use santiago_old.PacketSocket.{PacketSocket, ProtocolSocket, flush_protocol_socket, flush_loop}
use santiago_old.RequestData.{RequestData}
use santiago_old.ConnectionData
use santiago_old.ConnectionData.{ConnectionData}
use santiago_old.ConnectionData.Filled.{cleanup_request-KeepsFilled}
use santiago_old.RecordSocket
use santiago_old.RecordSocket.{Replying, send_reply}
use santiago_old.RecordSocket.Reply.{Replies, send_reply-Replies}
use santiago_old.Connection.{
  Connection, with_packet_socket, new_connection, on_data, close_and_cleanup, commit_reply,
  commit_reply_impl, send_reply_of, run_oldest, Event, read_done, run_task, reply_posted, step,
  start,
}
use santiago_old.Connection.Invariant.{
  Inv, close_calls, close_and_cleanup-Inv, on_data-Inv, opened-not_closed,
}
use santiago_old.Connection.Packets.{handle_read-Inv}

module _ (c : Connection) (p : ℕ) where
  unfoldable pub replying : Replying
  replying = record { packet_socket = c.packet_socket; request = c.connection_data.objects p }

  unfoldable pub with_reply : Replying → Connection
  with_reply t = record c {
    packet_socket = t.packet_socket;
    connection_data = record c.connection_data {
      objects = ConnectionData.update c.connection_data.objects p t.request;
    };
  }

module _ (i p : ℕ) (c : Connection) where
  unfoldable pub after_reply : Bool → Exec Connection (Unit {0})
  after_reply ec = if ec then close_and_cleanup else on_data (ConnectionData.cleanup_request i)

  reply-Inv :
      (r : Outcome Bool × Replying)
      → Replies (replying c p) r
      → Inv c
      → Inv (continue r.0 after_reply (with_reply c p r.1)).1
  unfolding replying with_reply after_reply
  reply-Inv r (inl (e, run)) v = rw run (record {
    closes_together = v.closes_together;
    closes_once = v.closes_once;
    winds_down = v.winds_down;
  })
  reply-Inv r (inr (true, t, run, e, st, _)) v = rw run (
      close_and_cleanup-Inv _ (record {
        not_closed_yet = opened-not_closed c t.packet_socket v e;
        no_close = ground (arith, opened-not_closed c t.packet_socket v e, v.closes_once);
      }))
  reply-Inv r (inr (false, t, run, e, st, _)) v = rw run (
      on_data-Inv _ _ (cleanup_request-KeepsFilled i) (record {
        closes_together = ground (arith, e, st, v.closes_together);
        closes_once = v.closes_once;
        winds_down = v.winds_down;
      }))

  commit_reply_impl-Inv : Inv c → Inv (commit_reply_impl i p c).1
  unfolding commit_reply_impl send_reply_of
  commit_reply_impl-Inv v =
      elim (Bool-cases (ConnectionData.is_valid_request i p c.connection_data)) [
        | inr e ↦ rw e v
        | inl e ↦ rw e (
            unfold replying with_reply after_reply in
            reply-Inv (send_reply i (replying c p)) (send_reply-Replies i (replying c p)) v)
      ]

flush_loop-state : (u : List (List ℕ)) (p : PacketSocket) → (flush_loop u p).state ≡ p.state
unfolding flush_loop
flush_loop-state [] p = refl
flush_loop-state (x ∷ u) p = flush_loop-state u (record p { input_buffer = x })

flush-state : (p : PacketSocket) → (flush_protocol_socket p).1.state ≡ p.state
unfolding flush_protocol_socket
flush-state p = ground (arith, flush_loop-state p.protocol_socket.unread p)

-- Only the state of the packet socket matters to the invariant.
same_state-Inv :
    (c : Connection) (p : PacketSocket)
    → p.state ≡ c.packet_socket.state
    → Inv c
    → Inv (with_packet_socket c p)
same_state-Inv c p e v = record {
  closes_together = rw e v.closes_together;
  closes_once = v.closes_once;
  winds_down = v.winds_down;
}

run_oldest-Inv : (tasks : List Task) (c : Connection) → Inv c → Inv (run_oldest tasks c).1
unfolding run_oldest
run_oldest-Inv [] c v = v
run_oldest-Inv (flush_protocol_socket_task ∷ rest) c v =
    same_state-Inv c _ (flush-state (record c.packet_socket { connection_strand = rest })) v
run_oldest-Inv (commit_reply_task i p ∷ rest) c v =
    commit_reply_impl-Inv i p _
      (same_state-Inv c (record c.packet_socket { connection_strand = rest }) refl v)

pub step-Inv : (e : Event) (c : Connection) → Inv c → Inv (step e c).1
unfolding step commit_reply
step-Inv (read_done error received) c v = handle_read-Inv error received c v
step-Inv run_task c v = run_oldest-Inv c.packet_socket.connection_strand c v
step-Inv (reply_posted i p) c v = same_state-Inv c _ refl v

-- A finished read needs one under way.
abbrev pub IsEnabled : Event → Connection → Type 0
IsEnabled (read_done error received) c = 0 < c.packet_socket.protocol_socket.reads_pending
IsEnabled _ c = Unit

-- The histories of a connection, in any order of events.
pub data Reach (c : Connection) : Connection → Type 0 where
  here : Reach c c
  next :
      {d d' : Connection} → Reach c d → (e : Event) → IsEnabled e d → d' ≡ (step e d).1 → Reach c d'

-- A connection as the acceptor makes it: constructed over an open socket and started.
abbrev pub started : ProtocolSocket → (ℕ → RequestData) → Connection
started socket memory = (start (new_connection socket memory)).1

pub started-Inv : (socket : ProtocolSocket) (memory : ℕ → RequestData) → Inv (started socket memory)
unfolding start RecordSocket.start new_connection close_calls PacketSocket.start_async_packet_read
started-Inv socket memory = record {
  closes_together = unfold PacketSocket.new_packet_socket in refl;
  closes_once = refl;
  winds_down = λ e. cc;
}

-- In every history of a connection it closes together with its packet socket, its close callback
-- has been made exactly once if it is closed and never before, and while it winds down it still
-- holds a request.
pub reach-Inv :
    (socket : ProtocolSocket) (memory : ℕ → RequestData) (c : Connection)
    → Reach (started socket memory) c
    → Inv c
reach-Inv socket memory c here = started-Inv socket memory
reach-Inv socket memory c (next r e enabled run) =
    rw run (step-Inv e _ (reach-Inv socket memory _ r))
