-- ===== src/Connection/Silence.antt =====
-- Fastcgi/Connection.h: a connection whose packet socket is closed.
use santiago_old.Prelude.{
  ℕ, ◌≡◌, ◌∙◌, ap, refl, inl, inr, Bool, true, Bool-cases, List, [], ◌∷◌, arith,
}
use santiago_old.Exec.{Outcome, continue, assert}
use santiago_old.Strand.{Task, flush_protocol_socket_task, commit_reply_task}
use santiago_old.PacketSocket
use santiago_old.PacketSocket.{PacketSocket, flush_protocol_socket, flush_loop}
use santiago_old.PacketSocket.Read.{after_read, handle_read}
use santiago_old.ConnectionData
use santiago_old.RecordSocket.{Replying, send_reply}
use santiago_old.RecordSocket.Reply.{Replies, send_reply-Replies}
use santiago_old.Connection.{
  Connection, host, commit_reply, commit_reply_impl, send_reply_of, run_oldest, Event, read_done,
  run_task, reply_posted, step,
}
use santiago_old.Connection.Life.{Reach, here, next, replying, with_reply, after_reply}

-- The packet socket is closed and has sent the same bytes.
pub record IsSilent (sent : List ℕ) (c : Connection) : Type 0 where
  pub closed : PacketSocket.is_closed c.packet_socket.state ≡ true
  pub same : c.packet_socket.protocol_socket.sent ≡ sent

module _ (sent : List ℕ) where
  flush_loop-same :
      (u : List (List ℕ)) (p : PacketSocket)
      → (flush_loop u p).protocol_socket.sent ≡ p.protocol_socket.sent
  unfolding flush_loop
  flush_loop-same [] p = refl
  flush_loop-same (x ∷ u) p = flush_loop-same u (record p { input_buffer = x })

  flush_loop-closed : (u : List (List ℕ)) (p : PacketSocket) → (flush_loop u p).state ≡ p.state
  unfolding flush_loop
  flush_loop-closed [] p = refl
  flush_loop-closed (x ∷ u) p = flush_loop-closed u (record p { input_buffer = x })

  read-IsSilent :
      (error : Bool) (received : List ℕ) (c : Connection)
      → IsSilent sent c
      → IsSilent sent (handle_read host error received c).1
  unfolding handle_read after_read
  read-IsSilent error received c v = rw v.closed (record { closed = v.closed; same = v.same })

  reply-IsSilent :
      (i p : ℕ) (c : Connection) (r : Outcome Bool × Replying)
      → Replies (replying c p) r
      → IsSilent sent c
      → IsSilent sent (continue r.0 (after_reply i p c) (with_reply c p r.1)).1
  unfolding replying with_reply
  reply-IsSilent i p c r (inl (e, run)) v = rw run (record { closed = v.closed; same = v.same })
  reply-IsSilent i p c r (inr (ec, t, run, open_still, _, _)) v =
      absurd (ground (arith, open_still, v.closed))

  commit-IsSilent :
      (i p : ℕ) (c : Connection) → IsSilent sent c → IsSilent sent (commit_reply_impl i p c).1
  unfolding commit_reply_impl send_reply_of
  commit-IsSilent i p c v =
      elim (Bool-cases (ConnectionData.is_valid_request i p c.connection_data)) [
        | inr e ↦ rw e v
        | inl e ↦ rw e (
            unfold replying with_reply after_reply in
            reply-IsSilent i p c (send_reply i (replying c p)) (send_reply-Replies i (replying c p))
              v)
      ]

  run_oldest-IsSilent :
      (tasks : List Task) (c : Connection) → IsSilent sent c → IsSilent sent (run_oldest tasks c).1
  unfolding run_oldest flush_protocol_socket
  run_oldest-IsSilent [] c v = v
  run_oldest-IsSilent (flush_protocol_socket_task ∷ rest) c v =
      let p = record c.packet_socket { connection_strand = rest } in
      rw (v.closed, assert)
        (record {
          closed =
              ap PacketSocket.is_closed (flush_loop-closed p.protocol_socket.unread p) ∙ v.closed;
          same = flush_loop-same p.protocol_socket.unread p ∙ v.same;
        })
  run_oldest-IsSilent (commit_reply_task i p ∷ rest) c v =
      commit-IsSilent i p _ (record { closed = v.closed; same = v.same })

  step-IsSilent : (e : Event) (c : Connection) → IsSilent sent c → IsSilent sent (step e c).1
  unfolding step commit_reply
  step-IsSilent (read_done error received) c v = read-IsSilent error received c v
  step-IsSilent run_task c v = run_oldest-IsSilent c.packet_socket.connection_strand c v
  step-IsSilent (reply_posted i p) c v = record { closed = v.closed; same = v.same }

-- Once the packet socket of a connection is closed it stays closed, and no byte is sent any more,
-- whatever happens to the connection.
pub reach-IsSilent :
    (c d : Connection)
    → Reach c d
    → PacketSocket.is_closed c.packet_socket.state ≡ true
    → IsSilent c.packet_socket.protocol_socket.sent d
reach-IsSilent c d here h = record { closed = h; same = refl }
reach-IsSilent c d (next {d = x} r e enabled run) h =
    rw run (step-IsSilent c.packet_socket.protocol_socket.sent e x (reach-IsSilent c x r h))
