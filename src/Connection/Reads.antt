-- ===== src/Connection/Reads.antt =====
-- Fastcgi/PacketSocket.h: the reads that a connection has under way.
use santiago_old.Prelude.{
  ℕ, suc, ◌+◌, ◌-◌, ◌<◌, ◌≡◌, ◌∙◌, inl, inr, refl, List, [], ◌∷◌, Bool, true, false, Bool-cases,
  arith, length, if◌then◌else◌,
}
use santiago_old.Exec.{Exec, Outcome, continue}
use santiago_old.Strand.{Task, flush_protocol_socket_task, commit_reply_task}
use santiago_old.PacketSocket
use santiago_old.PacketSocket.{PacketSocket, ProtocolSocket, flush_protocol_socket, flush_loop}
use santiago_old.PacketSocket.Read.{consume, after_read, handle_read, read_loop}
use santiago_old.PacketSocket.Keeps.{read_loop-Keeps}
use santiago_old.PacketSocket.Effects.{SameInput}
use santiago_old.RequestData.{RequestData}
use santiago_old.ConnectionData
use santiago_old.ConnectionData.{ConnectionData, Notice, quiet, request_ready, became_empty}
use santiago_old.RecordSocket
use santiago_old.RecordSocket.{write_or_report, handle_new_packet, send_reply}
use santiago_old.RecordSocket.Reply.{Replies, send_reply-Replies}
use santiago_old.Connection.{
  Connection, with_packet_socket, close_and_cleanup, on_data, callbacks, host, start,
  new_connection, send_reply_of, commit_reply_impl, commit_reply, run_oldest, read_done, run_task,
  reply_posted, step,
}
use santiago_old.Connection.Sockets.{close_and_cleanup-part, on_data-part, handle_new_packet-part}
use santiago_old.Connection.Life.{
  Reach, here, next, IsEnabled, started, replying, with_reply, after_reply,
}

-- The read handlers that are still to be called.
unfoldable pub pending : Connection → ℕ
pending c = c.packet_socket.protocol_socket.reads_pending

abbrev reads_of : PacketSocket → ℕ
reads_of p = p.protocol_socket.reads_pending

close-reads_of : (p : PacketSocket) → reads_of (PacketSocket.close p) ≡ reads_of p
unfolding PacketSocket.close
close-reads_of p = ground arith

same-reads_of : (p q : PacketSocket) → SameInput p q → reads_of q ≡ reads_of p
same-reads_of p q same = same.reads

module _ (c : Connection) where
  close_and_cleanup-pending : pending (close_and_cleanup c).1 ≡ pending c
  unfolding pending
  close_and_cleanup-pending = close_and_cleanup-part reads_of same-reads_of close-reads_of c

  on_data-pending : (m : Exec ConnectionData Notice) → pending (on_data m c).1 ≡ pending c
  unfolding pending
  on_data-pending m = on_data-part reads_of same-reads_of close-reads_of m c

  packet-pending :
      (e : Bool) (i t : ℕ) (b : List ℕ)
      → pending (handle_new_packet callbacks e i t b c).1 ≡ pending c
  unfolding pending
  packet-pending e i t b = handle_new_packet-part reads_of same-reads_of close-reads_of e i t b c

read_loop-pending : (fuel : ℕ) (c : Connection) → pending (read_loop host fuel c).1 ≡ pending c
read_loop-pending fuel c =
    read_loop-Keeps host (λ d. pending d ≡ pending c)
      (λ i t b d e. packet-pending d false i t b ∙ e) (λ k d e. unfold consume pending in e) fuel c
      refl

error-pending :
    (c : Connection) (p : PacketSocket)
    → p.protocol_socket.reads_pending ≡ pending c
    → pending (handle_new_packet callbacks true 0 0 [] (with_packet_socket c p)).1 ≡ pending c
error-pending c p e = packet-pending (with_packet_socket c p) true 0 0 [] ∙ (unfold pending in e)

handle_read-pending :
    (error : Bool) (received : List ℕ) (c : Connection)
    → pending (handle_read host error received c).1 ≡ pending c - 1
unfolding handle_read
handle_read-pending error received c =
    elim (Bool-cases (PacketSocket.is_closed d.packet_socket.state)) [
      | inl e ↦ rw e taken
      | inr e ↦ rw e (open_read error ∙ taken)
    ]
  where
    d : Connection
    d = after_read host received c

    taken : pending d ≡ pending c - 1
    taken = unfold pending after_read in refl

    open_read :
        (b : Bool)
        → pending
            (if b
              then handle_new_packet callbacks true 0 0 []
                  (with_packet_socket d (PacketSocket.close d.packet_socket))
              else read_loop host (suc (length d.packet_socket.input_buffer)) d).1
          ≡ pending d
    open_read true =
        error-pending d (PacketSocket.close d.packet_socket)
          (unfold pending PacketSocket.close in ground arith)
    open_read false = read_loop-pending _ d

flush_loop-pending :
    (u : List (List ℕ)) (p : PacketSocket)
    → (flush_loop u p).protocol_socket.reads_pending ≡ p.protocol_socket.reads_pending
unfolding flush_loop
flush_loop-pending [] p = refl
flush_loop-pending (x ∷ u) p = flush_loop-pending u (record p { input_buffer = x })

reply-pending :
    (i p : ℕ) (c : Connection) (r : Outcome Bool × RecordSocket.Replying)
    → Replies (replying c p) r
    → pending (continue r.0 (after_reply i p c) (with_reply c p r.1)).1 ≡ pending c
unfolding replying with_reply after_reply
reply-pending i p c r (inl (e, run)) = rw run (unfold pending in refl)
reply-pending i p c r (inr (true, t, run, _, _, same)) =
    rw run (close_and_cleanup-pending _ ∙ (unfold pending in same.reads))
reply-pending i p c r (inr (false, t, run, _, _, same)) =
    rw run (on_data-pending _ _ ∙ (unfold pending in same.reads))

commit_reply_impl-pending :
    (i p : ℕ) (c : Connection) → pending (commit_reply_impl i p c).1 ≡ pending c
unfolding commit_reply_impl send_reply_of
commit_reply_impl-pending i p c =
    elim (Bool-cases (ConnectionData.is_valid_request i p c.connection_data)) [
      | inr e ↦ rw e
      | inl e ↦ rw e (
          unfold replying with_reply after_reply in
          reply-pending i p c (send_reply i (replying c p)) (send_reply-Replies i (replying c p)))
    ]

run_oldest-pending :
    (tasks : List Task) (c : Connection) → pending (run_oldest tasks c).1 ≡ pending c
unfolding run_oldest
run_oldest-pending [] c = refl
run_oldest-pending (flush_protocol_socket_task ∷ rest) c =
    unfold pending flush_protocol_socket in
    ground (
      arith,
      flush_loop-pending c.packet_socket.protocol_socket.unread
          (record c.packet_socket { connection_strand = rest }),
    )
run_oldest-pending (commit_reply_task i p ∷ rest) c =
    commit_reply_impl-pending i p _ ∙ (unfold pending in refl)

posted-pending : (i p : ℕ) (c : Connection) → pending (commit_reply i p c) ≡ pending c
unfolding pending commit_reply
posted-pending i p c = refl

-- How many read handlers a history has run.
unfoldable pub reads_run : {c d : Connection} → Reach c d → ℕ
reads_run here = 0
reads_run (next r (read_done error received) _ _) = suc (reads_run r)
reads_run (next r run_task _ _) = reads_run r
reads_run (next r (reply_posted i p) _ _) = reads_run r

reads_run-pending : {c d : Connection} (r : Reach c d) → reads_run r + pending d ≡ pending c
unfolding reads_run step
reads_run-pending here = omega arith
reads_run-pending (next {d} r (read_done error received) enabled run) =
    rw run
      (omega (arith, reads_run-pending r, handle_read-pending error received d, positive d enabled))
  where
    positive : (x : Connection) → IsEnabled (read_done error received) x → 0 < pending x
    positive x h = unfold pending in h
reads_run-pending (next {d} r run_task enabled run) =
    rw run (rw (run_oldest-pending d.packet_socket.connection_strand d) (reads_run-pending r))
reads_run-pending (next {d} r (reply_posted i p) enabled run) =
    rw run (rw (posted-pending i p d) (reads_run-pending r))

-- A connection whose socket has no read under way when it is accepted handles one read in its whole
-- life, whatever the peer sends and whatever packets were still cut short: handleRead starts no
-- other, so from then on no read handler is left to run.
pub one_read_only :
    (socket : ProtocolSocket) (memory : ℕ → RequestData) (c : Connection)
    (r : Reach (started socket memory) c)
    → socket.reads_pending ≡ 0
    → reads_run r + pending c ≡ 1
one_read_only socket memory c r h = reads_run-pending r ∙ begun
  where
    begun : pending (started socket memory) ≡ 1
    begun =
        unfold pending start RecordSocket.start new_connection PacketSocket.start_async_packet_read
          PacketSocket.new_packet_socket in
        ground (arith, h)
