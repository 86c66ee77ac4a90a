-- ===== src/Connection/Commit.antt =====
-- Fastcgi/Connection.h: commitReplyImpl for a request that is there, on a working socket.
use santiago_old.Prelude.{
  ℕ, ◌≡◌, ◌∙◌, subst, ◌<◌, ◌^◌, refl, inl, inr, true, Bool-cases, none, List, ◌++◌, arith, length,
  ◌==◌,
}
use santiago_old.Exec.{Outcome, ok}
use santiago_old.OrderedMap.{nat_key, find, erase, find-erase}
use santiago_old.PacketSocket
use santiago_old.PacketSocket.Frames.{packets_bytes}
use santiago_old.PacketSocket.Wire.{IsReliable}
use santiago_old.ConnectionData
use santiago_old.ConnectionData.{
  ConnectionData, Entry, Notice, quiet, became_empty, has_flag, in_completed,
  check_for_empty_request_map, cleanup_request, is_valid_request, update,
}
use santiago_old.ConnectionData.Addresses.{Holds}
use santiago_old.ConnectionData.Chunks.{==-self}
use santiago_old.RecordSocket.{Replying}
use santiago_old.RecordSocket.Answers.{reply_packets, send_reply-Sends}
use santiago_old.Connection.{
  Connection, is_closing, close_and_cleanup, handle_on_empty, on_notice, on_data, send_reply_of,
  commit_reply_impl,
}

-- The request is gone from the data of a connection, which has sent these bytes.
pub record IsAnswered (i : ℕ) (sent : List ℕ) (r : Outcome (Unit {0}) × Connection) : Type 0 where
  pub returns : r.0 ≡ ok tt
  pub gone : find i r.1.connection_data.request_map ≡ none
  pub sends : r.1.packet_socket.protocol_socket.sent ≡ sent

close-sent :
    (p : PacketSocket.PacketSocket)
    → (PacketSocket.close p).protocol_socket.sent ≡ p.protocol_socket.sent
unfolding PacketSocket.close
close-sent p = ground arith

module _ (i : ℕ) (c : Connection) (gone : find i c.connection_data.request_map ≡ none) where
  nothing-IsAnswered : IsAnswered i c.packet_socket.protocol_socket.sent (ok tt, c)
  nothing-IsAnswered = record { returns = refl; gone = gone; sends = refl }

  close-IsAnswered : IsAnswered i c.packet_socket.protocol_socket.sent (close_and_cleanup c)
  unfolding close_and_cleanup ConnectionData.clear
  close-IsAnswered = record {
    returns = refl;
    gone = unfold find in refl;
    sends = close-sent c.packet_socket;
  }

  pub emptied-IsAnswered :
      IsAnswered i c.packet_socket.protocol_socket.sent
        (on_notice (check_for_empty_request_map c.connection_data) c)
  unfolding on_notice check_for_empty_request_map handle_on_empty
  emptied-IsAnswered = elim (Bool-cases (length c.connection_data.request_map == 0)) [
    | inr more ↦ rw more nothing-IsAnswered
    | inl empty ↦ rw empty (elim (Bool-cases (is_closing c.state)) [
      | inl e ↦ rw e close-IsAnswered
      | inr e ↦ rw e nothing-IsAnswered
    ])
  ]

pub cleanup-IsAnswered :
    (i : ℕ) (e : Entry) (c : Connection)
    → Holds c.connection_data i e
    → has_flag e.request_state in_completed ≡ true
    → IsAnswered i c.packet_socket.protocol_socket.sent (on_data (cleanup_request i) c)
unfolding on_data cleanup_request
cleanup-IsAnswered i e c held ended =
    let d = record c.connection_data { request_map = erase i c.connection_data.request_map } in
    let gone : find i d.request_map ≡ none =
      find-erase i i c.connection_data.request_map ∙ rw (==-self i) refl in
    rw (held, ended, cleanup_request) (emptied-IsAnswered i (record c { connection_data = d }) gone)

held_valid :
    (i : ℕ) (e : Entry) (c : Connection)
    → Holds c.connection_data i e
    → is_valid_request i e.request_data c.connection_data ≡ true
unfolding is_valid_request
held_valid i e c held = rw (held, is_valid_request) (==-self e.request_data)

-- The connection after sendReply.
abbrev with_after : Connection → ℕ → Replying → Connection
with_after c p t = record c {
  packet_socket = t.packet_socket;
  connection_data = record c.connection_data {
    objects = update c.connection_data.objects p t.request;
  };
}

-- When the user commits a request whose input is at its end, on an open socket that reports no
-- error, commitReplyImpl sends the packets of the whole reply, for buffers below 4 GB, and takes the
-- request out of the data.
pub commit-IsAnswered :
    (i : ℕ) (e : Entry) (c : Connection)
    → Holds c.connection_data i e
    → has_flag e.request_state in_completed ≡ true
    → c.packet_socket.state ≡ PacketSocket.opened
    → IsReliable c.packet_socket
    → length (c.connection_data.objects e.request_data).out_buffer < 2 ^ 32
    → length (c.connection_data.objects e.request_data).err_buffer < 2 ^ 32
    → IsAnswered i
        (c.packet_socket.protocol_socket.sent
          ++ packets_bytes (reply_packets i (c.connection_data.objects e.request_data)))
        (commit_reply_impl i e.request_data c)
unfolding commit_reply_impl send_reply_of
commit-IsAnswered i e c held ended is_open reliable short_out short_err =
    let p = e.request_data in
    let s : Replying = record {
      packet_socket = c.packet_socket;
      request = c.connection_data.objects p;
    } in
    let v = (send_reply-Sends i s is_open reliable short_out short_err).0 in
    let d = with_after c p v.after in
    rw (held_valid i e c held, v.returns)
      (subst (λ x. IsAnswered i x (on_data (cleanup_request i) d)) v.sends
        (cleanup-IsAnswered i e d held ended))
