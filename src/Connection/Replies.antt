-- ===== src/Connection/Replies.antt =====
-- Fastcgi/Connection.h: the replies that wait in the strand of a connection.
use santiago_old.Prelude.{
  Extends, Extends-refl, Extends-trans, Among-Extends, ℕ, ◌≡◌, ◌≢◌, ◌⊎◌, inl, inr, refl, sym, subst,
  none, Option-cases, List, [], ◌∷◌, Bool, true, false, Bool-cases, arith, if◌then◌else◌, Among,
  Among-append_left,
}
use santiago_old.Exec.{Outcome, ok, thrown, halted, continue}
use santiago_old.OrderedMap.{nat_key, find}
use santiago_old.Strand.{Task, flush_protocol_socket_task, commit_reply_task}
use santiago_old.PacketSocket.{PacketSocket, flush_protocol_socket, flush_loop}
use santiago_old.PacketSocket.Effects.{close-Extends}
use santiago_old.ConnectionData
use santiago_old.ConnectionData.{
  ConnectionData, Entry, Notice, quiet, request_ready, became_empty, has_flag, in_completed,
  cleanup_request, check_for_empty_request_map, is_valid_request,
}
use santiago_old.ConnectionData.Changes.{perform}
use santiago_old.ConnectionData.Addresses.{Holds}
use santiago_old.PacketSocket.Read.{handle_read}
use santiago_old.Connection.{
  host, Connection, with_packet_socket, is_closing, close_and_cleanup, handle_on_empty,
  handle_request_ready, on_notice, on_data, send_reply_of, commit_reply, commit_reply_impl,
  run_oldest, Event, read_done, run_task, reply_posted, step,
}
use santiago_old.Connection.Commit.{cleanup-IsAnswered}
use santiago_old.Connection.Packets.{Keeps}
use santiago_old.Connection.Steps.{HandlerLaws, handle_read-Keeps, reply-Keeps}

-- A task waits in the strand.
abbrev pub Waits : Task → Connection → Type 0
Waits x c = Among x c.packet_socket.connection_strand

-- The strand begins with these tasks.
abbrev pub Leads : List Task → Connection → Type 0
Leads ts c = Extends ts c.packet_socket.connection_strand

module _ (ts : List Task) where
  close_and_cleanup-Leads : Keeps (Leads ts) close_and_cleanup
  unfolding close_and_cleanup
  close_and_cleanup-Leads = record { at = λ c m. Extends-trans m (close-Extends c.packet_socket) }

  notice-Leads :
      (r : Outcome Notice) (c : Connection) → Leads ts c → Leads ts (continue r on_notice c).1
  unfolding on_notice handle_request_ready handle_on_empty
  notice-Leads (ok quiet) c m = m
  notice-Leads (ok (request_ready i p)) c m = m
  notice-Leads (ok became_empty) c m = emptied (is_closing c.state)
    where
      emptied : (b : Bool) → Leads ts (if b then close_and_cleanup c else (ok tt, c)).1
      emptied true = close_and_cleanup-Leads.at c m
      emptied false = m
  notice-Leads (thrown e) c m = m
  notice-Leads (halted h) c m = m

  Leads-laws : HandlerLaws (Leads ts)
  Leads-laws = record {
    socket = λ c p grows m. Extends-trans m grows;
    objects = λ c o m. m;
    operation = λ op. record {
      at = λ c m.
          unfold on_data in
          notice-Leads (perform op c.connection_data).0
            (record c { connection_data = (perform op c.connection_data).1 }) m;
    };
    closes = close_and_cleanup-Leads;
    winds = λ c m. m;
  }

pub handle_read-Leads :
    (error : Bool) (received : List ℕ) (c : Connection)
    → Leads c.packet_socket.connection_strand (handle_read host error received c).1
handle_read-Leads error received c =
    (handle_read-Keeps (Leads-laws c.packet_socket.connection_strand) error received).at c
      (Extends-refl c.packet_socket.connection_strand)

pub reply-Leads :
    (i p : ℕ) (c : Connection) → Leads c.packet_socket.connection_strand (commit_reply_impl i p c).1
reply-Leads i p c =
    (reply-Keeps (Leads-laws c.packet_socket.connection_strand) i p).at c
      (Extends-refl c.packet_socket.connection_strand)

flush_loop-strand :
    (u : List (List ℕ)) (p : PacketSocket)
    → (flush_loop u p).connection_strand ≡ p.connection_strand
unfolding flush_loop
flush_loop-strand [] p = refl
flush_loop-strand (b ∷ u) p = flush_loop-strand u (record p { input_buffer = b })

pub flush-strand :
    (p : PacketSocket) → (flush_protocol_socket p).1.connection_strand ≡ p.connection_strand
unfolding flush_protocol_socket
flush-strand p = ground (arith, flush_loop-strand p.protocol_socket.unread p)

-- No request with the object stands under the id.
abbrev pub IsGone : ℕ → ℕ → Connection → Type 0
IsGone i p c = (x : Entry) → Holds c.connection_data i x → x.request_data ≢ p

module _ (i p : ℕ) where
  none-IsGone : (c : Connection) → find i c.connection_data.request_map ≡ none → IsGone i p c
  none-IsGone c gone x held = absurd (cc (gone, held))

  close-IsGone : (c : Connection) → IsGone i p (close_and_cleanup c).1
  unfolding close_and_cleanup ConnectionData.clear find
  close-IsGone c x held = cc

  cleanup-IsGone :
      (c : Connection)
      → (on_data (cleanup_request i) c).0 ≡ ok tt
      → IsGone i p (on_data (cleanup_request i) c).1
  cleanup-IsGone c returns = elim (Option-cases (find i c.connection_data.request_map)) [
    | inl missing ↦
        absurd (unfold on_data cleanup_request in (cc (rw (missing, cleanup_request) at returns)))
    | inr (x, held) ↦ elim (Bool-cases (has_flag x.request_state in_completed)) [
      | inl ended ↦
          none-IsGone (on_data (cleanup_request i) c).1 (cleanup-IsAnswered i x c held ended).gone
      | inr more ↦
          absurd
            (unfold on_data cleanup_request in (cc (rw (held, more, cleanup_request) at returns)))
    ]
  ]

  sent-IsGone :
      (r : Outcome Bool) (c : Connection)
      → (continue r (λ ec. if ec then close_and_cleanup else on_data (cleanup_request i)) c).0
        ≡ ok tt
      → IsGone i p
          (continue r (λ ec. if ec then close_and_cleanup else on_data (cleanup_request i)) c).1
  sent-IsGone (ok true) c returns = close-IsGone c
  sent-IsGone (ok false) c returns = cleanup-IsGone c returns
  sent-IsGone (thrown e) c returns = absurd (cc returns)
  sent-IsGone (halted h) c returns = absurd (cc returns)

  -- After a reply that returns its request is gone.
  pub commit_reply_impl-IsGone :
      (c : Connection)
      → (commit_reply_impl i p c).0 ≡ ok tt
      → IsGone i p (commit_reply_impl i p c).1
  unfolding commit_reply_impl
  commit_reply_impl-IsGone c returns = elim (Bool-cases (is_valid_request i p c.connection_data)) [
    | inl e ↦ rw e (sent-IsGone (send_reply_of i p c).0 (send_reply_of i p c).1 (rw e at returns))
    | inr e ↦ rw e (invalid e)
  ]
    where
      invalid : is_valid_request i p c.connection_data ≡ false → IsGone i p c
      invalid e x held at =
          unfold is_valid_request in absurd (ground (arith, rw (held, is_valid_request) at e, at))

-- What becomes of a reply that waits, when an event returns: it waits still, or its request is gone.
module _ (i p : ℕ) where
  abbrev reply : Task
  reply = commit_reply_task i p

  taken_cases :
      (tasks : List Task) (c : Connection)
      → Among reply tasks
      → (run_oldest tasks c).0 ≡ ok tt
      → Waits reply (run_oldest tasks c).1 ⊎ IsGone i p (run_oldest tasks c).1
  unfolding run_oldest
  taken_cases [] c m returns = absurd m
  taken_cases (flush_protocol_socket_task ∷ rest) c (inl e) returns = absurd (cc e)
  taken_cases (flush_protocol_socket_task ∷ rest) c (inr m) returns = inl (
      subst (λ ts. Among reply ts)
        (sym (flush-strand (record c.packet_socket { connection_strand = rest }))) m)
  taken_cases (commit_reply_task j q ∷ rest) c (inl e) returns =
      let d = with_packet_socket c (record c.packet_socket { connection_strand = rest }) in
      let same_id : j ≡ i = cc e in
      let same_object : q ≡ p = cc e in
      inr (rw (← same_id, ← same_object) (commit_reply_impl-IsGone j q d returns))
  taken_cases (commit_reply_task j q ∷ rest) c (inr m) returns = inl (
      Among-Extends reply
        (reply-Leads j q
          (with_packet_socket c (record c.packet_socket { connection_strand = rest })))
        m)

  pub step-reply :
      (e : Event) (c : Connection)
      → Waits reply c
      → (step e c).0 ≡ ok tt
      → Waits reply (step e c).1 ⊎ IsGone i p (step e c).1
  unfolding step commit_reply
  step-reply (read_done error received) c m returns =
      inl (Among-Extends reply (handle_read-Leads error received c) m)
  step-reply run_task c m returns = taken_cases c.packet_socket.connection_strand c m returns
  step-reply (reply_posted j q) c m returns =
      inl (Among-append_left reply c.packet_socket.connection_strand _ m)
