-- ===== src/Connection/Turns.antt =====
-- Fastcgi/Connection.h: a posted reply and the turns of the strand that are before it.
use santiago_old.Prelude.{
  ℕ, suc, Bool, ◌<◌, ◌≡◌, ◌≢◌, ◌∙◌, sym, ap, subst, inl, inr, List, [], ◌∷◌, ◌++◌, arith, length,
  Extends, Extends-trans, Extends-refl, Extends-append, append_assoc,
}
use santiago_old.Exec.{Exec, ok, thrown, halted, Outcome-cases}
use santiago_old.OrderedMap.{nat_key, find}
use santiago_old.Strand.{Task, flush_protocol_socket_task, commit_reply_task}
use santiago_old.ConnectionData
use santiago_old.ConnectionData.{ConnectionData, Entry, Notice}
use santiago_old.ConnectionData.Addresses.{Holds, IsAddressed, held_before, next-le}
use santiago_old.Connection.{
  Connection, Event, read_done, run_task, reply_posted, step, run_oldest, with_packet_socket,
  commit_reply, commit_reply_impl,
}
use santiago_old.Connection.Steps.{step-Keeps}
use santiago_old.Connection.Replies.{
  Leads, IsGone, handle_read-Leads, reply-Leads, flush-strand, commit_reply_impl-IsGone,
}
use santiago_old.Connection.DataLaws.{DataLaws, data_laws}

-- Events one after the other, each of which has to return.
unfoldable pub run_events : List Event → Exec Connection (Unit {0})
run_events [] c = (ok tt, c)
run_events (e ∷ es) c =
    let (r, t) = step e c in
    elim r [ ok _ ↦ run_events es t | thrown x ↦ (thrown x, t) | halted h ↦ (halted h, t) ]

pub run_events-step :
    (e : Event) (es : List Event) (c t : Connection)
    → step e c ≡ (ok tt, t)
    → run_events (e ∷ es) c ≡ run_events es t
unfolding run_events
run_events-step e es c t h = ground (arith, h)

-- The turns of the strand among events.
unfoldable pub turns : List Event → ℕ
turns [] = 0
turns (run_task ∷ es) = suc (turns es)
turns (_ ∷ es) = turns es

-- An object that is allocated, and that does not stand under the id.
record Left (i p : ℕ) (d : ConnectionData) : Type 0 where
  allocated : p < d.next_object
  nowhere : (x : Entry) → Holds d i x → x.request_data ≢ p

allocated_laws : (p : ℕ) → DataLaws (λ d. p < d.next_object)
allocated_laws p = record {
  change = λ change v. omega (arith, v, next-le change);
  clear = λ d v. unfold ConnectionData.clear in v;
  objects = λ d o v. v;
}

Left-laws : (i p : ℕ) → DataLaws (Left i p)
Left-laws i p = record {
  change = λ change v. record {
    allocated = omega (arith, v.allocated, next-le change);
    nowhere = λ x h eq. elim (held_before i x change h) [
      | inl (y, held, at) ↦ v.nowhere y held (omega arith)
      | inr (at, up) ↦ absurd (omega (arith, v.allocated))
    ];
  };
  clear = λ d v. record {
    allocated = unfold ConnectionData.clear in v.allocated;
    nowhere = λ x h eq. unfold ConnectionData.clear find in cc;
  };
  objects = λ d o v. record { allocated = v.allocated; nowhere = v.nowhere };
}

-- The first event returned, and the others follow.
record Follows (e : Event) (es : List Event) (c : Connection) : Type 0 where
  returns : (step e c).0 ≡ ok tt
  same : run_events (e ∷ es) c ≡ run_events es (step e c).1

run_events-Follows :
    (e : Event) (es : List Event) (c : Connection)
    → (run_events (e ∷ es) c).0 ≡ ok tt
    → Follows e es c
unfolding run_events
run_events-Follows e es c h = elim (Outcome-cases (step e c).0) [
  | inl (a, r) ↦ record { returns = r; same = ground (arith, r) }
  | inr (inl (x, r)) ↦ absurd (ground (arith, r, h))
  | inr (inr (x, r)) ↦ absurd (ground (arith, r, h))
]

module _ (i p : ℕ) where
  -- What the events after the first come to.
  after_first :
      (e : Event) (es : List Event) (c : Connection)
      → (run_events (e ∷ es) c).0 ≡ ok tt
      → ((run_events es (step e c).1).0 ≡ ok tt
          → Left i p (run_events es (step e c).1).1.connection_data)
      → Left i p (run_events (e ∷ es) c).1.connection_data
  after_first e es c h go =
      let f = run_events-Follows e es c h in rw (f.same) (go (ap (λ x. x.0) (sym f.same) ∙ h))

  stays-Left :
      (es : List Event) (c : Connection)
      → Left i p c.connection_data
      → (run_events es c).0 ≡ ok tt
      → Left i p (run_events es c).1.connection_data
  stays-Left [] c v h = unfold run_events in v
  stays-Left (e ∷ es) c v h =
      after_first e es c h
        (stays-Left es (step e c).1 ((step-Keeps (data_laws (Left-laws i p)) e).at c v))

  abbrev reply : Task
  reply = commit_reply_task i p

  -- The oldest task runs and the others move up.
  taken-Leads :
      (t : Task) (rest : List Task) (c : Connection) → Leads rest (run_oldest (t ∷ rest) c).1
  unfolding run_oldest
  taken-Leads flush_protocol_socket_task rest c =
      subst (λ ts. Extends rest ts)
        (sym (flush-strand (record c.packet_socket { connection_strand = rest })))
        (Extends-refl rest)
  taken-Leads (commit_reply_task j q) rest c =
      reply-Leads j q (with_packet_socket c (record c.packet_socket { connection_strand = rest }))

  turn-run :
      (t : Task) (rest : List Task) (c : Connection)
      → c.packet_socket.connection_strand ≡ t ∷ rest
      → step run_task c ≡ run_oldest (t ∷ rest) c
  unfolding step
  turn-run t rest c h = ap (λ ts. run_oldest ts c) h

  read-Leads :
      (error : Bool) (received : List ℕ) (ts : List Task) (c : Connection)
      → Leads ts c
      → Leads ts (step (read_done error received) c).1
  unfolding step
  read-Leads error received ts c v = Extends-trans v (handle_read-Leads error received c)

  posted-Leads :
      (j q : ℕ) (ts : List Task) (c : Connection)
      → Leads ts c
      → Leads ts (step (reply_posted j q) c).1
  unfolding step commit_reply
  posted-Leads j q ts c v = Extends-trans v (Extends-append c.packet_socket.connection_strand _)

  reply_turn :
      (back : List Task) (c : Connection)
      → c.packet_socket.connection_strand ≡ reply ∷ back
      → p < c.connection_data.next_object
      → (step run_task c).0 ≡ ok tt
      → Left i p (step run_task c).1.connection_data
  unfolding run_oldest
  reply_turn back c h below returns =
      let d = with_packet_socket c (record c.packet_socket { connection_strand = back }) in
      let run : step run_task c ≡ commit_reply_impl i p d = turn-run reply back c h in
      record {
        allocated = (step-Keeps (data_laws (allocated_laws p)) run_task).at c below;
        nowhere = rw run (commit_reply_impl-IsGone i p d (ap (λ x. x.0) (sym run) ∙ returns));
      }

  ends-Left :
      (es : List Event) (front : List Task) (c : Connection)
      → Leads (front ++ (reply ∷ [])) c
      → p < c.connection_data.next_object
      → (run_events es c).0 ≡ ok tt
      → length front < turns es
      → Left i p (run_events es c).1.connection_data
  unfolding turns
  ends-Left [] front c v below h enough = absurd (omega arith)
  ends-Left (run_task ∷ es) [] c v below h enough =
      let f = run_events-Follows run_task es c h in
      after_first run_task es c h
        (stays-Left es (step run_task c).1 (reply_turn v.back c v.at below f.returns))
  ends-Left (run_task ∷ es) (t ∷ front) c v below h enough =
      let moved : Leads (front ++ (reply ∷ [])) (step run_task c).1 =
        rw (turn-run t ((front ++ (reply ∷ [])) ++ v.back) c v.at) (
          Extends-trans (Extends-append (front ++ (reply ∷ [])) v.back)
            (taken-Leads t ((front ++ (reply ∷ [])) ++ v.back) c)) in
      after_first run_task es c h (λ rest.
        ends-Left es front (step run_task c).1 moved
          ((step-Keeps (data_laws (allocated_laws p)) run_task).at c below) rest (omega arith))
  ends-Left (read_done error received ∷ es) front c v below h enough =
      let e = read_done error received in
      after_first e es c h (λ rest.
        ends-Left es front (step e c).1 (read-Leads error received _ c v)
          ((step-Keeps (data_laws (allocated_laws p)) e).at c below) rest enough)
  ends-Left (reply_posted j q ∷ es) front c v below h enough =
      let e = reply_posted j q in
      after_first e es c h (λ rest.
        ends-Left es front (step e c).1 (posted-Leads j q _ c v)
          ((step-Keeps (data_laws (allocated_laws p)) e).at c below) rest enough)

-- The reply to a request of the map waits in the strand of its connection behind some tasks.
-- However the events go on, when each of them returns and the strand has had a turn for each of
-- these tasks and one more, the request is gone: no request with its object stands under its id.
pub reply_runs :
    (es : List Event) (front back : List Task) (i : ℕ) (e : Entry) (c : Connection)
    → IsAddressed c.connection_data
    → Holds c.connection_data i e
    → c.packet_socket.connection_strand ≡ front ++ (commit_reply_task i e.request_data ∷ back)
    → (run_events es c).0 ≡ ok tt
    → length front < turns es
    → IsGone i e.request_data (run_events es c).1
reply_runs es front back i e c addressed held waits returns enough =
    let leads : Leads (front ++ (commit_reply_task i e.request_data ∷ [])) c = record {
      back = back;
      at = waits ∙ sym (append_assoc front (commit_reply_task i e.request_data ∷ []) back);
    } in
    (ends-Left i e.request_data es front c leads (addressed.fresh i e held) returns enough).nowhere
