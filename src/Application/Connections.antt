-- ===== src/Application/Connections.antt =====
-- Fastcgi/Acceptor.h under Server/Server.h: accepts, and the events of the connections.
use santiago_old.Prelude.{
  ℕ, suc, ◌<◌, ◌≡◌, ◌^◌, refl, inl, inr, some, Option-cases, true, false, List, [], ◌∷◌, arith,
  Among, Among-append_left, Among-append_right, Bool,
}
use santiago_old.Exec.{ok}
use santiago_old.OrderedMap.{nat_key, find}
use santiago_old.PacketSocket.{ProtocolSocket}
use santiago_old.RequestData.{RequestData}
use santiago_old.ConnectionData
use santiago_old.ConnectionData.{Entry}
use santiago_old.ConnectionData.Changes.{is_complete}
use santiago_old.ConnectionData.Addresses.{Holds}
use santiago_old.RecordSocket
use santiago_old.Connection.{
  Connection, AcceptorCall, new_request_call, close_call, Event, step, new_connection, start,
}
use santiago_old.Connection.Calls.{step_calls}
use santiago_old.Connection.Announce.{step_announced}
use santiago_old.Connection.Replies.{step-reply}
use santiago_old.Connection.Life.{started}
use santiago_old.Request.{new_request}
use santiago_old.Acceptor.{
  Acceptor, new_request_task, handle_accept, accept_connection, accepted, acceptor_step,
  accept_done, connection_event,
}
use santiago_old.Acceptor.Tasks.{tasks_of, posted}
use santiago_old.Acceptor.Connections.{
  stepped, new_tasks, stepped_cases, run_connection-posted, stepped-AcceptorInv,
}
use santiago_old.Acceptor.Histories.{acceptor_step-AcceptorInv}
use santiago_old.Application.{Application}
use santiago_old.Application.Tended.{IsTended, ApplicationInv, assign_cases}

-- The task that a call of a connection posts.
called-tasks_of :
    (i r p : ℕ) (calls : List AcceptorCall)
    → Among (new_request_call r p) calls
    → Among (new_request_task (new_request r p i)) (tasks_of i calls)
unfolding tasks_of
called-tasks_of i r p [] m = elim m [ ]
called-tasks_of i r p (new_request_call r' p' ∷ calls) (inl e) =
    let same_id : r' ≡ r = cc e in
    let same_object : p' ≡ p = cc e in inl (cc (same_id, same_object))
called-tasks_of i r p (new_request_call r' p' ∷ calls) (inr m) = inr (called-tasks_of i r p calls m)
called-tasks_of i r p (close_call ∷ calls) (inl e) = absurd (cc e)
called-tasks_of i r p (close_call ∷ calls) (inr m) = inr (called-tasks_of i r p calls m)

module _ (i : ℕ) (e : Event) (c : Connection) (s : Application)
    (found : find i s.acceptor.active_connections ≡ some c) (returns : (step e c).0 ≡ ok tt)
    (v : ApplicationInv s) where
  abbrev after : Application
  after = record s { acceptor = posted (new_tasks i e c s.acceptor) (stepped i e c s.acceptor) }

  -- A request of the connection itself.
  own-IsTended :
      (r : ℕ) (x : Entry)
      → Holds (step e c).1.connection_data r x
      → is_complete x ≡ true
      → IsTended after i r x.request_data (step e c).1
  unfolding stepped new_tasks
  own-IsTended r x holds full = elim (step_announced e c r x holds full) [
    | inr called ↦ inl (
        Among-append_right _ s.acceptor.strand (tasks_of i (step_calls e c).added)
          (called-tasks_of i r x.request_data (step_calls e c).added called))
    | inl before ↦ elim (v.nothing_lost i r c x found before full) [
      | inl m ↦ inl (Among-append_left _ s.acceptor.strand _ m)
      | inr (inl tended) ↦ inr (inl tended)
      | inr (inr m) ↦ elim (step-reply r x.request_data e c m returns) [
        | inl still ↦ inr (inr still)
        | inr gone ↦ absurd (gone x holds refl)
      ]
    ]
  ]

  happened-ApplicationInv : ApplicationInv after
  unfolding stepped new_tasks
  happened-ApplicationInv = record {
    acceptor = stepped-AcceptorInv i e c s.acceptor found v.acceptor;
    server = v.server;
    nothing_lost = λ j r d x at holds full. elim (stepped_cases i e c s.acceptor j d at) [
      | inl (same_id, same) ↦ rw (same_id, same) (own-IsTended r x (rw same at holds) full)
      | inr (_, old) ↦ elim (v.nothing_lost j r d x old holds full) [
        | inl m ↦ inl (Among-append_left _ s.acceptor.strand _ m)
        | inr other ↦ inr other
      ]
    ];
  }

pub connection_happens-ApplicationInv :
    (i : ℕ) (e : Event) (c : Connection) (s : Application)
    → find i s.acceptor.active_connections ≡ some c
    → (step e c).0 ≡ ok tt
    → ApplicationInv s
    → ApplicationInv (record s { acceptor = (acceptor_step (connection_event i e) s.acceptor).1 })
unfolding acceptor_step
connection_happens-ApplicationInv i e c s found returns v =
    rw (found, acceptor_step, run_connection-posted i e c s.acceptor returns)
      (happened-ApplicationInv i e c s found returns v)

started_empty :
    (socket : ProtocolSocket) (memory : ℕ → RequestData) (r : ℕ) (x : Entry)
    → ¬ (Holds (started socket memory).connection_data r x)
unfolding start RecordSocket.start new_connection ConnectionData.new_connection_data find
started_empty socket memory r x h = cc h

-- An accept adds a connection without requests.
accepted_before :
    (error : Bool) (socket : ProtocolSocket) (memory : ℕ → RequestData) (a : Acceptor) (i r : ℕ)
    (c : Connection) (x : Entry)
    → find i (handle_accept error socket memory a).1.active_connections ≡ some c
    → Holds c.connection_data r x
    → find i a.active_connections ≡ some c
unfolding handle_accept accept_connection
accepted_before true socket memory a i r c x found holds = found
accepted_before false socket memory a i r c x found holds =
    elim (Option-cases (find a.next_connection_id a.active_connections)) [
      | inr (d, e) ↦ rw (e, handle_accept) at found
      | inl e ↦
          elim (assign_cases a.next_connection_id i (started socket memory) c a.active_connections
            (rw (e, handle_accept) at found)) [
              | inl (_, new) ↦ absurd (started_empty socket memory r x (rw new at holds))
              | inr (_, old) ↦ old
            ]
    ]

accept-strand :
    (error : Bool) (socket : ProtocolSocket) (memory : ℕ → RequestData) (a : Acceptor)
    → (handle_accept error socket memory a).1.strand ≡ a.strand
unfolding handle_accept accept_connection
accept-strand true socket memory a = refl
accept-strand false socket memory a = ground arith

pub accept_finished-ApplicationInv :
    (error : Bool) (socket : ProtocolSocket) (memory : ℕ → RequestData) (s : Application)
    → suc s.acceptor.next_connection_id < 2 ^ 32
    → ApplicationInv s
    → ApplicationInv
        (record s { acceptor = (acceptor_step (accept_done error socket memory) s.acceptor).1 })
accept_finished-ApplicationInv error socket memory s bound v = record {
  acceptor =
      (acceptor_step-AcceptorInv (accept_done error socket memory) s.acceptor bound refl
        v.acceptor).1;
  server = v.server;
  nothing_lost = λ i r c x found holds full.
      unfold acceptor_step in
      elim (v.nothing_lost i r c x
        (accepted_before error socket memory (accepted s.acceptor) i r c x found holds) holds
        full) [
          | inl m ↦ inl (rw (accept-strand error socket memory (accepted s.acceptor)) m)
          | inr other ↦ inr other
        ];
}
