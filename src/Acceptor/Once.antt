-- ===== src/Acceptor/Once.antt =====
-- Fastcgi/Acceptor.h: the requests that are made in the histories of an acceptor.
use santiago_old.Prelude.{
  ℕ, suc, ◌+◌, ◌≤◌, ◌<◌, ◌≡◌, ◌∙◌, refl, inl, inr, ◌^◌, ◌%◌, true, false, some, Option-cases, List,
  [], ◌∷◌, ◌++◌, arith, if◌then◌else◌, Bool-cases, ◌==◌, ==_iff, ◌⊎◌, sym,
}
use santiago_old.Exec.{ok}
use santiago_old.OrderedMap.{nat_key, find, assign, find-assign}
use santiago_old.PacketSocket.{ProtocolSocket}
use santiago_old.RequestData.{RequestData}
use santiago_old.ConnectionData.{Entry}
use santiago_old.ConnectionData.Changes.{is_complete}
use santiago_old.ConnectionData.Addresses.{Holds}
use santiago_old.Connection.{Connection, new_connection, start}
use santiago_old.RecordSocket
use santiago_old.Connection.HandOver.{handed_over}
use santiago_old.Connection.Tally.{started-HandsComplete}
use santiago_old.Connection.Life.{started}
use santiago_old.Acceptor.{
  Acceptor, Task, close_connection_task, new_request_task, new_acceptor, accept_connection,
  handle_accept, close_connection, run_oldest_task, acceptor_step, accepted, AcceptorEvent,
  accept_done, run_acceptor_task, connection_event,
}
use santiago_old.Acceptor.Tasks.{AcceptorInv}
use santiago_old.Acceptor.Connections.{run_connection-posted}
use santiago_old.Acceptor.Delivery.{
  Delivers, made, waiting, given, given-append, same_made-Delivers, find-erase_sub,
  stepped-Delivers,
}
use santiago_old.Acceptor.Histories.{
  AcceptorReach, at_start, and_then, IsPossible, own_outcome, own_returns, reach-AcceptorInv,
}

-- The oldest task of the strand.
pub run_oldest_task-Delivers :
    (tasks : List Task) (a : Acceptor)
    → a.strand ≡ tasks
    → Delivers a
    → Delivers (run_oldest_task tasks a).1
unfolding run_oldest_task close_connection made waiting
run_oldest_task-Delivers [] a h v = v
run_oldest_task-Delivers (close_connection_task i ∷ rest) a h v =
    elim (Option-cases (find i a.active_connections)) [
      | inl e ↦
          rw (e, close_connection)
            (same_made-Delivers a _ (λ j c at. at) same_strand (omega arith) v)
      | inr (c, e) ↦
          rw (e, close_connection)
            (same_made-Delivers a _ (λ j d at. find-erase_sub i j d a at) same_strand (omega arith)
              v)
    ]
  where
    same_strand : (j p : ℕ) → waiting j p rest + given j p a.new_requests ≡ made j p a
    same_strand j p = unfold made waiting in rw h refl
run_oldest_task-Delivers (new_request_task r ∷ rest) a h v =
    same_made-Delivers a _ (λ j c at. at) moved (omega arith) v
  where
    moved : (j p : ℕ) → waiting j p rest + given j p (a.new_requests ++ (r ∷ [])) ≡ made j p a
    moved j p =
        unfold made waiting given in rw h (omega (arith, given-append j p a.new_requests (r ∷ [])))

-- The first request of a new connection is still to come.
accept-Delivers :
    (socket : ProtocolSocket) (memory : ℕ → RequestData) (a : Acceptor)
    → suc a.next_connection_id < 2 ^ 32
    → Delivers a
    → Delivers (handle_accept false socket memory a).1
unfolding handle_accept accept_connection made
accept-Delivers socket memory a bound v = elim (Option-cases (find n a.active_connections)) [
  | inr (c, e) ↦
      rw (e, handle_accept) (same_made-Delivers a b (λ i d h. h) (λ i p. refl) (omega arith) v)
  | inl e ↦
      rw (e, handle_accept)
        (record {
          tallied = λ i d h. elim (cases i d h) [
            | inl (_, new) ↦ rw new (started-HandsComplete socket memory)
            | inr old ↦ v.tallied i d old
          ];
          exact = λ i p d h. elim (cases i d h) [
            | inl (at, new) ↦ rw (at, new) (v.unused n p (omega arith) ∙ sym (no_calls p))
            | inr old ↦ v.exact i p d old
          ];
          once = v.once;
          unused = λ i p h. v.unused i p (omega arith);
        })
]
  where
    n : ℕ
    n = a.next_connection_id

    b : Acceptor
    b = record a { next_connection_id = suc n % 2 ^ 32 }

    no_calls : (p : ℕ) → handed_over p (started socket memory).calls ≡ 0
    no_calls p = unfold start RecordSocket.start new_connection handed_over in refl

    cases :
        (j : ℕ) (d : Connection)
        → find j (assign n (started socket memory) a.active_connections) ≡ some d
        → ((j ≡ n) × (d ≡ started socket memory)) ⊎ (find j a.active_connections ≡ some d)
    cases j d h = elim (Bool-cases (n == j)) [
      | inl eq ↦ inl (
        sym ((==_iff n j).0 eq),
        ground (arith, eq, find-assign n j (started socket memory) a.active_connections, h),
      )
      | inr ne ↦
          inr (ground (arith, ne, find-assign n j (started socket memory) a.active_connections, h))
    ]

pub acceptor_step-Delivers :
    (e : AcceptorEvent) (a : Acceptor)
    → IsPossible e a
    → own_outcome e a ≡ ok tt
    → AcceptorInv a
    → Delivers a
    → Delivers (acceptor_step e a).1
unfolding acceptor_step made
acceptor_step-Delivers (accept_done true socket memory) a h own inv v =
    unfold handle_accept in same_made-Delivers a _ (λ i d at. at) (λ i p. refl) (omega arith) v
acceptor_step-Delivers (accept_done false socket memory) a h own inv v =
    accept-Delivers socket memory (accepted a) h
      (same_made-Delivers a _ (λ i d at. at) (λ i p. refl) (omega arith) v)
acceptor_step-Delivers run_acceptor_task a h own inv v = run_oldest_task-Delivers a.strand a refl v
acceptor_step-Delivers (connection_event i e) a (c, found, enabled) own inv v =
    rw (found, acceptor_step)
      (rw (run_connection-posted i e c a (rw (found, own_outcome) at own))
        (stepped-Delivers i e c a found v inv))

new_acceptor-Delivers : Delivers new_acceptor
unfolding new_acceptor find made waiting given
new_acceptor-Delivers = record {
  tallied = λ i c h. cc;
  exact = λ i p c h. cc;
  once = λ i p. omega arith;
  unused = λ i p h. refl;
}

pub reach-Delivers : (a : Acceptor) → AcceptorReach new_acceptor a → Delivers a
reach-Delivers a at_start = new_acceptor-Delivers
reach-Delivers a (and_then {b} r e possible returns run) = rw run (
    acceptor_step-Delivers e b possible (own_returns e b possible returns) (reach-AcceptorInv b r)
      (reach-Delivers b r))

-- In every history of an acceptor that accepts fewer than 2 ^ 32 connections, there is exactly one
-- Fastcgi::Request, in its strand or given to _newRequestCallbackFn, for a request of a connection in
-- the map whose params and input are both at their end, and none for a request that is not at its end.
pub one_request_when_complete :
    (a : Acceptor) (i j : ℕ) (c : Connection) (e : Entry)
    → AcceptorReach new_acceptor a
    → find i a.active_connections ≡ some c
    → Holds c.connection_data j e
    → made i e.request_data a ≡ (if is_complete e then 1 else 0)
one_request_when_complete a i j c e r found held =
    let v = reach-Delivers a r in
    v.exact i e.request_data c found ∙ (v.tallied i c found).tallied.exact j e held

-- In every history of an acceptor that accepts fewer than 2 ^ 32 connections, at most one
-- Fastcgi::Request is made for any one object of any one connection, and so for none twice when its
-- connection is gone.
pub never_twice : (a : Acceptor) (i p : ℕ) → AcceptorReach new_acceptor a → made i p a ≤ 1
never_twice a i p r = (reach-Delivers a r).once i p
