-- ===== src/Acceptor/Histories.antt =====
-- Fastcgi/Acceptor.h: the histories of an acceptor, as accepts, tasks and events of connections.
use santiago_old.Prelude.{ℕ, suc, ◌<◌, ◌≡◌, refl, ◌^◌, true, false, none, some}
use santiago_old.Exec.{Exec, Outcome, ok, thrown, halted, continue}
use santiago_old.OrderedMap.{nat_key, find}
use santiago_old.Connection.{Connection, Event, step}
use santiago_old.Connection.Life.{IsEnabled}
use santiago_old.Acceptor.{
  Acceptor, new_acceptor, accepted, handle_accept, AcceptorEvent, accept_done, run_acceptor_task,
  connection_event, run_connection, acceptor_step,
}
use santiago_old.Acceptor.Tasks.{AcceptorInv, close_tasks}
use santiago_old.Acceptor.Connections.{run_connection-posted, stepped-AcceptorInv}
use santiago_old.Acceptor.Steps.{run_oldest_task-AcceptorInv, accept-AcceptorInv}

-- A connection's event needs what the connection needs for it; and the counter must not wrap.
abbrev pub IsPossible : AcceptorEvent → Acceptor → Type 0
IsPossible (accept_done error socket memory) a = suc a.next_connection_id < 2 ^ 32
IsPossible run_acceptor_task a = Unit
IsPossible (connection_event i e) a =
    (c : Connection) × (find i a.active_connections ≡ some c) × IsEnabled e c

-- What the connection's own handler comes to, before its calls.
abbrev pub own_outcome : AcceptorEvent → Acceptor → Outcome (Unit {0})
own_outcome (connection_event i e) a = elim (find i a.active_connections) [
  | none ↦ ok tt
  | some c ↦ (step e c).0
]
own_outcome _ a = ok tt

-- The histories of an acceptor in which the process lives on.
pub data AcceptorReach (a : Acceptor) : Acceptor → Type 0 where
  at_start : AcceptorReach a a
  and_then :
      {b b' : Acceptor}
      → AcceptorReach a b
      → (e : AcceptorEvent) → IsPossible e b
      → (acceptor_step e b).0 ≡ ok tt
      → b' ≡ (acceptor_step e b).1
      → AcceptorReach a b'

connection_event-AcceptorInv :
    (i : ℕ) (e : Event) (c : Connection) (a : Acceptor)
    → find i a.active_connections ≡ some c
    → (step e c).0 ≡ ok tt
    → AcceptorInv a
    → ((run_connection i e c a).0 ≡ ok tt) × AcceptorInv (run_connection i e c a).1
connection_event-AcceptorInv i e c a found returns v =
    rw (run_connection-posted i e c a returns) (refl, stepped-AcceptorInv i e c a found v)

pub acceptor_step-AcceptorInv :
    (e : AcceptorEvent) (a : Acceptor)
    → IsPossible e a
    → own_outcome e a ≡ ok tt
    → AcceptorInv a
    → ((acceptor_step e a).0 ≡ ok tt) × AcceptorInv (acceptor_step e a).1
unfolding acceptor_step
acceptor_step-AcceptorInv (accept_done true socket memory) a h own v =
    unfold handle_accept in
    (refl, record { keeps = v.keeps; closes = v.closes; gone = v.gone; below = v.below })
acceptor_step-AcceptorInv (accept_done false socket memory) a h own v =
    accept-AcceptorInv socket memory (accepted a) h
      (record { keeps = v.keeps; closes = v.closes; gone = v.gone; below = v.below })
acceptor_step-AcceptorInv run_acceptor_task a h own v =
    run_oldest_task-AcceptorInv a.strand a refl v
acceptor_step-AcceptorInv (connection_event i e) a (c, found, enabled) own v =
    rw (found, acceptor_step)
      (connection_event-AcceptorInv i e c a found (rw (found, own_outcome) at own) v)

pub own_returns :
    (e : AcceptorEvent) (a : Acceptor)
    → IsPossible e a
    → (acceptor_step e a).0 ≡ ok tt
    → own_outcome e a ≡ ok tt
unfolding acceptor_step run_connection
own_returns (accept_done error socket memory) a h r = refl
own_returns run_acceptor_task a h r = refl
own_returns (connection_event i e) a (c, found, enabled) r =
    rw (found, own_outcome)
      (first_returns (step e c).0 _ _ (rw (found, acceptor_step, run_connection) at r))
  where
    first_returns :
        (o : Outcome (Unit {0})) (k : Unit {0} → Exec Acceptor (Unit {0})) (b : Acceptor)
        → (continue o k b).0 ≡ ok tt
        → o ≡ ok tt
    first_returns (ok u) k b x = refl
    first_returns (thrown y) k b x = x
    first_returns (halted y) k b x = x

pub new_acceptor-AcceptorInv : AcceptorInv new_acceptor
unfolding new_acceptor find close_tasks
new_acceptor-AcceptorInv = record {
  keeps = λ i c h. cc;
  closes = λ i c h. cc;
  gone = λ i h. refl;
  below = λ i c h. cc;
}

-- In every history of an acceptor that accepts fewer than 2 ^ 32 connections, each connection in
-- the map keeps its invariant; one task to close it waits in the acceptor's strand while it is closed
-- and none before; and no task waits to close a connection that is not in the map. The ids in the map
-- are below the counter.
pub reach-AcceptorInv : (a : Acceptor) → AcceptorReach new_acceptor a → AcceptorInv a
reach-AcceptorInv a at_start = new_acceptor-AcceptorInv
reach-AcceptorInv a (and_then {b} r e possible returns run) =
    rw run
      (acceptor_step-AcceptorInv e b possible (own_returns e b possible returns)
        (reach-AcceptorInv b r)).1

-- The four assertions of the acceptor on its map hold in every history: a handler returns unless
-- the connection's own handler, which it follows, does not.
pub asserts_hold :
    (a : Acceptor) (e : AcceptorEvent)
    → AcceptorReach new_acceptor a
    → IsPossible e a
    → own_outcome e a ≡ ok tt
    → (acceptor_step e a).0 ≡ ok tt
asserts_hold a e r possible own =
    (acceptor_step-AcceptorInv e a possible own (reach-AcceptorInv a r)).0
