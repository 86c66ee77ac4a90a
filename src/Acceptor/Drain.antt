-- ===== src/Acceptor/Drain.antt =====
-- Fastcgi/Acceptor.h: the strand of the acceptor, run until its tasks are done.
use santiago_old.Prelude.{
  ℕ, zero, suc, ◌≡◌, ◌∙◌, ap, refl, inl, inr, none, some, Option-cases, List, [], ◌∷◌, arith,
  length,
}
use santiago_old.Exec.{Exec, Outcome, ok, ◌>>◌, pure}
use santiago_old.OrderedMap.{nat_key, find}
use santiago_old.Connection
use santiago_old.Connection.{Connection}
use santiago_old.Acceptor.{
  Acceptor, Task, close_connection_task, new_request_task, new_acceptor, close_connection,
  run_oldest_task, acceptor_step, run_acceptor_task,
}
use santiago_old.Acceptor.Tasks.{AcceptorInv, close_tasks}
use santiago_old.Acceptor.Steps.{run_oldest_task-AcceptorInv}
use santiago_old.Acceptor.Delivery.{find-erase_sub}
use santiago_old.Acceptor.Histories.{AcceptorReach, reach-AcceptorInv}

-- The strand runs some tasks, one after the other.
unfoldable pub run_tasks : ℕ → Exec Acceptor (Unit {0})
run_tasks zero = pure tt
run_tasks (suc n) = acceptor_step run_acceptor_task >> run_tasks n

-- What is left after all the tasks have run.
record IsDrained (a : Acceptor) (r : Outcome (Unit {0}) × Acceptor) : Type 0 where
  returns : r.0 ≡ ok tt
  keeps : AcceptorInv r.1
  empty : r.1.strand ≡ []
  smaller :
      (i : ℕ) (c : Connection)
      → find i r.1.active_connections ≡ some c
      → find i a.active_connections ≡ some c

-- A task is taken off the strand, and takes at most a connection with it.
record RunsOne (rest : List Task) (a : Acceptor) (r : Outcome (Unit {0}) × Acceptor) : Type 0 where
  returns : r.0 ≡ ok tt
  keeps : AcceptorInv r.1
  strand : r.1.strand ≡ rest
  smaller :
      (i : ℕ) (c : Connection)
      → find i r.1.active_connections ≡ some c
      → find i a.active_connections ≡ some c

pub close_connection-strand : (i : ℕ) (a : Acceptor) → (close_connection i a).1.strand ≡ a.strand
unfolding close_connection
close_connection-strand i a = ground arith

pub close_connection-smaller :
    (i j : ℕ) (c : Connection) (a : Acceptor)
    → find j (close_connection i a).1.active_connections ≡ some c
    → find j a.active_connections ≡ some c
unfolding close_connection
close_connection-smaller i j c a h = elim (Option-cases (find i a.active_connections)) [
  | inl e ↦ rw (e, close_connection) at h
  | inr (x, e) ↦ find-erase_sub i j c a (rw (e, close_connection) at h)
]

task-RunsOne :
    (t : Task) (rest : List Task) (a : Acceptor)
    → a.strand ≡ t ∷ rest
    → AcceptorInv a
    → RunsOne rest a (run_oldest_task (t ∷ rest) a)
unfolding run_oldest_task
task-RunsOne (close_connection_task i) rest a h v =
    let (returns, keeps) = run_oldest_task-AcceptorInv (close_connection_task i ∷ rest) a h v in
    record {
      returns = returns;
      keeps = keeps;
      strand = close_connection-strand i (record a { strand = rest });
      smaller = λ j c at. close_connection-smaller i j c (record a { strand = rest }) at;
    }
task-RunsOne (new_request_task r) rest a h v =
    let (returns, keeps) = run_oldest_task-AcceptorInv (new_request_task r ∷ rest) a h v in
    record { returns = returns; keeps = keeps; strand = refl; smaller = λ j c at. at }

runs_first :
    (t : Task) (rest : List Task) (a : Acceptor)
    → a.strand ≡ t ∷ rest
    → (run_oldest_task (t ∷ rest) a).0 ≡ ok tt
    → acceptor_step run_acceptor_task a ≡ (ok tt, (run_oldest_task (t ∷ rest) a).1)
unfolding acceptor_step
runs_first t rest a h returns = ap (λ x. run_oldest_task x a) h ∙ cc returns

run_tasks-IsDrained :
    (tasks : List Task) (a : Acceptor)
    → a.strand ≡ tasks
    → AcceptorInv a
    → IsDrained a (run_tasks (length tasks) a)
unfolding run_tasks
run_tasks-IsDrained [] a h v = record {
  returns = refl;
  keeps = v;
  empty = h;
  smaller = λ i c at. at;
}
run_tasks-IsDrained (t ∷ rest) a h v =
    let one = task-RunsOne t rest a h v in
    let all = run_tasks-IsDrained rest (run_oldest_task (t ∷ rest) a).1 one.strand one.keeps in
    rw (runs_first t rest a h one.returns) (record {
      returns = all.returns;
      keeps = all.keeps;
      empty = all.empty;
      smaller = λ i c at. one.smaller i c (all.smaller i c at);
    })

-- In every history of an acceptor that accepts fewer than 2 ^ 32 connections, once its strand has run
-- the tasks that wait in it, each of which returns, a connection that was closed is in the map no
-- more.
pub closed_connection_goes :
    (a : Acceptor) (i : ℕ) (c : Connection)
    → AcceptorReach new_acceptor a
    → find i a.active_connections ≡ some c
    → c.state ≡ Connection.closed
    → ((run_tasks (length a.strand) a).0 ≡ ok tt)
      × (find i (run_tasks (length a.strand) a).1.active_connections ≡ none)
unfolding close_tasks
closed_connection_goes a i c r found shut =
    let v = run_tasks-IsDrained a.strand a refl (reach-AcceptorInv a r) in
    let b = (run_tasks (length a.strand) a).1 in
    (
      v.returns,
      elim (Option-cases (find i b.active_connections)) [
        | inl gone ↦ gone
        | inr (d, still) ↦
            let same : some d ≡ some c = cc (v.smaller i d still, found) in
            absurd (ground (arith, v.keeps.closes i d still, v.empty, same, shut))
      ],
    )
