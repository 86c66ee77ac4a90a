-- ===== src/Acceptor/Connections.antt =====
-- Fastcgi/Acceptor.h: a handler of a connection in the map, and the calls that it makes.
use santiago_old.Prelude.{
  ℕ, ◌≡◌, ◌≢◌, ◌∙◌, sym, ap, ◌⊎◌, inl, inr, Bool-cases, some, List, ◌++◌, arith, length, drop,
  drop-append_length, ◌==◌, ==_iff, if◌then◌else◌,
}
use santiago_old.Exec.{ok}
use santiago_old.OrderedMap.{nat_key, find, assign, find-assign}
use santiago_old.Connection.{Connection, Event, step}
use santiago_old.Connection.Invariant.{Inv, close_calls, closes_of, close_calls-append}
use santiago_old.Connection.Life.{step-Inv}
use santiago_old.Connection.Calls.{step_calls}
use santiago_old.Acceptor.{Acceptor, Task, run_connection}
use santiago_old.Acceptor.Tasks.{
  AcceptorInv, close_tasks, close_tasks-append, tasks_of, close_tasks-tasks_of, close_tasks-other,
  posted, deliver-posted,
}

-- An event of a connection in the map.
module _ (i : ℕ) (e : Event) (c : Connection) (a : Acceptor) where
  unfoldable pub stepped : Acceptor
  stepped = record a { active_connections = assign i (step e c).1 a.active_connections }

  find-stepped :
      (j : ℕ)
      → find j stepped.active_connections
        ≡ (if i == j then some (step e c).1 else find j a.active_connections)
  unfolding stepped
  find-stepped j = find-assign i j (step e c).1 a.active_connections

  unfoldable pub new_tasks : List Task
  new_tasks = tasks_of i (step_calls e c).added

  pub run_connection-posted :
      (step e c).0 ≡ ok tt → run_connection i e c a ≡ (ok tt, posted new_tasks stepped)
  unfolding run_connection stepped new_tasks
  run_connection-posted h =
      let d = (step e c).1 in
      let calls = step_calls e c in
      let added : drop (length c.calls) d.calls ≡ calls.added =
        ap (drop (length c.calls)) calls.starts ∙ drop-append_length c.calls calls.added in
      rw (h, added)
        (deliver-posted i d calls.added
          (record a { active_connections = assign i d a.active_connections })
          (find-assign i i d a.active_connections ∙ ground arith))

  close_tasks-new : (j : ℕ) → j ≢ i → close_tasks j (a.strand ++ new_tasks) ≡ close_tasks j a.strand
  unfolding new_tasks
  close_tasks-new j h = omega (
    arith,
    close_tasks-append j a.strand new_tasks,
    close_tasks-other i j (step_calls e c).added h,
  )

  closes-stepped :
      Inv c
      → close_tasks i a.strand ≡ closes_of c.state
      → close_tasks i (a.strand ++ new_tasks) ≡ closes_of (step e c).1.state
  unfolding new_tasks
  closes-stepped v h =
      let calls = step_calls e c in
      omega (
        arith,
        close_tasks-append i a.strand new_tasks,
        close_tasks-tasks_of i calls.added,
        close_calls-append c.calls calls.added,
        ap close_calls calls.starts,
        v.closes_once,
        (step-Inv e c v).closes_once,
        h,
      )

  pub stepped_cases :
      (j : ℕ) (d : Connection)
      → find j stepped.active_connections ≡ some d
      → ((j ≡ i) × (d ≡ (step e c).1)) ⊎ ((j ≢ i) × (find j a.active_connections ≡ some d))
  stepped_cases j d h = elim (Bool-cases (i == j)) [
    | inl eq ↦ inl (sym ((==_iff i j).0 eq), ground (arith, eq, find-stepped j, h))
    | inr ne ↦ inr (ground (arith, ne), ground (arith, ne, find-stepped j, h))
  ]

  pub stepped-AcceptorInv :
      find i a.active_connections ≡ some c → AcceptorInv a → AcceptorInv (posted new_tasks stepped)
  unfolding stepped
  stepped-AcceptorInv found v = record {
    keeps = λ j d h. elim (stepped_cases j d h) [
      | inl (_, same) ↦ rw same (step-Inv e c (v.keeps i c found))
      | inr (_, old) ↦ v.keeps j d old
    ];
    closes = λ j d h. elim (stepped_cases j d h) [
      | inl (at, same) ↦ rw (at, same) (closes-stepped (v.keeps i c found) (v.closes i c found))
      | inr (other, old) ↦ close_tasks-new j other ∙ v.closes j d old
    ];
    gone = λ j h. elim (Bool-cases (i == j)) [
      | inl eq ↦ absurd (ground (arith, eq, find-stepped j, h))
      | inr ne ↦
          close_tasks-new j (ground (arith, ne)) ∙ v.gone j (ground (arith, ne, find-stepped j, h))
    ];
    below = λ j d h. elim (stepped_cases j d h) [
      | inl (at, _) ↦ omega (arith, v.below i c found)
      | inr (_, old) ↦ v.below j d old
    ];
  }
