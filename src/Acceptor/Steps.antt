-- ===== src/Acceptor/Steps.antt =====
-- Fastcgi/Acceptor.h: handleAccept and the tasks of the strand.
use santiago_old.Prelude.{
  ℕ, suc, ◌+◌, ◌≤◌, ◌<◌, ◌≡◌, ◌∙◌, refl, sym, ◌⊎◌, inl, inr, ◌%◌, ◌^◌, false, Bool-cases, none,
  some, Option-cases, List, [], ◌∷◌, ◌++◌, arith, ◌==◌, ==_iff,
}
use santiago_old.Exec.{ok}
use santiago_old.OrderedMap.{nat_key, find, assign, erase, find-assign, find-erase}
use santiago_old.PacketSocket.{ProtocolSocket}
use santiago_old.RequestData.{RequestData}
use santiago_old.Connection
use santiago_old.Connection.{Connection, AcceptorCall, new_request_call, close_call, Event, step}
use santiago_old.Connection.Invariant.{closes_of}
use santiago_old.Connection.Life.{started, started-Inv}
use santiago_old.Request.{new_request}
use santiago_old.Acceptor.{
  Acceptor, Task, close_connection_task, new_request_task, accept_connection, handle_accept,
  close_connection, run_oldest_task,
}
use santiago_old.Acceptor.Tasks.{AcceptorInv, close_tasks}

-- The oldest task of the acceptor's strand.
close_task_found :
    (i : ℕ) (rest : List Task) (a : Acceptor)
    → a.strand ≡ close_connection_task i ∷ rest
    → AcceptorInv a
    → (c : Connection) × (find i a.active_connections ≡ some c) × (close_tasks i rest ≡ 0)
unfolding close_tasks
close_task_found i rest a h v = elim (Option-cases (find i a.active_connections)) [
  | inl e ↦ absurd (omega (arith, v.gone i e, waiting))
  | inr (c, e) ↦ (c, e, omega (arith, v.closes i c e, waiting, at_most (c.state)))
]
  where
    waiting : close_tasks i a.strand ≡ 1 + close_tasks i rest
    waiting = rw h (ground arith)

    at_most : (s : Connection.ConnectionState) → closes_of s ≤ 1
    at_most Connection.opened = omega arith
    at_most Connection.closing = omega arith
    at_most Connection.closed = omega arith

other_close :
    (i j : ℕ) (rest : List Task) (a : Acceptor)
    → a.strand ≡ close_connection_task i ∷ rest
    → (i == j) ≡ false
    → close_tasks j a.strand ≡ close_tasks j rest
unfolding close_tasks
other_close i j rest a h ne = rw h (ground (arith, ne))

close_connection-AcceptorInv :
    (i : ℕ) (rest : List Task) (a : Acceptor)
    → a.strand ≡ close_connection_task i ∷ rest
    → AcceptorInv a
    → ((close_connection i (record a { strand = rest })).0 ≡ ok tt)
      × AcceptorInv (close_connection i (record a { strand = rest })).1
unfolding close_connection
close_connection-AcceptorInv i rest a h v =
    let (c, found, no_other) = close_task_found i rest a h v in
    rw (found, close_connection)
      (
        refl,
        record {
          keeps = λ j d at. v.keeps j d (kept j d at);
          closes = λ j d at.
              sym (other_close i j rest a h (differs j d at)) ∙ v.closes j d (kept j d at);
          gone = λ j at. elim (Bool-cases (i == j)) [
            | inl eq ↦ rw (← (==_iff i j).0 eq) no_other
            | inr ne ↦
                sym (other_close i j rest a h ne)
                ∙ v.gone j (ground (arith, ne, find-erase i j a.active_connections, at))
          ];
          below = λ j d at. v.below j d (kept j d at);
        },
      )
  where
    differs :
        (j : ℕ) (d : Connection) → find j (erase i a.active_connections) ≡ some d → (i == j) ≡ false
    differs j d at = elim (Bool-cases (i == j)) [
      | inl eq ↦ absurd (ground (arith, eq, find-erase i j a.active_connections, at))
      | inr ne ↦ ne
    ]

    kept :
        (j : ℕ) (d : Connection)
        → find j (erase i a.active_connections) ≡ some d
        → find j a.active_connections ≡ some d
    kept j d at = ground (arith, differs j d at, find-erase i j a.active_connections, at)

new_request-AcceptorInv :
    (r : santiago_old.Request.Request) (rest : List Task) (a : Acceptor)
    → a.strand ≡ new_request_task r ∷ rest
    → AcceptorInv a
    → AcceptorInv (record a { strand = rest; new_requests = a.new_requests ++ (r ∷ []) })
new_request-AcceptorInv r rest a h v = record {
  keeps = v.keeps;
  closes = λ i c at. sym (same_closes i) ∙ v.closes i c at;
  gone = λ i at. sym (same_closes i) ∙ v.gone i at;
  below = v.below;
}
  where
    same_closes : (i : ℕ) → close_tasks i a.strand ≡ close_tasks i rest
    same_closes i = unfold close_tasks in rw h refl

pub run_oldest_task-AcceptorInv :
    (tasks : List Task) (a : Acceptor)
    → a.strand ≡ tasks
    → AcceptorInv a
    → ((run_oldest_task tasks a).0 ≡ ok tt) × AcceptorInv (run_oldest_task tasks a).1
unfolding run_oldest_task
run_oldest_task-AcceptorInv [] a h v = (refl, v)
run_oldest_task-AcceptorInv (close_connection_task i ∷ rest) a h v =
    close_connection-AcceptorInv i rest a h v
run_oldest_task-AcceptorInv (new_request_task r ∷ rest) a h v =
    (refl, new_request-AcceptorInv r rest a h v)

-- A new connection gets an id that is not in the map, as long as the counter has not wrapped.
pub accept-AcceptorInv :
    (socket : ProtocolSocket) (memory : ℕ → RequestData) (a : Acceptor)
    → suc a.next_connection_id < 2 ^ 32
    → AcceptorInv a
    → ((handle_accept false socket memory a).0 ≡ ok tt)
      × AcceptorInv (handle_accept false socket memory a).1
unfolding handle_accept accept_connection
accept-AcceptorInv socket memory a bound v = elim (Option-cases (find n a.active_connections)) [
  | inr (c, e) ↦ absurd (omega (arith, v.below n c e))
  | inl missing ↦ rw (missing, handle_accept) (refl, added missing)
]
  where
    n : ℕ
    n = a.next_connection_id

    cases :
        (j : ℕ) (d : Connection)
        → find j (assign n (started socket memory) a.active_connections) ≡ some d
        → ((j ≡ n) × (d ≡ started socket memory)) ⊎ (find j a.active_connections ≡ some d)
    cases j d h = elim (Bool-cases (n == j)) [
      | inl eq ↦ inl (
        sym ((==_iff n j).0 eq),
        ground (arith, eq, find-assign n j (started socket memory) a.active_connections, h),
      )
      | inr ne ↦
          inr (ground (arith, ne, find-assign n j (started socket memory) a.active_connections, h))
    ]

    started_open : closes_of (started socket memory).state ≡ 0
    started_open =
        unfold Connection.start santiago_old.RecordSocket.start Connection.new_connection in refl

    still_missing :
        (j : ℕ)
        → find j (assign n (started socket memory) a.active_connections) ≡ none
        → find j a.active_connections ≡ none
    still_missing j h =
        ground (arith, find-assign n j (started socket memory) a.active_connections, h)

    added :
        find n a.active_connections ≡ none
        → AcceptorInv
            (accept_connection n socket memory (record a { next_connection_id = suc n % 2 ^ 32 }))
    added missing = record {
      keeps = λ j d h. elim (cases j d h) [
        | inl (_, same) ↦ rw same (started-Inv socket memory)
        | inr old ↦ v.keeps j d old
      ];
      closes = λ j d h. elim (cases j d h) [
        | inl (at, same) ↦ rw (at, same) (v.gone n missing ∙ sym started_open)
        | inr old ↦ v.closes j d old
      ];
      gone = λ j h. v.gone j (still_missing j h);
      below = λ j d h. elim (cases j d h) [
        | inl (at, _) ↦ omega arith
        | inr old ↦ omega (arith, v.below j d old)
      ];
    }
