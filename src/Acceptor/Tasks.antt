-- ===== src/Acceptor/Tasks.antt =====
-- Fastcgi/Acceptor.h: the tasks that the calls of a connection post.
use santiago_old.Prelude.{
  ℕ, ◌+◌, ◌<◌, ◌≡◌, ◌≢◌, ◌∙◌, refl, none, some, List, [], ◌∷◌, ◌++◌, append-nil, append_assoc,
  arith, ◌==◌, if◌then◌else◌,
}
use santiago_old.Exec.{ok}
use santiago_old.OrderedMap.{nat_key, find}
use santiago_old.Connection.{Connection, AcceptorCall, new_request_call, close_call}
use santiago_old.Connection.Invariant.{Inv, close_calls, closes_of}
use santiago_old.Request.{new_request}
use santiago_old.Acceptor.{
  Acceptor, Task, close_connection_task, new_request_task, handle_connection_close,
  handle_new_request, deliver,
}

-- The close tasks that wait for a connection.
unfoldable pub close_tasks : ℕ → List Task → ℕ
close_tasks i [] = 0
close_tasks i (close_connection_task j ∷ tasks) = (if i == j then 1 else 0) + close_tasks i tasks
close_tasks i (new_request_task r ∷ tasks) = close_tasks i tasks

-- Between two events every connection in the map keeps its invariant, and its close task waits
-- exactly while it is closed; no other close task waits; and ids are below the counter.
pub record AcceptorInv (a : Acceptor) : Type 0 where
  pub keeps : (i : ℕ) (c : Connection) → find i a.active_connections ≡ some c → Inv c
  pub closes :
      (i : ℕ) (c : Connection)
      → find i a.active_connections ≡ some c
      → close_tasks i a.strand ≡ closes_of c.state
  pub gone : (i : ℕ) → find i a.active_connections ≡ none → close_tasks i a.strand ≡ 0
  pub below :
      (i : ℕ) (c : Connection) → find i a.active_connections ≡ some c → i < a.next_connection_id

pub close_tasks-append :
    (i : ℕ) (xs ys : List Task) → close_tasks i (xs ++ ys) ≡ close_tasks i xs + close_tasks i ys
unfolding close_tasks
close_tasks-append i [] ys = omega arith
close_tasks-append i (close_connection_task j ∷ xs) ys = omega (arith, close_tasks-append i xs ys)
close_tasks-append i (new_request_task r ∷ xs) ys = close_tasks-append i xs ys

-- What the calls of a connection post.
unfoldable pub tasks_of : ℕ → List AcceptorCall → List Task
tasks_of i [] = []
tasks_of i (new_request_call r p ∷ calls) = new_request_task (new_request r p i) ∷ tasks_of i calls
tasks_of i (close_call ∷ calls) = close_connection_task i ∷ tasks_of i calls

pub close_tasks-tasks_of :
    (i : ℕ) (calls : List AcceptorCall) → close_tasks i (tasks_of i calls) ≡ close_calls calls
unfolding close_tasks tasks_of close_calls
close_tasks-tasks_of i [] = refl
close_tasks-tasks_of i (new_request_call r p ∷ calls) = close_tasks-tasks_of i calls
close_tasks-tasks_of i (close_call ∷ calls) = ground (arith, close_tasks-tasks_of i calls)

pub close_tasks-other :
    (i j : ℕ) (calls : List AcceptorCall) → j ≢ i → close_tasks j (tasks_of i calls) ≡ 0
unfolding close_tasks tasks_of
close_tasks-other i j [] h = refl
close_tasks-other i j (new_request_call r p ∷ calls) h = close_tasks-other i j calls h
close_tasks-other i j (close_call ∷ calls) h = ground (arith, close_tasks-other i j calls h)

abbrev pub posted : List Task → Acceptor → Acceptor
posted tasks a = record a { strand = a.strand ++ tasks }

-- The calls of a connection that is in the map only post.
pub deliver-posted :
    (i : ℕ) (c : Connection) (calls : List AcceptorCall) (a : Acceptor)
    → find i a.active_connections ≡ some c
    → deliver i calls a ≡ (ok tt, posted (tasks_of i calls) a)
unfolding deliver tasks_of handle_new_request handle_connection_close
deliver-posted i c [] a h = rw (append-nil a.strand)
deliver-posted i c (new_request_call r p ∷ calls) a h =
    let t = new_request_task (new_request r p i) in
    rw (h, handle_new_request)
      (deliver-posted i c calls (posted (t ∷ []) a) h
        ∙ rw (append_assoc a.strand (t ∷ []) (tasks_of i calls)))
deliver-posted i c (close_call ∷ calls) a h =
    let t = close_connection_task i in
    rw (h, handle_connection_close)
      (deliver-posted i c calls (posted (t ∷ []) a) h
        ∙ rw (append_assoc a.strand (t ∷ []) (tasks_of i calls)))
