-- ===== src/Acceptor/Delivery.antt =====
-- Fastcgi/Acceptor.h: the Fastcgi::Request objects that handleNewRequest makes, counted for each
-- object of each connection, from the strand of the acceptor to _newRequestCallbackFn.
use santiago_old.Prelude.{
  ℕ, ◌+◌, ◌≤◌, ◌<◌, ◌≡◌, ◌≢◌, ◌∙◌, refl, ap, inl, inr, Bool-cases, none, some, List, [], ◌∷◌, ◌++◌,
  arith, ◌==◌, ==_iff, if◌then◌else◌,
}
use santiago_old.OrderedMap.{nat_key, find, erase, find-erase}
use santiago_old.Connection.{Connection, AcceptorCall, new_request_call, close_call, Event, step}
use santiago_old.Connection.HandOver.{handed_over, handed_over-append}
use santiago_old.Connection.Tally.{HandsComplete, step-HandsComplete}
use santiago_old.Connection.Calls.{step_calls}
use santiago_old.Request.{Request, new_request}
use santiago_old.Acceptor.{Acceptor, Task, close_connection_task, new_request_task}
use santiago_old.Acceptor.Tasks.{AcceptorInv, tasks_of, posted}
use santiago_old.Acceptor.Connections.{stepped, new_tasks, stepped_cases}

-- One for a request over the object p of the connection i.
pub one_for : ℕ → ℕ → Request → ℕ
one_for i p r =
    if r.connection_id == i
    then elim r.data_weak_ptr [ none ↦ 0 | some q ↦ if p == q then 1 else 0 ]
    else 0

unfoldable pub waiting : ℕ → ℕ → List Task → ℕ
waiting i p [] = 0
waiting i p (new_request_task r ∷ tasks) = one_for i p r + waiting i p tasks
waiting i p (close_connection_task j ∷ tasks) = waiting i p tasks

unfoldable pub given : ℕ → ℕ → List Request → ℕ
given i p [] = 0
given i p (r ∷ requests) = one_for i p r + given i p requests

-- All that were made.
unfoldable pub made : ℕ → ℕ → Acceptor → ℕ
made i p a = waiting i p a.strand + given i p a.new_requests

pub waiting-append :
    (i p : ℕ) (xs ys : List Task) → waiting i p (xs ++ ys) ≡ waiting i p xs + waiting i p ys
unfolding waiting
waiting-append i p [] ys = omega arith
waiting-append i p (new_request_task r ∷ xs) ys = omega (arith, waiting-append i p xs ys)
waiting-append i p (close_connection_task j ∷ xs) ys = waiting-append i p xs ys

pub given-append :
    (i p : ℕ) (xs ys : List Request) → given i p (xs ++ ys) ≡ given i p xs + given i p ys
unfolding given
given-append i p [] ys = omega arith
given-append i p (r ∷ xs) ys = omega (arith, given-append i p xs ys)

pub waiting-tasks_of :
    (i p : ℕ) (calls : List AcceptorCall) → waiting i p (tasks_of i calls) ≡ handed_over p calls
unfolding waiting tasks_of handed_over one_for new_request
waiting-tasks_of i p [] = refl
waiting-tasks_of i p (new_request_call r q ∷ calls) = ground (arith, waiting-tasks_of i p calls)
waiting-tasks_of i p (close_call ∷ calls) = waiting-tasks_of i p calls

pub waiting-other :
    (i j p : ℕ) (calls : List AcceptorCall) → j ≢ i → waiting j p (tasks_of i calls) ≡ 0
unfolding waiting tasks_of one_for new_request
waiting-other i j p [] h = refl
waiting-other i j p (new_request_call r q ∷ calls) h = ground (arith, waiting-other i j p calls h)
waiting-other i j p (close_call ∷ calls) h = waiting-other i j p calls h

-- For each connection that is alive as many were made as it has handed over; and never a second one
-- for one object, also after the connection is gone.
pub record Delivers (a : Acceptor) : Type 0 where
  pub tallied : (i : ℕ) (c : Connection) → find i a.active_connections ≡ some c → HandsComplete c
  pub exact :
      (i p : ℕ) (c : Connection)
      → find i a.active_connections ≡ some c
      → made i p a ≡ handed_over p c.calls
  pub once : (i p : ℕ) → made i p a ≤ 1
  pub unused : (i p : ℕ) → a.next_connection_id ≤ i → made i p a ≡ 0

-- The invariant reads the connections, and how many were made.
pub same_made-Delivers :
    (a b : Acceptor)
    → ((i : ℕ) (c : Connection)
        → find i b.active_connections ≡ some c
        → find i a.active_connections ≡ some c)
    → ((i p : ℕ) → made i p b ≡ made i p a)
    → a.next_connection_id ≤ b.next_connection_id
    → Delivers a
    → Delivers b
same_made-Delivers a b sub same up v = record {
  tallied = λ i c h. v.tallied i c (sub i c h);
  exact = λ i p c h. same i p ∙ v.exact i p c (sub i c h);
  once = λ i p. omega (arith, same i p, v.once i p);
  unused = λ i p h. omega (arith, same i p, v.unused i p);
}

pub find-erase_sub :
    (i j : ℕ) (c : Connection) (a : Acceptor)
    → find j (erase i a.active_connections) ≡ some c
    → find j a.active_connections ≡ some c
find-erase_sub i j c a h = ground (arith, find-erase i j a.active_connections, h)

-- An event of a connection makes a request for each call.
module _ (i : ℕ) (e : Event) (c : Connection) (a : Acceptor)
    (found : find i a.active_connections ≡ some c) (v : Delivers a) where
  abbrev after : Acceptor
  after = posted (new_tasks i e c a) (stepped i e c a)

  handed_over-step :
      (p : ℕ)
      → handed_over p (step e c).1.calls
        ≡ handed_over p c.calls + handed_over p (step_calls e c).added
  handed_over-step p =
      ap (handed_over p) (step_calls e c).starts
      ∙ handed_over-append p c.calls (step_calls e c).added

  made-own : (p : ℕ) → made i p after ≡ handed_over p (step e c).1.calls
  unfolding made stepped new_tasks
  made-own p = omega (
    arith,
    waiting-append i p a.strand (tasks_of i (step_calls e c).added),
    waiting-tasks_of i p (step_calls e c).added,
    handed_over-step p,
    v.exact i p c found,
  )

  made-other : (j p : ℕ) → j ≢ i → made j p after ≡ made j p a
  unfolding made stepped new_tasks
  made-other j p h = omega (
    arith,
    waiting-append j p a.strand (tasks_of i (step_calls e c).added),
    waiting-other i j p (step_calls e c).added h,
  )

  pub stepped-Delivers : AcceptorInv a → Delivers after
  stepped-Delivers inv = record {
    tallied = λ j d h. elim (stepped_cases i e c a j d h) [
      | inl (_, now) ↦ rw now (step-HandsComplete e c (v.tallied i c found))
      | inr (_, old) ↦ v.tallied j d old
    ];
    exact = λ j p d h. elim (stepped_cases i e c a j d h) [
      | inl (at, now) ↦ rw (at, now) (made-own p)
      | inr (other, old) ↦ made-other j p other ∙ v.exact j p d old
    ];
    once = λ j p. elim (Bool-cases (j == i)) [
      | inl eq ↦
          rw ((==_iff j i).0 eq) (
            omega
              (arith, made-own p, (step-HandsComplete e c (v.tallied i c found)).tallied.once p))
      | inr ne ↦ omega (arith, made-other j p (ground (arith, ne)), v.once j p)
    ];
    unused = λ j p h.
        let below : i < a.next_connection_id = inv.below i c found in
        let above : a.next_connection_id ≤ j = unfold stepped in h in
        made-other j p (omega arith) ∙ v.unused j p above;
  }
