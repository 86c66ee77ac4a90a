-- ===== src/Request/Once.antt =====
-- Fastcgi/Request.h: commit, cancel and the destructor, over the state of a request.
use santiago_old.Prelude.{ℕ, ◌≡◌, refl, inl, inr, Bool, true, false, Option-cases, arith}
use santiago_old.Exec.{Exec, Outcome, ok, thrown, halted, assertion_failed, already_replied}
use santiago_old.RequestData.{RequestData}
use santiago_old.Connection.{Connection}
use santiago_old.Request.{
  Held, is_valid, lock_both, get_connection_and_request_data, commit, cancel, destroy_amid,
  ConnectionMap, mark_replied, on_object, get_stdin_buffer, get_fcgi_params,
}

get_valid :
    (s : Held)
    → is_valid s ≡ true
    → (pair : Connection × ℕ) × (get_connection_and_request_data s ≡ (ok pair, s))
unfolding is_valid get_connection_and_request_data
get_valid s h = elim (Option-cases (lock_both s)) [
  | inl e ↦ absurd (ground (arith, e, h))
  | inr (pair, e) ↦ (pair, ground (arith, e, h))
]

get_replied :
    (s : Held)
    → s.request.has_replied ≡ true
    → get_connection_and_request_data s ≡ (thrown already_replied, s)
unfolding get_connection_and_request_data
get_replied s h = ground (arith, h)

-- Every operation of a request that has been answered refuses with the same exception.
pub record Refuses (s : Held) : Type 0 where
  pub on_commit : commit s ≡ (thrown already_replied, s)
  pub on_cancel : cancel s ≡ (thrown already_replied, s)
  pub on_change : (f : RequestData → RequestData) → on_object f s ≡ (thrown already_replied, s)
  pub on_stdin : get_stdin_buffer s ≡ (thrown already_replied, s)
  pub on_params : get_fcgi_params s ≡ (thrown already_replied, s)
  pub on_destroy : (others : ConnectionMap → ConnectionMap) → destroy_amid others s ≡ (ok tt, s)

replied-Refuses : (s : Held) → s.request.has_replied ≡ true → Refuses s
unfolding commit cancel on_object get_stdin_buffer get_fcgi_params destroy_amid is_valid
replied-Refuses s h =
    let e = get_replied s h in
    record {
      on_commit = rw e refl;
      on_cancel = rw e refl;
      on_change = λ f. rw e refl;
      on_stdin = rw e refl;
      on_params = rw e refl;
      on_destroy = λ others. ground (arith, h);
    }

abbrev pub answer : Bool → Exec Held (Unit {0})
answer true = cancel
answer false = commit

-- A valid request can be answered, by commit or by cancel; afterwards it is not valid, and every
-- operation refuses.
pub answered_once :
    (by_cancel : Bool) (s : Held)
    → is_valid s ≡ true
    → ((answer by_cancel s).0 ≡ ok tt)
      × (is_valid (answer by_cancel s).1 ≡ false)
      × Refuses (answer by_cancel s).1
unfolding commit cancel mark_replied is_valid
answered_once true s h = let (pair, e) = get_valid s h in rw e (refl, refl, replied-Refuses _ refl)
answered_once false s h = let (pair, e) = get_valid s h in rw e (refl, refl, replied-Refuses _ refl)

-- The destructor of a request, with what other threads do to the connections meanwhile.
pub data Destroys (others : ConnectionMap → ConnectionMap) (s : Held)
    (r : Outcome (Unit {0}) × Held) : Type 0 where
  asserts :
      is_valid s ≡ true
      → is_valid (record s { active_connections = others s.active_connections }) ≡ false
      → r.0 ≡ halted assertion_failed
      → Destroys others s r
  answers :
      is_valid s ≡ true
      → is_valid (record s { active_connections = others s.active_connections }) ≡ true
      → r.0 ≡ ok tt
      → is_valid r.1 ≡ false
      → Destroys others s r
  leaves : is_valid s ≡ false → r ≡ (ok tt, s) → Destroys others s r
