-- ===== src/Server/Histories.antt =====
-- Server/Server.h: the histories of a server.
use santiago_old.Prelude.{
  ℕ, ◌≤◌, ◌<◌, ◌≡◌, ◌≢◌, ◌∙◌, refl, true, false, Option, Bool-cases, inl, inr, none, some, List, [],
  ◌∷◌, arith,
}
use santiago_old.Exec.{Outcome, ok, thrown, halted}
use santiago_old.OrderedMap.{find}
use santiago_old.Pairs.{ParamsMap}
use santiago_old.Request.{RequestId, Held, get_id, get_fcgi_params}
use santiago_old.RequestHandler.{RequestHandler}
use santiago_old.Server.{
  Server, id_key, is_started, start, run_threads, stop, stop_io_service, join_threads, destroy,
  new_server, ServerEvent, request_arrived, request_destroyed, run_deletion, started_by_user,
  stopped_by_user, run_oldest_deletion, server_step, store_handler, with_hosted, handle_new_request,
  handle_request_delete_impl, delete_request, handle_request_delete,
}
use santiago_old.Server.Handlers.{
  ServerInv, count, stored, stored-none, stored-le, handle_new_request-ServerInv,
  delete_request-ServerInv, deletion-ServerInv,
}

-- Only a request object that is alive is destroyed.
abbrev pub CanHappen : ServerEvent → Server → Type 0
CanHappen (request_destroyed i) s = 0 < count i s.live
CanHappen _ s = Unit

pub data ServerReach (s : Server) : Server → Type 0 where
  at_start : ServerReach s s
  and_then :
      {t t' : Server}
      → ServerReach s t
      → (e : ServerEvent) → CanHappen e t
      → t' ≡ (server_step e t).1
      → ServerReach s t'

run_oldest_deletion-ServerInv :
    (ids : List RequestId) (s : Server)
    → s.acceptor_strand ≡ ids
    → ServerInv s
    → ((run_oldest_deletion ids s).0 ≡ ok tt) × ServerInv (run_oldest_deletion ids s).1
unfolding run_oldest_deletion
run_oldest_deletion-ServerInv [] s h v = (refl, v)
run_oldest_deletion-ServerInv (i ∷ rest) s h v = deletion-ServerInv i rest s h v

pub server_step-ServerInv :
    (e : ServerEvent) (s : Server) → CanHappen e s → ServerInv s → ServerInv (server_step e s).1
unfolding server_step start run_threads stop stop_io_service join_threads stored
server_step-ServerInv (request_arrived route held) s h v =
    handle_new_request-ServerInv route held s v
server_step-ServerInv (request_destroyed i) s h v = delete_request-ServerInv i s h v
server_step-ServerInv run_deletion s h v =
    (run_oldest_deletion-ServerInv s.acceptor_strand s refl v).1
server_step-ServerInv started_by_user s h v = elim (Bool-cases (is_started s.status)) [
  | inl on ↦ rw on v
  | inr off ↦ elim (Bool-cases s.io_stopped) [
    | inl over ↦
        rw (off, over) (record { accounted = v.accounted; threads = v.threads ∙ rw off refl })
    | inr live ↦ rw (off, live) (record { accounted = v.accounted; threads = refl })
  ]
]
server_step-ServerInv stopped_by_user s h v = elim (Bool-cases (is_started s.status)) [
  | inl on ↦ rw on (record { accounted = v.accounted; threads = refl })
  | inr off ↦ rw off v
]

pub new_server-ServerInv : (memory : ℕ → RequestHandler) → ServerInv (new_server memory)
unfolding new_server count stored find
new_server-ServerInv memory = record { accounted = λ i. omega arith; threads = refl }

reach-ServerInv :
    (memory : ℕ → RequestHandler) (s : Server) → ServerReach (new_server memory) s → ServerInv s
reach-ServerInv memory s at_start = new_server-ServerInv memory
reach-ServerInv memory s (and_then {t} r e h run) =
    rw run (server_step-ServerInv e t h (reach-ServerInv memory t r))

-- In every history of a server a request handler stays in the map as long as the Server::Request
-- that was made for it lives, and an id has one live request at most.
pub handler_kept :
    (memory : ℕ → RequestHandler) (s : Server) (i : RequestId)
    → ServerReach (new_server memory) s
    → 0 < count i s.live
    → (find i s.active_request_handlers ≢ none) × (count i s.live ≤ 1)
handler_kept memory s i r h = (
  λ missing.
      absurd (omega (arith, (reach-ServerInv memory s r).accounted i, stored-none i s missing)),
  omega (arith, (reach-ServerInv memory s r).accounted i, stored-le i s),
)

-- In every history the assertion of handleRequestDeleteImpl holds: the handler to delete is in the
-- map.
pub deletion_asserts :
    (memory : ℕ → RequestHandler) (s : Server)
    → ServerReach (new_server memory) s
    → (server_step run_deletion s).0 ≡ ok tt
unfolding server_step
deletion_asserts memory s r =
    (run_oldest_deletion-ServerInv s.acceptor_strand s refl (reach-ServerInv memory s r)).0

-- In every history of a server its destructor returns, its join included, and leaves it stopped with
-- no thread running.
pub destroy_stops :
    (memory : ℕ → RequestHandler) (s : Server)
    → ServerReach (new_server memory) s
    → ((destroy s).0 ≡ ok tt)
      × (is_started (destroy s).1.status ≡ false)
      × ((destroy s).1.running_threads ≡ 0)
unfolding destroy stop stop_io_service join_threads
destroy_stops memory s r = elim (Bool-cases (is_started s.status)) [
  | inl on ↦ rw on (refl, refl, refl)
  | inr off ↦ rw off (refl, off, (reach-ServerInv memory s r).threads ∙ rw off refl)
]

-- An io_service that is stopped stays so.
store_handler-io_stopped :
    (i : RequestId) (h : ℕ) (s : Server) → (store_handler i h s).1.io_stopped ≡ s.io_stopped
unfolding store_handler with_hosted
store_handler-io_stopped i h s = ground arith

handle_new_request-io_stopped :
    (route : ParamsMap → Option ℕ) (held : Held) (s : Server)
    → (handle_new_request route held s).1.io_stopped ≡ s.io_stopped
unfolding handle_new_request
handle_new_request-io_stopped route held s = after (get_fcgi_params held).0
  where
    routed :
        (o : Option ℕ)
        → (elim o as (λ _. Outcome (Unit {0}) × Server) [
          | none ↦ (ok tt, s)
          | some h ↦ store_handler (get_id held.request) h s
        ]).1.io_stopped
          ≡ s.io_stopped
    routed none = refl
    routed (some h) = store_handler-io_stopped (get_id held.request) h s

    after :
        (o : Outcome ParamsMap)
        → (elim o as (λ _. Outcome (Unit {0}) × Server) [
          | thrown e ↦ (thrown e, s)
          | halted x ↦ (halted x, s)
          | ok params ↦ elim (route params) [
            | none ↦ (ok tt, s)
            | some h ↦ store_handler (get_id held.request) h s
          ]
        ]).1.io_stopped
          ≡ s.io_stopped
    after (thrown e) = refl
    after (halted x) = refl
    after (ok params) = routed (route params)

run_oldest_deletion-io_stopped :
    (ids : List RequestId) (s : Server) → (run_oldest_deletion ids s).1.io_stopped ≡ s.io_stopped
unfolding run_oldest_deletion handle_request_delete_impl
run_oldest_deletion-io_stopped [] s = refl
run_oldest_deletion-io_stopped (i ∷ ids) s = ground arith

step-io_stopped :
    (e : ServerEvent) (s : Server) → s.io_stopped ≡ true → (server_step e s).1.io_stopped ≡ true
unfolding server_step delete_request handle_request_delete start run_threads stop stop_io_service
    join_threads
step-io_stopped (request_arrived route held) s h = handle_new_request-io_stopped route held s ∙ h
step-io_stopped (request_destroyed i) s h = ground (arith, h)
step-io_stopped run_deletion s h = run_oldest_deletion-io_stopped s.acceptor_strand s ∙ h
step-io_stopped started_by_user s h = ground (arith, h)
step-io_stopped stopped_by_user s h = ground (arith, h)

stays_stopped :
    (s t : Server)
    → ServerReach s t
    → ServerInv s
    → s.io_stopped ≡ true
    → ServerInv t × (t.io_stopped ≡ true)
stays_stopped s t at_start v h = (v, h)
stays_stopped s t (and_then {t = u} r e can run) v h =
    let (w, k) = stays_stopped s u r v h in
    rw run (server_step-ServerInv e u can w, step-io_stopped e u k)

stop_stopped : (s : Server) → is_started s.status ≡ true → (stop s).1.io_stopped ≡ true
unfolding stop stop_io_service join_threads
stop_stopped s h = rw h refl

no_thread : (s : Server) → ServerInv s → s.io_stopped ≡ true → s.running_threads ≡ 0
no_thread s v h = v.threads ∙ ground (arith, h)

-- A started server that is stopped runs no thread any more, in whatever history follows, also after
-- it is started again.
pub stopped_for_good :
    (memory : ℕ → RequestHandler) (s t : Server)
    → ServerReach (new_server memory) s
    → is_started s.status ≡ true
    → ServerReach (stop s).1 t
    → t.running_threads ≡ 0
stopped_for_good memory s t r on later =
    let v = server_step-ServerInv stopped_by_user s tt (reach-ServerInv memory s r) in
    let (w, over) =
      stays_stopped (stop s).1 t later (unfold server_step in v) (stop_stopped s on) in
    no_thread t w over
