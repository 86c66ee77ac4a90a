-- ===== src/Application/Tasks.antt =====
-- Server/Server.h: the tasks in the strand of the acceptor, with handleNewRequest as the callback.
use santiago_old.Prelude.{
  Among-Extends, ℕ, ◌<◌, ◌≡◌, refl, ap, ◌⊎◌, inl, inr, Bool-cases, Option, none, Option-cases, true,
  false, List, [], ◌∷◌, ◌++◌, arith, Among,
}
use santiago_old.Exec.{ok, Outcome-cases}
use santiago_old.OrderedMap.{nat_key, find}
use santiago_old.Pairs.{ParamsMap}
use santiago_old.Connection.{Connection}
use santiago_old.Request
use santiago_old.Request.{Request, RequestId, get_id, Held, new_request, get_fcgi_params}
use santiago_old.Request.Effects.{destroy-Effect}
use santiago_old.Acceptor.{Task, close_connection_task, new_request_task, run_oldest_task}
use santiago_old.Acceptor.Tasks.{AcceptorInv}
use santiago_old.Acceptor.Steps.{run_oldest_task-AcceptorInv}
use santiago_old.Acceptor.Drain.{close_connection-strand, close_connection-smaller}
use santiago_old.Server
use santiago_old.Server.{Server, id_key, id_same, id_same_iff, store_handler, with_hosted}
use santiago_old.Server.Handlers.{ServerInv, count, stored-none, handle_new_request-ServerInv}
use santiago_old.Application.{
  Application, held, with_connections, new_server_request, drop_request, is_routed,
  new_request_callback, run_task,
}
use santiago_old.Application.Tended.{IsTended, ApplicationInv}
use santiago_old.Application.Effects.{effect-AcceptorInv, effect_stands}
use santiago_old.Application.Drops.{destroyed_waits}

-- handleNewRequest either finds no handler and changes nothing, or stores one under a new id.
data Handled (route : ParamsMap → Option ℕ) (h : Held) (s s' : Server) : Type 0 where
  unrouted : is_routed route h ≡ false → s' ≡ s → Handled route h s s'
  routed :
      is_routed route h ≡ true
      → find (get_id h.request) s.active_request_handlers ≡ none
      → s'.live ≡ get_id h.request ∷ s.live
      → Handled route h s s'

store_cases :
    (k : RequestId) (n : ℕ) (s : Server)
    → (store_handler k n s).0 ≡ ok tt
    → (find k s.active_request_handlers ≡ none) × ((store_handler k n s).1.live ≡ k ∷ s.live)
unfolding store_handler with_hosted
store_cases k n s returns = elim (Option-cases (find k s.active_request_handlers)) [
  | inl e ↦ (e, rw (e, store_handler) refl)
  | inr (m, e) ↦ absurd (cc (rw (e, store_handler) at returns))
]

Handled-cases :
    (route : ParamsMap → Option ℕ) (h : Held) (s : Server)
    → (Server.handle_new_request route h s).0 ≡ ok tt
    → Handled route h s (Server.handle_new_request route h s).1
unfolding Server.handle_new_request is_routed
Handled-cases route h s returns = elim (Outcome-cases (get_fcgi_params h).0) [
  | inr (inl (x, e)) ↦ absurd (cc (rw (e, Server.handle_new_request) at returns))
  | inr (inr (x, e)) ↦ absurd (cc (rw (e, Server.handle_new_request) at returns))
  | inl (params, e) ↦ elim (Option-cases (route params)) [
    | inl no_handler ↦
        unrouted (rw (e, no_handler, is_routed) refl)
          (rw (e, no_handler, Server.handle_new_request) refl)
    | inr (n, found) ↦
        let (fresh, lives) =
          store_cases (get_id h.request) n s
            (rw (e, found, Server.handle_new_request) at returns) in
        routed (rw (e, found, is_routed) refl) fresh
          (rw (e, found, Server.handle_new_request) lives)
  ]
]

module _ (r0 : Request) (rest : List Task) (s : Application)
    (h : s.acceptor.strand ≡ new_request_task r0 ∷ rest) (v : ApplicationInv s) where
  -- The task is off the strand.
  abbrev taken : Application
  taken = record s {
    acceptor = record s.acceptor {
      strand = rest;
      new_requests = s.acceptor.new_requests ++ (r0 ∷ []);
    };
  }

  taken-AcceptorInv : AcceptorInv taken.acceptor
  taken-AcceptorInv =
      unfold run_oldest_task in
      (run_oldest_task-AcceptorInv (new_request_task r0 ∷ rest) s.acceptor h v.acceptor).1

  waits_cases :
      (i r p : ℕ)
      → Among (new_request_task (new_request r p i)) s.acceptor.strand
      → (r0 ≡ new_request r p i) ⊎ Among (new_request_task (new_request r p i)) rest
  waits_cases i r p m = first_cases (rw h at m)
    where
      first_cases :
          Among (new_request_task (new_request r p i)) (new_request_task r0 ∷ rest)
          → (r0 ≡ new_request r p i) ⊎ Among (new_request_task (new_request r p i)) rest
      first_cases (inl e) = inl (cc e)
      first_cases (inr later) = inr later

  abbrev gone : Held
  gone = (Request.destroy (held r0 taken)).1

  -- No handler: the request goes, and answers.
  dropped-ApplicationInv : ApplicationInv (drop_request r0 taken)
  unfolding drop_request with_connections
  dropped-ApplicationInv = record {
    acceptor =
        effect-AcceptorInv r0 taken.acceptor gone (destroy-Effect (held r0 taken))
          taken-AcceptorInv;
    server = v.server;
    nothing_lost = λ i r d x found holds full.
        let w = effect_stands r0 taken.acceptor gone (destroy-Effect (held r0 taken)) i d found in
        elim (v.nothing_lost i r w.old x w.was (rw w.like_old.map at holds) full) [
          | inr (inl tended) ↦ inr (inl tended)
          | inr (inr m) ↦ inr (inr (Among-Extends _ w.like_old.grows m))
          | inl m ↦ elim (waits_cases i r x.request_data m) [
            | inl own ↦ inr (inr (destroyed_waits r0 taken i r d x w found holds own))
            | inr later ↦ inl later
          ]
        ];
  }

  -- A handler: a Server::Request owns the request from now on.
  module _ (server : Server) (fresh : find (get_id r0) s.server.active_request_handlers ≡ none)
      (lives : server.live ≡ get_id r0 ∷ s.server.live) (w : ServerInv server) where
    unheld : count (get_id r0) s.server.live ≡ 0
    unheld = omega (arith, v.server.accounted (get_id r0), stored-none (get_id r0) s.server fresh)

    abbrev stored_now : Application
    stored_now = new_server_request (get_id r0) r0 (record taken { server = server })

    lives_on : (j : RequestId) → 0 < count j s.server.live → 0 < count j server.live
    lives_on j alive = rw lives (unfold count in ground (arith, alive))

    held-IsTended :
        (i r p : ℕ) (c : Connection)
        → (0 < count (i, r) s.server.live) × (s.fastcgi_requests (i, r) ≡ new_request r p i)
        → IsTended stored_now i r p c
    unfolding new_server_request
    held-IsTended i r p c (alive, e) = elim (Bool-cases (id_same (get_id r0) (i, r))) [
      | inl own ↦
          let at : get_id r0 ≡ (i, r) = (id_same_iff (get_id r0) (i, r)).0 own in
          let alive_own : 0 < count (get_id r0) s.server.live = rw at alive in
          absurd (omega (arith, alive_own, unheld))
      | inr other ↦ inr (inl (lives_on (i, r) alive, rw other e))
    ]

    own-IsTended :
        (i r p : ℕ) (c : Connection) → r0 ≡ new_request r p i → IsTended stored_now i r p c
    unfolding new_server_request get_id new_request count
    own-IsTended i r p c e =
        let at : get_id r0 ≡ (i, r) = ap get_id e in
        let self : id_same (get_id r0) (i, r) ≡ true = (id_same_iff (get_id r0) (i, r)).1 at in
        inr (inl (rw lives (ground (arith, self)), rw self e))

    stored-ApplicationInv : ApplicationInv stored_now
    unfolding new_server_request
    stored-ApplicationInv = record {
      acceptor = taken-AcceptorInv;
      server = w;
      nothing_lost = λ i r c x found holds full. elim (v.nothing_lost i r c x found holds full) [
        | inr (inl tended) ↦ held-IsTended i r x.request_data c tended
        | inr (inr m) ↦ inr (inr m)
        | inl m ↦ elim (waits_cases i r x.request_data m) [
          | inl own ↦ own-IsTended i r x.request_data c own
          | inr later ↦ inl later
        ]
      ];
    }

  -- The callback, when it returns.
  callback-ApplicationInv :
      (route : ParamsMap → Option ℕ)
      → (new_request_callback route r0 taken).0 ≡ ok tt
      → ApplicationInv (new_request_callback route r0 taken).1
  unfolding new_request_callback
  callback-ApplicationInv route returns =
      elim (Handled-cases route (held r0 taken) s.server returns) [
        | unrouted no_handler same ↦ rw (no_handler, same) dropped-ApplicationInv
        | routed handler fresh lives ↦ rw handler (
            stored-ApplicationInv (Server.handle_new_request route (held r0 taken) s.server).1 fresh
              lives (handle_new_request-ServerInv route (held r0 taken) s.server v.server))
      ]

-- A connection goes: the others are tended as before.
close-ApplicationInv :
    (i : ℕ) (rest : List Task) (s : Application)
    → s.acceptor.strand ≡ close_connection_task i ∷ rest
    → ApplicationInv s
    → ApplicationInv
        (record s { acceptor = (run_oldest_task (close_connection_task i ∷ rest) s.acceptor).1 })
unfolding run_oldest_task
close-ApplicationInv i rest s h v = record {
  acceptor =
      (run_oldest_task-AcceptorInv (close_connection_task i ∷ rest) s.acceptor h v.acceptor).1;
  server = v.server;
  nothing_lost = λ j r c x found holds full.
      elim (v.nothing_lost j r c x
        (close_connection-smaller i j c (record s.acceptor { strand = rest }) found) holds full) [
          | inr other ↦ inr other
          | inl m ↦ inl (
              rw (close_connection-strand i (record s.acceptor { strand = rest }))
                (later j r x.request_data (rw h at m)))
        ];
}
  where
    later :
        (j r p : ℕ)
        → Among (new_request_task (new_request r p j)) (close_connection_task i ∷ rest)
        → Among (new_request_task (new_request r p j)) rest
    later j r p (inl e) = absurd (cc e)
    later j r p (inr m) = m

pub run_task-ApplicationInv :
    (route : ParamsMap → Option ℕ) (tasks : List Task) (s : Application)
    → s.acceptor.strand ≡ tasks
    → (run_task route tasks s).0 ≡ ok tt
    → ApplicationInv s
    → ApplicationInv (run_task route tasks s).1
unfolding run_task
run_task-ApplicationInv route [] s h returns v = v
run_task-ApplicationInv route (close_connection_task i ∷ rest) s h returns v =
    close-ApplicationInv i rest s h v
run_task-ApplicationInv route (new_request_task r0 ∷ rest) s h returns v =
    unfold run_oldest_task in callback-ApplicationInv r0 rest s h v route returns
