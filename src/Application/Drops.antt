-- ===== src/Application/Drops.antt =====
-- Server/Request.h: the destructor of a Server::Request, with the Fastcgi request that goes with it.
use santiago_old.Prelude.{
  Among-Extends, ℕ, ◌<◌, ◌≡◌, ◌∙◌, ap, inl, inr, Bool-cases, some, false, arith,
}
use santiago_old.OrderedMap.{nat_key, find}
use santiago_old.Strand.{commit_reply_task}
use santiago_old.ConnectionData.{Entry}
use santiago_old.ConnectionData.Addresses.{Holds}
use santiago_old.Connection.{Connection}
use santiago_old.Connection.Replies.{Waits}
use santiago_old.Request
use santiago_old.Request.{Request, RequestId, Held, new_request}
use santiago_old.Request.Effects.{Effect, Answers, destroy-Effect, destroy-Answers}
use santiago_old.Server.{
  Server, id_same, id_same_iff, delete_request, handle_request_delete, remove_one,
}
use santiago_old.Server.Handlers.{count, count-remove_one, delete_request-ServerInv}
use santiago_old.Application.{
  Application, held, with_connections, new_server_request, forward, destroy_request,
}
use santiago_old.Application.Tended.{IsTended, ApplicationInv, StandsFor}
use santiago_old.Application.Effects.{effect-AcceptorInv, effect_stands, answered_waits}

delete_request-live : (k : RequestId) (t : Server) → (delete_request k t).live ≡ remove_one k t.live
unfolding delete_request handle_request_delete
delete_request-live k t = ground arith

-- Another request lives on.
other_lives :
    (k j : RequestId) (t : Server)
    → 0 < count k t.live
    → id_same k j ≡ false
    → 0 < count j t.live
    → 0 < count j (delete_request k t).live
other_lives k j t h other alive =
    rw (delete_request-live k t) (ground (arith, other, count-remove_one k j t.live h))

-- A request of the connection d that no one has answered is valid, and its destructor answers it.
pub destroyed_waits :
    (r0 : Request) (s : Application) (i r : ℕ) (d : Connection) (x : Entry)
    → StandsFor s.acceptor i d
    → find i (Request.destroy (held r0 s)).1.active_connections ≡ some d
    → Holds d.connection_data r x
    → r0 ≡ new_request r x.request_data i
    → Waits (commit_reply_task r x.request_data) d
unfolding new_request
destroyed_waits r0 s i r d x w found holds e =
    let answers : Answers (held r0 s) (Request.destroy (held r0 s)).1 =
      destroy-Answers (held r0 s) w.old r x (ap (λ (z : Request). z.has_replied) e)
        (ap (λ (z : Request). z.data_weak_ptr) e)
        (rw (ap (λ (z : Request). z.connection_id) e) w.was) (rw w.like_old.map at holds) in
    answered_waits r0 s.acceptor (Request.destroy (held r0 s)).1 i r x.request_data d answers found
      e

module _ (k : RequestId) (s : Application) (h : 0 < count k s.server.live)
    (v : ApplicationInv s) where
  abbrev gone : Held
  gone = (Request.destroy (held (s.fastcgi_requests k) s)).1

  f : Effect (held (s.fastcgi_requests k) s) gone
  f = destroy-Effect (held (s.fastcgi_requests k) s)

  dropped-IsTended :
      (i r : ℕ) (d : Connection) (x : Entry)
      → (w : StandsFor s.acceptor i d) → find i gone.active_connections ≡ some d
      → Holds d.connection_data r x
      → IsTended s i r x.request_data w.old
      → IsTended (destroy_request k s).1 i r x.request_data d
  unfolding destroy_request forward new_server_request with_connections
  dropped-IsTended i r d x w found holds (inl m) = inl m
  dropped-IsTended i r d x w found holds (inr (inr m)) =
      inr (inr (Among-Extends _ w.like_old.grows m))
  dropped-IsTended i r d x w found holds (inr (inl (alive, e))) =
      elim (Bool-cases (id_same k (i, r))) [
        | inl own ↦
            let at : k ≡ (i, r) = (id_same_iff k (i, r)).0 own in
            inr (
              inr (
                destroyed_waits (s.fastcgi_requests k) s i r d x w found holds
                  (ap s.fastcgi_requests at ∙ e)))
        | inr other ↦ inr (inl (other_lives k (i, r) s.server h other alive, rw other e))
      ]

  pub destroy_request-ApplicationInv : ApplicationInv (destroy_request k s).1
  unfolding destroy_request forward new_server_request with_connections
  destroy_request-ApplicationInv = record {
    acceptor = effect-AcceptorInv (s.fastcgi_requests k) s.acceptor gone f v.acceptor;
    server = delete_request-ServerInv k s.server h v.server;
    nothing_lost = λ i r d x found holds full.
        let w = effect_stands (s.fastcgi_requests k) s.acceptor gone f i d found in
        dropped-IsTended i r d x w found holds
          (v.nothing_lost i r w.old x w.was (rw w.like_old.map at holds) full);
  }
