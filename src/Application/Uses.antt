-- ===== src/Application/Uses.antt =====
-- Server/Request.h: the calls of a Server::Request, and its destructor.
use santiago_old.Prelude.{Among-Extends, ℕ, ◌≡◌, ◌≢◌, ◌∙◌, refl, ap, inl, inr, Bool-cases, some}
use santiago_old.OrderedMap.{nat_key, find}
use santiago_old.Connection.{Connection}
use santiago_old.Request
use santiago_old.Request.{Request, RequestId, Held, ConnectionMap, new_request}
use santiago_old.Request.Effects.{
  Like, Effect, untouched, changed, answered, commit-Effect, cancel-Effect, on_object-Effect,
}
use santiago_old.Server.{id_same, id_same_iff}
use santiago_old.Application.{
  Application, held, with_connections, set_request, new_server_request, forward, RequestUse,
  use_request, commits, cancels, sets_status, writes_out, writes_err, commit, cancel,
  set_app_status, out, err,
}
use santiago_old.Application.Effects.{effect-AcceptorInv, effect_stands, answered_waits}
use santiago_old.Application.Tended.{IsTended, ApplicationInv}

pub set_request_self :
    (k j : RequestId) (requests : RequestId → Request)
    → set_request k (requests k) requests j ≡ requests j
set_request_self k j requests = elim (Bool-cases (id_same k j)) [
  | inl e ↦ rw e (ap requests ((id_same_iff k j).0 e))
  | inr e ↦ rw e refl
]

pub set_request-other :
    (k j : RequestId) (r : Request) (requests : RequestId → Request)
    → k ≢ j
    → set_request k r requests j ≡ requests j
set_request-other k j r requests h = elim (Bool-cases (id_same k j)) [
  | inl e ↦ absurd (h ((id_same_iff k j).0 e))
  | inr e ↦ rw e refl
]

-- After a call of the request k.
abbrev pub used : RequestId → Held → Application → Application
used k h s = new_server_request k h.request (with_connections h.active_connections s)

-- What was tended is tended, where the request object is the same and the connection is alike.
still-IsTended :
    (k : RequestId) (h : Held) (s : Application) (i r p : ℕ) (c d : Connection)
    → Like c d
    → set_request k h.request s.fastcgi_requests (i, r) ≡ s.fastcgi_requests (i, r)
    → IsTended s i r p c
    → IsTended (used k h s) i r p d
unfolding new_server_request with_connections
still-IsTended k h s i r p c d like same (inl m) = inl m
still-IsTended k h s i r p c d like same (inr (inl (alive, e))) = inr (inl (alive, same ∙ e))
still-IsTended k h s i r p c d like same (inr (inr m)) = inr (inr (Among-Extends _ like.grows m))

module _ (k : RequestId) (s : Application) (h : Held) (v : ApplicationInv s) where
  abbrev found_now : Held
  found_now = held (s.fastcgi_requests k) s

  same-IsTended :
      (i r p : ℕ) (c d : Connection)
      → h.request ≡ s.fastcgi_requests k
      → Like c d
      → IsTended s i r p c
      → IsTended (used k h s) i r p d
  same-IsTended i r p c d e like tended =
      still-IsTended k h s i r p c d like
        (ap (λ z. set_request k z s.fastcgi_requests (i, r)) e
          ∙ set_request_self k (i, r) s.fastcgi_requests)
        tended

  used-IsTended :
      (i r p : ℕ) (c d : Connection)
      → Effect found_now h
      → find i h.active_connections ≡ some d
      → Like c d
      → IsTended s i r p c
      → IsTended (used k h s) i r p d
  unfolding new_server_request with_connections
  used-IsTended i r p c d (untouched e) found like tended =
      same-IsTended i r p c d (ap (λ (z : Held). z.request) e) like tended
  used-IsTended i r p c d (changed _ _ _ same) found like tended =
      same-IsTended i r p c d same like tended
  used-IsTended i r p c d (answered a) found like (inl m) = inl m
  used-IsTended i r p c d (answered a) found like (inr (inr m)) =
      inr (inr (Among-Extends _ like.grows m))
  used-IsTended i r p c d (answered a) found like (inr (inl (alive, e))) =
      elim (Bool-cases (id_same k (i, r))) [
        | inl own ↦
            let at : k ≡ (i, r) = (id_same_iff k (i, r)).0 own in
            inr (
              inr (
                answered_waits (s.fastcgi_requests k) s.acceptor h i r p d a found
                  (ap s.fastcgi_requests at ∙ e)))
        | inr other ↦ inr (inl (alive, rw other e))
      ]

  pub used-ApplicationInv : Effect found_now h → ApplicationInv (used k h s)
  unfolding new_server_request with_connections
  used-ApplicationInv f = record {
    acceptor = effect-AcceptorInv (s.fastcgi_requests k) s.acceptor h f v.acceptor;
    server = v.server;
    nothing_lost = λ i r d x found held_now full.
        let w = effect_stands (s.fastcgi_requests k) s.acceptor h f i d found in
        used-IsTended i r x.request_data w.old d f found w.like_old
          (v.nothing_lost i r w.old x w.was (rw w.like_old.map at held_now) full);
  }

-- Whatever the user calls.
pub use_request-ApplicationInv :
    (u : RequestUse) (k : RequestId) (s : Application)
    → ApplicationInv s
    → ApplicationInv (use_request u k s).1
unfolding use_request commit cancel set_app_status out err forward Request.set_app_status
    Request.out Request.err
use_request-ApplicationInv commits k s v = used-ApplicationInv k s _ v (commit-Effect _)
use_request-ApplicationInv cancels k s v = used-ApplicationInv k s _ v (cancel-Effect _)
use_request-ApplicationInv (sets_status status) k s v =
    used-ApplicationInv k s _ v (on_object-Effect _ _)
use_request-ApplicationInv (writes_out text) k s v =
    used-ApplicationInv k s _ v (on_object-Effect _ _)
use_request-ApplicationInv (writes_err text) k s v =
    used-ApplicationInv k s _ v (on_object-Effect _ _)
