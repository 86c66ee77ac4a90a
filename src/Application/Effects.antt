-- ===== src/Application/Effects.antt =====
-- Fastcgi/Request.h over Server/Server.h: the connections after a call of a Fastcgi request.
use santiago_old.Prelude.{ℕ, ◌≡◌, ◌∙◌, sym, ap, inl, inr, some}
use santiago_old.OrderedMap.{nat_key, find}
use santiago_old.Strand.{commit_reply_task}
use santiago_old.Connection.{Connection}
use santiago_old.Connection.Replies.{Waits}
use santiago_old.Request.{Request, Held, new_request}
use santiago_old.Request.Effects.{Like-refl, Touches, Answers, Effect, untouched, changed, answered}
use santiago_old.Acceptor.{Acceptor}
use santiago_old.Acceptor.Tasks.{AcceptorInv}
use santiago_old.Application.Tended.{StandsFor, assign_cases, touched-AcceptorInv, touched_stands}

module _ (r0 : Request) (a : Acceptor) (h : Held) where
  abbrev pub now : Held
  now = record { request = r0; active_connections = a.active_connections }

  abbrev pub then_acceptor : Acceptor
  then_acceptor = record a { active_connections = h.active_connections }

  pub effect-AcceptorInv : Effect now h → AcceptorInv a → AcceptorInv then_acceptor
  effect-AcceptorInv (untouched e) v = rw e v
  effect-AcceptorInv (changed c c' t same) v =
      rw t.connections (touched-AcceptorInv r0.connection_id c c' a t.found t.alike v)
  effect-AcceptorInv (answered w) v =
      let t = w.touches in
      rw t.connections (touched-AcceptorInv r0.connection_id w.before w.after a t.found t.alike v)

  Touches-stands :
      (c c' : Connection) (j : ℕ) (d : Connection)
      → Touches now h c c'
      → find j h.active_connections ≡ some d
      → StandsFor a j d
  Touches-stands c c' j d t found =
      touched_stands r0.connection_id c c' a t.found t.alike j d (rw t.connections at found)

  pub effect_stands :
      Effect now h
      → (j : ℕ) (d : Connection) → find j h.active_connections ≡ some d
      → StandsFor a j d
  effect_stands (untouched e) j d found = record {
    old = d;
    was = rw (ap (λ (z : Held). z.active_connections) e) at found;
    like_old = Like-refl d;
  }
  effect_stands (changed c c' t same) j d found = Touches-stands c c' j d t found
  effect_stands (answered w) j d found = Touches-stands w.before w.after j d w.touches found

  -- A request that is answered has its reply in its connection.
  pub answered_waits :
      (i r p : ℕ) (d : Connection)
      → Answers now h
      → find i h.active_connections ≡ some d
      → r0 ≡ new_request r p i
      → Waits (commit_reply_task r p) d
  unfolding new_request
  answered_waits i r p d w found e =
      let same_cid : r0.connection_id ≡ i = ap (λ (z : Request). z.connection_id) e in
      let own_id : r0.request_id ≡ r = ap (λ (z : Request). z.request_id) e in
      let own_object : some w.object ≡ some p =
        sym w.weak ∙ ap (λ (z : Request). z.data_weak_ptr) e in
      let object : w.object ≡ p = cc own_object in
      let after : d ≡ w.after =
        elim (assign_cases r0.connection_id i w.after d a.active_connections
          (rw w.touches.connections at found)) [
            | inl (_, last) ↦ last
            | inr (other, _) ↦ absurd (other (sym same_cid))
          ] in
      rw (after, ← own_id, ← object) w.posted
