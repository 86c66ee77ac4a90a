-- ===== src/Application/Tended.antt =====
-- Server/Server.h over Fastcgi/Acceptor.h: the requests whose streams are at their end, and who is to
-- answer each of them.
use santiago_old.Prelude.{
  ℕ, ◌<◌, ◌≡◌, ◌≢◌, ◌∙◌, sym, ap, ◌⊎◌, inl, inr, Bool-cases, some, true, arith, ◌==◌, ==_iff, Among,
}
use santiago_old.OrderedMap.{nat_key, find, assign, find-assign}
use santiago_old.Strand.{commit_reply_task}
use santiago_old.ConnectionData.{Entry}
use santiago_old.ConnectionData.Changes.{is_complete}
use santiago_old.ConnectionData.Addresses.{Holds}
use santiago_old.Connection.{Connection}
use santiago_old.Connection.Invariant.{Inv, closes_of}
use santiago_old.Connection.Replies.{Waits}
use santiago_old.Request.{new_request, ConnectionMap}
use santiago_old.Request.Effects.{Like, Like-refl}
use santiago_old.Acceptor.{Acceptor, new_request_task}
use santiago_old.Acceptor.Tasks.{AcceptorInv}
use santiago_old.Server.Handlers.{ServerInv, count}
use santiago_old.Application.{Application}

-- The request r of the connection i, with the object p, waits for its callback, or is held by a
-- Server::Request that has not answered it, or its reply waits in the connection c.
abbrev pub IsTended : Application → ℕ → ℕ → ℕ → Connection → Type 0
IsTended s i r p c =
    Among (new_request_task (new_request r p i)) s.acceptor.strand
    ⊎ (((0 < count (i, r) s.server.live) × (s.fastcgi_requests (i, r) ≡ new_request r p i))
        ⊎ Waits (commit_reply_task r p) c)

abbrev pub NothingLost : Application → Type 0
NothingLost s =
    (i r : ℕ) (c : Connection) (x : Entry)
    → find i s.acceptor.active_connections ≡ some c
    → Holds c.connection_data r x
    → is_complete x ≡ true
    → IsTended s i r x.request_data c

pub record ApplicationInv (s : Application) : Type 0 where
  pub acceptor : AcceptorInv s.acceptor
  pub server : ServerInv s.server
  pub nothing_lost : NothingLost s

pub assign_cases :
    (i j : ℕ) (c d : Connection) (m : ConnectionMap)
    → find j (assign i c m) ≡ some d
    → ((j ≡ i) × (d ≡ c)) ⊎ ((j ≢ i) × (find j m ≡ some d))
assign_cases i j c d m h = elim (Bool-cases (i == j)) [
  | inl eq ↦ inl (sym ((==_iff i j).0 eq), ground (arith, eq, find-assign i j c m, h))
  | inr ne ↦ inr (ground (arith, ne), ground (arith, ne, find-assign i j c m, h))
]

pub Like-Inv : {c c' : Connection} → Like c c' → Inv c → Inv c'
Like-Inv {c} {c'} like v = record {
  closes_together = rw (like.socket, like.state) v.closes_together;
  closes_once = rw (like.calls, like.state) v.closes_once;
  winds_down = λ e. rw like.map (v.winds_down (sym like.state ∙ e));
}

-- A connection of the acceptor that another is alike to.
pub record StandsFor (a : Acceptor) (j : ℕ) (d : Connection) : Type 0 where
  pub old : Connection
  pub was : find j a.active_connections ≡ some old
  pub like_old : Like old d

-- A connection of the acceptor is replaced by one that is alike.
module _ (i : ℕ) (c c' : Connection) (a : Acceptor) (found : find i a.active_connections ≡ some c)
    (like : Like c c') where
  abbrev pub touched : Acceptor
  touched = record a { active_connections = assign i c' a.active_connections }

  pub touched-AcceptorInv : AcceptorInv a → AcceptorInv touched
  touched-AcceptorInv v = record {
    keeps = λ j d h. elim (assign_cases i j c' d a.active_connections h) [
      | inl (_, now) ↦ rw now (Like-Inv like (v.keeps i c found))
      | inr (_, old) ↦ v.keeps j d old
    ];
    closes = λ j d h. elim (assign_cases i j c' d a.active_connections h) [
      | inl (at, now) ↦ rw (at, now) (v.closes i c found ∙ ap closes_of (sym like.state))
      | inr (_, old) ↦ v.closes j d old
    ];
    gone = λ j h. elim (Bool-cases (i == j)) [
      | inl eq ↦ absurd (ground (arith, eq, find-assign i j c' a.active_connections, h))
      | inr ne ↦ v.gone j (ground (arith, ne, find-assign i j c' a.active_connections, h))
    ];
    below = λ j d h. elim (assign_cases i j c' d a.active_connections h) [
      | inl (at, _) ↦ rw at (v.below i c found)
      | inr (_, old) ↦ v.below j d old
    ];
  }

  pub touched_stands :
      (j : ℕ) (d : Connection) → find j touched.active_connections ≡ some d → StandsFor a j d
  touched_stands j d h = elim (assign_cases i j c' d a.active_connections h) [
    | inl (at, now) ↦ record { old = c; was = rw at found; like_old = rw now like }
    | inr (_, same) ↦ record { old = d; was = same; like_old = Like-refl d }
  ]
