-- ===== src/Request/Effects.antt =====
-- Fastcgi/Request.h: what the calls of a request change of the connection and of the request.
use santiago_old.Prelude.{
  Extends-refl, Extends-trans, Extends-append, ℕ, ◌≡◌, ◌∙◌, refl, ◌⊎◌, inl, inr, true, false,
  Bool-cases, Option, none, some, Option-cases, [], ◌∷◌, arith, Among-append_right,
}
use santiago_old.Exec.{Exception, ok, thrown, already_replied, not_active}
use santiago_old.OrderedMap.{nat_key, find, assign}
use santiago_old.Strand.{commit_reply_task}
use santiago_old.PacketSocket.Effects.{Grows}
use santiago_old.RequestData.{RequestData}
use santiago_old.ConnectionData.{Entry, RequestMap}
use santiago_old.ConnectionData.Addresses.{Holds}
use santiago_old.Connection.{Connection, commit_reply}
use santiago_old.Connection.Replies.{Waits}
use santiago_old.Request.{
  Held, is_valid, lock_both, lock_data, is_alive, in_map, get_connection_and_request_data, commit,
  cancel, cancelled_data, change_object, put_connection, mark_replied, on_object, destroy,
  destroy_amid,
}

-- A connection in which only objects and the waiting tasks differ.
pub record Like (c c' : Connection) : Type 0 where
  pub state : c'.state ≡ c.state
  pub calls : c'.calls ≡ c.calls
  pub map : c'.connection_data.request_map ≡ c.connection_data.request_map
  pub next : c'.connection_data.next_object ≡ c.connection_data.next_object
  pub socket : c'.packet_socket.state ≡ c.packet_socket.state
  pub grows : Grows c.packet_socket c'.packet_socket

-- The connection of the request is replaced by one that is alike.
pub record Touches (h h' : Held) (c c' : Connection) : Type 0 where
  pub found : find h.request.connection_id h.active_connections ≡ some c
  pub alike : Like c c'
  pub connections : h'.active_connections ≡ assign h.request.connection_id c' h.active_connections

-- A reply is posted in the connection, and the request is marked.
pub record Answers (h h' : Held) : Type 0 where
  pub before : Connection
  pub after : Connection
  pub touches : Touches h h' before after
  pub object : ℕ
  pub weak : h.request.data_weak_ptr ≡ some object
  pub posted : Waits (commit_reply_task h.request.request_id object) after

pub data Effect (h h' : Held) : Type 0 where
  untouched : h' ≡ h → Effect h h'
  changed : (c c' : Connection) → Touches h h' c c' → h'.request ≡ h.request → Effect h h'
  answered : Answers h h' → Effect h h'

lock_data-some : (w : Option ℕ) (c : Connection) (p : ℕ) → lock_data w c ≡ some p → w ≡ some p
unfolding lock_data
lock_data-some none c p h = h
lock_data-some (some q) c p h = ground (arith, h)

lock_both-some :
    (h : Held) (c : Connection) (p : ℕ)
    → lock_both h ≡ some (c, p)
    → (find h.request.connection_id h.active_connections ≡ some c)
      × (h.request.data_weak_ptr ≡ some p)
unfolding lock_both
lock_both-some h c p e = elim (Option-cases (find h.request.connection_id h.active_connections)) [
  | inl missing ↦ absurd (cc (rw (missing, lock_both) at e))
  | inr (d, found) ↦ elim (Option-cases (lock_data h.request.data_weak_ptr d)) [
    | inl dead ↦ absurd (cc (rw (found, dead, lock_both) at e))
    | inr (q, locked) ↦
        let pair : some (d, q) ≡ some (c, p) = rw (found, locked, lock_both) at e in
        (found ∙ cc pair, lock_data-some h.request.data_weak_ptr d q locked ∙ cc pair)
  ]
]

get_cases :
    (h : Held)
    → ((x : Exception) × (get_connection_and_request_data h ≡ (thrown x, h)))
      ⊎ ((c : Connection) × (p : ℕ) × (lock_both h ≡ some (c, p))
          × (get_connection_and_request_data h ≡ (ok (c, p), h)))
unfolding get_connection_and_request_data
get_cases h = elim (Bool-cases h.request.has_replied) [
  | inl e ↦ inl (already_replied, ground (arith, e))
  | inr e ↦ elim (Option-cases (lock_both h)) [
    | inl none_locked ↦ inl (not_active, ground (arith, e, none_locked))
    | inr (pair, locked) ↦ inr (pair.0, pair.1, locked, ground (arith, e, locked))
  ]
]

object-Like :
    (f : RequestData → RequestData) (p : ℕ) (c : Connection) → Like c (change_object f p c)
unfolding change_object
object-Like f p c = record {
  state = refl;
  calls = refl;
  map = refl;
  next = refl;
  socket = refl;
  grows = Extends-refl _;
}

commit-Like : (i p : ℕ) (c d : Connection) → Like c d → Like c (commit_reply i p d)
unfolding commit_reply
commit-Like i p c d v = record {
  state = v.state;
  calls = v.calls;
  map = v.map;
  next = v.next;
  socket = v.socket;
  grows = Extends-trans v.grows (Extends-append d.packet_socket.connection_strand _);
}

pub Like-refl : (c : Connection) → Like c c
Like-refl c = record {
  state = refl;
  calls = refl;
  map = refl;
  next = refl;
  socket = refl;
  grows = Extends-refl _;
}

-- The connection d, of which c became by a change of objects, gets the reply.
reply-Answers :
    (h : Held) (c d : Connection) (p : ℕ)
    → lock_both h ≡ some (c, p)
    → Like c d
    → Answers h (mark_replied (put_connection (commit_reply h.request.request_id p d) h))
unfolding mark_replied put_connection commit_reply
reply-Answers h c d p locked alike =
    let (found, weak) = lock_both-some h c p locked in
    record {
      before = c;
      after = commit_reply h.request.request_id p d;
      touches = record {
        found = found;
        alike = commit-Like h.request.request_id p c d alike;
        connections = refl;
      };
      object = p;
      weak = weak;
      posted =
          Among-append_right _ d.packet_socket.connection_strand
            (commit_reply_task h.request.request_id p ∷ []) (inl refl);
    }

pub commit-Effect : (h : Held) → Effect h (commit h).1
unfolding commit
commit-Effect h = elim (get_cases h) [
  | inl (x, e) ↦ rw e (untouched refl)
  | inr (c, p, locked, e) ↦ rw e (answered (reply-Answers h c c p locked (Like-refl c)))
]

cancel-Answers :
    (h : Held) (c : Connection) (p : ℕ)
    → lock_both h ≡ some (c, p)
    → get_connection_and_request_data h ≡ (ok (c, p), h)
    → Answers h (cancel h).1
unfolding cancel
cancel-Answers h c p locked e =
    rw e (
      reply-Answers h c (change_object cancelled_data p c) p locked
        (object-Like cancelled_data p c))

pub cancel-Effect : (h : Held) → Effect h (cancel h).1
cancel-Effect h = elim (get_cases h) [
  | inl (x, e) ↦ unfold cancel in rw e (untouched refl)
  | inr (c, p, locked, e) ↦ answered (cancel-Answers h c p locked e)
]

pub on_object-Effect : (f : RequestData → RequestData) (h : Held) → Effect h (on_object f h).1
unfolding on_object put_connection
on_object-Effect f h = elim (get_cases h) [
  | inl (x, e) ↦ rw e (untouched refl)
  | inr (c, p, locked, e) ↦ rw e (
      changed c (change_object f p c)
        (record {
          found = (lock_both-some h c p locked).0;
          alike = object-Like f p c;
          connections = refl;
        })
        refl)
]

-- The destructor of a request that is valid answers it, and of one that is not does nothing.
pub destroy-Effect : (h : Held) → Effect h (destroy h).1
unfolding destroy destroy_amid
destroy-Effect h = elim (Bool-cases (is_valid h)) [
  | inl e ↦ rw e (cancel-Effect h)
  | inr e ↦ rw e (untouched refl)
]

in_map-Holds :
    (i : ℕ) (x : Entry) (m : RequestMap) → find i m ≡ some x → in_map x.request_data m ≡ true
unfolding find in_map
in_map-Holds i x [] h = cc
in_map-Holds i x ((j, y) ∷ m) h = ground (arith, in_map-Holds i x m)

-- A request that was not answered, over an object in the map of its connection, is valid.
held_valid :
    (h : Held) (c : Connection) (i : ℕ) (x : Entry)
    → h.request.has_replied ≡ false
    → h.request.data_weak_ptr ≡ some x.request_data
    → find h.request.connection_id h.active_connections ≡ some c
    → Holds c.connection_data i x
    → (is_valid h ≡ true) × (lock_both h ≡ some (c, x.request_data))
unfolding is_valid lock_both lock_data is_alive
held_valid h c i x open_still weak found held =
    let inside = in_map-Holds i x c.connection_data.request_map held in
    (ground (arith, open_still, weak, found, inside), ground (arith, weak, found, inside))

pub destroy-Answers :
    (h : Held) (c : Connection) (i : ℕ) (x : Entry)
    → h.request.has_replied ≡ false
    → h.request.data_weak_ptr ≡ some x.request_data
    → find h.request.connection_id h.active_connections ≡ some c
    → Holds c.connection_data i x
    → Answers h (destroy h).1
unfolding destroy destroy_amid
destroy-Answers h c i x open_still weak found held =
    let (valid, locked) = held_valid h c i x open_still weak found held in
    rw valid (
      cancel-Answers h c x.request_data locked
        (unfold get_connection_and_request_data in ground (arith, open_still, locked)))
