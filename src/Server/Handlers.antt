-- ===== src/Server/Handlers.antt =====
-- Server/Server.h: the map of the handlers, over each handler of the server.
use santiago_old.Prelude.{
  not, ◌&&◌, ℕ, ◌+◌, ◌≤◌, ◌<◌, ◌≡◌, ◌∙◌, refl, inl, inr, Bool-cases, Option, none, some,
  Option-cases, List, [], ◌∷◌, ◌++◌, arith, if◌then◌else◌,
}
use santiago_old.Exec.{ok, Outcome-cases}
use santiago_old.OrderedMap.{find, assign, erase, find-assign, find-erase}
use santiago_old.Pairs.{ParamsMap}
use santiago_old.Request.{Held, get_fcgi_params}
use santiago_old.Request.{RequestId, get_id}
use santiago_old.Server.{
  Server, with_hosted, id_key, id_same, id_same_iff, is_started, no_of_asio_user_threads,
  store_handler, handle_new_request, handle_request_delete, handle_request_delete_impl,
  delete_request, remove_one,
}

unfoldable pub count : RequestId → List RequestId → ℕ
count i [] = 0
count i (j ∷ ids) = (if id_same j i then 1 else 0) + count i ids

-- One if the map has a handler for the id.
unfoldable pub stored : RequestId → Server → ℕ
stored i s = elim (find i s.active_request_handlers) [ none ↦ 0 | some _ ↦ 1 ]

-- For each id the live requests and the waiting deletions are no more than the handlers stored; and
-- threads run exactly while the server is started, before its io_service was stopped.
pub record ServerInv (s : Server) : Type 0 where
  pub accounted : (i : RequestId) → count i s.live + count i s.acceptor_strand ≤ stored i s
  pub threads :
      s.running_threads
      ≡ (if is_started s.status && not s.io_stopped then no_of_asio_user_threads else 0)

count-append :
    (i : RequestId) (xs ys : List RequestId) → count i (xs ++ ys) ≡ count i xs + count i ys
unfolding count
count-append i [] ys = omega arith
count-append i (x ∷ xs) ys = omega (arith, count-append i xs ys)

pub count-remove_one :
    (i j : RequestId) (ids : List RequestId)
    → 0 < count i ids
    → count j (remove_one i ids) + (if id_same i j then 1 else 0) ≡ count j ids
unfolding count remove_one
count-remove_one i j [] h = absurd (omega arith)
count-remove_one i j (x ∷ ids) h = ground (
  arith,
  count-remove_one i j ids,
  id_same_iff i x,
  id_same_iff x i,
  id_same_iff i j,
  id_same_iff x j,
)

pub stored-none :
    (i : RequestId) (s : Server) → find i s.active_request_handlers ≡ none → stored i s ≡ 0
unfolding stored
stored-none i s e = rw (e, stored) refl

pub stored-le : (i : RequestId) (s : Server) → stored i s ≤ 1
unfolding stored
stored-le i s = ground arith

pub store_handler-ServerInv :
    (i : RequestId) (h : ℕ) (s : Server) → ServerInv s → ServerInv (store_handler i h s).1
unfolding store_handler stored with_hosted
store_handler-ServerInv i h s v = elim (Option-cases (find i s.active_request_handlers)) [
  | inr (x, e) ↦ rw (e, store_handler) (record { accounted = v.accounted; threads = v.threads })
  | inl e ↦
      rw (e, store_handler) (record { accounted = λ j. accounted_for j e; threads = v.threads })
]
  where
    accounted_for :
        (j : RequestId)
        → find i s.active_request_handlers ≡ none
        → count j (i ∷ s.live) + count j s.acceptor_strand
          ≤ elim (find j (assign i h s.active_request_handlers)) [ none ↦ 0 | some _ ↦ 1 ]
    accounted_for j e =
        unfold count in
        elim (Bool-cases (id_same i j)) [
          | inl same ↦
              let at : i ≡ j = (id_same_iff i j).0 same in
              let none_yet : stored j s ≡ 0 = stored-none j s (rw (← at) e) in
              ground
                (arith, same, find-assign i j h s.active_request_handlers, v.accounted j, none_yet)
          | inr other ↦
              ground (arith, other, find-assign i j h s.active_request_handlers, v.accounted j)
        ]

pub handle_new_request-ServerInv :
    (route : ParamsMap → Option ℕ) (held : Held) (s : Server)
    → ServerInv s
    → ServerInv (handle_new_request route held s).1
unfolding handle_new_request
handle_new_request-ServerInv route held s v = elim (Outcome-cases (get_fcgi_params held).0) [
  | inr (inl (x, e)) ↦ rw (e, handle_new_request) v
  | inr (inr (x, e)) ↦ rw (e, handle_new_request) v
  | inl (params, e) ↦ elim (Option-cases (route params)) [
    | inl no_handler ↦ rw (e, no_handler, handle_new_request) v
    | inr (h, found) ↦
        rw (e, found, handle_new_request) (store_handler-ServerInv (get_id held.request) h s v)
  ]
]

pub delete_request-ServerInv :
    (i : RequestId) (s : Server) → 0 < count i s.live → ServerInv s → ServerInv (delete_request i s)
unfolding delete_request handle_request_delete stored
delete_request-ServerInv i s h v = elim (Bool-cases (is_started s.status)) [
  | inl on ↦ rw on (record { accounted = posted; threads = v.threads })
  | inr off ↦ rw off (record { accounted = dropped; threads = v.threads })
]
  where
    posted :
        (j : RequestId)
        → count j (remove_one i s.live) + count j (s.acceptor_strand ++ (i ∷ [])) ≤ stored j s
    posted j =
        unfold count in
        omega (
          arith,
          v.accounted j,
          count-remove_one i j s.live h,
          count-append j s.acceptor_strand (i ∷ []),
        )

    dropped :
        (j : RequestId) → count j (remove_one i s.live) + count j s.acceptor_strand ≤ stored j s
    dropped j = omega (arith, v.accounted j, count-remove_one i j s.live h)

-- The oldest deletion finds its handler.
pub deletion-ServerInv :
    (i : RequestId) (rest : List RequestId) (s : Server)
    → s.acceptor_strand ≡ i ∷ rest
    → ServerInv s
    → ((handle_request_delete_impl i (record s { acceptor_strand = rest })).0 ≡ ok tt)
      × ServerInv (handle_request_delete_impl i (record s { acceptor_strand = rest })).1
unfolding handle_request_delete_impl stored
deletion-ServerInv i rest s h v = elim (Option-cases (find i s.active_request_handlers)) [
  | inl e ↦ absurd (omega (arith, v.accounted i, waiting i, own, stored-none i s e))
  | inr (x, e) ↦
      rw (e, handle_request_delete_impl)
        (refl, record { accounted = λ j. accounted_for j; threads = v.threads })
]
  where
    waiting :
        (j : RequestId) → count j s.acceptor_strand ≡ (if id_same i j then 1 else 0) + count j rest
    waiting j = unfold count in rw h refl

    own : ◌≡◌ {A = ℕ} (if id_same i i then 1 else 0) 1
    own = rw ((id_same_iff i i).1 refl) refl

    accounted_for :
        (j : RequestId)
        → count j s.live + count j rest
          ≤ elim (find j (erase i s.active_request_handlers)) [ none ↦ 0 | some _ ↦ 1 ]
    accounted_for j = elim (Bool-cases (id_same i j)) [
      | inl same ↦
          let w : count j s.acceptor_strand ≡ 1 + count j rest = waiting j ∙ rw same refl in
          let none_left : count j s.live + count j rest ≡ 0 =
            omega (arith, v.accounted j, w, stored-le j s) in
          ground (arith, none_left)
      | inr other ↦
          let w : count j s.acceptor_strand ≡ count j rest = waiting j ∙ rw other (ground arith) in
          ground (arith, other, w, find-erase i j s.active_request_handlers, v.accounted j)
    ]
