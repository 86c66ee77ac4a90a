-- ===== src/ConnectionData/Readiness.antt =====
-- Fastcgi/ConnectionData.h: the calls of requestReadyCallbackFn in a run of operations.
use santiago_old.Prelude.{
  ℕ, ◌+◌, ◌≤◌, ◌<◌, ◌≡◌, ◌≢◌, ◌⊎◌, inl, inr, refl, some, List, [], ◌∷◌, true, false, Bool-cases,
  arith, ◌==◌, if◌then◌else◌,
}
use santiago_old.OrderedMap.{nat_key, find, assign, find-assign}
use santiago_old.RequestData.{RequestData}
use santiago_old.ConnectionData.{
  ConnectionData, RequestMap, Entry, Notice, quiet, request_ready, became_empty, flagged,
  new_connection_data,
}
use santiago_old.ConnectionData.Changes.{
  Op, perform, Change, same, added, removed, marked, perform-Change, notice_of, ready_notice,
  is_complete, IsReady,
}
use santiago_old.ConnectionData.Addresses.{
  Holds, IsAddressed, Change-IsAddressed, new-IsAddressed, find-assign_cases, find-erase_sub,
}

-- One for the callback with an object, zero for any other.
unfoldable pub ready_for : ℕ → Notice → ℕ
ready_for p quiet = 0
ready_for p (request_ready i q) = if p == q then 1 else 0
ready_for p became_empty = 0

-- How often the callback is made with an object in a run of operations.
unfoldable pub ready_count : ℕ → List Op → ConnectionData → ℕ
ready_count p [] d = 0
ready_count p (op ∷ ops) d =
    ready_for p (notice_of (perform op d).0) + ready_count p ops (perform op d).1

-- The object has been allocated, and every entry that holds it is complete.
pub record IsAnnounced (d : ConnectionData) (p : ℕ) : Type 0 where
  pub allocated : p < d.next_object
  pub complete : (i : ℕ) (e : Entry) → Holds d i e → e.request_data ≡ p → is_complete e ≡ true

pub not_ready_for : (p : ℕ) (n : Notice) → ¬ IsReady n → ready_for p n ≡ 0
unfolding ready_for
not_ready_for p quiet h = refl
not_ready_for p (request_ready i q) h = absurd (h tt)
not_ready_for p became_empty h = refl

ready_notice_cases :
    (p i : ℕ) (e : Entry)
    → (ready_for p (ready_notice i e) ≡ 0)
      ⊎ ((ready_for p (ready_notice i e) ≡ 1) × (e.request_data ≡ p) × (is_complete e ≡ true))
unfolding ready_for
ready_notice_cases p i e = elim (Bool-cases (is_complete e)) [
  | inr no_flag ↦ rw no_flag (inl refl)
  | inl done ↦ elim (Bool-cases (p == e.request_data)) [
    | inl hit ↦ rw (done, hit) (inr (refl, ground (arith, hit), refl))
    | inr miss ↦ rw (done, miss) (inl refl)
  ]
]

-- A request that is not complete has another object.
other_object :
    {d : ConnectionData} (p i : ℕ) (x : Entry)
    → IsAnnounced d p
    → Holds d i x
    → is_complete x ≡ false
    → x.request_data ≢ p
other_object p i x v found still_open at = cc (v.complete i x found at, still_open)

-- A change after the callback keeps its object announced, and makes the callback no second time.
pub IsAnnounced-step :
    {d d' : ConnectionData} {n : Notice} (p : ℕ)
    → Change d d' n
    → IsAnnounced d p
    → IsAnnounced d' p × (ready_for p n ≡ 0)
IsAnnounced-step {n = n} p (same em en quiet_change) v = (
  record {
    allocated = omega (arith, v.allocated);
    complete = λ i e h at. v.complete i e (rw em at h) at;
  },
  not_ready_for p n quiet_change,
)
IsAnnounced-step {n = n} p (added i missing em en quiet_change) v = (
  record {
    allocated = omega (arith, v.allocated);
    complete = λ j e h at. elim (find-assign_cases i j _ e _ (rw em at h)) [
      | inl (_, x) ↦ absurd (ground (arith, x, v.allocated))
      | inr old ↦ v.complete j e old at
    ];
  },
  not_ready_for p n quiet_change,
)
IsAnnounced-step {n = n} p (removed i em en quiet_change) v = (
  record {
    allocated = omega (arith, v.allocated);
    complete = λ j e h at. v.complete j e (find-erase_sub i j e _ (rw em at h)) at;
  },
  not_ready_for p n quiet_change,
)
IsAnnounced-step p (marked i x f found still_open em en notice) v = (
  record {
    allocated = omega (arith, v.allocated);
    complete = λ j e h at. elim (find-assign_cases i j _ e _ (rw em at h)) [
      | inl (_, y) ↦ absurd (other_object p i x v found still_open (ground (arith, y)))
      | inr old ↦ v.complete j e old at
    ];
  },
  elim (ready_notice_cases p i (flagged f x)) [
    | inl none_made ↦ rw notice none_made
    | inr (_, at, _) ↦ absurd (other_object p i x v found still_open at)
  ],
)

find_at_own :
    (i j : ℕ) (x e : Entry) (f : ℕ) (m : RequestMap)
    → i ≡ j
    → find i m ≡ some x
    → find j (assign i (flagged f x) m) ≡ some e
    → e ≡ flagged f x
find_at_own i j x e f m eq found h = ground (arith, find-assign i j (flagged f x) m)

-- Only the change that completes a request makes its callback, and announces its object.
pub announcing_step :
    {d d' : ConnectionData} {n : Notice} (p : ℕ)
    → Change d d' n
    → IsAddressed d
    → (ready_for p n ≡ 0) ⊎ ((ready_for p n ≡ 1) × IsAnnounced d' p)
announcing_step {n = n} p (same em en quiet_change) v = inl (not_ready_for p n quiet_change)
announcing_step {n = n} p (added i missing em en quiet_change) v =
    inl (not_ready_for p n quiet_change)
announcing_step {n = n} p (removed i em en quiet_change) v = inl (not_ready_for p n quiet_change)
announcing_step p (marked i x f found still_open em en notice) v =
    elim (ready_notice_cases p i (flagged f x)) [
      | inl none_made ↦ inl (rw notice none_made)
      | inr (made, at, done) ↦ inr (
        rw notice made,
        record {
          allocated = omega (arith, v.fresh i x found);
          complete = λ j e h same_object. elim (find-assign_cases i j _ e _ (rw em at h)) [
            | inl (_, y) ↦ cc (y, done)
            | inr old ↦ cc (
              find_at_own i j x e f _ (v.apart i j x e found old (omega arith)) found (rw em at h),
              done,
            )
          ];
        },
      )
    ]

ready_count-IsAnnounced :
    (p : ℕ) (ops : List Op) (d : ConnectionData) → IsAnnounced d p → ready_count p ops d ≡ 0
unfolding ready_count
ready_count-IsAnnounced p [] d v = refl
ready_count-IsAnnounced p (op ∷ ops) d v =
    let (v', none_made) = IsAnnounced-step p (perform-Change op d) v in
    omega (arith, none_made, ready_count-IsAnnounced p ops _ v')

ready_count-le :
    (p : ℕ) (ops : List Op) (d : ConnectionData) → IsAddressed d → ready_count p ops d ≤ 1
unfolding ready_count
ready_count-le p [] d v = omega arith
ready_count-le p (op ∷ ops) d v = elim (announcing_step p (perform-Change op d) v) [
  | inl none_made ↦
      omega (arith, none_made, ready_count-le p ops _ (Change-IsAddressed (perform-Change op d) v))
  | inr (made, v') ↦ omega (arith, made, ready_count-IsAnnounced p ops _ v')
]

-- Whatever operations reach the data of a new connection, in whatever order, requestReadyCallbackFn
-- is called at most once with the RequestData object of any one request.
pub ready_at_most_once :
    (p : ℕ) (ops : List Op) (memory : ℕ → RequestData)
    → ready_count p ops (new_connection_data memory) ≤ 1
ready_at_most_once p ops memory = ready_count-le p ops _ (new-IsAddressed memory)
