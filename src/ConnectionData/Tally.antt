-- ===== src/ConnectionData/Tally.antt =====
-- Fastcgi/ConnectionData.h: the calls of requestReadyCallbackFn, counted for each object, beside the
-- entries of the map.
use santiago_old.Prelude.{
  ℕ, ◌+◌, ◌≤◌, ◌<◌, ◌≡◌, ◌≢◌, ◌∙◌, ◌⊎◌, inl, inr, refl, some, Bool-cases, arith, ◌==◌, ==_iff,
  if◌then◌else◌,
}
use santiago_old.OrderedMap.{nat_key, find, assign, find-assign}
use santiago_old.ConnectionData.{ConnectionData, RequestMap, Entry, Notice, flagged, has_flag}
use santiago_old.ConnectionData.Changes.{
  Change, same, added, removed, marked, is_complete, ready_notice,
}
use santiago_old.ConnectionData.Addresses.{
  Holds, IsAddressed, Change-IsAddressed, find-erase_sub, next-le,
}
use santiago_old.ConnectionData.Readiness.{ready_for, not_ready_for}

abbrev pub done : Entry → ℕ
done e = if is_complete e then 1 else 0

-- An object was announced as often as `tally` says: once if its request is complete, and not before.
pub record IsTallied (tally : ℕ → ℕ) (d : ConnectionData) : Type 0 where
  pub addressed : IsAddressed d
  pub exact : (i : ℕ) (e : Entry) → Holds d i e → tally e.request_data ≡ done e
  pub unused : (p : ℕ) → d.next_object ≤ p → tally p ≡ 0
  pub once : (p : ℕ) → tally p ≤ 1

done-le : (e : Entry) → done e ≤ 1
done-le e = ground arith

fresh_entry : (p : ℕ) → done (record { request_state = 0; request_data = p }) ≡ 0
unfolding is_complete has_flag
fresh_entry p = refl

ready_for-own : (i : ℕ) (e : Entry) → ready_for e.request_data (ready_notice i e) ≡ done e
unfolding ready_for
ready_for-own i e = elim (Bool-cases (is_complete e)) [
  | inl full ↦ rw full (ground arith)
  | inr part ↦ rw part refl
]

ready_for-other : (p i : ℕ) (e : Entry) → p ≢ e.request_data → ready_for p (ready_notice i e) ≡ 0
unfolding ready_for
ready_for-other p i e h = elim (Bool-cases (is_complete e)) [
  | inl full ↦ rw full (ground arith)
  | inr part ↦ rw part refl
]

-- The entry under an id after an assignment.
assigned_cases :
    (i j : ℕ) (x e : Entry) (m : RequestMap)
    → find j (assign i x m) ≡ some e
    → ((i ≡ j) × (e ≡ x)) ⊎ ((i ≢ j) × (find j m ≡ some e))
assigned_cases i j x e m h = elim (Bool-cases (i == j)) [
  | inl eq ↦ inl ((==_iff i j).0 eq, ground (arith, eq, find-assign i j x m, h))
  | inr ne ↦ inr (ground (arith, ne), ground (arith, ne, find-assign i j x m, h))
]

module _ {d d' : ConnectionData} {n : Notice} (tally tally' : ℕ → ℕ)
    (counts : (p : ℕ) → tally' p ≡ tally p + ready_for p n) (v : IsTallied tally d) where
  exact-Change : Change d d' n → (j : ℕ) (e : Entry) → Holds d' j e → tally' e.request_data ≡ done e
  exact-Change (same em en q) j e h =
      omega
        (arith, counts e.request_data, not_ready_for e.request_data n q, v.exact j e (rw em at h))
  exact-Change (removed i em en q) j e h = omega (
    arith,
    counts e.request_data,
    not_ready_for e.request_data n q,
    v.exact j e (find-erase_sub i j e _ (rw em at h)),
  )
  exact-Change (added i missing em en q) j e h = elim (assigned_cases i j _ e _ (rw em at h)) [
    | inl (_, x) ↦ rw x (
        omega (
          arith,
          counts d.next_object,
          not_ready_for d.next_object n q,
          v.unused d.next_object,
          fresh_entry d.next_object,
        ))
    | inr (_, old) ↦
        omega (arith, counts e.request_data, not_ready_for e.request_data n q, v.exact j e old)
  ]
  exact-Change (marked i x f found open_still em en notice) j e h =
      elim (assigned_cases i j _ e _ (rw em at h)) [
        | inl (_, y) ↦
            let none_yet : tally x.request_data ≡ 0 = v.exact i x found ∙ rw open_still refl in
            rw y (counts x.request_data ∙ rw (none_yet, notice) (ready_for-own_zero (flagged f x)))
        | inr (other, old) ↦
            let apart : e.request_data ≢ x.request_data =
              λ eq. other (v.addressed.apart i j x e found old (omega arith)) in
            counts e.request_data
            ∙ rw notice (
                omega
                  (arith, ready_for-other e.request_data i (flagged f x) apart, v.exact j e old))
      ]
    where
      ready_for-own_zero : (y : Entry) → 0 + ready_for y.request_data (ready_notice i y) ≡ done y
      ready_for-own_zero y = omega (arith, ready_for-own i y)

  -- An object that is announced now was allocated, and not announced before.
  announced_cases :
      (p : ℕ)
      → Change d d' n
      → (ready_for p n ≡ 0) ⊎ ((ready_for p n ≤ 1) × (tally p ≡ 0) × (p < d.next_object))
  announced_cases p (same em en q) = inl (not_ready_for p n q)
  announced_cases p (removed i em en q) = inl (not_ready_for p n q)
  announced_cases p (added i missing em en q) = inl (not_ready_for p n q)
  announced_cases p (marked i x f found open_still em en notice) =
      elim (Bool-cases (p == x.request_data)) [
        | inr other ↦ inl (rw notice (ready_for-other p i (flagged f x) (ground (arith, other))))
        | inl own ↦
            let at : p ≡ x.request_data = (==_iff p x.request_data).0 own in
            inr (
              rw (at, notice) (omega (arith, ready_for-own i (flagged f x), done-le (flagged f x))),
              rw at (v.exact i x found ∙ rw open_still refl),
              omega (arith, v.addressed.fresh i x found),
            )
      ]

  pub Change-IsTallied : Change d d' n → IsTallied tally' d'
  Change-IsTallied change = record {
    addressed = Change-IsAddressed change v.addressed;
    exact = exact-Change change;
    unused = λ p h. elim (announced_cases p change) [
      | inl quiet_now ↦ omega (arith, counts p, v.unused p, next-le change)
      | inr (_, _, old) ↦ absurd (omega (arith, next-le change))
    ];
    once = λ p. elim (announced_cases p change) [
      | inl quiet_now ↦ omega (arith, counts p, v.once p)
      | inr (most, none_yet, _) ↦ omega (arith, counts p)
    ];
  }
