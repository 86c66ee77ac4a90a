-- ===== src/ConnectionData/Addresses.antt =====
-- Fastcgi/ConnectionData.h: the RequestData objects behind the map, by their addresses.
use santiago_old.Prelude.{
  ℕ, suc, ◌≤◌, ◌<◌, ◌≡◌, ◌≢◌, ◌⊎◌, inl, inr, refl, none, some, List, [], ◌∷◌, false, Bool-cases,
  Option-cases, arith, ◌==◌, ==_iff,
}
use santiago_old.OrderedMap.{nat_key, find, erase, assign, find-assign, find-erase}
use santiago_old.RequestData.{RequestData}
use santiago_old.ConnectionData.{
  ConnectionData, RequestMap, Entry, Notice, new_connection_data, is_valid_request,
}
use santiago_old.ConnectionData.Changes.{
  Op, perform, Change, same, added, removed, marked, perform-Change,
}

-- An entry is in the map under an id.
abbrev pub Holds : ConnectionData → ℕ → Entry → Type 0
Holds d i e = find i d.request_map ≡ some e

pub record IsAddressed (d : ConnectionData) : Type 0 where
  pub fresh : (i : ℕ) (e : Entry) → Holds d i e → e.request_data < d.next_object
  pub apart :
      (i j : ℕ) (e e' : Entry)
      → Holds d i e
      → Holds d j e'
      → e.request_data ≡ e'.request_data
      → i ≡ j

pub find-assign_cases :
    (i j : ℕ) (x e : Entry) (m : RequestMap)
    → find j (assign i x m) ≡ some e
    → ((i ≡ j) × (e ≡ x)) ⊎ (find j m ≡ some e)
find-assign_cases i j x e m h = elim (Bool-cases (i == j)) [
  | inl eq ↦ inl ((==_iff i j).0 eq, ground (arith, eq, find-assign i j x m, h))
  | inr ne ↦ inr (ground (arith, ne, find-assign i j x m, h))
]

pub find-erase_sub :
    (i j : ℕ) (e : Entry) (m : RequestMap) → find j (erase i m) ≡ some e → find j m ≡ some e
find-erase_sub i j e m h = ground (arith, find-erase i j m, h)

-- The entry of the old map at an address, for an entry of the new one that is not new.
abbrev pub OldEntry : ConnectionData → ℕ → Entry → Type 0
OldEntry d j e = (e' : Entry) × Holds d j e' × (e.request_data ≡ e'.request_data)

abbrev pub NewEntry : ConnectionData → ConnectionData → Entry → Type 0
NewEntry d d' e = (e.request_data ≡ d.next_object) × (d'.next_object ≡ suc d.next_object)

pub held_before :
    {d d' : ConnectionData} {n : Notice} (j : ℕ) (e : Entry)
    → Change d d' n
    → Holds d' j e
    → OldEntry d j e ⊎ NewEntry d d' e
held_before j e (same em en _) h = inl (e, rw em at h, refl)
held_before {d} j e (added i missing em en _) h = elim (find-assign_cases i j _ e _ (rw em at h)) [
  | inl (_, x) ↦ inr (ground (arith, x), en)
  | inr old ↦ inl (e, old, refl)
]
held_before j e (removed i em en _) h = inl (e, find-erase_sub i j e _ (rw em at h), refl)
held_before j e (marked i x f found _ em en _) h = elim (find-assign_cases i j _ e _ (rw em at h)) [
  | inl (same_id, y) ↦ inl (x, rw (← same_id) found, ground (arith, y))
  | inr old ↦ inl (e, old, refl)
]

both_old :
    {d : ConnectionData} (j k : ℕ) (e e' : Entry)
    → IsAddressed d
    → OldEntry d j e
    → OldEntry d k e'
    → e.request_data ≡ e'.request_data
    → j ≡ k
both_old j k e e' v (x, held, at) (x', held', at') eq = v.apart j k x x' held held' (omega arith)

old_below :
    {d : ConnectionData} (j : ℕ) (e : Entry)
    → IsAddressed d
    → OldEntry d j e
    → e.request_data < d.next_object
old_below j e v (x, held, at) = omega (arith, v.fresh j x held)

-- A change leaves no two requests with one object.
stay_apart :
    {d d' : ConnectionData} {n : Notice} (j k : ℕ) (e e' : Entry)
    → IsAddressed d
    → Change d d' n
    → Holds d' j e
    → Holds d' k e'
    → e.request_data ≡ e'.request_data
    → j ≡ k
stay_apart {d} {d'} j k e e' v change h h' eq =
    go (held_before j e change h) (held_before k e' change h') (new_ids change)
  where
    -- Two new entries stand under the one id that was added.
    new_ids : {n : Notice} → Change d d' n → NewEntry d d' e → NewEntry d d' e' → j ≡ k
    new_ids (same em en _) (_, up) _ = absurd (omega arith)
    new_ids (removed i em en _) (_, up) _ = absurd (omega arith)
    new_ids (marked i x f found _ em en _) (_, up) _ = absurd (omega arith)
    new_ids (added i missing em en _) (at, _) (at', _) =
        ids (find-assign_cases i j _ e _ (rw em at h)) (find-assign_cases i k _ e' _ (rw em at h'))
      where
        ids :
            ((i ≡ j) × (e ≡ record { request_state = 0; request_data = d.next_object }))
              ⊎ (find j d.request_map ≡ some e)
            → ((i ≡ k) × (e' ≡ record { request_state = 0; request_data = d.next_object }))
              ⊎ (find k d.request_map ≡ some e')
            → j ≡ k
        ids (inl (x, _)) (inl (y, _)) = omega arith
        ids (inr old) _ = absurd (omega (arith, v.fresh j e old))
        ids _ (inr old) = absurd (omega (arith, v.fresh k e' old))

    go :
        OldEntry d j e ⊎ NewEntry d d' e
        → OldEntry d k e' ⊎ NewEntry d d' e'
        → (NewEntry d d' e → NewEntry d d' e' → j ≡ k)
        → j ≡ k
    go (inl o) (inl o') _ = both_old j k e e' v o o' eq
    go (inl o) (inr (at, _)) _ = absurd (omega (arith, old_below j e v o))
    go (inr (at, _)) (inl o') _ = absurd (omega (arith, old_below k e' v o'))
    go (inr x) (inr x') both = both x x'

pub next-le : {d d' : ConnectionData} {n : Notice} → Change d d' n → d.next_object ≤ d'.next_object
next-le (same em en _) = omega arith
next-le (added i missing em en _) = omega arith
next-le (removed i em en _) = omega arith
next-le (marked i x f found _ em en _) = omega arith

pub Change-IsAddressed :
    {d d' : ConnectionData} {n : Notice} → Change d d' n → IsAddressed d → IsAddressed d'
Change-IsAddressed change v = record {
  fresh = λ i e h. elim (held_before i e change h) [
    | inl old ↦ omega (arith, old_below i e v old, next-le change)
    | inr (at, up) ↦ omega arith
  ];
  apart = λ i j e e' h h' eq. stay_apart i j e e' v change h h' eq;
}

-- An object that is allocated and in no entry.
pub record IsDead (d : ConnectionData) (p : ℕ) : Type 0 where
  pub allocated : p < d.next_object
  pub nowhere : (i : ℕ) (e : Entry) → Holds d i e → e.request_data ≢ p

Change-IsDead :
    {d d' : ConnectionData} {n : Notice} (p : ℕ) → Change d d' n → IsDead d p → IsDead d' p
Change-IsDead p change dead = record {
  allocated = omega (arith, dead.allocated, next-le change);
  nowhere = λ i e h eq. elim (held_before i e change h) [
    | inl (x, held, at) ↦ dead.nowhere i x held (omega arith)
    | inr (at, up) ↦ absurd (omega (arith, dead.allocated))
  ];
}

-- The object of a request that an operation took out of the map is dead.
pub removed-IsDead :
    (op : Op) (d : ConnectionData) (i : ℕ) (e : Entry)
    → IsAddressed d
    → Holds d i e
    → find i (perform op d).1.request_map ≡ none
    → IsDead (perform op d).1 e.request_data
removed-IsDead op d i e v held gone = record {
  allocated = omega (arith, v.fresh i e held, next-le (perform-Change op d));
  nowhere = λ j x h eq. elim (held_before j x (perform-Change op d) h) [
    | inl (y, held', at) ↦ cc (v.apart i j e y held held' (omega arith), gone, h)
    | inr (at, up) ↦ absurd (omega (arith, v.fresh i e held))
  ];
}

-- Operations one after the other, each going on from what the one before left.
unfoldable pub run : List Op → ConnectionData → ConnectionData
run [] d = d
run (op ∷ ops) d = run ops (perform op d).1

pub run-IsAddressed : (ops : List Op) (d : ConnectionData) → IsAddressed d → IsAddressed (run ops d)
unfolding run
run-IsAddressed [] d v = v
run-IsAddressed (op ∷ ops) d v = run-IsAddressed ops _ (Change-IsAddressed (perform-Change op d) v)

pub run-IsDead : (ops : List Op) (d : ConnectionData) (p : ℕ) → IsDead d p → IsDead (run ops d) p
unfolding run
run-IsDead [] d p dead = dead
run-IsDead (op ∷ ops) d p dead = run-IsDead ops _ p (Change-IsDead p (perform-Change op d) dead)

pub new-IsAddressed : (memory : ℕ → RequestData) → IsAddressed (new_connection_data memory)
unfolding new_connection_data find
new-IsAddressed memory = record { fresh = λ i e h. cc; apart = λ i j e e' h h' eq. cc }

-- isValidRequest refuses a dead object under every id.
pub is_valid_request-IsDead :
    (i p : ℕ) (d : ConnectionData) → IsDead d p → is_valid_request i p d ≡ false
unfolding is_valid_request
is_valid_request-IsDead i p d dead = elim (Option-cases (find i d.request_map)) [
  | inl e ↦ rw (e, is_valid_request)
  | inr (x, e) ↦ rw (e, is_valid_request) (ground (arith, dead.nowhere i x e))
]
