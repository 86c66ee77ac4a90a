-- ===== src/OrderedMap.antt =====
-- std::map: entries in the order of their keys. Iteration follows the list.
use santiago_old.Prelude.{
  ℕ, ◌≡◌, refl, ◌↔◌, ◌≢◌, Bool, true, false, Option, none, some, List, [], ◌∷◌, ◌==◌, ==_iff, ltb,
  length, if◌then◌else◌, arith, Option-cases, inl, inr,
}

-- The key's operator< and the equality that it induces.
pub record Key {ℓ} (K : Type ℓ) : Type ℓ where
  pub same : K → K → Bool
  pub before : K → K → Bool
  pub same_iff : (a b : K) → (same a b ≡ true) ↔ (a ≡ b)

instance abbrev pub nat_key : Key ℕ
nat_key = record { same = λ a b. a == b; before = ltb; same_iff = ==_iff }

abbrev pub OrderedMap {ℓ κ} : Type ℓ → Type κ → Type (ℓ ⊔ κ)
OrderedMap K V = List (K × V)

module _ {ℓ κ} {K : Type ℓ} {V : Type κ} ⦃key : Key K⦄ where
  -- m.find(k), as the value or end()
  unfoldable pub find : K → OrderedMap K V → Option V
  find k [] = none
  find k ((j, v) ∷ m) = if key.same j k then some v else find k m

  -- A key that is not there goes before the first greater one.
  unfoldable pub place : K → V → OrderedMap K V → OrderedMap K V
  place k v [] = (k, v) ∷ []
  place k v ((j, w) ∷ m) =
      let rest = place k v m in if key.before k j then (k, v) ∷ (j, w) ∷ m else (j, w) ∷ rest

  -- m.insert(value_type(k, v)): a key that is there keeps its value.
  unfoldable pub insert : K → V → OrderedMap K V → OrderedMap K V
  insert k v m = elim (find k m) [ some _ ↦ m | none ↦ place k v m ]

  -- *iter = v for the iterator of a key
  unfoldable pub replace : K → V → OrderedMap K V → OrderedMap K V
  replace k v [] = []
  replace k v ((j, w) ∷ m) =
      let rest = replace k v m in if key.same j k then (j, v) ∷ m else (j, w) ∷ rest

  -- m[k] = v
  unfoldable pub assign : K → V → OrderedMap K V → OrderedMap K V
  assign k v m = elim (find k m) [ some _ ↦ replace k v m | none ↦ place k v m ]

  -- m.erase(k)
  unfoldable pub erase : K → OrderedMap K V → OrderedMap K V
  erase k [] = []
  erase k ((j, v) ∷ m) = let rest = erase k m in if key.same j k then rest else (j, v) ∷ rest

  pub find-place :
      (k j : K) (v : V) (m : OrderedMap K V)
      → find k m ≡ none
      → find j (place k v m) ≡ (if key.same k j then some v else find j m)
  unfolding find place
  find-place k j v [] e = refl
  find-place k j v ((i, w) ∷ m) e =
      ground (arith, key.same_iff i k, key.same_iff i j, key.same_iff k j, find-place k j v m)

  pub find-replace :
      (k j : K) (v w : V) (m : OrderedMap K V)
      → find k m ≡ some w
      → find j (replace k v m) ≡ (if key.same k j then some v else find j m)
  unfolding find replace
  find-replace k j v w [] e = cc
  find-replace k j v w ((i, u) ∷ m) e =
      ground (arith, key.same_iff i k, key.same_iff i j, key.same_iff k j, find-replace k j v w m)

  pub find-assign :
      (k j : K) (v : V) (m : OrderedMap K V)
      → find j (assign k v m) ≡ (if key.same k j then some v else find j m)
  unfolding assign
  find-assign k j v m = elim (Option-cases (find k m)) [
    | inl e ↦ rw (e, assign) (find-place k j v m e)
    | inr (w, e) ↦ rw (e, assign) (find-replace k j v w m e)
  ]

  pub find-erase :
      (k j : K) (m : OrderedMap K V)
      → find j (erase k m) ≡ (if key.same k j then none else find j m)
  unfolding find erase
  find-erase k j [] = ground arith
  find-erase k j ((i, w) ∷ m) =
      ground (arith, key.same_iff i k, key.same_iff i j, key.same_iff k j, find-erase k j m)

  pub find-insert :
      (k j : K) (v : V) (m : OrderedMap K V)
      → find j (insert k v m)
        ≡ elim (find j m) [ some w ↦ some w | none ↦ if key.same k j then some v else none ]
  unfolding insert
  find-insert k j v m = ground (arith, find-place k j v m, key.same_iff k j)

  -- A map that was given a key is not empty.
  pub ne-nil_of_length : (m : OrderedMap K V) → (length m == 0) ≡ false → m ≢ []
  ne-nil_of_length [] e h = cc
  ne-nil_of_length (x ∷ m) e h = cc

  pub place-ne-nil : (k : K) (v : V) (m : OrderedMap K V) → place k v m ≢ []
  unfolding place
  place-ne-nil k v [] e = cc
  place-ne-nil k v ((j, w) ∷ m) e = ground arith

  pub replace-ne-nil :
      (k : K) (v w : V) (m : OrderedMap K V) → find k m ≡ some w → replace k v m ≢ []
  unfolding find replace
  replace-ne-nil k v w [] h e = cc
  replace-ne-nil k v w ((j, u) ∷ m) h e = ground arith

  pub assign-ne-nil : (k : K) (v : V) (m : OrderedMap K V) → assign k v m ≢ []
  unfolding assign
  assign-ne-nil k v m = elim (Option-cases (find k m)) [
    | inl e ↦ rw (e, assign) (place-ne-nil k v m)
    | inr (w, e) ↦ rw (e, assign) (replace-ne-nil k v w m e)
  ]
