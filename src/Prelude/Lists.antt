-- ===== src/Prelude/Lists.antt =====
-- Lists measured, cut and indexed by native numbers, under the library's names.
use Prim.Native.Nat.{ℕ, zero, suc, ◌+◌, ◌-◌, ◌≤◌, ◌<◌, min}
use mathlib.Core.Path.{◌≡◌, refl, sym, ap, ◌∙◌, subst}
use mathlib.Core.Logic.{◌⊎◌, inl, inr}
use mathlib.Core.List.{List, [], ◌∷◌, ◌++◌, append-nil, append_assoc}
use mathlib.Core.Option.{Option, none, some}
use native.Mathlib.Omega.{arith}

module _ {ℓ} {A : Type ℓ} where
  abbrev pub length : List A → ℕ
  length [] = 0
  length (x ∷ xs) = suc (length xs)

  abbrev pub get_elem? : List A → ℕ → Option A
  get_elem? [] i = none
  get_elem? (x ∷ xs) zero = some x
  get_elem? (x ∷ xs) (suc i) = get_elem? xs i

  abbrev pub take : ℕ → List A → List A
  take zero xs = []
  take (suc n) [] = []
  take (suc n) (x ∷ xs) = x ∷ take n xs

  abbrev pub drop : ℕ → List A → List A
  drop zero xs = xs
  drop (suc n) [] = []
  drop (suc n) (x ∷ xs) = drop n xs

  abbrev pub replicate : ℕ → A → List A
  replicate zero a = []
  replicate (suc n) a = a ∷ replicate n a

module _ {ℓ} {A : Type ℓ} where
  pub length-append : (xs ys : List A) → length (xs ++ ys) ≡ length xs + length ys
  length-append [] ys = omega arith
  length-append (x ∷ xs) ys = omega (arith, length-append xs ys)

  pub length-replicate : (n : ℕ) (a : A) → length (replicate n a) ≡ n
  length-replicate zero a = refl
  length-replicate (suc n) a = ap suc (length-replicate n a)

  pub length-take : (n : ℕ) (xs : List A) → length (take n xs) ≡ min n (length xs)
  length-take zero xs = omega arith
  length-take (suc n) [] = omega arith
  length-take (suc n) (x ∷ xs) = omega (arith, length-take n xs)

  pub length-drop : (n : ℕ) (xs : List A) → length (drop n xs) ≡ length xs - n
  length-drop zero xs = omega arith
  length-drop (suc n) [] = omega arith
  length-drop (suc n) (x ∷ xs) = omega (arith, length-drop n xs)

  pub take-append-drop : (n : ℕ) (xs : List A) → take n xs ++ drop n xs ≡ xs
  take-append-drop zero xs = refl
  take-append-drop (suc n) [] = refl
  take-append-drop (suc n) (x ∷ xs) = rw (take-append-drop n xs)

  pub take-append_length : (xs ys : List A) → take (length xs) (xs ++ ys) ≡ xs
  take-append_length [] ys = refl
  take-append_length (x ∷ xs) ys = rw (take-append_length xs ys)

  pub drop-append_length : (xs ys : List A) → drop (length xs) (xs ++ ys) ≡ ys
  drop-append_length [] ys = refl
  drop-append_length (x ∷ xs) ys = drop-append_length xs ys

  pub take_all : (n : ℕ) (xs : List A) → length xs ≤ n → take n xs ≡ xs
  take_all zero [] h = refl
  take_all zero (x ∷ xs) h = absurd (omega arith)
  take_all (suc n) [] h = refl
  take_all (suc n) (x ∷ xs) h = rw (take_all n xs (omega arith))

  -- Reading a list at the length of its front part reads the rest from its start.
  pub get_elem?-append_length :
      (xs ys : List A) (i : ℕ) → get_elem? (xs ++ ys) (length xs + i) ≡ get_elem? ys i
  get_elem?-append_length [] ys i = rw (zero_add i)
    where
      zero_add : (j : ℕ) → 0 + j ≡ j
      zero_add j = omega arith
  get_elem?-append_length (x ∷ xs) ys i = rw (shift (length xs) i) (get_elem?-append_length xs ys i)
    where
      shift : (n j : ℕ) → suc n + j ≡ suc (n + j)
      shift n j = omega arith

  pub drop-append_add : (xs ys : List A) (i : ℕ) → drop (length xs + i) (xs ++ ys) ≡ drop i ys
  drop-append_add [] ys i = rw (zero_add i)
    where
      zero_add : (j : ℕ) → 0 + j ≡ j
      zero_add j = omega arith
  drop-append_add (x ∷ xs) ys i = rw (shift (length xs) i) (drop-append_add xs ys i)
    where
      shift : (n j : ℕ) → suc n + j ≡ suc (n + j)
      shift n j = omega arith

  pub get_elem?-in_range :
      (xs : List A) (i : ℕ) → i < length xs → (x : A) × (get_elem? xs i ≡ some x)
  get_elem?-in_range [] i h = absurd (omega arith)
  get_elem?-in_range (x ∷ xs) zero h = (x, refl)
  get_elem?-in_range (x ∷ xs) (suc i) h = get_elem?-in_range xs i (omega arith)

  abbrev pub All {κ} : (A → Type κ) → List A → Type κ
  All P [] = Unit {κ}
  All P (x ∷ xs) = P x × All P xs

module _ {ℓ} {A : Type ℓ} where
  pub get_elem?-length : (xs ys : List A) → get_elem? (xs ++ ys) (length xs) ≡ get_elem? ys 0
  get_elem?-length [] ys = refl
  get_elem?-length (x ∷ xs) ys = get_elem?-length xs ys

-- An item of a list.
abbrev pub Among : {A : Type 0} → A → List A → Type 0
Among x [] = ⊥
Among x (y ∷ ys) = (y ≡ x) ⊎ Among x ys

module _ {A : Type 0} (x : A) where
  pub Among-append_left : (xs ys : List A) → Among x xs → Among x (xs ++ ys)
  Among-append_left [] ys m = elim m [ ]
  Among-append_left (y ∷ xs) ys (inl e) = inl e
  Among-append_left (y ∷ xs) ys (inr m) = inr (Among-append_left xs ys m)

  pub Among-append_right : (xs ys : List A) → Among x ys → Among x (xs ++ ys)
  Among-append_right [] ys m = m
  Among-append_right (y ∷ xs) ys m = inr (Among-append_right xs ys m)

-- A list that begins with another one.
pub record Extends {A : Type 0} (xs ys : List A) : Type 0 where
  pub back : List A
  pub at : ys ≡ xs ++ back

module _ {A : Type 0} where
  pub Extends-refl : (xs : List A) → Extends xs xs
  Extends-refl xs = record { back = []; at = sym (append-nil xs) }

  pub Extends-append : (xs ys : List A) → Extends xs (xs ++ ys)
  Extends-append xs ys = record { back = ys; at = refl }

  pub Extends-trans : {xs ys zs : List A} → Extends xs ys → Extends ys zs → Extends xs zs
  Extends-trans {xs} v w = record {
    back = v.back ++ w.back;
    at = w.at ∙ ap (λ ts. ts ++ w.back) v.at ∙ append_assoc xs v.back w.back;
  }

  pub Among-Extends : (x : A) {xs ys : List A} → Extends xs ys → Among x xs → Among x ys
  Among-Extends x {xs} v m = subst (λ ts. Among x ts) (sym v.at) (Among-append_left x xs v.back m)
