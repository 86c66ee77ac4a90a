-- ===== src/Text.antt =====
-- std::string as the list of its bytes, with the operator< and == that std::map uses.
use santiago_old.Prelude.{
  ℕ, ◌≡◌, ◌↔◌, Bool, true, false, List, [], ◌∷◌, ◌==◌, ltb, if◌then◌else◌, arith, ◌&&◌,
}
use santiago_old.OrderedMap.{Key}
use Prim.Native.Char.{code}
use Prim.Native.String.{String}

-- a == b
unfoldable pub text_eq : List ℕ → List ℕ → Bool
text_eq [] [] = true
text_eq [] (y ∷ ys) = false
text_eq (x ∷ xs) [] = false
text_eq (x ∷ xs) (y ∷ ys) = x == y && text_eq xs ys

-- a < b: the first bytes that differ decide, as unsigned, and a proper prefix is less.
unfoldable pub text_before : List ℕ → List ℕ → Bool
text_before [] [] = false
text_before [] (y ∷ ys) = true
text_before (x ∷ xs) [] = false
text_before (x ∷ xs) (y ∷ ys) =
    let rest = text_before xs ys in if ltb x y then true else if x == y then rest else false

pub text_eq_iff : (a b : List ℕ) → (text_eq a b ≡ true) ↔ (a ≡ b)
unfolding text_eq
text_eq_iff [] [] = ground arith
text_eq_iff [] (y ∷ ys) = ground arith
text_eq_iff (x ∷ xs) [] = ground arith
text_eq_iff (x ∷ xs) (y ∷ ys) = ground (arith, text_eq_iff xs ys)

instance abbrev pub text_key : Key (List ℕ)
text_key = record { same = text_eq; before = text_before; same_iff = text_eq_iff }

-- The bytes of an ASCII literal.
abbrev pub bytes : String → List ℕ
bytes String.[] = []
bytes (String.◌∷◌ c s) = code c ∷ bytes s
