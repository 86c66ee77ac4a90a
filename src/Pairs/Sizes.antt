-- ===== src/Pairs/Sizes.antt =====
-- Fastcgi/PairParseFunctions.h: how many pairs ParsePairs reads.
use santiago_old.Prelude.{
  ℕ, zero, suc, ◌+◌, ◌%◌, ◌^◌, ◌≤◌, ◌≡◌, List, [], arith, length, Option-cases, inl, inr, ◌∷◌, ltb,
  Bool-cases,
}
use santiago_old.Exec.{ok}
use santiago_old.OrderedMap.{find, place, insert}
use santiago_old.Text.{text_key}
use santiago_old.Pairs.{
  ParamsMap, PairRead, broken, overrun, pair_at, read_pair, parse_loop, parse_pairs,
}

length-place : (k v : List ℕ) (m : ParamsMap) → length (place k v m) ≡ suc (length m)
unfolding place
length-place k v [] = omega arith
length-place k v ((j, w) ∷ m) = elim (Bool-cases (text_key.before k j)) [
  | inl e ↦ rw e (omega arith)
  | inr e ↦ rw e (omega (arith, length-place k v m))
]

length-insert : (k v : List ℕ) (m : ParamsMap) → length (insert k v m) ≤ suc (length m)
unfolding insert
length-insert k v m = elim (Option-cases (find k m)) [
  | inl e ↦ rw (e, insert) (omega (arith, length-place k v m))
  | inr (w, e) ↦ rw (e, insert) (omega arith)
]

length-parse_loop :
    (fuel : ℕ) (u : List ℕ) (n m : ℕ) (pairs r : ParamsMap)
    → parse_loop fuel u n m pairs ≡ ok r
    → length r ≤ length pairs + fuel
unfolding parse_loop
length-parse_loop zero u n m pairs r e = absurd (cc e)
length-parse_loop (suc fuel) u n m pairs r e = elim (Bool-cases (ltb m n)) [
  | inr done ↦ let same : pairs ≡ r = cc (rw (done, parse_loop) at e) in rw (← same) (omega arith)
  | inl more ↦
      go (λ m' q. length-parse_loop fuel u n m' q r) (read_pair u n m) (rw (more, parse_loop) at e)
]
  where
    go :
        ((m' : ℕ) (q : ParamsMap) → parse_loop fuel u n m' q ≡ ok r → length r ≤ length q + fuel)
        → (p : PairRead)
        → elim p [
          | broken ↦ ok pairs
          | overrun ↦ santiago_old.Exec.halted santiago_old.Exec.out_of_bounds
          | pair_at key value m' ↦ parse_loop fuel u n m' (insert key value pairs)
        ]
          ≡ ok r
        → length r ≤ length pairs + suc fuel
    go rest broken h = let same : pairs ≡ r = cc h in rw (← same) (omega arith)
    go rest overrun h = absurd (cc h)
    go rest (pair_at k v m') h =
        omega (arith, rest m' (insert k v pairs) h, length-insert k v pairs)

-- ParsePairs puts at most one pair more than the bytes of the array into an empty map.
pub length-parse_pairs :
    (u : List ℕ) (r : ParamsMap) → parse_pairs u [] ≡ ok r → length r ≤ suc (length u % 2 ^ 32)
unfolding parse_pairs
length-parse_pairs u r e =
    let n = length u % 2 ^ 32 in omega (arith, length-parse_loop (suc n) u n 0 [] r e)
