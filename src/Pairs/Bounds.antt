-- ===== src/Pairs/Bounds.antt =====
-- Fastcgi/PairParseFunctions.h: the indices of ParsePairs.
use santiago_old.Prelude.{
  ℕ, zero, suc, ◌+◌, ◌%◌, ◌^◌, ◌≤◌, ◌<◌, ◌≡◌, refl, ◌∙◌, true, false, some, List, arith, length,
  take, drop, ltb→lt, ◌⊎◌, get_elem?-in_range, Bool-cases, inl, inr, ltb, leb,
}
use santiago_old.Exec.{ok}
use santiago_old.OrderedMap.{insert}
use santiago_old.Text.{text_key}
use santiago_old.Pairs.{
  ParamsMap, LengthRead, cut, outside, length_at, four_bytes, read_length, string_at, parse_loop,
  parse_pairs, PairRead, broken, overrun, pair_at, read_strings, read_pair,
}

-- A read of a length inside the array moves the index forward and not past the end.
abbrev InBounds : ℕ → ℕ → LengthRead → Type 0
InBounds n m cut = Unit
InBounds n m outside = ⊥
InBounds n m (length_at k m') = (m < m') × (m' ≤ n)

four_bytes-InBounds :
    (u : List ℕ) (n b m : ℕ) → n ≤ length u → m + 4 ≤ n → InBounds n m (four_bytes u b m)
unfolding four_bytes
four_bytes-InBounds u n b m hn h =
    let (c, ec) = get_elem?-in_range u (m + 1) (omega arith) in
    let (d, ed) = get_elem?-in_range u (m + 2) (omega arith) in
    let (e, ee) = get_elem?-in_range u (m + 3) (omega arith) in ground arith

read_length-InBounds :
    (u : List ℕ) (n m : ℕ) → n ≤ length u → m < n → InBounds n m (read_length u n m)
unfolding read_length
read_length-InBounds u n m hn h =
    let (b, eb) = get_elem?-in_range u m (omega arith) in
    ground (arith, four_bytes-InBounds u n b m)

string_at-in_bounds :
    (u : List ℕ) (m k : ℕ) → m + k ≤ length u → (s : List ℕ) × (string_at u m k ≡ some s)
unfolding string_at
string_at-in_bounds u m k h = (take k (drop m u), ground arith)

-- A body that goes on has moved the index forward and not past the end.
abbrev PairInBounds : ℕ → ℕ → PairRead → Type 0
PairInBounds n m broken = Unit
PairInBounds n m overrun = ⊥
PairInBounds n m (pair_at k v m') = (m < m') × (m' ≤ n)

read_strings-InBounds :
    (u : List ℕ) (n l m j k : ℕ)
    → n ≤ length u
    → l < m
    → m ≤ n
    → PairInBounds n l (read_strings u n m j k)
unfolding read_strings
read_strings-InBounds u n l m j k hn hl h =
    ground (arith, string_at-in_bounds u m j, string_at-in_bounds u (m + j) k)

LengthRead-cases :
    (n m : ℕ) (r : LengthRead)
    → InBounds n m r
    → (r ≡ cut) ⊎ ((k m' : ℕ) × (r ≡ length_at k m') × (m < m') × (m' ≤ n))
LengthRead-cases n m cut h = inl refl
LengthRead-cases n m outside h = absurd h
LengthRead-cases n m (length_at k m') h = inr (k, m', refl, h.0, h.1)

read_pair-InBounds :
    (u : List ℕ) (n m : ℕ) → n ≤ length u → m < n → PairInBounds n m (read_pair u n m)
unfolding read_pair
read_pair-InBounds u n m hn h = elim (LengthRead-cases _ m _ (read_length-InBounds u n m hn h)) [
  | inl e ↦ rw (e, read_pair) tt
  | inr (j, m1, e, lo, hi) ↦ elim (Bool-cases (leb n m1)) [
    | inl last ↦ rw (e, last, read_pair) tt
    | inr more ↦ elim (LengthRead-cases _ m1 _ (read_length-InBounds u n m1 hn (ground arith))) [
      | inl e' ↦ rw (e, more, e', read_pair) tt
      | inr (k, m2, e', lo', hi') ↦
          rw (e, more, e', read_pair) (read_strings-InBounds u n m m2 j k hn (omega arith) hi')
    ]
  ]
]

PairRead-cases :
    (n m : ℕ) (r : PairRead)
    → PairInBounds n m r
    → (r ≡ broken) ⊎ ((k v : List ℕ) × (m' : ℕ) × (r ≡ pair_at k v m') × (m < m') × (m' ≤ n))
PairRead-cases n m broken h = inl refl
PairRead-cases n m overrun h = absurd h
PairRead-cases n m (pair_at k v m') h = inr (k, v, m', refl, h.0, h.1)

module _ (fuel : ℕ) (u : List ℕ) (n m : ℕ) (pairs : ParamsMap) where
  pub parse_loop_end : ltb m n ≡ false → parse_loop (suc fuel) u n m pairs ≡ ok pairs
  unfolding parse_loop
  parse_loop_end done = ground arith

  parse_loop_break :
      ltb m n ≡ true → read_pair u n m ≡ broken → parse_loop (suc fuel) u n m pairs ≡ ok pairs
  unfolding parse_loop
  parse_loop_break more e = rw (more, e, parse_loop)

  pub parse_loop_step :
      {k v : List ℕ} {m' : ℕ}
      → ltb m n ≡ true
      → read_pair u n m ≡ pair_at k v m'
      → parse_loop (suc fuel) u n m pairs ≡ parse_loop fuel u n m' (insert k v pairs)
  unfolding parse_loop
  parse_loop_step more e = rw (more, e, parse_loop)

parse_loop-total :
    (fuel : ℕ) (u : List ℕ) (n m : ℕ) (pairs : ParamsMap)
    → n ≤ length u
    → m ≤ n
    → n < fuel + m
    → (result : ParamsMap) × (parse_loop fuel u n m pairs ≡ ok result)
parse_loop-total zero u n m pairs hn h hf = absurd (omega arith)
parse_loop-total (suc fuel) u n m pairs hn h hf = elim (Bool-cases (ltb m n)) [
  | inl more ↦ elim (PairRead-cases _ m _ (read_pair-InBounds u n m hn (ltb→lt _ _ more))) [
    | inl e ↦ (pairs, parse_loop_break fuel u _ m pairs more e)
    | inr (k, v, m', e, lo, hi) ↦
        let (result, run) = parse_loop-total fuel u n m' (insert k v pairs) hn hi (omega arith) in
        (result, parse_loop_step fuel u _ m pairs more e ∙ run)
  ]
  | inr done ↦ (pairs, parse_loop_end fuel u _ m pairs done)
]

-- ParsePairs returns a map for every input: it never reads outside the array, whatever lengths the
-- input claims, and its loop ends.
pub parse_pairs-total :
    (u : List ℕ) (pairs : ParamsMap) → (result : ParamsMap) × (parse_pairs u pairs ≡ ok result)
unfolding parse_pairs
parse_pairs-total u pairs =
    let n = length u % 2 ^ 32 in
    parse_loop-total (suc n) u n 0 pairs (omega arith) (omega arith) (omega arith)
