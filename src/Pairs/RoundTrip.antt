-- ===== src/Pairs/RoundTrip.antt =====
-- Fastcgi/PairParseFunctions.h: ParsePairs after WritePair.
use santiago_old.Prelude.{
  ℕ, zero, suc, ◌+◌, ◌%◌, ◌^◌, ◌<◌, ◌≡◌, refl, sym, ap, ◌∙◌, List, [], ◌∷◌, ◌++◌, append_assoc,
  append-nil, arith, some, length, length-append, All,
}
use santiago_old.Exec.{ok}
use santiago_old.OrderedMap.{insert}
use santiago_old.Text.{text_key}
use santiago_old.Pairs.{
  ParamsMap, write_pair, read_length, read_strings, read_pair, pair_at, length_at, parse_loop,
  parse_pairs, string_at,
}
use santiago_old.Pairs.Bounds.{parse_loop_end, parse_loop_step}
use santiago_old.Pairs.Encode.{
  length_bytes, pair_bytes, write_pair-pair_bytes, length_bytes-pos, read_length-length_bytes,
  string_at-append,
}

-- Regrouped reads: `u` is any list that splits as shown.
read_length_at :
    (front rest : List ℕ) (size : ℕ) {u : List ℕ} {m : ℕ}
    → size < 2 ^ 31
    → u ≡ front ++ (length_bytes size ++ rest)
    → m ≡ length front
    → read_length u (length u) m ≡ length_at size (m + length (length_bytes size))
read_length_at front rest size h eu em = rw (eu, em) (read_length-length_bytes front rest size h)

string_at_split :
    (front str rest : List ℕ) {u : List ℕ} {m : ℕ}
    → u ≡ front ++ (str ++ rest)
    → m ≡ length front
    → string_at u m (length str) ≡ some str
string_at_split front str rest eu em = rw (eu, em) (string_at-append front str rest)

length_split :
    (front mid rest : List ℕ)
    → length (front ++ (mid ++ rest)) ≡ length front + length mid + length rest
length_split front mid rest =
    omega (arith, length-append front (mid ++ rest), length-append mid rest)

read_strings_at :
    (front key value rest : List ℕ) {u : List ℕ} {m : ℕ}
    → u ≡ front ++ (key ++ (value ++ rest))
    → m ≡ length front
    → read_strings u (length u) m (length key) (length value)
      ≡ pair_at key value (m + length key + length value)
unfolding read_strings
read_strings_at front key value rest {u} {m} eu em =
    let key_read : string_at u m (length key) ≡ some key =
      string_at_split front key (value ++ rest) eu em in
    let value_read : string_at u (m + length key) (length value) ≡ some value =
      string_at_split (front ++ key) value rest (eu ∙ sym (append_assoc front key (value ++ rest)))
        (omega (arith, length-append front key)) in
    let size : length u ≡ length front + length key + length (value ++ rest) =
      ap length eu ∙ length_split front key (value ++ rest) in
    ground (arith, key_read, value_read, size, length-append value rest)

-- The limits that the four-byte form sets: WritePair keeps 31 bits of a size.
abbrev pub Fits : List ℕ × List ℕ → Type 0
Fits p = (length p.0 < 2 ^ 31) × (length p.1 < 2 ^ 31)

pub read_pair-pair_bytes :
    (front key value rest : List ℕ) {u : List ℕ} {m : ℕ}
    → Fits (key, value)
    → u ≡ front ++ (pair_bytes key value ++ rest)
    → m ≡ length front
    → read_pair u (length u) m ≡ pair_at key value (m + length (pair_bytes key value))
unfolding read_pair pair_bytes
read_pair-pair_bytes front key value rest {u} {m} (hk, hv) eu em =
    let name_part = length_bytes (length key) in
    let value_part = length_bytes (length value) in
    let after_name = value_part ++ (key ++ (value ++ rest)) in
    let e1 : u ≡ front ++ (name_part ++ after_name) = eu ∙ simp append_assoc in
    let e2 : u ≡ (front ++ name_part) ++ after_name = e1 ∙ simp append_assoc in
    let e3 : u ≡ ((front ++ name_part) ++ value_part) ++ (key ++ (value ++ rest)) =
      e1 ∙ simp append_assoc in
    let r1 = read_length_at front after_name (length key) hk e1 em in
    let r2 =
      read_length_at (front ++ name_part) (key ++ (value ++ rest)) (length value)
        {m = m + length name_part} hv e2 (omega (arith, length-append front name_part)) in
    let r3 =
      read_strings_at ((front ++ name_part) ++ value_part) key value rest
        {m = m + length name_part + length value_part} e3
        (omega
          (arith, length-append front name_part, length-append (front ++ name_part) value_part)) in
    let size : length u
        ≡ length (front ++ name_part) + length value_part + length (key ++ (value ++ rest)) =
      ap length e2 ∙ length_split (front ++ name_part) value_part (key ++ (value ++ rest)) in
    let total = length-append name_part (value_part ++ (key ++ value)) in
    let total' = length-append value_part (key ++ value) in
    ground (
      arith,
      r1,
      r2,
      r3,
      size,
      total,
      total',
      length-append key value,
      length-append front name_part,
      length_bytes-pos (length value),
    )

-- The bytes of several pairs, one behind the other, and what a map gets from them.
unfoldable pub pairs_bytes : List (List ℕ × List ℕ) → List ℕ
pairs_bytes [] = []
pairs_bytes ((key, value) ∷ pairs) = pair_bytes key value ++ pairs_bytes pairs

-- The calls of WritePair for several pairs, in order.
unfoldable pub write_pairs : List ℕ → List (List ℕ × List ℕ) → List ℕ
write_pairs buffer [] = buffer
write_pairs buffer ((key, value) ∷ pairs) = write_pairs (write_pair buffer key value) pairs

unfoldable pub insert_all : List (List ℕ × List ℕ) → ParamsMap → ParamsMap
insert_all [] m = m
insert_all ((key, value) ∷ pairs) m = insert_all pairs (insert key value m)

pub write_pairs-pairs_bytes :
    (buffer : List ℕ) (pairs : List (List ℕ × List ℕ))
    → write_pairs buffer pairs ≡ buffer ++ pairs_bytes pairs
unfolding write_pairs pairs_bytes
write_pairs-pairs_bytes buffer [] = sym (append-nil buffer)
write_pairs-pairs_bytes buffer ((key, value) ∷ pairs) =
    write_pairs-pairs_bytes (write_pair buffer key value) pairs
    ∙ rw (write_pair-pair_bytes buffer key value) (append_assoc buffer (pair_bytes key value) _)

length-pair_bytes : (key value : List ℕ) → 0 < length (pair_bytes key value)
unfolding pair_bytes
length-pair_bytes key value = omega (
  arith,
  length-append (length_bytes (length key)) (length_bytes (length value) ++ (key ++ value)),
  length_bytes-pos (length key),
)

parse_loop-pairs_bytes :
    (pairs : List (List ℕ × List ℕ)) (fuel : ℕ) (front : List ℕ) (m : ParamsMap)
    → All Fits pairs
    → length (pairs_bytes pairs) < fuel
    → let u = front ++ pairs_bytes pairs in
      parse_loop fuel u (length u) (length front) m ≡ ok (insert_all pairs m)
unfolding pairs_bytes insert_all
parse_loop-pairs_bytes pairs zero front m fits h = absurd (omega arith)
parse_loop-pairs_bytes [] (suc fuel) front m fits h =
    parse_loop_end fuel _ _ (length front) m (rw append-nil (ground arith))
parse_loop-pairs_bytes ((key, value) ∷ pairs) (suc fuel) front m (fit, fits) h =
    let head = pair_bytes key value in
    let tail = pairs_bytes pairs in
    let u = front ++ (head ++ tail) in
    let long = length-append front (head ++ tail) in
    let longer = length-append head tail in
    parse_loop_step fuel u (length u) (length front) m
      (ground (arith, long, longer, length-pair_bytes key value))
      (read_pair-pair_bytes front key value tail fit refl refl)
    ∙ rw (← append_assoc front head tail, ← length-append front head)
        (parse_loop-pairs_bytes pairs fuel (front ++ head) (insert key value m) fits
          (omega (arith, longer, length-pair_bytes key value)))

-- ParsePairs on what WritePair wrote for some pairs, each string shorter than 2 ^ 31 bytes and all
-- of it shorter than 2 ^ 32, inserts these pairs in order.
pub parse_pairs-write_pairs :
    (pairs : List (List ℕ × List ℕ)) (m : ParamsMap)
    → All Fits pairs
    → length (write_pairs [] pairs) < 2 ^ 32
    → parse_pairs (write_pairs [] pairs) m ≡ ok (insert_all pairs m)
unfolding parse_pairs
parse_pairs-write_pairs pairs m fits short =
    let bytes : write_pairs [] pairs ≡ pairs_bytes pairs = write_pairs-pairs_bytes [] pairs in
    let short' : length (pairs_bytes pairs) < 2 ^ 32 = rw bytes at short in
    let whole : length (pairs_bytes pairs) % 2 ^ 32 ≡ length (pairs_bytes pairs) = omega arith in
    rw (bytes, whole)
      (parse_loop-pairs_bytes pairs (suc (length (pairs_bytes pairs))) [] m fits (omega arith))
