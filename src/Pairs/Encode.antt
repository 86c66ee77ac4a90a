-- ===== src/Pairs/Encode.antt =====
-- Fastcgi/PairParseFunctions.h: the bytes that WritePair appends.
use santiago_old.Prelude.{
  ℕ, ◌+◌, ◌*◌, ◌/◌, ◌%◌, ◌^◌, ◌<◌, ◌≡◌, ap, List, [], ◌∷◌, ◌++◌, append_assoc, arith, ltb,
  if◌then◌else◌, length, length-append, get_elem?-length, get_elem?-append_length,
  take-append_length, drop-append_length, some, inl, inr, Bool-cases,
}
use santiago_old.Pairs.{write_length, write_pair, read_length, four_bytes, length_at, string_at}

-- The bytes of a length: one below 128, and four with the top bit set from there on.
unfoldable pub length_bytes : ℕ → List ℕ
length_bytes size =
    if ltb 0x7f size
    then (0x80 + size / 2 ^ 24 % 0x80)
      ∷ (size / 2 ^ 16 % 256)
      ∷ (size / 2 ^ 8 % 256)
      ∷ (size % 256)
      ∷ []
    else size ∷ []

-- The bytes of a pair.
unfoldable pub pair_bytes : List ℕ → List ℕ → List ℕ
pair_bytes key value = length_bytes (length key) ++ (length_bytes (length value) ++ (key ++ value))

pub write_length-length_bytes :
    (buffer : List ℕ) (size : ℕ) → write_length buffer size ≡ buffer ++ length_bytes size
unfolding write_length length_bytes
write_length-length_bytes buffer size = ground arith

pub write_pair-pair_bytes :
    (buffer key value : List ℕ) → write_pair buffer key value ≡ buffer ++ pair_bytes key value
unfolding write_pair pair_bytes
write_pair-pair_bytes buffer key value = simp (write_length-length_bytes, append_assoc)

pub length_bytes-pos : (size : ℕ) → 0 < length (length_bytes size)
unfolding length_bytes
length_bytes-pos size = ground arith

abbrev four : ℕ → List ℕ
four size =
    (0x80 + size / 2 ^ 24 % 0x80) ∷ (size / 2 ^ 16 % 256) ∷ (size / 2 ^ 8 % 256) ∷ (size % 256) ∷ []

-- The four bytes put together again.
four_value :
    (size : ℕ)
    → size < 2 ^ 31
    → (0x80 + size / 2 ^ 24 % 0x80) % 0x80 * 2 ^ 24
        + size / 2 ^ 16 % 256 * 2 ^ 16
        + size / 2 ^ 8 % 256 * 2 ^ 8
        + size % 256
      ≡ size
four_value size h = omega arith

four_bytes-four :
    (front rest : List ℕ) (size : ℕ)
    → size < 2 ^ 31
    → four_bytes (front ++ (four size ++ rest)) (0x80 + size / 2 ^ 24 % 0x80) (length front)
      ≡ length_at size (length front + 4)
unfolding four_bytes
four_bytes-four front rest size h =
    rw
      (
        get_elem?-append_length front (four size ++ rest) 1,
        get_elem?-append_length front (four size ++ rest) 2,
        get_elem?-append_length front (four size ++ rest) 3,
        four_bytes,
      )
      (ap (λ (t : ℕ). length_at t (length front + 4)) (four_value size h))

pub read_length-length_bytes :
    (front rest : List ℕ) (size : ℕ)
    → size < 2 ^ 31
    → let u = front ++ (length_bytes size ++ rest) in
      read_length u (length u) (length front)
      ≡ length_at size (length front + length (length_bytes size))
unfolding read_length length_bytes
read_length-length_bytes front rest size h = elim (Bool-cases (ltb 0x7f size)) [
  | inl long ↦ rw long (
      ground (
        arith,
        get_elem?-length front (four size ++ rest),
        four_bytes-four front rest size h,
        length-append front (four size ++ rest),
      ))
  | inr short ↦ rw short (ground (arith, get_elem?-length front (size ∷ rest)))
]

pub string_at-append :
    (front s rest : List ℕ) → string_at (front ++ (s ++ rest)) (length front) (length s) ≡ some s
unfolding string_at
string_at-append front s rest =
    rw (drop-append_length, take-append_length)
      (ground (arith, length-append front (s ++ rest), length-append s rest))
