-- ===== src/Pairs.antt =====
-- Fastcgi/PairParseFunctions.h: name-value pairs in the FastCGI encoding.
pub mod Bounds
pub mod Sizes
pub mod Encode
pub mod RoundTrip
use santiago_old.Prelude.{
  ℕ, zero, suc, ◌+◌, ◌-◌, ◌*◌, ◌/◌, ◌%◌, ◌^◌, Bool, true, false, Option, none, some, List, [], ◌∷◌,
  ◌++◌, ltb, leb, ◌==◌, if◌then◌else◌, length, take, drop, get_elem?,
}
use santiago_old.Exec.{Outcome, ok, halted, out_of_bounds, out_of_fuel}
use santiago_old.OrderedMap.{OrderedMap, insert}
use santiago_old.Text.{text_key}

-- std::map<std::string,std::string>
abbrev pub ParamsMap : Type 0
ParamsMap = OrderedMap (List ℕ) (List ℕ)

-- What reading a length at an index comes to: the `break` for a cut length, a read outside the
-- array, or the length with the index behind it.
pub data LengthRead : Type 0 where
  cut : LengthRead
  outside : LengthRead
  length_at : ℕ → ℕ → LengthRead

-- ((u[m] & 0x7f) << 24) + (u[m + 1] << 16) + (u[m + 2] << 8) + u[m + 3]
unfoldable pub four_bytes : List ℕ → ℕ → ℕ → LengthRead
four_bytes u b m = elim (get_elem? u (m + 1)) [
  | none ↦ outside
  | some c ↦ elim (get_elem? u (m + 2)) [
    | none ↦ outside
    | some d ↦ elim (get_elem? u (m + 3)) [
      | none ↦ outside
      | some e ↦ length_at (b % 0x80 * 2 ^ 24 + c * 2 ^ 16 + d * 2 ^ 8 + e) (m + 4)
    ]
  ]
]

-- One of the two blocks that read a length at u[m].
unfoldable pub read_length : List ℕ → ℕ → ℕ → LengthRead
unfolding four_bytes
read_length u n m = elim (get_elem? u m) [
  | none ↦ outside
  | some b ↦
      if b / 2 ^ 7 == 0
      then length_at b (m + 1)
      else if ltb (n - m) 4
      then cut
      else four_bytes u b m
]

-- std::string(data + m, k), which reads k bytes from m on
unfoldable pub string_at : List ℕ → ℕ → ℕ → Option (List ℕ)
string_at u m k = if leb (m + k) (length u) then some (take k (drop m u)) else none

-- What the body of the loop comes to: one of its breaks, a read outside the array, or a pair with
-- the index behind it.
pub data PairRead : Type 0 where
  broken : PairRead
  overrun : PairRead
  pair_at : List ℕ → List ℕ → ℕ → PairRead

-- The strings of a pair whose lengths were read, from m on.
unfoldable pub read_strings : List ℕ → ℕ → ℕ → ℕ → ℕ → PairRead
unfolding string_at
read_strings u n m name_length value_length =
    if ltb (n - m) name_length then broken else elim (string_at u m name_length) [
      | none ↦ overrun
      | some key ↦
          let m' = m + name_length in
          if ltb (n - m') value_length then broken else elim (string_at u m' value_length) [
            | none ↦ overrun
            | some value ↦ pair_at key value (m' + value_length)
          ]
    ]

-- The body of the loop of ParsePairs.
unfoldable pub read_pair : List ℕ → ℕ → ℕ → PairRead
read_pair u n m = elim (read_length u n m) [
  | cut ↦ broken
  | outside ↦ overrun
  | length_at name_length m1 ↦ if leb n m1 then broken else elim (read_length u n m1) [
    | cut ↦ broken
    | outside ↦ overrun
    | length_at value_length m2 ↦ read_strings u n m2 name_length value_length
  ]
]

-- The loop of ParsePairs over m. The fuel counts its rounds.
unfoldable pub parse_loop : ℕ → List ℕ → ℕ → ℕ → ParamsMap → Outcome ParamsMap
parse_loop zero u n m pairs = halted out_of_fuel
parse_loop (suc fuel) u n m pairs = elim (ltb m n) [
  | false ↦ ok pairs
  | true ↦ elim (read_pair u n m) [
    | broken ↦ ok pairs
    | overrun ↦ halted out_of_bounds
    | pair_at key value m' ↦ parse_loop fuel u n m' (insert key value pairs)
  ]
]

-- ParsePairs on an array of this size, which is narrowed to the unsigned int n. Each round moves m, so
-- n rounds and the last test are enough.
unfoldable pub parse_pairs : List ℕ → ParamsMap → Outcome ParamsMap
parse_pairs u pairs = let n = length u % 2 ^ 32 in parse_loop (suc n) u n 0 pairs

-- The two blocks of WritePair that push a length: each byte is what push_back narrows to.
unfoldable pub write_length : List ℕ → ℕ → List ℕ
write_length buffer size =
    if ltb 0x7f size
    then buffer
      ++ ((0x80 + size / 2 ^ 24 % 0x80)
          ∷ (size / 2 ^ 16 % 256)
          ∷ (size / 2 ^ 8 % 256)
          ∷ (size % 256)
          ∷ [])
    else buffer ++ (size ∷ [])

-- WritePair
unfoldable pub write_pair : List ℕ → List ℕ → List ℕ → List ℕ
write_pair buffer key value =
    write_length (write_length buffer (length key)) (length value) ++ key ++ value
