-- ===== src/RecordSocket/Values.antt =====
-- Fastcgi/RecordSocket.h: the answer to FCGI_GET_VALUES.
use santiago_old.Prelude.{
  ℕ, ◌+◌, ◌*◌, ◌≤◌, ◌<◌, ◌^◌, length, length-append, if◌then◌else◌, ◌≡◌, ◌∙◌, refl, ap, inl, inr,
  Bool, true, false, Bool-cases, Option, none, some, sym, Option-cases, List, [], ◌∷◌, ◌++◌, arith,
  All,
}
use santiago_old.Exec.{ok}
use santiago_old.Text.{bytes, text_eq, text_eq_iff, text_key}
use santiago_old.Pairs.{ParamsMap, parse_pairs, write_pair}
use santiago_old.Pairs.RoundTrip.{Fits, write_pairs, insert_all, parse_pairs-write_pairs}
use santiago_old.Pairs.Encode.{length_bytes, pair_bytes, write_pair-pair_bytes}
use santiago_old.OrderedMap.{find, insert, find-insert}
use santiago_old.RecordSocket.{value_of, write_values}

-- The pairs that answer a query: the known names, in the order of the query.
unfoldable pub answers : ParamsMap → List (List ℕ × List ℕ)
answers [] = []
answers ((name, _) ∷ query) =
    let rest = answers query in elim (value_of name) [ none ↦ rest | some v ↦ (name, v) ∷ rest ]

write_values-write_pairs :
    (output : List ℕ) (query : ParamsMap)
    → write_values output query ≡ write_pairs output (answers query)
unfolding write_values write_pairs answers
write_values-write_pairs output [] = refl
write_values-write_pairs output ((name, x) ∷ query) = elim (Option-cases (value_of name)) [
  | inl e ↦ rw (e, answers) (write_values-write_pairs output query)
  | inr (v, e) ↦
      rw (e, answers, write_pairs) (write_values-write_pairs (write_pair output name v) query)
]

-- The names that the FastCGI specification lets a web server ask for, with the values of this
-- application.
abbrev pub table : ParamsMap
table =
    (bytes "FCGI_MAX_CONNS", bytes "100")
    ∷ (bytes "FCGI_MAX_REQS", bytes "1000")
    ∷ (bytes "FCGI_MPXS_CONNS", bytes "1")
    ∷ []

value_of-table : (name : List ℕ) → value_of name ≡ find name table
unfolding find
value_of-table name = ground (
  arith,
  text_eq_iff name (bytes "FCGI_MAX_CONNS"),
  text_eq_iff (bytes "FCGI_MAX_CONNS") name,
  text_eq_iff name (bytes "FCGI_MAX_REQS"),
  text_eq_iff (bytes "FCGI_MAX_REQS") name,
  text_eq_iff name (bytes "FCGI_MPXS_CONNS"),
  text_eq_iff (bytes "FCGI_MPXS_CONNS") name,
)

-- A name and a value that take one byte each for their lengths.
abbrev IsSmall : List ℕ × List ℕ → Type 0
IsSmall p = (length p.0 ≤ 15) × (length p.1 ≤ 4)

known-IsSmall :
    (name known answer v : List ℕ)
    → text_eq name known ≡ true
    → IsSmall (known, answer)
    → some answer ≡ some v
    → IsSmall (name, v)
known-IsSmall name known answer v same small e =
    let same_name : name ≡ known = (text_eq_iff name known).0 same in
    let same_answer : answer ≡ v = cc in rw (same_name, ← same_answer) small

value_of-IsSmall : (name v : List ℕ) → value_of name ≡ some v → IsSmall (name, v)
value_of-IsSmall name v e = elim (Bool-cases (text_eq name (bytes "FCGI_MAX_CONNS"))) [
  | inl a ↦ known-IsSmall name _ _ v a (omega arith, omega arith) (rw a at e)
  | inr a ↦ elim (Bool-cases (text_eq name (bytes "FCGI_MAX_REQS"))) [
    | inl b ↦ known-IsSmall name _ _ v b (omega arith, omega arith) (rw (a, b) at e)
    | inr b ↦ elim (Bool-cases (text_eq name (bytes "FCGI_MPXS_CONNS"))) [
      | inl c ↦ known-IsSmall name _ _ v c (omega arith, omega arith) (rw (a, b, c) at e)
      | inr c ↦ absurd (ground (arith, a, b, c, e))
    ]
  ]
]

answers-Fits : (query : ParamsMap) → All Fits (answers query)
unfolding answers
answers-Fits [] = tt
answers-Fits ((name, x) ∷ query) = elim (Option-cases (value_of name)) [
  | inl e ↦ rw (e, All, answers) (answers-Fits query)
  | inr (v, e) ↦
      let small = value_of-IsSmall name v e in
      rw (e, All, answers) ((omega (arith, small.0), omega (arith, small.1)), answers-Fits query)
]

length_bytes-le : (size : ℕ) → length (length_bytes size) ≤ 4
unfolding length_bytes
length_bytes-le size = ground arith

length-write_pair :
    (output name v : List ℕ)
    → IsSmall (name, v)
    → length (write_pair output name v) ≤ length output + 32
length-write_pair output name v small = rw (write_pair-pair_bytes output name v) (
    unfold pair_bytes in
    omega (
      arith,
      small.0,
      small.1,
      length_bytes-le (length name),
      length_bytes-le (length v),
      length-append output (length_bytes (length name) ++ (length_bytes (length v) ++ (name ++ v))),
      length-append (length_bytes (length name)) (length_bytes (length v) ++ (name ++ v)),
      length-append (length_bytes (length v)) (name ++ v),
      length-append name v,
    ))

pub length-write_values :
    (output : List ℕ) (query : ParamsMap)
    → length (write_values output query) ≤ length output + 32 * length query
unfolding write_values
length-write_values output [] = omega arith
length-write_values output ((name, x) ∷ query) = elim (Option-cases (value_of name)) [
  | inl e ↦ rw (e, write_values) (omega (arith, length-write_values output query))
  | inr (v, e) ↦
      rw (e, write_values)
        (omega (
          arith,
          length-write_values (write_pair output name v) query,
          length-write_pair output name v (value_of-IsSmall name v e),
        ))
]

-- What the map of the peer holds under a name, after what it held before.
abbrev told : Option (List ℕ) → Option (List ℕ) → Option (List ℕ) → Option (List ℕ)
told (some w) asked known = some w
told none none known = none
told none (some _) known = known

told_unknown : (before asked : Option (List ℕ)) → told before asked none ≡ before
told_unknown (some w) asked = refl
told_unknown none none = refl
told_unknown none (some x) = refl

told_nothing : (before known : Option (List ℕ)) → told before none known ≡ before
told_nothing (some w) known = refl
told_nothing none known = refl

told_step :
    (b : Bool) (before asked known : Option (List ℕ)) (x v : List ℕ)
    → (b ≡ true → known ≡ some v)
    → told (elim before [ some w ↦ some w | none ↦ if b then some v else none ]) asked known
      ≡ told before (if b then some x else asked) known
told_step true (some w) asked known x v h = refl
told_step true none asked known x v h = sym (h refl)
told_step false (some w) asked known x v h = refl
told_step false none asked known x v h = refl

pub find-answers :
    (n : List ℕ) (query m : ParamsMap)
    → find n (insert_all (answers query) m) ≡ told (find n m) (find n query) (value_of n)
unfolding answers insert_all find
find-answers n [] m = sym (told_nothing (find n m) (value_of n))
find-answers n ((name, x) ∷ query) m = elim (Option-cases (value_of name)) [
  | inl e ↦
      rw (e, answers)
        (find-answers n query m ∙ elim (Bool-cases (text_eq name n)) [
          | inl same ↦
              let same_name : name ≡ n = (text_eq_iff name n).0 same in
              let unknown : value_of n ≡ none = ap value_of (sym same_name) ∙ e in
              rw (same, unknown) (told_unknown _ _ ∙ sym (told_unknown _ _))
          | inr other ↦ rw other refl
        ])
  | inr (v, e) ↦
      rw (e, answers)
        (find-answers n query (insert name v m)
          ∙ ap (λ b. told b (find n query) (value_of n)) (find-insert name n v m)
          ∙ told_step (text_eq name n) (find n m) (find n query) (value_of n) x v
              (λ same. ap value_of (sym ((text_eq_iff name n).0 same)) ∙ e))
]

-- A peer that parses the answer to a query holds each name of the query that is in the table with
-- its value, and nothing else.
pub record IsTold (query : ParamsMap) (body : List ℕ) : Type 0 where
  pub reply : ParamsMap
  pub parses : parse_pairs body [] ≡ ok reply
  pub holds :
      (name : List ℕ)
      → find name reply ≡ elim (find name query) [ none ↦ none | some _ ↦ find name table ]

told_first :
    (asked : Option (List ℕ)) (name : List ℕ)
    → told (find {V = List ℕ} name []) asked (value_of name)
      ≡ elim asked [ none ↦ none | some _ ↦ find name table ]
unfolding find
told_first none name = refl
told_first (some x) name = value_of-table name

pub write_values-IsTold :
    (query : ParamsMap)
    → length (write_values [] query) < 2 ^ 32
    → IsTold query (write_values [] query)
write_values-IsTold query short = record {
  reply = insert_all (answers query) [];
  parses =
      ap (λ u. parse_pairs u []) (write_values-write_pairs [] query)
      ∙ parse_pairs-write_pairs (answers query) [] (answers-Fits query)
          (rw (write_values-write_pairs [] query) at short);
  holds = λ name. find-answers name query [] ∙ told_first (find name query) name;
}
