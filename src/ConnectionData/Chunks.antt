-- ===== src/ConnectionData/Chunks.antt =====
-- Fastcgi/ConnectionData.h: what one operation adds to the object of a request.
use santiago_old.Prelude.{
  ℕ, ◌<◌, ◌≡◌, ◌≢◌, ◌⊎◌, ◌∙◌, sym, inl, inr, refl, List, [], ◌∷◌, ◌++◌, append-nil, append_assoc,
  true, Bool-cases, arith, ◌==◌, ==_iff, if◌then◌else◌, length,
}
use santiago_old.OrderedMap.{nat_key}
use santiago_old.RequestData.{RequestData}
use santiago_old.ConnectionData.{
  ConnectionData, Entry, has_flag, update, handle_stdin, handle_params, set_object,
}
use santiago_old.ConnectionData.Changes.{
  Op, begins, aborts, stdin_chunk, params_chunk, cleans_up, perform, perform-Change,
}
use santiago_old.ConnectionData.Addresses.{Holds, IsAddressed, Change-IsAddressed}
use santiago_old.ConnectionData.Untouched.{id_of, perform-Untouched}

-- A chunk with content.
abbrev pub HasContent : Op → Type 0
HasContent (stdin_chunk i b) = 0 < length b
HasContent (params_chunk i b) = 0 < length b
HasContent _ = ⊥

-- An operation while the streams of a request are open: one on another request, or a chunk of it.
abbrev pub Feeds : ℕ → Op → Type 0
Feeds i op = (id_of op ≢ i) ⊎ HasContent op

-- The chunks of a request, joined.
unfoldable pub stdin_of : ℕ → List Op → List ℕ
stdin_of i [] = []
stdin_of i (stdin_chunk j b ∷ ops) = let rest = stdin_of i ops in if j == i then b ++ rest else rest
stdin_of i (_ ∷ ops) = stdin_of i ops

unfoldable pub params_of : ℕ → List Op → List ℕ
params_of i [] = []
params_of i (params_chunk j b ∷ ops) =
    let rest = params_of i ops in if j == i then b ++ rest else rest
params_of i (_ ∷ ops) = params_of i ops

abbrev pub fed : RequestData → List ℕ → List ℕ → RequestData
fed r params input = record r {
  params_buffer = r.params_buffer ++ params;
  in_buffer = r.in_buffer ++ input;
}

-- What operations added to the object of a request.
pub record Fed (d d' : ConnectionData) (i : ℕ) (e : Entry) (params input : List ℕ) : Type 0 where
  pub held : Holds d' i e
  pub addressed : IsAddressed d'
  pub object : d'.objects e.request_data ≡ fed (d.objects e.request_data) params input

-- The chunks of one operation.
abbrev pub params_in : ℕ → Op → List ℕ
params_in i op = params_of i (op ∷ [])

abbrev pub input_in : ℕ → Op → List ℕ
input_in i op = stdin_of i (op ∷ [])

own_stdin :
    (i : ℕ) (b : List ℕ) (d : ConnectionData) (e : Entry)
    → Holds d i e
    → e.request_state ≡ 0
    → 0 < length b
    → (handle_stdin i b d).1 ≡ record d {
      objects = update d.objects e.request_data (record (d.objects e.request_data) {
        in_buffer = (d.objects e.request_data).in_buffer ++ b;
      });
    }
unfolding handle_stdin set_object has_flag
own_stdin i b d e held fresh filled = elim (Bool-cases (length b == 0)) [
  | inl empty ↦ absurd (ground (arith, empty, filled))
  | inr chunk ↦ rw (held, fresh, chunk, handle_stdin) refl
]

own_params :
    (i : ℕ) (b : List ℕ) (d : ConnectionData) (e : Entry)
    → Holds d i e
    → e.request_state ≡ 0
    → 0 < length b
    → (handle_params i b d).1 ≡ record d {
      objects = update d.objects e.request_data (record (d.objects e.request_data) {
        params_buffer = (d.objects e.request_data).params_buffer ++ b;
      });
    }
unfolding handle_params set_object has_flag
own_params i b d e held fresh filled = elim (Bool-cases (length b == 0)) [
  | inl empty ↦ absurd (ground (arith, empty, filled))
  | inr chunk ↦ rw (held, fresh, chunk, handle_params) refl
]

pub ==-self : (n : ℕ) → (n == n) ≡ true
==-self n = ground arith

other_chunks : (i : ℕ) (op : Op) → id_of op ≢ i → (params_in i op ≡ []) × (input_in i op ≡ [])
unfolding params_of stdin_of
other_chunks i (begins j) h = (refl, refl)
other_chunks i (aborts j) h = (refl, refl)
other_chunks i (stdin_chunk j b) h = (refl, ground (arith, h))
other_chunks i (params_chunk j b) h = (ground (arith, h), refl)
other_chunks i (cleans_up j) h = (refl, refl)

pub fed-nothing : (r : RequestData) → fed r [] [] ≡ r
fed-nothing r = rw (append-nil r.params_buffer, append-nil r.in_buffer)

pub fed-fed : (r : RequestData) (p q x y : List ℕ) → fed (fed r p x) q y ≡ fed r (p ++ q) (x ++ y)
fed-fed r p q x y = rw (append_assoc r.params_buffer p q, append_assoc r.in_buffer x y)

module _ (d : ConnectionData) (i : ℕ) (e : Entry) (v : IsAddressed d) (here : Holds d i e) where
  other_step :
      (op : Op) → id_of op ≢ i → Fed d (perform op d).1 i e (params_in i op) (input_in i op)
  other_step op h =
      let (no_params, no_input) = other_chunks i op h in
      let same = perform-Untouched d i (id_of op) e v here h op refl in
      record {
        held = same.held;
        addressed = Change-IsAddressed (perform-Change op d) v;
        object =
            same.object ∙ rw (no_params, no_input) (sym (fed-nothing (d.objects e.request_data)));
      }

  stdin_step :
      (b : List ℕ)
      → e.request_state ≡ 0
      → 0 < length b
      → Fed d
          (perform (stdin_chunk i b) d).1
          i
          e
          (params_in i (stdin_chunk i b))
          (input_in i (stdin_chunk i b))
  unfolding perform params_of stdin_of
  stdin_step b fresh filled =
      let after = own_stdin i b d e here fresh filled in
      record {
        held = rw after here;
        addressed = Change-IsAddressed (perform-Change (stdin_chunk i b) d) v;
        object =
            rw
              (
                after,
                ==-self e.request_data,
                ==-self i,
                append-nil b,
                append-nil (d.objects e.request_data).params_buffer,
              )
              refl;
      }

  params_step :
      (b : List ℕ)
      → e.request_state ≡ 0
      → 0 < length b
      → Fed d
          (perform (params_chunk i b) d).1
          i
          e
          (params_in i (params_chunk i b))
          (input_in i (params_chunk i b))
  unfolding perform params_of stdin_of
  params_step b fresh filled =
      let after = own_params i b d e here fresh filled in
      record {
        held = rw after here;
        addressed = Change-IsAddressed (perform-Change (params_chunk i b) d) v;
        object =
            rw
              (
                after,
                ==-self e.request_data,
                ==-self i,
                append-nil b,
                append-nil (d.objects e.request_data).in_buffer,
              )
              refl;
      }

pub Feeds-step :
    (op : Op) (d : ConnectionData) (i : ℕ) (e : Entry)
    → IsAddressed d
    → Holds d i e
    → e.request_state ≡ 0
    → Feeds i op
    → Fed d (perform op d).1 i e (params_in i op) (input_in i op)
Feeds-step op d i e v here fresh (inl other) = other_step d i e v here op other
Feeds-step (stdin_chunk j b) d i e v here fresh (inr filled) = elim (Bool-cases (j == i)) [
  | inr ne ↦ other_step d i e v here (stdin_chunk j b) (ground (arith, ne))
  | inl eq ↦ rw ((==_iff j i).0 eq) (stdin_step d i e v here b fresh filled)
]
Feeds-step (params_chunk j b) d i e v here fresh (inr filled) = elim (Bool-cases (j == i)) [
  | inr ne ↦ other_step d i e v here (params_chunk j b) (ground (arith, ne))
  | inl eq ↦ rw ((==_iff j i).0 eq) (params_step d i e v here b fresh filled)
]
Feeds-step (begins j) d i e v here fresh (inr filled) = absurd filled
Feeds-step (aborts j) d i e v here fresh (inr filled) = absurd filled
Feeds-step (cleans_up j) d i e v here fresh (inr filled) = absurd filled
