-- ===== src/ConnectionData/Assembly.antt =====
-- Fastcgi/ConnectionData.h: what a request is given from its packets, between those of other requests.
use santiago_old.Prelude.{
  ℕ, ◌≡◌, ◌∙◌, sym, inl, inr, refl, List, [], ◌∷◌, ◌++◌, append-nil, Bool-cases, ◌==◌, All,
}
use santiago_old.OrderedMap.{nat_key}
use santiago_old.ConnectionData.{ConnectionData, Entry}
use santiago_old.ConnectionData.Changes.{
  Op, begins, aborts, stdin_chunk, params_chunk, cleans_up, perform,
}
use santiago_old.ConnectionData.Addresses.{Holds, IsAddressed, run}
use santiago_old.ConnectionData.Chunks.{
  Feeds, stdin_of, params_of, Fed, params_in, input_in, fed-nothing, fed-fed, Feeds-step,
}

params_of-∷ :
    (i : ℕ) (op : Op) (ops : List Op) → params_of i (op ∷ ops) ≡ params_in i op ++ params_of i ops
unfolding params_of
params_of-∷ i (begins j) ops = refl
params_of-∷ i (aborts j) ops = refl
params_of-∷ i (cleans_up j) ops = refl
params_of-∷ i (stdin_chunk j b) ops = refl
params_of-∷ i (params_chunk j b) ops = elim (Bool-cases (j == i)) [
  | inl eq ↦ rw (eq, append-nil b) refl
  | inr ne ↦ rw ne refl
]

stdin_of-∷ :
    (i : ℕ) (op : Op) (ops : List Op) → stdin_of i (op ∷ ops) ≡ input_in i op ++ stdin_of i ops
unfolding stdin_of
stdin_of-∷ i (begins j) ops = refl
stdin_of-∷ i (aborts j) ops = refl
stdin_of-∷ i (cleans_up j) ops = refl
stdin_of-∷ i (params_chunk j b) ops = refl
stdin_of-∷ i (stdin_chunk j b) ops = elim (Bool-cases (j == i)) [
  | inl eq ↦ rw (eq, append-nil b) refl
  | inr ne ↦ rw ne refl
]

-- A run of operations while both streams are open.
pub run-Fed :
    (ops : List Op) (d : ConnectionData) (i : ℕ) (e : Entry)
    → IsAddressed d
    → Holds d i e
    → e.request_state ≡ 0
    → All (Feeds i) ops
    → Fed d (run ops d) i e (params_of i ops) (stdin_of i ops)
unfolding run
run-Fed [] d i e v here fresh all =
    unfold params_of stdin_of in
    record { held = here; addressed = v; object = sym (fed-nothing (d.objects e.request_data)) }
run-Fed (op ∷ ops) d i e v here fresh (feeds, all) =
    let first = Feeds-step op d i e v here fresh feeds in
    let rest = run-Fed ops (perform op d).1 i e first.addressed first.held fresh all in
    record {
      held = rest.held;
      addressed = rest.addressed;
      object =
          rest.object
          ∙ rw (first.object, params_of-∷ i op ops, stdin_of-∷ i op ops)
              (fed-fed (d.objects e.request_data) (params_in i op) (params_of i ops) (input_in i op)
                (stdin_of i ops));
    }
