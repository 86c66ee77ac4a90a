-- ===== src/ConnectionData/Apart.antt =====
-- Fastcgi/ConnectionData.h: a request while operations run on the others of its connection.
use santiago_old.Prelude.{ℕ, ◌≢◌, ◌∙◌, refl, List, [], ◌∷◌, All}
use santiago_old.RequestData.{RequestData}
use santiago_old.ConnectionData.{ConnectionData, Entry, new_connection_data}
use santiago_old.ConnectionData.Changes.{Op, perform, perform-Change}
use santiago_old.ConnectionData.Addresses.{
  Holds, IsAddressed, Change-IsAddressed, run, run-IsAddressed, new-IsAddressed,
}
use santiago_old.ConnectionData.Untouched.{id_of, Untouched, perform-Untouched}

run-Untouched :
    (ops : List Op) (d : ConnectionData) (i : ℕ) (e : Entry)
    → IsAddressed d
    → Holds d i e
    → All (λ op. id_of op ≢ i) ops
    → Untouched d (run ops d) i e
unfolding run
run-Untouched [] d i e v held others = record { held = held; object = refl }
run-Untouched (op ∷ ops) d i e v held (other, others) =
    let one = perform-Untouched d i (id_of op) e v held other op refl in
    let rest =
      run-Untouched ops (perform op d).1 i e (Change-IsAddressed (perform-Change op d) v) one.held
        others in
    record { held = rest.held; object = rest.object ∙ one.object }

-- Requests on one connection do not interfere: whatever operations have reached the data of a new
-- connection before, operations on other ids, on whatever branch they end, leave the entry of a
-- request and its object as they are.
pub requests_apart :
    (before ops : List Op) (memory : ℕ → RequestData) (i : ℕ) (e : Entry)
    → Holds (run before (new_connection_data memory)) i e
    → All (λ op. id_of op ≢ i) ops
    → Untouched
        (run before (new_connection_data memory))
        (run ops (run before (new_connection_data memory)))
        i
        e
requests_apart before ops memory i e held others =
    run-Untouched ops (run before (new_connection_data memory)) i e
      (run-IsAddressed before (new_connection_data memory) (new-IsAddressed memory)) held others
