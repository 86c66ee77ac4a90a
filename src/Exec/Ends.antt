-- ===== src/Exec/Ends.antt =====
-- Actions whose loops end, whatever their outcome.
use santiago_old.Prelude.{◌≢◌, refl, Bool, true, false, if◌then◌else◌}
use santiago_old.Exec.{
  Exec, Outcome, ok, thrown, halted, Exception, Halt, assertion_failed, out_of_bounds,
  null_dereference, waits_forever, out_of_fuel, continue, ◌>>=◌,
}

abbrev pub Ends : {A : Type 0} → Outcome A → Type 0
Ends r = r ≢ halted out_of_fuel

pub record Terminates {S A : Type 0} (m : Exec S A) : Type 0 where
  pub at : (s : S) → Ends (m s).0

pub ok-Ends : {A : Type 0} (a : A) → Ends (ok a)
ok-Ends a e = cc

pub thrown-Ends : {A : Type 0} (x : Exception) → Ends {A = A} (thrown x)
thrown-Ends x e = cc

pub assertion_failed-Ends : {A : Type 0} → Ends {A = A} (halted assertion_failed)
assertion_failed-Ends e = cc

pub out_of_bounds-Ends : {A : Type 0} → Ends {A = A} (halted out_of_bounds)
out_of_bounds-Ends e = cc

-- A stop passes through, at another type.
halted-pass : {A B : Type 0} (h : Halt) → Ends {A = A} (halted h) → Ends {A = B} (halted h)
halted-pass assertion_failed v e = cc
halted-pass out_of_bounds v e = cc
halted-pass null_dereference v e = cc
halted-pass waits_forever v e = cc
halted-pass out_of_fuel v e = v refl

module _ {S A B : Type 0} where
  pub continue-Ends :
      (r : Outcome A) (k : A → Exec S B) (s : S)
      → Ends r
      → ((a : A) → Terminates (k a))
      → Ends (continue r k s).0
  continue-Ends (ok a) k s v h = (h a).at s
  continue-Ends (thrown x) k s v h = thrown-Ends x
  continue-Ends (halted x) k s v h = halted-pass x v

  pub bind-Terminates :
      (m : Exec S A) (k : A → Exec S B)
      → Terminates m
      → ((a : A) → Terminates (k a))
      → Terminates (m >>= k)
  bind-Terminates m k hm hk = record { at = λ s. continue-Ends (m s).0 k (m s).1 (hm.at s) hk }

pub if-Terminates :
    {S A : Type 0} (b : Bool) (m n : Exec S A)
    → Terminates m
    → Terminates n
    → Terminates (if b then m else n)
if-Terminates true m n hm hn = hm
if-Terminates false m n hm hn = hn

pub if-Ends :
    {S A : Type 0} (b : Bool) (x y : Outcome A × S)
    → Ends x.0
    → Ends y.0
    → Ends (if b then x else y).0
if-Ends true x y hx hy = hx
if-Ends false x y hx hy = hy
