-- ===== src/Exec.antt =====
-- Methods that change an object, may throw, and may stop the process. What was written before a
-- throw stays written, so the state comes back beside the outcome.
pub mod Ends
use santiago_old.Prelude.{Bool, true, false, ◌≡◌, ◌⊎◌, inl, inr, refl}

-- The std::runtime_error messages of the Fastcgi and Server modules.
pub data Exception : Type 0 where
  unsupported_version : Exception
  invalid_begin_request_body : Exception
  fcgi_data : Exception
  request_id_exists : Exception
  abort_request_id_missing : Exception
  stdin_request_id_missing : Exception
  stdin_closed : Exception
  params_request_id_missing : Exception
  params_closed : Exception
  cleanup_request_id_missing : Exception
  already_replied : Exception
  not_active : Exception
  handler_not_initialized : Exception
  server_started : Exception
  server_stopped : Exception

-- What no `catch` sees: a failed BOOST_ASSERT, a read outside an array or through a null pointer, a
-- wait for a thread that does not end, and fuel that ran out.
pub data Halt : Type 0 where
  assertion_failed out_of_bounds null_dereference waits_forever out_of_fuel : Halt

pub data Outcome {ℓ} (A : Type ℓ) : Type ℓ where
  ok : A → Outcome A
  thrown : Exception → Outcome A
  halted : Halt → Outcome A

abbrev pub Exec {ℓ} : Type ℓ → Type ℓ → Type ℓ
Exec S A = S → Outcome A × S

module _ {ℓ} {S A : Type ℓ} where
  abbrev pub pure : A → Exec S A
  pure a s = (ok a, s)

  abbrev pub throw : Exception → Exec S A
  throw e s = (thrown e, s)

  abbrev pub halt : Halt → Exec S A
  halt h s = (halted h, s)

module _ {ℓ} {S A B : Type ℓ} where
  abbrev pub continue : Outcome A → (A → Exec S B) → Exec S B
  continue (ok a) f s = f a s
  continue (thrown e) f s = (thrown e, s)
  continue (halted h) f s = (halted h, s)

  infixl 10 ◌>>=◌ ◌>>◌
  abbrev pub ◌>>=◌ : Exec S A → (A → Exec S B) → Exec S B
  ◌>>=◌ m f s = let (r, s') = m s in continue r f s'

  abbrev pub ◌>>◌ : Exec S A → Exec S B → Exec S B
  m >> n = m >>= λ _. n

module _ {S : Type 0} where
  abbrev pub modify : (S → S) → Exec S (Unit {0})
  modify f s = (ok tt, f s)

  -- BOOST_ASSERT
  abbrev pub assert : (S → Bool) → Exec S (Unit {0})
  assert test s = elim (test s) [ true ↦ (ok tt, s) | false ↦ (halted assertion_failed, s) ]

-- An action on a part of the state, run on the whole.
abbrev pub zoom : {S P A : Type 0} → (S → P) → (S → P → S) → Exec P A → Exec S A
zoom get set m s = let (r, p) = m (get s) in (r, set s p)

-- To split on the outcome of an action and keep the equation.
pub Outcome-cases {ℓ} :
    {A : Type ℓ} (r : Outcome A)
    → ((a : A) × (r ≡ ok a)) ⊎ (((e : Exception) × (r ≡ thrown e)) ⊎ ((h : Halt) × (r ≡ halted h)))
Outcome-cases (ok a) = inl (a, refl)
Outcome-cases (thrown e) = inr (inl (e, refl))
Outcome-cases (halted h) = inr (inr (h, refl))
