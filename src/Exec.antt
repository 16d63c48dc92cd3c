-- ===== src/Exec.antt =====
-- Methods that change a state and return a value or an error. What was written before an error
-- stays written, so both outcomes carry the state.
use wlt_traffic.Error.{Stage, Error, wrapped, Result, ok, err}

abbrev pub Exec {ℓ} : Type ℓ → Type ℓ → Type ℓ
Exec S A = S → Result A × S

module _ {ℓ} {S A : Type ℓ} where
  abbrev pub pure : A → Exec S A
  pure a s = (ok a, s)

  abbrev pub raise : Error → Exec S A
  raise e s = (err e, s)

  abbrev pub lift : Result A → Exec S A
  lift r s = (r, s)

  abbrev pub gets : (S → A) → Exec S A
  gets f s = (ok (f s), s)

  abbrev pub in_stage : Stage → Result A × S → Result A × S
  in_stage st (ok a, s) = (ok a, s)
  in_stage st (err e, s) = (err (wrapped st e), s)

  -- `if err != nil { return fmt.Errorf("<stage>: %w", err) }`
  abbrev pub wrap : Stage → Exec S A → Exec S A
  wrap st m s = in_stage st (m s)

abbrev pub modify {ℓ} : {S : Type ℓ} → (S → S) → S → Result (Unit {ℓ}) × S
modify f s = (ok tt, f s)

module _ {ℓ} {S A B : Type ℓ} where
  abbrev pub proceed : Result A × S → (A → Exec S B) → Result B × S
  proceed (ok a, s) f = f a s
  proceed (err e, s) f = (err e, s)

  infixl 5 ◌>>=◌ ◌>>◌
  abbrev pub ◌>>=◌ : Exec S A → (A → Exec S B) → Exec S B
  ◌>>=◌ m f s = proceed (m s) f

  abbrev pub ◌>>◌ : Exec S A → Exec S B → Exec S B
  m >> k = m >>= λ _. k

-- `defer f()`: the state change happens on every way out
abbrev pub deferred {ℓ} : {S A : Type ℓ} → (S → S) → Exec S A → Exec S A
deferred f m s = let (r, s') = m s in (r, f s')
