-- ===== src/Base/Exec.antt =====
-- Methods that change a state and may raise. What was written before a raise stays written, so the
-- state comes back beside the error too.
pub mod Hoare
use mathlib.Core.Bool.{Bool, true, false}
use mathlib.Core.List.{List, [], ◌∷◌}
use hack_ef3da0e3_aib2bsaass.Base.{Result, ok, err, if◌then◌else◌}

abbrev pub Exec {ℓ} : Type ℓ → Type ℓ → Type ℓ → Type ℓ
Exec S E A = S → Result E A × S

module _ {ℓ} {S E A : Type ℓ} where
  unfoldable pub pure : A → Exec S E A
  pure a s = (ok a, s)

  unfoldable pub raise : E → Exec S E A
  raise e s = (err e, s)

  unfoldable pub gets : (S → A) → Exec S E A
  gets f s = (ok (f s), s)

module _ {ℓ} {S E : Type ℓ} where
  unfoldable pub modify : (S → S) → Exec S E (Unit {ℓ})
  modify f s = (ok tt, f s)

  -- `pass`
  unfoldable pub skip : Exec S E (Unit {ℓ})
  skip s = (ok tt, s)

module _ {ℓ} {S E A B : Type ℓ} where
  abbrev pub continue : Result E A → (A → Exec S E B) → Exec S E B
  continue (ok a) f s = f a s
  continue (err e) f s = (err e, s)

  infixl 10 ◌>>=◌ ◌>>◌
  unfoldable pub ◌>>=◌ : Exec S E A → (A → Exec S E B) → Exec S E B
  ◌>>=◌ m f s = let (r, s') = m s in continue r f s'

  abbrev pub ◌>>◌ : Exec S E A → Exec S E B → Exec S E B
  m >> n = m >>= λ _. n

abbrev pub finish {ℓ} : {E A : Type ℓ} → Result E A → Result E (Unit {ℓ}) → Result E A
finish r (ok _) = r
finish r (err e) = err e

module _ {ℓ} {S E A : Type ℓ} where
  abbrev pub handle : Result E A → (E → Exec S E A) → Exec S E A
  handle (ok a) h s = (ok a, s)
  handle (err e) h s = h e s

  -- `try: m  except: h`. A handler raises anew what it does not catch.
  unfoldable pub catch : Exec S E A → (E → Exec S E A) → Exec S E A
  catch m h s = let (r, s') = m s in handle r h s'

  -- `try: m  finally: f`. An error of `f` takes the place of the outcome.
  unfoldable pub finally : Exec S E A → Exec S E (Unit {ℓ}) → Exec S E A
  finally m f s = let (r, s') = m s in let (q, t) = f s' in (finish r q, t)

module _ {ℓ} {S E A : Type ℓ} where
  -- `for x in xs: body(x)`
  unfoldable pub for_each : List A → (A → Exec S E (Unit {ℓ})) → Exec S E (Unit {ℓ})
  for_each [] body = skip
  for_each (x ∷ xs) body = body x >> for_each xs body
