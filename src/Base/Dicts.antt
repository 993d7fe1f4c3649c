-- ===== src/Base/Dicts.antt =====
-- A Python dict comprehension `{key(x): x for x in xs}`: of equal keys the last one stays.
use mathlib.Core.Path.{◌≡◌, ap, sym, subst, ◌∙◌}
use mathlib.Core.Logic.{inl, inr}
use mathlib.Core.Option.{Option, none, some}
use mathlib.Core.List.{List, [], ◌∷◌, map}
use native.Mathlib.Omega.{arith}
use hack_ef3da0e3_aib2bsaass.Base.Tests.{Eq, if◌then◌else◌, Option-cases}
use hack_ef3da0e3_aib2bsaass.Base.Lists.{IsIn, Distinct, IsIn-map}

-- the dict's value at a key, over the later entries
abbrev or_earlier {ℓ} : {A : Type ℓ} → Option A → Option A → Option A
or_earlier none o = o
or_earlier (some x) o = some x

module _ {K A : Type 0} ⦃e : Eq K⦄ (key : A → K) where
  unfoldable pub last_by : K → List A → Option A
  last_by k [] = none
  last_by k (x ∷ xs) = or_earlier (last_by k xs) (if e.beq k (key x) then some x else none)

  pub last_by-IsIn : (k : K) (xs : List A) (a : A) → last_by k xs ≡ some a → IsIn a xs × (key a ≡ k)
  unfolding last_by
  last_by-IsIn k [] a h = cc
  last_by-IsIn k (x ∷ xs) a h = elim (Option-cases (last_by k xs)) [
    | inl missing ↦ ground (arith, (e.beq_iff k (key x)).0)
    | inr (b, found) ↦
        let same : b ≡ a = ground arith in
        let (m, q) = last_by-IsIn k xs b found in
        (inr (subst (λ z. IsIn z xs) same m), ap key (sym same) ∙ q)
  ]

  pub last_by-none : (k : K) (xs : List A) → last_by k xs ≡ none → ¬ IsIn k (map key xs)
  unfolding last_by
  last_by-none k [] h m = m
  last_by-none k (x ∷ xs) h (inl p) = ground (arith, (e.beq_iff k (key x)).1 p)
  last_by-none k (x ∷ xs) h (inr m) = last_by-none k xs (ground arith) m

  -- Where the keys are distinct, the dict holds every element under its key.
  pub last_by-Distinct :
      (xs : List A) (a : A) → Distinct (map key xs) → IsIn a xs → last_by (key a) xs ≡ some a
  unfolding last_by
  last_by-Distinct [] a d m = absurd m
  last_by-Distinct (x ∷ xs) a d (inl p) = elim (Option-cases (last_by (key a) xs)) [
    | inl missing ↦ rw (missing, (e.beq_iff (key a) (key x)).1 (ap key p)) (ap some (sym p))
    | inr (b, found) ↦
        let (m, q) = last_by-IsIn (key a) xs b found in
        absurd (d.0 (subst (λ z. IsIn z (map key xs)) (q ∙ ap key p) (IsIn-map key b xs m)))
  ]
  last_by-Distinct (x ∷ xs) a d (inr m) = rw (last_by-Distinct xs a d.1 m)
