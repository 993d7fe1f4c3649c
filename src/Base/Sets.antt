-- ===== src/Base/Sets.antt =====
-- Python's sets of hashable values, as they are used: membership, size, and equality of contents.
use Prim.Native.Nat.{◌≤◌}
use mathlib.Core.Path.{◌≡◌, refl, sym, subst, ◌∙◌}
use mathlib.Core.Logic.{inl, inr}
use mathlib.Core.Bool.{Bool, true, false, ◌&&◌, ◌||◌}
use mathlib.Core.List.{List, [], ◌∷◌}
use native.Mathlib.Omega.{arith}
use hack_ef3da0e3_aib2bsaass.Base.Tests.{Eq, nat_beq, if◌then◌else◌, Bool-cases}
use hack_ef3da0e3_aib2bsaass.Base.Lists.{
  length, all, IsIn, Distinct, Decides, all-Decides, All-IsIn, All-intro,
}

module _ {A : Type 0} ⦃e : Eq A⦄ where
  -- `a in xs`
  abbrev pub contains : A → List A → Bool
  contains a [] = false
  contains a (x ∷ xs) = e.beq a x || contains a xs

  -- `set(xs)`
  unfoldable pub set_of : List A → List A
  set_of [] = []
  set_of (x ∷ xs) = let s = set_of xs in if contains x s then s else x ∷ s

  -- `set(xs) <= set(ys)`, that is, the difference is empty
  abbrev pub subset : List A → List A → Bool
  subset xs ys = all (λ x. contains x ys) xs

  -- `set(xs) == set(ys)`
  abbrev pub same_set : List A → List A → Bool
  same_set xs ys = subset xs ys && subset ys xs

  -- `len(set(xs)) == len(xs)`
  abbrev pub unique : List A → Bool
  unique xs = nat_beq (length (set_of xs)) (length xs)

  pub contains-Decides : (a : A) (xs : List A) → Decides (contains a xs) (IsIn a xs)
  contains-Decides a [] = ground arith
  contains-Decides a (x ∷ xs) = ground (
    arith,
    (e.beq_iff a x).0,
    (e.beq_iff a x).1,
    (contains-Decides a xs).0,
    (contains-Decides a xs).1,
  )

  pub contains-set_of : (a : A) (xs : List A) → contains a (set_of xs) ≡ contains a xs
  unfolding set_of
  contains-set_of a [] = refl
  contains-set_of a (x ∷ xs) = elim (Bool-cases (contains x (set_of xs))) [
    | inl old ↦ rw old (elim (Bool-cases (e.beq a x)) [
      | inl same ↦
          rw (same, contains-set_of a xs)
            (subst (λ z. contains z xs ≡ true) (sym ((e.beq_iff a x).0 same))
              (sym (contains-set_of x xs) ∙ old))
      | inr other ↦ rw other (contains-set_of a xs)
    ])
    | inr new ↦ rw new (rw (contains-set_of a xs))
  ]

  pub length-set_of : (xs : List A) → length (set_of xs) ≤ length xs
  unfolding set_of
  length-set_of [] = omega arith
  length-set_of (x ∷ xs) = ground (arith, length-set_of xs)

  -- A list is as long as its set exactly when no element stands twice.
  pub unique-Decides : (xs : List A) → Decides (unique xs) (Distinct xs)
  unfolding set_of
  unique-Decides [] = ground arith
  unique-Decides (x ∷ xs) = ground (
    arith,
    length-set_of xs,
    contains-set_of x xs,
    (contains-Decides x xs).0,
    (contains-Decides x xs).1,
    (unique-Decides xs).0,
    (unique-Decides xs).1,
  )

  pub subset-Decides : (xs ys : List A) → Decides (subset xs ys) ((a : A) → IsIn a xs → IsIn a ys)
  subset-Decides xs ys =
      let d = all-Decides (λ x. contains x ys) (λ x. IsIn x ys) (λ x. contains-Decides x ys) xs in
      (
        λ h a m. All-IsIn (λ x. IsIn x ys) a xs (d.0 h) m,
        λ h. d.1 (All-intro (λ x. IsIn x ys) xs h),
      )
