-- ===== src/Base/Lists.antt =====
-- Lists measured by native numbers, Python's `any` and `all`, and membership.
use Prim.Native.Nat.{ℕ, suc, ◌+◌}
use mathlib.Core.Path.{◌≡◌, refl, ap, sym, subst}
use mathlib.Core.Logic.{◌↔◌, ◌⊎◌, inl, inr}
use mathlib.Core.Bool.{Bool, true, false, not, ◌&&◌, ◌||◌}
use mathlib.Core.Option.{Option, none, some}
use mathlib.Core.List.{List, [], ◌∷◌, ◌++◌, map}
use native.Mathlib.Omega.{arith}
use hack_ef3da0e3_aib2bsaass.Base.Tests.{if◌then◌else◌}

module _ {ℓ} {A : Type ℓ} where
  abbrev pub length : List A → ℕ
  length [] = 0
  length (x ∷ xs) = suc (length xs)

  pub length-append : (xs ys : List A) → length (xs ++ ys) ≡ length xs + length ys
  length-append [] ys = omega arith
  length-append (x ∷ xs) ys = omega (arith, length-append xs ys)

  abbrev pub any : (A → Bool) → List A → Bool
  any p [] = false
  any p (x ∷ xs) = p x || any p xs

  abbrev pub all : (A → Bool) → List A → Bool
  all p [] = true
  all p (x ∷ xs) = p x && all p xs

  -- `next((x for x in xs if p(x)), None)`
  abbrev pub find : (A → Bool) → List A → Option A
  find p [] = none
  find p (x ∷ xs) = if p x then some x else find p xs

  abbrev pub filter : (A → Bool) → List A → List A
  filter p [] = []
  filter p (x ∷ xs) = if p x then x ∷ filter p xs else filter p xs

-- Membership with its witness kept.
abbrev pub IsIn : {A : Type 0} → A → List A → Type 0
IsIn a [] = ⊥
IsIn a (x ∷ xs) = (a ≡ x) ⊎ IsIn a xs

-- No element stands twice.
abbrev pub Distinct : {A : Type 0} → List A → Type 0
Distinct [] = Unit
Distinct (x ∷ xs) = (¬ IsIn x xs) × Distinct xs

module _ {ℓ κ} {A : Type ℓ} (P : A → Type κ) where
  abbrev pub All : List A → Type κ
  All [] = Unit
  All (x ∷ xs) = P x × All xs

-- A Boolean test and the predicate that it decides.
abbrev pub Decides {ℓ} : Bool → Type ℓ → Type ℓ
Decides b P = (b ≡ true) ↔ P

module _ {ℓ} {A : Type ℓ} (p : A → Bool) (P : A → Type 0) (d : (a : A) → Decides (p a) (P a)) where
  pub all-Decides : (xs : List A) → Decides (all p xs) (All P xs)
  all-Decides [] = (λ h. tt, λ h. refl)
  all-Decides (x ∷ xs) = ground (arith, (d x).0, (d x).1, (all-Decides xs).0, (all-Decides xs).1)

  -- No element fails the test.
  pub any-not-Decides : (xs : List A) → (any (λ a. not (p a)) xs ≡ false) ↔ All P xs
  any-not-Decides [] = (λ h. tt, λ h. refl)
  any-not-Decides (x ∷ xs) =
      ground (arith, (d x).0, (d x).1, (any-not-Decides xs).0, (any-not-Decides xs).1)

pub All-IsIn {κ} : {A : Type 0} (P : A → Type κ) (a : A) (xs : List A) → All P xs → IsIn a xs → P a
All-IsIn P a [] h m = absurd m
All-IsIn P a (x ∷ xs) h (inl e) = subst P (sym e) h.0
All-IsIn P a (x ∷ xs) h (inr m) = All-IsIn P a xs h.1 m

pub All-intro {κ} :
    {A : Type 0} (P : A → Type κ) (xs : List A) → ((a : A) → IsIn a xs → P a) → All P xs
All-intro P [] h = tt
All-intro P (x ∷ xs) h = (h x (inl refl), All-intro P xs (λ a m. h a (inr m)))

pub IsIn-map : {A B : Type 0} (f : A → B) (a : A) (xs : List A) → IsIn a xs → IsIn (f a) (map f xs)
IsIn-map f a [] m = absurd m
IsIn-map f a (x ∷ xs) (inl e) = inl (ap f e)
IsIn-map f a (x ∷ xs) (inr m) = inr (IsIn-map f a xs m)

-- A change of the elements that keeps what `g` reads of them.
pub map-map_keeps {ℓ κ} :
    {A : Type ℓ} {B : Type κ} (f : A → A) (g : A → B)
    → ((a : A) → g (f a) ≡ g a)
    → (xs : List A) → map g (map f xs) ≡ map g xs
map-map_keeps f g h [] = refl
map-map_keeps f g h (x ∷ xs) = cc (h x, map-map_keeps f g h xs)

pub All-map {ℓ κ ι} :
    {A : Type ℓ} {B : Type κ} (P : A → Type ι) (Q : B → Type ι) (f : A → B)
    → ((a : A) → P a → Q (f a))
    → (xs : List A) → All P xs
    → All Q (map f xs)
All-map P Q f h [] k = tt
All-map P Q f h (x ∷ xs) k = (h x k.0, All-map P Q f h xs k.1)
