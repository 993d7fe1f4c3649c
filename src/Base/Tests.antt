-- ===== src/Base/Tests.antt =====
-- Boolean tests, the conditional, decidable equality as an interface, and case splits that keep
-- the equation.
use Prim.Native.Nat.{ℕ, compare, Ordering}
use mathlib.Core.Path.{◌≡◌, refl, subst}
use mathlib.Core.Logic.{◌↔◌, ◌⊎◌, inl, inr}
use mathlib.Core.Bool.{Bool, true, false, ◌&&◌}
use mathlib.Core.Option.{Option, none, some}
use mathlib.Core.List.{List, [], ◌∷◌}
use native.Mathlib.Omega.{arith}

abbrev pub ltb : ℕ → ℕ → Bool
ltb a b = elim (compare a b) [ Ordering.lt ↦ true | _ ↦ false ]

abbrev pub leb : ℕ → ℕ → Bool
leb a b = elim (compare a b) [ Ordering.gt ↦ false | _ ↦ true ]

abbrev pub nat_beq : ℕ → ℕ → Bool
nat_beq a b = elim (compare a b) [ Ordering.eq ↦ true | _ ↦ false ]

infix 1 if◌then◌else◌
abbrev pub if◌then◌else◌ {ℓ} : {A : Type ℓ} → Bool → A → A → A
if true then x else y = x
if false then x else y = y

pub nat_beq_iff : (a b : ℕ) → (nat_beq a b ≡ true) ↔ (a ≡ b)
nat_beq_iff a b = ground arith

-- Python's `==` at one type.
pub record Eq {ℓ} (T : Type ℓ) : Type ℓ where
  pub beq : (x y : T) → Bool
  pub beq_iff : (x y : T) → (beq x y ≡ true) ↔ (x ≡ y)

instance abbrev pub nat_eq : Eq ℕ
nat_eq = record { beq_iff = nat_beq_iff; beq = nat_beq }

module _ {ℓ} {T : Type ℓ} ⦃eq : Eq T⦄ where
  infix 50 ◌==◌
  abbrev pub ◌==◌ : (x y : T) → Bool
  x == y = eq.beq x y

module _ {ℓ} {A : Type ℓ} ⦃e : Eq A⦄ where
  abbrev pub list_beq : List A → List A → Bool
  list_beq [] [] = true
  list_beq (x ∷ xs) (y ∷ ys) = e.beq x y && list_beq xs ys
  list_beq _ _ = false

  pub list_beq→eq : (xs ys : List A) → list_beq xs ys ≡ true → xs ≡ ys
  list_beq→eq [] [] h = refl
  list_beq→eq (x ∷ xs) (y ∷ ys) h = ground (arith, (e.beq_iff x y).0, list_beq→eq xs ys)
  list_beq→eq [] (y ∷ ys) h = ground arith
  list_beq→eq (x ∷ xs) [] h = ground arith

  pub list_beq_refl : (xs : List A) → list_beq xs xs ≡ true
  list_beq_refl [] = refl
  list_beq_refl (x ∷ xs) = ground (arith, (e.beq_iff x x).1 refl, list_beq_refl xs)

  pub list_beq_iff : (xs ys : List A) → (list_beq xs ys ≡ true) ↔ (xs ≡ ys)
  list_beq_iff xs ys =
      (list_beq→eq xs ys, λ p. subst (λ z. list_beq xs z ≡ true) p (list_beq_refl xs))

instance abbrev pub list_eq {ℓ} : {A : Type ℓ} ⦃e : Eq A⦄ → Eq (List A)
list_eq = record { beq = list_beq; beq_iff = list_beq_iff }

module _ {ℓ} {A : Type ℓ} ⦃e : Eq A⦄ where
  abbrev pub option_beq : Option A → Option A → Bool
  option_beq none none = true
  option_beq (some x) (some y) = e.beq x y
  option_beq _ _ = false

  pub option_beq_iff : (a b : Option A) → (option_beq a b ≡ true) ↔ (a ≡ b)
  option_beq_iff none none = ground arith
  option_beq_iff (some x) (some y) = ground (arith, (e.beq_iff x y).0, (e.beq_iff x y).1)
  option_beq_iff none (some y) = ground arith
  option_beq_iff (some x) none = ground arith

instance abbrev pub option_eq {ℓ} : {A : Type ℓ} ⦃e : Eq A⦄ → Eq (Option A)
option_eq = record { beq = option_beq; beq_iff = option_beq_iff }

-- To split on a computed value and keep the equation.
pub Bool-cases : (b : Bool) → (b ≡ true) ⊎ (b ≡ false)
Bool-cases true = inl refl
Bool-cases false = inr refl

pub Option-cases {ℓ} : {A : Type ℓ} (o : Option A) → (o ≡ none) ⊎ ((a : A) × (o ≡ some a))
Option-cases none = inl refl
Option-cases (some a) = inr (a, refl)

-- `x is not None`
abbrev pub is_some {ℓ} : {A : Type ℓ} → Option A → Bool
is_some none = false
is_some (some _) = true
