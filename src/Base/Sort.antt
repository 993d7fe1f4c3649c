-- ===== src/Base/Sort.antt =====
-- Python's `sorted` on numbers, and the test `xs == sorted(xs)`.
use Prim.Native.Nat.{ℕ, ◌≤◌}
use mathlib.Core.Path.{◌≡◌, refl, ap, sym, subst, ◌∙◌}
use mathlib.Core.List.{List, [], ◌∷◌}
use native.Mathlib.Omega.{arith}
use hack_ef3da0e3_aib2bsaass.Base.Tests.{leb, if◌then◌else◌, ◌==◌, list_beq_iff, nat_eq, list_eq}
use hack_ef3da0e3_aib2bsaass.Base.Lists.{Decides, All}

insert : ℕ → List ℕ → List ℕ
insert a [] = a ∷ []
insert a (x ∷ xs) = if leb a x then a ∷ x ∷ xs else x ∷ insert a xs

unfoldable pub sorted : List ℕ → List ℕ
unfolding insert
sorted [] = []
sorted (x ∷ xs) = insert x (sorted xs)

abbrev pub IsSorted : List ℕ → Type 0
IsSorted [] = Unit
IsSorted (x ∷ xs) = All (λ y. x ≤ y) xs × IsSorted xs

All-le_trans : (a b : ℕ) (xs : List ℕ) → a ≤ b → All (λ y. b ≤ y) xs → All (λ y. a ≤ y) xs
All-le_trans a b [] h k = tt
All-le_trans a b (x ∷ xs) h k = (omega arith, All-le_trans a b xs h k.1)

All-insert : (b a : ℕ) (xs : List ℕ) → b ≤ a → All (λ y. b ≤ y) xs → All (λ y. b ≤ y) (insert a xs)
unfolding insert
All-insert b a [] h k = (h, tt)
All-insert b a (x ∷ xs) h k = ground (arith, All-insert b a xs)

insert-IsSorted : (a : ℕ) (xs : List ℕ) → IsSorted xs → IsSorted (insert a xs)
unfolding insert
insert-IsSorted a [] h = (tt, tt)
insert-IsSorted a (x ∷ xs) h =
    ground (arith, insert-IsSorted a xs, All-le_trans a x xs, All-insert x a xs)

sorted-IsSorted : (xs : List ℕ) → IsSorted (sorted xs)
unfolding sorted
sorted-IsSorted [] = tt
sorted-IsSorted (x ∷ xs) = insert-IsSorted x (sorted xs) (sorted-IsSorted xs)

insert-least : (a : ℕ) (xs : List ℕ) → All (λ y. a ≤ y) xs → insert a xs ≡ a ∷ xs
unfolding insert
insert-least a [] h = refl
insert-least a (x ∷ xs) h = ground arith

sorted_fixed : (xs : List ℕ) → IsSorted xs → sorted xs ≡ xs
unfolding sorted
sorted_fixed [] h = refl
sorted_fixed (x ∷ xs) h = ap (insert x) (sorted_fixed xs h.1) ∙ insert-least x xs h.0

-- A list equals its sorted copy exactly when it is in order.
pub sorted-Decides : (xs : List ℕ) → Decides (xs == sorted xs) (IsSorted xs)
sorted-Decides xs = (
  λ h. subst IsSorted (sym ((list_beq_iff xs (sorted xs)).0 h)) (sorted-IsSorted xs),
  λ h. (list_beq_iff xs (sorted xs)).1 (sym (sorted_fixed xs h)),
)
