-- ===== src/Base/Slices.antt =====
-- Python's indexing and slices of a sequence.
use Prim.Native.Nat.{ℕ, zero, suc, ◌-◌, ◌≤◌}
use mathlib.Core.Path.{◌≡◌, refl}
use mathlib.Core.Option.{Option, none, some}
use mathlib.Core.List.{List, [], ◌∷◌, ◌++◌}
use native.Mathlib.Omega.{arith}
use hack_ef3da0e3_aib2bsaass.Base.Lists.{length}

module _ {ℓ} {A : Type ℓ} where
  abbrev pub take : ℕ → List A → List A
  take zero xs = []
  take (suc n) [] = []
  take (suc n) (x ∷ xs) = x ∷ take n xs

  abbrev pub drop : ℕ → List A → List A
  drop zero xs = xs
  drop (suc n) [] = []
  drop (suc n) (x ∷ xs) = drop n xs

  -- `xs[n]`, or `none` beyond the end
  abbrev pub get_elem? : List A → ℕ → Option A
  get_elem? [] n = none
  get_elem? (x ∷ xs) zero = some x
  get_elem? (x ∷ xs) (suc n) = get_elem? xs n

  -- `xs[a:b]`
  abbrev pub slice : List A → ℕ → ℕ → List A
  slice xs a b = take (b - a) (drop a xs)

  pub take_all : (xs ys : List A) → take (length xs) (xs ++ ys) ≡ xs
  take_all [] ys = refl
  take_all (x ∷ xs) ys = ground (arith, take_all xs ys)

  pub drop_all : (xs ys : List A) → drop (length xs) (xs ++ ys) ≡ ys
  drop_all [] ys = refl
  drop_all (x ∷ xs) ys = ground (arith, drop_all xs ys)

  pub get_elem?-middle :
      (xs : List A) (y : A) (ys : List A) → get_elem? (xs ++ y ∷ ys) (length xs) ≡ some y
  get_elem?-middle [] y ys = refl
  get_elem?-middle (x ∷ xs) y ys = ground (arith, get_elem?-middle xs y ys)

  pub length-take : (n : ℕ) (xs : List A) → n ≤ length xs → length (take n xs) ≡ n
  length-take zero xs h = refl
  length-take (suc n) [] h = absurd (omega (arith, h))
  length-take (suc n) (x ∷ xs) h = omega (arith, length-take n xs (omega (arith, h)))

  pub take-append-drop : (n : ℕ) (xs : List A) → take n xs ++ drop n xs ≡ xs
  take-append-drop zero xs = refl
  take-append-drop (suc n) [] = refl
  take-append-drop (suc n) (x ∷ xs) = ground (arith, take-append-drop n xs)

  pub length-drop : (n : ℕ) (xs : List A) → length (drop n xs) ≡ length xs - n
  length-drop zero xs = omega arith
  length-drop (suc n) [] = omega arith
  length-drop (suc n) (x ∷ xs) = omega (arith, length-drop n xs)
