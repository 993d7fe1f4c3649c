-- ===== src/Routes/Order.antt =====
-- The order of meetings in the listing, and lists that descend in it.
use hack_ef3da0e3_aib2bsaass.Base.{
  ℕ, zero, suc, ◌≡◌, refl, subst, arith, inl, inr, true, false, some, List, [], ◌∷◌, if◌then◌else◌,
  take, drop, filter, IsIn, All, All-IsIn,
}
use hack_ef3da0e3_aib2bsaass.Model.Text.{Text}
use hack_ef3da0e3_aib2bsaass.Routes.{Key, text_lt, key_lt, last}

text_lt_irrefl : (s : Text) → text_lt s s ≡ false
unfolding text_lt
text_lt_irrefl [] = refl
text_lt_irrefl (x ∷ s) = ground (arith, text_lt_irrefl s)

text_lt_trans : (a b c : Text) → text_lt a b ≡ true → text_lt b c ≡ true → text_lt a c ≡ true
unfolding text_lt
text_lt_trans [] [] c h k = ground arith
text_lt_trans [] (y ∷ b) [] h k = ground arith
text_lt_trans [] (y ∷ b) (z ∷ c) h k = refl
text_lt_trans (x ∷ a) [] c h k = ground arith
text_lt_trans (x ∷ a) (y ∷ b) [] h k = ground arith
text_lt_trans (x ∷ a) (y ∷ b) (z ∷ c) h k = ground (arith, text_lt_trans a b c)

pub key_lt_irrefl : (a : Key) → key_lt a a ≡ false
unfolding key_lt
key_lt_irrefl a = ground (arith, text_lt_irrefl a.identifier)

pub key_lt_trans : (a b c : Key) → key_lt a b ≡ true → key_lt b c ≡ true → key_lt a c ≡ true
unfolding key_lt
key_lt_trans a b c h k = ground (arith, text_lt_trans a.identifier b.identifier c.identifier)

key_lt_asym : (a b : Key) → key_lt a b ≡ true → key_lt b a ≡ false
key_lt_asym a b h = ground (arith, key_lt_trans a b a, key_lt_irrefl a)

-- Newest first, and no two meetings alike.
abbrev pub Descending : List Key → Type 0
Descending [] = Unit
Descending (x ∷ xs) = All (λ y. key_lt y x ≡ true) xs × Descending xs

-- the meetings that come after `k`
abbrev pub below : Key → List Key → List Key
below k xs = filter (λ item. key_lt item k) xs

below-All : (k : Key) (xs : List Key) → All (λ y. key_lt y k ≡ true) xs → below k xs ≡ xs
below-All k [] h = refl
below-All k (x ∷ xs) (h, hs) = ground (arith, below-All k xs hs)

pub All-below : (P : Key → Type 0) (k : Key) (xs : List Key) → All P xs → All P (below k xs)
All-below P k [] h = tt
All-below P k (y ∷ xs) (h, hs) =
    elim (key_lt y k) as (λ b. All P (if b then y ∷ below k xs else below k xs)) [
      | true ↦ (h, All-below P k xs hs)
      | false ↦ All-below P k xs hs
    ]

pub Descending-below : (k : Key) (xs : List Key) → Descending xs → Descending (below k xs)
Descending-below k [] d = tt
Descending-below k (x ∷ xs) (h, d) =
    elim (key_lt x k) as (λ b. Descending (if b then x ∷ below k xs else below k xs)) [
      | true ↦ (All-below (λ z. key_lt z x ≡ true) k xs h, Descending-below k xs d)
      | false ↦ Descending-below k xs d
    ]

pub IsIn-last-take : (n : ℕ) (xs : List Key) (k : Key) → last (take n xs) ≡ some k → IsIn k xs
IsIn-last-take zero xs k e = absurd (cc)
IsIn-last-take (suc n) [] k e = absurd (cc)
IsIn-last-take (suc zero) (x ∷ xs) k e = inl (cc)
IsIn-last-take (suc (suc n)) (x ∷ []) k e = inl (cc)
IsIn-last-take (suc (suc n)) (x ∷ y ∷ ys) k e = inr (IsIn-last-take (suc n) (y ∷ ys) k e)

-- What comes after the last meeting of a page is the rest of the list.
pub below-last-take :
    (n : ℕ) (xs : List Key) (k : Key)
    → Descending xs
    → last (take n xs) ≡ some k
    → below k xs ≡ drop n xs
below-last-take zero xs k d e = cc
below-last-take (suc n) [] k d e = refl
below-last-take (suc zero) (x ∷ xs) k (h, d) e =
    let same : x ≡ k = cc in
    subst (λ z. below z (x ∷ xs) ≡ xs) same (ground (arith, key_lt_irrefl x, below-All x xs h))
below-last-take (suc (suc n)) (x ∷ []) k d e =
    let same : x ≡ k = cc in
    subst (λ z. below z (x ∷ []) ≡ []) same (ground (arith, key_lt_irrefl x))
below-last-take (suc (suc n)) (x ∷ y ∷ ys) k (h, d) e =
    let under : key_lt k x ≡ true =
      All-IsIn (λ z. key_lt z x ≡ true) k (y ∷ ys) h (IsIn-last-take (suc n) (y ∷ ys) k e) in
    rw (key_lt_asym k x under) (below-last-take (suc n) (y ∷ ys) k d e)

-- Of the meetings below two keys, the lower key decides.
pub below-below :
    (k b : Key) (xs : List Key) → key_lt k b ≡ true → below k (below b xs) ≡ below k xs
below-below k b [] h = refl
below-below k b (x ∷ xs) h = ground (arith, below-below k b xs h, key_lt_trans x k b)
