-- ===== src/Model/Meeting/Jobs.antt =====
-- The attempts of a job history, as jobs are appended to it and changed in place.
use hack_ef3da0e3_aib2bsaass.Base.{
  ℕ, ◌≡◌, ◌≤◌, ◌⊎◌, false, inl, inr, refl, sym, ap, arith, List, [], ◌∷◌, ◌++◌, All, Distinct, IsIn,
}
use hack_ef3da0e3_aib2bsaass.Model.Meeting.{JobRecord, attempts, is_nil}

IsIn-snoc : (x n : ℕ) (l : List ℕ) → IsIn x (l ++ n ∷ []) → IsIn x l ⊎ (x ≡ n)
IsIn-snoc x n [] (inl e) = inr e
IsIn-snoc x n [] (inr m) = absurd m
IsIn-snoc x n (a ∷ l) (inl e) = inl (inl e)
IsIn-snoc x n (a ∷ l) (inr m) = elim (IsIn-snoc x n l m) [ inl h ↦ inl (inr h) | inr h ↦ inr h ]

Distinct-snoc : (n : ℕ) (l : List ℕ) → ¬ IsIn n l → Distinct l → Distinct (l ++ n ∷ [])
Distinct-snoc n [] h d = ((λ m. m), tt)
Distinct-snoc n (a ∷ l) h d = (
  λ m. elim (IsIn-snoc a n l m) [ inl old ↦ d.0 old | inr e ↦ h (inl (sym e)) ],
  Distinct-snoc n l (λ m. h (inr m)) d.1,
)

All-snoc : (k n : ℕ) (l : List ℕ) → n ≤ k → All (λ a. a ≤ k) l → All (λ a. a ≤ k) (l ++ n ∷ [])
All-snoc k n [] h p = (h, tt)
All-snoc k n (a ∷ l) h p = (p.0, All-snoc k n l h p.1)

-- Appending the attempt `n` to attempts without it.
pub snoc_history :
    (k n : ℕ) (l : List ℕ)
    → ¬ IsIn n l
    → n ≤ k
    → Distinct l
    → All (λ a. a ≤ k) l
    → Distinct (l ++ n ∷ []) × All (λ a. a ≤ k) (l ++ n ∷ [])
snoc_history k n l h b d p = (Distinct-snoc n l h d, All-snoc k n l b p)

pub All-weaken : (k m : ℕ) (l : List ℕ) → k ≤ m → All (λ a. a ≤ k) l → All (λ a. a ≤ m) l
All-weaken k m [] h p = tt
All-weaken k m (a ∷ l) h p = (omega (arith, p.0, h), All-weaken k m l h p.1)

pub attempts-snoc :
    (js : List JobRecord) (j : JobRecord) → attempts (js ++ j ∷ []) ≡ attempts js ++ j.attempt ∷ []
attempts-snoc [] j = refl
attempts-snoc (x ∷ js) j = ap (λ l. x.attempt ∷ l) (attempts-snoc js j)

pub is_nil_snoc : (js : List JobRecord) (j : JobRecord) → is_nil (js ++ j ∷ []) ≡ false
is_nil_snoc [] j = refl
is_nil_snoc (x ∷ js) j = refl
