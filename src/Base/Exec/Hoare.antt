-- ===== src/Base/Exec/Hoare.antt =====
-- Triples: from a state with `P`, a method ends with `Q` where it returns and with `R` where it
-- raises.
use mathlib.Core.Path.{◌≡◌, refl}
use mathlib.Core.Bool.{Bool, true, false}
use mathlib.Core.List.{List, [], ◌∷◌}
use hack_ef3da0e3_aib2bsaass.Base.{Result, ok, err, if◌then◌else◌}
use hack_ef3da0e3_aib2bsaass.Base.Exec.{
  Exec, pure, raise, gets, skip, ◌>>=◌, catch, for_each, continue, handle, finally, finish,
}

abbrev pub Post {ℓ} :
    {S E A : Type ℓ} → (A → S → Type ℓ) → (E → S → Type ℓ) → Result E A × S → Type ℓ
Post Q R (ok a, s) = Q a s
Post Q R (err e, s) = R e s

pub record Hoare {ℓ} {S E A : Type ℓ} (P : S → Type ℓ) (m : Exec S E A) (Q : A → S → Type ℓ)
    (R : E → S → Type ℓ) : Type ℓ where
  pub at : (s : S) → P s → Post Q R (m s)

-- `m` keeps `P`, whether it returns or raises.
abbrev pub Keeps {ℓ} : {S E A : Type ℓ} → (S → Type ℓ) → Exec S E A → Type ℓ
Keeps {E} {A} P m = Hoare P m (λ (a : A). P) (λ (e : E). P)

-- A triple whose ends agree speaks of the state alone.
pub Keeps-after {ℓ} :
    {S E A : Type ℓ} {P : S → Type ℓ} (m : Exec S E A) → Keeps P m → (s : S) → P s → P (m s).1
Keeps-after {S} {E} {A} {P} m h s p = go (m s) (h.at s p)
  where
    go : (o : Result E A × S) → Post (λ (a : A). P) (λ (e : E). P) o → P o.1
    go (ok a, t) q = q
    go (err e, t) q = q

module _ {ℓ} {S E A : Type ℓ} {Q Q' : A → S → Type ℓ} {R R' : E → S → Type ℓ} where
  Post-weaken :
      (o : Result E A × S)
      → ((a : A) (s : S) → Q a s → Q' a s)
      → ((e : E) (s : S) → R e s → R' e s)
      → Post Q R o
      → Post Q' R' o
  Post-weaken (ok a, s) q r h = q a s h
  Post-weaken (err e, s) q r h = r e s h

module _ {ℓ} {S E A : Type ℓ} {P : S → Type ℓ} {Q Q' : A → S → Type ℓ} {R R' : E → S → Type ℓ} where
  pub Hoare-weaken :
      (m : Exec S E A)
      → Hoare P m Q R
      → ((a : A) (s : S) → Q a s → Q' a s)
      → ((e : E) (s : S) → R e s → R' e s)
      → Hoare P m Q' R'
  Hoare-weaken m h q r = record { at = λ s p. Post-weaken (m s) q r (h.at s p) }

module _ {ℓ} {S E A : Type ℓ} (Q Q' : A → S → Type ℓ) (R R' : E → S → Type ℓ) where
  Post-both :
      (o : Result E A × S)
      → Post Q R o
      → Post Q' R' o
      → Post (λ a s. Q a s × Q' a s) (λ e s. R e s × R' e s) o
  Post-both (ok a, s) h k = (h, k)
  Post-both (err e, s) h k = (h, k)

module _ {ℓ} {S E A : Type ℓ} {P P' : S → Type ℓ} {Q Q' : A → S → Type ℓ}
    {R R' : E → S → Type ℓ} where
  -- two triples of one method
  pub Hoare-both :
      (m : Exec S E A)
      → Hoare P m Q R
      → Hoare P' m Q' R'
      → Hoare (λ s. P s × P' s) m (λ a s. Q a s × Q' a s) (λ e s. R e s × R' e s)
  Hoare-both m h k = record { at = λ s p. Post-both Q Q' R R' (m s) (h.at s p.0) (k.at s p.1) }

module _ {ℓ} {S E A : Type ℓ} {P P' : S → Type ℓ} {Q : A → S → Type ℓ} {R : E → S → Type ℓ} where
  pub Hoare-strengthen : (m : Exec S E A) → ((s : S) → P' s → P s) → Hoare P m Q R → Hoare P' m Q R
  Hoare-strengthen m f h = record { at = λ s p. h.at s (f s p) }

module _ {ℓ} {S E A : Type ℓ} (Q : A → S → Type ℓ) (R : E → S → Type ℓ) where
  Post-traced : (o : Result E A × S) → Post Q R o → Post (λ a s. Q a s × (o.0 ≡ ok a)) R o
  Post-traced (ok a, s) h = (h, refl)
  Post-traced (err e, s) h = h

module _ {ℓ} {S E A : Type ℓ} {P : S → Type ℓ} {Q : A → S → Type ℓ} {R : E → S → Type ℓ} where
  -- the state from which the method gave what it gave
  pub Hoare-traced :
      (m : Exec S E A)
      → Hoare P m Q R
      → Hoare P m (λ a s. Q a s × ((t : S) × P t × ((m t).0 ≡ ok a))) R
  Hoare-traced m h = record {
    at = λ s p.
        Post-weaken (m s) (λ a t q. (q.0, (s, p, q.1))) (λ e t r. r)
          (Post-traced Q R (m s) (h.at s p));
  }

module _ {ℓ} {S E A : Type ℓ} {P : S → Type ℓ} {Q : A → S → Type ℓ} {R : E → S → Type ℓ} where
  pub Hoare-if :
      (b : Bool) (m n : Exec S E A)
      → (b ≡ true → Hoare P m Q R)
      → (b ≡ false → Hoare P n Q R)
      → Hoare P (if b then m else n) Q R
  Hoare-if true m n h k = h refl
  Hoare-if false m n h k = k refl

  pub Hoare-pure : (a : A) → ((s : S) → P s → Q a s) → Hoare P (pure a) Q R
  unfolding pure
  Hoare-pure a f = record { at = λ s p. f s p }

  pub Hoare-raise : (e : E) → ((s : S) → P s → R e s) → Hoare P (raise e) Q R
  unfolding raise
  Hoare-raise e f = record { at = λ s p. f s p }

  pub Hoare-gets : (g : S → A) → ((s : S) → P s → Q (g s) s) → Hoare P (gets g) Q R
  unfolding gets
  Hoare-gets g f = record { at = λ s p. f s p }

  -- a fact about the state before, for the proof about the method
  pub Hoare-given :
      {X : Type ℓ} (m : Exec S E A) → ((s : S) → P s → X) → (X → Hoare P m Q R) → Hoare P m Q R
  Hoare-given m f h = record { at = λ s p. (h (f s p)).at s p }

module _ {ℓ} {S E A B : Type ℓ} {Q : A → S → Type ℓ} {T : B → S → Type ℓ} {R : E → S → Type ℓ} where
  Post-bind :
      (o : Result E A × S) (f : A → Exec S E B)
      → ((a : A) → Hoare (Q a) (f a) T R)
      → Post Q R o
      → Post T R (continue o.0 f o.1)
  Post-bind (ok a, s) f h p = (h a).at s p
  Post-bind (err e, s) f h p = p

module _ {ℓ} {S E A B : Type ℓ} {P : S → Type ℓ} {Q : A → S → Type ℓ} {T : B → S → Type ℓ}
    {R : E → S → Type ℓ} where
  pub Hoare-bind :
      (m : Exec S E A) (f : A → Exec S E B)
      → Hoare P m Q R
      → ((a : A) → Hoare (Q a) (f a) T R)
      → Hoare P (m >>= f) T R
  unfolding ◌>>=◌
  Hoare-bind m f hm hf = record { at = λ s p. Post-bind (m s) f hf (hm.at s p) }

module _ {ℓ} {S E A : Type ℓ} {Q : A → S → Type ℓ} {R R' : E → S → Type ℓ} where
  Post-catch :
      (o : Result E A × S) (h : E → Exec S E A)
      → ((e : E) → Hoare (R e) (h e) Q R')
      → Post Q R o
      → Post Q R' (handle o.0 h o.1)
  Post-catch (ok a, s) h k p = p
  Post-catch (err e, s) h k p = (k e).at s p

module _ {ℓ} {S E A : Type ℓ} {P : S → Type ℓ} {Q : A → S → Type ℓ} {R R' : E → S → Type ℓ} where
  pub Hoare-catch :
      (m : Exec S E A) (h : E → Exec S E A)
      → Hoare P m Q R
      → ((e : E) → Hoare (R e) (h e) Q R')
      → Hoare P (catch m h) Q R'
  unfolding catch
  Hoare-catch m h km kh = record { at = λ s p. Post-catch (m s) h kh (km.at s p) }

module _ {ℓ} {S E A : Type ℓ} {P : S → Type ℓ} where
  -- A loop keeps what each round keeps.
  pub Keeps-for_each :
      (xs : List A) (body : A → Exec S E (Unit {ℓ}))
      → ((a : A) → Keeps P (body a))
      → Keeps P (for_each xs body)
  unfolding for_each skip
  Keeps-for_each [] body h = record { at = λ s p. p }
  Keeps-for_each (x ∷ xs) body h =
      Hoare-bind (body x) (λ _. for_each xs body) (h x) (λ _. Keeps-for_each xs body h)

module _ {ℓ} {S E A : Type ℓ} (Q : A → S → Type ℓ) (K : S → Type ℓ) where
  Post-finish_ok :
      (a : A) (q : Result E (Unit {ℓ}) × S)
      → Post (λ (u : Unit {ℓ}). Q a) (λ (e : E). K) q
      → Post Q (λ (e : E). K) (finish (ok a) q.0, q.1)
  Post-finish_ok a (ok u, s) p = p
  Post-finish_ok a (err e, s) p = p

  Post-finish_err :
      (d : E) (q : Result E (Unit {ℓ}) × S)
      → Post (λ (u : Unit {ℓ}). K) (λ (e : E). K) q
      → Post Q (λ (e : E). K) (finish (err d) q.0, q.1)
  Post-finish_err d (ok u, s) p = p
  Post-finish_err d (err e, s) p = p

  Post-finally :
      (o : Result E A × S) (f : Exec S E (Unit {ℓ}))
      → ((a : A) → Hoare (Q a) f (λ u. Q a) (λ e. K))
      → Hoare K f (λ u. K) (λ e. K)
      → Post Q (λ (e : E). K) o
      → Post Q (λ (e : E). K) (finish o.0 (f o.1).0, (f o.1).1)
  Post-finally (ok a, s) f hq hk p = Post-finish_ok a (f s) ((hq a).at s p)
  Post-finally (err d, s) f hq hk p = Post-finish_err d (f s) (hk.at s p)

module _ {ℓ} {S E A : Type ℓ} {P : S → Type ℓ} {Q : A → S → Type ℓ} {K : S → Type ℓ} where
  pub Hoare-finally :
      (m : Exec S E A) (f : Exec S E (Unit {ℓ}))
      → Hoare P m Q (λ (e : E). K)
      → ((a : A) → Hoare (Q a) f (λ u. Q a) (λ (e : E). K))
      → Hoare K f (λ u. K) (λ (e : E). K)
      → Hoare P (finally m f) Q (λ (e : E). K)
  unfolding finally
  Hoare-finally m f hm hq hk = record { at = λ s p. Post-finally Q K (m s) f hq hk (hm.at s p) }

module _ {ℓ} {S E A B : Type ℓ} {P : S → Type ℓ} where
  pub Keeps-bind :
      (m : Exec S E A) (f : A → Exec S E B)
      → Keeps P m
      → ((a : A) → Keeps P (f a))
      → Keeps P (m >>= f)
  Keeps-bind m f = Hoare-bind m f

module _ {ℓ} {S E A : Type ℓ} {P : S → Type ℓ} where
  pub Keeps-catch :
      (m : Exec S E A) (h : E → Exec S E A)
      → Keeps P m
      → ((e : E) → Keeps P (h e))
      → Keeps P (catch m h)
  Keeps-catch m h = Hoare-catch m h

  pub Keeps-finally :
      (m : Exec S E A) (f : Exec S E (Unit {ℓ})) → Keeps P m → Keeps P f → Keeps P (finally m f)
  Keeps-finally m f hm hf = Hoare-finally m f hm (λ a. hf) hf

  pub Keeps-if :
      (b : Bool) (m n : Exec S E A) → Keeps P m → Keeps P n → Keeps P (if b then m else n)
  Keeps-if true m n h k = h
  Keeps-if false m n h k = k

  pub Keeps-pure : (a : A) → Keeps P (pure {E = E} a)
  unfolding pure
  Keeps-pure a = record { at = λ s p. p }

  pub Keeps-raise : (e : E) → Keeps P (raise {A = A} e)
  unfolding raise
  Keeps-raise e = record { at = λ s p. p }

  pub Keeps-gets : (g : S → A) → Keeps P (gets {E = E} g)
  unfolding gets
  Keeps-gets g = record { at = λ s p. p }

module _ {ℓ} {S E : Type ℓ} {P : S → Type ℓ} where
  pub Keeps-skip : Keeps P (skip {S = S} {E = E})
  unfolding skip
  Keeps-skip = record { at = λ s p. p }

pub ruleset keeps_rules = (
  Keeps-bind, Keeps-catch, Keeps-finally, Keeps-if, Keeps-pure, Keeps-raise, Keeps-gets, Keeps-skip,
  Keeps-for_each,
)
