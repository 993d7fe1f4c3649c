-- ===== src/Store/Files/Atomic.antt =====
-- An atomic write leaves the whole folder as it was or as it should be.
use hack_ef3da0e3_aib2bsaass.Base.{
  ◌≡◌, ◌⊎◌, inl, inr, refl, ap, subst, Bool, true, false, ◌&&◌, some, none, is_some, arith,
}
use hack_ef3da0e3_aib2bsaass.Base.Exec.Hoare.{Post, Hoare}
use hack_ef3da0e3_aib2bsaass.Store.World.{Env, World, Name, Files, write}
use hack_ef3da0e3_aib2bsaass.Store.Files.{atomic_write}
use hack_ef3da0e3_aib2bsaass.Store.Files.Laws.{atomic_write-Hoare}

module _ ⦃env : Env⦄ (n : Name) (d : env.Bytes) (immutable : Bool) (old : Files) where
  -- the file was written, which an immutable write does only where there was none
  abbrev pub IsWritten : Files → Type 0
  IsWritten f = (f ≡ write n d old) × ((immutable && is_some (old n)) ≡ false)

  -- the same bytes stood there already
  abbrev pub IsFound : Files → Type 0
  IsFound f = (f ≡ old) × (old n ≡ some d)

  written : (f : Files) → f ≡ old → (immutable ≡ true → f n ≡ none) → IsWritten (write n d f)
  written f e new = (ap (write n d) e, free (subst (λ g. immutable ≡ true → g n ≡ none) e new))
    where
      free : (immutable ≡ true → old n ≡ none) → (immutable && is_some (old n)) ≡ false
      free h = ground (arith, h)

  atomic_write-split :
      Hoare
        (λ w. w.files ≡ old)
        (atomic_write n d immutable)
        (λ u v. IsWritten v.files ⊎ IsFound v.files)
        (λ e v. (v.files ≡ old) ⊎ IsWritten v.files)
  atomic_write-split =
      atomic_write-Hoare (λ f s. f ≡ old) (λ f s. IsWritten f ⊎ IsFound f)
        (λ f s. (f ≡ old) ⊎ IsWritten f) n d immutable (λ f s e new. inl (written f e new))
        (λ f s e same. inr (e, subst (λ g. g n ≡ some d) e same)) (λ f s e. inl e)
        (λ f s h. elim h [ inl p ↦ inr p | inr p ↦ inl p.0 ])

module _ ⦃env : Env⦄ where
  -- An atomic write that returns has left the folder with the new bytes in the file and no other
  -- change, or has found the same bytes there and changed nothing; one that raises has changed
  -- nothing or has put the new bytes in the file. Where an immutable file was there before, nothing
  -- is written. This holds whatever the system answers.
  pub atomic_write_lem :
      (n : Name) (d : env.Bytes) (immutable : Bool) (w : World)
      → Post
          (λ u v. IsWritten n d immutable w.files v.files ⊎ IsFound n d immutable w.files v.files)
          (λ e v. (v.files ≡ w.files) ⊎ IsWritten n d immutable w.files v.files)
          (atomic_write n d immutable w)
  atomic_write_lem n d immutable w = (atomic_write-split n d immutable w.files).at w refl
