-- ===== src/Uploads/Staging/Folder/Laws.antt =====
-- Which files may be new in the staging folder, and what its calls do to that.
use hack_ef3da0e3_aib2bsaass.Base.{
  ℕ, ◌≤◌, ◌<◌, ◌≡◌, ◌↔◌, refl, arith, inl, inr, Bool, true, false, Option, none, some, List, [],
  ◌∷◌, nat_beq_iff, if◌then◌else◌, Bool-cases, is_some, IsIn, ◌||◌,
}
use hack_ef3da0e3_aib2bsaass.Base.Exec.{raise, modify, skip}
use hack_ef3da0e3_aib2bsaass.Base.Exec.Hoare.{
  Hoare, Keeps, Hoare-bind, Hoare-raise, Hoare-if, Hoare-weaken, Keeps-bind, Keeps-catch, Keeps-if,
  Keeps-pure, Keeps-raise, Keeps-gets, Keeps-skip,
}
use hack_ef3da0e3_aib2bsaass.Store.World.{Choice}
use hack_ef3da0e3_aib2bsaass.Uploads.Media.{
  Raised, os_error, unsafe_path, upload_error, zero_division, stuck,
}
use hack_ef3da0e3_aib2bsaass.Uploads.Staging.Folder.{
  Env, StagedPath, staged, foreign, File, World, M, staged_beq, lookup, put, remove, step, call,
  check, perform, unlink, unlink_existing, unlink_stale, is_stale, suppressed, sweep_entry,
  sweep_entries, sweep_stale_uploads, obeyed, checked,
}

pub staged_beq_iff : (p q : StagedPath) → (staged_beq p q ≡ true) ↔ (p ≡ q)
staged_beq_iff (staged a) (staged b) = ground (arith, nat_beq_iff a b)
staged_beq_iff (foreign a) (foreign b) = ground (arith, nat_beq_iff a b)
staged_beq_iff (staged a) (foreign b) = ground arith
staged_beq_iff (foreign a) (staged b) = ground arith

pub lookup-remove :
    (q p : StagedPath) (fs : List (StagedPath × File))
    → lookup q (remove p fs) ≡ (if staged_beq q p then none else lookup q fs)
lookup-remove q p [] = ground arith
lookup-remove q p ((r, f) ∷ fs) =
    ground (arith, lookup-remove q p fs, staged_beq_iff q p, staged_beq_iff p r, staged_beq_iff q r)

-- Beside the files of `before`, only those of `new` stand in the folder.
abbrev pub Adds : List (StagedPath × File) → List StagedPath → List (StagedPath × File) → Type 0
Adds before new fs = (q : StagedPath) → lookup q before ≡ none → ¬ IsIn q new → lookup q fs ≡ none

module _ (before : List (StagedPath × File)) (p : StagedPath) (new : List StagedPath)
    (fs : List (StagedPath × File)) where
  pub Adds-still : Adds before new fs → Adds before new (remove p fs)
  Adds-still h q absent other = ground (arith, lookup-remove q p fs, h q absent other)

  pub Adds-removed : Adds before (p ∷ new) fs → Adds before new (remove p fs)
  Adds-removed h q absent other = elim (Bool-cases (staged_beq q p)) [
    | inl same ↦ rw (lookup-remove q p fs, same) refl
    | inr differs ↦ rw (lookup-remove q p fs, differs) (h q absent (not_in differs))
  ]
    where
      not_in : staged_beq q p ≡ false → ¬ IsIn q (p ∷ new)
      not_in differs (inl e) = ground (arith, (staged_beq_iff q p).1 e)
      not_in differs (inr m) = other m

  pub Adds-put : (f : File) → Adds before new fs → Adds before (p ∷ new) (put p f fs)
  Adds-put f h q absent other = ground (
    arith,
    lookup-remove q p fs,
    h q absent (λ m. other (inr m)),
    (staged_beq_iff q p).0,
    λ (e : q ≡ p). other (inl e),
  )

  pub Adds-again : (f : File) → Adds before (p ∷ new) fs → Adds before (p ∷ new) (put p f fs)
  Adds-again f h q absent other = ground (
    arith,
    lookup-remove q p fs,
    h q absent other,
    (staged_beq_iff q p).0,
    λ (e : q ≡ p). other (inl e),
  )

-- An invariant of the files, after `k` calls at least. An error of the system promises nothing.
abbrev pub On : (List (StagedPath × File) → Type 0) → ℕ → World → Type 0
On I k w = I w.files × (k ≤ w.steps)

abbrev pub Safe : (World → Type 0) → Raised → World → Type 0
Safe P os_error w = Unit
Safe P unsafe_path w = P w
Safe P zero_division w = P w
Safe P stuck w = P w
Safe P (upload_error status code) w = P w

pub Safe-intro : (P : World → Type 0) (e : Raised) (w : World) → P w → Safe P e w
Safe-intro P os_error w h = tt
Safe-intro P unsafe_path w h = h
Safe-intro P zero_division w h = h
Safe-intro P stuck w h = h
Safe-intro P (upload_error status code) w h = h

-- what stays on every error stays on those that promise it
pub safely :
    {A : Type 0} {P : World → Type 0} {Q : A → World → Type 0} {P' : World → Type 0} (m : M A)
    → Hoare P m Q (λ (e : Raised). P')
    → Hoare P m Q (Safe P')
safely {P'} m h = Hoare-weaken m h (λ a w q. q) (λ e w q. Safe-intro P' e w q)

pub Safe-map :
    (P P' : World → Type 0) (e : Raised) (w : World) → (P w → P' w) → Safe P e w → Safe P' e w
Safe-map P P' os_error w f h = tt
Safe-map P P' unsafe_path w f h = f h
Safe-map P P' zero_division w f h = f h
Safe-map P P' stuck w f h = f h
Safe-map P P' (upload_error status code) w f h = f h

pub raise-Safe :
    {A : Type 0} (P : World → Type 0) (e : Raised) (Q : A → World → Type 0)
    → Hoare P (raise {A = A} e) Q (Safe P)
raise-Safe P e Q = Hoare-raise e (λ w h. Safe-intro P e w h)

module _ ⦃env : Env⦄ where
  obeyed-Keeps : (c : Choice) (P : World → Type 0) → Keeps P (obeyed c)
  unfolding skip raise
  obeyed-Keeps Choice.done P = record { at = λ w h. h }
  obeyed-Keeps Choice.refused P = record { at = λ w h. h }
  obeyed-Keeps Choice.half P = record { at = λ w h. h }
  obeyed-Keeps Choice.unsafe P = record { at = λ w h. h }

  checked-Keeps : (c : Choice) (P : World → Type 0) → Keeps P (checked c)
  unfolding skip raise
  checked-Keeps Choice.done P = record { at = λ w h. h }
  checked-Keeps Choice.refused P = record { at = λ w h. h }
  checked-Keeps Choice.half P = record { at = λ w h. h }
  checked-Keeps Choice.unsafe P = record { at = λ w h. h }

  module _ (k : ℕ) (I : List (StagedPath × File) → Type 0) where
    pub step-Hoare :
        Hoare (On I k) step (λ n w. On I k w × (k ≤ n) × (n < w.steps)) (λ (e : Raised). On I k)
    unfolding step
    step-Hoare = record { at = λ w h. ((h.0, omega (arith, h.1)), h.1, omega arith) }

    pub step-Keeps : Keeps (On I k) step
    step-Keeps = Hoare-weaken step step-Hoare (λ n w h. h.0) (λ e w h. h)

    pub call-Keeps : Keeps (On I k) call
    unfolding call
    call-Keeps = Hoare-bind _ _ step-Keeps (λ n. obeyed-Keeps (env.os n) (On I k))

    pub check-Keeps : Keeps (On I k) check
    unfolding check
    check-Keeps = Hoare-bind _ _ step-Keeps (λ n. checked-Keeps (env.os n) (On I k))

    module _ (J : List (StagedPath × File) → Type 0) where
      pub modify-Hoare :
          (f : List (StagedPath × File) → List (StagedPath × File))
          → ((fs : List (StagedPath × File)) → I fs → J (f fs))
          → Hoare
              (On I k)
              (modify {E = Raised} (λ w. record w { files = f w.files }))
              (λ _. On J k)
              (λ (e : Raised). On I k)
      unfolding modify
      modify-Hoare f h = record { at = λ w p. (h w.files p.0, p.1) }

      pub perform-Hoare :
          (f : List (StagedPath × File) → List (StagedPath × File))
          → ((fs : List (StagedPath × File)) → I fs → J (f fs))
          → Hoare (On I k) (perform f) (λ _. On J k) (λ (e : Raised). On I k)
      unfolding perform
      perform-Hoare f h = Hoare-bind _ _ call-Keeps (λ _. modify-Hoare f h)

      pub unlink-Hoare :
          (p : StagedPath)
          → ((fs : List (StagedPath × File)) → I fs → J (remove p fs))
          → Hoare (On I k) (unlink p) (λ _. On J k) (λ (e : Raised). On I k)
      unfolding unlink
      unlink-Hoare p h = perform-Hoare (remove p) h

      pub unlink_existing-Hoare :
          (p : StagedPath)
          → ((fs : List (StagedPath × File)) → I fs → J (remove p fs))
          → Hoare (On I k) (unlink_existing p) (λ _. On J k) (λ (e : Raised). On I k)
      unfolding unlink_existing
      unlink_existing-Hoare p h = Hoare-bind _ _ (Keeps-gets _) (λ file.
          Hoare-if (is_some file) _ _ (λ _. unlink-Hoare p h)
            (λ _. Hoare-raise os_error (λ w q. q)))

    module _
        (closed : (p : StagedPath) (fs : List (StagedPath × File)) → I fs → I (remove p fs)) where
      suppressed-Keeps : {A : Type 0} (a : A) (e : Raised) → Keeps (On I k) (suppressed a e)
      suppressed-Keeps a os_error = Keeps-pure a
      suppressed-Keeps a unsafe_path = Keeps-raise unsafe_path
      suppressed-Keeps a zero_division = Keeps-raise zero_division
      suppressed-Keeps a stuck = Keeps-raise stuck
      suppressed-Keeps a (upload_error status code) = Keeps-raise (upload_error status code)

      unlink_stale-Keeps :
          (cutoff : ℕ) (p : StagedPath) (o : Option File) → Keeps (On I k) (unlink_stale cutoff p o)
      unlink_stale-Keeps cutoff p none = Keeps-raise os_error
      unlink_stale-Keeps cutoff p (some f) =
          Keeps-if (is_stale cutoff f) _ _
            (Keeps-bind _ _ (unlink_existing-Hoare I p (closed p)) (λ _. Keeps-pure true))
            (Keeps-pure false)

      sweep_entry-Keeps : (cutoff : ℕ) (p : StagedPath) → Keeps (On I k) (sweep_entry cutoff p)
      unfolding sweep_entry
      sweep_entry-Keeps cutoff (foreign n) = Keeps-pure false
      sweep_entry-Keeps cutoff (staged n) =
          Keeps-catch _ _
            (Keeps-bind _ _ call-Keeps
              (λ _. Keeps-bind _ _ (Keeps-gets _) (unlink_stale-Keeps cutoff (staged n))))
            (suppressed-Keeps false)

      sweep_entries-Keeps :
          (cutoff : ℕ) (ps : List StagedPath) (removed : Bool)
          → Keeps (On I k) (sweep_entries cutoff ps removed)
      unfolding sweep_entries
      sweep_entries-Keeps cutoff [] removed = Keeps-pure removed
      sweep_entries-Keeps cutoff (p ∷ ps) removed =
          Keeps-bind _ _ (sweep_entry-Keeps cutoff p)
            (λ now. sweep_entries-Keeps cutoff ps (removed || now))

      pub sweep_stale_uploads-Keeps : Keeps (On I k) sweep_stale_uploads
      unfolding sweep_stale_uploads
      sweep_stale_uploads-Keeps = Keeps-bind _ _ step-Keeps (λ n. Keeps-bind _ _ call-Keeps (λ _.
          Keeps-bind _ _ (Keeps-gets _) (λ entries.
            Keeps-bind _ _ (sweep_entries-Keeps _ entries false) (λ removed.
              Keeps-if removed _ _ (Keeps-catch _ _ call-Keeps (suppressed-Keeps tt)) Keeps-skip))))

  obeyed-Safe : (c : Choice) (P P' : World → Type 0) → Hoare P (obeyed c) (λ _. P) (Safe P')
  unfolding skip raise
  obeyed-Safe Choice.done P P' = record { at = λ w h. h }
  obeyed-Safe Choice.refused P P' = record { at = λ w h. tt }
  obeyed-Safe Choice.half P P' = record { at = λ w h. tt }
  obeyed-Safe Choice.unsafe P P' = record { at = λ w h. tt }

  -- A call that is refused raises an error of the system.
  pub call-Safe :
      (k : ℕ) (I : List (StagedPath × File) → Type 0) (P' : World → Type 0)
      → Hoare (On I k) call (λ _. On I k) (Safe P')
  unfolding call step
  call-Safe k I P' =
      Hoare-bind _ _ (record { at = λ w h. (h.0, omega (arith, h.1)) })
        (λ n. obeyed-Safe (env.os n) (On I k) P')

  -- So does a removal that is refused.
  pub unlink-Safe :
      (k : ℕ) (I J : List (StagedPath × File) → Type 0) (P' : World → Type 0) (p : StagedPath)
      → ((fs : List (StagedPath × File)) → I fs → J (remove p fs))
      → Hoare (On I k) (unlink p) (λ _. On J k) (Safe P')
  unfolding unlink perform
  unlink-Safe k I J P' p h = Hoare-bind _ _ (call-Safe k I P') (λ _. safely_modified)
    where
      safely_modified :
          Hoare
            (On I k)
            (modify {E = Raised} (λ w. record w { files = remove p w.files }))
            (λ _. On J k)
            (Safe P')
      safely_modified = unfold modify in record { at = λ w q. (h w.files q.0, q.1) }

  -- The number of a call is found without an error.
  pub step-Safe :
      (k : ℕ) (I : List (StagedPath × File) → Type 0) (P' : World → Type 0)
      → Hoare (On I k) step (λ _. On I k) (Safe P')
  unfolding step
  step-Safe k I P' = record { at = λ w h. (h.0, omega (arith, h.1)) }
