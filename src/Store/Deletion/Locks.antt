-- ===== src/Store/Deletion/Locks.antt =====
-- What runs under the lifecycle lock, with the reading and the opening before it.
use hack_ef3da0e3_aib2bsaass.Base.{ℕ, List}
use hack_ef3da0e3_aib2bsaass.Base.Exec.{catch}
use hack_ef3da0e3_aib2bsaass.Base.Exec.Hoare.{
  Hoare, Keeps, Hoare-bind, Hoare-finally, Hoare-weaken, Keeps-catch,
}
use hack_ef3da0e3_aib2bsaass.Store.World.{Env, Files, Sent, Raised, World, M, meeting_not_found}
use hack_ef3da0e3_aib2bsaass.Store.Files.{touch, sync}
use hack_ef3da0e3_aib2bsaass.Store.Files.Laws.{View, On, touch-Keeps, sync-Keeps}
use hack_ef3da0e3_aib2bsaass.Store.Records.{or_missing, read_record}
use hack_ef3da0e3_aib2bsaass.Store.Records.Reading.{or_missing-Keeps, read_record-Keeps}
use hack_ef3da0e3_aib2bsaass.Store.Deletion.{under_lifecycle_lock}

module _ ⦃env : Env⦄ where
  -- The lock is taken first, and while it is taken every property of the folder stays.
  pub under_lifecycle_lock-Locked :
      {A : Type 0} (I K : View) (Q : A → World → Type 0) (o k : ℕ) (body : M A)
      → ((f : Files) (s : List Sent) → I f s → K f s)
      → Hoare (On I) body Q (λ e. On K)
      → ((a : A) → Hoare (Q a) sync (λ u. Q a) (λ e. On K))
      → Hoare (On I) (under_lifecycle_lock o k body) Q (λ e. On K)
  unfolding under_lifecycle_lock
  under_lifecycle_lock-Locked I K Q o k body toK h q =
      let escape : (e : Raised) (w : World) → On I w → On K w = λ e w p. toK w.files w.sent p in
      Hoare-bind (read_record o k) _
        (Hoare-weaken (read_record o k) (read_record-Keeps I o k) (λ r w p. p) escape)
        λ _. Hoare-bind touch _ (Hoare-weaken touch (touch-Keeps I) (λ u w p. p) escape) λ _.
          Hoare-bind (catch touch (or_missing meeting_not_found)) _
            (Hoare-weaken _
              (Keeps-catch touch _ (touch-Keeps I) (or_missing-Keeps I meeting_not_found))
              (λ u w p. p) escape)
            λ _. Hoare-finally body sync h q (sync-Keeps K)

  pub under_lifecycle_lock-Hoare :
      {A : Type 0} (I : View) (Q : A → World → Type 0) (o k : ℕ) (body : M A)
      → Hoare (On I) body Q (λ e. On I)
      → ((a : A) → Hoare (Q a) sync (λ u. Q a) (λ e. On I))
      → Hoare (On I) (under_lifecycle_lock o k body) Q (λ e. On I)
  under_lifecycle_lock-Hoare I Q o k body = under_lifecycle_lock-Locked I I Q o k body (λ f s h. h)

  pub under_lifecycle_lock-Keeps :
      {A : Type 0} (I : View) (o k : ℕ) (body : M A)
      → Keeps (On I) body
      → Keeps (On I) (under_lifecycle_lock o k body)
  under_lifecycle_lock-Keeps I o k body h =
      under_lifecycle_lock-Hoare I (λ a. On I) o k body h (λ a. sync-Keeps I)
