-- ===== src/Store/Publish/Jobs.antt =====
-- The job of an attempt, changed in place.
use hack_ef3da0e3_aib2bsaass.Base.{
  ℕ, ◌≡◌, ◌≤◌, ◌⊎◌, inl, inr, refl, sym, subst, ap, arith, List, [], ◌∷◌, ◌++◌, All, Distinct, IsIn,
  none, some, nat_eq, ◌==◌, nat_beq_iff, Bool-cases, true, false,
}
use hack_ef3da0e3_aib2bsaass.Model.Insights.{ResultBundleV1}
use hack_ef3da0e3_aib2bsaass.Model.Meeting.{MeetingRecord, JobRecord, attempts, new_job, is_nil}
use hack_ef3da0e3_aib2bsaass.Model.Meeting.Jobs.{snoc_history}
use hack_ef3da0e3_aib2bsaass.Model.Meeting.History.{IsHistory}
use hack_ef3da0e3_aib2bsaass.Store.World.{Env}
use hack_ef3da0e3_aib2bsaass.Store.Publish.{job_at, with_job, published, finished}

is_nil-with_job :
    (k : ℕ) (f : JobRecord → JobRecord) (js : List JobRecord) → is_nil (with_job k f js) ≡ false
unfolding with_job
is_nil-with_job k f [] = refl
is_nil-with_job k f (j ∷ js) = ground arith

module _ (k : ℕ) (f : JobRecord → JobRecord)
    (same : (j : JobRecord) → (f j).attempt ≡ j.attempt) where
  -- The attempts stay, or the attempt is new and comes last.
  attempts-with_job :
      (js : List JobRecord)
      → (attempts (with_job k f js) ≡ attempts js)
        ⊎ ((¬ IsIn k (attempts js)) × (attempts (with_job k f js) ≡ attempts js ++ k ∷ []))
  unfolding with_job
  attempts-with_job [] = inr ((λ m. m), ap (λ a. a ∷ []) (same (new_job k none)))
  attempts-with_job (j ∷ js) = elim (Bool-cases (j.attempt == k)) [
    | inl here ↦ inl (rw here (ap (λ a. a ∷ attempts js) (same j)))
    | inr other ↦ elim (attempts-with_job js) [
      | inl e ↦ inl (rw other (ap (λ l. j.attempt ∷ l) e))
      | inr (new, e) ↦ inr (
        (λ m. elim m [ inl p ↦ ground (arith, p, other) | inr p ↦ new p ]),
        rw other (ap (λ l. j.attempt ∷ l) e),
      )
    ]
  ]

  -- The job of the attempt is the changed one afterwards.
  pub job_at-with_job :
      (js : List JobRecord)
      → (j : JobRecord) × (job_at k (with_job k f js) ≡ some (f j)) × (j.attempt ≡ k)
  unfolding job_at with_job
  job_at-with_job [] =
      (new_job k none, (rw (same (new_job k none), (nat_beq_iff k k).1 refl) refl), refl)
  job_at-with_job (j ∷ js) = elim (Bool-cases (j.attempt == k)) [
    | inl here ↦ (j, (rw (here, same j, here) refl), (nat_beq_iff j.attempt k).0 here)
    | inr other ↦ let (j', p, q) = job_at-with_job js in (j', (rw (other, other) p), q)
  ]

  -- Changing the job of attempt `k` keeps the attempts distinct and at most `m`.
  with_job-history :
      (m : ℕ) (js : List JobRecord)
      → k ≤ m
      → Distinct (attempts js)
      → All (λ a. a ≤ m) (attempts js)
      → Distinct (attempts (with_job k f js)) × All (λ a. a ≤ m) (attempts (with_job k f js))
  with_job-history m js b d p = elim (attempts-with_job js) [
    | inl e ↦ (subst Distinct (sym e) d, subst (All (λ a. a ≤ m)) (sym e) p)
    | inr (new, e) ↦
        let (d', p') = snoc_history m k (attempts js) new b d p in
        (subst Distinct (sym e) d', subst (All (λ a. a ≤ m)) (sym e) p')
  ]

-- Where the record has a well-formed job history, the record that is written with the results has
-- one, and the job of its attempt has the job ID and the hash of the bundle and awaits its
-- acknowledgement.
pub published_lem :
    ⦃env : Env⦄ (b : ResultBundleV1) (t : ℕ) (r : MeetingRecord)
    → IsHistory r
    → IsHistory (published b t r)
      × ((j : JobRecord) × (job_at r.meeting.attempt (published b t r).jobs ≡ some j)
          × (j.job_id ≡ some b.job_id)
          × (j.result_hash ≡ some b.result_hash)
          × (j.ack_pending ≡ true))
published_lem b t r h =
    let k = r.meeting.attempt in
    let (distinct, past) =
      with_job-history k (finished b) (λ j. refl) k r.jobs (omega arith) h.distinct h.past in
    let (j, found, same) = job_at-with_job k (finished b) (λ j. refl) r.jobs in
    (
      record { has_job = is_nil-with_job k (finished b) r.jobs; distinct = distinct; past = past },
      (finished b j, found, refl, refl, refl),
    )
