-- ===== src/Store/Publish/Faultless.antt =====
-- On a system that does every call, the first publication of a result returns its manifest.
use hack_ef3da0e3_aib2bsaass.Base.{
  ℕ, ◌≡◌, refl, sym, ap, ◌∙◌, subst, Bool, true, false, not, ◌||◌, none, some, Option, is_some,
  arith, nat_eq, list_eq, ◌==◌, list_beq_iff,
}
use hack_ef3da0e3_aib2bsaass.Base.Exec.{gets, skip, raise, pure}
use hack_ef3da0e3_aib2bsaass.Base.Exec.Hoare.{
  Hoare, Post, Hoare-bind, Hoare-if, Hoare-strengthen, Hoare-gets, Hoare-pure, Hoare-catch,
}
use hack_ef3da0e3_aib2bsaass.Model.Insights.{ResultBundleV1, valid_bundle}
use hack_ef3da0e3_aib2bsaass.Model.Meeting.{MeetingRecord, ReadyManifest}
use hack_ef3da0e3_aib2bsaass.Store.World.{
  Env, World, M, Raised, done, Artifact, Name, Files, live, meeting_json, manifest_json,
  transcript_json, insights_json, transcript_txt, write, name_beq, file_not_found,
  meeting_not_found, artifact_integrity, validation_error,
}
use hack_ef3da0e3_aib2bsaass.Store.Files.{touch, exists, read_file, atomic_write, or_raise}
use hack_ef3da0e3_aib2bsaass.Store.Files.Faultless.{
  IsFaultless, touch-IsFaultless, exists-IsFaultless, atomic_write-IsFaultless,
}
use hack_ef3da0e3_aib2bsaass.Store.Records.{now, read_record, parse_record, or_missing}
use hack_ef3da0e3_aib2bsaass.Store.Records.Reads.{Stored}
use hack_ef3da0e3_aib2bsaass.Store.Committed.{write-other, write_self}
use hack_ef3da0e3_aib2bsaass.Store.Publish.{
  original, publish_artifact, publish_first, publish_again, publish_stored, publish_results,
  manifest_of, published, other_job, job_at,
}

module _ ⦃env : Env⦄ where
  -- a value that is known, for the rest of a method
  pub known :
      {A B : Type 0} {P : World → Type 0} {Q : B → World → Type 0} {R : Raised → World → Type 0}
      (f : A → M B) (b : A)
      → Hoare P (f b) Q R
      → (a : A) → Hoare (λ w. (a ≡ b) × P w) (f a) Q R
  known {Q} {R} f b h a = record {
    at = λ w p. subst (λ x. Post Q R (f x w)) (sym p.0) (h.at w p.1);
  }

  or_raise-known :
      {A : Type 0} (P : World → Type 0) (e : Raised) (o : Option A) (a : A)
      → o ≡ some a
      → Hoare P (or_raise e o) (λ x w. (x ≡ a) × P w) (λ e w. ⊥)
  unfolding pure raise
  or_raise-known P e none a h = cc (h)
  or_raise-known P e (some b) a h = record { at = λ w p. (ground (arith, h), p) }

  module _ (f : Files) where
    pub read_file-known :
        (n : Name) (b : env.Bytes)
        → f n ≡ some b
        → Hoare (IsFaultless f) (read_file n) (λ x w. (x ≡ b) × IsFaultless f w) (λ e w. ⊥)
    unfolding read_file
    read_file-known n b h = Hoare-bind touch _ (touch-IsFaultless f) λ _.
        Hoare-bind touch _ (touch-IsFaultless f) λ _.
          Hoare-bind (gets (λ w. w.files n)) (or_raise file_not_found)
            (Hoare-gets (λ w. w.files n) (λ w p. (ap (λ g. g n) p.folder ∙ h, p)))
            (known (or_raise file_not_found) (some b)
              (or_raise-known (IsFaultless f) file_not_found (some b) b refl))

    pub read_record-known :
        (o k : ℕ) (r : MeetingRecord)
        → Stored f o k r
        → Hoare (IsFaultless f) (read_record o k) (λ x w. (x ≡ r) × IsFaultless f w) (λ e w. ⊥)
    unfolding read_record
    read_record-known o k r s = Hoare-bind touch _ (touch-IsFaultless f) λ _.
        Hoare-bind _ _
          (Hoare-catch (read_file (live meeting_json)) (or_missing meeting_not_found)
            (read_file-known (live meeting_json) s.bytes s.at_name)
            (λ e. record { at = λ w h. absurd h }))
          (known _ s.bytes (
            Hoare-bind _ _
              (or_raise-known (IsFaultless f) artifact_integrity (parse_record s.bytes) r s.parsed)
              (known _ r (
                Hoare-if (not (r.owner_id == o) || not (r.meeting.id == k))
                  (raise meeting_not_found) (pure r) (λ bad. absurd (clash bad))
                  (λ good. Hoare-pure r (λ w h. (refl, h)))))))
      where
        clash : (not (r.owner_id == o) || not (r.meeting.id == k)) ≡ true → ⊥
        clash bad = ground (arith, bad, s.owner, s.meeting)

  module _ (f : Files) where
    publish_artifact-IsFaultless :
        (b : ResultBundleV1) (a : Artifact)
        → f (live a) ≡ none
        → Hoare
            (IsFaultless f)
            (publish_artifact b a)
            (λ u. IsFaultless (write (live a) (original b a) f))
            (λ e w. ⊥)
    unfolding publish_artifact
    publish_artifact-IsFaultless b a new =
        Hoare-bind (atomic_write (live a) (original b a) true) _
          (atomic_write-IsFaultless f (live a) (original b a) true (ap is_some new))
          λ _.
            Hoare-bind (read_file (live a)) _
              (read_file-known (write (live a) (original b a) f) (live a) (original b a)
                (write_self (live a) (original b a) f))
              (known _ (original b a) (
                Hoare-if (env.sha256 (original b a) == env.sha256 (original b a)) skip
                  (raise artifact_integrity) (λ same. unfold skip in record { at = λ w h. h })
                  (λ other. absurd (clash other))))
      where
        clash : (env.sha256 (original b a) == env.sha256 (original b a)) ≡ false → ⊥
        clash other =
            let same =
              (list_beq_iff (env.sha256 (original b a)) (env.sha256 (original b a))).1 refl in
            cc (same, other)

  now-IsFaultless : (f : Files) → Hoare (IsFaultless f) now (λ t w. IsFaultless f w) (λ e w. ⊥)
  unfolding now
  now-IsFaultless f = record { at = λ w h. record { calls_done = h.calls_done; folder = h.folder } }

  -- None of the files of a published result is there.
  pub record IsUnpublished (f : Files) : Type 0 where
    pub manifest : f (live manifest_json) ≡ none
    pub transcript : f (live transcript_json) ≡ none
    pub insights : f (live insights_json) ≡ none
    pub text : f (live transcript_txt) ≡ none

  module _ (f : Files) (o k : ℕ) (b : ResultBundleV1) (r : MeetingRecord)
      (new : IsUnpublished f) where
    abbrev Returned : ReadyManifest → World → Type 0
    Returned m w = m ≡ manifest_of o k r.meeting.attempt b

    one : Files
    one = write (live transcript_json) (original b transcript_json) f

    two : Files
    two = write (live insights_json) (original b insights_json) one

    three : Files
    three = write (live transcript_txt) (original b transcript_txt) two

    publish_first-returns : Hoare (IsFaultless f) (publish_first o k b r) Returned (λ e w. ⊥)
    unfolding publish_first name_beq one two three
    publish_first-returns =
        let m = manifest_of o k r.meeting.attempt b in
        Hoare-bind (publish_artifact b transcript_json) _
          (publish_artifact-IsFaultless f b transcript_json new.transcript)
          λ _.
            Hoare-bind (publish_artifact b insights_json) _
              (publish_artifact-IsFaultless one b insights_json
                (write-other (live transcript_json) (live insights_json) _ f refl ∙ new.insights))
              λ _.
                Hoare-bind (publish_artifact b transcript_txt) _
                  (publish_artifact-IsFaultless two b transcript_txt (
                    write-other (live insights_json) (live transcript_txt) _ one refl
                    ∙ write-other (live transcript_json) (live transcript_txt) _ f refl
                    ∙ new.text))
                  λ _. Hoare-bind now _ (now-IsFaultless three) λ t.
                    Hoare-bind _ _
                      (atomic_write-IsFaultless three (live meeting_json)
                        (env.encode_record (published b t r)) false refl)
                      λ _.
                        Hoare-bind _ _
                          (atomic_write-IsFaultless
                            (write (live meeting_json) (env.encode_record (published b t r)) three)
                            (live manifest_json) (env.encode_manifest m) true
                            (ap is_some (
                              write-other (live meeting_json) (live manifest_json) _ three refl
                              ∙ write-other (live transcript_txt) (live manifest_json) _ two refl
                              ∙ write-other (live insights_json) (live manifest_json) _ one refl
                              ∙ write-other (live transcript_json) (live manifest_json) _ f refl
                              ∙ new.manifest)))
                          λ _. Hoare-pure m (λ w h. refl)

    publish_stored-returns : Hoare (IsFaultless f) (publish_stored o k b r) Returned (λ e w. ⊥)
    unfolding publish_stored
    publish_stored-returns = Hoare-bind touch _ (touch-IsFaultless f) λ _.
        Hoare-bind touch _ (touch-IsFaultless f) λ _.
          Hoare-bind (exists (live manifest_json)) _ (exists-IsFaultless f (live manifest_json))
            λ present.
              Hoare-if present (publish_again o k b) (publish_first o k b r)
                (λ there. record { at = λ w h. absurd (clash present there h.1) })
                (λ gone.
                  Hoare-strengthen (publish_first o k b r) (λ w h. h.0) publish_first-returns)
      where
        clash : (present : Bool) → present ≡ true → present ≡ is_some (f (live manifest_json)) → ⊥
        clash present there same = let e = ap is_some new.manifest in cc (there, same, e)

    publish_results-returns :
        Stored f o k r
        → valid_bundle env.digest b ≡ true
        → b.transcript.meeting_id ≡ k
        → other_job (job_at r.meeting.attempt r.jobs) b.job_id ≡ false
        → Hoare (IsFaultless f) (publish_results o k b) Returned (λ e w. ⊥)
    unfolding publish_results
    publish_results-returns s valid same mine =
        Hoare-if (not (valid_bundle env.digest b)) (raise validation_error) _
          (λ bad. absurd (ground (arith, bad, valid)))
          (λ good. Hoare-bind (read_record o k) _ (read_record-known f o k r s) (
            known _ r (
              Hoare-if
                (not (b.transcript.meeting_id == k)
                  || other_job (job_at r.meeting.attempt r.jobs) b.job_id)
                (raise artifact_integrity) (publish_stored o k b r)
                (λ bad. absurd (ground (arith, bad, same, mine)))
                (λ good. publish_stored-returns))))

  -- On a system that does every call, publication returns the manifest of the bundle, where the
  -- stored record is of this owner and meeting, the bundle is valid, of this meeting and of no other
  -- job than the record's, and neither a manifest nor an original is there.
  pub publish_results-done :
      (o k : ℕ) (b : ResultBundleV1) (r : MeetingRecord) (w : World)
      → ((n : ℕ) → w.os n ≡ done)
      → Stored w.files o k r
      → IsUnpublished w.files
      → valid_bundle env.digest b ≡ true
      → b.transcript.meeting_id ≡ k
      → other_job (job_at r.meeting.attempt r.jobs) b.job_id ≡ false
      → Post (λ m v. m ≡ manifest_of o k r.meeting.attempt b) (λ e v. ⊥) (publish_results o k b w)
  publish_results-done o k b r w calls s new valid same mine =
      (publish_results-returns w.files o k b r new s valid same mine).at w
        (record { calls_done = calls; folder = refl })
