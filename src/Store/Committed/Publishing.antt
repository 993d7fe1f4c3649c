-- ===== src/Store/Committed/Publishing.antt =====
-- `publish_results` commits: where it returns, the manifest on disk is the one that it returns,
-- over its originals; where it fails, the folder is still committed.
use hack_ef3da0e3_aib2bsaass.Base.{
  ℕ, ◌≡◌, refl, ◌∙◌, true, false, Option, none, some, List, [], ◌∷◌, arith, not, list_beq_iff,
  list_eq, ◌==◌, leb, is_some, nat_eq, ◌||◌,
}
use hack_ef3da0e3_aib2bsaass.Base.Exec.{raise, for_each}
use hack_ef3da0e3_aib2bsaass.Base.Exec.Hoare.{
  Hoare, Post, Hoare-bind, Hoare-if, Hoare-weaken, Hoare-strengthen, Keeps-for_each, Hoare-pure,
  Hoare-raise, Hoare-given,
}
use hack_ef3da0e3_aib2bsaass.Model.Insights.{ResultBundleV1, valid_bundle}
use hack_ef3da0e3_aib2bsaass.Model.Meeting.{MeetingRecord, ReadyManifest}
use hack_ef3da0e3_aib2bsaass.Store.World.{
  Env, World, IsCodec, Artifact, live, meeting_json, manifest_json, transcript_json, insights_json,
  transcript_txt, name_beq, artifact_integrity, validation_error,
}
use hack_ef3da0e3_aib2bsaass.Store.Files.{touch, exists, atomic_write}
use hack_ef3da0e3_aib2bsaass.Store.Files.Laws.{
  View, On, touch-Keeps, exists-Hoare, atomic_write-Hoare,
}
use hack_ef3da0e3_aib2bsaass.Store.Records.{now, read_record, read_manifest, read_results}
use hack_ef3da0e3_aib2bsaass.Store.Records.Reading.{read_results-Keeps, now-Keeps}
use hack_ef3da0e3_aib2bsaass.Store.Records.Reads.{Marked, read_record-Hoare, read_manifest-Hoare}
use hack_ef3da0e3_aib2bsaass.Store.Publish.{
  publish_artifact, confirm_results, publish_again, publish_first, publish_stored, publish_results,
  other_job, job_at, published, manifest_of,
}
use hack_ef3da0e3_aib2bsaass.Store.Committed.{IsCommitted, Committed}
use hack_ef3da0e3_aib2bsaass.Store.Committed.Staging.{
  Staged, all_three, staged_committed, staged_atomic, publish_artifact-Hoare,
}
use hack_ef3da0e3_aib2bsaass.Store.Committed.Marking.{
  IsPublished, Published, commit, manifest_of-valid, Stored-attempt,
}

module _ ⦃env : Env⦄ where
  module _ (codec : IsCodec env) (o k : ℕ) (b : ResultBundleV1) where
    publish_first-Hoare :
        (r : MeetingRecord)
        → valid_bundle env.digest b ≡ true
        → leb 1 r.meeting.attempt ≡ true
        → Hoare
            (On (Staged b []))
            (publish_first o k b r)
            (λ m. On (Published o k b.result_hash m))
            (λ e. On Committed)
    unfolding publish_first name_beq
    publish_first-Hoare r v p =
        let m = manifest_of o k r.meeting.attempt b in
        Hoare-bind (publish_artifact b transcript_json) _
          (publish_artifact-Hoare b transcript_json [] refl)
          λ _.
            Hoare-bind (publish_artifact b insights_json) _
              (publish_artifact-Hoare b insights_json (transcript_json ∷ []) (refl, refl))
              λ _.
                Hoare-bind (publish_artifact b transcript_txt) _
                  (publish_artifact-Hoare b transcript_txt (insights_json ∷ transcript_json ∷ [])
                    (refl, (refl, refl)))
                  λ _.
                    Hoare-bind now _
                      (Hoare-weaken now (now-Keeps (Staged b all_three)) (λ t w h. h)
                        (λ e w h. staged_committed b all_three w.files w.sent h))
                      λ t.
                        Hoare-bind
                          (atomic_write (live meeting_json) (env.encode_record (published b t r))
                            false)
                          _
                          (staged_atomic b (live meeting_json) (env.encode_record (published b t r))
                            false all_three (refl, (refl, (refl, refl))))
                          λ _.
                            Hoare-bind
                              (atomic_write (live manifest_json) (env.encode_manifest m) true) _
                              (atomic_write-Hoare (Staged b all_three)
                                (Published o k b.result_hash m) Committed (live manifest_json)
                                (env.encode_manifest m) true
                                (λ f s h new.
                                  commit codec o k r.meeting.attempt b f
                                    (manifest_of-valid codec o k r.meeting.attempt b v p) h.1)
                                (λ f s h same. cc (h.0)) (staged_committed b all_three)
                                (λ f s h. h.committed))
                              λ _. Hoare-pure m (λ w h. h)

    confirm_results-Hoare :
        (m : ReadyManifest)
        → m.result_hash ≡ b.result_hash
        → Hoare
            (On (λ f s. Committed f s × Marked f o k m))
            (confirm_results o k m)
            (λ m'. On (Published o k b.result_hash m'))
            (λ e. On Committed)
    unfolding confirm_results
    confirm_results-Hoare m same =
        let I : View = λ f s. Committed f s × Marked f o k m in
        Hoare-bind (read_results o k) _
          (Hoare-weaken (read_results o k) (read_results-Keeps I o k) (λ x w h. h) (λ e w h. h.0))
          λ _.
            Hoare-bind (for_each names (λ name. touch)) _
              (Hoare-weaken _ (Keeps-for_each names (λ name. touch) (λ a. touch-Keeps I))
                (λ x w h. h) (λ e w h. h.0))
              λ _.
                Hoare-bind touch _ (Hoare-weaken touch (touch-Keeps I) (λ x w h. h) (λ e w h. h.0))
                  λ _.
                    Hoare-pure m
                      (λ w h. record { committed = h.0; marked = h.1; same_result = same })
      where
        names : List Artifact
        names = transcript_json ∷ insights_json ∷ transcript_txt ∷ meeting_json ∷ manifest_json ∷ []

    publish_again-Hoare :
        Hoare
          (On Committed)
          (publish_again o k b)
          (λ m. On (Published o k b.result_hash m))
          (λ e. On Committed)
    unfolding publish_again
    publish_again-Hoare = Hoare-bind (read_manifest o k) _ (read_manifest-Hoare Committed o k) λ m.
        Hoare-if (not (m.result_hash == b.result_hash)) (raise artifact_integrity)
          (confirm_results o k m) (λ other. Hoare-raise artifact_integrity (λ w h. h.0))
          (λ same. confirm_results-Hoare m (agreed m same))
      where
        agreed :
            (m : ReadyManifest)
            → not (m.result_hash == b.result_hash) ≡ false
            → m.result_hash ≡ b.result_hash
        agreed m h = ground (arith, h, (list_beq_iff m.result_hash b.result_hash).0)

    publish_stored-Hoare :
        (r : MeetingRecord)
        → valid_bundle env.digest b ≡ true
        → leb 1 r.meeting.attempt ≡ true
        → Hoare
            (On Committed)
            (publish_stored o k b r)
            (λ m. On (Published o k b.result_hash m))
            (λ e. On Committed)
    unfolding publish_stored
    publish_stored-Hoare r v p = Hoare-bind touch _ (touch-Keeps Committed) λ _.
        Hoare-bind touch _ (touch-Keeps Committed) λ _.
          Hoare-bind (exists (live manifest_json)) _
            (Hoare-weaken _ (exists-Hoare Committed (live manifest_json)) (λ b w h. h) (λ e w h. h))
            λ present.
              Hoare-if present (publish_again o k b) (publish_first o k b r)
                (λ there. Hoare-strengthen _ (λ w h. h.0) publish_again-Hoare)
                (λ gone.
                  Hoare-strengthen _
                    (λ w h. (absent (w.files (live manifest_json)) (h.1 ∙ gone), tt))
                    (publish_first-Hoare r v p))
      where
        absent : (x : Option env.Bytes) → is_some x ≡ false → x ≡ none
        absent none h = refl
        absent (some y) h = cc

    pub publish_results-Hoare :
        Hoare
          (On Committed)
          (publish_results o k b)
          (λ m. On (Published o k b.result_hash m))
          (λ e. On Committed)
    unfolding publish_results
    publish_results-Hoare =
        Hoare-if (not (valid_bundle env.digest b)) (raise validation_error) _
          (λ bad. Hoare-raise validation_error (λ w h. h))
          (λ good. Hoare-bind (read_record o k) _ (read_record-Hoare Committed o k) λ r.
            Hoare-if
              (not (b.transcript.meeting_id == k)
                || other_job (job_at r.meeting.attempt r.jobs) b.job_id)
              (raise artifact_integrity) (publish_stored o k b r)
              (λ other. Hoare-raise artifact_integrity (λ w h. h.0))
              (λ mine.
                Hoare-given (publish_stored o k b r) (λ w h. Stored-attempt w.files o k r h.1)
                  λ p. Hoare-strengthen _ (λ w h. h.0) (publish_stored-Hoare r (valid good) p)))
      where
        valid : not (valid_bundle env.digest b) ≡ false → valid_bundle env.digest b ≡ true
        valid h = ground arith

    -- From a committed folder, publication ends in a committed folder whatever the system and the
    -- clock answer; where it returns a manifest, that is the manifest on disk, of this owner and
    -- meeting and with the result hash of the bundle. What was written is read back, and a SHA-256
    -- is 64 hexadecimal digits.
    pub publish_results_lem :
        (w : World)
        → IsCommitted w.files
        → Post
            (λ m v. IsPublished v.files o k b.result_hash m)
            (λ e v. IsCommitted v.files)
            (publish_results o k b w)
    publish_results_lem w h = publish_results-Hoare.at w h
