-- ===== src/Review/Service/Commits.antt =====
-- What an export takes from reviews keeps the folder as it is, or committed: the reading of the
-- current revision, and the removal of a cached PDF.
use hack_ef3da0e3_aib2bsaass.Base.{ℕ, ok, err, refl, Result}
use hack_ef3da0e3_aib2bsaass.Base.Exec.Hoare.{Keeps}
use hack_ef3da0e3_aib2bsaass.Model.Transcript.{TranscriptV1}
use hack_ef3da0e3_aib2bsaass.Model.Insights.{InsightsV1}
use hack_ef3da0e3_aib2bsaass.Model.Meeting.{Meeting}
use hack_ef3da0e3_aib2bsaass.Review.Overlay.{ReviewError}
use hack_ef3da0e3_aib2bsaass.Review.Service.{
  review_path, snapshot_path, overlaid, read_revision, unreadable_review, read_current_locked,
}
use hack_ef3da0e3_aib2bsaass.Store.World.{
  Env, Raised, file_not_found, validation_error, review_invalid, name_beq, snapshot, pdf,
  pdf_marker, review_json,
}
use hack_ef3da0e3_aib2bsaass.Store.Files.Laws.{View, On}
use hack_ef3da0e3_aib2bsaass.Store.Records.Reading.{
  reading_rules, read_record-Keeps, read_results-Keeps, now-Keeps,
}
use hack_ef3da0e3_aib2bsaass.Store.Cache.{pdf_path, delete_pdf_cache}
use hack_ef3da0e3_aib2bsaass.Store.Committed.{Committed, IsAside}
use hack_ef3da0e3_aib2bsaass.Store.Committed.Keeping.{
  aside-Keeps, unlink_aside-Keeps, update_meeting-Keeps,
}

module _ ⦃env : Env⦄ where
  snapshot-IsAside : (n : ℕ) → IsAside (snapshot n)
  unfolding name_beq
  snapshot-IsAside n = record { manifest = refl; transcript = refl; insights = refl; text = refl }

  pub pdf-IsAside : (n : ℕ) → IsAside (pdf n)
  unfolding name_beq
  pdf-IsAside n = record { manifest = refl; transcript = refl; insights = refl; text = refl }

  pub pdf_marker-IsAside : (n : ℕ) → IsAside (pdf_marker n)
  unfolding name_beq
  pdf_marker-IsAside n = record { manifest = refl; transcript = refl; insights = refl; text = refl }

  review_json-IsAside : IsAside review_json
  unfolding name_beq
  review_json-IsAside = record { manifest = refl; transcript = refl; insights = refl; text = refl }

  ruleset review_rules = (
    reading_rules, aside-Keeps, unlink_aside-Keeps, snapshot-IsAside, pdf-IsAside,
    pdf_marker-IsAside, review_json-IsAside, update_meeting-Keeps, read_record-Keeps,
    read_results-Keeps, now-Keeps,
  )

  module _ (I : View) where
    review_path-Keeps : (o k : ℕ) → Keeps (On I) (review_path o k)
    unfolding review_path
    review_path-Keeps o k = search (reading_rules, read_record-Keeps) depth 12

    snapshot_path-Keeps : (o k : ℕ) → Keeps (On I) (snapshot_path o k)
    unfolding snapshot_path
    snapshot_path-Keeps o k = search (reading_rules, review_path-Keeps) depth 12

    overlaid-Keeps :
        (r : Result ReviewError (TranscriptV1 × InsightsV1)) → Keeps (On I) (overlaid r)
    overlaid-Keeps (ok r) = search reading_rules
    overlaid-Keeps (err e) = search reading_rules

    read_revision-Keeps : (o k n : ℕ) (t : TranscriptV1) → Keeps (On I) (read_revision o k n t)
    unfolding read_revision
    read_revision-Keeps o k n t =
        search (reading_rules, snapshot_path-Keeps, overlaid-Keeps) depth 16

    unreadable_review-Keeps : (e : Raised) → Keeps (On I) (unreadable_review e)
    unreadable_review-Keeps file_not_found = search reading_rules
    unreadable_review-Keeps validation_error = search reading_rules
    unreadable_review-Keeps (review_invalid e) = search reading_rules
    unreadable_review-Keeps e = search reading_rules

    pub read_current_locked-Keeps :
        (o k : ℕ) (m : Meeting) → Keeps (On I) (read_current_locked o k m)
    unfolding read_current_locked
    read_current_locked-Keeps o k m =
        search (reading_rules, read_results-Keeps, read_revision-Keeps, unreadable_review-Keeps)
          depth 16

  pub delete_pdf_cache-Keeps : (o k n : ℕ) → Keeps (On Committed) (delete_pdf_cache o k n)
  unfolding delete_pdf_cache pdf_path
  delete_pdf_cache-Keeps o k n = search review_rules depth 16
