-- ===== src/Tests/Examples.antt =====
-- The theorems about data at concrete inputs.
use hack_ef3da0e3_aib2bsaass.Base.{
  ◌≡◌, ◌≢◌, ◌↔◌, refl, true, none, some, All, ok, sorted, set_of, last_by, nat_eq,
}
use hack_ef3da0e3_aib2bsaass.Model.Text.{non_empty_text, is_speaker_id, is_space}
use hack_ef3da0e3_aib2bsaass.Model.Transcript.{valid_references, valid_segment, model_validate}
use hack_ef3da0e3_aib2bsaass.Model.Transcript.References.{IsCoherent, valid_references_iff}
use hack_ef3da0e3_aib2bsaass.Model.Insights.{
  fits, unique_ids, validate_against, valid_machine_bundle,
}
use hack_ef3da0e3_aib2bsaass.Model.Insights.Grounding.{IsGrounded, validate_against_iff}
use hack_ef3da0e3_aib2bsaass.Model.Insights.Machine.{IsMachine, valid_machine_bundle_iff}
use hack_ef3da0e3_aib2bsaass.Model.Meeting.{JobRecord, deleted, pending, valid_job_history}
use hack_ef3da0e3_aib2bsaass.Model.Meeting.History.{IsHistory, valid_job_history_iff}
use hack_ef3da0e3_aib2bsaass.Model.Gpu.{valid_stage, IsConsistent, valid_stage_iff}
use hack_ef3da0e3_aib2bsaass.Review.Overlay.{
  overlay, edited_transcript, reviewed_insights, valid_edit, apply_edits, edit_of,
}
use hack_ef3da0e3_aib2bsaass.Review.Overlay.Coherence.{
  IsFitting, HasDistinctIds, edited_transcript-IsCoherent, overlay_iff,
}
use hack_ef3da0e3_aib2bsaass.Store.Publish.{published, job_at}
use hack_ef3da0e3_aib2bsaass.Store.Publish.Jobs.{published_lem}
use hack_ef3da0e3_aib2bsaass.Lifecycle.{retried}
use hack_ef3da0e3_aib2bsaass.Lifecycle.Attempts.{retried-IsHistory}
use hack_ef3da0e3_aib2bsaass.Coordinator.Cleanup.{statuses, cleanup_status_of}
use hack_ef3da0e3_aib2bsaass.Coordinator.Cleanup.Status.{cleanup_status_of_lem}
use hack_ef3da0e3_aib2bsaass.Tests.Concrete.{
  failed_record, hash, transcript, insights, bundle, snapshot, env, completed,
}

-- the review is accepted
overlaid :
    overlay transcript snapshot
    ≡ ok (edited_transcript transcript snapshot, reviewed_insights transcript snapshot)
unfolding overlay set_of last_by edited_transcript apply_edits edit_of model_validate valid_segment
    valid_references is_speaker_id non_empty_text is_space sorted unique_ids validate_against fits
    reviewed_insights
overlaid = refl

transcript-IsCoherent : IsCoherent transcript
unfolding valid_references set_of sorted
transcript-IsCoherent = (valid_references_iff transcript).0 refl

segments_valid : All (λ x. valid_segment x ≡ true) transcript.segments
unfolding valid_segment is_speaker_id non_empty_text is_space
segments_valid = (refl, (refl, tt))

edits_valid : All (λ e. valid_edit e ≡ true) snapshot.segment_edits
unfolding valid_edit is_speaker_id
edits_valid = (refl, tt)

valid_references_iff_example : (valid_references transcript ≡ none) ↔ IsCoherent transcript
valid_references_iff_example = valid_references_iff transcript

validate_against_iff_example :
    (validate_against insights transcript ≡ none) ↔ IsGrounded transcript insights
validate_against_iff_example =
    validate_against_iff insights transcript transcript-IsCoherent.distinct_segments

valid_machine_bundle_iff_example :
    (valid_machine_bundle env.digest bundle ≡ none) ↔ IsMachine env.digest bundle
valid_machine_bundle_iff_example =
    valid_machine_bundle_iff env.digest bundle transcript-IsCoherent.distinct_segments

overlay_iff_example :
    (overlay transcript snapshot
      ≡ ok (edited_transcript transcript snapshot, reviewed_insights transcript snapshot))
    ↔ (IsFitting transcript snapshot
        × HasDistinctIds (reviewed_insights transcript snapshot)
        × IsGrounded
            (edited_transcript transcript snapshot)
            (reviewed_insights transcript snapshot))
overlay_iff_example =
    overlay_iff transcript snapshot transcript-IsCoherent segments_valid edits_valid

snapshot-IsFitting : IsFitting transcript snapshot
snapshot-IsFitting =
    ((overlay_iff transcript snapshot transcript-IsCoherent segments_valid edits_valid).0
      overlaid).0

edited_transcript-IsCoherent_example : IsCoherent (edited_transcript transcript snapshot)
edited_transcript-IsCoherent_example =
    edited_transcript-IsCoherent transcript snapshot transcript-IsCoherent snapshot-IsFitting

valid_stage_iff_example : (valid_stage (completed hash) ≡ none) ↔ IsConsistent (completed hash)
valid_stage_iff_example = valid_stage_iff (completed hash)

valid_job_history_iff_example : (valid_job_history failed_record ≡ true) ↔ IsHistory failed_record
valid_job_history_iff_example = valid_job_history_iff failed_record

failed_record-IsHistory : IsHistory failed_record
unfolding valid_job_history set_of
failed_record-IsHistory = (valid_job_history_iff failed_record).0 refl

retried-IsHistory_example : IsHistory (retried 30 failed_record)
retried-IsHistory_example = retried-IsHistory 30 failed_record failed_record-IsHistory

published_lem_example :
    IsHistory (published bundle 30 failed_record)
    × ((j : JobRecord) × (job_at 1 (published bundle 30 failed_record).jobs ≡ some j)
        × (j.job_id ≡ some 7)
        × (j.result_hash ≡ some hash)
        × (j.ack_pending ≡ true))
published_lem_example = published_lem bundle 30 failed_record failed_record-IsHistory

cleanup_status_of_lem_example :
    ((cleanup_status_of failed_record ≡ deleted) ↔ All (λ c. c ≡ deleted) (statuses failed_record))
    × ((cleanup_status_of failed_record ≢ pending)
        ↔ All (λ c. c ≢ pending) (statuses failed_record))
cleanup_status_of_lem_example = cleanup_status_of_lem failed_record
