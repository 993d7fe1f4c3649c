-- ===== src/Review/Service.antt =====
-- services/reviews.py: reading the current revision, replacing a review, and approving it.
pub mod Commits
pub mod Stale
pub mod Approval
use hack_ef3da0e3_aib2bsaass.Base.{
  ℕ, ◌+◌, Bool, true, false, not, ◌||◌, none, if◌then◌else◌, any, nat_eq, ◌==◌, is_some, Result, ok,
  err,
}
use hack_ef3da0e3_aib2bsaass.Base.Exec.{pure, raise, skip, ◌>>=◌, ◌>>◌, catch}
use hack_ef3da0e3_aib2bsaass.Model.Transcript.{TranscriptV1, is_unreviewed}
use hack_ef3da0e3_aib2bsaass.Model.Insights.{InsightsV1, validate_against}
use hack_ef3da0e3_aib2bsaass.Model.Meeting.{
  Meeting, MeetingRecord, MeetingStatus, is_ready, is_review_required, is_approved,
}
use hack_ef3da0e3_aib2bsaass.Review.Overlay.{
  ReviewRequest, ReviewSnapshot, ReviewError, overlay, valid_snapshot,
}
use hack_ef3da0e3_aib2bsaass.Store.World.{
  Env, M, Raised, ReviewCode, file_not_found, validation_error, artifact_integrity, review_invalid,
  review_conflict, stale_revision, snapshot, review_json,
}
use hack_ef3da0e3_aib2bsaass.Store.Files.{touch, read_file, atomic_write, or_raise}
use hack_ef3da0e3_aib2bsaass.Store.Records.{now, keep_if, read_record, read_results}
use hack_ef3da0e3_aib2bsaass.Store.Updates.{update_meeting}
use hack_ef3da0e3_aib2bsaass.Store.Deletion.{under_lifecycle_lock}
use hack_ef3da0e3_aib2bsaass.Store.Cache.{delete_pdf_cache}

-- the snapshot that a request becomes
abbrev pub snapshot_of : ℕ → ℕ → ReviewRequest → ReviewSnapshot
snapshot_of meeting_id revision r = record {
  meeting_id = meeting_id;
  revision = revision;
  speaker_mappings = r.speaker_mappings;
  segment_edits = r.segment_edits;
  summary = r.summary;
  action_items = r.action_items;
}

-- the record after a new revision
abbrev pub revised : ℕ → ℕ → MeetingRecord → MeetingRecord
revised revision t r = record r {
  meeting = record r.meeting {
    revision = revision;
    status = MeetingStatus.review_required;
    stage = none;
    updated_at = t;
  };
}

abbrev pub approved_at : ℕ → MeetingRecord → MeetingRecord
approved_at t r = record r {
  meeting = record r.meeting { status = MeetingStatus.approved; updated_at = t };
}

-- what stands against an approval
unfoldable pub unfinished : TranscriptV1 → InsightsV1 → Bool
unfinished t i =
    any (λ s. is_unreviewed s.identity_status) t.speakers || is_some (validate_against i t)

module _ ⦃env : Env⦄ where
  unfoldable pub review_path : ℕ → ℕ → M Unit
  review_path owner_id meeting_id = do read_record owner_id meeting_id; touch; touch

  -- `_snapshot_path`
  unfoldable pub snapshot_path : ℕ → ℕ → M Unit
  snapshot_path owner_id meeting_id = do review_path owner_id meeting_id; touch

  abbrev pub overlaid :
      Result ReviewError (TranscriptV1 × InsightsV1) → M (TranscriptV1 × InsightsV1)
  overlaid (ok r) = pure r
  overlaid (err e) = raise (review_invalid e)

  -- the snapshot of the meeting's revision, laid over the original
  unfoldable pub read_revision : ℕ → ℕ → ℕ → TranscriptV1 → M (TranscriptV1 × InsightsV1)
  read_revision owner_id meeting_id revision original = do
    snapshot_path owner_id meeting_id
    content ← read_file (snapshot revision)
    s ← or_raise validation_error (keep_if valid_snapshot (env.decode_snapshot content))
    if not (s.meeting_id == meeting_id) || not (s.revision == revision)
        then raise artifact_integrity
        else overlaid (overlay original s)

  -- the `except` clauses of `_read_current_locked`
  abbrev pub unreadable_review : Raised → M (TranscriptV1 × InsightsV1)
  unreadable_review file_not_found = raise artifact_integrity
  unreadable_review validation_error = raise artifact_integrity
  unreadable_review (review_invalid e) = raise artifact_integrity
  unreadable_review e = raise e

  -- `_read_current_locked`
  unfoldable pub read_current_locked : ℕ → ℕ → Meeting → M (TranscriptV1 × InsightsV1)
  read_current_locked owner_id meeting_id m =
      if not (is_ready m.status) then raise (review_conflict ReviewCode.invalid_state) else (do
        (original, insights) ← read_results owner_id meeting_id
        if m.revision == 0
            then pure (original, insights)
            else catch (read_revision owner_id meeting_id m.revision original) unreadable_review)

  unfoldable pub read_reviewed_results_unlocked : ℕ → ℕ → M (TranscriptV1 × InsightsV1)
  read_reviewed_results_unlocked owner_id meeting_id = do
    stored ← read_record owner_id meeting_id
    read_current_locked owner_id meeting_id stored.meeting

  unfoldable pub read_reviewed_results : ℕ → ℕ → M (TranscriptV1 × InsightsV1)
  read_reviewed_results owner_id meeting_id =
      under_lifecycle_lock owner_id meeting_id (read_reviewed_results_unlocked owner_id meeting_id)

  -- The snapshot and its copy are written before the record names the revision.
  unfoldable pub write_revision : ℕ → ℕ → ReviewSnapshot → MeetingRecord → M Meeting
  write_revision owner_id meeting_id s stored = do
    snapshot_path owner_id meeting_id
    atomic_write (snapshot s.revision) (env.encode_snapshot s) false
    review_path owner_id meeting_id
    atomic_write review_json (env.encode_snapshot s) false
    if is_approved stored.meeting.status
        then delete_pdf_cache owner_id meeting_id stored.meeting.revision
        else skip
    t ← now
    update_meeting owner_id (revised s.revision t stored)

  unfoldable pub update_locked : ℕ → ℕ → ReviewRequest → M Meeting
  update_locked owner_id meeting_id request = do
    stored ← read_record owner_id meeting_id
    if not (is_ready stored.meeting.status)
        then raise (review_conflict ReviewCode.invalid_state)
        else if not (request.base_revision == stored.meeting.revision)
        then raise (review_conflict stale_revision)
        else (do
          (original, insights) ← read_results owner_id meeting_id
          let s = snapshot_of meeting_id (stored.meeting.revision + 1) request
          overlaid (overlay original s)
          write_revision owner_id meeting_id s stored)

  unfoldable pub update_review : ℕ → ℕ → ReviewRequest → M Meeting
  update_review owner_id meeting_id request =
      under_lifecycle_lock owner_id meeting_id (update_locked owner_id meeting_id request)

  unfoldable pub approve_locked : ℕ → ℕ → ℕ → M Meeting
  approve_locked owner_id meeting_id base_revision = do
    stored ← read_record owner_id meeting_id
    if not (is_review_required stored.meeting.status)
        then raise (review_conflict ReviewCode.invalid_state)
        else if not (base_revision == stored.meeting.revision)
        then raise (review_conflict stale_revision)
        else (do
          (transcript, insights) ← read_current_locked owner_id meeting_id stored.meeting
          if unfinished transcript insights
              then raise (review_conflict ReviewCode.review_required)
              else (do t ← now; update_meeting owner_id (approved_at t stored)))

  -- The request is its `base_revision`.
  unfoldable pub approve_review : ℕ → ℕ → ℕ → M Meeting
  approve_review owner_id meeting_id base_revision =
      under_lifecycle_lock owner_id meeting_id (approve_locked owner_id meeting_id base_revision)
