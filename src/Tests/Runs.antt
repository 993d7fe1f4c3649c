-- ===== src/Tests/Runs.antt =====
-- The theorems about methods at concrete worlds.
use hack_ef3da0e3_aib2bsaass.Base.{
  ◌≡◌, ◌↔◌, ◌⊎◌, refl, true, none, some, sorted, set_of, last_by, nat_eq,
}
use hack_ef3da0e3_aib2bsaass.Base.Exec.Hoare.{Post}
use hack_ef3da0e3_aib2bsaass.Model.Text.{
  non_empty_text, is_speaker_id, is_space, person_name, is_sha256,
}
use hack_ef3da0e3_aib2bsaass.Model.Transcript.{valid_references, valid_segment}
use hack_ef3da0e3_aib2bsaass.Model.Insights.{
  fits, unique_ids, validate_against, valid_machine_bundle,
}
use hack_ef3da0e3_aib2bsaass.Model.Meeting.{
  MeetingStatus, SourceKind, saving_results, MeetingRecord, JobRecord, valid_record, valid_meeting,
  valid_metadata, valid_source, deleted, pending, valid_job_history,
}
use hack_ef3da0e3_aib2bsaass.Review.Overlay.{ReviewRequest}
use hack_ef3da0e3_aib2bsaass.Store.World.{
  Files, World, write, name_beq, live, manifest_json, meeting_json, upload_bin,
}
use hack_ef3da0e3_aib2bsaass.Store.Files.{atomic_write}
use hack_ef3da0e3_aib2bsaass.Store.Files.Faultless.{atomic_write-done}
use hack_ef3da0e3_aib2bsaass.Store.Files.Atomic.{IsWritten, IsFound, atomic_write_lem}
use hack_ef3da0e3_aib2bsaass.Store.Updates.{archive_attempt, update_meeting, create_meeting}
use hack_ef3da0e3_aib2bsaass.Store.Publish.Faultless.{IsUnpublished, publish_results-done}
use hack_ef3da0e3_aib2bsaass.Model.Insights.{
  valid_bundle, valid_insights, valid_versions, valid_item, valid_action,
}
use hack_ef3da0e3_aib2bsaass.Model.Transcript.{valid_transcript, valid_speaker}
use hack_ef3da0e3_aib2bsaass.Store.Publish.{manifest_of, publish_results, job_at}
use hack_ef3da0e3_aib2bsaass.Store.Committed.{IsCommitted, IsCommitted-unmarked}
use hack_ef3da0e3_aib2bsaass.Store.Committed.Keeping.{archive_attempt_lem}
use hack_ef3da0e3_aib2bsaass.Store.Committed.Marking.{IsPublished}
use hack_ef3da0e3_aib2bsaass.Store.Committed.Publishing.{publish_results_lem}
use hack_ef3da0e3_aib2bsaass.Gpu.{refusal, status_of}
use hack_ef3da0e3_aib2bsaass.Gpu.Refusals.{refusal_lem}
use hack_ef3da0e3_aib2bsaass.Store.World.{job_failed, gpu_domain, gpu_unavailable}
use hack_ef3da0e3_aib2bsaass.Base.{ℕ, ◌≤◌}
use hack_ef3da0e3_aib2bsaass.Lifecycle.{retried, retry_meeting}
use hack_ef3da0e3_aib2bsaass.Lifecycle.Retry.{retry_meeting_lem, MayRetry}
use hack_ef3da0e3_aib2bsaass.Review.Service.Approval.{approve_review_lem, IsReviewed}
use hack_ef3da0e3_aib2bsaass.Review.Service.{approved_at}
use hack_ef3da0e3_aib2bsaass.Review.Service.{update_review, approve_review}
use hack_ef3da0e3_aib2bsaass.Store.Updates.Written.{update_meeting_lem, IsFit}
use hack_ef3da0e3_aib2bsaass.Store.Updates.Created.{create_meeting_lem, IsCreated}
use hack_ef3da0e3_aib2bsaass.Coordinator.Sound.{IsRecorded}
use hack_ef3da0e3_aib2bsaass.Store.World.{response}
use hack_ef3da0e3_aib2bsaass.Base.{[], ◌∷◌, false}
use hack_ef3da0e3_aib2bsaass.Model.Meeting.{new_job}
use hack_ef3da0e3_aib2bsaass.Review.Service.Stale.{stale_lem}
use hack_ef3da0e3_aib2bsaass.Store.Records.{parse_record}
use hack_ef3da0e3_aib2bsaass.Store.Records.Reads.{Stored}
use hack_ef3da0e3_aib2bsaass.Coordinator.Step.{process_once}
use hack_ef3da0e3_aib2bsaass.Coordinator.Step.Commits.{process_once-IsRecorded}
use hack_ef3da0e3_aib2bsaass.Coordinator.Step.{process_once}
use hack_ef3da0e3_aib2bsaass.Tests.Concrete.{
  failed_record, saving_record, hash, bundle, snapshot, env, codec, meeting_metadata, record_in,
  only, world_of,
}

abbrev folder : Files
folder = only (live meeting_json) (env.encode_record saving_record)

abbrev failed_folder : Files
failed_folder = only (live meeting_json) (env.encode_record failed_record)

folder-IsCommitted : IsCommitted folder
unfolding name_beq
folder-IsCommitted = IsCommitted-unmarked folder refl

failed_folder-IsCommitted : IsCommitted failed_folder
unfolding name_beq
failed_folder-IsCommitted = IsCommitted-unmarked failed_folder refl

abbrev ready_record : MeetingRecord
ready_record = record_in MeetingStatus.review_required none

abbrev ready_folder : Files
ready_folder = only (live meeting_json) (env.encode_record ready_record)

ready_folder-IsCommitted : IsCommitted ready_folder
unfolding name_beq
ready_folder-IsCommitted = IsCommitted-unmarked ready_folder refl

-- a review of revision 4, where the record has revision 0
abbrev request : ReviewRequest
request = record {
  base_revision = 4;
  speaker_mappings = snapshot.speaker_mappings;
  segment_edits = snapshot.segment_edits;
  summary = snapshot.summary;
  action_items = snapshot.action_items;
}

ready-Stored : Stored ready_folder 1 2 ready_record
unfolding name_beq parse_record valid_record valid_meeting valid_metadata non_empty_text is_space
    person_name set_of valid_source hack_ef3da0e3_aib2bsaass.Model.Meeting.valid_stage is_sha256
    valid_job_history
ready-Stored = record {
  bytes = env.encode_record ready_record;
  at_name = refl;
  parsed = refl;
  owner = refl;
  meeting = refl;
}

atomic_write_lem_example :
    Post
      (λ u v.
        IsWritten upload_bin (env.utf8 hash) true folder v.files
        ⊎ IsFound upload_bin (env.utf8 hash) true folder v.files)
      (λ e v. (v.files ≡ folder) ⊎ IsWritten upload_bin (env.utf8 hash) true folder v.files)
      (atomic_write upload_bin (env.utf8 hash) true (world_of folder))
atomic_write_lem_example = atomic_write_lem upload_bin (env.utf8 hash) true (world_of folder)

archive_attempt_lem_example :
    Post
      (λ u v. v.files (live manifest_json) ≡ none)
      (λ e v. IsCommitted v.files)
      (archive_attempt failed_record (world_of failed_folder))
archive_attempt_lem_example =
    archive_attempt_lem failed_record (world_of failed_folder) failed_folder-IsCommitted

failed-Stored : Stored failed_folder 1 2 failed_record
unfolding name_beq parse_record valid_record valid_meeting valid_metadata non_empty_text is_space
    person_name set_of valid_source hack_ef3da0e3_aib2bsaass.Model.Meeting.valid_stage is_sha256
    valid_job_history
failed-Stored = record {
  bytes = env.encode_record failed_record;
  at_name = refl;
  parsed = refl;
  owner = refl;
  meeting = refl;
}

abbrev next_record : MeetingRecord
unfolding retried
next_record = retried 30 failed_record

update_meeting_lem_example :
    Post
      (λ m v.
        (v.files (live meeting_json) ≡ some (env.encode_record next_record))
        × (next_record.owner_id ≡ failed_record.owner_id)
        × (next_record.meeting.created_at ≡ failed_record.meeting.created_at)
        × IsFit failed_record next_record)
      (λ e v. Unit)
      (update_meeting 1 next_record (world_of failed_folder))
unfolding retried
update_meeting_lem_example =
    update_meeting_lem codec 1 next_record failed_record (world_of failed_folder) failed-Stored

retry_meeting_lem_example :
    Post
      (λ m v.
        ((t : ℕ) × (v.files (live meeting_json)
            ≡ some (env.encode_record (retried t failed_record))))
        × MayRetry failed_record)
      (λ e v. (v.files ≡ failed_folder) ⊎ MayRetry failed_record)
      (retry_meeting 1 2 (world_of failed_folder))
retry_meeting_lem_example =
    retry_meeting_lem codec 1 2 failed_record failed_folder failed-Stored (world_of failed_folder)
      refl

create_meeting_lem_example :
    Post
      (λ a v.
        IsCreated 1 2 meeting_metadata (env.utf8 hash) SourceKind.uploaded_audio none 24 v.files a)
      (λ e v. Unit)
      (create_meeting 1 2 meeting_metadata
        (env.utf8 hash)
        SourceKind.uploaded_audio
        none
        24
        (world_of (λ n. none)))
create_meeting_lem_example =
    create_meeting_lem 1 2 meeting_metadata (env.utf8 hash) SourceKind.uploaded_audio none 24
      (world_of (λ n. none))

publish_results_lem_example :
    Post
      (λ m v. IsPublished v.files 1 2 hash m)
      (λ e v. IsCommitted v.files)
      (publish_results 1 2 bundle (world_of folder))
publish_results_lem_example =
    publish_results_lem codec 1 2 bundle (world_of folder) folder-IsCommitted

-- a queued meeting whose job was not submitted, with its upload
abbrev queued_record : MeetingRecord
queued_record = record (record_in MeetingStatus.queued none) { jobs = new_job 1 (some false) ∷ [] }

abbrev queued_folder : Files
queued_folder =
    write upload_bin (env.utf8 hash) (only (live meeting_json) (env.encode_record queued_record))

queued_folder-IsCommitted : IsCommitted queued_folder
unfolding name_beq write
queued_folder-IsCommitted = IsCommitted-unmarked queued_folder refl

-- the service accepts a submission
abbrev accepting : World
accepting = record (world_of queued_folder) { network = λ n. response 202 (env.utf8 hash) }

process_once-IsRecorded_example :
    IsCommitted (process_once 1 2 accepting).1.files
    × IsRecorded (process_once 1 2 accepting).1.sent
process_once-IsRecorded_example =
    process_once-IsRecorded codec 1 2 accepting queued_folder-IsCommitted tt

stale_lem_example :
    Post
      (λ m v. ⊥)
      (λ e v. v.files ≡ ready_folder)
      (update_review 1 2 request (world_of ready_folder))
    × Post (λ m v. ⊥) (λ e v. v.files ≡ ready_folder) (approve_review 1 2 4 (world_of ready_folder))
stale_lem_example = stale_lem 1 2 ready_record request (world_of ready_folder) ready-Stored refl

approve_review_lem_example :
    Post
      (λ m v.
        ((t : ℕ) × (v.files (live meeting_json)
            ≡ some (env.encode_record (approved_at t ready_record))))
        × (ready_record.meeting.status ≡ MeetingStatus.review_required)
        × (0 ≡ ready_record.meeting.revision)
        × IsReviewed 1 2 ready_record ready_folder)
      (λ e v. Unit)
      (approve_review 1 2 0 (world_of ready_folder))
approve_review_lem_example =
    approve_review_lem codec 1 2 0 ready_record ready_folder ready-Stored (world_of ready_folder)
      refl

atomic_write-done_example :
    Post
      (λ u v. v.files ≡ write upload_bin (env.utf8 hash) folder)
      (λ e v. ⊥)
      (atomic_write upload_bin (env.utf8 hash) true (world_of folder))
unfolding name_beq
atomic_write-done_example =
    atomic_write-done upload_bin (env.utf8 hash) true (world_of folder) (λ k. refl) refl

saving-Stored : Stored folder 1 2 saving_record
unfolding name_beq parse_record valid_record valid_meeting valid_metadata non_empty_text is_space
    person_name set_of valid_source hack_ef3da0e3_aib2bsaass.Model.Meeting.valid_stage is_sha256
    valid_job_history
saving-Stored = record {
  bytes = env.encode_record saving_record;
  at_name = refl;
  parsed = refl;
  owner = refl;
  meeting = refl;
}

folder-IsUnpublished : IsUnpublished folder
unfolding name_beq
folder-IsUnpublished = record { manifest = refl; transcript = refl; insights = refl; text = refl }

bundle_valid : valid_bundle env.digest bundle ≡ true
unfolding valid_bundle valid_transcript valid_speaker is_speaker_id non_empty_text is_space
    person_name is_sha256 valid_segment valid_references set_of sorted valid_insights valid_versions
    valid_item valid_action unique_ids validate_against fits last_by valid_machine_bundle
bundle_valid = refl

publish_results-done_example :
    Post
      (λ m v. m ≡ manifest_of 1 2 1 bundle)
      (λ e v. ⊥)
      (publish_results 1 2 bundle (world_of folder))
unfolding job_at
publish_results-done_example =
    publish_results-done 1 2 bundle saving_record (world_of folder) (λ n. refl) saving-Stored
      folder-IsUnpublished bundle_valid refl refl

abbrev status : ℕ
status = 409

refusal_lem_example :
    ((refusal status (some job_failed) ≡ gpu_domain status job_failed)
      ↔ ((some job_failed ≡ some job_failed) × (status ≡ status_of job_failed)))
    × ((refusal status (some job_failed) ≡ gpu_unavailable) ↔ ((status ≡ 401) ⊎ (500 ≤ status)))
refusal_lem_example = refusal_lem status (some job_failed) job_failed
