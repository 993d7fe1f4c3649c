-- ===== src/Coordinator/Step.antt =====
-- `process_once`, `_process`, `_advance` and `_fail`.
pub mod Commits
use hack_ef3da0e3_aib2bsaass.Base.{
  ℕ, Bool, true, false, not, ◌&&◌, ◌||◌, Option, none, some, List, [], ◌∷◌, if◌then◌else◌, nat_eq,
  list_eq, option_eq, ◌==◌, is_some,
}
use hack_ef3da0e3_aib2bsaass.Base.Exec.{Exec, pure, raise, gets, modify, skip, ◌>>=◌, ◌>>◌, catch}
use hack_ef3da0e3_aib2bsaass.Model.Text.{Text}
use hack_ef3da0e3_aib2bsaass.Model.Insights.{ResultBundleV1}
use hack_ef3da0e3_aib2bsaass.Model.Meeting.{
  Meeting, MeetingRecord, JobRecord, ReadyManifest, MeetingStage, FailureCode, failed, processing,
  uploading_to_gpu, saving_results, invalid_audio, processing_failed, storage_failed,
  source_expired, invalid_result, is_failed, valid_stage,
}
use hack_ef3da0e3_aib2bsaass.Model.Gpu.{
  GpuContextV1, JobV1, JobStatus, GpuStage, GpuFailure, completed, is_completed, valid_context,
}
use hack_ef3da0e3_aib2bsaass.Store.World.{
  Env, World, M, Raised, DomainCode, os_error, file_not_found, unsafe_path, artifact_integrity,
  artifact_not_ready, coordinator_storage, gpu_protocol, gpu_input, gpu_unavailable, gpu_domain,
  validation_error, stop_iteration, submission_pending, job_not_found, result_not_ready,
  payload_deleted,
}
use hack_ef3da0e3_aib2bsaass.Store.Files.{or_raise}
use hack_ef3da0e3_aib2bsaass.Store.Records.{
  now, read_record, read_meeting, read_manifest, read_results, upload_path, bundle_of,
}
use hack_ef3da0e3_aib2bsaass.Store.Updates.{update_meeting}
use hack_ef3da0e3_aib2bsaass.Store.Publish.{job_at, with_job, publish_results}
use hack_ef3da0e3_aib2bsaass.Gpu.{submit_job, fetch_job, fetch_job_by_key, fetch_result}
use hack_ef3da0e3_aib2bsaass.Coordinator.Cleanup.{touched, save, clean, reconcile_pending_jobs}
use hack_ef3da0e3_aib2bsaass.Coordinator.Desk.{D, Desk, lift, current, change}

abbrev pub failing : FailureCode → MeetingRecord → MeetingRecord
failing code r = record r {
  meeting = record r.meeting { stage = none; status = failed; failure = some code };
}

abbrev pub failure_code : Option GpuFailure → FailureCode
failure_code none = processing_failed
failure_code (some GpuFailure.invalid_audio) = invalid_audio
failure_code (some GpuFailure.processing_failed) = processing_failed
failure_code (some GpuFailure.storage_failed) = storage_failed
failure_code (some GpuFailure.source_expired) = source_expired

abbrev pub stage_of : Option GpuStage → Option MeetingStage
stage_of none = none
stage_of (some GpuStage.ingesting) = some MeetingStage.ingesting
stage_of (some GpuStage.transcribing) = some MeetingStage.transcribing
stage_of (some GpuStage.diarizing) = some MeetingStage.diarizing
stage_of (some GpuStage.analyzing) = some MeetingStage.analyzing

abbrev pub as_processing : MeetingRecord → MeetingRecord
as_processing r = record r { meeting = record r.meeting { status = processing } }

abbrev pub at_stage : Option MeetingStage → MeetingRecord → MeetingRecord
at_stage s r = record r { meeting = record r.meeting { stage = s } }

abbrev pub with_current : (JobRecord → JobRecord) → MeetingRecord → MeetingRecord
with_current f r = record r { jobs = with_job r.meeting.attempt f r.jobs }

-- the job takes over what the service says of it
abbrev pub informed : JobV1 → JobRecord → JobRecord
informed remote j = record j {
  job_id = some remote.job_id;
  cleanup_status = remote.cleanup_status;
  expires_at = some remote.expires_at;
  receipt_expires_at = remote.receipt_expires_at;
}

abbrev pub started : JobRecord → JobRecord
started j = record j { submit_started = some true }

-- `job.submit_started is not False`
abbrev pub may_have_started : Option Bool → Bool
may_have_started (some false) = false
may_have_started _ = true

-- What the search by key and the submission end with: the meeting, where the step is over, or the
-- job of the service.
pub data Located : Type 0 where
  settled : Meeting → Located
  located : JobV1 → Located

pub data Found : Type 0 where
  waiting missing : Found
  known : JobV1 → Found

module _ ⦃env : Env⦄ where
  -- `self._save(record)`
  unfoldable pub save_paper : D Meeting
  save_paper = do t ← lift now; change (touched t); r ← current; lift (update_meeting r.owner_id r)

  -- `self._fail(record, code)`
  unfoldable pub fail_with : FailureCode → D Meeting
  fail_with code = do change (failing code); save_paper

  -- `self.store.read_meeting(owner_id, meeting_id)`
  unfoldable pub view : D Meeting
  view = do r ← current; lift (read_meeting r.owner_id r.meeting.id)

  -- `meeting.status = "processing"` is checked against the stage, then the stage is assigned.
  unfoldable pub process_at : Option MeetingStage → D Unit
  process_at s = do
    r ← current
    if not (valid_stage (as_processing r).meeting) then raise validation_error else skip
    change as_processing
    change (at_stage s)

  abbrev unpublished : Raised → M (Option ReadyManifest)
  unpublished artifact_not_ready = pure none
  unpublished e = raise e

  unfoldable pub manifest_if_ready : ℕ → ℕ → M (Option ReadyManifest)
  manifest_if_ready o m = catch (do r ← read_manifest o m; pure (some r)) unpublished

  -- The results are published already: that is confirmed, and the cleanup goes on.
  unfoldable pub resume : ReadyManifest → MeetingRecord → M Meeting
  resume manifest r = do
    (transcript, insights) ← read_results r.owner_id r.meeting.id
    publish_results r.owner_id r.meeting.id (bundle_of manifest transcript insights)
    stored ← read_record r.owner_id r.meeting.id
    clean stored

  abbrev by_key_error : Raised → M Found
  by_key_error (gpu_domain status submission_pending) = pure waiting
  by_key_error (gpu_domain status job_not_found) = pure missing
  by_key_error e = raise e

  unfoldable pub find_by_key : JobRecord → MeetingRecord → M Found
  find_by_key j r =
      if may_have_started j.submit_started
      then catch (do remote ← fetch_job_by_key r.meeting.id r.meeting.attempt; pure (known remote))
          by_key_error
      else pure missing

  abbrev pub context_of : MeetingRecord → Text → GpuContextV1
  context_of r hash = record {
    meeting_id = r.meeting.id;
    attempt = r.meeting.attempt;
    meeting_date = r.meeting.meeting_date;
    timezone = r.meeting.timezone;
    participants = r.meeting.participants;
    language_hint = r.meeting.language_hint;
    audio_sha256 = hash;
  }

  -- The submission is recorded before it is made.
  unfoldable pub submit_paper : Text → D Located
  submit_paper hash = do
    r ← current
    let context = context_of r hash
    if not (valid_context env.known_zone context) then raise validation_error else skip
    change (with_current started)
    save_paper
    remote ← lift (submit_job context)
    pure (located remote)

  abbrev no_source : Raised → M Bool
  no_source file_not_found = pure false
  no_source e = raise e

  -- `upload_path`, where `FileNotFoundError` means that the source is gone
  unfoldable pub has_source : MeetingRecord → M Bool
  has_source r = catch (do upload_path r.owner_id r.meeting.id; pure true) no_source

  abbrev pub submit_new : Option Text → D Located
  submit_new none = do m ← fail_with source_expired; pure (settled m)
  submit_new (some hash) = do
    r ← current
    present ← lift (has_source r)
    if present then submit_paper hash else (do m ← fail_with source_expired; pure (settled m))

  abbrev pub locate_found : Found → D Located
  locate_found waiting = do m ← view; pure (settled m)
  locate_found missing = do r ← current; submit_new r.audio_sha256
  locate_found (known remote) = pure (located remote)

  -- no job ID is recorded yet
  unfoldable pub locate : JobRecord → D Located
  locate j = do
    process_at (some uploading_to_gpu)
    save_paper
    r ← current
    found ← lift (find_by_key j r)
    locate_found found

  abbrev pub locate_job : JobRecord → Option ℕ → D Located
  locate_job j none = locate j
  locate_job j (some id) = do remote ← lift (fetch_job id); pure (located remote)

  -- The result is fetched, checked against the job, and published.
  unfoldable pub complete : JobV1 → D Meeting
  complete remote = do
    r ← current
    bundle ← lift (fetch_result remote.job_id)
    if not (bundle.job_id == remote.job_id)
          || not (bundle.transcript.meeting_id == r.meeting.id)
          || not (some bundle.result_hash == remote.result_hash)
        then raise gpu_protocol
        else skip
    lift (publish_results r.owner_id r.meeting.id bundle)
    stored ← lift (read_record r.owner_id r.meeting.id)
    lift (clean stored)

  abbrev pub other_id : Option ℕ → ℕ → Bool
  other_id none id = false
  other_id (some known_id) id = not (known_id == id)

  unfoldable pub take_over : JobV1 → D Meeting
  take_over remote = do
    process_at (if is_completed remote.status then some saving_results else stage_of remote.stage)
    save_paper
    if is_completed remote.status then complete remote else view

  abbrev pub by_status : JobV1 → JobStatus → D Meeting
  by_status remote JobStatus.expired = fail_with source_expired
  by_status remote JobStatus.failed = fail_with (failure_code remote.failure)
  by_status remote _ = take_over remote

  unfoldable pub follow : JobRecord → Located → D Meeting
  follow j (settled m) = pure m
  follow j (located remote) = do
    if other_id j.job_id remote.job_id then raise gpu_protocol else skip
    change (with_current (informed remote))
    by_status remote remote.status

  abbrev pub proceed : JobRecord → Option ReadyManifest → D Meeting
  proceed j none = do found ← locate_job j j.job_id; follow j found
  proceed j (some manifest) = do r ← current; lift (resume manifest r)

  -- `_advance`
  unfoldable pub advance : D Meeting
  advance = do
    r ← current
    if is_failed r.meeting.status then view else (do
      job ← lift (or_raise stop_iteration (job_at r.meeting.attempt r.jobs))
      manifest ← lift (manifest_if_ready r.owner_id r.meeting.id)
      proceed job manifest)

  -- the inner `except` clauses, on a domain error
  abbrev pub on_domain_error : ℕ → DomainCode → D Meeting
  on_domain_error status DomainCode.source_expired = fail_with source_expired
  on_domain_error status payload_deleted = fail_with source_expired
  on_domain_error status job_not_found = view
  on_domain_error status result_not_ready = view
  on_domain_error status code =
      fail_with (if status == 413 || status == 415 then invalid_audio else processing_failed)

  -- the inner `except` clauses
  abbrev pub on_refusal : Raised → D Meeting
  on_refusal gpu_protocol = fail_with invalid_result
  on_refusal validation_error = fail_with invalid_result
  on_refusal artifact_integrity = fail_with invalid_result
  on_refusal gpu_input = fail_with source_expired
  on_refusal (gpu_domain status code) = on_domain_error status code
  on_refusal e = raise e

  -- the outer `except` clause
  abbrev pub on_outage : Raised → D Meeting
  on_outage gpu_unavailable = view
  on_outage os_error = view
  on_outage file_not_found = view
  on_outage e = raise e

  -- `_process` after the reconciliation
  unfoldable pub attempt_step : D Meeting
  attempt_step = catch (catch advance on_refusal) on_outage

  abbrev pub result_of : {A : Type 0} → D A → MeetingRecord → M A
  result_of m r w = let (o, d) = m (record { world = w; paper = r }) in (o, d.world)

  -- `_process`
  unfoldable pub process : ℕ → ℕ → M Meeting
  process owner_id meeting_id = do
    stored ← read_record owner_id meeting_id
    r ← reconcile_pending_jobs stored
    result_of attempt_step r

  abbrev unreadable_storage : Raised → M Meeting
  unreadable_storage os_error = raise coordinator_storage
  unreadable_storage file_not_found = raise coordinator_storage
  unreadable_storage unsafe_path = raise coordinator_storage
  unreadable_storage artifact_integrity = raise coordinator_storage
  unreadable_storage e = raise e

  unfoldable pub process_once : ℕ → ℕ → M Meeting
  process_once owner_id meeting_id = catch (process owner_id meeting_id) unreadable_storage
