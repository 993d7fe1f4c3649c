-- ===== src/Runtime.antt =====
-- services/coordinator_runtime.py and services/local_janitor.py, over one meeting: what a tick does
-- to its folder. Whether the lifecycle lock is free for the janitor and for the coordinator is
-- given, since other processes hold it too.
pub mod Expiry
pub mod Deadline
use hack_ef3da0e3_aib2bsaass.Base.{
  ℕ, Bool, true, false, not, ◌&&◌, ◌||◌, Option, none, some, List, [], ◌∷◌, map, any, is_some, ltb,
  if◌then◌else◌,
}
use hack_ef3da0e3_aib2bsaass.Base.Exec.{Exec, pure, raise, skip, ◌>>=◌, ◌>>◌, catch}
use hack_ef3da0e3_aib2bsaass.Model.Meeting.{
  Meeting, MeetingRecord, JobRecord, expired, is_pending, is_failed, is_running, is_ready,
}
use hack_ef3da0e3_aib2bsaass.Store.World.{
  Env, M, Raised, os_error, file_not_found, unsafe_path, artifact_integrity, meeting_not_found,
}
use hack_ef3da0e3_aib2bsaass.Store.Records.{now, read_record, read_meeting, delete_upload}
use hack_ef3da0e3_aib2bsaass.Store.Updates.{update_meeting}
use hack_ef3da0e3_aib2bsaass.Store.Deletion.{under_lifecycle_lock, on_os_error}
use hack_ef3da0e3_aib2bsaass.Coordinator.Cleanup.{with_cleanup_status}
use hack_ef3da0e3_aib2bsaass.Coordinator.Step.{process_once}

-- `submit_started is False`
abbrev pub never_started : Option Bool → Bool
never_started (some false) = true
never_started _ = false

-- Nothing of the job is at the GPU service: it has no ID, and its submission never began.
unfoldable pub unsent : JobRecord → Bool
unsent j = not (is_some j.job_id) && never_started j.submit_started

abbrev pub expired_job : JobRecord → JobRecord
expired_job j =
    if unsent j && is_pending j.cleanup_status then record j { cleanup_status = expired } else j

abbrev pub without_source : ℕ → MeetingRecord → MeetingRecord
without_source t r = record r {
  meeting = record r.meeting { source_available = false; updated_at = t };
}

-- `_record_expiry`; the status is computed as the coordinator does
unfoldable pub record_expiry : ℕ → MeetingRecord → MeetingRecord
unfolding unsent
record_expiry t r =
    let gone = without_source t r in
    with_cleanup_status
      (record gone { local_cleanup_status = expired; jobs = map expired_job gone.jobs })

-- the deadline has passed
abbrev pub is_past : ℕ → Option ℕ → Bool
is_past t none = false
is_past t (some e) = not (ltb t e)

-- a step is due for the coordinator
unfoldable pub is_due : Meeting → Bool → Bool
is_due m pending_failed_job =
    is_running m.status || (is_ready m.status && is_pending m.cleanup_status) || pending_failed_job

abbrev pub job_left : JobRecord → Bool
job_left j = is_some j.job_id && is_pending j.cleanup_status

module _ ⦃env : Env⦄ where
  -- the upload is deleted, or that is left to a later tick
  unfoldable pub deleted_now : ℕ → ℕ → M Bool
  deleted_now owner_id meeting_id =
      catch (delete_upload owner_id meeting_id >> pure true) (on_os_error (pure false))

  -- `_expire_upload`
  unfoldable pub expire_upload : ℕ → ℕ → M Unit
  expire_upload owner_id meeting_id = do
    r ← read_record owner_id meeting_id
    t ← now
    if is_pending r.local_cleanup_status && is_past t r.meeting.temporary_expires_at
        then (do
          gone ← deleted_now owner_id meeting_id
          update_meeting owner_id (if gone then record_expiry t r else without_source t r)
          skip)
        else skip

  -- `except (OSError, UnsafePath, ArtifactIntegrityError, MeetingNotFound): continue`
  abbrev pub postponed : Raised → M Unit
  postponed os_error = skip
  postponed file_not_found = skip
  postponed unsafe_path = skip
  postponed artifact_integrity = skip
  postponed meeting_not_found = skip
  postponed e = raise e

  -- `_sweep_entry` on the folder of a meeting with its record
  unfoldable pub sweep_meeting : Bool → ℕ → ℕ → M Unit
  unfolding expire_upload
  sweep_meeting acquired owner_id meeting_id =
      catch
        (under_lifecycle_lock owner_id meeting_id
          (if acquired then expire_upload owner_id meeting_id else skip))
        postponed

  -- `pending_failed_job`
  unfoldable pub has_pending_failed_job : ℕ → ℕ → Meeting → M Bool
  has_pending_failed_job owner_id meeting_id m =
      if is_failed m.status
      then (do r ← read_record owner_id meeting_id; pure (any job_left r.jobs))
      else pure false

  -- the step of the coordinator, where one is due
  unfoldable pub process_if_due : ℕ → ℕ → M Unit
  unfolding has_pending_failed_job is_due
  process_if_due owner_id meeting_id = do
    m ← read_meeting owner_id meeting_id
    left ← has_pending_failed_job owner_id meeting_id m
    if is_due m left then (process_once owner_id meeting_id >> skip) else skip

  -- the body of the loop of `tick`, which goes on after every error
  unfoldable pub tick_meeting : Bool → ℕ → ℕ → M Unit
  unfolding process_if_due
  tick_meeting acquired owner_id meeting_id =
      catch
        (under_lifecycle_lock owner_id meeting_id
          (if acquired then process_if_due owner_id meeting_id else skip))
        (λ e. skip)

  -- `tick`, as far as it concerns this folder: the sweep of the janitor, and then, where there is a
  -- coordinator, its step
  unfoldable pub tick : Bool → Bool → Bool → ℕ → ℕ → M Unit
  unfolding sweep_meeting tick_meeting
  tick has_coordinator free_for_janitor free_for_step owner_id meeting_id = do
    sweep_meeting free_for_janitor owner_id meeting_id
    if has_coordinator then tick_meeting free_for_step owner_id meeting_id else skip
