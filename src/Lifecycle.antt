-- ===== src/Lifecycle.antt =====
-- services/lifecycle.py: the retry and the deletion of a meeting.
pub mod Attempts
pub mod Retry
use hack_ef3da0e3_aib2bsaass.Base.{
  ℕ, ◌+◌, Bool, true, false, not, ◌&&◌, ◌||◌, Option, none, some, List, [], ◌∷◌, ◌++◌,
  if◌then◌else◌, leb, any, is_some,
}
use hack_ef3da0e3_aib2bsaass.Base.Exec.{Exec, pure, raise, ◌>>=◌, ◌>>◌}
use hack_ef3da0e3_aib2bsaass.Model.Meeting.{
  Meeting, MeetingRecord, JobRecord, queued, pending, is_failed, is_running, is_pending, new_job,
}
use hack_ef3da0e3_aib2bsaass.Store.World.{
  Env, M, LifecycleCode, attempts_exhausted, cleanup_pending, lifecycle_conflict,
}
use hack_ef3da0e3_aib2bsaass.Store.Records.{now, read_record, read_meeting, upload_present}
use hack_ef3da0e3_aib2bsaass.Store.Updates.{update_meeting}
use hack_ef3da0e3_aib2bsaass.Store.Deletion
use hack_ef3da0e3_aib2bsaass.Store.Deletion.{under_lifecycle_lock}

-- the record of the next attempt
unfoldable pub retried : ℕ → MeetingRecord → MeetingRecord
retried t r = record r {
  meeting = record r.meeting {
    attempt = r.meeting.attempt + 1;
    status = queued;
    stage = none;
    failure = none;
    revision = 0;
    updated_at = t;
    cleanup_status = pending;
  };
  jobs = r.jobs ++ new_job (r.meeting.attempt + 1) (some false) ∷ [];
}

-- what stands against a deletion besides the upload
unfoldable pub cleanup_open : MeetingRecord → Bool
cleanup_open r = is_pending r.meeting.cleanup_status || is_pending r.local_cleanup_status

unfoldable pub job_open : JobRecord → Bool
job_open j = is_pending j.cleanup_status || j.ack_pending

module _ ⦃env : Env⦄ where
  unfoldable pub retry_locked : ℕ → ℕ → M Meeting
  retry_locked owner_id meeting_id = do
    stored ← read_record owner_id meeting_id
    if not (is_failed stored.meeting.status)
        then raise (lifecycle_conflict LifecycleCode.invalid_state)
        else if leb 3 stored.meeting.attempt
        then raise (lifecycle_conflict attempts_exhausted)
        else (do
          meeting ← read_meeting owner_id meeting_id
          if not meeting.source_available
              then raise (lifecycle_conflict LifecycleCode.source_expired)
              else (do t ← now; update_meeting owner_id (retried t stored)))

  unfoldable pub retry_meeting : ℕ → ℕ → M Meeting
  retry_meeting owner_id meeting_id =
      under_lifecycle_lock owner_id meeting_id (retry_locked owner_id meeting_id)

  -- the `or` that asks for the upload only where nothing else stands against the deletion
  unfoldable pub must_wait : ℕ → ℕ → MeetingRecord → M Bool
  must_wait owner_id meeting_id r =
      if cleanup_open r
      then pure true
      else (do present ← upload_present owner_id meeting_id; pure (present || any job_open r.jobs))

  unfoldable pub delete_locked : ℕ → ℕ → M Unit
  delete_locked owner_id meeting_id = do
    stored ← read_record owner_id meeting_id
    if is_running stored.meeting.status || is_some stored.meeting.stage
        then raise (lifecycle_conflict LifecycleCode.invalid_state)
        else (do
          wait ← must_wait owner_id meeting_id stored
          if wait
              then raise (lifecycle_conflict cleanup_pending)
              else Deletion.delete_meeting owner_id meeting_id)

  unfoldable pub delete_meeting : ℕ → ℕ → M Unit
  delete_meeting owner_id meeting_id =
      under_lifecycle_lock owner_id meeting_id (delete_locked owner_id meeting_id)
