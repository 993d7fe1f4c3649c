-- ===== src/Coordinator/Cleanup.antt =====
-- `_cleanup_status`, `_save`, `_cleanup` and `_reconcile_pending_jobs`: what is still to be deleted
-- here and at the GPU service.
pub mod Status
pub mod Commits
use hack_ef3da0e3_aib2bsaass.Base.{
  ℕ, Bool, true, false, not, ◌&&◌, ◌||◌, Option, none, some, List, [], ◌∷◌, map, if◌then◌else◌, any,
  nat_eq, ◌==◌,
}
use hack_ef3da0e3_aib2bsaass.Base.Exec.{Exec, pure, raise, skip, ◌>>=◌, ◌>>◌, catch}
use hack_ef3da0e3_aib2bsaass.Model.Text.{Text}
use hack_ef3da0e3_aib2bsaass.Model.Meeting.{
  Meeting, MeetingRecord, JobRecord, CleanupStatus, pending, deleted, expired, is_pending,
  is_expired, is_running, is_ready,
}
use hack_ef3da0e3_aib2bsaass.Model.Gpu.{JobV1, AckV1}
use hack_ef3da0e3_aib2bsaass.Store.World.{
  Env, M, Raised, stop_iteration, gpu_unavailable, gpu_protocol, gpu_input, gpu_domain,
}
use hack_ef3da0e3_aib2bsaass.Store.Files.{or_raise}
use hack_ef3da0e3_aib2bsaass.Store.Records.{now, read_record, delete_upload}
use hack_ef3da0e3_aib2bsaass.Store.Updates.{update_meeting}
use hack_ef3da0e3_aib2bsaass.Store.Publish.{job_at, with_job}
use hack_ef3da0e3_aib2bsaass.Store.Deletion.{on_os_error}
use hack_ef3da0e3_aib2bsaass.Gpu.{fetch_job, acknowledge}

-- the local status and then the jobs'
abbrev pub statuses : MeetingRecord → List CleanupStatus
statuses r = r.local_cleanup_status ∷ map (λ j. j.cleanup_status) r.jobs

-- `_cleanup_status`
unfoldable pub cleanup_status_of : MeetingRecord → CleanupStatus
cleanup_status_of r =
    if any is_pending (statuses r)
    then pending
    else if any is_expired (statuses r)
    then expired
    else deleted

abbrev pub with_cleanup_status : MeetingRecord → MeetingRecord
with_cleanup_status r = record r {
  meeting = record r.meeting { cleanup_status = cleanup_status_of r };
}

abbrev pub touched : ℕ → MeetingRecord → MeetingRecord
touched t r = record r { meeting = record r.meeting { updated_at = t } }

-- the job takes over what the service says of its cleanup
abbrev pub confirmed : CleanupStatus → Option ℕ → JobRecord → JobRecord
confirmed c receipt j = record j {
  cleanup_status = c;
  receipt_expires_at = receipt;
  ack_pending = false;
}

-- whether the round of the loop asks the service about the job
unfoldable pub asks_about : MeetingRecord → JobRecord → Bool
asks_about r j =
    is_pending j.cleanup_status
    && not (j.attempt == r.meeting.attempt && is_running r.meeting.status)
    && not (j.attempt == r.meeting.attempt && is_ready r.meeting.status && j.ack_pending)

-- what an answer about the job makes of it, and whether that is a change
unfoldable pub reconciled : JobRecord → Option JobV1 → JobRecord × Bool
reconciled j none = (j, false)
reconciled j (some remote) =
    if is_pending remote.cleanup_status
    then (j, false)
    else (confirmed remote.cleanup_status remote.receipt_expires_at j, true)

module _ ⦃env : Env⦄ where
  -- `_save`: the record is stamped and written
  unfoldable pub save : MeetingRecord → M Meeting
  save r = do t ← now; update_meeting r.owner_id (touched t r)

  -- `except GPUClientError: other`
  abbrev pub on_gpu_error : {A : Type 0} → M A → Raised → M A
  on_gpu_error m gpu_unavailable = m
  on_gpu_error m gpu_protocol = m
  on_gpu_error m gpu_input = m
  on_gpu_error m (gpu_domain s c) = m
  on_gpu_error m e = raise e

  -- `fetch_job` answers with the job that was asked for, or raises.
  unfoldable pub remote_of : ℕ → M (Option JobV1)
  remote_of id = catch (do remote ← fetch_job id; pure (some remote)) (on_gpu_error (pure none))

  abbrev pub ask : MeetingRecord → JobRecord → Option ℕ → M (JobRecord × Bool)
  ask r j none = pure (j, false)
  ask r j (some id) =
      if asks_about r j
      then (do remote ← remote_of id; pure (reconciled j remote))
      else pure (j, false)

  unfoldable pub reconcile_jobs : MeetingRecord → List JobRecord → M (List JobRecord × Bool)
  reconcile_jobs r [] = pure ([], false)
  reconcile_jobs r (j ∷ js) = do
    (j', changed) ← ask r j j.job_id
    (js', more) ← reconcile_jobs r js
    pure (j' ∷ js', changed || more)

  -- `_reconcile_pending_jobs`, which gives the record back as it is afterwards
  unfoldable pub reconcile_pending_jobs : MeetingRecord → M MeetingRecord
  reconcile_pending_jobs r = do
    (jobs, changed) ← reconcile_jobs r r.jobs
    let r' : MeetingRecord = record r { jobs = jobs }
    if changed then (do save (with_cleanup_status r'); pure (with_cleanup_status r')) else pure r'

  abbrev pub without_upload : MeetingRecord → MeetingRecord
  without_upload r = record r {
    local_cleanup_status = deleted;
    meeting = record r.meeting { source_available = false };
  }

  -- the local half of `_cleanup`
  unfoldable pub clean_locally : MeetingRecord → M MeetingRecord
  clean_locally r =
      if is_pending r.local_cleanup_status
      then (do
        r' ←
            catch (do delete_upload r.owner_id r.meeting.id; pure (without_upload r))
              (on_os_error (pure r))
        save r'
        pure r')
      else pure r

  -- the acknowledgement, where one is due
  abbrev pub send_ack : MeetingRecord → Bool → Option ℕ → Option Text → M MeetingRecord
  send_ack r true (some id) (some hash) =
      catch
        (do
          receipt ← acknowledge id hash
          pure (record r {
            jobs =
                with_job r.meeting.attempt
                  (confirmed receipt.cleanup_status (some receipt.receipt_expires_at)) r.jobs;
          }))
        (on_gpu_error (pure r))
  send_ack r _ _ _ = pure r

  unfoldable pub clean_remotely : JobRecord → MeetingRecord → M MeetingRecord
  clean_remotely j r = send_ack r j.ack_pending j.job_id j.result_hash

  -- `_cleanup`
  unfoldable pub clean : MeetingRecord → M Meeting
  clean r = do
    job ← or_raise stop_iteration (job_at r.meeting.attempt r.jobs)
    r' ← clean_locally r
    r'' ← clean_remotely job r'
    save (with_cleanup_status r'')
