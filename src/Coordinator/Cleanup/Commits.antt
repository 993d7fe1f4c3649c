-- ===== src/Coordinator/Cleanup/Commits.antt =====
-- The cleanup and the reconciliation keep the folder committed, and submit nothing.
use hack_ef3da0e3_aib2bsaass.Base.{ℕ, Bool, true, Option, none, some, List, [], ◌∷◌}
use hack_ef3da0e3_aib2bsaass.Base.Exec.Hoare.{Keeps, Hoare-bind, Keeps-raise, Keeps-pure}
use hack_ef3da0e3_aib2bsaass.Model.Text.{Text}
use hack_ef3da0e3_aib2bsaass.Model.Insights.{ResultBundleV1}
use hack_ef3da0e3_aib2bsaass.Model.Meeting.{MeetingRecord, JobRecord}
use hack_ef3da0e3_aib2bsaass.Store.World.{
  Env, M, Raised, IsCodec, os_error, file_not_found, gpu_unavailable, gpu_protocol, gpu_input,
  gpu_domain,
}
use hack_ef3da0e3_aib2bsaass.Store.Files.Laws.{On}
use hack_ef3da0e3_aib2bsaass.Store.Records.Reading.{
  reading_rules, now-Keeps, read_record-Keeps, read_manifest-Keeps, read_results-Keeps,
  read_meeting-Keeps, upload_path-Keeps,
}
use hack_ef3da0e3_aib2bsaass.Store.Publish.{publish_results}
use hack_ef3da0e3_aib2bsaass.Coordinator.Sound.{
  Sound, update_meeting-Sound, delete_upload-Sound, publish_results-Sound,
}
use hack_ef3da0e3_aib2bsaass.Store.Deletion.{on_os_error}
use hack_ef3da0e3_aib2bsaass.Gpu.{fetch_job, fetch_job_by_key, fetch_result, acknowledge}
use hack_ef3da0e3_aib2bsaass.Gpu.Requests.{
  fetch_job-Keeps, fetch_job_by_key-Keeps, fetch_result-Keeps, acknowledge-Keeps,
}
use hack_ef3da0e3_aib2bsaass.Coordinator.Cleanup.{
  save, on_gpu_error, remote_of, ask, reconcile_jobs, reconcile_pending_jobs, clean_locally,
  send_ack, clean_remotely, clean,
}

module _ ⦃env : Env⦄ (codec : IsCodec env) where
  -- the calls of the store and of the client, at this property
  pub published : (o k : ℕ) (b : ResultBundleV1) → Keeps (On Sound) (publish_results o k b)
  published = publish_results-Sound codec

  pub fetched : (id : ℕ) → Keeps (On Sound) (fetch_job id)
  fetched id = fetch_job-Keeps Sound id (λ f s h. (h.0, (tt, h.1)))

  pub found_by_key : (m a : ℕ) → Keeps (On Sound) (fetch_job_by_key m a)
  found_by_key m a = fetch_job_by_key-Keeps Sound m a (λ f s h. (h.0, (tt, h.1)))

  pub result_fetched : (id : ℕ) → Keeps (On Sound) (fetch_result id)
  result_fetched id = fetch_result-Keeps Sound id (λ f s h. (h.0, (tt, h.1)))

  pub acknowledged : (id : ℕ) (t : Text) → Keeps (On Sound) (acknowledge id t)
  acknowledged id t = acknowledge-Keeps Sound id t (λ f s h. (h.0, (tt, h.1)))

  pub ruleset commit_rules = (
    reading_rules, now-Keeps, read_record-Keeps, read_manifest-Keeps, read_results-Keeps,
    read_meeting-Keeps, upload_path-Keeps, update_meeting-Sound, delete_upload-Sound, published,
    fetched, found_by_key, result_fetched, acknowledged,
  )

  pub save-Keeps : (r : MeetingRecord) → Keeps (On Sound) (save r)
  unfolding save
  save-Keeps r = search commit_rules

  pub on_gpu_error-Keeps :
      {A : Type 0} (m : M A) (e : Raised) → Keeps (On Sound) m → Keeps (On Sound) (on_gpu_error m e)
  on_gpu_error-Keeps m gpu_unavailable h = h
  on_gpu_error-Keeps m gpu_protocol h = h
  on_gpu_error-Keeps m gpu_input h = h
  on_gpu_error-Keeps m (gpu_domain s c) h = h
  on_gpu_error-Keeps m e h = Keeps-raise e

  pub on_os_error-Keeps :
      {A : Type 0} (m : M A) (e : Raised) → Keeps (On Sound) m → Keeps (On Sound) (on_os_error m e)
  on_os_error-Keeps m os_error h = h
  on_os_error-Keeps m file_not_found h = h
  on_os_error-Keeps m e h = Keeps-raise e

  pub ruleset cleanup_rules = (commit_rules, save-Keeps, on_gpu_error-Keeps, on_os_error-Keeps)

  remote_of-Keeps : (id : ℕ) → Keeps (On Sound) (remote_of id)
  unfolding remote_of
  remote_of-Keeps id = search cleanup_rules depth 12

  ask-Keeps : (r : MeetingRecord) (j : JobRecord) (id : Option ℕ) → Keeps (On Sound) (ask r j id)
  ask-Keeps r j none = search cleanup_rules
  ask-Keeps r j (some id) = search (cleanup_rules, remote_of-Keeps) depth 12

  reconcile_jobs-Keeps :
      (r : MeetingRecord) (l : List JobRecord) → Keeps (On Sound) (reconcile_jobs r l)
  unfolding reconcile_jobs
  reconcile_jobs-Keeps r [] = search cleanup_rules
  reconcile_jobs-Keeps r (j ∷ l) =
      Hoare-bind (ask r j j.job_id) _ (ask-Keeps r j j.job_id)
        λ a. Hoare-bind (reconcile_jobs r l) _ (reconcile_jobs-Keeps r l) λ b. Keeps-pure _

  pub reconcile_pending_jobs-Keeps :
      (r : MeetingRecord) → Keeps (On Sound) (reconcile_pending_jobs r)
  unfolding reconcile_pending_jobs
  reconcile_pending_jobs-Keeps r = search (cleanup_rules, reconcile_jobs-Keeps) depth 12

  clean_locally-Keeps : (r : MeetingRecord) → Keeps (On Sound) (clean_locally r)
  unfolding clean_locally
  clean_locally-Keeps r = search cleanup_rules depth 16

  send_ack-Keeps :
      (r : MeetingRecord) (b : Bool) (id : Option ℕ) (h : Option Text)
      → Keeps (On Sound) (send_ack r b id h)
  send_ack-Keeps r true (some id) (some h) = search cleanup_rules depth 12
  send_ack-Keeps r _ _ _ = search cleanup_rules

  clean_remotely-Keeps : (j : JobRecord) (r : MeetingRecord) → Keeps (On Sound) (clean_remotely j r)
  unfolding clean_remotely
  clean_remotely-Keeps j r = send_ack-Keeps r j.ack_pending j.job_id j.result_hash

  pub clean-Keeps : (r : MeetingRecord) → Keeps (On Sound) (clean r)
  unfolding clean
  clean-Keeps r = search (cleanup_rules, clean_locally-Keeps, clean_remotely-Keeps) depth 16
