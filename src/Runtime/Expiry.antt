-- ===== src/Runtime/Expiry.antt =====
-- What `_record_expiry` leaves to be cleaned up.
use hack_ef3da0e3_aib2bsaass.Base.{
  ℕ, ◌≡◌, refl, arith, Bool, true, false, Option, none, some, is_some, not, ◌&&◌, List, [], ◌∷◌,
  map, any, if◌then◌else◌,
}
use hack_ef3da0e3_aib2bsaass.Model.Meeting.{MeetingRecord, JobRecord, pending, expired, is_pending}
use hack_ef3da0e3_aib2bsaass.Coordinator.Cleanup.{cleanup_status_of}
use hack_ef3da0e3_aib2bsaass.Runtime.{unsent, never_started, expired_job, record_expiry}

-- The service may still hold data of a job: it gave the job an ID, or the submission may have
-- begun, since only `false` says that it has not.
is_held : Option ℕ → Option Bool → Bool
is_held none (some false) = false
is_held _ _ = true

unfoldable pub is_waiting : JobRecord → Bool
unfolding is_held
is_waiting j = is_pending j.cleanup_status && is_held j.job_id j.submit_started

unsent-is_held :
    (id : Option ℕ) (b : Option Bool) → (not (is_some id) && never_started b) ≡ not (is_held id b)
unfolding is_held
unsent-is_held none (some false) = refl
unsent-is_held none (some true) = refl
unsent-is_held none none = refl
unsent-is_held (some i) b = refl

expired_job-is_pending : (j : JobRecord) → is_pending (expired_job j).cleanup_status ≡ is_waiting j
unfolding unsent is_waiting
expired_job-is_pending j = ground (arith, unsent-is_held j.job_id j.submit_started)

any-is_pending :
    (js : List JobRecord)
    → any is_pending (map (λ j. j.cleanup_status) (map expired_job js)) ≡ any is_waiting js
any-is_pending [] = refl
any-is_pending (j ∷ js) = ground (arith, expired_job-is_pending j, any-is_pending js)

-- After an expiry the meeting's cleanup is pending exactly as long as the GPU service may still hold
-- data of a job, whose cleanup is pending and which has an ID or was not marked as never begun, and
-- expired otherwise; it is never shown as deleted.
pub record_expiry_lem :
    (t : ℕ) (r : MeetingRecord)
    → (record_expiry t r).meeting.cleanup_status
      ≡ (if any is_waiting r.jobs then pending else expired)
unfolding record_expiry cleanup_status_of
record_expiry_lem t r = ground (arith, any-is_pending r.jobs)
