-- ===== src/Model/Meeting/History.antt =====
-- What the validator of the job history accepts.
use hack_ef3da0e3_aib2bsaass.Base.{
  ℕ, ◌≡◌, ◌↔◌, true, false, List, [], ◌∷◌, ◌≤◌, arith, All, Distinct, unique-Decides, any, ltb,
  refl, nat_eq,
}
use hack_ef3da0e3_aib2bsaass.Model.Meeting.{MeetingRecord, attempts, is_nil, valid_job_history}

-- There is a job, no two have one attempt, and none has an attempt of the future.
pub record IsHistory (r : MeetingRecord) : Type 0 where
  pub has_job : is_nil r.jobs ≡ false
  pub distinct : Distinct (attempts r.jobs)
  pub past : All (λ a. a ≤ r.meeting.attempt) (attempts r.jobs)

none_above : (n : ℕ) (l : List ℕ) → (any (λ a. ltb n a) l ≡ false) ↔ All (λ a. a ≤ n) l
none_above n [] = (λ h. tt, λ h. refl)
none_above n (a ∷ l) = ground (arith, (none_above n l).0, (none_above n l).1)

-- The validator accepts exactly the histories that have a job, give each attempt at most one, and
-- have no attempt later than the meeting's.
pub valid_job_history_iff : (r : MeetingRecord) → (valid_job_history r ≡ true) ↔ IsHistory r
unfolding valid_job_history
valid_job_history_iff r =
    let distinct = unique-Decides (attempts r.jobs) in
    let past = none_above r.meeting.attempt (attempts r.jobs) in
    (
      λ h. record {
        has_job = ground arith;
        distinct = distinct.0 (ground arith);
        past = past.0 (ground arith);
      },
      λ c. rw (c.has_job, distinct.1 c.distinct, past.1 c.past),
    )
