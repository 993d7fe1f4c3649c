-- ===== src/Lifecycle/Attempts.antt =====
-- A retry keeps the job history well formed.
use hack_ef3da0e3_aib2bsaass.Base.{
  ℕ, ◌+◌, ◌≤◌, sym, subst, arith, All, Distinct, IsIn, All-IsIn, some, false,
}
use hack_ef3da0e3_aib2bsaass.Model.Meeting.{MeetingRecord, attempts, new_job}
use hack_ef3da0e3_aib2bsaass.Model.Meeting.Jobs.{
  snoc_history, All-weaken, attempts-snoc, is_nil_snoc,
}
use hack_ef3da0e3_aib2bsaass.Model.Meeting.History.{IsHistory}
use hack_ef3da0e3_aib2bsaass.Lifecycle.{retried}

-- A retry of a record with a well-formed job history has one: the new attempt is the latest, and
-- its job is the only one of that attempt.
pub retried-IsHistory : (t : ℕ) (r : MeetingRecord) → IsHistory r → IsHistory (retried t r)
unfolding retried
retried-IsHistory t r h =
    let next = r.meeting.attempt + 1 in
    let job = new_job next (some false) in
    let fresh : ¬ IsIn next (attempts r.jobs) = λ m.
      let low = All-IsIn (λ a. a ≤ r.meeting.attempt) next (attempts r.jobs) h.past m in
      omega (arith, low) in
    let (distinct, past) =
      snoc_history next next (attempts r.jobs) fresh (omega arith) h.distinct
        (All-weaken r.meeting.attempt next (attempts r.jobs) (omega arith) h.past) in
    let back = sym (attempts-snoc r.jobs job) in
    record {
      has_job = is_nil_snoc r.jobs job;
      distinct = subst Distinct back distinct;
      past = subst (All (λ a. a ≤ next)) back past;
    }
