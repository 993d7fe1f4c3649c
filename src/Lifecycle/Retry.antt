-- ===== src/Lifecycle/Retry.antt =====
-- What a retry requires and what it writes.
use hack_ef3da0e3_aib2bsaass.Base.{
  ℕ, ◌≡◌, ◌≤◌, ◌⊎◌, inl, inr, refl, sym, subst, arith, some, false, not, leb,
}
use hack_ef3da0e3_aib2bsaass.Base.Exec.{raise}
use hack_ef3da0e3_aib2bsaass.Base.Exec.Hoare.{
  Hoare, Post, Hoare-bind, Hoare-if, Hoare-weaken, Hoare-strengthen, Hoare-raise,
}
use hack_ef3da0e3_aib2bsaass.Model.Meeting.{MeetingRecord, failed, is_failed}
use hack_ef3da0e3_aib2bsaass.Lifecycle.{retried, retry_locked, retry_meeting}
use hack_ef3da0e3_aib2bsaass.Store.World.{
  Env, World, Files, IsCodec, live, meeting_json, lifecycle_conflict, LifecycleCode,
}
use hack_ef3da0e3_aib2bsaass.Store.Files.Laws.{View, On, sync-Keeps}
use hack_ef3da0e3_aib2bsaass.Store.Records.Reading.{read_meeting-Keeps, now-Keeps}
use hack_ef3da0e3_aib2bsaass.Store.Records.Reads.{Stored, Stored-once, read_record-Hoare}
use hack_ef3da0e3_aib2bsaass.Store.Updates.Written.{
  failed_if, update_meeting-Hoare, read_record-Stored,
}
use hack_ef3da0e3_aib2bsaass.Store.Publish.Faultless.{known}
use hack_ef3da0e3_aib2bsaass.Store.Updates.{update_meeting}
use hack_ef3da0e3_aib2bsaass.Store.Deletion.Locks.{under_lifecycle_lock-Locked}

-- The meeting failed, at most at its second attempt.
abbrev pub MayRetry : MeetingRecord → Type 0
MayRetry old = (old.meeting.status ≡ failed) × (old.meeting.attempt ≤ 2)

module _ ⦃env : Env⦄ (codec : IsCodec env) (o k : ℕ) (old : MeetingRecord) (f0 : Files)
    (stored : Stored f0 o k old) where
  abbrev Before : View
  Before f s = f ≡ f0

  abbrev Refused : View
  Refused f s = (f ≡ f0) ⊎ MayRetry old

  -- meeting.json holds the record of the next attempt
  abbrev Renewed : View
  Renewed f s =
      ((t : ℕ) × (f (live meeting_json) ≡ some (env.encode_record (retried t old)))) × MayRetry old

  renew :
      (t : ℕ)
      → MayRetry old
      → Hoare (On Before) (update_meeting o (retried t old)) (λ m. On Renewed) (λ e. On Refused)
  unfolding retried
  renew t may =
      Hoare-strengthen _ (λ w p. subst (λ f. Stored f o old.meeting.id old) (sym p) own)
        (Hoare-weaken _
          (update_meeting-Hoare codec (λ s. Unit) (λ f s. Stored f o old.meeting.id old) o
            (retried t old) (λ r. r ≡ old) (λ f s p. tt)
            (Hoare-weaken _ (read_record-Stored codec o old.meeting.id old) (λ r v p. (tt, p.1))
              (λ e v p. tt)))
          (λ m v p. ((t, p.0.1), may)) (λ e v p. inr may))
    where
      own : Stored f0 o old.meeting.id old
      own = record {
        bytes = stored.bytes;
        at_name = stored.at_name;
        parsed = stored.parsed;
        owner = stored.owner;
        meeting = refl;
      }

  retry_locked-Hoare : Hoare (On Before) (retry_locked o k) (λ m. On Renewed) (λ e. On Refused)
  unfolding retry_locked
  retry_locked-Hoare =
      Hoare-bind _ _
        (Hoare-weaken _ (read_record-Hoare Before o k)
          (λ r w p. (Stored-once f0 o k r old (subst (λ f. Stored f o k r) p.0 p.1) stored, p.0))
          (λ e w p. inl p))
        (known {P = On Before} _ old (
          Hoare-if _ _ _ (λ bad. Hoare-raise _ (λ w p. inl p))
            λ was_failed.
              Hoare-if _ _ _ (λ bad. Hoare-raise _ (λ w p. inl p))
                λ again.
                  Hoare-bind _ _
                    (Hoare-weaken _ (read_meeting-Keeps Before o k) (λ m w p. p) (λ e w p. inl p))
                    λ m.
                      Hoare-if (not m.source_available)
                        (raise (lifecycle_conflict LifecycleCode.source_expired)) _
                        (λ bad. Hoare-raise _ (λ w p. inl p))
                        λ good.
                          Hoare-bind _ _
                            (Hoare-weaken _ (now-Keeps Before) (λ t w p. p) (λ e w p. inl p))
                            λ t. renew t (may was_failed again)))
    where
      may :
          not (is_failed old.meeting.status) ≡ false
          → leb 3 old.meeting.attempt ≡ false
          → MayRetry old
      may h b = (failed_if old.meeting.status (ground (arith, h)), ground (arith, b))

  -- Where a record of the owner is stored: a retry that returns has written the record of the next
  -- attempt, and the meeting had failed, at most at its second attempt; a retry that raises has
  -- changed no file, or the meeting had failed so. The system may fail as it likes, and what was
  -- written as JSON is read back.
  pub retry_meeting_lem :
      (w : World)
      → w.files ≡ f0
      → Post
          (λ m v.
            ((t : ℕ) × (v.files (live meeting_json) ≡ some (env.encode_record (retried t old))))
            × MayRetry old)
          (λ e v. (v.files ≡ f0) ⊎ MayRetry old)
          (retry_meeting o k w)
  unfolding retry_meeting
  retry_meeting_lem w here =
      (under_lifecycle_lock-Locked Before Refused (λ m. On Renewed) o k (retry_locked o k)
          (λ f s p. inl p) retry_locked-Hoare
          (λ m. Hoare-weaken _ (sync-Keeps Renewed) (λ u v p. p) (λ e v p. inr p.1))).at
        w here
