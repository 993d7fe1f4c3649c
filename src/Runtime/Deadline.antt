-- ===== src/Runtime/Deadline.antt =====
-- The janitor leaves an upload until its deadline.
use hack_ef3da0e3_aib2bsaass.Base.{
  ℕ, ◌≡◌, ◌<◌, ap, subst, arith, Bool, true, false, ◌&&◌, some, inl, inr, Bool-cases, Option-cases,
}
use hack_ef3da0e3_aib2bsaass.Base.Exec.{skip}
use hack_ef3da0e3_aib2bsaass.Base.Exec.Hoare.{
  Hoare, Keeps, Keeps-after, keeps_rules, Hoare-bind, Hoare-if, Hoare-weaken, Hoare-given,
  Hoare-both, Hoare-strengthen, Keeps-catch, Keeps-raise, Keeps-skip, Keeps-if, Keeps-finally,
}
use hack_ef3da0e3_aib2bsaass.Model.Meeting.{MeetingRecord, is_pending}
use hack_ef3da0e3_aib2bsaass.Store.World.{
  Env, World, M, Files, Raised, Name, os_error, file_not_found, unsafe_path, artifact_integrity,
  meeting_not_found,
}
use hack_ef3da0e3_aib2bsaass.Store.Files.{touch, sync, choose, obey, synced, read_file}
use hack_ef3da0e3_aib2bsaass.Store.Files.Laws.{
  View, On, touch-Keeps, sync-Keeps, obeyed, synced-Keeps, Keeps-or_raise,
}
use hack_ef3da0e3_aib2bsaass.Store.Records.{read_record, or_missing, now}
use hack_ef3da0e3_aib2bsaass.Store.Records.Reads.{Stored, Stored-once, read_record-Hoare}
use hack_ef3da0e3_aib2bsaass.Store.Deletion.{under_lifecycle_lock}
use hack_ef3da0e3_aib2bsaass.Store.Publish.Faultless.{known}
use hack_ef3da0e3_aib2bsaass.Runtime.{is_past, expire_upload, postponed, sweep_meeting}

module _ ⦃env : Env⦄ where
  module _ (clock : ℕ → ℕ) where
    abbrev Clocked : World → Type 0
    Clocked w = w.clock ≡ clock

    touch-Clocked : Keeps Clocked touch
    unfolding touch
    touch-Clocked =
        Hoare-bind choose obey (unfold choose in record { at = λ w h. h }) (λ c. obeyed c Clocked)

    sync-Clocked : Keeps Clocked sync
    unfolding sync
    sync-Clocked =
        Hoare-bind choose synced (unfold choose in record { at = λ w h. h })
          (λ c. synced-Keeps c Clocked)

    or_missing-Clocked : {A : Type 0} (d e : Raised) → Keeps Clocked (or_missing {A = A} d e)
    or_missing-Clocked d file_not_found = Keeps-raise d
    or_missing-Clocked d e = Keeps-raise e

    ruleset clock_rules =
        (keeps_rules, touch-Clocked, sync-Clocked, or_missing-Clocked, Keeps-or_raise)

    read_file-Clocked : (n : Name) → Keeps Clocked (read_file n)
    unfolding read_file
    read_file-Clocked n = search clock_rules depth 12

    read_record-Clocked : (o k : ℕ) → Keeps Clocked (read_record o k)
    unfolding read_record
    read_record-Clocked o k = search (clock_rules, read_file-Clocked) depth 16

  module _ (o k : ℕ) (f : Files) (clock : ℕ → ℕ) (r : MeetingRecord) (stored : Stored f o k r)
      (early : (deadline : ℕ)
        → is_pending r.local_cleanup_status ≡ true
        → r.meeting.temporary_expires_at ≡ some deadline
        → (i : ℕ) → clock i < deadline) where
    abbrev Unchanged : View
    Unchanged g s = g ≡ f

    -- the folder and the clock are these
    abbrev Still : World → Type 0
    Still w = On Unchanged w × (w.clock ≡ clock)

    read_record-Still : Hoare Still (read_record o k) (λ a w. (a ≡ r) × Still w) (λ e. Still)
    read_record-Still =
        Hoare-weaken _
          (Hoare-both _ (read_record-Hoare Unchanged o k) (read_record-Clocked clock o k))
          (λ a w h.
            (Stored-once f o k a r (subst (λ g. Stored g o k a) h.0.0 h.0.1) stored, (h.0.0, h.1)))
          (λ e w h. h)

    not_past :
        (t : ℕ)
        → ((i : ℕ) × (t ≡ clock i))
        → (is_pending r.local_cleanup_status && is_past t r.meeting.temporary_expires_at) ≡ false
    not_past t (i, e) = elim (Bool-cases (is_pending r.local_cleanup_status)) [
      | inr settled ↦ ground (arith, settled)
      | inl open_ ↦ elim (Option-cases r.meeting.temporary_expires_at) [
        | inl none_ ↦ ground (arith, open_, none_)
        | inr (d, found) ↦ ground (arith, open_, found, early d open_ found i, e)
      ]
    ]

    now-Still : Hoare Still now (λ t w. ((i : ℕ) × (t ≡ clock i)) × Still w) (λ e. Still)
    unfolding now
    now-Still = record { at = λ w h. ((w.reads, ap (λ c. c w.reads) h.1), h) }

    expire_upload-Still : Keeps Still (expire_upload o k)
    unfolding expire_upload
    expire_upload-Still = Hoare-bind _ _ read_record-Still (
        known {P = Still} _ r (
          Hoare-bind _ _ now-Still λ t.
            Hoare-given _ (λ w h. h.0)
              λ reading.
                Hoare-if
                  (is_pending r.local_cleanup_status && is_past t r.meeting.temporary_expires_at) _
                  skip (λ past. absurd (cc (past, not_past t reading)))
                  (λ waits. Hoare-strengthen _ (λ w h. h.1) Keeps-skip)))

    locked-Still : (m : M Unit) → Keeps Still m → Keeps Still (under_lifecycle_lock o k m)
    unfolding under_lifecycle_lock
    locked-Still m h =
        Hoare-bind _ _ (Hoare-weaken _ read_record-Still (λ a w p. p.1) (λ e w p. p)) λ _.
          Hoare-bind _ _ touch-Still λ _.
            Hoare-bind _ _ (Keeps-catch touch _ touch-Still missing)
              λ _. Keeps-finally m sync h sync-Still
      where
        touch-Still : Keeps Still touch
        touch-Still = Hoare-both touch (touch-Keeps Unchanged) (touch-Clocked clock)

        sync-Still : Keeps Still sync
        sync-Still = Hoare-both sync (sync-Keeps Unchanged) (sync-Clocked clock)

        missing : (e : Raised) → Keeps Still (or_missing {A = Unit} meeting_not_found e)
        missing file_not_found = Keeps-raise meeting_not_found
        missing e = Keeps-raise e

    postponed-Still : (e : Raised) → Keeps Still (postponed e)
    postponed-Still os_error = Keeps-skip
    postponed-Still file_not_found = Keeps-skip
    postponed-Still unsafe_path = Keeps-skip
    postponed-Still artifact_integrity = Keeps-skip
    postponed-Still meeting_not_found = Keeps-skip
    postponed-Still e = Keeps-raise e

    -- Where a record of the owner is stored whose upload is settled already, or has no deadline, or
    -- has a deadline that is later than all that the clock will show, a sweep of the janitor changes
    -- no file, whatever the system answers.
    pub sweep_meeting_lem :
        (free : Bool) (w : World)
        → w.files ≡ f
        → w.clock ≡ clock
        → (sweep_meeting free o k w).1.files ≡ f
    unfolding sweep_meeting
    sweep_meeting_lem free w here time =
        (Keeps-after (sweep_meeting free o k)
          (Keeps-catch _ postponed
            (locked-Still _ (Keeps-if free _ _ expire_upload-Still Keeps-skip)) postponed-Still)
          w (here, time)).0
