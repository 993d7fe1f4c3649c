-- ===== src/Store/Updates/Written.antt =====
-- What an update has written where it returns.
use hack_ef3da0e3_aib2bsaass.Base.{
  ℕ, ◌≡◌, refl, ◌∙◌, sym, subst, ap, true, false, some, List, arith, inl, inr, not, ◌==◌, nat_eq,
  ◌+◌, ◌⊎◌, ◌&&◌,
}
use hack_ef3da0e3_aib2bsaass.Base.Exec.{pure, skip, ◌>>◌}
use hack_ef3da0e3_aib2bsaass.Base.Exec.Hoare.{
  Hoare, Post, Hoare-bind, Hoare-if, Hoare-weaken, Hoare-strengthen, Hoare-raise, Hoare-pure,
  Hoare-given,
}
use hack_ef3da0e3_aib2bsaass.Model.Meeting.{
  MeetingRecord, MeetingStatus, failed, queued, is_failed, is_queued,
}
use hack_ef3da0e3_aib2bsaass.Store.World.{
  Env, World, Files, Sent, IsCodec, live, meeting_json, validation_error, value_error,
}
use hack_ef3da0e3_aib2bsaass.Store.Files.{touch, atomic_write}
use hack_ef3da0e3_aib2bsaass.Store.Files.Laws.{View, On, touch-Keeps, atomic_write-Hoare}
use hack_ef3da0e3_aib2bsaass.Store.Records.{parse_record, read_record, read_meeting}
use hack_ef3da0e3_aib2bsaass.Store.Records.Reads.{
  parsed-Hoare, Stored, Stored-once, read_record-Hoare,
}
use hack_ef3da0e3_aib2bsaass.Store.Records.Reading.{read_record-Keeps, read_meeting-Keeps}
use hack_ef3da0e3_aib2bsaass.Store.Updates.{update_meeting, archive_if_retried, check_results}
use hack_ef3da0e3_aib2bsaass.Store.Committed.{write_self}
use hack_ef3da0e3_aib2bsaass.Store.Publish.Faultless.{known}
use hack_ef3da0e3_aib2bsaass.Store.Quiet.{Logged, archive_attempt-quiet, check_results-quiet}

pub failed_if : (s : MeetingStatus) → is_failed s ≡ true → s ≡ failed
failed_if failed h = refl
failed_if s h = cc

queued_if : (s : MeetingStatus) → is_queued s ≡ true → s ≡ queued
queued_if queued h = refl
queued_if s h = cc

-- The new record may follow the old one: the attempt is the same, or a failed meeting is queued
-- for its next attempt.
abbrev pub IsFit : MeetingRecord → MeetingRecord → Type 0
IsFit old new =
    (new.meeting.attempt ≡ old.meeting.attempt)
    ⊎ ((old.meeting.status ≡ failed)
        × (new.meeting.status ≡ queued)
        × (new.meeting.attempt ≡ old.meeting.attempt + 1))

-- The new record follows a record with `X`.
pub record Follows (X : MeetingRecord → Type 0) (o : ℕ) (new : MeetingRecord) : Type 0 where
  pub old : MeetingRecord
  pub known_as : X old
  pub owner : new.owner_id ≡ o
  pub created : new.meeting.created_at ≡ old.meeting.created_at
  pub fit : IsFit old new

module _ ⦃env : Env⦄ (codec : IsCodec env) where
  -- A record that passes its validation is what is parsed of its bytes.
  pub parse_encoded :
      (given stored : MeetingRecord)
      → parse_record (env.encode_record given) ≡ some stored
      → stored ≡ given
  unfolding parse_record
  parse_encoded given stored h = ground (arith, codec.record_back given, h)

  fit_retry :
      (old new : MeetingRecord)
      → not (
          is_failed old.meeting.status
          && is_queued new.meeting.status
          && (new.meeting.attempt == old.meeting.attempt + 1))
        ≡ false
      → (old.meeting.status ≡ failed)
        × (new.meeting.status ≡ queued)
        × (new.meeting.attempt ≡ old.meeting.attempt + 1)
  fit_retry old new h =
      ground (arith, h, failed_if old.meeting.status, queued_if new.meeting.status)

  module _ (P : List Sent → Type 0) where
    -- meeting.json holds this record, and it is valid
    abbrev pub Holding : MeetingRecord → View
    Holding r f s =
        P s
        × (f (live meeting_json) ≡ some (env.encode_record r))
        × (parse_record (env.encode_record r) ≡ some r)

    write_record :
        (r : MeetingRecord)
        → parse_record (env.encode_record r) ≡ some r
        → Hoare
            (On (Logged P))
            (atomic_write (live meeting_json) (env.encode_record r) false)
            (λ u. On (Holding r))
            (λ e. On (Logged P))
    write_record r valid =
        atomic_write-Hoare (Logged P) (Holding r) (Logged P) (live meeting_json)
          (env.encode_record r) false
          (λ f s h new. (h, write_self (live meeting_json) (env.encode_record r) f, valid))
          (λ f s h same. (h, same, valid)) (λ f s h. h) (λ f s h. h.0)

    archive_if_retried-IsFit :
        (old new : MeetingRecord)
        → Hoare
            (On (Logged P))
            (archive_if_retried old new)
            (λ u w. P w.sent × IsFit old new)
            (λ e. On (Logged P))
    unfolding archive_if_retried skip pure
    archive_if_retried-IsFit old new =
        Hoare-if _ _ _
          (λ other.
            Hoare-if _ _ _ (λ bad. Hoare-raise value_error (λ w h. h))
              (λ good.
                Hoare-weaken _ (archive_attempt-quiet P old)
                  (λ u w h. (h, inr (fit_retry old new good))) (λ e w h. h)))
          (λ same. Hoare-pure tt (λ w h. (h, inl (ground (arith, same)))))

    -- An update that returns has written the record that it was given, which is fit to follow the
    -- record that it has read.
    pub update_meeting-Hoare :
        (I : View) (o : ℕ) (given : MeetingRecord) (X : MeetingRecord → Type 0)
        → ((f : Files) (s : List Sent) → I f s → P s)
        → Hoare
            (On I)
            (read_record o given.meeting.id)
            (λ old w. P w.sent × X old)
            (λ e. On (Logged P))
        → Hoare
            (On I)
            (update_meeting o given)
            (λ m w. Holding given w.files w.sent × Follows X o given)
            (λ e. On (Logged P))
    unfolding update_meeting
    update_meeting-Hoare I o given X quiet read =
        Hoare-bind _ _
          (Hoare-weaken _
            (parsed-Hoare I I validation_error (parse_record (env.encode_record given)))
            (λ a w h.
              let e = parse_encoded given a h.1 in
              (e, (h.0, h.1 ∙ ap (λ (r : MeetingRecord). some r) e)))
            (λ e w h. quiet w.files w.sent h))
          (known {P = On (λ f t. I f t × (parse_record (env.encode_record given) ≡ some given))} _
            given
            (Hoare-given _ (λ w h. h.1)
              λ valid. Hoare-bind _ _ (Hoare-strengthen _ (λ w h. h.0) read) λ old.
                Hoare-if _ _ _ (λ bad. Hoare-raise value_error (λ w h. h.0))
                  λ good.
                    Hoare-given _ (λ w h. h.1)
                      λ x.
                        Hoare-bind _ _
                          (Hoare-strengthen _ (λ w h. h.0) (archive_if_retried-IsFit old given))
                          λ _.
                            Hoare-given _ (λ w h. h.1)
                              λ fit.
                                Hoare-strengthen _ (λ w h. h.0)
                                  (finish_with old x valid (ground (arith, good))
                                    (ground (arith, good)) fit)))
      where
        finish_with :
            (old : MeetingRecord)
            → X old
            → parse_record (env.encode_record given) ≡ some given
            → given.owner_id ≡ o
            → given.meeting.created_at ≡ old.meeting.created_at
            → IsFit old given
            → Hoare
                (On (Logged P))
                (do
                  check_results o given.meeting
                  touch
                  atomic_write (live meeting_json) (env.encode_record given) false
                  read_meeting o given.meeting.id)
                (λ m w. Holding given w.files w.sent × Follows X o given)
                (λ e. On (Logged P))
        finish_with old x valid owner created fit =
            Hoare-bind _ _ (check_results-quiet P o given.meeting) λ _.
              Hoare-bind _ _ (touch-Keeps (Logged P)) λ _.
                Hoare-bind _ _ (write_record given valid) λ _.
                  Hoare-weaken _ (read_meeting-Keeps (Holding given) o given.meeting.id)
                    (λ m w h. (
                      h,
                      record {
                        old = old;
                        known_as = x;
                        owner = owner;
                        created = created;
                        fit = fit;
                      },
                    ))
                    (λ e w h. h.0)

    -- without what was known of the record before
    pub update_meeting-Holding :
        (o : ℕ) (given : MeetingRecord)
        → Hoare
            (On (Logged P))
            (update_meeting o given)
            (λ m. On (Holding given))
            (λ e. On (Logged P))
    update_meeting-Holding o given =
        Hoare-weaken _
          (update_meeting-Hoare (Logged P) o given (λ r. Unit) (λ f s h. h)
            (Hoare-weaken _ (read_record-Keeps (Logged P) o given.meeting.id) (λ r w h. (h, tt))
              (λ e w h. h)))
          (λ m w h. h.0) (λ e w h. h)

  -- the record that is read is this one
  pub read_record-Stored :
      (o k : ℕ) (old : MeetingRecord)
      → Hoare
          (On (λ f s. Stored f o k old))
          (read_record o k)
          (λ r w. Stored w.files o k old × (r ≡ old))
          (λ e. On (λ f s. Stored f o k old))
  read_record-Stored o k old =
      Hoare-weaken _ (read_record-Hoare (λ f s. Stored f o k old) o k)
        (λ r w h. (h.0, Stored-once w.files o k r old h.1 h.0)) (λ e w h. h)

  -- Where a record of the owner is stored, an update that returns has written the record that it
  -- was given, whose owner and creation are those of the stored one, and whose attempt is too, except
  -- that a failed meeting may be queued for its next attempt. The system may fail as it likes, and
  -- what was written as JSON is read back.
  pub update_meeting_lem :
      (o : ℕ) (given old : MeetingRecord) (w : World)
      → Stored w.files o given.meeting.id old
      → Post
          (λ m v.
            (v.files (live meeting_json) ≡ some (env.encode_record given))
            × (given.owner_id ≡ old.owner_id)
            × (given.meeting.created_at ≡ old.meeting.created_at)
            × IsFit old given)
          (λ e v. Unit)
          (update_meeting o given w)
  update_meeting_lem o given old w h =
      (Hoare-weaken _
          (update_meeting-Hoare (λ s. Unit) (λ f s. Stored f o given.meeting.id old) o given
            (λ r. r ≡ old) (λ f s p. tt)
            (Hoare-weaken _ (read_record-Stored o given.meeting.id old) (λ r v p. (tt, p.1))
              (λ e v p. tt)))
          (λ m v p. (
            p.0.1,
            p.1.owner ∙ sym h.owner,
            p.1.created ∙ ap (λ (r : MeetingRecord). r.meeting.created_at) p.1.known_as,
            subst (λ r. IsFit r given) p.1.known_as p.1.fit,
          ))
          (λ e v p. tt)).at
        w h
