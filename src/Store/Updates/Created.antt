-- ===== src/Store/Updates/Created.antt =====
-- What the creation of a meeting has written where it returns.
use hack_ef3da0e3_aib2bsaass.Base.{ℕ, ◌≡◌, refl, ◌∙◌, false, not, leb, Option, some, [], ◌∷◌}
use hack_ef3da0e3_aib2bsaass.Base.Exec.{raise}
use hack_ef3da0e3_aib2bsaass.Base.Exec.Hoare.{
  Hoare, Keeps, Post, Hoare-bind, Hoare-if, Hoare-weaken, Hoare-raise, Hoare-pure, Hoare-catch,
}
use hack_ef3da0e3_aib2bsaass.Model.Meeting.{
  Meeting, MeetingRecord, MeetingMetadata, valid_metadata, SourceKind, AudioExtension, queued,
  pending, new_job,
}
use hack_ef3da0e3_aib2bsaass.Store.World.{
  Env, World, Files, M, Raised, value_error, validation_error, live, meeting_json, upload_bin,
  name_beq, write, remove, Name,
}
use hack_ef3da0e3_aib2bsaass.Store.Files.{unlink, atomic_write}
use hack_ef3da0e3_aib2bsaass.Store.Files.Laws.{
  View, On, touch-Keeps, sync-Keeps, perform-Hoare, perform-Keeps, atomic_write-Hoare,
}
use hack_ef3da0e3_aib2bsaass.Store.Records.Reading.{now-Keeps}
use hack_ef3da0e3_aib2bsaass.Store.Updates.{create_meeting, withdraw, created}
use hack_ef3da0e3_aib2bsaass.Store.Committed.{write_self, write-other}

module _ ⦃env : Env⦄ (o m : ℕ) (metadata_ : MeetingMetadata) (audio : env.Bytes) (kind : SourceKind)
    (extension : Option AudioExtension) (hours : ℕ) where
  -- meeting.json holds the record of this new meeting, and the upload its audio.
  pub record IsCreated (f : Files) (a : Meeting) : Type 0 where
    pub stored : MeetingRecord
    pub at_name : f (live meeting_json) ≡ some (env.encode_record stored)
    pub upload : f upload_bin ≡ some audio
    pub meeting : stored.meeting ≡ a
    pub owner : stored.owner_id ≡ o
    pub identifier : a.id ≡ m
    pub described : a.metadata ≡ metadata_
    pub waiting : a.status ≡ queued
    pub first : a.attempt ≡ 1
    pub hash : stored.audio_sha256 ≡ some (env.sha256 audio)
    pub jobs : stored.jobs ≡ new_job 1 (some false) ∷ []

  abbrev first_record : ℕ → MeetingRecord
  first_record t = record {
    owner_id = o;
    meeting = created m metadata_ t kind hours;
    audio_sha256 = some (env.sha256 audio);
    audio_extension = extension;
    local_cleanup_status = pending;
    jobs = new_job 1 (some false) ∷ [];
  }

  abbrev Any : View
  Any f s = Unit

  abbrev Uploaded : View
  Uploaded f s = f upload_bin ≡ some audio

  abbrev Recorded : MeetingRecord → View
  Recorded r f s =
      (f (live meeting_json) ≡ some (env.encode_record r)) × (f upload_bin ≡ some audio)

  write_record :
      (r : MeetingRecord)
      → Hoare
          (On Uploaded)
          (atomic_write (live meeting_json) (env.encode_record r) false)
          (λ u. On (Recorded r))
          (λ e. On Any)
  unfolding name_beq
  write_record r =
      atomic_write-Hoare Uploaded (Recorded r) Any (live meeting_json) (env.encode_record r) false
        (λ f s h new. (
          write_self (live meeting_json) (env.encode_record r) f,
          write-other (live meeting_json) upload_bin (env.encode_record r) f refl ∙ h,
        ))
        (λ f s h same. (same, h)) (λ f s h. tt) (λ f s h. tt)

  unlink-Any : (n : Name) → Keeps (On Any) (unlink n)
  unfolding unlink
  unlink-Any n = perform-Keeps Any (remove n) (λ f s h. h)

  -- the handler raises again
  withdraw-raises :
      (Q : Unit → World → Type 0) (e : Raised) → Hoare (On Any) (withdraw e) Q (λ d. On Any)
  withdraw-raises Q e = Hoare-bind _ _ (unlink-Any (live meeting_json)) λ _.
      Hoare-bind _ _ (sync-Keeps Any)
        λ _. Hoare-bind _ _ (sync-Keeps Any) λ _. Hoare-raise e (λ w h. h)

  through :
      (n : M Unit) → Keeps (On Uploaded) n → Hoare (On Uploaded) n (λ u. On Uploaded) (λ e. On Any)
  through n h = Hoare-weaken n h (λ u w p. p) (λ e w p. tt)

  create_meeting-IsCreated :
      Hoare
        (On Any)
        (create_meeting o m metadata_ audio kind extension hours)
        (λ a w. IsCreated w.files a)
        (λ e. On Any)
  unfolding create_meeting
  create_meeting-IsCreated =
      Hoare-if (not (valid_metadata env.known_zone metadata_)) (raise validation_error) _
        (λ bad. Hoare-raise validation_error (λ w h. h))
        λ valid.
          Hoare-if (leb hours 0) (raise value_error) _ (λ bad. Hoare-raise value_error (λ w h. h))
            λ positive. Hoare-bind _ _ (touch-Keeps Any) λ _. Hoare-bind _ _ (touch-Keeps Any) λ _.
              Hoare-bind _ _ (now-Keeps Any) λ t. Hoare-bind _ _ (touch-Keeps Any) λ _.
                Hoare-bind _ _
                  (perform-Hoare Any Uploaded Any (write upload_bin audio)
                    (λ f s h. write_self upload_bin audio f) (λ f s h. h) (λ f s h. tt))
                  λ _. Hoare-bind _ _ (through _ (sync-Keeps Uploaded)) λ _.
                    Hoare-bind _ _ (through _ (touch-Keeps Uploaded)) λ _.
                      Hoare-bind _ _
                        (Hoare-catch _ withdraw
                          (Hoare-bind _ _ (write_record (first_record t)) λ _.
                            Hoare-weaken _ (sync-Keeps (Recorded (first_record t))) (λ u w h. h)
                              (λ e w h. tt))
                          (withdraw-raises (λ u. On (Recorded (first_record t)))))
                        λ _. Hoare-pure (created m metadata_ t kind hours) (λ w h. record {
                          stored = first_record t;
                          at_name = h.0;
                          upload = h.1;
                          meeting = refl;
                          owner = refl;
                          identifier = refl;
                          described = refl;
                          waiting = refl;
                          first = refl;
                          hash = refl;
                          jobs = refl;
                        })

  -- The creation of a meeting that returns has stored the audio as the upload, and a record of the
  -- meeting that it returns: of this owner, with this ID and metadata, queued at its first attempt,
  -- with the hash of the audio and one job that was not submitted. The system may fail as it likes.
  pub create_meeting_lem :
      (w : World)
      → Post
          (λ a v. IsCreated v.files a)
          (λ e v. Unit)
          (create_meeting o m metadata_ audio kind extension hours w)
  create_meeting_lem w = create_meeting-IsCreated.at w tt
