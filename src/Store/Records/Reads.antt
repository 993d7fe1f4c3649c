-- ===== src/Store/Records/Reads.antt =====
-- What a successful read says of the folder.
use hack_ef3da0e3_aib2bsaass.Base.{
  ℕ, ◌≡◌, refl, false, Option, none, some, arith, not, ◌||◌, ◌==◌, nat_eq,
}
use hack_ef3da0e3_aib2bsaass.Base.Exec.{catch}
use hack_ef3da0e3_aib2bsaass.Base.Exec.Hoare.{
  Hoare, Hoare-bind, Hoare-if, Hoare-weaken, Hoare-pure, Hoare-raise, Hoare-catch,
}
use hack_ef3da0e3_aib2bsaass.Model.Meeting.{MeetingRecord, ReadyManifest}
use hack_ef3da0e3_aib2bsaass.Store.World.{
  Env, Raised, Name, Files, live, meeting_json, manifest_json, file_not_found, meeting_not_found,
  artifact_not_ready, artifact_integrity,
}
use hack_ef3da0e3_aib2bsaass.Store.Files.{touch, read_file, or_raise}
use hack_ef3da0e3_aib2bsaass.Store.Files.Laws.{View, On, touch-Keeps, read_file-Hoare}
use hack_ef3da0e3_aib2bsaass.Store.Records.{
  parse_record, parse_manifest, or_missing, read_record, read_manifest,
}
use hack_ef3da0e3_aib2bsaass.Store.Records.Reading.{read_record-Keeps}

module _ ⦃env : Env⦄ where
  -- meeting.json holds this record, which passes its validation
  pub record Stored (f : Files) (o m : ℕ) (r : MeetingRecord) : Type 0 where
    pub bytes : env.Bytes
    pub at_name : f (live meeting_json) ≡ some bytes
    pub parsed : parse_record bytes ≡ some r
    pub owner : r.owner_id ≡ o
    pub meeting : r.meeting.id ≡ m

  -- A file has one content, and the content is one record.
  pub Stored-once :
      (f : Files) (o k : ℕ) (r s : MeetingRecord) → Stored f o k r → Stored f o k s → r ≡ s
  Stored-once f o k r s p q = cc (p.at_name, q.at_name, p.parsed, q.parsed)

  -- manifest.json holds this manifest, which passes its validation
  pub record Marked (f : Files) (o m : ℕ) (r : ReadyManifest) : Type 0 where
    pub bytes : env.Bytes
    pub at_name : f (live manifest_json) ≡ some bytes
    pub parsed : parse_manifest bytes ≡ some r
    pub owner : r.owner_id ≡ o
    pub meeting : r.meeting_id ≡ m

  module _ (I : View) where
    -- a file is read, or it is told that there is none
    read_or-Hoare :
        (n : Name) (e : Raised)
        → Hoare
            (On I)
            (catch (read_file n) (or_missing e))
            (λ b. On (λ f s. I f s × (f n ≡ some b)))
            (λ e. On I)
    read_or-Hoare n e =
        Hoare-catch (read_file n) (or_missing e) (read_file-Hoare I n) λ d. missing d
      where
        missing :
            (d : Raised)
            → Hoare
                (On I)
                (or_missing {A = env.Bytes} e d)
                (λ b. On (λ f s. I f s × (f n ≡ some b)))
                (λ e. On I)
        missing file_not_found = Hoare-raise e (λ w h. h)
        missing d = Hoare-raise d (λ w h. h)

    pub parsed-Hoare :
        {A : Type 0} (J : View) (e : Raised) (o : Option A)
        → Hoare (On J) (or_raise e o) (λ a. On (λ f s. J f s × (o ≡ some a))) (λ e. On J)
    parsed-Hoare J e none = Hoare-raise e (λ w h. h)
    parsed-Hoare J e (some a) = Hoare-pure a (λ w h. (h, refl))

    -- The record that is read is the one that meeting.json holds.
    pub read_record-Hoare :
        (o m : ℕ)
        → Hoare (On I) (read_record o m) (λ r. On (λ f s. I f s × Stored f o m r)) (λ e. On I)
    unfolding read_record
    read_record-Hoare o m = Hoare-bind touch _ (touch-Keeps I) λ _.
        Hoare-bind _ _ (read_or-Hoare (live meeting_json) meeting_not_found) λ b.
          Hoare-bind _ _
            (Hoare-weaken _
              (parsed-Hoare (λ f s. I f s × (f (live meeting_json) ≡ some b)) artifact_integrity
                (parse_record b))
              (λ a w h. h) (λ e w h. h.0))
            λ r.
              Hoare-if _ _ _ (λ bad. Hoare-raise meeting_not_found (λ w h. h.0.0))
                (λ good. Hoare-pure r (λ w h. (
                  h.0.0,
                  record {
                    bytes = b;
                    at_name = h.0.1;
                    parsed = h.1;
                    owner = ids_owner r good;
                    meeting = ids_meeting r good;
                  },
                )))
      where
        ids_owner :
            (r : MeetingRecord)
            → (not (r.owner_id == o) || not (r.meeting.id == m)) ≡ false
            → r.owner_id ≡ o
        ids_owner r h = ground arith

        ids_meeting :
            (r : MeetingRecord)
            → (not (r.owner_id == o) || not (r.meeting.id == m)) ≡ false
            → r.meeting.id ≡ m
        ids_meeting r h = ground arith

    -- The manifest that is read is the one that manifest.json holds.
    pub read_manifest-Hoare :
        (o m : ℕ)
        → Hoare (On I) (read_manifest o m) (λ r. On (λ f s. I f s × Marked f o m r)) (λ e. On I)
    unfolding read_manifest
    read_manifest-Hoare o m = Hoare-bind (read_record o m) _ (read_record-Keeps I o m) λ stored.
        Hoare-bind touch _ (touch-Keeps I) λ _.
          Hoare-bind _ _ (read_or-Hoare (live manifest_json) artifact_not_ready) λ b.
            Hoare-bind _ _
              (Hoare-weaken _
                (parsed-Hoare (λ f s. I f s × (f (live manifest_json) ≡ some b)) artifact_integrity
                  (parse_manifest b))
                (λ a w h. h) (λ e w h. h.0))
              λ r.
                Hoare-if _ _ _ (λ bad. Hoare-raise artifact_integrity (λ w h. h.0.0))
                  (λ good.
                    Hoare-if _ _ _ (λ stale. Hoare-raise artifact_not_ready (λ w h. h.0.0))
                      (λ current. Hoare-pure r (λ w h. (
                        h.0.0,
                        record {
                          bytes = b;
                          at_name = h.0.1;
                          parsed = h.1;
                          owner = ids_owner r good;
                          meeting = ids_meeting r good;
                        },
                      ))))
      where
        ids_owner :
            (r : ReadyManifest)
            → (not (r.owner_id == o) || not (r.meeting_id == m)) ≡ false
            → r.owner_id ≡ o
        ids_owner r h = ground arith

        ids_meeting :
            (r : ReadyManifest)
            → (not (r.owner_id == o) || not (r.meeting_id == m)) ≡ false
            → r.meeting_id ≡ m
        ids_meeting r h = ground arith
