-- ===== src/Coordinator/Sound.antt =====
-- What a step of the coordinator keeps: the folder is committed, and every submission that was sent
-- to the GPU service was recorded before.
use hack_ef3da0e3_aib2bsaass.Base.{ℕ, ◌≡◌, true, some, List, All}
use hack_ef3da0e3_aib2bsaass.Base.Exec.Hoare.{Hoare, Keeps, Hoare-both, Hoare-weaken}
use hack_ef3da0e3_aib2bsaass.Model.Insights.{ResultBundleV1}
use hack_ef3da0e3_aib2bsaass.Model.Meeting.{MeetingRecord, JobRecord}
use hack_ef3da0e3_aib2bsaass.Model.Gpu.{GpuContextV1}
use hack_ef3da0e3_aib2bsaass.Store.World.{
  Env, Files, Sent, Request, submit, IsCodec, live, meeting_json,
}
use hack_ef3da0e3_aib2bsaass.Store.Files.Laws.{View, On}
use hack_ef3da0e3_aib2bsaass.Store.Records.{parse_record, delete_upload}
use hack_ef3da0e3_aib2bsaass.Store.Updates.{update_meeting}
use hack_ef3da0e3_aib2bsaass.Store.Updates.Written.{Holding, update_meeting-Holding}
use hack_ef3da0e3_aib2bsaass.Store.Publish.{publish_results, job_at}
use hack_ef3da0e3_aib2bsaass.Store.Quiet.{
  update_meeting-quiet, delete_upload-quiet, publish_results-quiet,
}
use hack_ef3da0e3_aib2bsaass.Store.Committed.{IsCommitted}
use hack_ef3da0e3_aib2bsaass.Store.Committed.Keeping.{update_meeting-Keeps, delete_upload-Keeps}
use hack_ef3da0e3_aib2bsaass.Store.Committed.Publishing.{publish_results-Hoare}

module _ ⦃env : Env⦄ where
  -- meeting.json says that this submission was begun: it holds a valid record of the meeting, at
  -- the attempt and with the audio of the submission, and the job of the attempt is marked.
  pub record IsBegun (f : Files) (c : GpuContextV1) : Type 0 where
    pub stored : MeetingRecord
    pub job : JobRecord
    pub bytes : env.Bytes
    pub at_name : f (live meeting_json) ≡ some bytes
    pub parsed : parse_record bytes ≡ some stored
    pub meeting : stored.meeting.id ≡ c.meeting_id
    pub attempt : stored.meeting.attempt ≡ c.attempt
    pub audio : stored.audio_sha256 ≡ some c.audio_sha256
    pub at_attempt : job_at c.attempt stored.jobs ≡ some job
    pub marked : job.submit_started ≡ some true

  -- A submission was sent from a folder that says so; the other requests are free.
  abbrev pub Allowed : Request → Files → Type 0
  Allowed (submit c) f = IsBegun f c
  Allowed _ f = Unit

  abbrev pub IsRecorded : List Sent → Type 0
  IsRecorded = All (λ e. Allowed e.request e.files)

  abbrev pub Sound : View
  Sound f s = IsCommitted f × IsRecorded s

  pub update_meeting-Sound : (o : ℕ) (r : MeetingRecord) → Keeps (On Sound) (update_meeting o r)
  update_meeting-Sound o r =
      Hoare-both (update_meeting o r) (update_meeting-Keeps o r)
        (update_meeting-quiet IsRecorded o r)

  pub delete_upload-Sound : (o m : ℕ) → Keeps (On Sound) (delete_upload o m)
  delete_upload-Sound o m =
      Hoare-both (delete_upload o m) (delete_upload-Keeps o m) (delete_upload-quiet IsRecorded o m)

  module _ (codec : IsCodec env) where
    -- An update that returns has written the record that it was given.
    pub update_meeting-Written :
        (o : ℕ) (r : MeetingRecord)
        → Hoare
            (On Sound)
            (update_meeting o r)
            (λ m. On (λ f s. IsCommitted f × Holding codec IsRecorded r f s))
            (λ e. On Sound)
    update_meeting-Written o r =
        Hoare-both (update_meeting o r) (update_meeting-Keeps o r)
          (update_meeting-Holding codec IsRecorded o r)

    pub publish_results-Sound :
        (o k : ℕ) (b : ResultBundleV1) → Keeps (On Sound) (publish_results o k b)
    publish_results-Sound o k b =
        Hoare-both (publish_results o k b)
          (Hoare-weaken (publish_results o k b) (publish_results-Hoare codec o k b)
            (λ m w h. h.committed) (λ e w h. h))
          (publish_results-quiet IsRecorded o k b)
