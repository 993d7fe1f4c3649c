-- ===== src/Store/Updates.antt =====
-- `create_meeting`, `update_meeting` and `_archive_attempt`.
pub mod Written
pub mod Created
use hack_ef3da0e3_aib2bsaass.Base.{
  ℕ, ◌+◌, ◌*◌, Bool, true, false, not, ◌&&◌, ◌||◌, Option, none, some, [], ◌∷◌, if◌then◌else◌, leb,
  nat_eq, ◌==◌,
}
use hack_ef3da0e3_aib2bsaass.Base.Exec.{pure, raise, skip, ◌>>=◌, ◌>>◌, catch, for_each}
use hack_ef3da0e3_aib2bsaass.Model.Meeting.{
  Meeting, MeetingRecord, MeetingMetadata, SourceKind, AudioExtension, is_ready, is_failed,
  is_queued, valid_metadata, queued, pending, new_job,
}
use hack_ef3da0e3_aib2bsaass.Store.World.{
  Env, M, Raised, value_error, validation_error, Artifact, live, upload_bin, archived, meeting_json,
  manifest_json, transcript_json, insights_json, transcript_txt, write,
}
use hack_ef3da0e3_aib2bsaass.Store.Files.{
  touch, sync, exists, read_file, unlink, atomic_write, perform, or_raise,
}
use hack_ef3da0e3_aib2bsaass.Store.Records.{
  now, parse_record, read_record, read_results, read_meeting,
}

module _ ⦃env : Env⦄ where
  -- one round of the loop that moves the originals of an attempt
  unfoldable pub archive_artifact : ℕ → Artifact → M Unit
  archive_artifact attempt name = do
    touch
    present ← exists (live name)
    if present
        then (do
          content ← read_file (live name)
          atomic_write (archived attempt name) content true
          unlink (live name)
          sync)
        else skip

  -- `_archive_attempt`. The commit marker goes first.
  unfoldable pub archive_attempt : MeetingRecord → M Unit
  archive_attempt old = do
    touch
    touch
    touch
    atomic_write (archived old.meeting.attempt meeting_json) (env.encode_record old) true
    for_each (manifest_json ∷ transcript_json ∷ insights_json ∷ transcript_txt ∷ [])
        (archive_artifact old.meeting.attempt)
    sync

  abbrev retries : MeetingRecord → MeetingRecord → Bool
  retries old new =
      is_failed old.meeting.status
      && is_queued new.meeting.status
      && new.meeting.attempt == old.meeting.attempt + 1

  unfoldable pub archive_if_retried : MeetingRecord → MeetingRecord → M Unit
  archive_if_retried old new =
      if not (new.meeting.attempt == old.meeting.attempt)
      then if not (retries old new) then raise value_error else archive_attempt old
      else skip

  unfoldable pub check_results : ℕ → Meeting → M Unit
  check_results owner_id m =
      if is_ready m.status then (read_results owner_id m.id >> skip) else skip

  unfoldable pub update_meeting : ℕ → MeetingRecord → M Meeting
  update_meeting owner_id given = do
    stored ← or_raise validation_error (parse_record (env.encode_record given))
    old ← read_record owner_id stored.meeting.id
    if not (stored.owner_id == owner_id)
          || not (stored.meeting.created_at == old.meeting.created_at)
        then raise value_error
        else (do
          archive_if_retried old stored
          check_results owner_id stored.meeting
          touch
          atomic_write (live meeting_json) (env.encode_record stored) false
          read_meeting owner_id stored.meeting.id)

  -- the number of microseconds in an hour
  abbrev hour : ℕ
  hour = 3600 * 1000000

  abbrev created : ℕ → MeetingMetadata → ℕ → SourceKind → ℕ → Meeting
  created meeting_id metadata_ t kind retention_hours = record {
    metadata = metadata_;
    id = meeting_id;
    created_at = t;
    updated_at = t;
    attempt = 1;
    revision = 0;
    status = queued;
    stage = none;
    source_available = true;
    cleanup_status = pending;
    temporary_expires_at = some (t + retention_hours * hour);
    source = record { kind = kind; label = false; fixture_id = none };
    failure = none;
  }

  -- Every exception but a kill of the process takes the marker away again.
  abbrev pub withdraw : Raised → M Unit
  withdraw e = do unlink (live meeting_json); sync; sync; raise e

  -- `create_meeting` into the new folder of a fresh UUID, with the upload as bytes.
  unfoldable pub create_meeting :
      ℕ → ℕ → MeetingMetadata → env.Bytes → SourceKind → Option AudioExtension → ℕ → M Meeting
  create_meeting owner_id meeting_id metadata_ audio kind extension retention_hours =
      if not (valid_metadata env.known_zone metadata_)
      then raise validation_error
      else if leb retention_hours 0
      then raise value_error
      else (do
        touch
        touch
        t ← now
        let meeting = created meeting_id metadata_ t kind retention_hours
        touch
        perform (write upload_bin audio)
        sync
        let stored : MeetingRecord = record {
          owner_id = owner_id;
          meeting = meeting;
          audio_sha256 = some (env.sha256 audio);
          audio_extension = extension;
          local_cleanup_status = pending;
          jobs = new_job 1 (some false) ∷ [];
        }
        touch
        catch (atomic_write (live meeting_json) (env.encode_record stored) false >> sync) withdraw
        pure meeting)
