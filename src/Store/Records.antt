-- ===== src/Store/Records.antt =====
-- Reading the committed state: `read_record`, `read_manifest`, `read_results` and `read_meeting`,
-- with the presence of the upload.
pub mod Reading
pub mod Reads
use hack_ef3da0e3_aib2bsaass.Base.{
  ℕ, ◌+◌, Bool, true, false, not, ◌&&◌, ◌||◌, Option, none, some, List, [], ◌∷◌, if◌then◌else◌,
  is_some, ltb, nat_eq, list_eq, ◌==◌, ok,
}
use hack_ef3da0e3_aib2bsaass.Base.Exec.{Exec, pure, raise, gets, modify, skip, ◌>>=◌, ◌>>◌, catch}
use hack_ef3da0e3_aib2bsaass.Model.Text.{Text}
use hack_ef3da0e3_aib2bsaass.Model.Transcript.{TranscriptV1, valid_transcript}
use hack_ef3da0e3_aib2bsaass.Model.Insights.{
  InsightsV1, ResultBundleV1, valid_insights, valid_bundle,
}
use hack_ef3da0e3_aib2bsaass.Model.Meeting.{
  Meeting, MeetingRecord, ReadyManifest, MeetingStatus, processing, saving_results, is_ready,
  valid_record, valid_manifest,
}
use hack_ef3da0e3_aib2bsaass.Store.World.{
  Env, World, M, Raised, file_not_found, meeting_not_found, artifact_integrity, artifact_not_ready,
  Artifact, Name, live, upload_bin, meeting_json, manifest_json, transcript_json, insights_json,
  transcript_txt,
}
use hack_ef3da0e3_aib2bsaass.Store.Files.{touch, exists, read_file, unlink, sync, or_raise}

abbrev pub keep_if {ℓ} : {A : Type ℓ} → (A → Bool) → Option A → Option A
keep_if p none = none
keep_if p (some a) = if p a then some a else none

module _ ⦃env : Env⦄ where
  -- `datetime.now(UTC)`
  unfoldable pub now : M ℕ
  now w = (ok (w.clock w.reads), record w { reads = w.reads + 1 })

  -- `MeetingRecord.model_validate_json` and its fellows: the JSON is of the type, and the
  -- validators accept it
  unfoldable pub parse_record : env.Bytes → Option MeetingRecord
  parse_record b = keep_if (valid_record env.known_zone) (env.decode_record b)

  unfoldable pub parse_manifest : env.Bytes → Option ReadyManifest
  parse_manifest b = keep_if valid_manifest (env.decode_manifest b)

  unfoldable pub parse_transcript : env.Bytes → Option TranscriptV1
  parse_transcript b = keep_if valid_transcript (env.decode_transcript b)

  unfoldable pub parse_insights : env.Bytes → Option InsightsV1
  parse_insights b = keep_if valid_insights (env.decode_insights b)

  -- `except FileNotFoundError: raise other`
  abbrev pub or_missing : {A : Type 0} → Raised → Raised → M A
  or_missing other file_not_found = raise other
  or_missing other e = raise e

  unfoldable pub read_record : ℕ → ℕ → M MeetingRecord
  read_record owner_id meeting_id = do
    touch
    content ← catch (read_file (live meeting_json)) (or_missing meeting_not_found)
    stored ← or_raise artifact_integrity (parse_record content)
    if not (stored.owner_id == owner_id) || not (stored.meeting.id == meeting_id)
        then raise meeting_not_found
        else pure stored

  unfoldable pub read_manifest : ℕ → ℕ → M ReadyManifest
  read_manifest owner_id meeting_id = do
    stored ← read_record owner_id meeting_id
    touch
    content ← catch (read_file (live manifest_json)) (or_missing artifact_not_ready)
    manifest ← or_raise artifact_integrity (parse_manifest content)
    if not (manifest.owner_id == owner_id) || not (manifest.meeting_id == meeting_id)
        then raise artifact_integrity
        else if not (manifest.attempt == stored.meeting.attempt)
        then raise artifact_not_ready
        else pure manifest

  -- one round of the loop over the committed artifacts
  unfoldable pub read_artifact : Artifact → Text → M env.Bytes
  read_artifact name expected = do
    content ← catch (read_file (live name)) (or_missing artifact_integrity)
    if env.sha256 content == expected then pure content else raise artifact_integrity

  abbrev pub bundle_of : ReadyManifest → TranscriptV1 → InsightsV1 → ResultBundleV1
  bundle_of m t i = record {
    payload = record {
      job_id = m.job_id;
      transcript = t;
      insights = i;
      model_versions = m.model_versions;
    };
    result_hash = m.result_hash;
  }

  unfoldable pub read_results : ℕ → ℕ → M (TranscriptV1 × InsightsV1)
  read_results owner_id meeting_id = do
    manifest ← read_manifest owner_id meeting_id
    touch
    transcript_bytes ← read_artifact transcript_json manifest.artifacts.transcript_json
    insights_bytes ← read_artifact insights_json manifest.artifacts.insights_json
    read_artifact transcript_txt manifest.artifacts.transcript_txt
    transcript ← or_raise artifact_integrity (parse_transcript transcript_bytes)
    insights ← or_raise artifact_integrity (parse_insights insights_bytes)
    if not (valid_bundle env.digest (bundle_of manifest transcript insights))
        then raise artifact_integrity
        else if not (transcript.meeting_id == meeting_id)
        then raise artifact_integrity
        else pure (transcript, insights)

  -- the visible meeting, while its results are not committed
  abbrev shown : Meeting → Meeting
  shown m = record m { status = processing; stage = some saving_results }

  abbrev unready : Meeting → Raised → M Meeting
  unready m artifact_not_ready = pure (shown m)
  unready m e = raise e

  unfoldable pub visible : ℕ → ℕ → Meeting → M Meeting
  visible owner_id meeting_id m =
      if is_ready m.status
      then catch (read_results owner_id meeting_id >> pure m) (unready m)
      else pure m

  -- the clock is read only where the upload is there and has a deadline
  unfoldable pub available : Bool → Option ℕ → M Bool
  available true (some deadline) = do t ← now; pure (ltb t deadline)
  available _ _ = pure false

  unfoldable pub read_meeting : ℕ → ℕ → M Meeting
  read_meeting owner_id meeting_id = do
    stored ← read_record owner_id meeting_id
    meeting ← visible owner_id meeting_id stored.meeting
    touch
    touch
    present ← exists upload_bin
    open_ ← available present meeting.temporary_expires_at
    pure (record meeting { source_available = open_ })

  -- `upload_path` returns a path only for its existence.
  unfoldable pub upload_path : ℕ → ℕ → M Unit
  upload_path owner_id meeting_id = do
    meeting ← read_meeting owner_id meeting_id
    if not meeting.source_available then raise file_not_found else (touch >> touch)

  unfoldable pub upload_present : ℕ → ℕ → M Bool
  upload_present owner_id meeting_id = do
    read_record owner_id meeting_id
    touch
    touch
    exists upload_bin

  unfoldable pub delete_upload : ℕ → ℕ → M Unit
  delete_upload owner_id meeting_id = do
    read_record owner_id meeting_id
    touch
    touch
    unlink upload_bin
    sync
