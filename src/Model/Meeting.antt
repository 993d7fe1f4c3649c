-- ===== src/Model/Meeting.antt =====
-- models/meeting.py: the public meeting, and the private record that the coordinator keeps.
pub mod History
pub mod Jobs
use hack_ef3da0e3_aib2bsaass.Base.{
  ℕ, Bool, true, false, not, ◌&&◌, ◌||◌, Option, none, some, List, [], ◌∷◌, map, leb, ltb, ◌==◌,
  nat_eq, list_eq, is_some, any, all, unique, length, Eq, nat_beq,
}
use hack_ef3da0e3_aib2bsaass.Model.Text.{Text, non_empty_text, person_name, is_sha256}
use hack_ef3da0e3_aib2bsaass.Model.Insights.{ModelVersions, valid_versions, valid_optional}

pub data MeetingStatus : Type 0 where
  queued processing review_required approved failed : MeetingStatus

pub data MeetingStage : Type 0 where
  uploading_to_gpu ingesting transcribing diarizing analyzing saving_results exporting :
      MeetingStage

pub data CleanupStatus : Type 0 where
  pending deleted expired : CleanupStatus

pub data LanguageHint : Type 0 where
  auto ru kk mixed : LanguageHint

pub data AudioExtension : Type 0 where
  wav mp3 m4a ogg webm : AudioExtension

-- `status in {"queued", "processing"}`
abbrev pub is_running : MeetingStatus → Bool
is_running queued = true
is_running processing = true
is_running _ = false

-- `status in {"review_required", "approved"}`
abbrev pub is_ready : MeetingStatus → Bool
is_ready review_required = true
is_ready approved = true
is_ready _ = false

abbrev pub is_queued : MeetingStatus → Bool
is_queued queued = true
is_queued _ = false

abbrev pub is_processing : MeetingStatus → Bool
is_processing processing = true
is_processing _ = false

abbrev pub is_review_required : MeetingStatus → Bool
is_review_required review_required = true
is_review_required _ = false

abbrev pub is_approved : MeetingStatus → Bool
is_approved approved = true
is_approved _ = false

abbrev pub is_failed : MeetingStatus → Bool
is_failed failed = true
is_failed _ = false

abbrev pub is_pending : CleanupStatus → Bool
is_pending pending = true
is_pending _ = false

abbrev pub is_expired : CleanupStatus → Bool
is_expired expired = true
is_expired _ = false

pub record MeetingMetadata : Type 0 where
  pub title : Text
  pub meeting_date : ℕ
  pub timezone : Text
  pub participants : List Text
  pub recording_notice_confirmed : Bool
  pub language_hint : LanguageHint

-- `MeetingMetadata`. Whether the zone is in the IANA database is asked of the system.
unfoldable pub valid_metadata : (Text → Bool) → MeetingMetadata → Bool
valid_metadata known_zone m =
    non_empty_text m.title
    && leb (length m.title) 120
    && leb (length m.participants) 30
    && all person_name m.participants
    && m.recording_notice_confirmed
    && known_zone m.timezone
    && unique m.participants

pub data SourceKind : Type 0 where
  uploaded_audio browser_recording demo_fixture : SourceKind

abbrev pub is_demo : SourceKind → Bool
is_demo demo_fixture = true
is_demo _ = false

-- The label is one literal, so only its presence is kept.
pub record MeetingSource : Type 0 where
  pub kind : SourceKind
  pub label : Bool
  pub fixture_id : Option Text

-- A demo source has its label and fixture ID, and no other source has either.
unfoldable pub valid_source : MeetingSource → Bool
valid_source s =
    not (is_demo s.kind && (not s.label || not (is_some s.fixture_id)))
    && not (not (is_demo s.kind) && (s.label || is_some s.fixture_id))

pub data FailureCode : Type 0 where
  invalid_audio processing_failed storage_failed source_expired gpu_unavailable invalid_result :
      FailureCode

pub record Meeting : Type 0 where
  pub metadata : MeetingMetadata
  pub open metadata use *
  pub id : ℕ
  pub created_at : ℕ
  pub updated_at : ℕ
  pub attempt : ℕ
  pub revision : ℕ
  pub status : MeetingStatus
  pub stage : Option MeetingStage
  pub source_available : Bool
  pub cleanup_status : CleanupStatus
  pub temporary_expires_at : Option ℕ
  pub source : MeetingSource
  pub failure : Option FailureCode

abbrev pub is_exporting : MeetingStage → Bool
is_exporting exporting = true
is_exporting _ = false

-- the status that a stage goes with
abbrev pub stage_fits : MeetingStatus → Option MeetingStage → Bool
stage_fits status none = true
stage_fits status (some exporting) = is_approved status
stage_fits status (some _) = is_processing status

-- `Meeting.valid_stage`
unfoldable pub valid_stage : Meeting → Bool
valid_stage m = stage_fits m.status m.stage

-- `Meeting`, its fields' constraints included.
unfoldable pub valid_meeting : (Text → Bool) → Meeting → Bool
valid_meeting known_zone m =
    valid_metadata known_zone m.metadata
    && leb 1 m.attempt
    && valid_optional non_empty_text m.source.fixture_id
    && valid_source m.source
    && valid_stage m

-- `submit_started` is `none` in records older than the field.
pub record JobRecord : Type 0 where
  pub attempt : ℕ
  pub job_id : Option ℕ
  pub submit_started : Option Bool
  pub result_hash : Option Text
  pub cleanup_status : CleanupStatus
  pub expires_at : Option ℕ
  pub receipt_expires_at : Option ℕ
  pub ack_pending : Bool

-- `JobRecord(attempt=…, submit_started=…)`
abbrev pub new_job : ℕ → Option Bool → JobRecord
new_job attempt started = record {
  attempt = attempt;
  job_id = none;
  submit_started = started;
  result_hash = none;
  cleanup_status = pending;
  expires_at = none;
  receipt_expires_at = none;
  ack_pending = false;
}

pub record MeetingRecord : Type 0 where
  pub owner_id : ℕ
  pub meeting : Meeting
  pub audio_sha256 : Option Text
  pub audio_extension : Option AudioExtension
  pub local_cleanup_status : CleanupStatus
  pub jobs : List JobRecord

abbrev pub attempts : List JobRecord → List ℕ
attempts = map (λ j. j.attempt)

abbrev pub is_nil {ℓ} : {A : Type ℓ} → List A → Bool
is_nil [] = true
is_nil (_ ∷ _) = false

-- `MeetingRecord.valid_job_history`
unfoldable pub valid_job_history : MeetingRecord → Bool
valid_job_history r = not (
    is_nil r.jobs
    || not (unique (attempts r.jobs))
    || any (λ a. ltb r.meeting.attempt a) (attempts r.jobs))

abbrev valid_job : JobRecord → Bool
valid_job j = leb 1 j.attempt && valid_optional is_sha256 j.result_hash

-- `MeetingRecord.model_validate_json`, its fields' constraints included.
unfoldable pub valid_record : (Text → Bool) → MeetingRecord → Bool
valid_record known_zone r =
    valid_meeting known_zone r.meeting
    && valid_optional is_sha256 r.audio_sha256
    && all valid_job r.jobs
    && valid_job_history r

pub record ArtifactHashes : Type 0 where
  pub transcript_json : Text
  pub insights_json : Text
  pub transcript_txt : Text

pub record ReadyManifest : Type 0 where
  pub owner_id : ℕ
  pub meeting_id : ℕ
  pub attempt : ℕ
  pub job_id : ℕ
  pub result_hash : Text
  pub model_versions : ModelVersions
  pub artifacts : ArtifactHashes

-- `ReadyManifest.model_validate_json`, its fields' constraints included.
unfoldable pub valid_manifest : ReadyManifest → Bool
valid_manifest m =
    leb 1 m.attempt
    && is_sha256 m.result_hash
    && valid_versions m.model_versions
    && is_sha256 m.artifacts.transcript_json
    && is_sha256 m.artifacts.insights_json
    && is_sha256 m.artifacts.transcript_txt
