-- ===== src/Tests/Records.antt =====
-- Equality tests of the records.
use hack_ef3da0e3_aib2bsaass.Base.{ℕ, refl, Bool, Option, List, Eq, nat_eq, list_eq, option_eq}
use hack_ef3da0e3_aib2bsaass.Model.Text.{Text}
use hack_ef3da0e3_aib2bsaass.Model.Transcript.{
  Speaker, Segment, TranscriptV1, IdentityStatus, Language,
}
use hack_ef3da0e3_aib2bsaass.Model.Insights.{
  Evidence, SummaryItem, ActionItem, InsightsV1, ModelVersions,
}
use hack_ef3da0e3_aib2bsaass.Model.Meeting.{
  MeetingStatus, MeetingStage, CleanupStatus, LanguageHint, AudioExtension, MeetingMetadata,
  SourceKind, MeetingSource, FailureCode, Meeting, JobRecord, MeetingRecord, ArtifactHashes,
  ReadyManifest,
}
use hack_ef3da0e3_aib2bsaass.Review.Overlay.{SegmentEdit, ReviewSnapshot}
use hack_ef3da0e3_aib2bsaass.Tests.Equality.{
  ◌&◌, ◌⋈◌, by_retract, pair_eq, bool_eq, meeting_status_eq, meeting_stage_eq, cleanup_status_eq,
  language_hint_eq, audio_extension_eq, source_kind_eq, failure_code_eq, identity_status_eq,
  language_eq,
}

abbrev meeting_metadata_parts :
    MeetingMetadata → Text & ℕ & Text & (List Text) & Bool & LanguageHint
meeting_metadata_parts r =
    r.title ⋈ r.meeting_date ⋈ r.timezone ⋈ r.participants ⋈ r.recording_notice_confirmed
    ⋈ r.language_hint

abbrev meeting_metadata_of : Text & ℕ & Text & (List Text) & Bool & LanguageHint → MeetingMetadata
meeting_metadata_of (x0 ⋈ x1 ⋈ x2 ⋈ x3 ⋈ x4 ⋈ x5) = record {
  title = x0;
  meeting_date = x1;
  timezone = x2;
  participants = x3;
  recording_notice_confirmed = x4;
  language_hint = x5;
}

instance abbrev pub meeting_metadata_eq : Eq MeetingMetadata
meeting_metadata_eq = by_retract meeting_metadata_parts meeting_metadata_of (λ r. refl)

abbrev meeting_source_parts : MeetingSource → SourceKind & Bool & (Option Text)
meeting_source_parts r = r.kind ⋈ r.label ⋈ r.fixture_id

abbrev meeting_source_of : SourceKind & Bool & (Option Text) → MeetingSource
meeting_source_of (x0 ⋈ x1 ⋈ x2) = record { kind = x0; label = x1; fixture_id = x2 }

instance abbrev pub meeting_source_eq : Eq MeetingSource
meeting_source_eq = by_retract meeting_source_parts meeting_source_of (λ r. refl)

abbrev meeting_parts :
    Meeting
    → MeetingMetadata
      & ℕ
      & ℕ
      & ℕ
      & ℕ
      & ℕ
      & MeetingStatus
      & (Option MeetingStage)
      & Bool
      & CleanupStatus
      & (Option ℕ)
      & MeetingSource
      & (Option FailureCode)
meeting_parts r =
    r.metadata ⋈ r.id ⋈ r.created_at ⋈ r.updated_at ⋈ r.attempt ⋈ r.revision ⋈ r.status ⋈ r.stage
    ⋈ r.source_available ⋈ r.cleanup_status ⋈ r.temporary_expires_at ⋈ r.source ⋈ r.failure

abbrev meeting_of :
    MeetingMetadata
      & ℕ
      & ℕ
      & ℕ
      & ℕ
      & ℕ
      & MeetingStatus
      & (Option MeetingStage)
      & Bool
      & CleanupStatus
      & (Option ℕ)
      & MeetingSource
      & (Option FailureCode)
    → Meeting
meeting_of (x0 ⋈ x1 ⋈ x2 ⋈ x3 ⋈ x4 ⋈ x5 ⋈ x6 ⋈ x7 ⋈ x8 ⋈ x9 ⋈ x10 ⋈ x11 ⋈ x12) = record {
  metadata = x0;
  id = x1;
  created_at = x2;
  updated_at = x3;
  attempt = x4;
  revision = x5;
  status = x6;
  stage = x7;
  source_available = x8;
  cleanup_status = x9;
  temporary_expires_at = x10;
  source = x11;
  failure = x12;
}

instance abbrev pub meeting_eq : Eq Meeting
meeting_eq = by_retract meeting_parts meeting_of (λ r. refl)

abbrev job_record_parts :
    JobRecord
    → ℕ
      & (Option ℕ)
      & (Option Bool)
      & (Option Text)
      & CleanupStatus
      & (Option ℕ)
      & (Option ℕ)
      & Bool
job_record_parts r =
    r.attempt ⋈ r.job_id ⋈ r.submit_started ⋈ r.result_hash ⋈ r.cleanup_status ⋈ r.expires_at
    ⋈ r.receipt_expires_at ⋈ r.ack_pending

abbrev job_record_of :
    ℕ & (Option ℕ) & (Option Bool) & (Option Text) & CleanupStatus & (Option ℕ) & (Option ℕ) & Bool
    → JobRecord
job_record_of (x0 ⋈ x1 ⋈ x2 ⋈ x3 ⋈ x4 ⋈ x5 ⋈ x6 ⋈ x7) = record {
  attempt = x0;
  job_id = x1;
  submit_started = x2;
  result_hash = x3;
  cleanup_status = x4;
  expires_at = x5;
  receipt_expires_at = x6;
  ack_pending = x7;
}

instance abbrev pub job_record_eq : Eq JobRecord
job_record_eq = by_retract job_record_parts job_record_of (λ r. refl)

abbrev meeting_record_parts :
    MeetingRecord
    → ℕ & Meeting & (Option Text) & (Option AudioExtension) & CleanupStatus & (List JobRecord)
meeting_record_parts r =
    r.owner_id ⋈ r.meeting ⋈ r.audio_sha256 ⋈ r.audio_extension ⋈ r.local_cleanup_status ⋈ r.jobs

abbrev meeting_record_of :
    ℕ & Meeting & (Option Text) & (Option AudioExtension) & CleanupStatus & (List JobRecord)
    → MeetingRecord
meeting_record_of (x0 ⋈ x1 ⋈ x2 ⋈ x3 ⋈ x4 ⋈ x5) = record {
  owner_id = x0;
  meeting = x1;
  audio_sha256 = x2;
  audio_extension = x3;
  local_cleanup_status = x4;
  jobs = x5;
}

instance abbrev pub meeting_record_eq : Eq MeetingRecord
meeting_record_eq = by_retract meeting_record_parts meeting_record_of (λ r. refl)

abbrev artifact_hashes_parts : ArtifactHashes → Text & Text & Text
artifact_hashes_parts r = r.transcript_json ⋈ r.insights_json ⋈ r.transcript_txt

abbrev artifact_hashes_of : Text & Text & Text → ArtifactHashes
artifact_hashes_of (x0 ⋈ x1 ⋈ x2) = record {
  transcript_json = x0;
  insights_json = x1;
  transcript_txt = x2;
}

instance abbrev pub artifact_hashes_eq : Eq ArtifactHashes
artifact_hashes_eq = by_retract artifact_hashes_parts artifact_hashes_of (λ r. refl)

abbrev model_versions_parts : ModelVersions → Text & Text & Text
model_versions_parts r = r.asr ⋈ r.diarization ⋈ r.analysis

abbrev model_versions_of : Text & Text & Text → ModelVersions
model_versions_of (x0 ⋈ x1 ⋈ x2) = record { asr = x0; diarization = x1; analysis = x2 }

instance abbrev pub model_versions_eq : Eq ModelVersions
model_versions_eq = by_retract model_versions_parts model_versions_of (λ r. refl)

abbrev ready_manifest_parts : ReadyManifest → ℕ & ℕ & ℕ & ℕ & Text & ModelVersions & ArtifactHashes
ready_manifest_parts r =
    r.owner_id ⋈ r.meeting_id ⋈ r.attempt ⋈ r.job_id ⋈ r.result_hash ⋈ r.model_versions
    ⋈ r.artifacts

abbrev ready_manifest_of : ℕ & ℕ & ℕ & ℕ & Text & ModelVersions & ArtifactHashes → ReadyManifest
ready_manifest_of (x0 ⋈ x1 ⋈ x2 ⋈ x3 ⋈ x4 ⋈ x5 ⋈ x6) = record {
  owner_id = x0;
  meeting_id = x1;
  attempt = x2;
  job_id = x3;
  result_hash = x4;
  model_versions = x5;
  artifacts = x6;
}

instance abbrev pub ready_manifest_eq : Eq ReadyManifest
ready_manifest_eq = by_retract ready_manifest_parts ready_manifest_of (λ r. refl)

abbrev speaker_parts : Speaker → Text & (Option Text) & IdentityStatus
speaker_parts r = r.speaker_id ⋈ r.display_name ⋈ r.identity_status

abbrev speaker_of : Text & (Option Text) & IdentityStatus → Speaker
speaker_of (x0 ⋈ x1 ⋈ x2) = record { speaker_id = x0; display_name = x1; identity_status = x2 }

instance abbrev pub speaker_eq : Eq Speaker
speaker_eq = by_retract speaker_parts speaker_of (λ r. refl)

abbrev segment_parts : Segment → ℕ & ℕ & ℕ & Text & Language & Text & Bool
segment_parts r = r.id ⋈ r.start_ms ⋈ r.end_ms ⋈ r.speaker_id ⋈ r.language ⋈ r.text ⋈ r.edited

abbrev segment_of : ℕ & ℕ & ℕ & Text & Language & Text & Bool → Segment
segment_of (x0 ⋈ x1 ⋈ x2 ⋈ x3 ⋈ x4 ⋈ x5 ⋈ x6) = record {
  id = x0;
  start_ms = x1;
  end_ms = x2;
  speaker_id = x3;
  language = x4;
  text = x5;
  edited = x6;
}

instance abbrev pub segment_eq : Eq Segment
segment_eq = by_retract segment_parts segment_of (λ r. refl)

abbrev transcript_v1_parts : TranscriptV1 → ℕ & ℕ & (List Speaker) & (List Segment)
transcript_v1_parts r = r.meeting_id ⋈ r.revision ⋈ r.speakers ⋈ r.segments

abbrev transcript_v1_of : ℕ & ℕ & (List Speaker) & (List Segment) → TranscriptV1
transcript_v1_of (x0 ⋈ x1 ⋈ x2 ⋈ x3) = record {
  meeting_id = x0;
  revision = x1;
  speakers = x2;
  segments = x3;
}

instance abbrev pub transcript_v1_eq : Eq TranscriptV1
transcript_v1_eq = by_retract transcript_v1_parts transcript_v1_of (λ r. refl)

abbrev evidence_parts : Evidence → ℕ & ℕ & ℕ
evidence_parts r = r.segment_id ⋈ r.start_ms ⋈ r.end_ms

abbrev evidence_of : ℕ & ℕ & ℕ → Evidence
evidence_of (x0 ⋈ x1 ⋈ x2) = record { segment_id = x0; start_ms = x1; end_ms = x2 }

instance abbrev pub evidence_eq : Eq Evidence
evidence_eq = by_retract evidence_parts evidence_of (λ r. refl)

abbrev summary_item_parts : SummaryItem → ℕ & Text & (List Evidence)
summary_item_parts r = r.id ⋈ r.text ⋈ r.evidence

abbrev summary_item_of : ℕ & Text & (List Evidence) → SummaryItem
summary_item_of (x0 ⋈ x1 ⋈ x2) = record { id = x0; text = x1; evidence = x2 }

instance abbrev pub summary_item_eq : Eq SummaryItem
summary_item_eq = by_retract summary_item_parts summary_item_of (λ r. refl)

abbrev action_item_parts :
    ActionItem → SummaryItem & (Option Text) & (Option Text) & (Option ℕ) & (Option Text)
action_item_parts r =
    r.item ⋈ r.assignee_speaker_id ⋈ r.assignee_name ⋈ r.due_date ⋈ r.due_date_text

abbrev action_item_of :
    SummaryItem & (Option Text) & (Option Text) & (Option ℕ) & (Option Text) → ActionItem
action_item_of (x0 ⋈ x1 ⋈ x2 ⋈ x3 ⋈ x4) = record {
  item = x0;
  assignee_speaker_id = x1;
  assignee_name = x2;
  due_date = x3;
  due_date_text = x4;
}

instance abbrev pub action_item_eq : Eq ActionItem
action_item_eq = by_retract action_item_parts action_item_of (λ r. refl)

abbrev insights_v1_parts : InsightsV1 → ℕ & ℕ & (List SummaryItem) & (List ActionItem)
insights_v1_parts r = r.meeting_id ⋈ r.revision ⋈ r.summary ⋈ r.action_items

abbrev insights_v1_of : ℕ & ℕ & (List SummaryItem) & (List ActionItem) → InsightsV1
insights_v1_of (x0 ⋈ x1 ⋈ x2 ⋈ x3) = record {
  meeting_id = x0;
  revision = x1;
  summary = x2;
  action_items = x3;
}

instance abbrev pub insights_v1_eq : Eq InsightsV1
insights_v1_eq = by_retract insights_v1_parts insights_v1_of (λ r. refl)

abbrev segment_edit_parts : SegmentEdit → ℕ & (Option Text) & (Option Text)
segment_edit_parts r = r.segment_id ⋈ r.text ⋈ r.speaker_id

abbrev segment_edit_of : ℕ & (Option Text) & (Option Text) → SegmentEdit
segment_edit_of (x0 ⋈ x1 ⋈ x2) = record { segment_id = x0; text = x1; speaker_id = x2 }

instance abbrev pub segment_edit_eq : Eq SegmentEdit
segment_edit_eq = by_retract segment_edit_parts segment_edit_of (λ r. refl)

abbrev review_snapshot_parts :
    ReviewSnapshot
    → ℕ & ℕ & (List Speaker) & (List SegmentEdit) & (List SummaryItem) & (List ActionItem)
review_snapshot_parts r =
    r.meeting_id ⋈ r.revision ⋈ r.speaker_mappings ⋈ r.segment_edits ⋈ r.summary ⋈ r.action_items

abbrev review_snapshot_of :
    ℕ & ℕ & (List Speaker) & (List SegmentEdit) & (List SummaryItem) & (List ActionItem)
    → ReviewSnapshot
review_snapshot_of (x0 ⋈ x1 ⋈ x2 ⋈ x3 ⋈ x4 ⋈ x5) = record {
  meeting_id = x0;
  revision = x1;
  speaker_mappings = x2;
  segment_edits = x3;
  summary = x4;
  action_items = x5;
}

instance abbrev pub review_snapshot_eq : Eq ReviewSnapshot
review_snapshot_eq = by_retract review_snapshot_parts review_snapshot_of (λ r. refl)
