-- ===== src/Tests/Concrete.antt =====
-- A concrete instance of the libraries: bytes that remember what was encoded, and one hash.
use hack_ef3da0e3_aib2bsaass.Base.{
  ℕ, ◌+◌, ◌⊎◌, inl, inr, refl, true, false, Option, none, some, List, [], ◌∷◌, if◌then◌else◌, ◌≡◌,
  zero, suc, nat_eq, list_eq,
}
use hack_ef3da0e3_aib2bsaass.Model.Text.{Text, codes, is_sha256}
use hack_ef3da0e3_aib2bsaass.Model.Transcript.{TranscriptV1, IdentityStatus, Language}
use hack_ef3da0e3_aib2bsaass.Model.Insights.{SummaryItem, ActionItem, InsightsV1, ResultBundleV1}
use hack_ef3da0e3_aib2bsaass.Model.Meeting.{
  MeetingStatus, MeetingStage, LanguageHint, MeetingMetadata, SourceKind, Meeting, MeetingRecord,
  ReadyManifest, new_job, pending, deleted,
}
use hack_ef3da0e3_aib2bsaass.Model.Gpu.{JobV1, JobStatus, AckV1}
use hack_ef3da0e3_aib2bsaass.Review.Overlay.{ReviewSnapshot}
use hack_ef3da0e3_aib2bsaass.Store.World.{
  name_beq, Env, IsCodec, World, Files, Name, done, response,
}
use hack_ef3da0e3_aib2bsaass.Tests.Equality.{sum_eq}
use hack_ef3da0e3_aib2bsaass.Tests.Records.{
  meeting_record_eq, ready_manifest_eq, transcript_v1_eq, insights_v1_eq, review_snapshot_eq,
}

abbrev repeat : ℕ → ℕ → Text
repeat zero c = []
repeat (suc n) c = c ∷ repeat n c

abbrev pub hash : Text
hash = repeat 64 b'a'

abbrev pub transcript : TranscriptV1
transcript = record {
  meeting_id = 2;
  revision = 0;
  speakers =
      record {
        speaker_id = codes "speaker_1";
        display_name = none;
        identity_status = IdentityStatus.unreviewed;
      }
      ∷ record {
        speaker_id = codes "speaker_2";
        display_name = none;
        identity_status = IdentityStatus.unreviewed;
      }
      ∷ [];
  segments =
      record {
        id = 11;
        start_ms = 0;
        end_ms = 900;
        speaker_id = codes "speaker_1";
        language = Language.ru;
        text = codes "privet";
        edited = false;
      }
      ∷ record {
        id = 12;
        start_ms = 900;
        end_ms = 2500;
        speaker_id = codes "speaker_2";
        language = Language.kk;
        text = codes "salem";
        edited = false;
      }
      ∷ [];
}

abbrev pub summary : List SummaryItem
summary =
    record {
      id = 21;
      text = codes "greeting";
      evidence = record { segment_id = 11; start_ms = 100; end_ms = 800 } ∷ [];
    }
    ∷ []

abbrev pub action_items : List ActionItem
action_items =
    record {
      item = record {
        id = 31;
        text = codes "answer";
        evidence = record { segment_id = 12; start_ms = 900; end_ms = 2500 } ∷ [];
      };
      assignee_speaker_id = some (codes "speaker_2");
      assignee_name = none;
      due_date = none;
      due_date_text = none;
    }
    ∷ []

abbrev pub insights : InsightsV1
insights = record { meeting_id = 2; revision = 0; summary = summary; action_items = action_items }

abbrev pub bundle : ResultBundleV1
bundle = record {
  payload = record {
    job_id = 7;
    transcript = transcript;
    insights = insights;
    model_versions = record { asr = codes "a"; diarization = codes "d"; analysis = codes "n" };
  };
  result_hash = hash;
}

-- The second speaker is named, and the first segment is given to that speaker.
abbrev pub snapshot : ReviewSnapshot
snapshot = record {
  meeting_id = 2;
  revision = 1;
  speaker_mappings =
      record {
        speaker_id = codes "speaker_2";
        display_name = some (codes "Aida");
        identity_status = IdentityStatus.named;
      }
      ∷ record {
        speaker_id = codes "speaker_1";
        display_name = none;
        identity_status = IdentityStatus.unknown;
      }
      ∷ [];
  segment_edits =
      record { segment_id = 11; text = none; speaker_id = some (codes "speaker_2") } ∷ [];
  summary = summary;
  action_items = action_items;
}

abbrev Doc : Type 0
Doc = MeetingRecord ⊎ (ReadyManifest ⊎ (TranscriptV1 ⊎ (InsightsV1 ⊎ (ReviewSnapshot ⊎ Text))))

abbrev raw : Text → Doc
raw s = inr (inr (inr (inr (inr s))))

abbrev left : {A B : Type 0} → A ⊎ B → Option A
left (inl a) = some a
left (inr b) = none

abbrev right : {A B C : Type 0} → (B → Option C) → A ⊎ B → Option C
right f (inl a) = none
right f (inr b) = f b

abbrev text_of : Doc → Option Text
text_of = right (right (right (right (right some))))

abbrev pub completed : Text → JobV1
completed h = record {
  job_id = 7;
  status = JobStatus.completed;
  stage = none;
  failure = none;
  result_hash = some h;
  cleanup_status = pending;
  expires_at = 1000;
  receipt_expires_at = none;
}

abbrev pub receipt : Text → AckV1
receipt h = record {
  job_id = 7;
  result_hash = h;
  cleanup_status = deleted;
  receipt_expires_at = 2000;
}

instance abbrev pub env : Env
env = record {
  Bytes = Doc;
  bytes_eq = sum_eq;
  sha256 = λ b. hash;
  known_zone = λ z. true;
  digest = λ p. hash;
  utf8 = raw;
  encode_record = inl;
  decode_record = left;
  encode_manifest = λ m. inr (inl m);
  decode_manifest = right left;
  encode_transcript = λ t. inr (inr (inl t));
  decode_transcript = right (right left);
  encode_insights = λ i. inr (inr (inr (inl i)));
  decode_insights = right (right (right left));
  encode_snapshot = λ s. inr (inr (inr (inr (inl s))));
  decode_snapshot = right (right (right (right left)));
  decode_job = λ b. elim (text_of b) [ none ↦ none | some h ↦ some (completed h) ];
  decode_bundle = λ b. elim (text_of b) [
    | none ↦ none
    | some h ↦ some (record { payload = bundle.payload; result_hash = h })
  ];
  decode_ack = λ b. elim (text_of b) [ none ↦ none | some h ↦ some (receipt h) ];
  decode_code = λ b. none;
}

pub hash_hex : is_sha256 hash ≡ true
unfolding is_sha256
hash_hex = refl

abbrev pub codec : IsCodec env
codec = record {
  record_back = λ r. refl;
  manifest_back = λ m. refl;
  transcript_back = λ t. refl;
  insights_back = λ i. refl;
  sha256_hex = λ b. hash_hex;
  snapshot_back = λ s. refl;
}

abbrev pub meeting_metadata : MeetingMetadata
meeting_metadata = record {
  title = codes "Weekly";
  meeting_date = 20000;
  timezone = codes "Asia/Almaty";
  participants = codes "Aida" ∷ [];
  recording_notice_confirmed = true;
  language_hint = LanguageHint.auto;
}

abbrev pub meeting_in : MeetingStatus → Option MeetingStage → Meeting
meeting_in status stage = record {
  metadata = meeting_metadata;
  id = 2;
  created_at = 5;
  updated_at = 6;
  attempt = 1;
  revision = 0;
  status = status;
  stage = stage;
  source_available = true;
  cleanup_status = pending;
  temporary_expires_at = some 900;
  source = record { kind = SourceKind.uploaded_audio; label = false; fixture_id = none };
  failure = none;
}

-- a meeting whose job is known to the service
abbrev pub record_in : MeetingStatus → Option MeetingStage → MeetingRecord
record_in status stage = record {
  owner_id = 1;
  meeting = meeting_in status stage;
  audio_sha256 = some hash;
  audio_extension = none;
  local_cleanup_status = pending;
  jobs = record (new_job 1 (some true)) { job_id = some 7 } ∷ [];
}

abbrev pub only : Name → Doc → Files
only n d m = if name_beq n m then some d else none

-- Every call is done, time goes by, and the service answers every request with the hash.
abbrev pub world_of : Files → World
world_of f = record {
  files = f;
  tombstones = [];
  os = λ n. done;
  steps = 0;
  clock = λ n. 10 + n;
  reads = 0;
  network = λ n. response 200 (raw hash);
  calls = 0;
  sent = [];
}

abbrev pub failed_record : MeetingRecord
failed_record = record_in MeetingStatus.failed none

abbrev pub saving_record : MeetingRecord
saving_record = record_in MeetingStatus.processing (some MeetingStage.saving_results)
