-- ===== src/Model/Transcript.antt =====
-- models/transcript.py: speakers, segments and the transcript, with their validators. A validator
-- returns the error that it raises, or `none` where it accepts.
pub mod References
use hack_ef3da0e3_aib2bsaass.Base.{
  ℕ, Bool, true, false, not, ◌&&◌, ◌||◌, Option, none, some, List, map, leb, ltb, if◌then◌else◌,
  ◌==◌, nat_eq, list_eq, is_some, any, all, contains, unique, sorted,
}
use hack_ef3da0e3_aib2bsaass.Model.Text.{Text, non_empty_text, person_name, is_speaker_id}

pub data IdentityStatus : Type 0 where
  unreviewed named unknown : IdentityStatus

abbrev pub is_named : IdentityStatus → Bool
is_named IdentityStatus.named = true
is_named _ = false

abbrev pub is_unreviewed : IdentityStatus → Bool
is_unreviewed IdentityStatus.unreviewed = true
is_unreviewed _ = false

pub record Speaker : Type 0 where
  pub speaker_id : Text
  pub display_name : Option Text
  pub identity_status : IdentityStatus

abbrev pub valid_name : Option Text → Bool
valid_name none = true
valid_name (some name) = person_name name

-- `(identity_status == "named") != (display_name is not None)` is refused.
unfoldable pub valid_identity : Speaker → Bool
valid_identity s =
    if is_named s.identity_status then is_some s.display_name else not (is_some s.display_name)

-- `Speaker`, its fields' constraints included.
unfoldable pub valid_speaker : Speaker → Bool
unfolding valid_identity
valid_speaker s = is_speaker_id s.speaker_id && valid_name s.display_name && valid_identity s

pub data Language : Type 0 where
  ru kk unknown : Language

pub record Segment : Type 0 where
  pub id : ℕ
  pub start_ms : ℕ
  pub end_ms : ℕ
  pub speaker_id : Text
  pub language : Language
  pub text : Text
  pub edited : Bool

-- `start_ms >= end_ms` is refused.
unfoldable pub valid_interval : Segment → Bool
valid_interval s = ltb s.start_ms s.end_ms

-- `Segment`, its fields' constraints included.
unfoldable pub valid_segment : Segment → Bool
unfolding valid_interval
valid_segment s = is_speaker_id s.speaker_id && non_empty_text s.text && valid_interval s

pub record TranscriptV1 : Type 0 where
  pub meeting_id : ℕ
  pub revision : ℕ
  pub speakers : List Speaker
  pub segments : List Segment

pub data TranscriptError : Type 0 where
  duplicate_speaker duplicate_segment unknown_segment_speaker segments_out_of_order :
      TranscriptError

abbrev pub speaker_ids : TranscriptV1 → List Text
speaker_ids t = map (λ s. s.speaker_id) t.speakers

abbrev pub segment_ids : TranscriptV1 → List ℕ
segment_ids t = map (λ s. s.id) t.segments

abbrev pub segment_starts : TranscriptV1 → List ℕ
segment_starts t = map (λ s. s.start_ms) t.segments

-- The model validator of `TranscriptV1`, check by check.
unfoldable pub valid_references : TranscriptV1 → Option TranscriptError
valid_references t =
    if not (unique (speaker_ids t))
    then some duplicate_speaker
    else if not (unique (segment_ids t))
    then some duplicate_segment
    else if any (λ s. not (contains s.speaker_id (speaker_ids t))) t.segments
    then some unknown_segment_speaker
    else if not (segment_starts t == sorted (segment_starts t))
    then some segments_out_of_order
    else none

-- `TranscriptV1.model_validate` on segments that are given as data and speakers that are given as
-- `Speaker` objects, which pydantic does not check again.
unfoldable pub model_validate : TranscriptV1 → Bool
model_validate t = all valid_segment t.segments && not (is_some (valid_references t))

-- `TranscriptV1.model_validate_json`, where every part is checked.
unfoldable pub valid_transcript : TranscriptV1 → Bool
unfolding model_validate
valid_transcript t = all valid_speaker t.speakers && model_validate t
