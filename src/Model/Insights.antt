-- ===== src/Model/Insights.antt =====
-- models/insights.py: evidence, summary and action items, and the bundle that the GPU returns.
pub mod Grounding
pub mod Machine
use hack_ef3da0e3_aib2bsaass.Base.{
  ℕ, Bool, true, false, not, ◌&&◌, ◌||◌, Option, none, some, List, [], ◌∷◌, ◌++◌, map, leb, ltb,
  if◌then◌else◌, ◌==◌, nat_eq, list_eq, is_some, any, all, contains, unique, last_by, length,
}
use hack_ef3da0e3_aib2bsaass.Model.Text.{
  Text, non_empty_text, person_name, is_speaker_id, is_sha256, strip,
}
use hack_ef3da0e3_aib2bsaass.Model.Transcript.{
  TranscriptV1, Segment, speaker_ids, is_unreviewed, valid_transcript,
}

pub record Evidence : Type 0 where
  pub segment_id : ℕ
  pub start_ms : ℕ
  pub end_ms : ℕ

-- `start_ms >= end_ms` is refused.
unfoldable pub valid_evidence : Evidence → Bool
valid_evidence e = ltb e.start_ms e.end_ms

pub record SummaryItem : Type 0 where
  pub id : ℕ
  pub text : Text
  pub evidence : List Evidence

-- `SummaryItem`, its fields' constraints included.
unfoldable pub valid_item : SummaryItem → Bool
unfolding valid_evidence
valid_item i = non_empty_text i.text && leb 1 (length i.evidence) && all valid_evidence i.evidence

pub record ActionItem : Type 0 where
  pub item : SummaryItem
  pub assignee_speaker_id : Option Text
  pub assignee_name : Option Text
  pub due_date : Option ℕ
  pub due_date_text : Option Text

-- An action item names a speaker or an external assignee, not both.
unfoldable pub valid_assignee : ActionItem → Bool
valid_assignee a = not (is_some a.assignee_speaker_id && is_some a.assignee_name)

abbrev pub valid_optional : (Text → Bool) → Option Text → Bool
valid_optional p none = true
valid_optional p (some s) = p s

-- `ActionItem`, its fields' constraints included.
unfoldable pub valid_action : ActionItem → Bool
unfolding valid_item valid_assignee
valid_action a =
    valid_item a.item
    && valid_optional is_speaker_id a.assignee_speaker_id
    && valid_optional person_name a.assignee_name
    && valid_optional non_empty_text a.due_date_text
    && valid_assignee a

pub record InsightsV1 : Type 0 where
  pub meeting_id : ℕ
  pub revision : ℕ
  pub summary : List SummaryItem
  pub action_items : List ActionItem

-- The IDs are unique within the summary and within the action items.
unfoldable pub unique_ids : InsightsV1 → Bool
unique_ids i = unique (map (λ x. x.id) i.summary) && unique (map (λ a. a.item.id) i.action_items)

-- `InsightsV1`, its fields' constraints included.
unfoldable pub valid_insights : InsightsV1 → Bool
unfolding unique_ids
valid_insights i = all valid_item i.summary && all valid_action i.action_items && unique_ids i

pub data GroundingError : Type 0 where
  other_meeting evidence_unfit unknown_assignee : GroundingError

abbrev pub inside : Evidence → Option Segment → Bool
inside e none = false
inside e (some s) = leb s.start_ms e.start_ms && ltb e.start_ms e.end_ms && leb e.end_ms s.end_ms

-- The evidence references a segment and fits it.
unfoldable pub fits : TranscriptV1 → Evidence → Bool
fits t e = inside e (last_by (λ (s : Segment). s.id) e.segment_id t.segments)

-- The summary and then the action items, as `[*summary, *action_items]`.
abbrev pub all_items : InsightsV1 → List SummaryItem
all_items i = i.summary ++ map (λ a. a.item) i.action_items

abbrev pub known_assignee : TranscriptV1 → ActionItem → Bool
known_assignee t a = valid_optional (λ s. contains s (speaker_ids t)) a.assignee_speaker_id

-- `validate_against`: the error that it raises, or `none`.
unfoldable pub validate_against : InsightsV1 → TranscriptV1 → Option GroundingError
unfolding fits
validate_against i t =
    if not (i.meeting_id == t.meeting_id && i.revision == t.revision)
    then some other_meeting
    else if any (λ x. not (all (fits t) x.evidence)) (all_items i)
    then some evidence_unfit
    else if any (λ a. not (known_assignee t a)) i.action_items
    then some unknown_assignee
    else none

pub record ModelVersions : Type 0 where
  pub asr : Text
  pub diarization : Text
  pub analysis : Text

-- What the hash covers: every field but the hash.
pub record Payload : Type 0 where
  pub job_id : ℕ
  pub transcript : TranscriptV1
  pub insights : InsightsV1
  pub model_versions : ModelVersions

pub record ResultBundleV1 : Type 0 where
  pub payload : Payload
  pub open payload use *
  pub result_hash : Text

pub data BundleError : Type 0 where
  ungrounded : GroundingError → BundleError
  nonzero_revision edited_segment reviewed_speaker hash_mismatch : BundleError

-- The model validator of `ResultBundleV1`. The digest is the SHA-256 of the canonical JSON.
unfoldable pub valid_machine_bundle : (Payload → Text) → ResultBundleV1 → Option BundleError
valid_machine_bundle digest b = elim (validate_against b.insights b.transcript) [
  | some e ↦ some (ungrounded e)
  | none ↦
      if not (b.transcript.revision == 0) || not (b.insights.revision == 0)
      then some nonzero_revision
      else if any (λ s. s.edited) b.transcript.segments
      then some edited_segment
      else if any (λ s. not (is_unreviewed s.identity_status)) b.transcript.speakers
      then some reviewed_speaker
      else if not (digest b.payload == b.result_hash)
      then some hash_mismatch
      else none
]

-- `ModelVersions`: three non-empty texts.
unfoldable pub valid_versions : ModelVersions → Bool
valid_versions v = non_empty_text v.asr && non_empty_text v.diarization && non_empty_text v.analysis

-- `ResultBundleV1.model_validate_json`, its fields' constraints included.
unfoldable pub valid_bundle : (Payload → Text) → ResultBundleV1 → Bool
unfolding valid_machine_bundle
valid_bundle digest b =
    valid_transcript b.transcript
    && valid_insights b.insights
    && valid_versions b.model_versions
    && is_sha256 b.result_hash
    && not (is_some (valid_machine_bundle digest b))
