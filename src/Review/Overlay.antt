-- ===== src/Review/Overlay.antt =====
-- `_overlay` of services/reviews.py: a review snapshot laid over the immutable original.
pub mod Coherence
use hack_ef3da0e3_aib2bsaass.Base.{
  ℕ, Bool, true, false, not, ◌&&◌, ◌||◌, Option, none, some, List, map, if◌then◌else◌, nat_eq,
  list_eq, is_some, any, contains, unique, same_set, subset, last_by, Result, ok, err, leb, all,
}
use hack_ef3da0e3_aib2bsaass.Model.Text.{Text, non_empty_text, is_speaker_id}
use hack_ef3da0e3_aib2bsaass.Model.Transcript.{
  Speaker, Segment, TranscriptV1, speaker_ids, segment_ids, model_validate, valid_speaker,
}
use hack_ef3da0e3_aib2bsaass.Model.Insights.{
  SummaryItem, ActionItem, InsightsV1, unique_ids, validate_against, valid_optional, valid_item,
  valid_action,
}

pub record SegmentEdit : Type 0 where
  pub segment_id : ℕ
  pub text : Option Text
  pub speaker_id : Option Text

-- `SegmentEdit`: an edit needs text or a speaker, each of them well formed.
unfoldable pub valid_edit : SegmentEdit → Bool
valid_edit e =
    valid_optional non_empty_text e.text
    && valid_optional is_speaker_id e.speaker_id
    && (is_some e.text || is_some e.speaker_id)

pub record ReviewRequest : Type 0 where
  pub base_revision : ℕ
  pub speaker_mappings : List Speaker
  pub segment_edits : List SegmentEdit
  pub summary : List SummaryItem
  pub action_items : List ActionItem

pub record ReviewSnapshot : Type 0 where
  pub meeting_id : ℕ
  pub revision : ℕ
  pub speaker_mappings : List Speaker
  pub segment_edits : List SegmentEdit
  pub summary : List SummaryItem
  pub action_items : List ActionItem

-- `ReviewSnapshot.model_validate_json`, its fields' constraints included.
unfoldable pub valid_snapshot : ReviewSnapshot → Bool
unfolding valid_edit
valid_snapshot s =
    leb 1 s.revision
    && all valid_speaker s.speaker_mappings
    && all valid_edit s.segment_edits
    && all valid_item s.summary
    && all valid_action s.action_items

-- The messages of `ReviewValidationError`.
pub data ReviewError : Type 0 where
  uncovered_voices duplicate_edit unknown_segment unknown_speaker invalid_results : ReviewError

abbrev pub mapped_ids : ReviewSnapshot → List Text
mapped_ids s = map (λ x. x.speaker_id) s.speaker_mappings

abbrev pub edited_ids : ReviewSnapshot → List ℕ
edited_ids s = map (λ x. x.segment_id) s.segment_edits

abbrev pub or_keep {ℓ} : {A : Type ℓ} → Option A → A → A
or_keep none old = old
or_keep (some new) _ = new

-- the body of the loop over the segments
abbrev pub edit_segment : Option SegmentEdit → Segment → Segment
edit_segment none s = s
edit_segment (some e) s = record s {
  text = or_keep e.text s.text;
  speaker_id = or_keep e.speaker_id s.speaker_id;
  edited = true;
}

-- `edits.get(segment["id"])`
unfoldable pub edit_of : ReviewSnapshot → ℕ → Option SegmentEdit
edit_of s id = last_by (λ (e : SegmentEdit). e.segment_id) id s.segment_edits

unfoldable pub apply_edits : ReviewSnapshot → Segment → Segment
unfolding edit_of
apply_edits s x = edit_segment (edit_of s x.id) x

unfoldable pub edited_transcript : TranscriptV1 → ReviewSnapshot → TranscriptV1
unfolding apply_edits
edited_transcript original s = record original {
  revision = s.revision;
  speakers = s.speaker_mappings;
  segments = map (apply_edits s) original.segments;
}

unfoldable pub reviewed_insights : TranscriptV1 → ReviewSnapshot → InsightsV1
reviewed_insights original s = record {
  meeting_id = original.meeting_id;
  revision = s.revision;
  summary = s.summary;
  action_items = s.action_items;
}

abbrev pub known_voice : TranscriptV1 → SegmentEdit → Bool
known_voice original e = valid_optional (λ x. contains x (speaker_ids original)) e.speaker_id

-- the outcome is a pair, or the error that is raised
unfoldable pub overlay :
    TranscriptV1 → ReviewSnapshot → Result ReviewError (TranscriptV1 × InsightsV1)
overlay original s =
    if not (unique (mapped_ids s)) || not (same_set (mapped_ids s) (speaker_ids original))
    then err uncovered_voices
    else if not (unique (edited_ids s))
    then err duplicate_edit
    else if not (subset (edited_ids s) (segment_ids original))
    then err unknown_segment
    else if any (λ e. not (known_voice original e)) s.segment_edits
    then err unknown_speaker
    else let transcript = edited_transcript original s in
      let insights = reviewed_insights original s in
      if not (model_validate transcript)
        || not (unique_ids insights)
        || is_some (validate_against insights transcript)
      then err invalid_results
      else ok (transcript, insights)
