-- ===== src/Review/Overlay/Coherence.antt =====
-- A review that covers the voices and edits known segments keeps the transcript coherent.
use hack_ef3da0e3_aib2bsaass.Base.{
  ℕ, ◌≡◌, ◌↔◌, inl, inr, refl, sym, subst, none, some, Option, Option-cases, true, not, arith, map,
  IsIn, All, Distinct, Decides, IsSorted, map-map_keeps, All-map, All-IsIn, unique-Decides,
  subset-Decides, any-not-Decides, all-Decides, contains-Decides, nat_eq, list_eq, last_by-IsIn,
  all, ok, unique, same_set, subset, any, ◌&&◌,
}
use hack_ef3da0e3_aib2bsaass.Model.Text.{Text}
use hack_ef3da0e3_aib2bsaass.Model.Transcript.{
  Segment, TranscriptV1, speaker_ids, segment_ids, valid_segment, model_validate,
}
use hack_ef3da0e3_aib2bsaass.Model.Transcript.References.{IsCoherent, valid_references_iff}
use hack_ef3da0e3_aib2bsaass.Model.Insights.{InsightsV1, SummaryItem, ActionItem, unique_ids}
use hack_ef3da0e3_aib2bsaass.Model.Insights.Grounding.{IsGrounded, validate_against_iff}
use hack_ef3da0e3_aib2bsaass.Review.Overlay.{
  SegmentEdit, ReviewSnapshot, valid_edit, mapped_ids, edited_ids, edit_segment, edit_of,
  apply_edits, edited_transcript, reviewed_insights, known_voice, overlay,
}

abbrev pub IsKnownVoice : TranscriptV1 → Option Text → Type 0
IsKnownVoice t none = Unit
IsKnownVoice t (some x) = IsIn x (speaker_ids t)

-- What a review must say of the original: each voice is mapped once, each edit names another
-- segment of the transcript, and a voice of the transcript if any.
pub record IsFitting (original : TranscriptV1) (s : ReviewSnapshot) : Type 0 where
  pub mapped_once : Distinct (mapped_ids s)
  pub mapped_voices : (x : Text) → IsIn x (mapped_ids s) → IsIn x (speaker_ids original)
  pub covered : (x : Text) → IsIn x (speaker_ids original) → IsIn x (mapped_ids s)
  pub edited_once : Distinct (edited_ids s)
  pub known_segments : (x : ℕ) → IsIn x (edited_ids s) → IsIn x (segment_ids original)
  pub known_voices : All (λ (e : SegmentEdit). IsKnownVoice original e.speaker_id) s.segment_edits

known_voice-Decides :
    (t : TranscriptV1) (e : SegmentEdit) → Decides (known_voice t e) (IsKnownVoice t e.speaker_id)
known_voice-Decides t e = elim (Option-cases e.speaker_id) [
  | inl p ↦ rw p ((λ h. tt), (λ h. refl))
  | inr (x, p) ↦ rw p (contains-Decides x (speaker_ids t))
]

-- What an edit changes is the text, the voice and the mark.
pub edit_keeps :
    (s : ReviewSnapshot) (x : Segment)
    → ((apply_edits s x).id ≡ x.id)
      × ((apply_edits s x).start_ms ≡ x.start_ms)
      × ((apply_edits s x).end_ms ≡ x.end_ms)
unfolding apply_edits
edit_keeps s x = ground arith

-- The edit that is found for a segment is one of the snapshot's.
edit_of-IsIn :
    (s : ReviewSnapshot) (id : ℕ) (e : SegmentEdit) → edit_of s id ≡ some e → IsIn e s.segment_edits
unfolding edit_of
edit_of-IsIn s id e h = (last_by-IsIn (λ (x : SegmentEdit). x.segment_id) id s.segment_edits e h).0

edit_segment-valid :
    (e : SegmentEdit) (x : Segment)
    → valid_edit e ≡ true
    → valid_segment x ≡ true
    → valid_segment (edit_segment (some e) x) ≡ true
unfolding valid_edit valid_segment
edit_segment-valid e x h v = ground arith

valid_edit_keeps :
    (s : ReviewSnapshot) (x : Segment)
    → All (λ e. valid_edit e ≡ true) s.segment_edits
    → valid_segment x ≡ true
    → valid_segment (apply_edits s x) ≡ true
unfolding apply_edits
valid_edit_keeps s x h v = elim (Option-cases (edit_of s x.id)) [
  | inl p ↦ rw p v
  | inr (e, p) ↦ rw p (
      edit_segment-valid e x
        (All-IsIn (λ e. valid_edit e ≡ true) e s.segment_edits h (edit_of-IsIn s x.id e p)) v)
]

known_after_edit :
    (original : TranscriptV1) (s : ReviewSnapshot) (e : SegmentEdit) (x : Segment)
    → ((y : Text) → IsIn y (speaker_ids original) → IsIn y (mapped_ids s))
    → IsKnownVoice original e.speaker_id
    → IsIn x.speaker_id (speaker_ids original)
    → IsIn (edit_segment (some e) x).speaker_id (mapped_ids s)
known_after_edit original s e x covered k m = elim (Option-cases e.speaker_id) [
  | inl p ↦ rw p (covered x.speaker_id m)
  | inr (y, p) ↦ rw p (covered y (subst (λ z. IsKnownVoice original z) p k))
]

abbrev pub HasDistinctIds : InsightsV1 → Type 0
HasDistinctIds i =
    Distinct (map (λ (x : SummaryItem). x.id) i.summary)
    × Distinct (map (λ (a : ActionItem). a.item.id) i.action_items)

module _ (original : TranscriptV1) (s : ReviewSnapshot) where
  segment_known :
      IsFitting original s
      → (x : Segment) → IsIn x.speaker_id (speaker_ids original)
      → IsIn (apply_edits s x).speaker_id (mapped_ids s)
  unfolding apply_edits
  segment_known f x m = elim (Option-cases (edit_of s x.id)) [
    | inl p ↦ rw p (f.covered x.speaker_id m)
    | inr (e, p) ↦ rw p (
        known_after_edit original s e x f.covered
          (All-IsIn (λ (z : SegmentEdit). IsKnownVoice original z.speaker_id) e s.segment_edits
            f.known_voices (edit_of-IsIn s x.id e p))
          m)
  ]

  -- A fitting review of a coherent transcript leaves a coherent transcript.
  pub edited_transcript-IsCoherent :
      IsCoherent original → IsFitting original s → IsCoherent (edited_transcript original s)
  unfolding edited_transcript
  edited_transcript-IsCoherent c f = record {
    distinct_speakers = f.mapped_once;
    distinct_segments =
        subst Distinct
          (sym
            (map-map_keeps (apply_edits s) (λ x. x.id) (λ x. (edit_keeps s x).0) original.segments))
          c.distinct_segments;
    known_speakers =
        All-map (λ (x : Segment). IsIn x.speaker_id (speaker_ids original))
          (λ (x : Segment). IsIn x.speaker_id (mapped_ids s)) (apply_edits s) (segment_known f)
          original.segments c.known_speakers;
    in_order =
        subst IsSorted
          (sym (
            map-map_keeps (apply_edits s) (λ x. x.start_ms) (λ x. (edit_keeps s x).1)
              original.segments))
          c.in_order;
  }

  -- The four tests of `_overlay`, without sets.
  IsFitting-iff :
      ((unique (mapped_ids s)
          && same_set (mapped_ids s) (speaker_ids original)
          && unique (edited_ids s)
          && subset (edited_ids s) (segment_ids original)
          && not (any (λ e. not (known_voice original e)) s.segment_edits))
        ≡ true)
      ↔ IsFitting original s
  IsFitting-iff =
      let mapped = unique-Decides (mapped_ids s) in
      let into = subset-Decides (mapped_ids s) (speaker_ids original) in
      let onto = subset-Decides (speaker_ids original) (mapped_ids s) in
      let edits = unique-Decides (edited_ids s) in
      let segments = subset-Decides (edited_ids s) (segment_ids original) in
      let voices =
        any-not-Decides (known_voice original)
          (λ (e : SegmentEdit). IsKnownVoice original e.speaker_id) (known_voice-Decides original)
          s.segment_edits in
      (
        λ h. record {
          mapped_once = mapped.0 (ground arith);
          mapped_voices = into.0 (ground arith);
          covered = onto.0 (ground arith);
          edited_once = edits.0 (ground arith);
          known_segments = segments.0 (ground arith);
          known_voices = voices.0 (ground arith);
        },
        λ f. rw (
          mapped.1 f.mapped_once,
          into.1 f.mapped_voices,
          onto.1 f.covered,
          edits.1 f.edited_once,
          segments.1 f.known_segments,
          voices.1 f.known_voices,
        ),
      )

  unique_ids_iff : (i : InsightsV1) → (unique_ids i ≡ true) ↔ HasDistinctIds i
  unfolding unique_ids
  unique_ids_iff i =
      let a = unique-Decides (map (λ (x : SummaryItem). x.id) i.summary) in
      let b = unique-Decides (map (λ (x : ActionItem). x.item.id) i.action_items) in
      (λ h. (a.0 (ground arith), b.0 (ground arith)), λ d. rw (a.1 d.0, b.1 d.1))

  edited_valid :
      IsCoherent original
      → All (λ x. valid_segment x ≡ true) original.segments
      → All (λ e. valid_edit e ≡ true) s.segment_edits
      → IsFitting original s
      → model_validate (edited_transcript original s) ≡ true
  unfolding model_validate
  edited_valid c v h f =
      let segments : all valid_segment (edited_transcript original s).segments ≡ true =
        unfold edited_transcript in
        (all-Decides valid_segment (λ x. valid_segment x ≡ true) (λ x. ((λ p. p), (λ p. p)))
            (map (apply_edits s) original.segments)).1
          (All-map (λ x. valid_segment x ≡ true) (λ x. valid_segment x ≡ true) (apply_edits s)
            (λ x. valid_edit_keeps s x h) original.segments v) in
      let refs =
        (valid_references_iff (edited_transcript original s)).1
          (edited_transcript-IsCoherent c f) in
      rw (refs, segments)

  -- A review of a coherent transcript of valid segments, by well-formed edits, is accepted, with the edited transcript
  -- and the reviewed insights for its result, exactly when it fits the original, the IDs of its
  -- items are distinct, and its insights are grounded in the edited transcript.
  pub overlay_iff :
      IsCoherent original
      → All (λ x. valid_segment x ≡ true) original.segments
      → All (λ e. valid_edit e ≡ true) s.segment_edits
      → (overlay original s ≡ ok (edited_transcript original s, reviewed_insights original s)) ↔ (
          IsFitting original s
          × HasDistinctIds (reviewed_insights original s)
          × IsGrounded (edited_transcript original s) (reviewed_insights original s))
  unfolding overlay
  overlay_iff c v h =
      let transcript = edited_transcript original s in
      let insights = reviewed_insights original s in
      let ids = unique_ids_iff insights in
      let grounded = λ (f : IsFitting original s).
        validate_against_iff insights transcript
          (edited_transcript-IsCoherent c f).distinct_segments in
      (
        λ e.
            let f = IsFitting-iff.0 (ground arith) in
            (f, ids.0 (ground arith), (grounded f).0 (ground arith)),
        λ (f, d, g).
            ground (arith, IsFitting-iff.1 f, edited_valid c v h f, ids.1 d, (grounded f).1 g),
      )
