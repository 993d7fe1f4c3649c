-- ===== src/Model/Transcript/References.antt =====
-- What the validator of a transcript accepts, without its tests.
use hack_ef3da0e3_aib2bsaass.Base.{
  ◌≡◌, ◌↔◌, none, arith, IsIn, All, Distinct, IsSorted, unique-Decides, contains-Decides,
  sorted-Decides, any-not-Decides, nat_eq, list_eq, contains,
}
use hack_ef3da0e3_aib2bsaass.Model.Transcript.{
  TranscriptV1, Segment, speaker_ids, segment_ids, segment_starts, valid_references,
}

-- Speakers and segments are told apart by their IDs, each segment has a known speaker, and the
-- segments stand in the order of their starts.
pub record IsCoherent (t : TranscriptV1) : Type 0 where
  pub distinct_speakers : Distinct (speaker_ids t)
  pub distinct_segments : Distinct (segment_ids t)
  pub known_speakers : All (λ (s : Segment). IsIn s.speaker_id (speaker_ids t)) t.segments
  pub in_order : IsSorted (segment_starts t)

-- The validator raises nothing exactly on coherent transcripts.
pub valid_references_iff : (t : TranscriptV1) → (valid_references t ≡ none) ↔ IsCoherent t
unfolding valid_references
valid_references_iff t =
    let speakers = unique-Decides (speaker_ids t) in
    let segments = unique-Decides (segment_ids t) in
    let order = sorted-Decides (segment_starts t) in
    let known =
      any-not-Decides (λ (s : Segment). contains s.speaker_id (speaker_ids t))
        (λ s. IsIn s.speaker_id (speaker_ids t))
        (λ s. contains-Decides s.speaker_id (speaker_ids t)) t.segments in
    (
      λ h. record {
        distinct_speakers = speakers.0 (ground arith);
        distinct_segments = segments.0 (ground arith);
        known_speakers = known.0 (ground arith);
        in_order = order.0 (ground arith);
      },
      λ c. rw (
        speakers.1 c.distinct_speakers,
        segments.1 c.distinct_segments,
        known.1 c.known_speakers,
        order.1 c.in_order,
      ),
    )
