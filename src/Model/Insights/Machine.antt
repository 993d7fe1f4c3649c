-- ===== src/Model/Insights/Machine.antt =====
-- What the validator of a machine result accepts.
use hack_ef3da0e3_aib2bsaass.Base.{
  ◌≡◌, ◌↔◌, none, false, arith, All, nat_eq, list_eq, list_beq_iff, any-not-Decides, Decides, any,
  List, [], ◌∷◌, refl, Distinct,
}
use hack_ef3da0e3_aib2bsaass.Model.Text.{Text}
use hack_ef3da0e3_aib2bsaass.Model.Transcript.{
  Segment, Speaker, IdentityStatus, is_unreviewed, segment_ids,
}
use hack_ef3da0e3_aib2bsaass.Model.Insights.{Payload, ResultBundleV1, valid_machine_bundle}
use hack_ef3da0e3_aib2bsaass.Model.Insights.Grounding.{IsGrounded, validate_against_iff}

pub record IsMachine (digest : Payload → Text) (b : ResultBundleV1) : Type 0 where
  pub grounded : IsGrounded b.transcript b.insights
  pub transcript_zero : b.transcript.revision ≡ 0
  pub insights_zero : b.insights.revision ≡ 0
  pub unedited : All (λ (s : Segment). s.edited ≡ false) b.transcript.segments
  pub unreviewed_speakers :
      All (λ (s : Speaker). s.identity_status ≡ IdentityStatus.unreviewed) b.transcript.speakers
  pub hashed : b.result_hash ≡ digest b.payload

none_edited :
    (l : List Segment) → (any (λ s. s.edited) l ≡ false) ↔ All (λ (s : Segment). s.edited ≡ false) l
none_edited [] = (λ h. tt, λ h. refl)
none_edited (s ∷ l) = ground (arith, (none_edited l).0, (none_edited l).1)

is_unreviewed-Decides :
    (s : IdentityStatus) → Decides (is_unreviewed s) (s ≡ IdentityStatus.unreviewed)
is_unreviewed-Decides IdentityStatus.unreviewed = ground arith
is_unreviewed-Decides IdentityStatus.named = ground arith
is_unreviewed-Decides IdentityStatus.unknown = ground arith

-- On a transcript with distinct segment IDs, the validator raises nothing exactly on a grounded
-- bundle of revision zero, with no edited segment and no reviewed speaker, whose hash is the
-- digest of its payload.
pub valid_machine_bundle_iff :
    (digest : Payload → Text) (b : ResultBundleV1)
    → Distinct (segment_ids b.transcript)
    → (valid_machine_bundle digest b ≡ none) ↔ IsMachine digest b
unfolding valid_machine_bundle
valid_machine_bundle_iff digest b d =
    let grounding = validate_against_iff b.insights b.transcript d in
    let edits = none_edited b.transcript.segments in
    let speakers =
      any-not-Decides (λ (s : Speaker). is_unreviewed s.identity_status)
        (λ s. s.identity_status ≡ IdentityStatus.unreviewed)
        (λ s. is_unreviewed-Decides s.identity_status) b.transcript.speakers in
    let hash = list_beq_iff (digest b.payload) b.result_hash in
    (
      λ h. record {
        grounded = grounding.0 (ground arith);
        transcript_zero = ground arith;
        insights_zero = ground arith;
        unedited = edits.0 (ground arith);
        unreviewed_speakers = speakers.0 (ground arith);
        hashed = ground (arith, hash.0);
      },
      λ m. ground (
        arith,
        grounding.1 m.grounded,
        m.transcript_zero,
        m.insights_zero,
        edits.1 m.unedited,
        speakers.1 m.unreviewed_speakers,
        m.hashed,
        hash.1,
      ),
    )
