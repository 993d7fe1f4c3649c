-- ===== src/Model/Insights/Grounding.antt =====
-- What `validate_against` accepts, without its dict and its loops.
use hack_ef3da0e3_aib2bsaass.Base.{
  ◌≡◌, ◌↔◌, none, some, Option, arith, ◌≤◌, ◌<◌, IsIn, All, Distinct, contains-Decides,
  any-not-Decides, all-Decides, Option-cases, all, true, inl, inr, refl, Decides, list_eq, nat_eq,
  last_by, last_by-IsIn, last_by-Distinct,
}
use hack_ef3da0e3_aib2bsaass.Model.Text.{Text}
use hack_ef3da0e3_aib2bsaass.Model.Transcript.{TranscriptV1, Segment, speaker_ids, segment_ids}
use hack_ef3da0e3_aib2bsaass.Model.Insights.{
  Evidence, SummaryItem, ActionItem, InsightsV1, fits, all_items, known_assignee, validate_against,
}

-- A segment of the transcript has the referenced ID and contains the positive interval.
pub record Supports (e : Evidence) (s : Segment) : Type 0 where
  pub referenced : s.id ≡ e.segment_id
  pub from_start : s.start_ms ≤ e.start_ms
  pub positive : e.start_ms < e.end_ms
  pub to_end : e.end_ms ≤ s.end_ms

abbrev pub IsSupported : TranscriptV1 → Evidence → Type 0
IsSupported t e = (s : Segment) × IsIn s t.segments × Supports e s

abbrev pub IsAssignable : TranscriptV1 → Option Text → Type 0
IsAssignable t none = Unit
IsAssignable t (some speaker) = IsIn speaker (speaker_ids t)

pub record IsGrounded (t : TranscriptV1) (i : InsightsV1) : Type 0 where
  pub same_meeting : i.meeting_id ≡ t.meeting_id
  pub same_revision : i.revision ≡ t.revision
  pub supported : All (λ (x : SummaryItem). All (IsSupported t) x.evidence) (all_items i)
  pub assignable : All (λ (a : ActionItem). IsAssignable t a.assignee_speaker_id) i.action_items

fits→supported : (t : TranscriptV1) (e : Evidence) → fits t e ≡ true → IsSupported t e
unfolding fits
fits→supported t e h =
    elim (Option-cases (last_by (λ (s : Segment). s.id) e.segment_id t.segments)) [
      | inl missing ↦ ground arith
      | inr (s, found) ↦
          let (m, q) = last_by-IsIn (λ (x : Segment). x.id) e.segment_id t.segments s found in
          (
            s,
            m,
            record {
              referenced = q;
              from_start = ground arith;
              positive = ground arith;
              to_end = ground arith;
            },
          )
    ]

supported→fits :
    (t : TranscriptV1) (e : Evidence) → Distinct (segment_ids t) → IsSupported t e → fits t e ≡ true
unfolding fits
supported→fits t e d (s, m, r) =
    let found = last_by-Distinct (λ (x : Segment). x.id) t.segments s d m in
    ground (arith, r.referenced, found)

known_assignee-Decides :
    (t : TranscriptV1) (a : ActionItem)
    → Decides (known_assignee t a) (IsAssignable t a.assignee_speaker_id)
known_assignee-Decides t a = elim (Option-cases a.assignee_speaker_id) [
  | inl e ↦ rw e ((λ h. tt), (λ h. refl))
  | inr (s, e) ↦ rw e (contains-Decides s (speaker_ids t))
]

-- On a transcript with distinct segment IDs, `validate_against` raises nothing exactly when the
-- insights are of the same meeting and revision, every evidence lies inside the segment that it
-- references, and every assigned speaker is one of the transcript's.
pub validate_against_iff :
    (i : InsightsV1) (t : TranscriptV1)
    → Distinct (segment_ids t)
    → (validate_against i t ≡ none) ↔ IsGrounded t i
unfolding validate_against
validate_against_iff i t d =
    let evidence =
      any-not-Decides (λ (x : SummaryItem). all (fits t) x.evidence)
        (λ x. All (IsSupported t) x.evidence)
        (λ x.
          all-Decides (fits t) (IsSupported t) (λ e. (fits→supported t e, supported→fits t e d))
            x.evidence)
        (all_items i) in
    let assignees =
      any-not-Decides (known_assignee t) (λ (a : ActionItem). IsAssignable t a.assignee_speaker_id)
        (known_assignee-Decides t) i.action_items in
    (
      λ h. record {
        same_meeting = ground arith;
        same_revision = ground arith;
        supported = evidence.0 (ground arith);
        assignable = assignees.0 (ground arith);
      },
      λ g. ground (
        arith,
        g.same_meeting,
        g.same_revision,
        evidence.1 g.supported,
        assignees.1 g.assignable,
      ),
    )
