-- ===== src/Review/Service/Approval.antt =====
-- What an approval requires and what it writes.
use hack_ef3da0e3_aib2bsaass.Base.{
  ℕ, ◌≡◌, ◌≢◌, refl, sym, subst, arith, some, none, true, false, not, any, is_some, List, [], ◌∷◌,
  All, ok, nat_eq, ◌==◌, Option,
}
use hack_ef3da0e3_aib2bsaass.Base.Exec.{raise}
use hack_ef3da0e3_aib2bsaass.Base.Exec.Hoare.{
  Hoare, Post, Hoare-bind, Hoare-if, Hoare-weaken, Hoare-strengthen, Hoare-raise, Hoare-given,
  Hoare-traced,
}
use hack_ef3da0e3_aib2bsaass.Model.Transcript.{TranscriptV1, Speaker, IdentityStatus, is_unreviewed}
use hack_ef3da0e3_aib2bsaass.Model.Insights.{InsightsV1, validate_against}
use hack_ef3da0e3_aib2bsaass.Model.Meeting.{
  MeetingRecord, MeetingStatus, review_required, is_review_required,
}
use hack_ef3da0e3_aib2bsaass.Review.Service.{
  approved_at, unfinished, read_current_locked, approve_locked, approve_review,
}
use hack_ef3da0e3_aib2bsaass.Review.Service.Commits.{read_current_locked-Keeps}
use hack_ef3da0e3_aib2bsaass.Store.World.{
  Env, World, Files, IsCodec, live, meeting_json, review_conflict, ReviewCode, stale_revision,
}
use hack_ef3da0e3_aib2bsaass.Store.Files.Laws.{View, On, sync-Keeps}
use hack_ef3da0e3_aib2bsaass.Store.Records.Reading.{now-Keeps}
use hack_ef3da0e3_aib2bsaass.Store.Records.Reads.{Stored, Stored-once, read_record-Hoare}
use hack_ef3da0e3_aib2bsaass.Store.Updates.{update_meeting}
use hack_ef3da0e3_aib2bsaass.Store.Updates.Written.{update_meeting-Hoare, read_record-Stored}
use hack_ef3da0e3_aib2bsaass.Store.Publish.Faultless.{known}
use hack_ef3da0e3_aib2bsaass.Store.Deletion.Locks.{under_lifecycle_lock-Locked}

required_if : (s : MeetingStatus) → is_review_required s ≡ true → s ≡ review_required
required_if review_required h = refl
required_if s h = cc (h)

speakers_finished :
    (l : List Speaker)
    → any (λ s. is_unreviewed s.identity_status) l ≡ false
    → All (λ s. s.identity_status ≢ IdentityStatus.unreviewed) l
speakers_finished [] h = tt
speakers_finished (s ∷ l) h = ((λ e. ground (arith, h, e)), speakers_finished l (ground (arith, h)))

none_if : {A : Type 0} (o : Option A) → is_some o ≡ false → o ≡ none
none_if none h = refl
none_if (some a) h = cc (h)

module _ ⦃env : Env⦄ where
  -- What can be read of this folder as the current results: every speaker was reviewed, and the
  -- insights are grounded.
  pub record IsReviewed (o k : ℕ) (old : MeetingRecord) (f : Files) : Type 0 where
    pub transcript : TranscriptV1
    pub insights : InsightsV1
    pub reader : World
    pub folder : reader.files ≡ f
    pub read : (read_current_locked o k old.meeting reader).0 ≡ ok (transcript, insights)
    pub speakers : All (λ s. s.identity_status ≢ IdentityStatus.unreviewed) transcript.speakers
    pub grounded : validate_against insights transcript ≡ none

  module _ (codec : IsCodec env) (o k base : ℕ) (old : MeetingRecord) (f0 : Files)
      (stored : Stored f0 o k old) where
    abbrev Before : View
    Before f s = f ≡ f0

    abbrev Any : View
    Any f s = Unit

    abbrev Approved : View
    Approved f s =
        ((t : ℕ) × (f (live meeting_json) ≡ some (env.encode_record (approved_at t old))))
        × (old.meeting.status ≡ review_required)
        × (base ≡ old.meeting.revision)
        × IsReviewed o k old f0

    approve :
        (t : ℕ)
        → old.meeting.status ≡ review_required
        → base ≡ old.meeting.revision
        → IsReviewed o k old f0
        → Hoare (On Before) (update_meeting o (approved_at t old)) (λ m. On Approved) (λ e. On Any)
    approve t required current reviewed =
        Hoare-strengthen _ (λ w p. subst (λ f. Stored f o old.meeting.id old) (sym p) own)
          (Hoare-weaken _
            (update_meeting-Hoare codec (λ s. Unit) (λ f s. Stored f o old.meeting.id old) o
              (approved_at t old) (λ r. r ≡ old) (λ f s p. tt)
              (Hoare-weaken _ (read_record-Stored codec o old.meeting.id old) (λ r v p. (tt, p.1))
                (λ e v p. tt)))
            (λ m v p. ((t, p.0.1), required, current, reviewed)) (λ e v p. tt))
      where
        own : Stored f0 o old.meeting.id old
        own = record {
          bytes = stored.bytes;
          at_name = stored.at_name;
          parsed = stored.parsed;
          owner = stored.owner;
          meeting = refl;
        }

    unfinished-IsReviewed :
        (t : TranscriptV1) (i : InsightsV1)
        → unfinished t i ≡ false
        → ((v : World) × (v.files ≡ f0) × ((read_current_locked o k old.meeting v).0 ≡ ok (t, i)))
        → IsReviewed o k old f0
    unfolding unfinished
    unfinished-IsReviewed t i done (v, folder, read) = record {
      transcript = t;
      insights = i;
      reader = v;
      folder = folder;
      read = read;
      speakers = speakers_finished t.speakers (ground (arith, done));
      grounded = none_if (validate_against i t) (ground (arith, done));
    }

    approve_locked-Hoare :
        Hoare (On Before) (approve_locked o k base) (λ m. On Approved) (λ e. On Any)
    unfolding approve_locked
    approve_locked-Hoare =
        Hoare-bind _ _
          (Hoare-weaken _ (read_record-Hoare Before o k)
            (λ r w p. (Stored-once f0 o k r old (subst (λ f. Stored f o k r) p.0 p.1) stored, p.0))
            (λ e w p. tt))
          (known {P = On Before} _ old (
            Hoare-if (not (is_review_required old.meeting.status))
              (raise (review_conflict ReviewCode.invalid_state)) _
              (λ bad. Hoare-raise _ (λ w p. tt))
              λ required.
                Hoare-if (not (base == old.meeting.revision))
                  (raise (review_conflict stale_revision)) _ (λ bad. Hoare-raise _ (λ w p. tt))
                  λ current.
                    Hoare-bind _ _
                      (Hoare-weaken _
                        (Hoare-traced _ (read_current_locked-Keeps Before o k old.meeting))
                        (λ x w p. p) (λ e w p. tt))
                      λ x.
                        Hoare-given _ (λ w p. p.1)
                          λ from.
                            Hoare-strengthen _ (λ w p. p.0)
                              (Hoare-if (unfinished x.0 x.1)
                                (raise (review_conflict ReviewCode.review_required)) _
                                (λ bad. Hoare-raise _ (λ w p. tt))
                                (λ done.
                                  Hoare-bind _ _
                                    (Hoare-weaken _ (now-Keeps Before) (λ t w p. p) (λ e w p. tt))
                                    λ t.
                                      approve t
                                        (required_if old.meeting.status (ground (arith, required)))
                                        (ground (arith, current))
                                        (unfinished-IsReviewed x.0 x.1 done from)))))

    -- Where a record of the owner is stored: an approval that returns has written that record as
    -- approved, the meeting was waiting for its review at the revision of the request, and of the
    -- folder as it was, the current results could be read with every speaker reviewed and the
    -- insights grounded. The system may fail as it likes; what was written as JSON is read back.
    pub approve_review_lem :
        (w : World)
        → w.files ≡ f0
        → Post
            (λ m v.
              ((t : ℕ) × (v.files (live meeting_json)
                  ≡ some (env.encode_record (approved_at t old))))
              × (old.meeting.status ≡ review_required)
              × (base ≡ old.meeting.revision)
              × IsReviewed o k old f0)
            (λ e v. Unit)
            (approve_review o k base w)
    unfolding approve_review
    approve_review_lem w here =
        (under_lifecycle_lock-Locked Before Any (λ m. On Approved) o k (approve_locked o k base)
            (λ f s p. tt) approve_locked-Hoare
            (λ m. Hoare-weaken _ (sync-Keeps Approved) (λ u v p. p) (λ e v p. tt))).at
          w here
