-- ===== src/Review/Service/Stale.antt =====
-- A review or an approval of another revision than the current one.
use hack_ef3da0e3_aib2bsaass.Base.{ℕ, ◌≡◌, refl, ap, not, false, nat_eq, ◌==◌, arith, subst}
use hack_ef3da0e3_aib2bsaass.Base.Exec.{raise}
use hack_ef3da0e3_aib2bsaass.Base.Exec.Hoare.{Hoare, Post, Hoare-bind, Hoare-if, Hoare-raise}
use hack_ef3da0e3_aib2bsaass.Model.Meeting.{Meeting, MeetingRecord, is_ready, is_review_required}
use hack_ef3da0e3_aib2bsaass.Review.Overlay.{ReviewRequest}
use hack_ef3da0e3_aib2bsaass.Review.Service.{
  update_locked, update_review, approve_locked, approve_review,
}
use hack_ef3da0e3_aib2bsaass.Store.World.{
  Env, World, M, Files, ReviewCode, review_conflict, stale_revision,
}
use hack_ef3da0e3_aib2bsaass.Store.Files.{sync}
use hack_ef3da0e3_aib2bsaass.Store.Files.Laws.{View, On}
use hack_ef3da0e3_aib2bsaass.Store.Records.{read_record}
use hack_ef3da0e3_aib2bsaass.Store.Records.Reads.{Stored, Stored-once, read_record-Hoare}
use hack_ef3da0e3_aib2bsaass.Store.Deletion.Locks.{under_lifecycle_lock-Hoare}

module _ ⦃env : Env⦄ where
  module _ (old : Files) (o k : ℕ) (r : MeetingRecord) (stored : Stored old o k r) where
    abbrev Same : View
    Same f s = f ≡ old

    -- a test that passes only on the current revision
    refused :
        (base : ℕ) (s : MeetingRecord) (body : M Meeting)
        → (base == r.meeting.revision) ≡ false
        → not (base == s.meeting.revision) ≡ false
        → Hoare (On (λ f t. Same f t × Stored f o k s)) body (λ m w. ⊥) (λ e. On Same)
    refused base s body stale same = record { at = λ w h. absurd (clash w h.0 h.1) }
      where
        clash : (w : World) → w.files ≡ old → Stored w.files o k s → ⊥
        clash w e p =
            let one : r ≡ s = Stored-once old o k r s stored (subst (λ f. Stored f o k s) e p) in
            let fact = ap (λ x. base == x.meeting.revision) one in ground (arith, fact, stale, same)

    none_returned : Hoare (λ w. ⊥) sync (λ u w. ⊥) (λ e. On Same)
    none_returned = record { at = λ w h. absurd h }

    update_locked-refused :
        (q : ReviewRequest)
        → (q.base_revision == r.meeting.revision) ≡ false
        → Hoare (On Same) (update_locked o k q) (λ m w. ⊥) (λ e. On Same)
    unfolding update_locked
    update_locked-refused q stale = Hoare-bind (read_record o k) _ (read_record-Hoare Same o k) λ s.
        Hoare-if (not (is_ready s.meeting.status))
          (raise (review_conflict ReviewCode.invalid_state)) _
          (λ _. Hoare-raise (review_conflict ReviewCode.invalid_state) (λ w h. h.0))
          (λ _.
            Hoare-if (not (q.base_revision == s.meeting.revision))
              (raise (review_conflict stale_revision)) _
              (λ _. Hoare-raise (review_conflict stale_revision) (λ w h. h.0))
              (refused q.base_revision s _ stale))

    approve_locked-refused :
        (base : ℕ)
        → (base == r.meeting.revision) ≡ false
        → Hoare (On Same) (approve_locked o k base) (λ m w. ⊥) (λ e. On Same)
    unfolding approve_locked
    approve_locked-refused base stale =
        Hoare-bind (read_record o k) _ (read_record-Hoare Same o k) λ s.
          Hoare-if (not (is_review_required s.meeting.status))
            (raise (review_conflict ReviewCode.invalid_state)) _
            (λ _. Hoare-raise (review_conflict ReviewCode.invalid_state) (λ w h. h.0))
            (λ _.
              Hoare-if (not (base == s.meeting.revision)) (raise (review_conflict stale_revision)) _
                (λ _. Hoare-raise (review_conflict stale_revision) (λ w h. h.0))
                (refused base s _ stale))

  -- Where the stored record has another revision than the base of the request, neither a review nor
  -- an approval returns, and both leave every file of the folder as it was, whatever the system and
  -- the clock answer.
  pub stale_lem :
      (o k : ℕ) (r : MeetingRecord) (q : ReviewRequest) (w : World)
      → Stored w.files o k r
      → (q.base_revision == r.meeting.revision) ≡ false
      → Post (λ m v. ⊥) (λ e v. v.files ≡ w.files) (update_review o k q w)
        × Post (λ m v. ⊥) (λ e v. v.files ≡ w.files) (approve_review o k q.base_revision w)
  unfolding update_review approve_review
  stale_lem o k r q w stored stale = (
    (under_lifecycle_lock-Hoare (Same w.files o k r stored) (λ m v. ⊥) o k (update_locked o k q)
          (update_locked-refused w.files o k r stored q stale)
          (λ m. none_returned w.files o k r stored)).at
        w refl,
    (under_lifecycle_lock-Hoare (Same w.files o k r stored) (λ m v. ⊥) o k
          (approve_locked o k q.base_revision)
          (approve_locked-refused w.files o k r stored q.base_revision stale)
          (λ m. none_returned w.files o k r stored)).at
        w refl,
  )
