-- ===== src/Coordinator/Cleanup/Status.antt =====
-- What the public cleanup status says of the jobs.
use hack_ef3da0e3_aib2bsaass.Base.{◌≡◌, ◌↔◌, ◌≢◌, refl, arith, List, [], ◌∷◌, any, All, false}
use hack_ef3da0e3_aib2bsaass.Model.Meeting.{
  MeetingRecord, CleanupStatus, pending, deleted, expired, is_pending, is_expired,
}
use hack_ef3da0e3_aib2bsaass.Coordinator.Cleanup.{statuses, cleanup_status_of}

none_pending : (l : List CleanupStatus) → (any is_pending l ≡ false) ↔ All (λ c. c ≢ pending) l
none_pending [] = (λ h. tt, λ h. refl)
none_pending (c ∷ l) = ground (arith, (none_pending l).0, (none_pending l).1)

none_expired : (l : List CleanupStatus) → (any is_expired l ≡ false) ↔ All (λ c. c ≢ expired) l
none_expired [] = (λ h. tt, λ h. refl)
none_expired (c ∷ l) = ground (arith, (none_expired l).0, (none_expired l).1)

All-deleted :
    (l : List CleanupStatus)
    → All (λ c. c ≢ pending) l
    → All (λ c. c ≢ expired) l
    → All (λ c. c ≡ deleted) l
All-deleted [] p e = tt
All-deleted (c ∷ l) (p, ps) (e, es) = (ground arith, All-deleted l ps es)

none_left :
    (l : List CleanupStatus)
    → All (λ c. c ≡ deleted) l
    → (any is_pending l ≡ false) × (any is_expired l ≡ false)
none_left [] h = (refl, refl)
none_left (c ∷ l) (h, hs) = ground (arith, (none_left l hs).0, (none_left l hs).1)

-- A meeting is shown as deleted exactly when its upload and the remote data of every job are
-- deleted, and as not pending exactly when none of them is pending.
pub cleanup_status_of_lem :
    (r : MeetingRecord)
    → ((cleanup_status_of r ≡ deleted) ↔ All (λ c. c ≡ deleted) (statuses r))
      × ((cleanup_status_of r ≢ pending) ↔ All (λ c. c ≢ pending) (statuses r))
unfolding cleanup_status_of
cleanup_status_of_lem r =
    let pending_iff = none_pending (statuses r) in
    let expired_iff = none_expired (statuses r) in
    (
      (
        λ h. All-deleted (statuses r) (pending_iff.0 (ground arith)) (expired_iff.0 (ground arith)),
        λ h. let (p, e) = none_left (statuses r) h in rw (p, e) refl,
      ),
      (λ h. pending_iff.0 (ground arith), λ h p. ground (arith, pending_iff.1 h)),
    )
