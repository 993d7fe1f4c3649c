-- ===== src/Store/Quiet.antt =====
-- The store sends nothing: each of its methods keeps every property of what has been sent.
use hack_ef3da0e3_aib2bsaass.Base.{ℕ, Bool, List}
use hack_ef3da0e3_aib2bsaass.Base.Exec.Hoare.{Keeps}
use hack_ef3da0e3_aib2bsaass.Model.Insights.{ResultBundleV1}
use hack_ef3da0e3_aib2bsaass.Model.Meeting.{Meeting, MeetingRecord, ReadyManifest}
use hack_ef3da0e3_aib2bsaass.Store.World.{Env, Name, Artifact, Sent}
use hack_ef3da0e3_aib2bsaass.Store.Files.{unlink, atomic_write}
use hack_ef3da0e3_aib2bsaass.Store.Files.Laws.{View, On, perform-Keeps, atomic_write-Hoare}
use hack_ef3da0e3_aib2bsaass.Store.Records.{delete_upload}
use hack_ef3da0e3_aib2bsaass.Store.Records.Reading.{
  reading_rules, read_record-Keeps, read_manifest-Keeps, read_results-Keeps, read_meeting-Keeps,
  now-Keeps,
}
use hack_ef3da0e3_aib2bsaass.Store.Updates.{
  archive_artifact, archive_attempt, archive_if_retried, check_results, update_meeting,
}
use hack_ef3da0e3_aib2bsaass.Store.Publish.{
  publish_artifact, confirm_results, publish_again, publish_first, publish_stored, publish_results,
}

module _ ⦃env : Env⦄ (P : List Sent → Type 0) where
  abbrev pub Logged : View
  Logged f s = P s

  pub atomic_write-quiet :
      (n : Name) (d : env.Bytes) (immutable : Bool) → Keeps (On Logged) (atomic_write n d immutable)
  atomic_write-quiet n d immutable =
      atomic_write-Hoare Logged Logged Logged n d immutable (λ f s h new. h) (λ f s h same. h)
        (λ f s h. h) (λ f s h. h)

  unlink-quiet : (n : Name) → Keeps (On Logged) (unlink n)
  unfolding unlink
  unlink-quiet n = perform-Keeps Logged _ (λ f s h. h)

  ruleset quiet_rules = (
    reading_rules, atomic_write-quiet, unlink-quiet, read_record-Keeps, read_manifest-Keeps,
    read_results-Keeps, read_meeting-Keeps, now-Keeps,
  )

  pub delete_upload-quiet : (o m : ℕ) → Keeps (On Logged) (delete_upload o m)
  unfolding delete_upload
  delete_upload-quiet o m = search quiet_rules depth 12

  archive_artifact-quiet : (k : ℕ) (a : Artifact) → Keeps (On Logged) (archive_artifact k a)
  unfolding archive_artifact
  archive_artifact-quiet k a = search quiet_rules depth 12

  pub archive_attempt-quiet : (old : MeetingRecord) → Keeps (On Logged) (archive_attempt old)
  unfolding archive_attempt
  archive_attempt-quiet old = search (quiet_rules, archive_artifact-quiet) depth 16

  archive_if_retried-quiet :
      (old new : MeetingRecord) → Keeps (On Logged) (archive_if_retried old new)
  unfolding archive_if_retried
  archive_if_retried-quiet old new = search (quiet_rules, archive_attempt-quiet)

  pub check_results-quiet : (o : ℕ) (m : Meeting) → Keeps (On Logged) (check_results o m)
  unfolding check_results
  check_results-quiet o m = search quiet_rules

  pub update_meeting-quiet : (o : ℕ) (r : MeetingRecord) → Keeps (On Logged) (update_meeting o r)
  unfolding update_meeting
  update_meeting-quiet o r =
      search (quiet_rules, archive_if_retried-quiet, check_results-quiet) depth 16

  publish_artifact-quiet :
      (b : ResultBundleV1) (a : Artifact) → Keeps (On Logged) (publish_artifact b a)
  unfolding publish_artifact
  publish_artifact-quiet b a = search quiet_rules depth 12

  confirm_results-quiet : (o k : ℕ) (m : ReadyManifest) → Keeps (On Logged) (confirm_results o k m)
  unfolding confirm_results
  confirm_results-quiet o k m = search quiet_rules depth 16

  publish_again-quiet : (o k : ℕ) (b : ResultBundleV1) → Keeps (On Logged) (publish_again o k b)
  unfolding publish_again
  publish_again-quiet o k b = search (quiet_rules, confirm_results-quiet) depth 12

  publish_first-quiet :
      (o k : ℕ) (b : ResultBundleV1) (r : MeetingRecord) → Keeps (On Logged) (publish_first o k b r)
  unfolding publish_first
  publish_first-quiet o k b r = search (quiet_rules, publish_artifact-quiet) depth 20

  publish_stored-quiet :
      (o k : ℕ) (b : ResultBundleV1) (r : MeetingRecord)
      → Keeps (On Logged) (publish_stored o k b r)
  unfolding publish_stored
  publish_stored-quiet o k b r =
      search (quiet_rules, publish_again-quiet, publish_first-quiet) depth 12

  pub publish_results-quiet :
      (o k : ℕ) (b : ResultBundleV1) → Keeps (On Logged) (publish_results o k b)
  unfolding publish_results
  publish_results-quiet o k b = search (quiet_rules, publish_stored-quiet) depth 12
