-- ===== src/Store/Records/Reading.antt =====
-- Reading changes nothing: each of these methods keeps every property of the folder.
use hack_ef3da0e3_aib2bsaass.Base.{ℕ, Option, some, Bool, true}
use hack_ef3da0e3_aib2bsaass.Base.Exec.Hoare.{Keeps, keeps_rules, Hoare-bind}
use hack_ef3da0e3_aib2bsaass.Model.Text.{Text}
use hack_ef3da0e3_aib2bsaass.Model.Meeting.{Meeting}
use hack_ef3da0e3_aib2bsaass.Store.World.{Env, Raised, Artifact, artifact_not_ready, file_not_found}
use hack_ef3da0e3_aib2bsaass.Store.Files.Laws.{
  View, On, touch-Keeps, sync-Keeps, read_file-Keeps, exists-Keeps, Keeps-or_raise,
}
use hack_ef3da0e3_aib2bsaass.Store.Records.{
  now, or_missing, read_record, read_manifest, read_artifact, read_results, visible, available,
  read_meeting, upload_path, upload_present, unready,
}

module _ ⦃env : Env⦄ where
  pub ruleset reading_rules =
      (keeps_rules, touch-Keeps, sync-Keeps, read_file-Keeps, exists-Keeps, Keeps-or_raise)

  module _ (I : View) where
    pub or_missing-Keeps : {A : Type 0} (d e : Raised) → Keeps (On I) (or_missing {A = A} d e)
    or_missing-Keeps d file_not_found = search reading_rules
    or_missing-Keeps d e = search reading_rules

    pub now-Keeps : Keeps (On I) now
    unfolding now
    now-Keeps = record { at = λ w h. h }

    pub read_record-Keeps : (o m : ℕ) → Keeps (On I) (read_record o m)
    unfolding read_record
    read_record-Keeps o m = search (reading_rules, or_missing-Keeps) depth 12

    pub read_manifest-Keeps : (o m : ℕ) → Keeps (On I) (read_manifest o m)
    unfolding read_manifest
    read_manifest-Keeps o m = search (reading_rules, or_missing-Keeps, read_record-Keeps) depth 16

    read_artifact-Keeps : (a : Artifact) (h : Text) → Keeps (On I) (read_artifact a h)
    unfolding read_artifact
    read_artifact-Keeps a h = search (reading_rules, or_missing-Keeps) depth 12

    pub read_results-Keeps : (o m : ℕ) → Keeps (On I) (read_results o m)
    unfolding read_results
    read_results-Keeps o m =
        search (reading_rules, read_manifest-Keeps, read_artifact-Keeps) depth 20

    unready-Keeps : (m : Meeting) (e : Raised) → Keeps (On I) (unready m e)
    unready-Keeps m artifact_not_ready = search reading_rules
    unready-Keeps m e = search reading_rules

    visible-Keeps : (o k : ℕ) (m : Meeting) → Keeps (On I) (visible o k m)
    unfolding visible
    visible-Keeps o k m = search (reading_rules, read_results-Keeps, unready-Keeps) depth 12

    available-Keeps : (b : Bool) (d : Option ℕ) → Keeps (On I) (available b d)
    unfolding available
    available-Keeps true (some d) = search (reading_rules, now-Keeps)
    available-Keeps _ _ = search reading_rules

    pub read_meeting-Keeps : (o m : ℕ) → Keeps (On I) (read_meeting o m)
    unfolding read_meeting
    read_meeting-Keeps o m =
        search (reading_rules, read_record-Keeps, visible-Keeps, available-Keeps) depth 20

    pub upload_path-Keeps : (o m : ℕ) → Keeps (On I) (upload_path o m)
    unfolding upload_path
    upload_path-Keeps o m = search (reading_rules, read_meeting-Keeps) depth 12

    pub upload_present-Keeps : (o m : ℕ) → Keeps (On I) (upload_present o m)
    unfolding upload_present
    upload_present-Keeps o m = search (reading_rules, read_record-Keeps) depth 12
