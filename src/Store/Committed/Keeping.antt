-- ===== src/Store/Committed/Keeping.antt =====
-- An update, an archive and the deletion of the upload keep the folder committed, whatever the
-- system answers.
use hack_ef3da0e3_aib2bsaass.Base.{
  ℕ, ◌≡◌, refl, ◌∙◌, Bool, true, false, Option, none, some, List, [], ◌∷◌, arith, is_some, list_eq,
}
use hack_ef3da0e3_aib2bsaass.Base.Exec.{skip, for_each}
use hack_ef3da0e3_aib2bsaass.Base.Exec.Hoare.{
  Hoare, Keeps, Post, Hoare-bind, Hoare-if, Hoare-weaken, Hoare-strengthen, Keeps-for_each,
}
use hack_ef3da0e3_aib2bsaass.Model.Meeting.{Meeting, MeetingRecord}
use hack_ef3da0e3_aib2bsaass.Store.World.{
  Env, World, Artifact, Name, Files, Sent, live, upload_bin, archived, meeting_json, manifest_json,
  transcript_json, insights_json, transcript_txt, remove, name_beq,
}
use hack_ef3da0e3_aib2bsaass.Store.Files.{touch, sync, exists, read_file, unlink, atomic_write}
use hack_ef3da0e3_aib2bsaass.Store.Files.Laws.{
  View, On, touch-Keeps, sync-Keeps, read_file-Keeps, exists-Hoare, perform-Keeps, perform-Hoare,
  atomic_write-Hoare,
}
use hack_ef3da0e3_aib2bsaass.Store.Records.{delete_upload}
use hack_ef3da0e3_aib2bsaass.Store.Records.Reading.{
  reading_rules, read_record-Keeps, read_results-Keeps, read_meeting-Keeps, now-Keeps,
}
use hack_ef3da0e3_aib2bsaass.Store.Updates.{
  archive_artifact, archive_attempt, archive_if_retried, check_results, update_meeting,
}
use hack_ef3da0e3_aib2bsaass.Store.Committed.{
  IsCommitted, Committed, IsAside, write-IsCommitted, remove-IsCommitted, IsCommitted-unmarked,
  write-other, remove_self,
}

module _ ⦃env : Env⦄ where
  -- a write beside the originals
  pub aside-Keeps :
      (n : Name) (d : env.Bytes) (immutable : Bool)
      → IsAside n
      → Keeps (On Committed) (atomic_write n d immutable)
  aside-Keeps n d immutable a =
      atomic_write-Hoare Committed Committed Committed n d immutable
        (λ f s h new. write-IsCommitted n d f a h) (λ f s h same. h) (λ f s h. h) (λ f s h. h)

  pub unlink_aside-Keeps : (n : Name) → IsAside n → Keeps (On Committed) (unlink n)
  unfolding unlink
  unlink_aside-Keeps n a = perform-Keeps Committed (remove n) (λ f s h. remove-IsCommitted n f a h)

  upload-IsAside : IsAside upload_bin
  unfolding name_beq
  upload-IsAside = record { manifest = refl; transcript = refl; insights = refl; text = refl }

  pub meeting-IsAside : IsAside (live meeting_json)
  unfolding name_beq
  meeting-IsAside = record { manifest = refl; transcript = refl; insights = refl; text = refl }

  archived-IsAside : (k : ℕ) (a : Artifact) → IsAside (archived k a)
  unfolding name_beq
  archived-IsAside k a = record { manifest = refl; transcript = refl; insights = refl; text = refl }

  ruleset store_rules = (
    reading_rules, aside-Keeps, unlink_aside-Keeps, upload-IsAside, meeting-IsAside,
    archived-IsAside, read_record-Keeps, read_results-Keeps, read_meeting-Keeps, now-Keeps,
  )

  pub delete_upload-Keeps : (o m : ℕ) → Keeps (On Committed) (delete_upload o m)
  unfolding delete_upload
  delete_upload-Keeps o m = search store_rules depth 12

  -- There is no manifest.
  abbrev pub Unmarked : View
  Unmarked f s = f (live manifest_json) ≡ none

  unmarked : (f : Files) (s : List Sent) → Unmarked f s → Committed f s
  unmarked f s h = IsCommitted-unmarked f h

  archived_unmarked :
      (k : ℕ) (a : Artifact) (d : env.Bytes)
      → Keeps (On Unmarked) (atomic_write (archived k a) d true)
  archived_unmarked k a d =
      atomic_write-Hoare Unmarked Unmarked Unmarked (archived k a) d true
        (λ f s h new.
          write-other (archived k a) (live manifest_json) d f (archived-IsAside k a).manifest ∙ h)
        (λ f s h same. h) (λ f s h. h) (λ f s h. h)

  remove_unmarked :
      (n : Name) (f : Files)
      → f (live manifest_json) ≡ none
      → remove n f (live manifest_json) ≡ none
  unfolding remove
  remove_unmarked n f h = ground arith

  unlink-unmarked : (n : Name) → Keeps (On Unmarked) (unlink n)
  unfolding unlink
  unlink-unmarked n = perform-Keeps Unmarked (remove n) (λ f s h. remove_unmarked n f h)

  archive_unmarked : (k : ℕ) (a : Artifact) → Keeps (On Unmarked) (archive_artifact k a)
  unfolding archive_artifact
  archive_unmarked k a = search (reading_rules, archived_unmarked, unlink-unmarked) depth 12

  -- The manifest is archived and gone, or it is still there over its originals.
  archive_marker :
      (k : ℕ)
      → Hoare
          (On Committed)
          (archive_artifact k manifest_json)
          (λ u. On Unmarked)
          (λ e. On Committed)
  unfolding archive_artifact
  archive_marker k = Hoare-bind touch _ (touch-Keeps Committed) λ _.
      Hoare-bind (exists (live manifest_json)) _
        (Hoare-weaken (exists (live manifest_json)) (exists-Hoare Committed (live manifest_json))
          (λ b w h. h) (λ e w h. h))
        λ present.
          Hoare-if present _ skip
            (λ there.
              Hoare-bind (read_file (live manifest_json)) _
                (Hoare-strengthen (read_file (live manifest_json)) (λ w h. h.0)
                  (read_file-Keeps Committed (live manifest_json)))
                λ content.
                  Hoare-bind (atomic_write (archived k manifest_json) content true) _
                    (aside-Keeps (archived k manifest_json) content true
                      (archived-IsAside k manifest_json))
                    λ _. Hoare-bind (unlink (live manifest_json)) _ drop λ _.
                      Hoare-weaken sync (sync-Keeps Unmarked) (λ u w h. h)
                        (λ e w h. unmarked w.files w.sent h))
            (λ gone.
              unfold skip in
              record { at = λ w h. absent (w.files (live manifest_json)) (h.1 ∙ gone) })
    where
      drop :
          Hoare (On Committed) (unlink (live manifest_json)) (λ u. On Unmarked) (λ e. On Committed)
      drop =
          unfold unlink in
          perform-Hoare Committed Unmarked Committed (remove (live manifest_json))
            (λ f s h. remove_self (live manifest_json) f) (λ f s h. h) unmarked

      absent : (o : Option env.Bytes) → is_some o ≡ false → o ≡ none
      absent none h = refl
      absent (some b) h = cc

  -- Archiving an attempt takes the marker away first: it ends with no manifest, and where it fails
  -- the folder is still committed.
  pub archive_attempt-Hoare :
      (old : MeetingRecord)
      → Hoare (On Committed) (archive_attempt old) (λ u. On Unmarked) (λ e. On Committed)
  unfolding archive_attempt for_each
  archive_attempt-Hoare old =
      let k = old.meeting.attempt in
      let through = touch-Keeps Committed in
      Hoare-bind touch _ through λ _. Hoare-bind touch _ through λ _.
        Hoare-bind touch _ through λ _.
          Hoare-bind (atomic_write (archived k meeting_json) (env.encode_record old) true) _
            (aside-Keeps (archived k meeting_json) (env.encode_record old) true
              (archived-IsAside k meeting_json))
            λ _.
              Hoare-bind _ (λ _. sync)
                (Hoare-bind (archive_artifact k manifest_json)
                  (λ _.
                    for_each (transcript_json ∷ insights_json ∷ transcript_txt ∷ [])
                      (archive_artifact k))
                  (archive_marker k)
                  λ _.
                    Hoare-weaken _
                      (Keeps-for_each (transcript_json ∷ insights_json ∷ transcript_txt ∷ [])
                        (archive_artifact k) (archive_unmarked k))
                      (λ u w h. h) (λ e w h. unmarked w.files w.sent h))
                λ _.
                  Hoare-weaken sync (sync-Keeps Unmarked) (λ u w h. h)
                    (λ e w h. unmarked w.files w.sent h)

  archive_attempt-Keeps : (old : MeetingRecord) → Keeps (On Committed) (archive_attempt old)
  archive_attempt-Keeps old =
      Hoare-weaken (archive_attempt old) (archive_attempt-Hoare old)
        (λ u w h. unmarked w.files w.sent h) (λ e w h. h)

  archive_if_retried-Keeps :
      (old new : MeetingRecord) → Keeps (On Committed) (archive_if_retried old new)
  unfolding archive_if_retried
  archive_if_retried-Keeps old new = search (store_rules, archive_attempt-Keeps)

  check_results-Keeps : (o : ℕ) (m : Meeting) → Keeps (On Committed) (check_results o m)
  unfolding check_results
  check_results-Keeps o m = search store_rules

  pub update_meeting-Keeps : (o : ℕ) (r : MeetingRecord) → Keeps (On Committed) (update_meeting o r)
  unfolding update_meeting
  update_meeting-Keeps o r =
      search (store_rules, archive_if_retried-Keeps, check_results-Keeps) depth 16

  -- From a committed folder, archiving an attempt ends with no live manifest where it returns, and
  -- in a committed folder where it raises, whatever the system answers.
  pub archive_attempt_lem :
      (old : MeetingRecord) (w : World)
      → IsCommitted w.files
      → Post
          (λ u v. v.files (live manifest_json) ≡ none)
          (λ e v. IsCommitted v.files)
          (archive_attempt old w)
  archive_attempt_lem old w h = (archive_attempt-Hoare old).at w h
