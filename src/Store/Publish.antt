-- ===== src/Store/Publish.antt =====
-- `publish_results`: the originals, the record, and the manifest last.
pub mod Jobs
pub mod Faultless
use hack_ef3da0e3_aib2bsaass.Base.{
  ℕ, ◌+◌, Bool, true, false, not, ◌&&◌, ◌||◌, Option, none, some, List, [], ◌∷◌, ◌++◌,
  if◌then◌else◌, nat_eq, list_eq, ◌==◌, find,
}
use hack_ef3da0e3_aib2bsaass.Base.Exec.{
  Exec, pure, raise, gets, modify, skip, ◌>>=◌, ◌>>◌, catch, for_each,
}
use hack_ef3da0e3_aib2bsaass.Model.Text.{Text}
use hack_ef3da0e3_aib2bsaass.Model.Insights.{ResultBundleV1, valid_bundle}
use hack_ef3da0e3_aib2bsaass.Model.Meeting.{
  Meeting, MeetingRecord, JobRecord, ReadyManifest, new_job, review_required,
}
use hack_ef3da0e3_aib2bsaass.Store.World.{
  Env, World, M, Raised, value_error, validation_error, artifact_integrity, Artifact, Name, live,
  meeting_json, manifest_json, transcript_json, insights_json, transcript_txt,
}
use hack_ef3da0e3_aib2bsaass.Store.Files.{touch, sync, exists, read_file, atomic_write}
use hack_ef3da0e3_aib2bsaass.Store.Records.{now, read_record, read_manifest, read_results}
use hack_ef3da0e3_aib2bsaass.Store.Render.{plain_text}

-- `next((job for job in jobs if job.attempt == attempt), None)`
unfoldable pub job_at : ℕ → List JobRecord → Option JobRecord
job_at attempt = find (λ j. j.attempt == attempt)

-- The job that `job_at` finds is changed in place; where there is none, one is appended.
unfoldable pub with_job : ℕ → (JobRecord → JobRecord) → List JobRecord → List JobRecord
with_job attempt f [] = f (new_job attempt none) ∷ []
with_job attempt f (j ∷ js) = if j.attempt == attempt then f j ∷ js else j ∷ with_job attempt f js

abbrev pub other_job : Option JobRecord → ℕ → Bool
other_job none id = false
other_job (some j) id = elim j.job_id [ none ↦ false | some known ↦ not (known == id) ]

module _ ⦃env : Env⦄ where
  -- the bytes of each original
  unfoldable pub original : ResultBundleV1 → Artifact → env.Bytes
  original b transcript_json = env.encode_transcript b.transcript
  original b insights_json = env.encode_insights b.insights
  original b _ = env.utf8 (plain_text b.transcript.segments)

  -- one round of the loop: write the original and verify what was written
  unfoldable pub publish_artifact : ResultBundleV1 → Artifact → M Unit
  publish_artifact b name = do
    atomic_write (live name) (original b name) true
    content ← read_file (live name)
    if env.sha256 content == env.sha256 (original b name) then skip else raise artifact_integrity

  abbrev pub manifest_of : ℕ → ℕ → ℕ → ResultBundleV1 → ReadyManifest
  manifest_of owner_id meeting_id attempt b = record {
    owner_id = owner_id;
    meeting_id = meeting_id;
    attempt = attempt;
    job_id = b.job_id;
    result_hash = b.result_hash;
    model_versions = b.model_versions;
    artifacts = record {
      transcript_json = env.sha256 (original b transcript_json);
      insights_json = env.sha256 (original b insights_json);
      transcript_txt = env.sha256 (original b transcript_txt);
    };
  }

  abbrev pub finished : ResultBundleV1 → JobRecord → JobRecord
  finished b j = record j {
    job_id = some b.job_id;
    result_hash = some b.result_hash;
    ack_pending = true;
  }

  -- the record of a meeting whose results are ready
  abbrev pub published : ResultBundleV1 → ℕ → MeetingRecord → MeetingRecord
  published b t r = record r {
    meeting = record r.meeting {
      status = review_required;
      stage = none;
      updated_at = t;
      failure = none;
    };
    jobs = with_job r.meeting.attempt (finished b) r.jobs;
  }

  -- Results that can be read are synced again, since an earlier sync may have failed.
  unfoldable pub confirm_results : ℕ → ℕ → ReadyManifest → M ReadyManifest
  confirm_results owner_id meeting_id manifest = do
    read_results owner_id meeting_id
    for_each (transcript_json ∷ insights_json ∷ transcript_txt ∷ meeting_json ∷ manifest_json ∷ [])
        (λ name. touch)
    touch
    pure manifest

  -- The manifest is there: the same results are confirmed, and others are refused.
  unfoldable pub publish_again : ℕ → ℕ → ResultBundleV1 → M ReadyManifest
  publish_again owner_id meeting_id b = do
    manifest ← read_manifest owner_id meeting_id
    if not (manifest.result_hash == b.result_hash)
        then raise artifact_integrity
        else confirm_results owner_id meeting_id manifest

  unfoldable pub publish_first : ℕ → ℕ → ResultBundleV1 → MeetingRecord → M ReadyManifest
  publish_first owner_id meeting_id b stored = do
    publish_artifact b transcript_json
    publish_artifact b insights_json
    publish_artifact b transcript_txt
    t ← now
    atomic_write (live meeting_json) (env.encode_record (published b t stored)) false
    let manifest = manifest_of owner_id meeting_id stored.meeting.attempt b
    atomic_write (live manifest_json) (env.encode_manifest manifest) true
    pure manifest

  -- the choice by `manifest_path.exists()`
  unfoldable pub publish_stored : ℕ → ℕ → ResultBundleV1 → MeetingRecord → M ReadyManifest
  publish_stored owner_id meeting_id b stored = do
    touch
    touch
    present ← exists (live manifest_json)
    if present
        then publish_again owner_id meeting_id b
        else publish_first owner_id meeting_id b stored

  unfoldable pub publish_results : ℕ → ℕ → ResultBundleV1 → M ReadyManifest
  publish_results owner_id meeting_id b =
      if not (valid_bundle env.digest b) then raise validation_error else (do
        stored ← read_record owner_id meeting_id
        if not (b.transcript.meeting_id == meeting_id)
              || other_job (job_at stored.meeting.attempt stored.jobs) b.job_id
            then raise artifact_integrity
            else publish_stored owner_id meeting_id b stored)
