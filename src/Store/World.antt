-- ===== src/Store/World.antt =====
-- What the store stands on. The state is the folder that `_folder(owner_id, meeting_id)` names,
-- with the choices of the operating system, of the clock and of the network that are still to
-- come; a theorem holds for all of them.
use hack_ef3da0e3_aib2bsaass.Base.{
  ℕ, ◌≡◌, ◌↔◌, Bool, true, false, ◌&&◌, Option, none, some, List, arith, Eq, nat_beq, if◌then◌else◌,
}
use hack_ef3da0e3_aib2bsaass.Base.Exec.{Exec}
use hack_ef3da0e3_aib2bsaass.Model.Text.{Text, is_sha256}
use hack_ef3da0e3_aib2bsaass.Model.Transcript.{TranscriptV1}
use hack_ef3da0e3_aib2bsaass.Model.Insights.{InsightsV1, Payload, ResultBundleV1}
use hack_ef3da0e3_aib2bsaass.Model.Meeting.{MeetingRecord, ReadyManifest}
use hack_ef3da0e3_aib2bsaass.Model.Gpu.{GpuContextV1, JobV1, AckV1}
use hack_ef3da0e3_aib2bsaass.Review.Overlay.{ReviewSnapshot, ReviewError}

-- The known texts of the field "code" in an answer of the GPU service.
pub data DomainCode : Type 0 where
  job_not_found idempotency_conflict submission_pending result_not_ready job_failed
        result_hash_mismatch payload_deleted source_expired file_too_large unsupported_media_type
        invalid_request :
      DomainCode

-- The libraries that the store calls: JSON by pydantic, UTF-8, SHA-256 and the time-zone database.
-- A decoder answers `none` where the bytes are no JSON of the type.
pub record Env : Type 1 where
  pub Bytes : Type 0
  pub bytes_eq : Eq Bytes
  pub sha256 : Bytes → Text
  pub known_zone : Text → Bool
  pub digest : Payload → Text
  pub utf8 : Text → Bytes
  pub encode_record : MeetingRecord → Bytes
  pub decode_record : Bytes → Option MeetingRecord
  pub encode_manifest : ReadyManifest → Bytes
  pub decode_manifest : Bytes → Option ReadyManifest
  pub encode_transcript : TranscriptV1 → Bytes
  pub decode_transcript : Bytes → Option TranscriptV1
  pub encode_insights : InsightsV1 → Bytes
  pub decode_insights : Bytes → Option InsightsV1
  pub encode_snapshot : ReviewSnapshot → Bytes
  pub decode_snapshot : Bytes → Option ReviewSnapshot
  pub decode_job : Bytes → Option JobV1
  pub decode_bundle : Bytes → Option ResultBundleV1
  pub decode_ack : Bytes → Option AckV1
  -- the field "code" of a JSON object, where it is one of the known texts
  pub decode_code : Bytes → Option DomainCode

-- What the store relies on: what was written as JSON is read back, and a SHA-256 is printed as 64
-- hexadecimal digits.
pub record IsCodec (env : Env) : Type 0 where
  pub record_back : (r : MeetingRecord) → env.decode_record (env.encode_record r) ≡ some r
  pub manifest_back : (m : ReadyManifest) → env.decode_manifest (env.encode_manifest m) ≡ some m
  pub transcript_back :
      (t : TranscriptV1) → env.decode_transcript (env.encode_transcript t) ≡ some t
  pub insights_back : (i : InsightsV1) → env.decode_insights (env.encode_insights i) ≡ some i
  pub sha256_hex : (b : env.Bytes) → is_sha256 (env.sha256 b) ≡ true
  pub snapshot_back : (s : ReviewSnapshot) → env.decode_snapshot (env.encode_snapshot s) ≡ some s

-- The files that an attempt leaves behind.
pub data Artifact : Type 0 where
  meeting_json manifest_json transcript_json insights_json transcript_txt : Artifact

-- The files of a meeting's folder: `snapshot n` is review-n.json, `pdf n` is review-n.pdf, and
-- `archived n a` is attempts/n/a.
pub data Name : Type 0 where
  live : Artifact → Name
  upload_bin review_json : Name
  snapshot pdf pdf_marker : ℕ → Name
  archived : ℕ → Artifact → Name

rank : Artifact → ℕ
rank meeting_json = 0
rank manifest_json = 1
rank transcript_json = 2
rank insights_json = 3
rank transcript_txt = 4

unfoldable pub name_beq : Name → Name → Bool
unfolding rank
name_beq (live a) (live b) = nat_beq (rank a) (rank b)
name_beq upload_bin upload_bin = true
name_beq review_json review_json = true
name_beq (snapshot m) (snapshot n) = nat_beq m n
name_beq (pdf m) (pdf n) = nat_beq m n
name_beq (pdf_marker m) (pdf_marker n) = nat_beq m n
name_beq (archived m a) (archived n b) = nat_beq m n && nat_beq (rank a) (rank b)
name_beq _ _ = false

rank_injective : (a b : Artifact) → rank a ≡ rank b → a ≡ b
unfolding rank
rank_injective a b h = ground arith

name_beq→eq : (m n : Name) → name_beq m n ≡ true → m ≡ n
unfolding name_beq
name_beq→eq (live a) (live b) h = ground (arith, rank_injective a b)
name_beq→eq (archived m a) (archived n b) h = ground (arith, rank_injective a b)
name_beq→eq m n h = ground arith

name_beq_refl : (m : Name) → name_beq m m ≡ true
unfolding name_beq
name_beq_refl m = ground arith

-- Two names are compared rightly.
pub name_beq_iff : (m n : Name) → (name_beq m n ≡ true) ↔ (m ≡ n)
name_beq_iff m n =
    (name_beq→eq m n, λ p. mathlib.Core.Path.subst (λ z. name_beq m z ≡ true) p (name_beq_refl m))

-- How the system answers the next call on a file: it is done; it fails with `OSError` and nothing
-- has changed; it fails after the change, as a failed fsync does; or the path is no regular file.
pub data Choice : Type 0 where
  done refused half unsafe : Choice

pub data LifecycleCode : Type 0 where
  invalid_state attempts_exhausted source_expired cleanup_pending : LifecycleCode

pub data ReviewCode : Type 0 where
  stale_revision invalid_state review_required : ReviewCode

-- The exceptions. `file_not_found` is the subclass of `OSError`.
pub data Raised : Type 0 where
  meeting_not_found artifact_not_ready artifact_integrity unsafe_path os_error file_not_found
        value_error validation_error stop_iteration coordinator_storage :
      Raised
  lifecycle_conflict : LifecycleCode → Raised
  review_conflict : ReviewCode → Raised
  review_invalid : ReviewError → Raised
  gpu_unavailable gpu_protocol gpu_input : Raised
  gpu_domain : ℕ → DomainCode → Raised

-- A request to the GPU service.
pub data Request : Type 0 where
  submit : GpuContextV1 → Request
  get_job : ℕ → Request
  get_job_by_key : ℕ → ℕ → Request
  get_result : ℕ → Request
  ack : ℕ → Text → Request

module _ ⦃env : Env⦄ where
  abbrev pub Files : Type 0
  Files = Name → Option env.Bytes

  -- The outcome of sending an HTTP request.
  pub data Transport : Type 0 where
    timeout connection : Transport
    response : ℕ → env.Bytes → Transport

  -- A request, with the folder as it stood when it was sent.
  pub record Sent : Type 0 where
    pub request : Request
    pub files : Files

  pub record World : Type 0 where
    pub files : Files
    pub tombstones : List Files
    pub os : ℕ → Choice
    pub steps : ℕ
    pub clock : ℕ → ℕ
    pub reads : ℕ
    pub network : ℕ → Transport
    pub calls : ℕ
    pub sent : List Sent

  abbrev pub M : Type 0 → Type 0
  M A = Exec World Raised A

  unfoldable pub write : Name → env.Bytes → Files → Files
  write n b f m = if name_beq n m then some b else f m

  unfoldable pub remove : Name → Files → Files
  remove n f m = if name_beq n m then none else f m
