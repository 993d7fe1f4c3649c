-- ===== src/Model/Gpu.antt =====
-- models/gpu.py: what the GPU service receives and answers.
use hack_ef3da0e3_aib2bsaass.Base.{
  ℕ, ◌≡◌, ◌≢◌, ◌↔◌, Bool, true, false, not, ◌&&◌, ◌||◌, Option, none, some, List, leb,
  if◌then◌else◌, list_eq, nat_eq, is_some, all, unique, length, arith,
}
use hack_ef3da0e3_aib2bsaass.Model.Text.{Text, is_sha256, person_name}
use hack_ef3da0e3_aib2bsaass.Model.Insights.{valid_optional}
use hack_ef3da0e3_aib2bsaass.Model.Meeting.{CleanupStatus, LanguageHint, is_pending, pending}

pub record GpuContextV1 : Type 0 where
  pub meeting_id : ℕ
  pub attempt : ℕ
  pub meeting_date : ℕ
  pub timezone : Text
  pub participants : List Text
  pub language_hint : LanguageHint
  pub audio_sha256 : Text

-- `GPUContextV1`, its fields' constraints included.
unfoldable pub valid_context : (Text → Bool) → GpuContextV1 → Bool
valid_context known_zone c =
    leb 1 c.attempt
    && known_zone c.timezone
    && leb (length c.participants) 30
    && all person_name c.participants
    && unique c.participants
    && is_sha256 c.audio_sha256

pub data GpuFailure : Type 0 where
  invalid_audio processing_failed storage_failed source_expired : GpuFailure

pub data JobStatus : Type 0 where
  queued processing completed failed expired : JobStatus

pub data GpuStage : Type 0 where
  ingesting transcribing diarizing analyzing : GpuStage

abbrev pub is_working : JobStatus → Bool
is_working JobStatus.queued = true
is_working JobStatus.processing = true
is_working _ = false

abbrev pub is_busy : JobStatus → Bool
is_busy JobStatus.processing = true
is_busy _ = false

abbrev pub is_completed : JobStatus → Bool
is_completed JobStatus.completed = true
is_completed _ = false

pub record JobV1 : Type 0 where
  pub job_id : ℕ
  pub status : JobStatus
  pub stage : Option GpuStage
  pub failure : Option GpuFailure
  pub result_hash : Option Text
  pub cleanup_status : CleanupStatus
  pub expires_at : ℕ
  pub receipt_expires_at : Option ℕ

pub data JobError : Type 0 where
  stage_without_processing completed_without_hash hash_too_early pending_receipt
        cleanup_without_receipt :
      JobError

-- `JobV1.valid_stage`: the error that it raises, or `none`.
unfoldable pub valid_stage : JobV1 → Option JobError
valid_stage j =
    if is_some j.stage && not (is_busy j.status)
    then some stage_without_processing
    else if is_completed j.status && not (is_some j.result_hash)
    then some completed_without_hash
    else if is_working j.status && is_some j.result_hash
    then some hash_too_early
    else if is_pending j.cleanup_status && is_some j.receipt_expires_at
    then some pending_receipt
    else if not (is_pending j.cleanup_status)
        && (not (is_some j.receipt_expires_at) || is_working j.status)
    then some cleanup_without_receipt
    else none

-- `JobV1.model_validate_json`, its fields' constraints included.
unfoldable pub valid_job : JobV1 → Bool
unfolding valid_stage
valid_job j = valid_optional is_sha256 j.result_hash && not (is_some (valid_stage j))

-- A receipt confirms a cleanup, so its status is `deleted` or `expired`.
pub record AckV1 : Type 0 where
  pub job_id : ℕ
  pub result_hash : Text
  pub cleanup_status : CleanupStatus
  pub receipt_expires_at : ℕ

-- `AckV1.model_validate_json`, its fields' constraints included.
unfoldable pub valid_ack : AckV1 → Bool
valid_ack a = is_sha256 a.result_hash && not (is_pending a.cleanup_status)

-- A receipt stands exactly with a confirmed cleanup, which only a job that has ended has; a stage
-- stands only with processing, and a result hash not before the end, and always on completion.
pub record IsConsistent (j : JobV1) : Type 0 where
  pub staged : is_some j.stage ≡ true → j.status ≡ JobStatus.processing
  pub hashed : j.status ≡ JobStatus.completed → is_some j.result_hash ≡ true
  pub unhashed : is_working j.status ≡ true → j.result_hash ≡ none
  pub receipt : (is_some j.receipt_expires_at ≡ true) ↔ (j.cleanup_status ≢ pending)
  pub ended : j.cleanup_status ≢ pending → is_working j.status ≡ false

-- The validator raises nothing exactly on consistent answers.
pub valid_stage_iff : (j : JobV1) → (valid_stage j ≡ none) ↔ IsConsistent j
unfolding valid_stage
valid_stage_iff j = (
  λ h. record {
    staged = λ e. ground arith;
    hashed = λ e. ground arith;
    unhashed = λ e. ground arith;
    receipt = (λ e p. ground arith, λ p. ground arith);
    ended = λ p. ground arith;
  },
  λ c. ground (arith, c.staged, c.hashed, c.unhashed, c.receipt.0, c.receipt.1, c.ended),
)
