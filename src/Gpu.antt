-- ===== src/Gpu.antt =====
-- services/gpu_client.py: one request to the GPU service for each call.
pub mod Requests
pub mod Refusals
use hack_ef3da0e3_aib2bsaass.Base.{
  ℕ, ◌+◌, Bool, true, false, not, ◌&&◌, ◌||◌, Option, none, some, List, [], ◌∷◌, if◌then◌else◌, leb,
  nat_eq, list_eq, ◌==◌, ok,
}
use hack_ef3da0e3_aib2bsaass.Base.Exec.{Exec, pure, raise, gets, modify, skip, ◌>>=◌, ◌>>◌, catch}
use hack_ef3da0e3_aib2bsaass.Model.Text.{Text}
use hack_ef3da0e3_aib2bsaass.Model.Insights.{ResultBundleV1, valid_bundle}
use hack_ef3da0e3_aib2bsaass.Model.Gpu.{GpuContextV1, JobV1, AckV1, valid_job, valid_ack}
use hack_ef3da0e3_aib2bsaass.Store.World.{
  Env, World, M, Transport, timeout, connection, response, Sent, Request, submit, get_job,
  get_job_by_key, get_result, ack, DomainCode, job_not_found, idempotency_conflict,
  submission_pending, result_not_ready, job_failed, result_hash_mismatch, payload_deleted,
  file_too_large, unsupported_media_type, invalid_request, Raised, gpu_unavailable, gpu_protocol,
  gpu_input, gpu_domain, file_not_found, upload_bin,
}
use hack_ef3da0e3_aib2bsaass.Store.Files.{sync, or_raise}
use hack_ef3da0e3_aib2bsaass.Store.Records.{keep_if}

-- the status under which `_DOMAIN_CODES` lists a code
unfoldable pub status_of : DomainCode → ℕ
status_of job_not_found = 404
status_of idempotency_conflict = 409
status_of submission_pending = 409
status_of result_not_ready = 409
status_of job_failed = 409
status_of result_hash_mismatch = 409
status_of payload_deleted = 410
status_of DomainCode.source_expired = 410
status_of file_too_large = 413
status_of unsupported_media_type = 415
status_of invalid_request = 422

-- the keys of `_DOMAIN_CODES`
unfoldable pub listed : ℕ → Bool
listed s = s == 404 || s == 409 || s == 410 || s == 413 || s == 415 || s == 422

-- the error of an answer with a listed status
abbrev pub domain_error : ℕ → Option DomainCode → Raised
domain_error status none = gpu_protocol
domain_error status (some code) =
    if status_of code == status then gpu_domain status code else gpu_protocol

-- the error of an answer with another status than the expected one
unfoldable pub refusal : ℕ → Option DomainCode → Raised
unfolding listed status_of
refusal status code =
    if status == 401
    then gpu_unavailable
    else if leb 500 status
    then gpu_unavailable
    else if not (listed status)
    then gpu_protocol
    else domain_error status code

module _ ⦃env : Env⦄ where
  -- the transport: the request goes out, and the network answers
  unfoldable pub transmit : Request → M Transport
  transmit r w = (
    ok (w.network w.calls),
    record w { calls = w.calls + 1; sent = record { request = r; files = w.files } ∷ w.sent },
  )

  abbrev pub received : ℕ → Transport → M env.Bytes
  received expected timeout = raise gpu_unavailable
  received expected connection = raise gpu_unavailable
  received expected (response status body) =
      if status == expected then pure body else raise (refusal status (env.decode_code body))

  -- `_send`
  unfoldable pub send : Request → ℕ → M env.Bytes
  unfolding transmit
  send r expected = transmit r >>= received expected

  -- `_parse`
  abbrev pub parse_job : env.Bytes → M JobV1
  parse_job b = or_raise gpu_protocol (keep_if valid_job (env.decode_job b))

  abbrev open_audio : M Unit
  open_audio = do
    sync
    content ← gets (λ w. w.files upload_bin)
    or_raise file_not_found content
    skip

  -- `except OSError: raise GPUInputError()`
  abbrev pub unreadable : Raised → M Unit
  unreadable e = raise gpu_input

  unfoldable pub submit_job : GpuContextV1 → M JobV1
  submit_job context = do
    catch open_audio unreadable
    body ← send (submit context) 202
    parse_job body

  unfoldable pub fetch_job : ℕ → M JobV1
  fetch_job id = do
    body ← send (get_job id) 200
    job ← parse_job body
    if not (job.job_id == id) then raise gpu_protocol else pure job

  unfoldable pub fetch_job_by_key : ℕ → ℕ → M JobV1
  fetch_job_by_key meeting_id attempt = do
    body ← send (get_job_by_key meeting_id attempt) 200
    parse_job body

  unfoldable pub fetch_result : ℕ → M ResultBundleV1
  fetch_result id = do
    body ← send (get_result id) 200
    bundle ← or_raise gpu_protocol (keep_if (valid_bundle env.digest) (env.decode_bundle body))
    if not (bundle.job_id == id) then raise gpu_protocol else pure bundle

  unfoldable pub acknowledge : ℕ → Text → M AckV1
  acknowledge id hash = do
    body ← send (ack id hash) 200
    receipt ← or_raise gpu_protocol (keep_if valid_ack (env.decode_ack body))
    if not (receipt.job_id == id) || not (receipt.result_hash == hash)
        then raise gpu_protocol
        else pure receipt
