-- ===== src/Uploads/Staging.antt =====
-- `stage_and_validate` of services/uploads.py with the functions that it calls on files. The body of
-- its `try` is `stage_in`, and the handler is `discard`.
pub mod Folder
pub mod Steps
pub mod Extraction
pub mod Branches
pub mod Leaves
use hack_ef3da0e3_aib2bsaass.Base.{
  ℕ, ◌+◌, ◌<◌, Bool, true, false, not, ◌&&◌, ◌||◌, Option, none, some, List, [], ◌∷◌, leb, ltb,
  nat_beq, if◌then◌else◌, filter, any, length, take, Result, ok, err,
}
use hack_ef3da0e3_aib2bsaass.Base.Exec.{Exec, pure, raise, gets, modify, skip, ◌>>=◌, ◌>>◌, catch}
use hack_ef3da0e3_aib2bsaass.Store.World.{Choice}
use hack_ef3da0e3_aib2bsaass.Model.Text.{Text}
use hack_ef3da0e3_aib2bsaass.Model.Meeting.{AudioExtension}
use hack_ef3da0e3_aib2bsaass.Uploads.Media.{
  Raised, unsupported, os_error, UploadExtension, audio, mp4, mov, mkv, ProbeResult,
  validate_container, validate_audio_only, is_audio, is_video, no_streams, max_upload_bytes,
  upload_extension,
}
use hack_ef3da0e3_aib2bsaass.Uploads.Wave.{validate_wav}
use hack_ef3da0e3_aib2bsaass.Uploads.Staging.Folder.{
  Env, StagedPath, File, World, M, lookup, put, remove, content, step, call, perform, unlink,
  unlink_existing, temporary_upload_path,
}

module _ ⦃env : Env⦄ where
  abbrev pub check_result : Result Raised (Unit {0}) → M Unit
  check_result (ok _) = skip
  check_result (err e) = raise e

  -- `shutil.copyfileobj`, which may stop with a part of the payload written
  abbrev pub copy_by : StagedPath → List ℕ → ℕ → Choice → M Unit
  copy_by p payload n Choice.done = modify (λ w. record w {
    files = put p (record { content = payload; is_regular = true; modified = env.time n }) w.files;
  })
  copy_by p payload n _ =
      modify (λ w. record w {
        files =
            put p
              (record {
                content = take (env.copied n) payload;
                is_regular = true;
                modified = env.time n;
              })
              w.files;
      })
      >> raise os_error

  -- the staged file opened, written and synced
  unfoldable pub copy_payload : StagedPath → List ℕ → M Unit
  unfolding step call
  copy_payload p payload = do call; n ← step; copy_by p payload n (env.os n); call

  abbrev pub parsed_report : Option ProbeResult → M ProbeResult
  parsed_report none = raise unsupported
  parsed_report (some probe) = pure probe

  abbrev pub open_wav : Option (List ℕ) → M Unit
  open_wav none = raise os_error
  open_wav (some bytes) = check_result (validate_wav (env.open_wave bytes))

  -- `_validate_wav(source_path)`
  unfoldable pub validate_wav_file : StagedPath → M Unit
  unfolding call validate_wav
  validate_wav_file p = do call; bytes ← gets (content p); open_wav bytes

  abbrev pub report : Option (ℕ × Option ProbeResult) → M ProbeResult
  report none = raise unsupported
  report (some (code, parsed)) = if nat_beq code 0 then parsed_report parsed else raise unsupported

  -- `_probe_media`
  unfoldable pub probe_media : StagedPath → M ProbeResult
  unfolding step
  probe_media p = do n ← step; bytes ← gets (content p); report (env.ffprobe n bytes)

  -- `target.is_file()` and the size bounds
  abbrev pub is_extracted : Option (List ℕ) → Bool
  is_extracted none = false
  is_extracted (some bytes) = ltb 0 (length bytes) && leb (length bytes) max_upload_bytes

  abbrev pub m4a : UploadExtension
  m4a = audio AudioExtension.m4a

  -- the second `try` of `_extract_first_audio`
  unfoldable pub check_extracted : StagedPath → ℕ → M StagedPath
  unfolding probe_media
  check_extracted target code = do
    bytes ← gets (content target)
    if not (nat_beq code 0) || not (is_extracted bytes) then raise unsupported else skip
    probe ← probe_media target
    check_result (validate_container bytes m4a probe)
    check_result (validate_audio_only m4a probe)
    pure target

  abbrev pub ended : StagedPath → Option ℕ → M StagedPath
  ended target none = unlink target >> raise unsupported
  ended target (some code) = catch (check_extracted target code) (λ e. unlink target >> raise e)

  -- what `ffmpeg` leaves in its target
  abbrev pub leave : StagedPath → ℕ → Option (List ℕ) → M Unit
  leave target n none = modify (λ w. record w { files = remove target w.files })
  leave target n (some bytes) = modify (λ w. record w {
    files =
        put target (record { content = bytes; is_regular = true; modified = env.time n }) w.files;
  })

  -- `_extract_first_audio`
  unfoldable pub extract_first_audio : StagedPath → M StagedPath
  unfolding step unlink temporary_upload_path check_extracted
  extract_first_audio source = do
    target ← temporary_upload_path
    n ← step
    bytes ← gets (content source)
    let run = env.ffmpeg n bytes
    leave target n run.0
    ended target run.1

  abbrev pub is_video_extension : UploadExtension → Bool
  is_video_extension (audio _) = false
  is_video_extension _ = true

  -- the audio extension that stays
  abbrev pub kept_extension : UploadExtension → AudioExtension
  kept_extension (audio e) = e
  kept_extension _ = AudioExtension.m4a

  -- the branch of `needs_extraction`
  unfoldable pub replace_by_audio : StagedPath → M (StagedPath × AudioExtension)
  unfolding extract_first_audio unlink_existing
  replace_by_audio source = do
    target ← extract_first_audio source
    modify (λ w. record w { normalized_path = some target })
    unlink_existing source
    pure (target, AudioExtension.m4a)

  unfoldable pub keep_audio :
      StagedPath → UploadExtension → ProbeResult → M (StagedPath × AudioExtension)
  keep_audio source suffix probe =
      check_result (validate_audio_only suffix probe) >> pure (source, kept_extension suffix)

  abbrev pub needs_extraction : UploadExtension → ProbeResult → Bool
  needs_extraction suffix probe = is_video_extension suffix || any is_video probe.streams

  -- what follows the branch of `.wav`
  unfoldable pub stage_other : StagedPath → UploadExtension → M (StagedPath × AudioExtension)
  unfolding probe_media replace_by_audio keep_audio
  stage_other source suffix = do
    probe ← probe_media source
    bytes ← gets (content source)
    check_result (validate_container bytes suffix probe)
    if no_streams (filter is_audio probe.streams) then raise unsupported else skip
    if needs_extraction suffix probe
        then replace_by_audio source
        else keep_audio source suffix probe

  abbrev pub validated : StagedPath → UploadExtension → M (StagedPath × AudioExtension)
  validated source (audio AudioExtension.wav) =
      validate_wav_file source >> pure (source, AudioExtension.wav)
  validated source (audio AudioExtension.mp3) = stage_other source (audio AudioExtension.mp3)
  validated source (audio AudioExtension.m4a) = stage_other source (audio AudioExtension.m4a)
  validated source (audio AudioExtension.ogg) = stage_other source (audio AudioExtension.ogg)
  validated source (audio AudioExtension.webm) = stage_other source (audio AudioExtension.webm)
  validated source mp4 = stage_other source mp4
  validated source mov = stage_other source mov
  validated source mkv = stage_other source mkv

  -- the body of the `try`
  unfoldable pub stage_in : StagedPath → List ℕ → UploadExtension → M (StagedPath × AudioExtension)
  unfolding copy_payload validate_wav_file stage_other
  stage_in source payload suffix = copy_payload source payload >> validated source suffix

  abbrev pub unlink_known : Option StagedPath → M Unit
  unlink_known none = skip
  unlink_known (some p) = unlink p

  -- the handler of the `try`
  unfoldable pub discard : StagedPath → Raised → M (StagedPath × AudioExtension)
  unfolding unlink
  discard source e = do
    unlink source
    normalized ← gets (λ w. w.normalized_path)
    unlink_known normalized
    raise e

  abbrev pub staged_as : Option UploadExtension → List ℕ → M (StagedPath × AudioExtension)
  staged_as none payload = raise unsupported
  staged_as (some suffix) payload = do
    source ← temporary_upload_path
    modify (λ w. record w { normalized_path = none })
    catch (stage_in source payload suffix) (discard source)

  -- `stage_and_validate`, on the suffix of the file name and the bytes of the upload
  unfoldable pub stage_and_validate : Text → List ℕ → M (StagedPath × AudioExtension)
  unfolding temporary_upload_path stage_in discard
  stage_and_validate suffix payload = staged_as (upload_extension suffix) payload
