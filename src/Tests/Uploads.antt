-- ===== src/Tests/Uploads.antt =====
-- Concrete uploads: the theorems about them, applied.
use hack_ef3da0e3_aib2bsaass.Base.{
  ℕ, ◌+◌, ◌-◌, ◌*◌, ◌<◌, ◌≤◌, ◌≡◌, ◌≢◌, ◌↔◌, refl, true, false, arith, Option, none, some, List, [],
  ◌∷◌, ◌++◌, length, Result, ok, err,
}
use hack_ef3da0e3_aib2bsaass.Base.Exec.Hoare.{Post}
use hack_ef3da0e3_aib2bsaass.Store.World.{Choice}
use hack_ef3da0e3_aib2bsaass.Model.Text.{codes}
use hack_ef3da0e3_aib2bsaass.Model.Meeting.{AudioExtension}
use hack_ef3da0e3_aib2bsaass.Uploads.Media.{
  max_upload_bytes, Raised, ProbeStream, ProbeResult, stuck,
}
use hack_ef3da0e3_aib2bsaass.Uploads.Ebml.{vint, Search, search_header, has_webm_doctype, webm}
use hack_ef3da0e3_aib2bsaass.Uploads.Ebml.Vint.{encode_vint, vint-encode_vint}
use hack_ef3da0e3_aib2bsaass.Uploads.Ebml.Headers.{search_header-stuck}
use hack_ef3da0e3_aib2bsaass.Uploads.Ebml.Build.{
  Element, build_header, has_webm_doctype-build_header,
}
use hack_ef3da0e3_aib2bsaass.Uploads.Parser.{Event, headers_finished, part_data, Parser, feed}
use hack_ef3da0e3_aib2bsaass.Uploads.Parser.Bounds.{audio_size, fields, Fresh, feed_lem}
use hack_ef3da0e3_aib2bsaass.Uploads.Wave.{Wave, validate_wav, min}
use hack_ef3da0e3_aib2bsaass.Uploads.Wave.Reads.{IsReader, validate_wav_iff, validate_wav-stuck}
use hack_ef3da0e3_aib2bsaass.Uploads.Staging.{stage_and_validate}
use hack_ef3da0e3_aib2bsaass.Uploads.Staging.Folder.{Env, staged, World, content}
use hack_ef3da0e3_aib2bsaass.Uploads.Staging.Folder.Laws.{Adds, Safe}
use hack_ef3da0e3_aib2bsaass.Uploads.Staging.Steps.{IsPayload}
use hack_ef3da0e3_aib2bsaass.Uploads.Staging.Leaves.{
  stage_and_validate-Adds, stage_and_validate-IsPayload,
}

-- a size of 300 in two bytes, behind one byte and before another
vint-encode_vint_example : vint (7 ∷ (encode_vint 1 300 ++ 9 ∷ [])) 1 true ≡ some (300, 3)
vint-encode_vint_example = vint-encode_vint (7 ∷ []) (9 ∷ []) true 1 300 (omega arith) (omega arith)

search_header-stuck_example : search_header (0x1a ∷ 0x45 ∷ 0xdf ∷ 0xa3 ∷ 0x80 ∷ []) ≢ Search.stuck
search_header-stuck_example = search_header-stuck (0x1a ∷ 0x45 ∷ 0xdf ∷ 0xa3 ∷ 0x80 ∷ [])

-- the version of EBML, and the document type
abbrev webm_elements : List Element
webm_elements =
    record { id_width = 1; id = 0x286; size_width = 0; payload = 1 ∷ [] }
    ∷ record { id_width = 1; id = 0x282; size_width = 0; payload = webm }
    ∷ []

has_webm_doctype-build_header_example :
    has_webm_doctype (some (build_header 0 webm_elements ++ 1 ∷ 2 ∷ [])) ≡ true
unfolding encode_vint hack_ef3da0e3_aib2bsaass.Uploads.Ebml.Vint.low_bytes
has_webm_doctype-build_header_example =
    has_webm_doctype-build_header 0 webm_elements (1 ∷ 2 ∷ []) (omega arith, omega arith)
      (
        ((omega arith, omega arith), (omega arith, omega arith)),
        (((omega arith, omega arith), (omega arith, omega arith)), tt),
      )
      (omega arith)

-- two channels of 16 bits, 40,000 frames that are all there
abbrev wave : Wave
wave = record {
  getnchannels = 2;
  getsampwidth = 2;
  getframerate = 8000;
  getnframes = 40000;
  readframes = λ position frames. some (min (frames * 4) (160000 - position * 4));
}

wave-IsReader : IsReader wave 160000
wave-IsReader = record { reads = λ position frames. refl }

validate_wav_iff_example :
    (validate_wav (some wave) ≡ ok tt)
    ↔ ((0 < 2) × (0 < 8000) × (0 < 40000) × (0 < 4) × (40000 * 4 ≤ 160000))
validate_wav_iff_example = validate_wav_iff wave 160000 wave-IsReader

validate_wav-stuck_example : validate_wav (some wave) ≢ err stuck
validate_wav-stuck_example = validate_wav-stuck (some wave)

-- a video with a picture and a sound, and the sound that is extracted
abbrev sound : ProbeStream
sound = record { codec_name = some (codes "aac"); codec_type = codes "audio" }

abbrev picture : ProbeStream
picture = record { codec_name = some (codes "h264"); codec_type = codes "video" }

abbrev probe_of : Option (List ℕ) → ProbeResult
probe_of (some (_ ∷ [])) = record { format_name = codes "mov,mp4"; streams = sound ∷ [] }
probe_of _ = record { format_name = codes "mov,mp4"; streams = picture ∷ sound ∷ [] }

abbrev media : Env
media = record {
  os = λ n. Choice.done;
  uuid4 = λ n. n;
  time = λ n. 100000 + n;
  copied = λ n. 0;
  open_wave = λ bytes. some wave;
  ffprobe = λ n c. some (0, some (probe_of c));
  ffmpeg = λ n c. (some (7 ∷ []), some 0);
}

abbrev staging : World
staging = record {
  files = (staged 900, record { content = []; is_regular = true; modified = 99999 }) ∷ [];
  steps = 0;
  normalized_path = none;
}

abbrev video : List ℕ
video = 1 ∷ 2 ∷ 3 ∷ []

-- the folder afterwards
abbrev extracted : World
extracted = record {
  files =
      (staged 21, record { content = 7 ∷ []; is_regular = true; modified = 100025 })
      ∷ (staged 900, record { content = []; is_regular = true; modified = 99999 })
      ∷ [];
  steps = 28;
  normalized_path = some (staged 21);
}

stage_and_validate-Adds_example :
    Post
      (λ r w'. Adds staging.files (r.0 ∷ []) w'.files)
      (Safe (λ w'. Adds staging.files [] w'.files))
      (stage_and_validate ⦃env = media⦄ (codes ".mp4") video staging)
stage_and_validate-Adds_example = stage_and_validate-Adds ⦃env = media⦄ (codes ".mp4") video staging

runs :
    stage_and_validate ⦃env = media⦄ (codes ".mp4") video staging
    ≡ (ok (staged 21, AudioExtension.m4a), extracted)
unfolding stage_and_validate hack_ef3da0e3_aib2bsaass.Uploads.Media.upload_extension
    hack_ef3da0e3_aib2bsaass.Base.Exec.◌>>=◌ hack_ef3da0e3_aib2bsaass.Base.Exec.skip
    hack_ef3da0e3_aib2bsaass.Base.Exec.gets hack_ef3da0e3_aib2bsaass.Base.Exec.catch
    hack_ef3da0e3_aib2bsaass.Base.Exec.pure hack_ef3da0e3_aib2bsaass.Base.Exec.modify
    hack_ef3da0e3_aib2bsaass.Uploads.Media.validate_container
    hack_ef3da0e3_aib2bsaass.Uploads.Media.validate_audio_only
runs = refl

stage_and_validate-IsPayload_example :
    IsPayload ⦃env = media⦄ AudioExtension.m4a (content (staged 21) extracted)
stage_and_validate-IsPayload_example =
    stage_and_validate-IsPayload ⦃env = media⦄ (codes ".mp4") video staging extracted (staged 21)
      AudioExtension.m4a (λ a b e. e) runs

-- a request with the metadata and two pieces of audio
abbrev request : List Event
request =
    headers_finished (record {
      field_name = codes "metadata";
      has_file = false;
      content_type = codes "application/json";
    })
    ∷ part_data 0 40
    ∷ headers_finished
        (record { field_name = codes "audio"; has_file = true; content_type = codes "audio/wav" })
    ∷ part_data 0 1000
    ∷ part_data 20 520
    ∷ []

abbrev parsed : Parser
parsed = record {
  audio_bytes = 1500;
  seen = codes "audio" ∷ codes "metadata" ∷ [];
  current_part =
      some
        (record { field_name = codes "audio"; has_file = true; content_type = codes "audio/wav" });
}

feed_lem_example :
    (1500 ≡ audio_size none request)
    × (audio_size none request ≤ max_upload_bytes)
    × Fresh [] (fields request)
unfolding feed
feed_lem_example = feed_lem request parsed refl
