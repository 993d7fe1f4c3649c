-- ===== src/Uploads/Media.antt =====
-- services/uploads.py: what `ffprobe` reports about a file, and the checks of the container and of
-- its streams. The bytes of a file are those of Ebml.
use hack_ef3da0e3_aib2bsaass.Base.{
  ℕ, Bool, true, false, not, ◌&&◌, ◌||◌, Option, none, some, List, [], ◌∷◌, if◌then◌else◌, ◌==◌,
  nat_eq, list_eq, option_eq, any, all, contains, Result, ok, err,
}
use hack_ef3da0e3_aib2bsaass.Model.Text.{Text, codes}
use hack_ef3da0e3_aib2bsaass.Model.Meeting.{AudioExtension}
use hack_ef3da0e3_aib2bsaass.Uploads.Ebml.{has_webm_doctype}

-- `MAX_UPLOAD_BYTES`, which is also the bound of the extracted audio
abbrev pub max_upload_bytes : ℕ
max_upload_bytes = 104857600

-- the codes of `UploadError`
pub data ErrorCode : Type 0 where
  invalid_request file_too_large unsupported_media_type : ErrorCode

-- What a function of the module raises: `UploadError` with its status and code, a call that the
-- system refused, or an arithmetic error that nobody catches. In the model alone, a loop without
-- fuel is `stuck`.
pub data Raised : Type 0 where
  upload_error : ℕ → ErrorCode → Raised
  os_error unsafe_path zero_division stuck : Raised

abbrev pub unsupported : Raised
unsupported = upload_error 415 ErrorCode.unsupported_media_type

pub data UploadExtension : Type 0 where
  audio : AudioExtension → UploadExtension
  mp4 mov mkv : UploadExtension

-- `suffix in ALLOWED_EXTENSIONS`, with the extension that the text is
unfoldable pub upload_extension : Text → Option UploadExtension
upload_extension s =
    if s == codes ".wav"
    then some (audio AudioExtension.wav)
    else if s == codes ".mp3"
    then some (audio AudioExtension.mp3)
    else if s == codes ".m4a"
    then some (audio AudioExtension.m4a)
    else if s == codes ".ogg"
    then some (audio AudioExtension.ogg)
    else if s == codes ".webm"
    then some (audio AudioExtension.webm)
    else if s == codes ".mp4"
    then some mp4
    else if s == codes ".mov"
    then some mov
    else if s == codes ".mkv"
    then some mkv
    else none

-- `_ProbeStream`
pub record ProbeStream : Type 0 where
  pub codec_name : Option Text
  pub codec_type : Text

-- `_ProbeResult`, with the format's only field
pub record ProbeResult : Type 0 where
  pub format_name : Text
  pub streams : List ProbeStream

abbrev first_part : List Text → Text
first_part [] = []
first_part (p ∷ ps) = p

abbrev other_parts : List Text → List Text
other_parts [] = []
other_parts (p ∷ ps) = ps

-- `s.split(",")`, which has a part at least
unfoldable pub split_comma : Text → List Text
split_comma [] = [] ∷ []
split_comma (c ∷ s) =
    let parts = split_comma s in
    if c == b',' then [] ∷ parts else (c ∷ first_part parts) ∷ other_parts parts

-- the dict `expected`
abbrev mov_family : List Text
mov_family = codes "mov" ∷ codes "mp4" ∷ codes "m4a" ∷ codes "3gp" ∷ codes "3g2" ∷ codes "mj2" ∷ []

abbrev matroska_family : List Text
matroska_family = codes "matroska" ∷ codes "webm" ∷ []

unfoldable pub expected : UploadExtension → List Text
expected (audio AudioExtension.wav) = []
expected (audio AudioExtension.mp3) = codes "mp3" ∷ []
expected (audio AudioExtension.m4a) = mov_family
expected (audio AudioExtension.ogg) = codes "ogg" ∷ []
expected (audio AudioExtension.webm) = matroska_family
expected mp4 = mov_family
expected mov = mov_family
expected mkv = matroska_family

abbrev pub is_webm_suffix : UploadExtension → Bool
is_webm_suffix (audio AudioExtension.webm) = true
is_webm_suffix _ = false

abbrev pub no_streams : List ProbeStream → Bool
no_streams [] = true
no_streams (_ ∷ _) = false

-- `_validate_container` on a file with these bytes; `none` where the file cannot be read. The caller
-- has no `.wav` here, for which `expected` has no entry.
unfoldable pub validate_container :
    Option (List ℕ) → UploadExtension → ProbeResult → Result Raised (Unit {0})
unfolding split_comma expected has_webm_doctype
validate_container bytes suffix probe =
    if not (any (λ f. contains f (expected suffix)) (split_comma probe.format_name))
      || no_streams probe.streams
    then err unsupported
    else if is_webm_suffix suffix && not (has_webm_doctype bytes)
    then err unsupported
    else ok tt

-- `stream.codec_type == "audio"`, "video", and `stream.codec_name == "opus"`
abbrev pub is_audio : ProbeStream → Bool
is_audio s = s.codec_type == codes "audio"

abbrev pub is_video : ProbeStream → Bool
is_video s = s.codec_type == codes "video"

abbrev pub is_opus : ProbeStream → Bool
is_opus s = s.codec_name == some (codes "opus")

-- `_validate_audio_only`
unfoldable pub validate_audio_only : UploadExtension → ProbeResult → Result Raised (Unit {0})
validate_audio_only suffix probe =
    if not (all is_audio probe.streams)
    then err unsupported
    else if is_webm_suffix suffix && not (all is_opus probe.streams)
    then err unsupported
    else ok tt
