-- ===== src/Uploads/Parser.antt =====
-- `BoundedMeetingParser` and `parse_upload` of services/uploads.py. The multipart parser below, the
-- JSON reader and the model of the metadata are parameters: an event is what the parser below
-- reports, with the part that it has read.
pub mod Bounds
use hack_ef3da0e3_aib2bsaass.Base.{
  ℕ, ◌+◌, ◌-◌, Bool, true, false, not, ◌&&◌, ◌||◌, Option, none, some, List, [], ◌∷◌, leb, ltb,
  nat_beq, if◌then◌else◌, ◌==◌, nat_eq, list_eq, contains, is_some, length, take, all, Result, ok,
  err, map,
}
use hack_ef3da0e3_aib2bsaass.Model.Text.{Text, codes}
use hack_ef3da0e3_aib2bsaass.Uploads.Media.{Raised, upload_error, ErrorCode, max_upload_bytes}

-- The part that the parser below has read the headers of; `content_type` is empty where the header
-- is missing.
pub record Part : Type 0 where
  pub field_name : Text
  pub has_file : Bool
  pub content_type : Text

pub record Parser : Type 0 where
  pub audio_bytes : ℕ
  pub seen : List Text
  pub current_part : Option Part

pub data Event : Type 0 where
  headers_finished : Part → Event
  part_data : ℕ → ℕ → Event

abbrev pub invalid : Raised
invalid = upload_error 422 ErrorCode.invalid_request

-- `s.split(b";", 1)[0]`
abbrev pub before_semicolon : Text → Text
before_semicolon [] = []
before_semicolon (c ∷ s) = if c == b';' then [] else c ∷ before_semicolon s

-- `bytes.strip()` removes ASCII white space.
abbrev is_ascii_space : ℕ → Bool
is_ascii_space c = c == 32 || (leb 9 c && leb c 13)

abbrev pub strip_left : Text → Text
strip_left [] = []
strip_left (c ∷ s) = if is_ascii_space c then strip_left s else c ∷ s

abbrev all_space : Text → Bool
all_space s = all is_ascii_space s

abbrev pub strip_right : Text → Text
strip_right [] = []
strip_right (c ∷ s) = if all_space (c ∷ s) then [] else c ∷ strip_right s

-- `bytes.lower()`
abbrev pub lower : Text → Text
lower = map (λ c. if leb b'A' c && leb c b'Z' then c + 32 else c)

abbrev pub audio_name : Text
audio_name = codes "audio"

abbrev pub field_names : List Text
field_names = audio_name ∷ codes "metadata" ∷ []

abbrev pub metadata_types : List Text
metadata_types = [] ∷ codes "application/json" ∷ []

-- the part is refused, behind the check of its name
abbrev pub refused_part : Part → Bool
refused_part part =
    if part.field_name == audio_name
    then not part.has_file
    else part.has_file
      || not (
          contains (lower (strip_left (strip_right (before_semicolon part.content_type))))
            metadata_types)

-- `on_headers_finished`
unfoldable pub on_headers_finished : Part → Parser → Result Raised Parser
on_headers_finished part s =
    if not (contains part.field_name field_names) || contains part.field_name s.seen
    then err invalid
    else if refused_part part
    then err invalid
    else ok (record s { seen = part.field_name ∷ s.seen; current_part = some part })

abbrev pub is_audio_part : Option Part → Bool
is_audio_part none = false
is_audio_part (some part) = part.field_name == audio_name

-- `on_part_data`, for the bytes from `start` to `stop`
unfoldable pub on_part_data : ℕ → ℕ → Parser → Result Raised Parser
on_part_data start stop s =
    if is_audio_part s.current_part
    then (if ltb max_upload_bytes (s.audio_bytes + (stop - start))
        then err (upload_error 413 ErrorCode.file_too_large)
        else ok (record s { audio_bytes = s.audio_bytes + (stop - start) }))
    else ok s

unfoldable pub on_event : Event → Parser → Result Raised Parser
unfolding on_headers_finished on_part_data
on_event (headers_finished part) s = on_headers_finished part s
on_event (part_data start stop) s = on_part_data start stop s

abbrev pub and_then : Result Raised Parser → (Parser → Result Raised Parser) → Result Raised Parser
and_then (ok s) f = f s
and_then (err e) f = err e

-- the events of a request in their order
unfoldable pub feed : List Event → Parser → Result Raised Parser
unfolding on_event
feed [] s = ok s
feed (e ∷ es) s = and_then (on_event e s) (feed es)

abbrev pub new_parser : Parser
new_parser = record { audio_bytes = 0; seen = []; current_part = none }
