-- ===== src/Uploads/Parser/Bounds.antt =====
-- What an accepted request holds: each field once, and audio within the bound, counted byte by byte.
use hack_ef3da0e3_aib2bsaass.Base.{
  ℕ, ◌+◌, ◌-◌, ◌≤◌, ◌≡◌, ◌⊎◌, arith, inl, inr, true, false, Option, none, some, List, [], ◌∷◌,
  if◌then◌else◌, nat_eq, list_eq, contains, ok,
}
use hack_ef3da0e3_aib2bsaass.Model.Text.{Text}
use hack_ef3da0e3_aib2bsaass.Uploads.Media.{max_upload_bytes}
use hack_ef3da0e3_aib2bsaass.Uploads.Parser.{
  Part, Parser, Event, headers_finished, part_data, on_headers_finished, on_part_data, on_event,
  feed, new_parser, is_audio_part, field_names,
}

-- the bytes of audio among the events, after the part `current`
abbrev pub audio_size : Option Part → List Event → ℕ
audio_size current [] = 0
audio_size current (headers_finished part ∷ es) = audio_size (some part) es
audio_size current (part_data start stop ∷ es) =
    (if is_audio_part current then stop - start else 0) + audio_size current es

-- the fields of the events
abbrev pub fields : List Event → List Text
fields [] = []
fields (headers_finished part ∷ es) = part.field_name ∷ fields es
fields (part_data start stop ∷ es) = fields es

-- the parser behind the headers of a part, and behind audio
abbrev after_headers : Part → Parser → Parser
after_headers part s = record s { seen = part.field_name ∷ s.seen; current_part = some part }

abbrev after_audio : ℕ → Parser → Parser
after_audio n s = record s { audio_bytes = s.audio_bytes + n }

feed-audio_size :
    (es : List Event) (s t : Parser)
    → s.audio_bytes ≤ max_upload_bytes
    → feed es s ≡ ok t
    → (t.audio_bytes ≡ s.audio_bytes + audio_size s.current_part es)
      × (t.audio_bytes ≤ max_upload_bytes)
unfolding feed on_event on_headers_finished on_part_data
feed-audio_size [] s t le e = ground arith
feed-audio_size (headers_finished part ∷ es) s t le e =
    ground (arith, feed-audio_size es (after_headers part s) t)
feed-audio_size (part_data start stop ∷ es) s t le e =
    ground (arith, feed-audio_size es (after_audio (stop - start) s) t, feed-audio_size es s t)

-- the fields that come, where `seen` have come before
abbrev pub Fresh : List Text → List Text → Type 0
Fresh seen [] = Unit
Fresh seen (f ∷ fs) =
    (contains f field_names ≡ true) × (contains f seen ≡ false) × Fresh (f ∷ seen) fs

feed-fields : (es : List Event) (s t : Parser) → feed es s ≡ ok t → Fresh s.seen (fields es)
unfolding feed on_event on_headers_finished on_part_data
feed-fields [] s t e = tt
feed-fields (headers_finished part ∷ es) s t e =
    (ground arith, ground arith, feed-fields es (after_headers part s) t (ground arith))
feed-fields (part_data start stop ∷ es) s t e =
    let goes_on : (feed es (after_audio (stop - start) s) ≡ ok t) ⊎ (feed es s ≡ ok t) =
      ground arith in
    elim goes_on [
      | inl q ↦ feed-fields es (after_audio (stop - start) s) t q
      | inr q ↦ feed-fields es s t q
    ]

-- Where the parser accepts the events of a request, it has counted every byte of audio, these are
-- 100 MiB at most, and each part has the name of one of the two fields, which no earlier part has.
pub feed_lem :
    (es : List Event) (t : Parser)
    → feed es new_parser ≡ ok t
    → (t.audio_bytes ≡ audio_size none es)
      × (audio_size none es ≤ max_upload_bytes)
      × Fresh [] (fields es)
feed_lem es t e =
    let (counted, bounded) = feed-audio_size es new_parser t (omega arith) e in
    (omega (arith, counted), omega (arith, counted, bounded), feed-fields es new_parser t e)
