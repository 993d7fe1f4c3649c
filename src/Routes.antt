-- ===== src/Routes.antt =====
-- api/routes/meetings.py: the listing of meetings, page by page. A meeting counts by what the
-- listing reads of it: the instant of its creation and the text of its ID. Base64, JSON, ISO instants
-- and UUIDs are parameters.
pub mod Order
pub mod Decoding
pub mod Pages
use hack_ef3da0e3_aib2bsaass.Base.{
  ℕ, ◌+◌, ◌-◌, ◌*◌, Bool, true, false, not, ◌&&◌, ◌||◌, Option, none, some, List, [], ◌∷◌, leb, ltb,
  nat_beq, if◌then◌else◌, ◌==◌, nat_eq, list_eq, all, length, take, filter, Result, ok, err, zero,
  suc, ◌++◌, ◌%◌,
}
use hack_ef3da0e3_aib2bsaass.Model.Text.{Text}

-- `(created_at, str(id))`
pub record Key : Type 0 where
  pub created_at : ℕ
  pub identifier : Text

-- `MeetingApiError`: the status and the code, of which the listing raises two
pub data ErrorCode : Type 0 where
  invalid_request storage_failed : ErrorCode

pub data ApiError : Type 0 where
  api_error : ℕ → ErrorCode → ApiError

abbrev pub invalid : ApiError
invalid = api_error 422 invalid_request

-- Python's `<` of two strings, and of two pairs
unfoldable pub text_lt : Text → Text → Bool
text_lt [] [] = false
text_lt [] (y ∷ ys) = true
text_lt (x ∷ xs) [] = false
text_lt (x ∷ xs) (y ∷ ys) = ltb x y || (nat_beq x y && text_lt xs ys)

unfoldable pub key_lt : Key → Key → Bool
unfolding text_lt
key_lt a b =
    ltb a.created_at b.created_at
    || (nat_beq a.created_at b.created_at && text_lt a.identifier b.identifier)

-- What `json.loads` gives, as far as a cursor is read.
pub data Item : Type 0 where
  string : Text → Item
  other : Item

pub data Loaded : Type 0 where
  array : List Item → Loaded
  no_array : Loaded

-- The libraries: Base64 for URLs, JSON of an array of two texts as bytes, `isoformat` of an instant
-- in UTC, `fromisoformat` with the distance from UTC in seconds where there is an offset, and
-- `str(UUID(s))`. A reader gives `none` where it raises.
pub record Cursors : Type 0 where
  pub encode_base64 : List ℕ → Text
  pub decode_base64 : Text → Option (List ℕ)
  pub dump : Text → Text → List ℕ
  pub load : List ℕ → Option Loaded
  pub isoformat : ℕ → Text
  pub fromisoformat : Text → Option (ℕ × Option ℕ)
  pub uuid : Text → Option Text

abbrev pub is_padding : ℕ → Bool
is_padding c = c == b'='

-- `.rstrip("=")`
unfoldable pub strip_padding : Text → Text
strip_padding [] = []
strip_padding (c ∷ s) = if all is_padding (c ∷ s) then [] else c ∷ strip_padding s

abbrev pub repeated : ℕ → ℕ → Text
repeated zero c = []
repeated (suc n) c = c ∷ repeated n c

-- `raw + "=" * (-len(raw) % 4)`
unfoldable pub padded : Text → Text
padded raw = raw ++ repeated ((4 - length raw % 4) % 4) b'='

-- `int(limit)`
unfoldable pub int_of : ℕ → Text → ℕ
int_of value [] = value
int_of value (c ∷ s) = int_of (value * 10 + (c - b'0')) s

abbrev is_decimal : ℕ → Bool
is_decimal c = leb b'0' c && leb c b'9'

abbrev not_empty : Text → Bool
not_empty [] = false
not_empty (c ∷ s) = true

-- the check of `limit`
unfoldable pub parse_limit : Text → Result ApiError ℕ
unfolding int_of
parse_limit s =
    if ltb 3 (length s)
      || not (not_empty s && all is_decimal s)
      || not (leb 1 (int_of 0 s) && leb (int_of 0 s) 100)
    then err invalid
    else ok (int_of 0 s)

abbrev pub last {ℓ} : {A : Type ℓ} → List A → Option A
last [] = none
last (x ∷ []) = some x
last (x ∷ y ∷ ys) = last (y ∷ ys)

-- `MeetingPage`
pub record MeetingPage : Type 0 where
  pub items : List Key
  pub next_cursor : Option Text

module _ (cursors : Cursors) where
  -- `_encode_cursor_stub`, on the instant and the ID of `_encode_cursor`
  unfoldable pub encode_cursor : Key → Text
  unfolding strip_padding
  encode_cursor k =
      strip_padding
        (cursors.encode_base64 (cursors.dump (cursors.isoformat k.created_at) k.identifier))

  abbrev pub with_identifier : ℕ → Option Text → Option Key
  with_identifier t none = none
  with_identifier t (some id) = some (record { created_at = t; identifier = id })

  -- the check of the offset, and then the ID
  abbrev pub stamped : Text → Option (ℕ × Option ℕ) → Option Key
  stamped id none = none
  stamped id (some (t, none)) = none
  stamped id (some (t, some offset)) =
      if offset == 0 then with_identifier t (cursors.uuid id) else none

  abbrev pub two_texts : Loaded → Option Key
  two_texts (array (string a ∷ string b ∷ [])) = stamped b (cursors.fromisoformat a)
  two_texts _ = none

  abbrev pub loaded : Option Loaded → Option Key
  loaded none = none
  loaded (some v) = two_texts v

  abbrev pub unpacked : Option (List ℕ) → Option Key
  unpacked none = none
  unpacked (some payload) = loaded (cursors.load payload)

  -- what `_decode_cursor` reads before it encodes it anew
  unfoldable pub read_cursor : Text → Option Key
  unfolding padded
  read_cursor raw = unpacked (cursors.decode_base64 (padded raw))

  abbrev pub recoded : Text → Option Key → Result ApiError Key
  recoded raw none = err invalid
  recoded raw (some k) = if encode_cursor k == raw then ok k else err invalid

  -- `_decode_cursor`
  unfoldable pub decode_cursor : Text → Result ApiError Key
  unfolding encode_cursor read_cursor
  decode_cursor raw = if ltb 256 (length raw) then err invalid else recoded raw (read_cursor raw)

  abbrev pub some_key : Result ApiError Key → Result ApiError (Option Key)
  some_key (ok k) = ok (some k)
  some_key (err e) = err e

  abbrev pub boundary_of : Option Text → Result ApiError (Option Key)
  boundary_of none = ok none
  boundary_of (some raw) = some_key (decode_cursor raw)

  abbrev pub before : Option Key → List Key → List Key
  before none meetings = meetings
  before (some b) meetings = filter (λ item. key_lt item b) meetings

  abbrev pub encoded : Option Key → Option Text
  encoded none = none
  encoded (some k) = some (encode_cursor k)

  -- the page of the meetings that are left, and the cursor where there are more
  unfoldable pub page_of : ℕ → List Key → MeetingPage
  page_of limit meetings =
      let page = take limit meetings in
      record {
        items = page;
        next_cursor = if ltb (length page) (length meetings) then encoded (last page) else none;
      }

  abbrev pub listed : ℕ → Option (List Key) → Option Key → Result ApiError MeetingPage
  listed limit none boundary = err (api_error 503 storage_failed)
  listed limit (some meetings) boundary = ok (page_of limit (before boundary meetings))

  abbrev pub with_boundary :
      ℕ → Option (List Key) → Result ApiError (Option Key) → Result ApiError MeetingPage
  with_boundary limit stored (ok boundary) = listed limit stored boundary
  with_boundary limit stored (err e) = err e

  abbrev pub with_limit :
      Option Text → Option (List Key) → Result ApiError ℕ → Result ApiError MeetingPage
  with_limit cursor stored (ok n) = with_boundary n stored (boundary_of cursor)
  with_limit cursor stored (err e) = err e

  -- `list_meetings`, on what the store gives: `none` where it raises
  unfoldable pub list_meetings :
      Text → Option Text → Option (List Key) → Result ApiError MeetingPage
  unfolding parse_limit decode_cursor page_of key_lt
  list_meetings limit cursor stored = with_limit cursor stored (parse_limit limit)
