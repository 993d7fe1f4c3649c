-- ===== src/Uploads/Ebml.antt =====
-- `_has_webm_doctype` of services/uploads.py: the EBML header at the start of a file. A file is the
-- list of its bytes.
pub mod Vint
pub mod Build
pub mod Headers
use Prim.Native.Nat.{bit_and}
use hack_ef3da0e3_aib2bsaass.Base.{
  ℕ, zero, suc, ◌+◌, ◌-◌, ◌*◌, ◌/◌, Bool, true, false, not, ◌&&◌, ◌||◌, Option, none, some, List,
  [], ◌∷◌, leb, ltb, nat_beq, if◌then◌else◌, ◌==◌, nat_eq, list_eq, length, take, get_elem?, slice,
}

-- The loop that looks for the first bit that is set: the mask and the width.
unfoldable pub marker : ℕ → ℕ → ℕ → ℕ → Option (ℕ × ℕ)
marker zero first mask width = none
marker (suc fuel) first mask width =
    let rest = marker fuel first (mask / 2) (width + 1) in
    if leb width 8 && nat_beq (bit_and first mask) 0 then rest else some (mask, width)

-- `value = (value << 8) | byte`, byte after byte; the eight low bits are free for the byte.
abbrev pub big_endian : ℕ → List ℕ → ℕ
big_endian value [] = value
big_endian value (b ∷ bs) = big_endian (value * 256 + b) bs

abbrev pub start_value : Bool → ℕ → ℕ → ℕ
start_value true first mask = bit_and first (mask - 1)
start_value false first mask = first

abbrev pub vint_of : List ℕ → ℕ → Bool → ℕ → Option (ℕ × ℕ) → Option (ℕ × ℕ)
vint_of bytes offset size first none = none
vint_of bytes offset size first (some (mask, width)) =
    if ltb 8 width || ltb (length bytes) (offset + width)
    then none
    else some (
      big_endian (start_value size first mask) (slice bytes (offset + 1) (offset + width)),
      offset + width,
    )

abbrev pub vint_from : List ℕ → ℕ → Bool → Option ℕ → Option (ℕ × ℕ)
vint_from bytes offset size none = none
vint_from bytes offset size (some first) = vint_of bytes offset size first (marker 9 first 0x80 1)

-- `vint`: the value and the offset behind it, or `none` where it raises. The loop takes nine rounds
-- at most, for the widths from 1 to 9.
unfoldable pub vint : List ℕ → ℕ → Bool → Option (ℕ × ℕ)
vint bytes offset size = vint_from bytes offset size (get_elem? bytes offset)

-- How the search of the header ends: with an answer, with the `ValueError` of `vint`, or, in the
-- model alone, without fuel.
pub data Search : Type 0 where
  answer : Bool → Search
  value_error stuck : Search

abbrev pub webm : List ℕ
webm = b'w' ∷ b'e' ∷ b'b' ∷ b'm' ∷ []

-- A round of the loop over the elements, behind the ID and behind the size of the element; `next`
-- goes on at the element's end.
abbrev pub element : List ℕ → ℕ → (ℕ → Search) → ℕ → Option (ℕ × ℕ) → Search
element bytes header_end next id none = value_error
element bytes header_end next id (some (size, cursor)) =
    if ltb header_end (cursor + size)
    then answer false
    else if id == 0x4282
    then answer (slice bytes cursor (cursor + size) == webm)
    else next (cursor + size)

abbrev pub identified : List ℕ → ℕ → (ℕ → Search) → Option (ℕ × ℕ) → Search
identified bytes header_end next none = value_error
identified bytes header_end next (some (id, cursor)) =
    element bytes header_end next id (vint bytes cursor true)

-- the loop over the elements of the header
unfoldable pub elements : ℕ → List ℕ → ℕ → ℕ → Search
elements zero bytes header_end cursor = stuck
elements (suc fuel) bytes header_end cursor =
    if ltb cursor header_end
    then identified bytes header_end (elements fuel bytes header_end) (vint bytes cursor false)
    else answer false

abbrev pub header : List ℕ → Option (ℕ × ℕ) → Search
header bytes none = value_error
header bytes (some (size, cursor)) =
    if ltb (length bytes) (cursor + size)
    then answer false
    else elements (length bytes + 1) bytes (cursor + size) cursor

abbrev pub magic : List ℕ
magic = 0x1a ∷ 0x45 ∷ 0xdf ∷ 0xa3 ∷ []

-- the search in the bytes that were read
unfoldable pub search_header : List ℕ → Search
search_header bytes =
    if not (take 4 bytes == magic) then answer false else header bytes (vint bytes 4 true)

abbrev pub found : Search → Bool
found (answer b) = b
found value_error = false
found stuck = false

-- `_has_webm_doctype`, where `none` is a file that cannot be opened or read
unfoldable pub has_webm_doctype : Option (List ℕ) → Bool
has_webm_doctype none = false
has_webm_doctype (some bytes) = found (search_header (take 4096 bytes))
