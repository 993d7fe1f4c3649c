-- ===== src/Model/Text.antt =====
-- The constrained strings of models/transcript.py and models/insights.py. A text is the list of
-- its code points.
use Prim.Native.Char.{code}
use Prim.Native.String.{String}
use mathlib.Core.List.{reverse}
use hack_ef3da0e3_aib2bsaass.Base.{
  ℕ, ◌≡◌, refl, Bool, true, false, not, ◌&&◌, ◌||◌, Option, none, some, List, [], ◌∷◌, arith, leb,
  nat_beq, if◌then◌else◌, ◌==◌, nat_eq, list_eq, length, all,
}

abbrev pub Text : Type 0
Text = List ℕ

abbrev pub codes : String → Text
codes String.[] = []
codes (String.◌∷◌ c s) = code c ∷ codes s

-- `str.isspace`, on the code points that `str.strip` removes.
unfoldable pub is_space : ℕ → Bool
is_space c =
    (leb 9 c && leb c 13)
    || (leb 28 c && leb c 32)
    || nat_beq c 0x85
    || nat_beq c 0xa0
    || nat_beq c 0x1680
    || (leb 0x2000 c && leb c 0x200a)
    || nat_beq c 0x2028
    || nat_beq c 0x2029
    || nat_beq c 0x202f
    || nat_beq c 0x205f
    || nat_beq c 0x3000

unfoldable pub lstrip : Text → Text
lstrip [] = []
lstrip (c ∷ s) = if is_space c then lstrip s else c ∷ s

-- `str.strip()`
unfoldable pub strip : Text → Text
unfolding lstrip
strip s = reverse (lstrip (reverse (lstrip s)))

abbrev pub is_empty : Text → Bool
is_empty [] = true
is_empty (_ ∷ _) = false

-- `NonEmptyText`: at least one character, and not blank.
unfoldable pub non_empty_text : Text → Bool
unfolding strip
non_empty_text s = leb 1 (length s) && not (is_empty (strip s))

-- White space as `strip_whitespace` of pydantic takes it: that of Unicode, to which the separators
-- U+001C to U+001F, which `str.strip` removes too, do not belong.
unfoldable pub is_white_space : ℕ → Bool
unfolding is_space
is_white_space c = is_space c && not (leb 28 c && leb c 31)

unfoldable pub trim_start : Text → Text
unfolding is_white_space
trim_start [] = []
trim_start (c ∷ s) = if is_white_space c then trim_start s else c ∷ s

unfoldable pub trim : Text → Text
unfolding trim_start
trim s = reverse (trim_start (reverse (trim_start s)))

-- `PersonName` on a stored value: what stripping leaves is the value, of 1 to 100 characters.
unfoldable pub person_name : Text → Bool
unfolding trim
person_name s = (trim s == s) && leb 1 (length s) && leb (length s) 100

is_digit : ℕ → Bool
is_digit c = leb b'0' c && leb c b'9'

-- What remains of `s` after the prefix.
after : Text → Text → Option Text
after [] s = some s
after (p ∷ ps) [] = none
after (p ∷ ps) (c ∷ s) = if nat_beq p c then after ps s else none

positive_number : Option Text → Bool
unfolding is_digit
positive_number none = false
positive_number (some []) = false
positive_number (some (c ∷ s)) = leb b'1' c && leb c b'9' && all is_digit s

-- `SpeakerId`: the pattern ^speaker_[1-9][0-9]*$
unfoldable pub is_speaker_id : Text → Bool
unfolding positive_number after
is_speaker_id s = positive_number (after (codes "speaker_") s)

-- `Sha256`: the pattern ^[0-9a-f]{64}$
unfoldable pub is_sha256 : Text → Bool
unfolding is_digit
is_sha256 s = nat_beq (length s) 64 && all (λ c. is_digit c || (leb b'a' c && leb c b'f')) s

lstrip-is_empty : (s : Text) → is_empty (lstrip s) ≡ all is_space s
unfolding lstrip
lstrip-is_empty [] = refl
lstrip-is_empty (c ∷ s) = ground (arith, lstrip-is_empty s)

speaker_id_examples :
    (is_speaker_id (codes "speaker_10") ≡ true)
    × (is_speaker_id (codes "speaker_0") ≡ false)
    × (is_speaker_id (codes "speaker_") ≡ false)
unfolding is_speaker_id
speaker_id_examples = (refl, refl, refl)
