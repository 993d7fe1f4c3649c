-- ===== src/Tests/Listing.antt =====
-- Concrete cursors and a listing of three meetings: the theorems about them, applied.
use hack_ef3da0e3_aib2bsaass.Base.{
  ℕ, zero, suc, ◌+◌, ◌-◌, ◌%◌, ◌≤◌, ◌≡◌, ◌↔◌, refl, ap, sym, ◌∙◌, arith, Option, none, some, List,
  [], ◌∷◌, ◌++◌, if◌then◌else◌, leb, length, ok, nat_eq,
}
use mathlib.Core.List.{append-nil, append_assoc}
use hack_ef3da0e3_aib2bsaass.Model.Text.{Text, codes}
use hack_ef3da0e3_aib2bsaass.Routes.{
  Key, Cursors, string, Loaded, array, no_array, strip_padding, repeated, padded, encode_cursor,
  parse_limit, decode_cursor, key_lt,
}
use hack_ef3da0e3_aib2bsaass.Routes.Decoding.{IsLibrary, decode_cursor_lem}
use hack_ef3da0e3_aib2bsaass.Routes.Pages.{walk, walk_lem}

-- bytes as characters behind the sign that pads
abbrev shifted : List ℕ → Text
shifted [] = []
shifted (c ∷ s) = (c + 62) ∷ shifted s

abbrev unshifted : Text → List ℕ
unshifted [] = []
unshifted (c ∷ s) = let rest = unshifted s in if leb 62 c then (c - 62) ∷ rest else rest

-- two texts as one, with a zero between them
abbrev joined : Text → Text → List ℕ
joined [] b = 0 ∷ b
joined (c ∷ a) b = suc c ∷ joined a b

abbrev split : Text → List ℕ → Loaded
split a [] = no_array
split a (zero ∷ s) = array (string a ∷ string s ∷ [])
split a (suc c ∷ s) = split (a ++ c ∷ []) s

abbrev instant : Text → Option (ℕ × Option ℕ)
instant (t ∷ []) = some (t, some 0)
instant _ = none

abbrev cursors : Cursors
cursors = record {
  encode_base64 = shifted;
  decode_base64 = λ s. some (unshifted s);
  dump = joined;
  load = λ b. some (split [] b);
  isoformat = λ t. t ∷ [];
  fromisoformat = instant;
  uuid = some;
}

strip_padding-shifted : (b : List ℕ) → strip_padding (shifted b) ≡ shifted b
unfolding strip_padding
strip_padding-shifted [] = refl
strip_padding-shifted (c ∷ b) = ground (arith, strip_padding-shifted b)

unshifted-repeated : (n : ℕ) → unshifted (repeated n b'=') ≡ []
unshifted-repeated zero = refl
unshifted-repeated (suc n) = unshifted-repeated n

unshifted-shifted : (b : List ℕ) (n : ℕ) → unshifted (shifted b ++ repeated n b'=') ≡ b
unshifted-shifted [] n = unshifted-repeated n
unshifted-shifted (c ∷ b) n = ground (arith, unshifted-shifted b n)

split-joined : (p a b : Text) → split p (joined a b) ≡ array (string (p ++ a) ∷ string b ∷ [])
split-joined p [] b = ap (λ (l : Text). array (string l ∷ string b ∷ [])) (sym (append-nil p))
split-joined p (c ∷ a) b =
    split-joined (p ++ c ∷ []) a b
    ∙ ap (λ (l : Text). array (string l ∷ string b ∷ [])) (append_assoc p (c ∷ []) a)

cursors-IsLibrary : IsLibrary cursors
unfolding padded
cursors-IsLibrary = record {
  base64_back = λ b.
      rw (strip_padding-shifted b)
        (ap (λ (r : List ℕ). some r) (unshifted-shifted b ((4 - length (shifted b) % 4) % 4)));
  json_back = λ a b. ap (λ (v : Loaded). some v) (split-joined [] a b);
  iso_back = λ t. refl;
  uuid_again = λ x s h. refl;
}

abbrev latest : Key
latest = record { created_at = 30; identifier = codes "b" }

abbrev earlier : Key
earlier = record { created_at = 20; identifier = codes "c" }

abbrev first : Key
first = record { created_at = 20; identifier = codes "a" }

abbrev meetings : List Key
meetings = latest ∷ earlier ∷ first ∷ []

decode_cursor_lem_example : (decode_cursor cursors (encode_cursor cursors earlier) ≡ ok earlier) ↔ (
    (encode_cursor cursors earlier ≡ encode_cursor cursors earlier)
    × (length (encode_cursor cursors earlier) ≤ 256)
    × (some earlier.identifier ≡ some earlier.identifier))
decode_cursor_lem_example =
    decode_cursor_lem cursors cursors-IsLibrary earlier (encode_cursor cursors earlier)

-- three meetings on pages of one
walk_lem_example : walk 4 cursors (codes "1") meetings none ≡ some meetings
unfolding parse_limit key_lt encode_cursor strip_padding
walk_lem_example =
    walk_lem cursors (codes "1") 1 meetings 4 cursors-IsLibrary
      (
        record { canonical = refl; short = omega arith },
        (
          record { canonical = refl; short = omega arith },
          (record { canonical = refl; short = omega arith }, tt),
        ),
      )
      refl ((refl, (refl, tt)), ((refl, tt), (tt, tt))) (omega arith)
