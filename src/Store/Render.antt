-- ===== src/Store/Render.antt =====
-- The plain-text transcript that `publish_results` writes beside the JSON.
use Prim.Native.Nat.{ℕ, zero, suc, ◌+◌, ◌/◌, ◌%◌}
use hack_ef3da0e3_aib2bsaass.Base.{List, [], ◌∷◌, ◌++◌, map, if◌then◌else◌, ltb}
use hack_ef3da0e3_aib2bsaass.Model.Text.{Text, codes}
use hack_ef3da0e3_aib2bsaass.Model.Transcript.{Segment}

-- The decimal digits, with fuel for one digit a round.
unfoldable pub decimal_on : ℕ → ℕ → Text
decimal_on zero n = []
decimal_on (suc fuel) n =
    let rest = decimal_on fuel (n / 10) in
    if ltb n 10 then (48 + n) ∷ [] else rest ++ (48 + n % 10) ∷ []

-- `str(n)`
unfoldable pub decimal : ℕ → Text
unfolding decimal_on
decimal n = decimal_on (n + 1) n

unfoldable pub segment_line : Segment → Text
unfolding decimal
segment_line s =
    codes "["
    ++ (decimal s.start_ms
        ++ (codes "-"
            ++ (decimal s.end_ms ++ (codes "] " ++ (s.speaker_id ++ (codes ": " ++ s.text))))))

-- `separator.join(lines)`
unfoldable pub join : Text → List Text → Text
join separator [] = []
join separator (l ∷ []) = l
join separator (l ∷ m ∷ ls) = l ++ (separator ++ join separator (m ∷ ls))

unfoldable pub plain_text : List Segment → Text
unfolding segment_line join
plain_text segments = join (10 ∷ []) (map segment_line segments)
