-- ===== src/Uploads/Ebml/Build.antt =====
-- What the search answers on a header that is built from elements: the reference reading of the
-- document type, and its equivalence with the search in the file's first bytes.
use mathlib.Core.List.{append_assoc}
use hack_ef3da0e3_aib2bsaass.Base.{
  ℕ, zero, suc, ◌+◌, ◌-◌, ◌*◌, ◌^◌, ◌≤◌, ◌<◌, ◌≡◌, refl, sym, ap, ◌∙◌, subst, arith, Bool, true,
  false, some, List, [], ◌∷◌, ◌++◌, if◌then◌else◌, ◌==◌, nat_eq, option_eq, list_eq, length,
  length-append, take, drop, slice, take_all, drop_all, length-take, length-drop, take-append-drop,
}
use hack_ef3da0e3_aib2bsaass.Uploads.Ebml.{
  vint, Search, answer, webm, identified, elements, magic, search_header, has_webm_doctype, found,
}
use hack_ef3da0e3_aib2bsaass.Uploads.Ebml.Vint.{
  mark, encode_vint, read_value, vint-encode_vint, length-encode_vint,
}

-- an element of a header: its ID and the payload, with the widths of the two integers
pub record Element : Type 0 where
  pub id_width : ℕ
  pub id : ℕ
  pub size_width : ℕ
  pub payload : List ℕ

abbrev pub Fits : ℕ → ℕ → Type 0
Fits n v = (n < 8) × (v < mark (n + 1) * 256 ^ n)

abbrev pub IsElement : Element → Type 0
IsElement e = Fits e.id_width e.id × Fits e.size_width (length e.payload)

abbrev pub AreElements : List Element → Type 0
AreElements [] = Unit
AreElements (e ∷ es) = IsElement e × AreElements es

abbrev pub encode : Element → List ℕ
encode e = encode_vint e.id_width e.id ++ (encode_vint e.size_width (length e.payload) ++ e.payload)

abbrev pub encode_all : List Element → List ℕ
encode_all [] = []
encode_all (e ∷ es) = encode e ++ encode_all es

-- the document type that the elements name: the payload of the first element with its ID
abbrev pub is_webm : List Element → Bool
is_webm [] = false
is_webm (e ∷ es) =
    if read_value false e.id_width e.id == 0x4282 then e.payload == webm else is_webm es

-- at `offset`, the bytes go on with `rest`
abbrev At : List ℕ → ℕ → List ℕ → Type 0
At bytes offset rest = (offset ≤ length bytes) × (drop offset bytes ≡ rest)

drop_nil : (a : ℕ) → drop {A = ℕ} a [] ≡ []
drop_nil zero = refl
drop_nil (suc a) = refl

drop-drop : (a b : ℕ) (xs : List ℕ) → drop (a + b) xs ≡ drop b (drop a xs)
drop-drop zero b xs = ap (λ (k : ℕ). drop k xs) {y = b} (omega arith)
drop-drop (suc a) b [] = drop_nil (suc a + b) ∙ sym (drop_nil b)
drop-drop (suc a) b (x ∷ xs) =
    ap (λ (k : ℕ). drop k (x ∷ xs)) {y = suc (a + b)} (omega arith) ∙ drop-drop a b xs

At-append :
    (bytes xs rest : List ℕ) (offset : ℕ)
    → At bytes offset (xs ++ rest)
    → At bytes (offset + length xs) rest
At-append bytes xs rest offset (le, e) = (
  omega (arith, le, ap (length {A = ℕ}) e, length-drop {_} offset bytes, length-append {_} xs rest),
  drop-drop offset (length xs) bytes ∙ (ap (drop (length xs)) e ∙ drop_all xs rest),
)

At-vint :
    (bytes rest : List ℕ) (offset : ℕ) (size : Bool) (n v : ℕ)
    → Fits n v
    → At bytes offset (encode_vint n v ++ rest)
    → vint bytes offset size ≡ some (read_value size n v, offset + (n + 1))
At-vint bytes rest offset size n v (lt, low) (le, e) =
    subst (λ (b : List ℕ). vint b offset size ≡ some (read_value size n v, offset + (n + 1)))
      (ap (λ (r : List ℕ). take offset bytes ++ r) (sym e) ∙ take-append-drop offset bytes)
      (subst
        (λ (k : ℕ).
          vint (take offset bytes ++ (encode_vint n v ++ rest)) k size
          ≡ some (read_value size n v, k + (n + 1)))
        (length-take offset bytes le) (vint-encode_vint (take offset bytes) rest size n v lt low))

At-next :
    (bytes rest : List ℕ) (offset n v : ℕ)
    → At bytes offset (encode_vint n v ++ rest)
    → At bytes (offset + (n + 1)) rest
At-next bytes rest offset n v here =
    subst (λ (k : ℕ). At bytes (offset + k) rest) (length-encode_vint n v)
      (At-append bytes (encode_vint n v) rest offset here)

At-slice :
    (bytes xs rest : List ℕ) (offset : ℕ)
    → At bytes offset (xs ++ rest)
    → slice bytes offset (offset + length xs) ≡ xs
At-slice bytes xs rest offset (le, e) =
    ap (λ (k : ℕ). take k (drop offset bytes)) (omega arith)
    ∙ (ap (take (length xs)) e ∙ take_all xs rest)

encode-append :
    (d : Element) (tail : List ℕ)
    → encode d ++ tail
      ≡ encode_vint d.id_width d.id
        ++ (encode_vint d.size_width (length d.payload) ++ (d.payload ++ tail))
encode-append d tail =
    append_assoc _ _ tail
    ∙ ap (λ (r : List ℕ). encode_vint d.id_width d.id ++ r) (append_assoc _ _ tail)

length-encode :
    (d : Element) → length (encode d) ≡ d.id_width + 1 + (d.size_width + 1 + length d.payload)
length-encode d = omega (
  arith,
  length-append {_} (encode_vint d.id_width d.id)
      (encode_vint d.size_width (length d.payload) ++ d.payload),
  length-append {_} (encode_vint d.size_width (length d.payload)) d.payload,
  length-encode_vint d.id_width d.id,
  length-encode_vint d.size_width (length d.payload),
)

module _ (bytes : List ℕ) (header_end : ℕ) where
  identified-encode :
      (next : ℕ → Search) (d : Element) (tail : List ℕ) (offset : ℕ)
      → IsElement d
      → At bytes offset (encode d ++ tail)
      → offset + length (encode d) ≤ header_end
      → identified bytes header_end next (vint bytes offset false) ≡ (
          if read_value false d.id_width d.id == 0x4282
          then answer (d.payload == webm)
          else next (offset + length (encode d)))
  identified-encode next d tail offset (id_fits, size_fits) (le, e) within =
      let at_size = At-next bytes _ offset d.id_width d.id (le, e ∙ encode-append d tail) in
      let at_payload =
        At-next bytes (d.payload ++ tail) (offset + (d.id_width + 1)) d.size_width
          (length d.payload) at_size in
      rw
        (
          At-vint bytes _ offset false d.id_width d.id id_fits (le, e ∙ encode-append d tail),
          At-vint bytes (d.payload ++ tail) (offset + (d.id_width + 1)) true d.size_width
              (length d.payload) size_fits at_size,
          At-slice bytes d.payload tail _ at_payload,
        )
        (ground (arith, length-encode d))

  elements-encode_all :
      (rest : List ℕ) (fuel : ℕ) (es : List Element) (offset : ℕ)
      → AreElements es
      → length es < fuel
      → offset + length (encode_all es) ≡ header_end
      → At bytes offset (encode_all es ++ rest)
      → elements fuel bytes header_end offset ≡ answer (is_webm es)
  unfolding elements
  elements-encode_all rest zero es offset well lt e at = absurd (omega (arith, lt))
  elements-encode_all rest (suc fuel) [] offset well lt e at = ground arith
  elements-encode_all rest (suc fuel) (d ∷ es) offset (d_well, well) lt e (le, here) =
      let here' : drop offset bytes ≡ encode d ++ (encode_all es ++ rest) =
        here ∙ append_assoc (encode d) (encode_all es) rest in
      let long = length-append {_} (encode d) (encode_all es) in
      ground (
        arith,
        length-encode d,
        identified-encode (elements fuel bytes header_end) d (encode_all es ++ rest) offset d_well
            (le, here') (omega (arith, long, e)),
        elements-encode_all rest fuel es (offset + length (encode d)) well (omega (arith, lt))
            (omega (arith, long, e))
            (At-append bytes (encode d) (encode_all es ++ rest) offset (le, here')),
      )

length-encode_all : (es : List Element) → length es ≤ length (encode_all es)
length-encode_all [] = omega arith
length-encode_all (d ∷ es) =
    omega
      (arith, length-encode_all es, length-encode d, length-append {_} (encode d) (encode_all es))

-- a file: its header, with the header's size in `n + 1` bytes, and what follows
abbrev pub build_header : ℕ → List Element → List ℕ
build_header n es = magic ++ (encode_vint n (length (encode_all es)) ++ encode_all es)

search_header-build_header :
    (n : ℕ) (es : List Element) (rest : List ℕ)
    → Fits n (length (encode_all es))
    → AreElements es
    → search_header (magic ++ (encode_vint n (length (encode_all es)) ++ (encode_all es ++ rest)))
      ≡ answer (is_webm es)
unfolding search_header
search_header-build_header n es rest fits well =
    let file : List ℕ =
      magic ++ (encode_vint n (length (encode_all es)) ++ (encode_all es ++ rest)) in
    let long = length-append {_} (encode_vint n (length (encode_all es))) (encode_all es ++ rest) in
    let long' = length-append {_} (encode_all es) rest in
    let at_size : At file 4 (encode_vint n (length (encode_all es)) ++ (encode_all es ++ rest)) =
      (omega arith, refl) in
    rw (At-vint file (encode_all es ++ rest) 4 true n (length (encode_all es)) fits at_size) (
      ground (
        arith,
        long,
        long',
        length-encode_vint n (length (encode_all es)),
        elements-encode_all file (4 + (n + 1) + length (encode_all es)) rest (length file + 1) es
            (4 + (n + 1)) well (omega (arith, long, long', length-encode_all es)) refl
            (At-next file (encode_all es ++ rest) 4 n (length (encode_all es)) at_size),
      ))

take-append :
    (n : ℕ) (xs ys : List ℕ) → length xs ≤ n → take n (xs ++ ys) ≡ xs ++ take (n - length xs) ys
take-append n [] ys le = ap (λ (k : ℕ). take k ys) {y = n - 0} (omega arith)
take-append zero (x ∷ xs) ys le = absurd (omega (arith, le))
take-append (suc n) (x ∷ xs) ys le =
    ap (λ (r : List ℕ). x ∷ r)
      (take-append n xs ys (omega (arith, le))
        ∙ ap (λ (k : ℕ). xs ++ take k ys) {y = suc n - suc (length xs)} (omega arith))

build_header-append :
    (n : ℕ) (es : List Element) (rest : List ℕ)
    → build_header n es ++ rest
      ≡ magic ++ (encode_vint n (length (encode_all es)) ++ (encode_all es ++ rest))
build_header-append n es rest =
    ap (λ (r : List ℕ). magic ++ r)
      (append_assoc (encode_vint n (length (encode_all es))) (encode_all es) rest)

-- A file that starts with a header of at most 4096 bytes, built from any elements, is taken for WebM
-- exactly if the first element with the ID of the document type has the payload `webm`; what
-- follows the header does not matter.
pub has_webm_doctype-build_header :
    (n : ℕ) (es : List Element) (rest : List ℕ)
    → Fits n (length (encode_all es))
    → AreElements es
    → length (build_header n es) ≤ 4096
    → has_webm_doctype (some (build_header n es ++ rest)) ≡ is_webm es
unfolding has_webm_doctype
has_webm_doctype-build_header n es rest fits well short =
    ap (λ (b : List ℕ). found (search_header b))
      (take-append 4096 (build_header n es) rest short ∙ build_header-append n es _)
    ∙ ap found (search_header-build_header n es _ fits well)
