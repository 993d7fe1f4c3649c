-- ===== src/Uploads/Ebml/Vint.antt =====
-- Variable-length integers: what is written is read back.
use Prim.Native.Nat.{bit_and}
use native.Mathlib.Nat.{div-lt_iff_lt-mul, div-add-mod, mod-lt}
use hack_ef3da0e3_aib2bsaass.Base.{
  ℕ, zero, suc, ◌+◌, ◌-◌, ◌*◌, ◌/◌, ◌%◌, ◌^◌, ◌≤◌, ◌<◌, ◌≡◌, refl, ap, ◌∙◌, arith, Bool, true,
  false, ◌&&◌, Option, none, some, List, [], ◌∷◌, ◌++◌, nat_beq, nat_beq_iff, nat_eq, option_eq,
  length, length-append, take, drop, slice, all_below, all_below_lem, take_all, get_elem?-middle,
}
use hack_ef3da0e3_aib2bsaass.Uploads.Ebml.{marker, big_endian, vint, vint_from, start_value}

-- the lower bytes of a number, the highest first
unfoldable pub low_bytes : ℕ → ℕ → List ℕ
low_bytes zero v = []
low_bytes (suc n) v = low_bytes n (v / 256) ++ v % 256 ∷ []

-- the first byte has its marker bit at position 8 - width
abbrev pub mark : ℕ → ℕ
mark width = 2 ^ (8 - width)

-- the integer `v` in `n + 1` bytes
unfoldable pub encode_vint : ℕ → ℕ → List ℕ
encode_vint n v = (mark (n + 1) + v / 256 ^ n) ∷ low_bytes n (v % 256 ^ n)

length-low_bytes : (n v : ℕ) → length (low_bytes n v) ≡ n
unfolding low_bytes
length-low_bytes zero v = refl
length-low_bytes (suc n) v =
    length-append {_} (low_bytes n (v / 256)) (v % 256 ∷ [])
    ∙ omega (arith, length-low_bytes n (v / 256))

big_endian-append :
    (xs ys : List ℕ) (v : ℕ) → big_endian v (xs ++ ys) ≡ big_endian (big_endian v xs) ys
big_endian-append [] ys v = refl
big_endian-append (x ∷ xs) ys v = big_endian-append xs ys (v * 256 + x)

pow-suc_bytes : (n : ℕ) → 256 ^ suc n ≡ 256 ^ n * 256
pow-suc_bytes n = omega arith

big_endian-low_bytes :
    (n v acc : ℕ) → v < 256 ^ n → big_endian acc (low_bytes n v) ≡ acc * 256 ^ n + v
unfolding low_bytes
big_endian-low_bytes zero v acc h = omega (arith, h)
big_endian-low_bytes (suc n) v acc h =
    big_endian-append (low_bytes n (v / 256)) (v % 256 ∷ []) acc
    ∙ omega (
      arith,
      big_endian-low_bytes n (v / 256) acc (omega (arith, h, pow-suc_bytes n)),
      pow-suc_bytes n,
      ap (λ (t : ℕ). acc * t) (pow-suc_bytes n),
    )

-- what the loop finds at a first byte, for each width and each value of its low bits
is_marked : ℕ → ℕ → Option (ℕ × ℕ) → Bool
is_marked w h none = false
is_marked w h (some (mask, width)) = nat_beq mask (mark w) && nat_beq width w

abbrev is_low : ℕ → ℕ → Bool
is_low w h =
    is_marked w h (marker 9 (mark w + h) 0x80 1) && nat_beq (bit_and (mark w + h) (mark w - 1)) h

marks_table : all_below 8 (λ n. all_below (mark (n + 1)) (is_low (n + 1))) ≡ true
unfolding all_below marker is_marked
marks_table = refl

marks : (n h : ℕ) → n < 8 → h < mark (n + 1) → is_low (n + 1) h ≡ true
marks n h lt low =
    all_below_lem (mark (n + 1)) (is_low (n + 1)) h
      (all_below_lem 8 (λ n. all_below (mark (n + 1)) (is_low (n + 1))) n marks_table lt) low

is_marked_lem : (w h : ℕ) (o : Option (ℕ × ℕ)) → is_marked w h o ≡ true → o ≡ some (mark w, w)
unfolding is_marked
is_marked_lem w h none e = cc
is_marked_lem w h (some (mask, width)) e =
    ground (arith, nat_beq_iff mask (mark w), nat_beq_iff width w)

marker-mark :
    (n h : ℕ)
    → n < 8
    → h < mark (n + 1)
    → marker 9 (mark (n + 1) + h) 0x80 1 ≡ some (mark (n + 1), n + 1)
marker-mark n h lt low =
    is_marked_lem (n + 1) h (marker 9 (mark (n + 1) + h) 0x80 1) (ground (arith, marks n h lt low))

bit_and-mark :
    (n h : ℕ) → n < 8 → h < mark (n + 1) → bit_and (mark (n + 1) + h) (mark (n + 1) - 1) ≡ h
bit_and-mark n h lt low =
    ground (arith, marks n h lt low, nat_beq_iff (bit_and (mark (n + 1) + h) (mark (n + 1) - 1)) h)

-- the bytes behind the first
drop-middle : (xs : List ℕ) (y : ℕ) (ys : List ℕ) → drop (length xs + 1) (xs ++ y ∷ ys) ≡ ys
drop-middle [] y ys = refl
drop-middle (x ∷ xs) y ys = ground (arith, drop-middle xs y ys)

slice-middle :
    (xs : List ℕ) (y : ℕ) (ys zs : List ℕ) (n : ℕ)
    → length ys ≡ n
    → slice (xs ++ (y ∷ ys ++ zs)) (length xs + 1) (length xs + (n + 1)) ≡ ys
slice-middle xs y ys zs n e =
    ap (take _) (drop-middle xs y (ys ++ zs))
    ∙ (ap (λ (k : ℕ). take k (ys ++ zs)) (omega (arith, e)) ∙ take_all ys zs)

-- the value that is read, by the flag `size`: the marker bit counts in an element's ID alone
abbrev pub read_value : Bool → ℕ → ℕ → ℕ
read_value true n v = v
read_value false n v = mark (n + 1) * 256 ^ n + v

start_value-mark :
    (size : Bool) (n v : ℕ)
    → n < 8
    → v / 256 ^ n < mark (n + 1)
    → start_value size (mark (n + 1) + v / 256 ^ n) (mark (n + 1)) * 256 ^ n + v % 256 ^ n
      ≡ read_value size n v
start_value-mark true n v lt low = omega (
  arith,
  ap (λ (t : ℕ). t * 256 ^ n) (bit_and-mark n (v / 256 ^ n) lt low),
  div-add-mod v (256 ^ n),
)
start_value-mark false n v lt low = omega (arith, div-add-mod v (256 ^ n))

positive : (n : ℕ) → 0 < 256 ^ n
positive zero = omega arith
positive (suc n) = omega (arith, positive n, pow-suc_bytes n)

vint_from-mark :
    (bytes : List ℕ) (offset : ℕ) (size : Bool) (n v : ℕ)
    → n < 8
    → v < mark (n + 1) * 256 ^ n
    → slice bytes (offset + 1) (offset + (n + 1)) ≡ low_bytes n (v % 256 ^ n)
    → offset + (n + 1) ≤ length bytes
    → vint_from bytes offset size (some (mark (n + 1) + v / 256 ^ n))
      ≡ some (read_value size n v, offset + (n + 1))
vint_from-mark bytes offset size n v lt h lows_here fits =
    let low = (div-lt_iff_lt-mul {x = v} {y = mark (n + 1)} (positive n)).1 h in
    rw
      (
        marker-mark n (v / 256 ^ n) lt low,
        lows_here,
        big_endian-low_bytes n (v % 256 ^ n)
            (start_value size (mark (n + 1) + v / 256 ^ n) (mark (n + 1))) (mod-lt v (positive n)),
        start_value-mark size n v lt low,
      )
      (ground (arith, fits, lt))

-- An integer of up to eight bytes is read back from the bytes that encode it, wherever they stand in
-- the file: as the value for a size, and with the marker bit for an element's ID; the offset moves
-- behind its bytes.
pub vint-encode_vint :
    (front rest : List ℕ) (size : Bool) (n v : ℕ)
    → n < 8
    → v < mark (n + 1) * 256 ^ n
    → vint (front ++ (encode_vint n v ++ rest)) (length front) size
      ≡ some (read_value size n v, length front + (n + 1))
unfolding vint encode_vint
vint-encode_vint front rest size n v lt h =
    ap (vint_from _ _ _)
      (get_elem?-middle front (mark (n + 1) + v / 256 ^ n) (low_bytes n (v % 256 ^ n) ++ rest))
    ∙ vint_from-mark (front ++ (encode_vint n v ++ rest)) (length front) size n v lt h
        (slice-middle front _ (low_bytes n (v % 256 ^ n)) rest n (length-low_bytes n (v % 256 ^ n)))
        (omega (
          arith,
          length-append {_} front (encode_vint n v ++ rest),
          length-append {_} (low_bytes n (v % 256 ^ n)) rest,
          length-low_bytes n (v % 256 ^ n),
        ))

pub length-encode_vint : (n v : ℕ) → length (encode_vint n v) ≡ n + 1
unfolding encode_vint
length-encode_vint n v = omega (arith, length-low_bytes n (v % 256 ^ n))
