-- ===== src/Uploads/Ebml/Headers.antt =====
-- The search of the EBML header: it ends, and what it answers on a header that is built from
-- elements.
use hack_ef3da0e3_aib2bsaass.Base.{
  ℕ, zero, suc, ◌+◌, ◌/◌, ◌≤◌, ◌<◌, ◌≡◌, ◌≢◌, refl, arith, Bool, true, false, Option, none, some,
  List, nat_eq, option_eq, list_eq, length, get_elem?,
}
use hack_ef3da0e3_aib2bsaass.Uploads.Ebml.{
  marker, vint, vint_of, vint_from, Search, stuck, element, identified, elements, header,
  search_header,
}

marker_width :
    (fuel first mask width m w : ℕ) → marker fuel first mask width ≡ some (m, w) → width ≤ w
unfolding marker
marker_width zero first mask width m w e = cc
marker_width (suc fuel) first mask width m w e =
    ground (arith, marker_width fuel first (mask / 2) (width + 1) m w)

vint_of_moves :
    (bytes : List ℕ) (offset : ℕ) (size : Bool) (first : ℕ) (o : Option (ℕ × ℕ)) (v next : ℕ)
    → ((m w : ℕ) → o ≡ some (m, w) → 1 ≤ w)
    → vint_of bytes offset size first o ≡ some (v, next)
    → offset < next
vint_of_moves bytes offset size first none v next wide e = cc
vint_of_moves bytes offset size first (some (m, w)) v next wide e = ground (arith, wide m w refl)

vint_moves :
    (bytes : List ℕ) (offset : ℕ) (size : Bool) (v next : ℕ)
    → vint bytes offset size ≡ some (v, next)
    → offset < next
unfolding vint
vint_moves bytes offset size v next e = from (get_elem? bytes offset) e
  where
    from : (o : Option ℕ) → vint_from bytes offset size o ≡ some (v, next) → offset < next
    from none e = cc
    from (some first) e =
        vint_of_moves bytes offset size first (marker 9 first 0x80 1) v next
          (marker_width 9 first 0x80 1) e

module _ (bytes : List ℕ) (header_end start : ℕ) (next : ℕ → Search)
    (ends : (c : ℕ) → c ≤ header_end → start < c → next c ≢ stuck) where
  element_stuck :
      (id after_id : ℕ) (o : Option (ℕ × ℕ))
      → start < after_id
      → ((v c : ℕ) → o ≡ some (v, c) → after_id < c)
      → element bytes header_end next id o ≢ stuck
  element_stuck id after_id none moved moves e = cc
  element_stuck id after_id (some (size, cursor)) moved moves e =
      ground (arith, moves size cursor refl, ends (cursor + size))

  identified_stuck :
      (o : Option (ℕ × ℕ))
      → ((v c : ℕ) → o ≡ some (v, c) → start < c)
      → identified bytes header_end next o ≢ stuck
  identified_stuck none moves e = cc
  identified_stuck (some (id, cursor)) moves e =
      element_stuck id cursor (vint bytes cursor true) (moves id cursor refl)
        (vint_moves bytes cursor true) e

elements_stuck :
    (fuel : ℕ) (bytes : List ℕ) (header_end cursor : ℕ)
    → cursor ≤ header_end
    → header_end < cursor + fuel
    → elements fuel bytes header_end cursor ≢ stuck
unfolding elements
elements_stuck zero bytes header_end cursor within h e = absurd (omega (arith, within, h))
elements_stuck (suc fuel) bytes header_end cursor within h e = ground (
  arith,
  identified_stuck bytes header_end cursor (elements fuel bytes header_end)
      (λ (c : ℕ) (le : c ≤ header_end) (lt : cursor < c).
        elements_stuck fuel bytes header_end c le (omega (arith, h, lt)))
      (vint bytes cursor false) (vint_moves bytes cursor false),
)

header_stuck : (bytes : List ℕ) (o : Option (ℕ × ℕ)) → header bytes o ≢ stuck
header_stuck bytes none e = cc
header_stuck bytes (some (size, cursor)) e =
    ground (arith, elements_stuck (length bytes + 1) bytes (cursor + size) cursor)

-- The search of the header ends for every file: there is no input on which the loop over the
-- elements runs on.
pub search_header-stuck : (bytes : List ℕ) → search_header bytes ≢ stuck
unfolding search_header
search_header-stuck bytes e = ground (arith, header_stuck bytes (vint bytes 4 true))
