-- ===== src/Routes/Decoding.antt =====
-- The cursors of the listing.
use hack_ef3da0e3_aib2bsaass.Base.{
  ℕ, ◌≤◌, ◌≡◌, ◌↔◌, refl, sym, subst, arith, inl, inr, Option, none, some, List, [], ◌∷◌,
  Bool-cases, Option-cases, length, list_beq_iff, list_eq, nat_eq, ◌==◌, ok,
}
use hack_ef3da0e3_aib2bsaass.Model.Text.{Text}
use hack_ef3da0e3_aib2bsaass.Routes.{
  Key, Cursors, string, Loaded, array, padded, strip_padding, encode_cursor, read_cursor,
  with_identifier, stamped, two_texts, loaded, unpacked, decode_cursor,
}

-- What a cursor rests on: the libraries read back what they wrote, and `str(UUID(s))` is canonical.
pub record IsLibrary (cursors : Cursors) : Type 0 where
  pub base64_back :
      (b : List ℕ)
      → cursors.decode_base64 (padded (strip_padding (cursors.encode_base64 b))) ≡ some b
  pub json_back :
      (a b : Text) → cursors.load (cursors.dump a b) ≡ some (array (string a ∷ string b ∷ []))
  pub iso_back : (t : ℕ) → cursors.fromisoformat (cursors.isoformat t) ≡ some (t, some 0)
  pub uuid_again : (x s : Text) → cursors.uuid x ≡ some s → cursors.uuid s ≡ some s

-- The ID of a meeting is canonical, and its cursor is short.
pub record IsCursor (cursors : Cursors) (k : Key) : Type 0 where
  pub canonical : cursors.uuid k.identifier ≡ some k.identifier
  pub short : length (encode_cursor cursors k) ≤ 256

module _ (cursors : Cursors) (library : IsLibrary cursors) where
  read_cursor-encode_cursor :
      (k : Key)
      → cursors.uuid k.identifier ≡ some k.identifier
      → read_cursor cursors (encode_cursor cursors k) ≡ some k
  unfolding read_cursor encode_cursor
  read_cursor-encode_cursor k canonical =
      rw
        (
          library.base64_back (cursors.dump (cursors.isoformat k.created_at) k.identifier),
          library.json_back (cursors.isoformat k.created_at) k.identifier,
          library.iso_back k.created_at,
          canonical,
        )
        refl

  with_identifier-canonical :
      (t : ℕ) (x : Text) (k : Key)
      → with_identifier cursors t (cursors.uuid x) ≡ some k
      → cursors.uuid k.identifier ≡ some k.identifier
  with_identifier-canonical t x k h = elim (Option-cases (cursors.uuid x)) [
    | inl missing ↦ cc (h, missing)
    | inr (id, found) ↦
        let same : record { created_at = t; identifier = id } ≡ k = cc (found, h) in
        subst (λ (z : Key). cursors.uuid z.identifier ≡ some z.identifier) same
          (library.uuid_again x id found)
  ]

  stamped-canonical :
      (x : Text) (o : Option (ℕ × Option ℕ)) (k : Key)
      → stamped cursors x o ≡ some k
      → cursors.uuid k.identifier ≡ some k.identifier
  stamped-canonical x none k h = cc (h)
  stamped-canonical x (some (t, none)) k h = cc (h)
  stamped-canonical x (some (t, some offset)) k h = elim (Bool-cases (offset == 0)) [
    | inl zero_offset ↦ with_identifier-canonical t x k (ground (arith, zero_offset, h))
    | inr other_offset ↦ ground (arith, other_offset, h)
  ]

  two_texts-canonical :
      (v : Loaded) (k : Key)
      → two_texts cursors v ≡ some k
      → cursors.uuid k.identifier ≡ some k.identifier
  two_texts-canonical (array (string a ∷ string b ∷ [])) k h =
      stamped-canonical b (cursors.fromisoformat a) k h
  two_texts-canonical v k h = cc (h)

  loaded-canonical :
      (o : Option Loaded) (k : Key)
      → loaded cursors o ≡ some k
      → cursors.uuid k.identifier ≡ some k.identifier
  loaded-canonical none k h = cc (h)
  loaded-canonical (some v) k h = two_texts-canonical v k h

  unpacked-canonical :
      (o : Option (List ℕ)) (k : Key)
      → unpacked cursors o ≡ some k
      → cursors.uuid k.identifier ≡ some k.identifier
  unpacked-canonical none k h = cc (h)
  unpacked-canonical (some b) k h = loaded-canonical (cursors.load b) k h

  read_cursor-canonical :
      (raw : Text) (k : Key)
      → read_cursor cursors raw ≡ some k
      → cursors.uuid k.identifier ≡ some k.identifier
  unfolding read_cursor
  read_cursor-canonical raw k h = unpacked-canonical (cursors.decode_base64 (padded raw)) k h

  -- A text is accepted as a cursor to the meeting exactly if it is the cursor that is made for the
  -- meeting, letter by letter, and has at most 256 characters, and the ID is a canonical UUID. The
  -- libraries read back what they wrote, and the text of a UUID is canonical.
  pub decode_cursor_lem :
      (k : Key) (raw : Text)
      → (decode_cursor cursors raw ≡ ok k) ↔ (
          (encode_cursor cursors k ≡ raw)
          × (length raw ≤ 256)
          × (cursors.uuid k.identifier ≡ some k.identifier))
  unfolding decode_cursor
  decode_cursor_lem k raw = (
    λ h. elim (Option-cases (read_cursor cursors raw)) [
      | inl missing ↦ ground (arith, missing, h)
      | inr (a, found) ↦ ground (
        arith,
        found,
        h,
        read_cursor-canonical raw a found,
        (list_beq_iff (encode_cursor cursors a) raw).0,
      )
    ],
    λ h.
        subst (λ r. decode_cursor cursors r ≡ ok k) h.0
          (ground (
            arith,
            read_cursor-encode_cursor k h.2,
            short h,
            (list_beq_iff (encode_cursor cursors k) (encode_cursor cursors k)).1,
          )),
  )
    where
      short :
          (encode_cursor cursors k ≡ raw)
            × (length raw ≤ 256)
            × (cursors.uuid k.identifier ≡ some k.identifier)
          → length (encode_cursor cursors k) ≤ 256
      short h = subst (λ (z : Text). length z ≤ 256) (sym h.0) h.1
