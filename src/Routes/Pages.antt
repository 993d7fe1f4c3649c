-- ===== src/Routes/Pages.antt =====
-- The pages of a listing: following the cursors gives every meeting once, in order.
use hack_ef3da0e3_aib2bsaass.Base.{
  ℕ, zero, suc, ◌≤◌, ◌<◌, ◌≡◌, ◌≢◌, refl, ap, sym, subst, ◌∙◌, arith, inl, inr, true, Option, none,
  some, List, [], ◌∷◌, ◌++◌, ltb, Bool-cases, Option-cases, if◌then◌else◌, take, drop, length,
  length-drop, take-append-drop, IsIn, All, All-IsIn, list_eq, nat_eq, Result, ok, err,
}
use hack_ef3da0e3_aib2bsaass.Model.Text.{Text}
use hack_ef3da0e3_aib2bsaass.Routes.{
  Key, key_lt, last, Cursors, encode_cursor, MeetingPage, ApiError, parse_limit, page_of, before,
  boundary_of, some_key, list_meetings,
}
use hack_ef3da0e3_aib2bsaass.Routes.Decoding.{IsLibrary, IsCursor, decode_cursor_lem}
use hack_ef3da0e3_aib2bsaass.Routes.Order.{
  All-below, Descending, below, Descending-below, below-last-take, below-below, IsIn-last-take,
}

-- An accepted limit is between 1 and 100.
parse_limit_lem : (s : Text) (n : ℕ) → parse_limit s ≡ ok n → (1 ≤ n) × (n ≤ 100)
unfolding parse_limit
parse_limit_lem s n h = ground arith

take_long : (n : ℕ) (xs : List Key) → length xs ≤ length (take n xs) → take n xs ≡ xs
take_long zero [] h = refl
take_long zero (x ∷ xs) h = absurd (omega (arith, h))
take_long (suc n) [] h = refl
take_long (suc n) (x ∷ xs) h = ap (λ (r : List Key). x ∷ r) (take_long n xs (omega (arith, h)))

last-take-none : (n : ℕ) (x : Key) (xs : List Key) → last (take (suc n) (x ∷ xs)) ≢ none
last-take-none zero x xs e = cc
last-take-none (suc n) x [] e = cc
last-take-none (suc n) x (y ∷ ys) e = last-take-none n y ys e

length-drop_less : (n : ℕ) (xs : List Key) → 0 < n → 0 < length xs → length (drop n xs) < length xs
length-drop_less n xs h k = omega (arith, h, k, length-drop {_} n xs)

IsIn-below : (k b : Key) (xs : List Key) → IsIn k (below b xs) → key_lt k b ≡ true
IsIn-below k b [] m = absurd m
IsIn-below k b (x ∷ xs) m = elim (Bool-cases (key_lt x b)) [
  | inl lower ↦ elim (subst (λ t. IsIn k (if t then x ∷ below b xs else below b xs)) lower m) [
    | inl same ↦ rw same lower
    | inr later ↦ IsIn-below k b xs later
  ]
  | inr higher ↦
      IsIn-below k b xs (subst (λ t. IsIn k (if t then x ∷ below b xs else below b xs)) higher m)
]

-- the pages from a cursor on, one after the other, as long as there is a next cursor; `none` where
-- the listing raises, or where `fuel` pages are not enough
abbrev pub joined : List Key → Option (List Key) → Option (List Key)
joined xs none = none
joined xs (some ys) = some (xs ++ ys)

abbrev pub followed : (Text → Option (List Key)) → Result ApiError MeetingPage → Option (List Key)
followed go (err e) = none
followed go (ok page) = elim page.next_cursor [
  | none ↦ some page.items
  | some cursor ↦ joined page.items (go cursor)
]

unfoldable pub walk : ℕ → Cursors → Text → List Key → Option Text → Option (List Key)
walk zero cursors limit stored cursor = none
walk (suc fuel) cursors limit stored cursor =
    followed (λ c. walk fuel cursors limit stored (some c))
      (list_meetings cursors limit cursor (some stored))

-- what comes after a key of the rest, in the rest and in the whole
below-before :
    (cursors : Cursors) (k : Key) (boundary : Option Key) (stored : List Key)
    → IsIn k (before cursors boundary stored)
    → below k (before cursors boundary stored) ≡ below k stored
below-before cursors k none stored m = refl
below-before cursors k (some b) stored m = below-below k b stored (IsIn-below k b stored m)

All-before :
    (cursors : Cursors) (boundary : Option Key) (stored : List Key)
    → All (IsCursor cursors) stored
    → All (IsCursor cursors) (before cursors boundary stored)
All-before cursors none stored h = h
All-before cursors (some b) stored h = All-below (IsCursor cursors) b stored h

Descending-before :
    (cursors : Cursors) (boundary : Option Key) (stored : List Key)
    → Descending stored
    → Descending (before cursors boundary stored)
Descending-before cursors none stored d = d
Descending-before cursors (some b) stored d = Descending-below b stored d

has_last : (n : ℕ) (xs : List Key) → 0 < n → 0 < length xs → last (take n xs) ≢ none
has_last zero xs h k e = absurd (omega (arith, h))
has_last (suc n) [] h k e = absurd (omega (arith, k))
has_last (suc n) (x ∷ xs) h k e = last-take-none n x xs e

-- a page and what follows it, where the next cursor gives the rest
followed-page_of :
    (cursors : Cursors) (n : ℕ) (ys : List Key) (go : Text → Option (List Key))
    → 0 < n
    → ((k : Key)
        → IsIn k ys
        → last (take n ys) ≡ some k
        → 0 < length ys
        → go (encode_cursor cursors k) ≡ some (drop n ys))
    → followed go (ok (page_of cursors n ys)) ≡ some ys
unfolding page_of
followed-page_of cursors n ys go pos rest =
    elim (Bool-cases (ltb (length (take n ys)) (length ys))) [
      | inr over ↦ rw over (ap (λ (r : List Key). some r) (take_long n ys (ground (arith, over))))
      | inl more ↦
          let some_left : 0 < length ys = ground (arith, more) in
          elim (Option-cases (last (take n ys))) [
            | inl missing ↦ absurd (has_last n ys pos some_left missing)
            | inr (k, found) ↦
                rw (more, found, rest k (IsIn-last-take n ys k found) found some_left)
                  (ap (λ (r : List Key). some r) (take-append-drop n ys))
          ]
    ]

module _ (cursors : Cursors) (library : IsLibrary cursors) (stored : List Key)
    (good : All (IsCursor cursors) stored) (limit : Text) (n : ℕ)
    (parsed : parse_limit limit ≡ ok n) (d : Descending stored) where
  list_meetings_lem :
      (cursor : Option Text) (boundary : Option Key)
      → boundary_of cursors cursor ≡ ok boundary
      → list_meetings cursors limit cursor (some stored)
        ≡ ok (page_of cursors n (before cursors boundary stored))
  unfolding list_meetings
  list_meetings_lem cursor boundary e = rw (parsed, e) refl

  walk-before :
      (fuel : ℕ) (cursor : Option Text) (boundary : Option Key)
      → boundary_of cursors cursor ≡ ok boundary
      → length (before cursors boundary stored) < fuel
      → walk fuel cursors limit stored cursor ≡ some (before cursors boundary stored)
  unfolding walk
  walk-before zero cursor boundary e lt = absurd (omega (arith, lt))
  walk-before (suc fuel) cursor boundary e lt =
      let ys : List Key = before cursors boundary stored in
      rw (list_meetings_lem cursor boundary e) (
        followed-page_of cursors n ys (λ c. walk fuel cursors limit stored (some c))
          (parse_limit_lem limit n parsed).0
          (λ k m l some_left.
            let rest : below k stored ≡ drop n ys =
              sym (below-before cursors k boundary stored m)
              ∙ below-last-take n ys k (Descending-before cursors boundary stored d) l in
            let fewer : length (below k stored) < fuel = omega (
              arith,
              ap (length {A = Key}) rest,
              length-drop_less n ys (parse_limit_lem limit n parsed).0 some_left,
              lt,
            ) in
            walk-before fuel (some (encode_cursor cursors k)) (some k)
              (ap (some_key cursors) (
                let fine =
                  All-IsIn (IsCursor cursors) k _ (All-before cursors boundary stored good) m in
                (decode_cursor_lem cursors library k (encode_cursor cursors k)).1
                  (refl, fine.short, fine.canonical)))
              fewer
            ∙ ap (λ (r : List Key). some r) rest))

-- Where the IDs of the meetings are canonical and their cursors short, the listing descends, and the
-- libraries read back what they wrote: following the next cursors from the first page on, with a limit that is accepted, gives every meeting exactly once and in order, without an
-- error; as many pages as there are meetings, and one more, are enough.
pub walk_lem :
    (cursors : Cursors) (limit : Text) (n : ℕ) (stored : List Key) (fuel : ℕ)
    → IsLibrary cursors
    → All (IsCursor cursors) stored
    → parse_limit limit ≡ ok n
    → Descending stored
    → length stored < fuel
    → walk fuel cursors limit stored none ≡ some stored
walk_lem cursors limit n stored fuel library good parsed d lt =
    walk-before cursors library stored good limit n parsed d fuel none none refl lt
