-- ===== src/Store/Files/Laws.antt =====
-- What the file operations do to the folder, whatever the system answers.
use hack_ef3da0e3_aib2bsaass.Base.{
  ◌+◌, ◌≡◌, refl, sym, subst, Bool, true, false, ◌&&◌, Option, none, some, List, arith, is_some,
}
use hack_ef3da0e3_aib2bsaass.Base.Exec.{pure, raise, gets, modify, skip, ◌>>=◌}
use hack_ef3da0e3_aib2bsaass.Base.Exec.Hoare.{
  Hoare, Keeps, Post, Hoare-bind, Hoare-if, Hoare-weaken, Hoare-strengthen, Hoare-raise, Hoare-gets,
  Hoare-finally, Keeps-raise, Keeps-pure,
}
use hack_ef3da0e3_aib2bsaass.Store.World.{
  Env, World, Choice, done, refused, half, unsafe, Raised, file_not_found, artifact_integrity, Name,
  Files, Sent, write,
}
use hack_ef3da0e3_aib2bsaass.Store.Files.{
  choose, obey, perform_by, touch, sync, synced, perform, exists, read_file, require_same, link,
  write_new, atomic_write, or_raise,
}

module _ ⦃env : Env⦄ where
  -- a property of the folder and of what has been sent
  abbrev pub View : Type 1
  View = Files → List Sent → Type 0

  abbrev pub On : View → World → Type 0
  On I w = I w.files w.sent

  pub obeyed : (c : Choice) (I : World → Type 0) → Keeps I (obey c)
  unfolding skip raise
  obeyed done I = record { at = λ w h. h }
  obeyed refused I = record { at = λ w h. h }
  obeyed half I = record { at = λ w h. h }
  obeyed unsafe I = record { at = λ w h. h }

  module _ (I : View) where
    -- No call that only reads changes the folder.
    pub touch-Keeps : Keeps (On I) touch
    unfolding touch
    touch-Keeps =
        Hoare-bind choose obey (unfold choose in record { at = λ w h. h }) (λ c. obeyed c (On I))

  pub synced-Keeps : (c : Choice) (I : World → Type 0) → Keeps I (synced c)
  unfolding skip raise
  synced-Keeps done I = record { at = λ w h. h }
  synced-Keeps refused I = record { at = λ w h. h }
  synced-Keeps half I = record { at = λ w h. h }
  synced-Keeps unsafe I = record { at = λ w h. h }

  pub sync-Keeps : (I : View) → Keeps (On I) sync
  unfolding sync
  sync-Keeps I =
      Hoare-bind choose synced (unfold choose in record { at = λ w h. h })
        (λ c. synced-Keeps c (On I))

  module _ (I J K : View) where
    pub sync-Hoare :
        ((f : Files) (s : List Sent) → I f s → J f s)
        → ((f : Files) (s : List Sent) → I f s → K f s)
        → Hoare (On I) sync (λ u. On J) (λ e. On K)
    sync-Hoare toJ toK =
        Hoare-weaken sync (sync-Keeps I) (λ u w h. toJ w.files w.sent h)
          (λ e w h. toK w.files w.sent h)

    pub touch-Hoare :
        ((f : Files) (s : List Sent) → I f s → J f s)
        → ((f : Files) (s : List Sent) → I f s → K f s)
        → Hoare (On I) touch (λ u. On J) (λ e. On K)
    touch-Hoare toJ toK =
        Hoare-weaken touch (touch-Keeps I) (λ u w h. toJ w.files w.sent h)
          (λ e w h. toK w.files w.sent h)

    performed :
        (g : Files → Files) (c : Choice) (w : World)
        → J (g w.files) w.sent
        → K w.files w.sent
        → K (g w.files) w.sent
        → Post (λ u. On J) (λ e. On K) (perform_by (λ v. record v { files = g v.files }) c w)
    unfolding ◌>>=◌ modify raise
    performed g done w j k k' = j
    performed g refused w j k k' = k
    performed g half w j k k' = k'
    performed g unsafe w j k k' = k

    -- A call that changes the folder: done, not done, or done and then failed.
    pub perform-Hoare :
        (g : Files → Files)
        → ((f : Files) (s : List Sent) → I f s → J (g f) s)
        → ((f : Files) (s : List Sent) → I f s → K f s)
        → ((f : Files) (s : List Sent) → J f s → K f s)
        → Hoare (On I) (perform g) (λ u. On J) (λ e. On K)
    unfolding perform choose ◌>>=◌
    perform-Hoare g effect before after = record {
      at = λ w h.
          let j = effect w.files w.sent h in
          performed g (w.os w.steps) (record w { steps = w.steps + 1 }) j (before w.files w.sent h)
            (after (g w.files) w.sent j);
    }

  module _ (I : View) (n : Name) where
    pub exists-Hoare :
        Hoare (On I) (exists n) (λ b. On (λ f s. I f s × (is_some (f n) ≡ b))) (λ e. On I)
    unfolding exists gets
    exists-Hoare = record { at = λ w h. (h, refl) }

    found :
        (o : Option env.Bytes)
        → Hoare
            (On (λ f s. I f s × (o ≡ f n)))
            (or_raise file_not_found o)
            (λ b. On (λ f s. I f s × (f n ≡ some b)))
            (λ e. On I)
    unfolding raise pure
    found none = record { at = λ w h. h.0 }
    found (some b) = record { at = λ w h. (h.0, sym h.1) }

    -- What is read is what the file holds.
    pub read_file-Hoare :
        Hoare (On I) (read_file n) (λ b. On (λ f s. I f s × (f n ≡ some b))) (λ e. On I)
    unfolding read_file
    read_file-Hoare = Hoare-bind touch _ (touch-Keeps I) λ _.
        Hoare-bind touch _ (touch-Keeps I) λ _.
          Hoare-bind (gets (λ w. w.files n)) (or_raise file_not_found)
            (Hoare-gets (λ w. w.files n) (λ w h. (h, refl))) found

    pub require_same-Hoare :
        (d : env.Bytes)
        → Hoare (On I) (require_same n d) (λ u. On (λ f s. I f s × (f n ≡ some d))) (λ e. On I)
    unfolding require_same
    require_same-Hoare d = Hoare-bind (read_file n) _ read_file-Hoare λ old.
        Hoare-if (env.bytes_eq.beq old d) skip (raise artifact_integrity)
          (λ same.
            unfold skip in
            record {
              at = λ w h.
                  (h.0, subst (λ z. w.files n ≡ some z) ((env.bytes_eq.beq_iff old d).0 same) h.1);
            })
          (λ other. Hoare-raise artifact_integrity (λ w h. h.0))

  module _ (I J K : View) (n : Name) (d : env.Bytes) (immutable : Bool)
      (written : (f : Files) (s : List Sent)
        → I f s
        → (immutable ≡ true → f n ≡ none)
        → J (write n d f) s)
      (same : (f : Files) (s : List Sent) → I f s → f n ≡ some d → J f s)
      (before : (f : Files) (s : List Sent) → I f s → K f s)
      (after : (f : Files) (s : List Sent) → J f s → K f s) where
    abbrev Fresh : View
    Fresh f s = I f s × (immutable ≡ true → f n ≡ none)

    link-Hoare : immutable ≡ true → Hoare (On Fresh) (link n d) (λ u. On J) (λ e. On K)
    unfolding link
    link-Hoare i =
        Hoare-bind (exists n) _
          (Hoare-weaken (exists n) (exists-Hoare Fresh n) (λ b w h. h)
            (λ e w h. before w.files w.sent h.0))
          λ present.
            Hoare-if present _ _
              (λ yes_.
                Hoare-bind (require_same n d) _
                  (Hoare-weaken (require_same n d)
                    (Hoare-strengthen (require_same n d) (λ w h. h.0.0) (require_same-Hoare I n d))
                    (λ u w h. same w.files w.sent h.0 h.1) (λ e w h. before w.files w.sent h))
                  λ _. touch-Hoare J J K (λ f s h. h) after)
              (λ no_.
                Hoare-strengthen (perform (write n d)) (λ w h. h.0)
                  (perform-Hoare Fresh J K (write n d) (λ f s h. written f s h.0 h.1)
                    (λ f s h. before f s h.0) after))

    write_new-Hoare : Hoare (On Fresh) (write_new n d immutable) (λ u. On J) (λ e. On K)
    unfolding write_new
    write_new-Hoare =
        let through = sync-Hoare Fresh Fresh K (λ f s h. h) (λ f s h. before f s h.0) in
        let pass = touch-Hoare Fresh Fresh K (λ f s h. h) (λ f s h. before f s h.0) in
        Hoare-bind sync _ through λ _.
          Hoare-finally _ sync
            (Hoare-bind sync _ through λ _. Hoare-bind touch _ pass λ _.
              Hoare-bind _ _
                (Hoare-if immutable (link n d) (perform (write n d)) link-Hoare (λ mutable.
                  perform-Hoare Fresh J K (write n d) (λ f s h. written f s h.0 h.1)
                    (λ f s h. before f s h.0) after))
                λ _. sync-Hoare J J K (λ f s h. h) after)
            (λ _. sync-Hoare J J K (λ f s h. h) after) (sync-Keeps K)

    -- An atomic write ends with the new bytes in the file, or with the same bytes found there; if
    -- it fails, the file is as before or as after.
    pub atomic_write-Hoare : Hoare (On I) (atomic_write n d immutable) (λ u. On J) (λ e. On K)
    unfolding atomic_write
    atomic_write-Hoare = Hoare-bind touch _ (touch-Hoare I I K (λ f s h. h) before) λ _.
        Hoare-bind (exists n) _
          (Hoare-weaken (exists n) (exists-Hoare I n) (λ b w h. h)
            (λ e w h. before w.files w.sent h))
          λ present.
            Hoare-if (immutable && present) _ _
              (λ yes_.
                Hoare-bind (require_same n d) _
                  (Hoare-weaken (require_same n d)
                    (Hoare-strengthen (require_same n d) (λ w h. h.0) (require_same-Hoare I n d))
                    (λ u w h. same w.files w.sent h.0 h.1) (λ e w h. before w.files w.sent h))
                  λ _.
                    Hoare-bind touch _ (touch-Hoare J J K (λ f s h. h) after)
                      λ _. sync-Hoare J J K (λ f s h. h) after)
              (λ no_.
                Hoare-strengthen (write_new n d immutable) (λ w h. (h.0, absent present w no_ h.1))
                  write_new-Hoare)
      where
        absent :
            (present : Bool) (w : World)
            → (immutable && present) ≡ false
            → is_some (w.files n) ≡ present
            → immutable ≡ true
            → w.files n ≡ none
        absent present w no_ e i = ground arith

  pub Keeps-or_raise :
      {A : Type 0} (I : World → Type 0) (e : Raised) (o : Option A) → Keeps I (or_raise e o)
  Keeps-or_raise I e none = Keeps-raise e
  Keeps-or_raise I e (some a) = Keeps-pure a

  pub read_file-Keeps : (I : View) (n : Name) → Keeps (On I) (read_file n)
  read_file-Keeps I n = Hoare-weaken (read_file n) (read_file-Hoare I n) (λ b w h. h.0) (λ e w h. h)

  pub exists-Keeps : (I : View) (n : Name) → Keeps (On I) (exists n)
  exists-Keeps I n = Hoare-weaken (exists n) (exists-Hoare I n) (λ b w h. h.0) (λ e w h. h)

  pub perform-Keeps :
      (I : View) (g : Files → Files)
      → ((f : Files) (s : List Sent) → I f s → I (g f) s)
      → Keeps (On I) (perform g)
  perform-Keeps I g h = perform-Hoare I I I g h (λ f s p. p) (λ f s p. p)
