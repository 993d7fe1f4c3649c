-- ===== src/Uploads/Staging/Extraction.antt =====
-- What `_extract_first_audio` leaves: its target where it returns, and nothing of its own where it
-- raises `UploadError`.
use hack_ef3da0e3_aib2bsaass.Base.{
  ℕ, ◌+◌, ◌≤◌, ◌≡◌, refl, sym, ◌∙◌, subst, arith, true, Option, none, some, List, ◌∷◌, ok,
}
use hack_ef3da0e3_aib2bsaass.Base.Exec.{raise, gets, modify, ◌>>=◌, ◌>>◌}
use hack_ef3da0e3_aib2bsaass.Base.Exec.Hoare.{
  Hoare, Hoare-bind, Hoare-pure, Hoare-raise, Hoare-gets, Hoare-catch, Hoare-weaken,
}
use hack_ef3da0e3_aib2bsaass.Model.Meeting.{AudioExtension}
use hack_ef3da0e3_aib2bsaass.Uploads.Media.{Raised, unsupported, os_error, validate_container}
use hack_ef3da0e3_aib2bsaass.Uploads.Staging.Folder.{
  Env, StagedPath, staged, File, World, content, step, unlink,
}
use hack_ef3da0e3_aib2bsaass.Uploads.Staging.Folder.Laws.{
  Adds, Adds-still, Adds-removed, Adds-again, On, Safe, Safe-map, raise-Safe, step-Safe,
  unlink-Safe,
}
use hack_ef3da0e3_aib2bsaass.Uploads.Staging.Folder.Reserve.{
  Reserved-then, temporary_upload_path-Hoare,
}
use hack_ef3da0e3_aib2bsaass.Uploads.Staging.{
  is_extracted, m4a, check_extracted, ended, leave, extract_first_audio,
}
use hack_ef3da0e3_aib2bsaass.Uploads.Staging.Steps.{
  on_error, IsMedia, checked_then, guarded_then, Holds, content-Hoare, probe_media-Hoare,
}

module _ ⦃env : Env⦄ where
  -- the audio that was extracted: validated as M4A, within the size bounds
  abbrev pub IsExtracted : Option (List ℕ) → Type 0
  IsExtracted c = IsMedia AudioExtension.m4a c × (is_extracted c ≡ true)

  module _ (k : ℕ) (I : List (StagedPath × File) → Type 0) where
    check_extracted-Hoare :
        (p : StagedPath) (code : ℕ)
        → Hoare
            (On I k)
            (check_extracted p code)
            (λ q w. (q ≡ p) × On I k w × IsExtracted (content p w))
            (Safe (On I k))
    unfolding check_extracted
    check_extracted-Hoare p code = Hoare-bind _ _ (content-Hoare k I p) (λ c.
        guarded_then _ unsupported _ (λ w h. (h.0.0, h.1))
          (λ good.
            Hoare-bind _ _
              (Hoare-weaken _ (probe_media-Hoare k (Holds I p c) p) (λ a w h. h)
                (λ e w h. Safe-map _ _ e w (λ q. (q.0.0, q.1)) h))
              (λ probe.
                checked_then _ _ (λ w h. (h.0.0.0, h.0.1))
                  (λ contained.
                    checked_then _ _ (λ w h. (h.0.0.0, h.0.1))
                      (λ audio_only. Hoare-pure p (λ w h. (
                        refl,
                        (h.0.0.0, h.0.1),
                        (
                          (
                            probe,
                            h.1,
                            subst (λ z. validate_container z m4a probe ≡ ok tt) h.0.0.1 contained,
                            audio_only,
                          ),
                          subst (λ z. is_extracted z ≡ true) h.0.0.1 (ground (arith, good)),
                        ),
                      )))))))

  module _ (before : List (StagedPath × File)) (new : List StagedPath) (k : ℕ) where
    raise_after :
        {A : Type 0} (p : StagedPath) (e : Raised) (Q : A → World → Type 0)
        → Hoare
            (On (Adds before (p ∷ new)) k)
            (unlink p >> raise {A = A} e)
            Q
            (Safe (On (Adds before new) k))
    raise_after p e Q =
        Hoare-bind _ _ (unlink-Safe k _ (Adds before new) _ p (Adds-removed before p new))
          (λ _. raise-Safe (On (Adds before new) k) e Q)

    -- The file is removed, and the error goes on.
    unlink-raise :
        {A : Type 0} (p : StagedPath) (Q : A → World → Type 0) (e : Raised)
        → Hoare
            (Safe (On (Adds before (p ∷ new)) k) e)
            (unlink p >> raise {A = A} e)
            Q
            (Safe (On (Adds before new) k))
    unlink-raise p Q =
        on_error _ _ Q (λ e. unlink p >> raise e) (λ e. raise_after p e Q)
          (Hoare-bind _ _ (unlink-Safe 0 (λ fs. Unit) (λ fs. Unit) _ p (λ fs h. tt))
            (λ _. Hoare-raise os_error (λ w h. tt)))

    ended-Hoare :
        (p : StagedPath) (o : Option ℕ)
        → Hoare
            (On (Adds before (p ∷ new)) k)
            (ended p o)
            (λ q w. (q ≡ p) × On (Adds before (p ∷ new)) k w × IsExtracted (content p w))
            (Safe (On (Adds before new) k))
    ended-Hoare p none = raise_after p unsupported _
    ended-Hoare p (some code) =
        Hoare-catch _ _ (check_extracted-Hoare k (Adds before (p ∷ new)) p code) (unlink-raise p _)

    leave-Hoare :
        (p : StagedPath) (n : ℕ) (o : Option (List ℕ))
        → Hoare
            (On (Adds before (p ∷ new)) k)
            (leave p n o)
            (λ _. On (Adds before (p ∷ new)) k)
            (Safe (On (Adds before new) k))
    unfolding modify
    leave-Hoare p n none = record { at = λ w h. (Adds-still before p (p ∷ new) w.files h.0, h.1) }
    leave-Hoare p n (some bytes) = record {
      at = λ w h. (Adds-again before p new w.files _ h.0, h.1);
    }

    extract_into-Hoare :
        (target source : StagedPath)
        → Hoare
            (On (Adds before (target ∷ new)) k)
            (do
              n ← step
              bytes ← gets (content source)
              leave target n (env.ffmpeg n bytes).0
              ended target (env.ffmpeg n bytes).1)
            (λ q w.
              (q ≡ target) × On (Adds before (target ∷ new)) k w × IsExtracted (content target w))
            (Safe (On (Adds before new) k))
    extract_into-Hoare target source =
        Hoare-bind _ _ (step-Safe k (Adds before (target ∷ new)) _) (λ n.
          Hoare-bind _ _
            (Hoare-gets {Q = λ b. On (Adds before (target ∷ new)) k} (content source) (λ w h. h))
            (λ bytes.
              Hoare-bind _ _ (leave-Hoare target n (env.ffmpeg n bytes).0)
                (λ _. ended-Hoare target (env.ffmpeg n bytes).1)))

  -- the path that was reserved after `k` calls, with the audio that was extracted
  abbrev pub Got : List (StagedPath × File) → List StagedPath → ℕ → StagedPath → World → Type 0
  Got before new k p w =
      (n : ℕ) × (p ≡ staged (env.uuid4 n))
      × (k ≤ n)
      × On (Adds before (p ∷ new)) (n + 1) w
      × IsExtracted (content p w)

  module _ (before : List (StagedPath × File)) (new : List StagedPath) (k : ℕ) where
    pub extract_first_audio-Hoare :
        (source : StagedPath)
        → Hoare
            (On (Adds before new) k)
            (extract_first_audio source)
            (Got before new k)
            (Safe (On (Adds before new) k))
    unfolding extract_first_audio
    extract_first_audio-Hoare source =
        Hoare-bind _ _ (temporary_upload_path-Hoare before new k) (λ target.
          Reserved-then before new k target _ (λ n e le.
            Hoare-weaken _ (extract_into-Hoare before new (n + 1) target source)
              (λ q w h.
                let both =
                  subst (λ z. On (Adds before (z ∷ new)) (n + 1) w × IsExtracted (content z w))
                    (sym h.0) (h.1, h.2) in
                (n, h.0 ∙ e, le, both.0, both.1))
              (λ e w h. h)))
