-- ===== src/Uploads/Staging/Branches.antt =====
-- What each branch of `stage_and_validate` returns, and what it has left where it raises.
use hack_ef3da0e3_aib2bsaass.Base.{
  ℕ, ◌+◌, ◌≤◌, ◌≡◌, refl, sym, ◌∙◌, subst, arith, inl, inr, Bool, true, false, Option, none, some,
  List, [], ◌∷◌, is_some, IsIn, ok,
}
use hack_ef3da0e3_aib2bsaass.Base.Exec.{pure, raise, modify, ◌>>=◌, ◌>>◌}
use hack_ef3da0e3_aib2bsaass.Base.Exec.Hoare.{
  Hoare, Hoare-bind, Hoare-pure, Hoare-raise, Hoare-gets, Hoare-if, Hoare-weaken, Hoare-strengthen,
}
use hack_ef3da0e3_aib2bsaass.Model.Meeting.{AudioExtension}
use hack_ef3da0e3_aib2bsaass.Uploads.Media.{
  Raised, unsupported, os_error, UploadExtension, audio, mp4, mov, mkv, ProbeResult,
  validate_container, validate_audio_only,
}
use hack_ef3da0e3_aib2bsaass.Uploads.Wave.{validate_wav}
use hack_ef3da0e3_aib2bsaass.Uploads.Staging.Folder.{
  Env, StagedPath, staged, File, World, lookup, remove, content_of, content, unlink_existing,
}
use hack_ef3da0e3_aib2bsaass.Uploads.Staging.Folder.Laws.{
  Adds, Adds-again, lookup-remove, staged_beq_iff, Adds-removed, Adds-again, On, Safe, step-Safe,
  call-Safe, unlink-Safe,
}
use hack_ef3da0e3_aib2bsaass.Uploads.Staging.{
  copy_by, copy_payload, open_wav, validate_wav_file, is_video_extension, kept_extension,
  replace_by_audio, keep_audio, needs_extraction, stage_other, validated, stage_in,
}
use hack_ef3da0e3_aib2bsaass.Uploads.Staging.Steps.{
  Probed, IsWave, IsPayload, check_result-Hoare, checked_then, guarded_then, Holds, content-Hoare,
  probe_media-Hoare,
}
use hack_ef3da0e3_aib2bsaass.Uploads.Staging.Extraction.{IsExtracted, extract_first_audio-Hoare}
use hack_ef3da0e3_aib2bsaass.Store.World.{Choice}

Adds-swap :
    (before : List (StagedPath × File)) (a b : StagedPath) (fs : List (StagedPath × File))
    → Adds before (a ∷ b ∷ []) fs
    → Adds before (b ∷ a ∷ []) fs
Adds-swap before a b fs h q absent other = h q absent (λ m. other (swap m))
  where
    swap : IsIn q (a ∷ b ∷ []) → IsIn q (b ∷ a ∷ [])
    swap (inl e) = inr (inl e)
    swap (inr (inl e)) = inl e
    swap (inr (inr m)) = absurd m

abbrev is_wav : UploadExtension → Bool
is_wav (audio AudioExtension.wav) = true
is_wav _ = false

module _ ⦃env : Env⦄ where
  IsPayload-kept :
      (suffix : UploadExtension) (c : Option (List ℕ)) (probe : ProbeResult)
      → Probed c probe
      → validate_container c suffix probe ≡ ok tt
      → validate_audio_only suffix probe ≡ ok tt
      → is_video_extension suffix ≡ false
      → is_wav suffix ≡ false
      → IsPayload (kept_extension suffix) c
  IsPayload-kept (audio AudioExtension.wav) c probe p v a video wav = absurd (cc)
  IsPayload-kept (audio AudioExtension.mp3) c probe p v a video wav = (probe, p, v, a)
  IsPayload-kept (audio AudioExtension.m4a) c probe p v a video wav = (probe, p, v, a)
  IsPayload-kept (audio AudioExtension.ogg) c probe p v a video wav = (probe, p, v, a)
  IsPayload-kept (audio AudioExtension.webm) c probe p v a video wav = (probe, p, v, a)
  IsPayload-kept mp4 c probe p v a video wav = absurd (cc)
  IsPayload-kept mov c probe p v a video wav = absurd (cc)
  IsPayload-kept mkv c probe p v a video wav = absurd (cc)

  -- `uuid4` never gives a name twice.
  abbrev pub Unique : Type 0
  Unique = (a b : ℕ) → env.uuid4 a ≡ env.uuid4 b → a ≡ b

  -- what stands in the folder at a return
  abbrev pub Returned : List (StagedPath × File) → StagedPath × AudioExtension → World → Type 0
  Returned before r w = Adds before (r.0 ∷ []) w.files × (Unique → IsPayload r.1 (content r.0 w))

  copy_by-Hoare :
      (before : List (StagedPath × File)) (k : ℕ) (p : StagedPath) (payload : List ℕ) (n : ℕ)
      (c : Choice) (P' : World → Type 0)
      → Hoare
          (On (Adds before (p ∷ [])) k)
          (copy_by p payload n c)
          (λ _. On (Adds before (p ∷ [])) k)
          (Safe P')
  unfolding modify raise ◌>>=◌
  copy_by-Hoare before k p payload n Choice.done P' = record {
    at = λ w h. (Adds-again before p [] w.files _ h.0, h.1);
  }
  copy_by-Hoare before k p payload n Choice.refused P' = record { at = λ w h. tt }
  copy_by-Hoare before k p payload n Choice.half P' = record { at = λ w h. tt }
  copy_by-Hoare before k p payload n Choice.unsafe P' = record { at = λ w h. tt }

  unlink_existing-Safe :
      (k : ℕ) (I J : List (StagedPath × File) → Type 0) (P' : World → Type 0) (p : StagedPath)
      → ((fs : List (StagedPath × File)) → I fs → J (remove p fs))
      → Hoare (On I k) (unlink_existing p) (λ _. On J k) (Safe P')
  unfolding unlink_existing
  unlink_existing-Safe k I J P' p h =
      Hoare-bind _ _ (Hoare-gets {Q = λ f. On I k} _ (λ w q. q)) (λ f.
        Hoare-if (is_some f) _ _ (λ _. unlink-Safe k I J P' p h)
          (λ _. Hoare-raise os_error (λ w q. tt)))

  abbrev pub Only : List (StagedPath × File) → StagedPath → List (StagedPath × File) → Type 0
  Only before p = Adds before (p ∷ [])

  module _ (before : List (StagedPath × File)) (source : StagedPath) (n : ℕ)
      (here : source ≡ staged (env.uuid4 n)) where
    copy_payload-Hoare :
        (payload : List ℕ) (P' : World → Type 0)
        → Hoare
            (On (Only before source) (n + 1))
            (copy_payload source payload)
            (λ _. On (Only before source) (n + 1))
            (Safe P')
    unfolding copy_payload
    copy_payload-Hoare payload P' = Hoare-bind _ _ (call-Safe (n + 1) (Only before source) P') (λ _.
        Hoare-bind _ _ (step-Safe (n + 1) (Only before source) P') (λ m.
          Hoare-bind _ _ (copy_by-Hoare before (n + 1) source payload m (env.os m) P')
            (λ _. call-Safe (n + 1) (Only before source) P')))

    keep_audio-Hoare :
        (suffix : UploadExtension) (c : Option (List ℕ)) (probe : ProbeResult)
        → validate_container c suffix probe ≡ ok tt
        → is_video_extension suffix ≡ false
        → is_wav suffix ≡ false
        → Hoare
            (λ w. On (Holds (Only before source) source c) (n + 1) w × Probed c probe)
            (keep_audio source suffix probe)
            (Returned before)
            (Safe (On (Only before source) (n + 1)))
    unfolding keep_audio
    keep_audio-Hoare suffix c probe contained video wav =
        checked_then _ _ (λ w h. (h.0.0.0, h.0.1))
          (λ audio_only. Hoare-pure _ (λ w h. (
            h.0.0.0,
            λ u.
                subst (IsPayload (kept_extension suffix)) h.0.0.1
                  (IsPayload-kept suffix c probe h.1 contained audio_only video wav),
          )))

    -- the extracted audio, and what remains of it when the source is gone
    abbrev Both : StagedPath → List (StagedPath × File) → Type 0
    Both p fs = Adds before (p ∷ source ∷ []) fs × IsExtracted (content_of (lookup p fs))

    abbrev Alone : StagedPath → List (StagedPath × File) → Type 0
    Alone p fs = Only before p fs × (Unique → IsExtracted (content_of (lookup p fs)))

    source_removed :
        (p : StagedPath) (m : ℕ)
        → p ≡ staged (env.uuid4 m)
        → n + 1 ≤ m
        → (fs : List (StagedPath × File)) → Both p fs
        → Alone p (remove source fs)
    source_removed p m there later fs h = (
      Adds-removed before source (p ∷ []) fs (Adds-swap before p source fs h.0),
      λ u.
          let apart : ¬ (p ≡ source) = λ e. same_number u (sym there ∙ (e ∙ here)) in
          let kept : lookup p (remove source fs) ≡ lookup p fs =
            ground (arith, lookup-remove p source fs, (staged_beq_iff p source).0, apart) in
          subst (λ o. IsExtracted (content_of o)) (sym kept) h.1,
    )
      where
        same_number : Unique → ¬ (staged (env.uuid4 m) ≡ staged (env.uuid4 n))
        same_number u e = absurd (omega (arith, later, u m n (cc)))

    drop_source-Hoare :
        (p : StagedPath) (m : ℕ)
        → p ≡ staged (env.uuid4 m)
        → n + 1 ≤ m
        → (P' : World → Type 0)
        → Hoare
            (On (Both p) (m + 1))
            (do
              modify {E = Raised} (λ w. record w { normalized_path = some p })
              unlink_existing source
              pure (p, AudioExtension.m4a))
            (Returned before)
            (Safe P')
    drop_source-Hoare p m there later P' = Hoare-bind _ _ noted (λ _.
        Hoare-bind _ _
          (unlink_existing-Safe (m + 1) (Both p) (Alone p) P' source
            (source_removed p m there later))
          (λ _. Hoare-pure _ (λ w h. (h.0.0, λ u. (h.0.1 u).0))))
      where
        noted :
            Hoare
              (On (Both p) (m + 1))
              (modify {E = Raised} (λ w. record w { normalized_path = some p }))
              (λ _. On (Both p) (m + 1))
              (Safe P')
        noted = unfold modify in record { at = λ w h. h }

    replace_by_audio-Hoare :
        Hoare
          (On (Only before source) (n + 1))
          (replace_by_audio source)
          (Returned before)
          (Safe (On (Only before source) (n + 1)))
    unfolding replace_by_audio
    replace_by_audio-Hoare =
        Hoare-bind _ _ (extract_first_audio-Hoare before (source ∷ []) (n + 1) source) (λ p.
          record { at = λ w g. (drop_source-Hoare p g.0 g.1 g.2 _).at w ((g.3.0, g.4), g.3.1) })

    stage_other-Hoare :
        (suffix : UploadExtension)
        → is_wav suffix ≡ false
        → Hoare
            (On (Only before source) (n + 1))
            (stage_other source suffix)
            (Returned before)
            (Safe (On (Only before source) (n + 1)))
    unfolding stage_other
    stage_other-Hoare suffix wav =
        Hoare-bind _ _ (probe_media-Hoare (n + 1) (Only before source) source) (λ probe.
          Hoare-bind _ _
            (Hoare-gets
              {Q = λ c w. On (Holds (Only before source) source c) (n + 1) w × Probed c probe}
              (content source) (λ w h. (((h.0.0, refl), h.0.1), h.1)))
            (λ c.
              checked_then _ _ (λ w h. (h.0.0.0, h.0.1))
                (λ contained.
                  guarded_then _ unsupported _ (λ w h. (h.0.0.0, h.0.1))
                    (λ heard.
                      Hoare-if (needs_extraction suffix probe) _ _
                        (λ needs.
                          Hoare-strengthen _ (λ w h. (h.0.0.0, h.0.1)) replace_by_audio-Hoare)
                        (λ rests.
                          keep_audio-Hoare suffix c probe contained (ground (arith, rests)) wav)))))

    validate_wav_file-Hoare :
        Hoare
          (On (Only before source) (n + 1))
          (validate_wav_file source)
          (λ _ w. On (Only before source) (n + 1) w × IsWave (content source w))
          (Safe (On (Only before source) (n + 1)))
    unfolding validate_wav_file
    validate_wav_file-Hoare =
        Hoare-bind _ _ (call-Safe (n + 1) (Only before source) _)
          (λ _. Hoare-bind _ _ (content-Hoare (n + 1) (Only before source) source) opened)
      where
        opened :
            (c : Option (List ℕ))
            → Hoare
                (On (Holds (Only before source) source c) (n + 1))
                (open_wav c)
                (λ _ w. On (Only before source) (n + 1) w × IsWave (content source w))
                (Safe (On (Only before source) (n + 1)))
        opened none = Hoare-raise os_error (λ w h. tt)
        opened (some bytes) =
            Hoare-weaken _
              (check_result-Hoare _ _ (validate_wav (env.open_wave bytes)) (λ w h. (h.0.0, h.1)))
              (λ u w h. ((h.0.0.0, h.0.1), (bytes, sym h.0.0.1, h.1))) (λ e w h. h)

    validated-Hoare :
        (suffix : UploadExtension)
        → Hoare
            (On (Only before source) (n + 1))
            (validated source suffix)
            (Returned before)
            (Safe (On (Only before source) (n + 1)))
    validated-Hoare (audio AudioExtension.wav) =
        Hoare-bind _ _ validate_wav_file-Hoare (λ _. Hoare-pure _ (λ w h. (h.0.0, λ u. h.1)))
    validated-Hoare (audio AudioExtension.mp3) = stage_other-Hoare (audio AudioExtension.mp3) refl
    validated-Hoare (audio AudioExtension.m4a) = stage_other-Hoare (audio AudioExtension.m4a) refl
    validated-Hoare (audio AudioExtension.ogg) = stage_other-Hoare (audio AudioExtension.ogg) refl
    validated-Hoare (audio AudioExtension.webm) = stage_other-Hoare (audio AudioExtension.webm) refl
    validated-Hoare mp4 = stage_other-Hoare mp4 refl
    validated-Hoare mov = stage_other-Hoare mov refl
    validated-Hoare mkv = stage_other-Hoare mkv refl

    pub stage_in-Hoare :
        (payload : List ℕ) (suffix : UploadExtension)
        → Hoare
            (On (Only before source) (n + 1))
            (stage_in source payload suffix)
            (Returned before)
            (Safe (On (Only before source) (n + 1)))
    unfolding stage_in
    stage_in-Hoare payload suffix =
        Hoare-bind _ _ (copy_payload-Hoare payload _) (λ _. validated-Hoare suffix)
