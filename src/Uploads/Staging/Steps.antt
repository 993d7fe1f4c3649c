-- ===== src/Uploads/Staging/Steps.antt =====
-- What `stage_and_validate` relies on: a payload that was checked, and the triples of the functions
-- that check it.
use hack_ef3da0e3_aib2bsaass.Base.{
  ℕ, ◌≡◌, refl, ap, ◌∙◌, subst, arith, Bool, true, false, Option, none, some, List, nat_beq,
  nat_beq_iff, if◌then◌else◌, Result, ok, err,
}
use hack_ef3da0e3_aib2bsaass.Base.Exec.{raise, gets, skip, ◌>>=◌, ◌>>◌}
use hack_ef3da0e3_aib2bsaass.Base.Exec.Hoare.{
  Hoare, Hoare-bind, Hoare-pure, Hoare-gets, Hoare-if, Hoare-strengthen,
}
use hack_ef3da0e3_aib2bsaass.Model.Meeting.{AudioExtension}
use hack_ef3da0e3_aib2bsaass.Uploads.Media.{
  Raised, unsupported, os_error, unsafe_path, upload_error, zero_division, stuck, audio,
  ProbeResult, validate_container, validate_audio_only,
}
use hack_ef3da0e3_aib2bsaass.Uploads.Wave.{validate_wav}
use hack_ef3da0e3_aib2bsaass.Uploads.Staging.Folder.{
  Env, StagedPath, File, World, M, lookup, content_of, content,
}
use hack_ef3da0e3_aib2bsaass.Uploads.Staging.Folder.Laws.{
  On, Safe, Safe-intro, safely, raise-Safe, step-Keeps,
}
use hack_ef3da0e3_aib2bsaass.Uploads.Staging.{check_result, parsed_report, report, probe_media}

-- A handler, where it keeps its promise on an error of the system too.
pub on_error :
    {A : Type 0} (P P' : World → Type 0) (Q : A → World → Type 0) (m : Raised → M A)
    → ((e : Raised) → Hoare P (m e) Q (Safe P'))
    → Hoare (On (λ fs. Unit) 0) (m os_error) Q (Safe P')
    → (e : Raised) → Hoare (Safe P e) (m e) Q (Safe P')
on_error P P' Q m h l os_error = Hoare-strengthen _ (λ w q. (tt, omega arith)) l
on_error P P' Q m h l unsafe_path = h unsafe_path
on_error P P' Q m h l zero_division = h zero_division
on_error P P' Q m h l stuck = h stuck
on_error P P' Q m h l (upload_error status code) = h (upload_error status code)

module _ ⦃env : Env⦄ where
  -- `ffprobe` has reported this of the bytes
  abbrev pub Probed : Option (List ℕ) → ProbeResult → Type 0
  Probed c probe = (n : ℕ) × (env.ffprobe n c ≡ some (0, some probe))

  -- a container of the extension with audio streams alone
  abbrev pub IsMedia : AudioExtension → Option (List ℕ) → Type 0
  IsMedia e c =
      (probe : ProbeResult) × Probed c probe
      × (validate_container c (audio e) probe ≡ ok tt)
      × (validate_audio_only (audio e) probe ≡ ok tt)

  abbrev pub IsWave : Option (List ℕ) → Type 0
  IsWave c = (bytes : List ℕ) × (c ≡ some bytes) × (validate_wav (env.open_wave bytes) ≡ ok tt)

  -- a payload that was validated as a file of this extension
  abbrev pub IsPayload : AudioExtension → Option (List ℕ) → Type 0
  IsPayload AudioExtension.wav c = IsWave c
  IsPayload AudioExtension.mp3 c = IsMedia AudioExtension.mp3 c
  IsPayload AudioExtension.m4a c = IsMedia AudioExtension.m4a c
  IsPayload AudioExtension.ogg c = IsMedia AudioExtension.ogg c
  IsPayload AudioExtension.webm c = IsMedia AudioExtension.webm c

  pub check_result-Hoare :
      (P P' : World → Type 0) (r : Result Raised (Unit {0}))
      → ((w : World) → P w → P' w)
      → Hoare P (check_result r) (λ _ w. P w × (r ≡ ok tt)) (Safe P')
  unfolding skip raise
  check_result-Hoare P P' (ok u) up = record { at = λ w h. (h, refl) }
  check_result-Hoare P P' (err e) up = record { at = λ w h. Safe-intro P' e w (up w h) }

  module _ {A : Type 0} {P P' : World → Type 0} {Q : A → World → Type 0} where
    -- a check, and what follows it where it passes
    pub checked_then :
        (r : Result Raised (Unit {0})) (m : M A)
        → ((w : World) → P w → P' w)
        → (r ≡ ok tt → Hoare P m Q (Safe P'))
        → Hoare P (check_result r >> m) Q (Safe P')
    unfolding ◌>>=◌ skip raise
    checked_then (ok u) m up h = record { at = λ w p. (h refl).at w p }
    checked_then (err e) m up h = record { at = λ w p. Safe-intro P' e w (up w p) }

    pub guarded_then :
        (b : Bool) (e : Raised) (m : M A)
        → ((w : World) → P w → P' w)
        → (b ≡ false → Hoare P m Q (Safe P'))
        → Hoare P ((if b then raise e else skip) >> m) Q (Safe P')
    unfolding ◌>>=◌ skip raise
    guarded_then false e m up h = record { at = λ w p. (h refl).at w p }
    guarded_then true e m up h = record { at = λ w p. Safe-intro P' e w (up w p) }

  -- the files whose content at a path is known
  abbrev pub Holds :
      (List (StagedPath × File) → Type 0)
      → StagedPath
      → Option (List ℕ)
      → List (StagedPath × File)
      → Type 0
  Holds I p c fs = I fs × (c ≡ content_of (lookup p fs))

  module _ (k : ℕ) (I : List (StagedPath × File) → Type 0) where
    pub content-Hoare :
        (p : StagedPath)
        → Hoare (On I k) (gets (content p)) (λ c. On (Holds I p c) k) (Safe (On I k))
    content-Hoare p = Hoare-gets _ (λ w h. ((h.0, refl), h.1))

    parsed_report-Hoare :
        (p : StagedPath) (c : Option (List ℕ)) (n : ℕ) (o : Option ProbeResult)
        → env.ffprobe n c ≡ some (0, o)
        → Hoare
            (On (Holds I p c) k)
            (parsed_report o)
            (λ probe w. On I k w × Probed (content p w) probe)
            (Safe (On I k))
    parsed_report-Hoare p c n none e =
        Hoare-strengthen _ (λ w h. (h.0.0, h.1)) (raise-Safe (On I k) unsupported _)
    parsed_report-Hoare p c n (some probe) e =
        Hoare-pure probe
          (λ w h. ((h.0.0, h.1), (n, subst (λ z. env.ffprobe n z ≡ some (0, some probe)) h.0.1 e)))

    report-Hoare :
        (p : StagedPath) (c : Option (List ℕ)) (n : ℕ) (o : Option (ℕ × Option ProbeResult))
        → env.ffprobe n c ≡ o
        → Hoare
            (On (Holds I p c) k)
            (report o)
            (λ probe w. On I k w × Probed (content p w) probe)
            (Safe (On I k))
    report-Hoare p c n none e =
        Hoare-strengthen _ (λ w h. (h.0.0, h.1)) (raise-Safe (On I k) unsupported _)
    report-Hoare p c n (some (code, parsed)) e =
        Hoare-if (nat_beq code 0) _ _
          (λ zero_code.
            parsed_report-Hoare p c n parsed
              (e ∙ ap (λ (x : ℕ). some (x, parsed)) ((nat_beq_iff code 0).0 zero_code)))
          (λ _. Hoare-strengthen _ (λ w h. (h.0.0, h.1)) (raise-Safe (On I k) unsupported _))

    pub probe_media-Hoare :
        (p : StagedPath)
        → Hoare
            (On I k)
            (probe_media p)
            (λ probe w. On I k w × Probed (content p w) probe)
            (Safe (On I k))
    unfolding probe_media
    probe_media-Hoare p =
        Hoare-bind _ _ (safely _ (step-Keeps k I))
          (λ n. Hoare-bind _ _ (content-Hoare p) (λ c. report-Hoare p c n (env.ffprobe n c) refl))
