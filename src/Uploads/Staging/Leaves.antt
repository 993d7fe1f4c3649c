-- ===== src/Uploads/Staging/Leaves.antt =====
-- What `stage_and_validate` leaves behind, and what it returns.
use hack_ef3da0e3_aib2bsaass.Base.{ℕ, ◌+◌, ◌≡◌, subst, arith, Option, none, some, List, [], ◌∷◌, ok}
use hack_ef3da0e3_aib2bsaass.Base.Exec.{modify, skip}
use hack_ef3da0e3_aib2bsaass.Base.Exec.Hoare.{
  Hoare, Post, Hoare-bind, Hoare-raise, Hoare-gets, Hoare-catch, Hoare-weaken,
}
use hack_ef3da0e3_aib2bsaass.Model.Meeting.{AudioExtension}
use hack_ef3da0e3_aib2bsaass.Uploads.Media.{
  Raised, unsupported, os_error, UploadExtension, upload_extension,
}
use hack_ef3da0e3_aib2bsaass.Uploads.Staging.Folder.{Env, StagedPath, File, World, remove, content}
use hack_ef3da0e3_aib2bsaass.Uploads.Staging.Folder.Laws.{
  Adds, Adds-still, Adds-removed, On, Safe, Safe-intro, Safe-map, raise-Safe, unlink-Safe,
}
use hack_ef3da0e3_aib2bsaass.Uploads.Staging.Folder.Reserve.{
  Reserved-then, temporary_upload_path-Hoare,
}
use hack_ef3da0e3_aib2bsaass.Uploads.Staging.{unlink_known, discard, staged_as, stage_and_validate}
use hack_ef3da0e3_aib2bsaass.Uploads.Staging.Steps.{on_error, IsPayload}
use hack_ef3da0e3_aib2bsaass.Model.Text.{Text}
use hack_ef3da0e3_aib2bsaass.Uploads.Staging.Branches.{Unique, Returned, Only, stage_in-Hoare}

module _ ⦃env : Env⦄ where
  module _ (source : StagedPath) (k : ℕ) (I J : List (StagedPath × File) → Type 0)
      (gone : (fs : List (StagedPath × File)) → I fs → J (remove source fs))
      (closed : (p : StagedPath) (fs : List (StagedPath × File)) → J fs → J (remove p fs)) where
    unlink_known-Safe :
        (o : Option StagedPath) (P' : World → Type 0)
        → Hoare (On J k) (unlink_known o) (λ _. On J k) (Safe P')
    unfolding skip
    unlink_known-Safe none P' = record { at = λ w h. h }
    unlink_known-Safe (some p) P' = unlink-Safe k J J P' p (closed p)

    discard-Hoare :
        (Q : StagedPath × AudioExtension → World → Type 0) (P' : World → Type 0) (e : Raised)
        → ((w : World) → On J k w → Safe P' e w)
        → Hoare (On I k) (discard source e) Q (Safe P')
    unfolding discard
    discard-Hoare Q P' e up = Hoare-bind _ _ (unlink-Safe k I J P' source gone) (λ _.
        Hoare-bind _ _ (Hoare-gets {Q = λ o. On J k} _ (λ w h. h))
          (λ o. Hoare-bind _ _ (unlink_known-Safe o P') (λ _. Hoare-raise e up)))

  module _ (before : List (StagedPath × File)) where
    discard_lem :
        (source : StagedPath) (k : ℕ) (Q : StagedPath × AudioExtension → World → Type 0)
        (e : Raised)
        → Hoare
            (Safe (On (Only before source) k) e)
            (discard source e)
            Q
            (Safe (On (Adds before []) k))
    discard_lem source k Q =
        on_error _ _ Q (discard source)
          (λ e.
            discard-Hoare source k (Only before source) (Adds before [])
              (λ fs h. Adds-removed before source [] fs h) (λ p fs h. Adds-still before p [] fs h) Q
              _ e (λ w h. Safe-intro _ e w h))
          (discard-Hoare source 0 (λ fs. Unit) (λ fs. Unit) (λ fs h. tt) (λ p fs h. tt) Q _ os_error
            (λ w h. tt))

    staged_as-Hoare :
        (o : Option UploadExtension) (payload : List ℕ)
        → Hoare
            (On (Adds before []) 0)
            (staged_as o payload)
            (Returned before)
            (Safe (On (Adds before []) 0))
    staged_as-Hoare none payload = raise-Safe _ unsupported _
    staged_as-Hoare (some suffix) payload =
        Hoare-bind _ _ (temporary_upload_path-Hoare before [] 0) (λ source.
          Reserved-then before [] 0 source _ (λ n here le. Hoare-bind _ _ (forgotten source n) (λ _.
            Hoare-catch _ _ (stage_in-Hoare before source n here payload suffix)
              (discard_lem source (n + 1) _))))
      where
        forgotten :
            (source : StagedPath) (n : ℕ)
            → Hoare
                (On (Only before source) (n + 1))
                (modify {E = Raised} (λ w. record w { normalized_path = none }))
                (λ _. On (Only before source) (n + 1))
                (Safe (On (Adds before []) (n + 1)))
        forgotten source n = unfold modify in record { at = λ w h. h }

  -- Whatever the system and the programs do, `stage_and_validate` leaves no file of its own in the
  -- staging folder where it raises anything but an error of the system, and the returned file alone
  -- where it returns.
  pub stage_and_validate-Adds :
      (suffix : Text) (payload : List ℕ) (w : World)
      → Post
          (λ r w'. Adds w.files (r.0 ∷ []) w'.files)
          (Safe (λ w'. Adds w.files [] w'.files))
          (stage_and_validate suffix payload w)
  unfolding stage_and_validate
  stage_and_validate-Adds suffix payload w =
      (Hoare-weaken _ (staged_as-Hoare w.files (upload_extension suffix) payload) (λ r w' h. h.0)
          (λ e w' h. Safe-map _ _ e w' (λ q. q.0) h)).at
        w ((λ q absent other. absent), omega arith)

  -- Where `uuid4` never gives a name twice, the file that `stage_and_validate` returns was validated
  -- with the bytes that it holds: as a WAV file with all its frames, or by `ffprobe` as a container
  -- of the returned extension with audio streams alone.
  pub stage_and_validate-IsPayload :
      (suffix : Text) (payload : List ℕ) (w w' : World) (p : StagedPath) (e : AudioExtension)
      → Unique
      → stage_and_validate suffix payload w ≡ (ok (p, e), w')
      → IsPayload e (content p w')
  unfolding stage_and_validate
  stage_and_validate-IsPayload suffix payload w w' p e u run =
      (subst (Post (Returned w.files) (Safe (On (Adds w.files []) 0))) run (
          (staged_as-Hoare w.files (upload_extension suffix) payload).at w
            ((λ q absent other. absent), omega arith))).1
        u
