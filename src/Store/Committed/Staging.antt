-- ===== src/Store/Committed/Staging.antt =====
-- The originals that `publish_results` has written before the manifest.
use hack_ef3da0e3_aib2bsaass.Base.{
  ◌≡◌, ◌∙◌, Bool, true, false, none, List, [], ◌∷◌, list_beq_iff, list_eq, ◌==◌, nat_eq,
}
use hack_ef3da0e3_aib2bsaass.Base.Exec.{skip, raise}
use hack_ef3da0e3_aib2bsaass.Base.Exec.Hoare.{
  Hoare, Hoare-bind, Hoare-if, Hoare-weaken, Hoare-raise,
}
use hack_ef3da0e3_aib2bsaass.Model.Insights.{ResultBundleV1}
use hack_ef3da0e3_aib2bsaass.Store.World.{
  Env, Artifact, Name, Files, Sent, live, manifest_json, transcript_json, insights_json,
  transcript_txt, write, name_beq, artifact_integrity,
}
use hack_ef3da0e3_aib2bsaass.Store.Files.{read_file, atomic_write}
use hack_ef3da0e3_aib2bsaass.Store.Files.Laws.{View, On, read_file-Hoare, atomic_write-Hoare}
use hack_ef3da0e3_aib2bsaass.Store.Publish.{original, publish_artifact}
use hack_ef3da0e3_aib2bsaass.Store.Committed.{Holds, Committed, IsCommitted-unmarked, write-other}

module _ ⦃env : Env⦄ where
  -- the originals of `b` that are there already, and no manifest
  abbrev pub With : ResultBundleV1 → List Artifact → Files → Type 0
  With b [] f = Unit
  With b (a ∷ l) f = Holds f a (env.sha256 (original b a)) × With b l f

  abbrev pub Staged : ResultBundleV1 → List Artifact → View
  Staged b l f s = (f (live manifest_json) ≡ none) × With b l f

  pub staged_committed :
      (b : ResultBundleV1) (l : List Artifact) (f : Files) (s : List Sent)
      → Staged b l f s
      → Committed f s
  staged_committed b l f s h = IsCommitted-unmarked f h.0

  -- the name meets neither the manifest nor the originals in the list
  abbrev pub Clear : Name → List Artifact → Type 0
  Clear n [] = name_beq n (live manifest_json) ≡ false
  Clear n (a ∷ l) = (name_beq n (live a) ≡ false) × Clear n l

  Clear-marker :
      (n : Name) (l : List Artifact) → Clear n l → name_beq n (live manifest_json) ≡ false
  Clear-marker n [] h = h
  Clear-marker n (a ∷ l) h = Clear-marker n l h.1

  With-write :
      (b : ResultBundleV1) (n : Name) (d : env.Bytes) (f : Files) (l : List Artifact)
      → Clear n l
      → With b l f
      → With b l (write n d f)
  With-write b n d f [] c h = tt
  With-write b n d f (a ∷ l) c ((x, p, q), h) =
      ((x, write-other n (live a) d f c.0 ∙ p, q), With-write b n d f l c.1 h)

  staged_write :
      (b : ResultBundleV1) (n : Name) (d : env.Bytes) (l : List Artifact)
      → Clear n l
      → (f : Files) (s : List Sent) → Staged b l f s
      → Staged b l (write n d f) s
  staged_write b n d l c f s h = (
    write-other n (live manifest_json) d f (Clear-marker n l c) ∙ h.0,
    With-write b n d f l c h.1,
  )

  pub staged_atomic :
      (b : ResultBundleV1) (n : Name) (d : env.Bytes) (i : Bool) (l : List Artifact)
      → Clear n l
      → Hoare (On (Staged b l)) (atomic_write n d i) (λ u. On (Staged b l)) (λ e. On Committed)
  staged_atomic b n d i l c =
      atomic_write-Hoare (Staged b l) (Staged b l) Committed n d i
        (λ f s h new. staged_write b n d l c f s h) (λ f s h same. h) (staged_committed b l)
        (staged_committed b l)

  -- One round writes an original and verifies what was written.
  pub publish_artifact-Hoare :
      (b : ResultBundleV1) (a : Artifact) (l : List Artifact)
      → Clear (live a) l
      → Hoare
          (On (Staged b l))
          (publish_artifact b a)
          (λ u. On (Staged b (a ∷ l)))
          (λ e. On Committed)
  unfolding publish_artifact
  publish_artifact-Hoare b a l c =
      Hoare-bind (atomic_write (live a) (original b a) true) _
        (staged_atomic b (live a) (original b a) true l c)
        λ _.
          Hoare-bind (read_file (live a)) _
            (Hoare-weaken (read_file (live a)) (read_file-Hoare (Staged b l) (live a)) (λ x w h. h)
              (λ e w h. staged_committed b l w.files w.sent h))
            λ x.
              Hoare-if (env.sha256 x == env.sha256 (original b a)) skip (raise artifact_integrity)
                (λ verified.
                  unfold skip in
                  record {
                    at = λ w h. (
                      h.0.0,
                      (
                        (
                          x,
                          h.1,
                          (list_beq_iff (env.sha256 x) (env.sha256 (original b a))).0 verified,
                        ),
                        h.0.1,
                      ),
                    );
                  })
                (λ broken.
                  Hoare-raise artifact_integrity (λ w h. staged_committed b l w.files w.sent h.0))

  abbrev pub all_three : List Artifact
  all_three = transcript_txt ∷ insights_json ∷ transcript_json ∷ []
