-- ===== src/Uploads/Staging/Folder/Reserve.antt =====
-- What `temporary_upload_path` leaves: the path that it reserves.
use hack_ef3da0e3_aib2bsaass.Base.{
  ℕ, ◌+◌, ◌≤◌, ◌≡◌, refl, arith, Bool, true, false, List, ◌∷◌, is_some,
}
use hack_ef3da0e3_aib2bsaass.Base.Exec.{pure, gets, ◌>>=◌, ◌>>◌}
use hack_ef3da0e3_aib2bsaass.Base.Exec.Hoare.{
  Hoare, Hoare-bind, Hoare-pure, Hoare-raise, Hoare-weaken, Hoare-strengthen, Hoare-given,
  Keeps-gets,
}
use hack_ef3da0e3_aib2bsaass.Uploads.Media.{Raised, os_error}
use hack_ef3da0e3_aib2bsaass.Uploads.Staging.Folder.{
  Env, StagedPath, staged, File, World, M, lookup, call, check, create, temporary_upload_path,
}
use hack_ef3da0e3_aib2bsaass.Uploads.Staging.Folder.Laws.{
  Adds, Adds-still, Adds-put, On, Safe, Safe-map, safely, step-Hoare, call-Keeps, check-Keeps,
  call-Safe, perform-Hoare, sweep_stale_uploads-Keeps,
}

module _ ⦃env : Env⦄ where
  -- A path that was reserved after `k` calls, the only new file beside `new`.
  abbrev pub Reserved : List (StagedPath × File) → List StagedPath → ℕ → StagedPath → World → Type 0
  Reserved before new k p w =
      (n : ℕ) × (p ≡ staged (env.uuid4 n)) × (k ≤ n) × On (Adds before (p ∷ new)) (n + 1) w

  module _ (before : List (StagedPath × File)) (new : List StagedPath) (k : ℕ) where
    create-Hoare :
        (p : StagedPath) (m now : ℕ) (taken : Bool)
        → Hoare
            (On (Adds before new) m)
            (create p now taken)
            (λ _. On (Adds before (p ∷ new)) m)
            (λ (e : Raised). On (Adds before new) m)
    create-Hoare p m now true = Hoare-raise os_error (λ w h. h)
    create-Hoare p m now false = perform-Hoare m _ _ _ (λ fs h. Adds-put before p new fs _ h)

    reserve-Hoare :
        (n : ℕ)
        → let path = staged (env.uuid4 n) in
          Hoare
            (On (Adds before new) (n + 1))
            (do
              check
              taken ← gets (λ w. is_some (lookup path w.files))
              create path (env.time n) taken
              call
              pure path)
            (λ p w. (p ≡ path) × On (Adds before (p ∷ new)) (n + 1) w)
            (Safe (On (Adds before new) (n + 1)))
    reserve-Hoare n =
        let path = staged (env.uuid4 n) in
        Hoare-bind _ _ (safely _ (check-Keeps (n + 1) _)) (λ _.
          Hoare-bind _ _ (safely _ (Keeps-gets _)) (λ taken.
            Hoare-bind _ _ (safely _ (create-Hoare path (n + 1) (env.time n) taken)) (λ _.
              Hoare-bind _ _ (call-Safe (n + 1) _ _) (λ _. Hoare-pure path (λ w h. (refl, h))))))

    pub temporary_upload_path-Hoare :
        Hoare
          (On (Adds before new) k)
          temporary_upload_path
          (Reserved before new k)
          (Safe (On (Adds before new) k))
    unfolding temporary_upload_path
    temporary_upload_path-Hoare = Hoare-bind _ _ (safely _ (check-Keeps k _)) (λ _.
        Hoare-bind _ _ (safely _ (check-Keeps k _)) (λ _.
          Hoare-bind _ _ (safely _ (call-Keeps k _)) (λ _.
            Hoare-bind _ _
              (safely _ (sweep_stale_uploads-Keeps k _ (λ p fs h. Adds-still before p new fs h)))
              (λ _. Hoare-bind _ _ (safely _ (step-Hoare k _)) (λ n.
                Hoare-given _ (λ w h. h.1)
                  (λ le.
                    Hoare-weaken _
                      (Hoare-strengthen _ (λ w h. (h.0.0, omega (arith, h.2))) (reserve-Hoare n))
                      (λ p w h. (n, h.0, le, h.1))
                      (λ e w h. Safe-map _ _ e w (λ q. (q.0, omega (arith, q.1, le))) h)))))))

    -- what follows the reservation, with the number of the call that gave the name
    pub Reserved-then :
        {A : Type 0} (target : StagedPath) {Q : A → World → Type 0} (m : M A)
        → ((n : ℕ)
            → target ≡ staged (env.uuid4 n)
            → k ≤ n
            → Hoare
                (On (Adds before (target ∷ new)) (n + 1))
                m
                Q
                (Safe (On (Adds before new) (n + 1))))
        → Hoare (Reserved before new k target) m Q (Safe (On (Adds before new) k))
    Reserved-then target m h = record {
      at = λ w r.
          (Hoare-weaken m (h r.0 r.1 r.2) (λ a w q. q)
              (λ e w q.
                Safe-map _ _ e w
                  (λ (x : On (Adds before new) (r.0 + 1) w). (x.0, omega (arith, x.1, r.2))) q)).at
            w r.3;
    }
