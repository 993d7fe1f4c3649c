-- ===== src/Store/Files/Faultless.antt =====
-- On a system that does every call, a write is done.
use hack_ef3da0e3_aib2bsaass.Base.{ℕ, ◌+◌, ◌≡◌, refl, ap, Bool, true, false, ◌&&◌, is_some, arith}
use hack_ef3da0e3_aib2bsaass.Base.Exec.{◌>>=◌, gets, skip, raise, modify}
use hack_ef3da0e3_aib2bsaass.Base.Exec.Hoare.{
  Hoare, Post, Hoare-bind, Hoare-if, Hoare-weaken, Hoare-finally, Hoare-strengthen,
}
use hack_ef3da0e3_aib2bsaass.Store.World.{
  Env, World, Choice, done, refused, half, unsafe, Name, Files, write,
}
use hack_ef3da0e3_aib2bsaass.Store.Files.{
  choose, obey, synced, perform_by, touch, sync, perform, exists, link, write_new, atomic_write,
}

module _ ⦃env : Env⦄ where
  -- every call is done, and the folder is this one
  pub record IsFaultless (f : Files) (w : World) : Type 0 where
    pub calls_done : (k : ℕ) → w.os k ≡ done
    pub folder : w.files ≡ f

  obey-done :
      (f : Files) (c : Choice)
      → c ≡ done
      → (v : World) → IsFaultless f v
      → Post (λ u. IsFaultless f) (λ e w. ⊥) (obey c v)
  unfolding skip raise
  obey-done f done p v h = h
  obey-done f refused p v h = cc (p)
  obey-done f half p v h = cc (p)
  obey-done f unsafe p v h = cc (p)

  synced-done :
      (f : Files) (c : Choice)
      → c ≡ done
      → (v : World) → IsFaultless f v
      → Post (λ u. IsFaultless f) (λ e w. ⊥) (synced c v)
  unfolding skip raise
  synced-done f done p v h = h
  synced-done f refused p v h = cc (p)
  synced-done f half p v h = cc (p)
  synced-done f unsafe p v h = cc (p)

  perform_by-done :
      (f : Files) (g : Files → Files) (c : Choice)
      → c ≡ done
      → (v : World) → IsFaultless f v
      → Post
          (λ u. IsFaultless (g f))
          (λ e w. ⊥)
          (perform_by (λ w. record w { files = g w.files }) c v)
  unfolding modify raise ◌>>=◌
  perform_by-done f g done p v h = record { calls_done = h.calls_done; folder = ap g h.folder }
  perform_by-done f g refused p v h = cc (p)
  perform_by-done f g half p v h = cc (p)
  perform_by-done f g unsafe p v h = cc (p)

  next :
      (f : Files) (w : World) → IsFaultless f w → IsFaultless f (record w { steps = w.steps + 1 })
  next f w h = record { calls_done = h.calls_done; folder = h.folder }

  sync-IsFaultless : (f : Files) → Hoare (IsFaultless f) sync (λ u. IsFaultless f) (λ e w. ⊥)
  unfolding sync choose ◌>>=◌
  sync-IsFaultless f = record {
    at = λ w h. synced-done f (w.os w.steps) (h.calls_done w.steps) _ (next f w h);
  }

  module _ (f : Files) where
    pub touch-IsFaultless : Hoare (IsFaultless f) touch (λ u. IsFaultless f) (λ e w. ⊥)
    unfolding touch choose ◌>>=◌
    touch-IsFaultless = record {
      at = λ w h. obey-done f (w.os w.steps) (h.calls_done w.steps) _ (next f w h);
    }

    perform-IsFaultless :
        (g : Files → Files) → Hoare (IsFaultless f) (perform g) (λ u. IsFaultless (g f)) (λ e w. ⊥)
    unfolding perform choose ◌>>=◌
    perform-IsFaultless g = record {
      at = λ w h. perform_by-done f g (w.os w.steps) (h.calls_done w.steps) _ (next f w h);
    }

    pub exists-IsFaultless :
        (n : Name)
        → Hoare (IsFaultless f) (exists n) (λ b w. IsFaultless f w × (b ≡ is_some (f n))) (λ e w. ⊥)
    unfolding exists gets
    exists-IsFaultless n = record { at = λ w h. (h, ap (λ g. is_some (g n)) h.folder) }

    module _ (n : Name) (d : env.Bytes) (immutable : Bool)
        (free : (immutable && is_some (f n)) ≡ false) where
      link-IsFaultless :
          immutable ≡ true
          → Hoare (IsFaultless f) (link n d) (λ u. IsFaultless (write n d f)) (λ e w. ⊥)
      unfolding link
      link-IsFaultless i = Hoare-bind (exists n) _ (exists-IsFaultless n) λ present.
          Hoare-if present _ _ (λ there. record { at = λ w h. absurd (clash present there h.1) })
            (λ gone.
              Hoare-strengthen (perform (write n d)) (λ w h. h.0) (perform-IsFaultless (write n d)))
        where
          clash : (present : Bool) → present ≡ true → present ≡ is_some (f n) → ⊥
          clash present there same = ground (arith, there, same, free, i)

      write_new-IsFaultless :
          Hoare
            (IsFaultless f)
            (write_new n d immutable)
            (λ u. IsFaultless (write n d f))
            (λ e w. ⊥)
      unfolding write_new
      write_new-IsFaultless = Hoare-bind sync _ (sync-IsFaultless f) λ _.
          Hoare-finally _ sync
            (Hoare-bind sync _ (sync-IsFaultless f) λ _. Hoare-bind touch _ touch-IsFaultless λ _.
              Hoare-bind _ _
                (Hoare-if immutable (link n d) (perform (write n d)) link-IsFaultless
                  (λ mutable. perform-IsFaultless (write n d)))
                λ _. sync-IsFaultless (write n d f))
            (λ _. sync-IsFaultless (write n d f)) (record { at = λ w h. absurd h })

      pub atomic_write-IsFaultless :
          Hoare
            (IsFaultless f)
            (atomic_write n d immutable)
            (λ u. IsFaultless (write n d f))
            (λ e w. ⊥)
      unfolding atomic_write
      atomic_write-IsFaultless = Hoare-bind touch _ touch-IsFaultless λ _.
          Hoare-bind (exists n) _ (exists-IsFaultless n) λ present.
            Hoare-if (immutable && present) _ _
              (λ there. record { at = λ w h. absurd (clash present there h.1) })
              (λ gone.
                Hoare-strengthen (write_new n d immutable) (λ w h. h.0) write_new-IsFaultless)
        where
          clash : (present : Bool) → (immutable && present) ≡ true → present ≡ is_some (f n) → ⊥
          clash present there same = ground (arith, there, same, free)

  -- Where the system does every call, an atomic write returns, with the new bytes in the file and no
  -- other change, unless the write is immutable and the file was there.
  pub atomic_write-done :
      (n : Name) (d : env.Bytes) (immutable : Bool) (w : World)
      → ((k : ℕ) → w.os k ≡ done)
      → (immutable && is_some (w.files n)) ≡ false
      → Post (λ u v. v.files ≡ write n d w.files) (λ e v. ⊥) (atomic_write n d immutable w)
  atomic_write-done n d immutable w calls free =
      (Hoare-weaken (atomic_write n d immutable)
          (atomic_write-IsFaultless w.files n d immutable free) (λ u v h. h.folder) (λ e v h. h)).at
        w (record { calls_done = calls; folder = refl })
