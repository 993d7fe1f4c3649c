-- ===== src/Coordinator/Desk/Laws.antt =====
-- What the steps on the record in the memory keep and establish.
use hack_ef3da0e3_aib2bsaass.Base.{◌≡◌, refl, some, Result, ok, err}
use hack_ef3da0e3_aib2bsaass.Base.Exec.{gets, modify, skip}
use hack_ef3da0e3_aib2bsaass.Base.Exec.Hoare.{Hoare, Hoare-weaken, Hoare-strengthen, Keeps, Post}
use hack_ef3da0e3_aib2bsaass.Model.Meeting.{MeetingRecord}
use hack_ef3da0e3_aib2bsaass.Store.World.{Env, World, Files, live, meeting_json, M, Raised}
use hack_ef3da0e3_aib2bsaass.Store.Files.Laws.{On}
use hack_ef3da0e3_aib2bsaass.Store.Records.{parse_record}
use hack_ef3da0e3_aib2bsaass.Coordinator.Sound.{Sound}
use hack_ef3da0e3_aib2bsaass.Coordinator.Desk.{Desk, lift, current, change}

module _ ⦃env : Env⦄ where
  abbrev pub Safe : Desk → Type 0
  Safe d = On Sound d.world

  -- meeting.json holds a valid record with `X`
  abbrev pub Kept : (MeetingRecord → Type 0) → Files → Type 0
  Kept X f =
      (r : MeetingRecord) × (f (live meeting_json) ≡ some (env.encode_record r))
      × (parse_record (env.encode_record r) ≡ some r)
      × X r

  -- A call of the store or of the client leaves the record in the memory.
  pub lift-Hoare :
      {A : Type 0} {P : World → Type 0} {Q : A → World → Type 0} {R : Raised → World → Type 0}
      (X : MeetingRecord → Type 0) (m : M A)
      → Hoare P m Q R
      → Hoare
          (λ d. P d.world × X d.paper)
          (lift m)
          (λ a d. Q a d.world × X d.paper)
          (λ e d. R e d.world)
  unfolding lift
  lift-Hoare {A} {P} {Q} {R} X m h = record { at = λ d p. go d (m d.world) (h.at d.world p.0) p.1 }
    where
      go :
          (d : Desk) (o : Result Raised A × World)
          → Post Q R o
          → X d.paper
          → Post
              (λ a d. Q a d.world × X d.paper)
              (λ e d. R e d.world)
              (o.0, record d { world = o.1 })
      go d (ok a, w) p x = (p, x)
      go d (err e, w) p x = p

  pub lifted : {A : Type 0} (m : M A) → Keeps (On Sound) m → Keeps Safe (lift m)
  lifted m h =
      Hoare-strengthen (lift m) (λ d p. (p, tt))
        (Hoare-weaken (lift m) (lift-Hoare (λ r. Unit) m h) (λ a d p. p.0) (λ e d p. p))

  pub current-Keeps : Keeps Safe current
  unfolding current gets
  current-Keeps = record { at = λ d p. p }

  pub change-Keeps : (f : MeetingRecord → MeetingRecord) → Keeps Safe (change f)
  unfolding change modify
  change-Keeps f = record { at = λ d p. p }

  -- the record in the memory
  pub current-Hoare :
      {P : Desk → Type 0} {R : Raised → Desk → Type 0}
      → Hoare P current (λ r d. P d × (d.paper ≡ r)) R
  unfolding current gets
  current-Hoare = record { at = λ d p. (p, refl) }

  pub skip-Hoare :
      {P Q R : Desk → Type 0} → ((d : Desk) → P d → Q d) → Hoare P skip (λ u. Q) (λ (e : Raised). R)
  unfolding skip
  skip-Hoare h = record { at = λ d p. h d p }

  pub change-Hoare :
      (f : MeetingRecord → MeetingRecord) (X Y : MeetingRecord → Type 0)
      → ((r : MeetingRecord) → X r → Y (f r))
      → Hoare (λ d. Safe d × X d.paper) (change f) (λ u d. Safe d × Y d.paper) (λ e. Safe)
  unfolding change modify
  change-Hoare f X Y h = record { at = λ d p. (p.0, h d.paper p.1) }
