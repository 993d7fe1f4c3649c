-- ===== src/Coordinator/Desk.antt =====
-- The step works on one record object, which it changes in place: a handler of an exception sees
-- the changes that were made before the exception. So the record is a part of the state.
pub mod Laws
use hack_ef3da0e3_aib2bsaass.Base.Exec.{Exec, gets, modify}
use hack_ef3da0e3_aib2bsaass.Model.Meeting.{MeetingRecord}
use hack_ef3da0e3_aib2bsaass.Store.World.{Env, World, M, Raised}

module _ ⦃env : Env⦄ where
  pub record Desk : Type 0 where
    pub world : World
    pub paper : MeetingRecord

  abbrev pub D : Type 0 → Type 0
  D A = Exec Desk Raised A

  -- a call of the store or of the GPU client
  unfoldable pub lift : {A : Type 0} → M A → D A
  lift m d = let (r, w) = m d.world in (r, record d { world = w })

  unfoldable pub current : D MeetingRecord
  current = gets (λ d. d.paper)

  unfoldable pub change : (MeetingRecord → MeetingRecord) → D Unit
  change f = modify (λ d. record d { paper = f d.paper })
