-- ===== src/Store/Deletion.antt =====
-- `lifecycle_lock`, `coordinator_lock` and `delete_meeting`. The lock files have no name in the
-- folder; what runs under a lock runs alone, so a lock is the opening and closing of its file.
pub mod Locks
use hack_ef3da0e3_aib2bsaass.Base.{ℕ, none, List, [], ◌∷◌}
use hack_ef3da0e3_aib2bsaass.Base.Exec.{raise, skip, ◌>>◌, catch, finally}
use hack_ef3da0e3_aib2bsaass.Store.World.{
  Env, World, M, Files, Raised, file_not_found, os_error, meeting_not_found,
}
use hack_ef3da0e3_aib2bsaass.Store.Files.{touch, sync, rename_folder}
use hack_ef3da0e3_aib2bsaass.Store.Records.{or_missing, read_record}

module _ ⦃env : Env⦄ where
  -- `with store.lifecycle_lock(owner_id, meeting_id):`
  unfoldable pub under_lifecycle_lock : {A : Type 0} → ℕ → ℕ → M A → M A
  under_lifecycle_lock owner_id meeting_id body = do
    read_record owner_id meeting_id
    touch
    catch touch (or_missing meeting_not_found)
    finally body sync

  -- `with self.coordinator_lock(blocking=True):`
  unfoldable pub under_coordinator_lock : {A : Type 0} → M A → M A
  under_coordinator_lock body = do touch; touch; finally body sync

  -- `except OSError: handler`
  abbrev pub on_os_error : {A : Type 0} → M A → Raised → M A
  on_os_error m os_error = m
  on_os_error m file_not_found = m
  on_os_error m e = raise e

  -- The folder of the meeting is renamed to a tombstone.
  abbrev hide : World → World
  hide w = record w { files = λ n. none; tombstones = w.files ∷ w.tombstones }

  abbrev restore_from : List Files → World → World
  restore_from [] w = w
  restore_from (f ∷ rest) w = record w { files = f; tombstones = rest }

  abbrev restore : World → World
  restore w = restore_from w.tombstones w

  abbrev drop_tombstone_from : List Files → World → World
  drop_tombstone_from [] w = w
  drop_tombstone_from (f ∷ rest) w = record w { tombstones = rest }

  -- `shutil.rmtree(tombstone)`
  abbrev erase_tombstone : World → World
  erase_tombstone w = drop_tombstone_from w.tombstones w

  unfoldable pub delete_meeting : ℕ → ℕ → M Unit
  delete_meeting owner_id meeting_id = under_coordinator_lock do
    read_record owner_id meeting_id
    touch
    touch
    rename_folder hide
    catch sync (on_os_error (do rename_folder restore; sync; raise os_error))
    catch (rename_folder erase_tombstone >> sync) (on_os_error skip)
