-- ===== src/Store/Files.antt =====
-- The file operations of `LocalArtifactStore`: `_check`, `_read`, the syncs and `_atomic_write`.
pub mod Laws
pub mod Atomic
pub mod Faultless
use hack_ef3da0e3_aib2bsaass.Base.{
  ℕ, ◌+◌, Bool, true, false, not, ◌&&◌, Option, none, some, List, [], ◌∷◌, if◌then◌else◌, is_some,
  Result, ok, err,
}
use hack_ef3da0e3_aib2bsaass.Base.Exec.{
  Exec, pure, raise, gets, modify, skip, ◌>>=◌, ◌>>◌, catch, finally,
}
use hack_ef3da0e3_aib2bsaass.Store.World.{
  Env, World, M, Choice, done, refused, half, unsafe, Raised, unsafe_path, os_error, file_not_found,
  artifact_integrity, Name, Files, write, remove, name_beq,
}

module _ ⦃env : Env⦄ where
  -- the system's answer to the next call
  unfoldable pub choose : M Choice
  choose w = (ok (w.os w.steps), record w { steps = w.steps + 1 })

  -- a call that reads, or makes durable what is there
  abbrev pub obey : Choice → M Unit
  obey done = skip
  obey unsafe = raise unsafe_path
  obey _ = raise os_error

  -- `_check`, `_folder`, `_sync_file`, `_make_directory`: no file of the folder changes.
  unfoldable pub touch : M Unit
  unfolding choose
  touch = choose >>= obey

  abbrev pub synced : Choice → M Unit
  synced done = skip
  synced _ = raise os_error

  -- `_sync_directory`, and a call on a temporary file
  unfoldable pub sync : M Unit
  unfolding choose
  sync = choose >>= synced

  abbrev perform_by : (World → World) → Choice → M Unit
  perform_by f done = modify f
  perform_by f half = modify f >> raise os_error
  perform_by f _ = raise os_error

  -- a call that changes the folder
  unfoldable pub perform : (Files → Files) → M Unit
  unfolding choose
  perform f = choose >>= perform_by (λ w. record w { files = f w.files })

  abbrev pub or_raise : {A : Type 0} → Raised → Option A → M A
  or_raise e none = raise e
  or_raise e (some a) = pure a

  -- `path.exists()`
  unfoldable pub exists : Name → M Bool
  exists name = gets (λ w. is_some (w.files name))

  -- `_read`
  unfoldable pub read_file : Name → M env.Bytes
  unfolding touch
  read_file name = do
    touch
    touch
    content ← gets (λ w. w.files name)
    or_raise file_not_found content

  -- the file holds these bytes already
  unfoldable pub require_same : Name → env.Bytes → M Unit
  unfolding read_file
  require_same name data_ = do
    old ← read_file name
    if env.bytes_eq.beq old data_ then skip else raise artifact_integrity

  -- `path.unlink(missing_ok=True)`
  unfoldable pub unlink : Name → M Unit
  unfolding perform
  unlink name = perform (remove name)

  -- `os.link(temporary, path)`, where another writer may have come first
  unfoldable pub link : Name → env.Bytes → M Unit
  unfolding exists require_same perform touch
  link name data_ = do
    present ← exists name
    if present then (require_same name data_ >> touch) else perform (write name data_)

  -- The new bytes are written beside the file, which is then linked or replaced. The temporary
  -- file is unlinked at last, whatever happens; it has no name in the folder.
  unfoldable pub write_new : Name → env.Bytes → Bool → M Unit
  unfolding touch sync link perform
  write_new name data_ immutable = do
    sync
    finally
        (do sync; touch; if immutable then link name data_ else perform (write name data_); sync)
        sync

  -- `_atomic_write`
  unfoldable pub atomic_write : Name → env.Bytes → Bool → M Unit
  unfolding touch sync exists require_same write_new
  atomic_write name data_ immutable = do
    touch
    present ← exists name
    if immutable && present
        then (do require_same name data_; touch; sync)
        else write_new name data_ immutable

  abbrev moved_by : (World → World) → Choice → M Unit
  moved_by f done = modify f
  moved_by f _ = raise os_error

  -- `os.rename` of the whole folder, which is done or not done
  unfoldable pub rename_folder : (World → World) → M Unit
  unfolding choose
  rename_folder f = choose >>= moved_by f
