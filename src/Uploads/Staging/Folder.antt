-- ===== src/Uploads/Staging/Folder.antt =====
-- The staging folder `uploads`: `temporary_upload_path` and `_sweep_stale_uploads` of
-- services/artifact_store.py, and the calls of services/uploads.py on its files.
pub mod Laws
pub mod Reserve
use hack_ef3da0e3_aib2bsaass.Base.{
  ℕ, ◌+◌, ◌-◌, ◌*◌, Bool, true, false, not, ◌&&◌, ◌||◌, Option, none, some, List, [], ◌∷◌, map, leb,
  nat_beq, if◌then◌else◌, is_some, take, Result, ok, err,
}
use hack_ef3da0e3_aib2bsaass.Base.Exec.{Exec, pure, raise, gets, modify, skip, ◌>>=◌, ◌>>◌, catch}
use hack_ef3da0e3_aib2bsaass.Store.World.{Choice}
use hack_ef3da0e3_aib2bsaass.Uploads.Media.{Raised, os_error, unsafe_path, ProbeResult}
use hack_ef3da0e3_aib2bsaass.Uploads.Wave.{Wave}

-- What the code calls: the system, which does or refuses the call at each step or finds the path unsafe, `uuid4`, the clock,
-- the package `wave`, and the programs `ffprobe` and `ffmpeg`. A program that is missing or runs out
-- of time gives no exit code. `ffprobe` gives the parsed report too, where it is one; `ffmpeg` gives
-- what stands in its target afterwards.
pub record Env : Type 0 where
  pub os : ℕ → Choice
  pub uuid4 : ℕ → ℕ
  pub time : ℕ → ℕ
  pub copied : ℕ → ℕ
  pub open_wave : List ℕ → Option Wave
  pub ffprobe : ℕ → Option (List ℕ) → Option (ℕ × Option ProbeResult)
  pub ffmpeg : ℕ → Option (List ℕ) → Option (List ℕ) × Option ℕ

-- A file of the folder: `staged n` is the UUID n with the suffix `.upload`.
pub data StagedPath : Type 0 where
  staged foreign : ℕ → StagedPath

abbrev pub staged_beq : StagedPath → StagedPath → Bool
staged_beq (staged a) (staged b) = nat_beq a b
staged_beq (foreign a) (foreign b) = nat_beq a b
staged_beq _ _ = false

pub record File : Type 0 where
  pub content : List ℕ
  pub is_regular : Bool
  pub modified : ℕ

-- The folder, the number of calls so far, and the local variable `normalized_path` of
-- `stage_and_validate`, which its handler reads.
pub record World : Type 0 where
  pub files : List (StagedPath × File)
  pub steps : ℕ
  pub normalized_path : Option StagedPath

abbrev pub M : Type 0 → Type 0
M A = Exec World Raised A

abbrev pub lookup : StagedPath → List (StagedPath × File) → Option File
lookup p [] = none
lookup p ((q, f) ∷ fs) = if staged_beq p q then some f else lookup p fs

abbrev pub remove : StagedPath → List (StagedPath × File) → List (StagedPath × File)
remove p [] = []
remove p ((q, f) ∷ fs) = let rest = remove p fs in if staged_beq p q then rest else (q, f) ∷ rest

abbrev pub put : StagedPath → File → List (StagedPath × File) → List (StagedPath × File)
put p f fs = (p, f) ∷ remove p fs

abbrev pub names : List (StagedPath × File) → List StagedPath
names = map (λ (e : StagedPath × File). e.0)

abbrev pub content_of : Option File → Option (List ℕ)
content_of none = none
content_of (some f) = some f.content

-- the bytes of a file, where it is there
abbrev pub content : StagedPath → World → Option (List ℕ)
content p w = content_of (lookup p w.files)

module _ ⦃env : Env⦄ where
  -- the number of the next call
  unfoldable pub step : M ℕ
  step w = (ok w.steps, record w { steps = w.steps + 1 })

  abbrev obeyed : Choice → M Unit
  obeyed Choice.done = skip
  obeyed _ = raise os_error

  abbrev checked : Choice → M Unit
  checked Choice.done = skip
  checked Choice.unsafe = raise unsafe_path
  checked _ = raise os_error

  -- a call that changes no file of the folder
  unfoldable pub call : M Unit
  unfolding step
  call = step >>= λ n. obeyed (env.os n)

  -- `_check` of the store
  unfoldable pub check : M Unit
  unfolding step
  check = step >>= λ n. checked (env.os n)

  -- a call that changes the files, or is refused
  unfoldable pub perform : (List (StagedPath × File) → List (StagedPath × File)) → M Unit
  unfolding call
  perform f = call >> modify (λ w. record w { files = f w.files })

  -- `path.unlink(missing_ok=True)`
  unfoldable pub unlink : StagedPath → M Unit
  unfolding perform
  unlink p = perform (remove p)

  -- `path.unlink()`
  unfoldable pub unlink_existing : StagedPath → M Unit
  unfolding unlink
  unlink_existing p = do
    file ← gets (λ w. lookup p w.files)
    if is_some file then unlink p else raise os_error

  abbrev pub is_stale : ℕ → File → Bool
  is_stale cutoff f = f.is_regular && not (leb cutoff f.modified)

  abbrev pub unlink_stale : ℕ → StagedPath → Option File → M Bool
  unlink_stale cutoff p none = raise os_error
  unlink_stale cutoff p (some f) =
      if is_stale cutoff f then (unlink_existing p >> pure true) else pure false

  abbrev pub suppressed : {A : Type 0} → A → Raised → M A
  suppressed a os_error = pure a
  suppressed a e = raise e

  -- a round of `_sweep_stale_uploads`, which tells whether the file was removed
  unfoldable pub sweep_entry : ℕ → StagedPath → M Bool
  unfolding call unlink_existing
  sweep_entry cutoff (foreign n) = pure false
  sweep_entry cutoff (staged n) =
      catch
        (do call; file ← gets (λ w. lookup (staged n) w.files); unlink_stale cutoff (staged n) file)
        (suppressed false)

  unfoldable pub sweep_entries : ℕ → List StagedPath → Bool → M Bool
  unfolding sweep_entry
  sweep_entries cutoff [] removed = pure removed
  sweep_entries cutoff (p ∷ ps) removed =
      sweep_entry cutoff p >>= λ now. sweep_entries cutoff ps (removed || now)

  -- `_sweep_stale_uploads`
  unfoldable pub sweep_stale_uploads : M Unit
  unfolding step call sweep_entries
  sweep_stale_uploads = do
    n ← step
    call
    entries ← gets (λ w. names w.files)
    removed ← sweep_entries (env.time n - 24 * 60 * 60) entries false
    if removed then catch call (suppressed tt) else skip

  abbrev pub create : StagedPath → ℕ → Bool → M Unit
  create p now true = raise os_error
  create p now false = perform (put p (record { content = []; is_regular = true; modified = now }))

  -- `temporary_upload_path`, where the open call refuses a name that is taken
  unfoldable pub temporary_upload_path : M StagedPath
  unfolding step call check perform sweep_stale_uploads
  temporary_upload_path = do
    check
    check
    call
    sweep_stale_uploads
    n ← step
    check
    let path = staged (env.uuid4 n)
    taken ← gets (λ w. is_some (lookup path w.files))
    create path (env.time n) taken
    call
    pure path
