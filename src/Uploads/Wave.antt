-- ===== src/Uploads/Wave.antt =====
-- `_validate_wav` of services/uploads.py. The package `wave` is a parameter: what it finds in the
-- file's header, and how many bytes a read at a position gives.
pub mod Reads
use hack_ef3da0e3_aib2bsaass.Base.{
  ℕ, zero, suc, ◌+◌, ◌-◌, ◌*◌, ◌/◌, ◌≤◌, ◌<◌, ◌≡◌, refl, arith, Bool, true, false, ◌||◌, Option,
  none, some, leb, ltb, nat_beq, if◌then◌else◌, Result, ok, err,
}
use hack_ef3da0e3_aib2bsaass.Uploads.Media.{Raised, unsupported, zero_division, stuck}

-- An open `wave.Wave_read`. `readframes position frames` is the length of what `readframes(frames)`
-- returns when `position` frames are read, or `none` where it raises `EOFError` or `wave.Error`.
pub record Wave : Type 0 where
  pub getnchannels : ℕ
  pub getsampwidth : ℕ
  pub getframerate : ℕ
  pub getnframes : ℕ
  pub readframes : ℕ → ℕ → Option ℕ

abbrev pub min : ℕ → ℕ → ℕ
min a b = if leb a b then a else b

abbrev pub max : ℕ → ℕ → ℕ
max a b = if leb a b then b else a

abbrev pub frame_size : Wave → ℕ
frame_size w = w.getnchannels * w.getsampwidth

abbrev pub frames_per_chunk : Wave → ℕ
frames_per_chunk w = max 1 (65536 / frame_size w)

-- what a round of the loop makes of the bytes that were read
abbrev pub chunk_read : ℕ → Option ℕ → Result Raised (Unit {0}) → Result Raised (Unit {0})
chunk_read wanted none rest = err unsupported
chunk_read wanted (some got) rest = if nat_beq got wanted then rest else err unsupported

-- `while remaining`: `fuel` rounds at most
unfoldable pub read_chunks : ℕ → Wave → ℕ → ℕ → Result Raised (Unit {0})
read_chunks zero w position remaining = err stuck
read_chunks (suc fuel) w position remaining =
    let frames = min remaining (frames_per_chunk w) in
    let rest = read_chunks fuel w (position + frames) (remaining - frames) in
    if nat_beq remaining 0
    then ok tt
    else chunk_read (frames * frame_size w) (w.readframes position frames) rest

-- `_validate_wav`, on what `wave.open` gives: `none` where it raises `EOFError` or `wave.Error`
unfoldable pub validate_wav : Option Wave → Result Raised (Unit {0})
unfolding read_chunks
validate_wav none = err unsupported
validate_wav (some w) =
    if ltb w.getnchannels 1 || ltb w.getframerate 1 || ltb w.getnframes 1
    then err unsupported
    else if nat_beq (frame_size w) 0
    then err zero_division
    else read_chunks (w.getnframes + 1) w 0 w.getnframes
