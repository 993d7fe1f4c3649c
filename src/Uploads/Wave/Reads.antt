-- ===== src/Uploads/Wave/Reads.antt =====
-- Which files `_validate_wav` accepts, and that its loop ends.
use hack_ef3da0e3_aib2bsaass.Base.{
  ℕ, zero, suc, ◌+◌, ◌-◌, ◌*◌, ◌≤◌, ◌<◌, ◌≡◌, ◌≢◌, ◌↔◌, ap, ◌∙◌, arith, Option, none, some, leb,
  nat_beq, Bool-cases, inl, inr, if◌then◌else◌, Result, ok, err,
}
use hack_ef3da0e3_aib2bsaass.Uploads.Media.{Raised, unsupported, stuck}
use hack_ef3da0e3_aib2bsaass.Uploads.Wave.{
  Wave, min, frame_size, frames_per_chunk, chunk_read, read_chunks, validate_wav,
}

-- what `readframes` documents: all the frames asked for, or those that are left of `size` bytes
pub record IsReader (w : Wave) (size : ℕ) : Type 0 where
  pub reads :
      (position frames : ℕ)
      → w.readframes position frames
        ≡ some (min (frames * frame_size w) (size - position * frame_size w))

-- one round takes a frame at least, and no more than are left
abbrev frames_of : Wave → ℕ → ℕ
frames_of w remaining = min remaining (frames_per_chunk w)

frames_of_bounds :
    (w : Wave) (remaining : ℕ)
    → 0 < remaining
    → (0 < frames_of w remaining) × (frames_of w remaining ≤ remaining)
frames_of_bounds w remaining h = (ground arith, ground arith)

-- the bytes up to the end, split after the frames of a round
split_frames :
    (position remaining frames size : ℕ)
    → frames ≤ remaining
    → (position + remaining) * size ≡ position * size + frames * size + (remaining - frames) * size
split_frames position remaining frames size h =
    ap (λ (r : ℕ). (position + r) * size) {y = frames + (remaining - frames)} (omega (arith, h))
    ∙ omega arith

distribute : (p f r size : ℕ) → (p + f + r) * size ≡ p * size + f * size + r * size
distribute p f r size = omega arith

advance_bytes : (p f size total : ℕ) → p * size + f * size ≤ total → (p + f) * size ≤ total
advance_bytes p f size total h = omega (arith, h)

abbrev holds : ℕ → ℕ → Result Raised (Unit {0})
holds needed size = if leb needed size then ok tt else err unsupported

round_holds :
    (p f r size : ℕ) (rest : Result Raised (Unit {0}))
    → p ≤ size
    → (p + f ≤ size → rest ≡ holds (p + f + r) size)
    → chunk_read f (some (min f (size - p))) rest ≡ holds (p + f + r) size
round_holds p f r size rest le h = ground (arith, h)

read_chunks-IsReader :
    (fuel : ℕ) (w : Wave) (size position remaining : ℕ)
    → IsReader w size
    → remaining < fuel
    → position * frame_size w ≤ size
    → read_chunks fuel w position remaining ≡ holds ((position + remaining) * frame_size w) size
unfolding read_chunks
read_chunks-IsReader zero w size position remaining r lt le = absurd (omega (arith, lt))
read_chunks-IsReader (suc fuel) w size position remaining r lt le =
    elim (Bool-cases (nat_beq remaining 0)) [
      | inl over ↦
          let none_left : remaining ≡ 0 = ground arith in
          rw over (ground (arith, le, ap (λ (k : ℕ). (position + k) * frame_size w) none_left))
      | inr more ↦
          let some_left : 0 < remaining = ground arith in
          let frames = frames_of w remaining in
          let split =
            split_frames position remaining frames (frame_size w)
              (frames_of_bounds w remaining some_left).1 in
          rw (more, r.reads position frames, split)
            (round_holds (position * frame_size w) (frames * frame_size w)
              ((remaining - frames) * frame_size w) size _ le
              (λ fits.
                read_chunks-IsReader fuel w size (position + frames) (remaining - frames) r
                  (omega (arith, lt, (frames_of_bounds w remaining some_left).0))
                  (advance_bytes position frames (frame_size w) size fits)
                ∙ ap (λ (k : ℕ). holds k size)
                    (distribute position frames (remaining - frames) (frame_size w))))
    ]

-- The loop ends, whatever the reads give.
read_chunks_stuck :
    (fuel : ℕ) (w : Wave) (position remaining : ℕ)
    → remaining < fuel
    → read_chunks fuel w position remaining ≢ err stuck
unfolding read_chunks
read_chunks_stuck zero w position remaining lt e = absurd (omega (arith, lt))
read_chunks_stuck (suc fuel) w position remaining lt e = ground (
  arith,
  frames_of_bounds w remaining,
  read_chunks_stuck fuel w (position + frames_of w remaining) (remaining - frames_of w remaining),
)

-- Where `readframes` reads as documented, `_validate_wav` accepts a file exactly if its header names
-- a channel, a rate and a frame at least and a frame size above zero, and the frames that it names
-- are all there.
pub validate_wav_iff :
    (w : Wave) (size : ℕ)
    → IsReader w size
    → (validate_wav (some w) ≡ ok tt) ↔ (
        (0 < w.getnchannels)
        × (0 < w.getframerate)
        × (0 < w.getnframes)
        × (0 < frame_size w)
        × (w.getnframes * frame_size w ≤ size))
unfolding validate_wav
validate_wav_iff w size r =
    let run =
      read_chunks-IsReader (w.getnframes + 1) w size 0 w.getnframes r (omega arith) (omega arith) in
    ground (arith, run)

-- The loop of `_validate_wav` ends on every file, whatever a read gives.
pub validate_wav-stuck : (o : Option Wave) → validate_wav o ≢ err stuck
unfolding validate_wav
validate_wav-stuck none e = cc
validate_wav-stuck (some w) e =
    ground (arith, read_chunks_stuck (w.getnframes + 1) w 0 w.getnframes)
