-- ===== src/Export.antt =====
-- The export of an approved meeting as PDF: `_build_export_unlocked` and the functions that it calls
-- in api/routes/meetings.py, with the PDF cache of services/artifact_store.py. The caller holds the
-- lifecycle lock until the answer is sent.
pub mod Commits
pub mod Cache
use hack_ef3da0e3_aib2bsaass.Base.{
  ℕ, Bool, true, false, not, ◌&&◌, ◌||◌, Option, none, some, List, [], ◌∷◌, ◌++◌, if◌then◌else◌,
  nat_eq, list_eq, ◌==◌, ltb, take, length,
}
use mathlib.Core.List.{reverse}
use hack_ef3da0e3_aib2bsaass.Base.Exec.{Exec, pure, raise, skip, ◌>>=◌, ◌>>◌, catch, finally}
use hack_ef3da0e3_aib2bsaass.Model.Text.{Text, codes}
use hack_ef3da0e3_aib2bsaass.Model.Transcript.{TranscriptV1}
use hack_ef3da0e3_aib2bsaass.Model.Insights.{InsightsV1}
use hack_ef3da0e3_aib2bsaass.Model.Meeting.{
  Meeting, MeetingRecord, MeetingStage, is_approved, is_exporting,
}
use hack_ef3da0e3_aib2bsaass.Store.World.{
  Env, M, Raised, ReviewCode, review_conflict, file_not_found, artifact_integrity, value_error, pdf,
  pdf_marker,
}
use hack_ef3da0e3_aib2bsaass.Store.Files.{read_file, atomic_write, or_raise}
use hack_ef3da0e3_aib2bsaass.Store.Records.{now, read_record}
use hack_ef3da0e3_aib2bsaass.Store.Render.{decimal}
use hack_ef3da0e3_aib2bsaass.Store.Cache.{pdf_path, delete_pdf_cache}
use hack_ef3da0e3_aib2bsaass.Store.Updates.{update_meeting}
use hack_ef3da0e3_aib2bsaass.Store.Deletion.{under_lifecycle_lock}
use hack_ef3da0e3_aib2bsaass.Uploads.Parser.{strip_right}
use hack_ef3da0e3_aib2bsaass.Review.Service.{read_reviewed_results_unlocked}

module _ ⦃env : Env⦄ where
  -- The renderer of services/pdf_export.py, which gives no bytes where it raises, the bytes one by
  -- one, the number of pages that `PdfReader` finds, where it does not raise, and `str` of a UUID.
  pub record Printer : Type 0 where
    pub render_pdf : Meeting → TranscriptV1 → InsightsV1 → Option env.Bytes
    pub octets : env.Bytes → List ℕ
    pub pages : env.Bytes → Option ℕ
    pub uuid_text : ℕ → Text

module _ ⦃env : Env⦄ (printer : Printer) where
  abbrev has_page : Option ℕ → Bool
  has_page none = false
  has_page (some n) = ltb 0 n

  abbrev starts_with : List ℕ → List ℕ → Bool
  starts_with s prefix = take (length prefix) s == prefix

  -- `_valid_pdf`
  unfoldable pub valid_pdf : env.Bytes → Bool
  valid_pdf content =
      starts_with (printer.octets content) (codes "%PDF-")
      && starts_with (reverse (strip_right (printer.octets content))) (reverse (codes "%%EOF"))
      && has_page (printer.pages content)

  -- `_pdf_cache_marker`
  unfoldable pub pdf_cache_marker : ℕ → ℕ → ℕ → env.Bytes → env.Bytes
  pdf_cache_marker owner_id meeting_id revision content = env.utf8 (
      printer.uuid_text owner_id
      ++ (codes ":"
          ++ (printer.uuid_text meeting_id
              ++ (codes ":"
                  ++ (decimal revision ++ (codes ":" ++ (env.sha256 content ++ 10 ∷ [])))))))

  abbrev pub without_marker : Raised → M env.Bytes
  without_marker file_not_found = raise artifact_integrity
  without_marker e = raise e

  -- `read_pdf_cache`
  unfoldable pub read_pdf_cache : ℕ → ℕ → ℕ → M env.Bytes
  unfolding pdf_cache_marker
  read_pdf_cache owner_id meeting_id revision = do
    pdf_path owner_id meeting_id
    content ← read_file (pdf revision)
    marker ← catch (read_file (pdf_marker revision)) without_marker
    if env.bytes_eq.beq marker (pdf_cache_marker owner_id meeting_id revision content)
        then pure content
        else raise artifact_integrity

  -- `write_pdf_cache`
  unfoldable pub write_pdf_cache : ℕ → ℕ → ℕ → env.Bytes → M Unit
  unfolding pdf_cache_marker
  write_pdf_cache owner_id meeting_id revision content = do
    pdf_path owner_id meeting_id
    atomic_write (pdf revision) content true
    atomic_write (pdf_marker revision) (pdf_cache_marker owner_id meeting_id revision content) true

  abbrev pub at_stage : Option MeetingStage → ℕ → MeetingRecord → MeetingRecord
  at_stage stage t r = record r { meeting = record r.meeting { stage = stage; updated_at = t } }

  abbrev pub exporting_now : Option MeetingStage → Bool
  exporting_now none = false
  exporting_now (some s) = is_exporting s

  -- `_clear_exporting_stage`
  unfoldable pub clear_exporting_stage : ℕ → ℕ → M Unit
  clear_exporting_stage owner_id meeting_id = do
    r ← read_record owner_id meeting_id
    if exporting_now r.meeting.stage
        then (do t ← now; update_meeting owner_id (at_stage none t r); skip)
        else skip

  -- the handlers of `read_pdf_cache`
  abbrev pub not_cached : ℕ → ℕ → ℕ → Raised → M (Option env.Bytes)
  not_cached owner_id meeting_id revision file_not_found = pure none
  not_cached owner_id meeting_id revision artifact_integrity =
      delete_pdf_cache owner_id meeting_id revision >> pure none
  not_cached owner_id meeting_id revision e = raise e

  unfoldable pub cached_pdf : ℕ → ℕ → ℕ → M (Option env.Bytes)
  unfolding read_pdf_cache
  cached_pdf owner_id meeting_id revision =
      catch (do content ← read_pdf_cache owner_id meeting_id revision; pure (some content))
        (not_cached owner_id meeting_id revision)

  -- the body of the `try` that draws the PDF
  unfoldable pub draw : ℕ → ℕ → MeetingRecord → M env.Bytes
  unfolding write_pdf_cache
  draw owner_id meeting_id r = do
    t ← now
    update_meeting owner_id (at_stage (some MeetingStage.exporting) t r)
    (transcript, insights) ← read_reviewed_results_unlocked owner_id meeting_id
    if not (transcript.revision == r.meeting.revision)
          || not (insights.revision == r.meeting.revision)
        then raise artifact_integrity
        else skip
    content ← or_raise value_error (printer.render_pdf r.meeting transcript insights)
    if not (valid_pdf content) then raise value_error else skip
    write_pdf_cache owner_id meeting_id r.meeting.revision content
    pure content

  unfoldable pub draw_anew : ℕ → ℕ → MeetingRecord → M env.Bytes
  unfolding draw clear_exporting_stage
  draw_anew owner_id meeting_id r =
      finally (draw owner_id meeting_id r) (clear_exporting_stage owner_id meeting_id)

  abbrev pub from_cache : ℕ → ℕ → MeetingRecord → Option env.Bytes → M env.Bytes
  from_cache owner_id meeting_id r none = draw_anew owner_id meeting_id r
  from_cache owner_id meeting_id r (some content) =
      if valid_pdf content
      then (clear_exporting_stage owner_id meeting_id >> pure content)
      else (delete_pdf_cache owner_id meeting_id r.meeting.revision
          >> draw_anew owner_id meeting_id r)

  -- `_build_export_unlocked`
  unfoldable pub build_export_unlocked : ℕ → ℕ → M env.Bytes
  unfolding cached_pdf draw_anew clear_exporting_stage
  build_export_unlocked owner_id meeting_id = do
    r ← read_record owner_id meeting_id
    if not (is_approved r.meeting.status)
        then raise (review_conflict ReviewCode.review_required)
        else (do
          cached ← cached_pdf owner_id meeting_id r.meeting.revision
          from_cache owner_id meeting_id r cached)

  -- `_prepare_export`, with the lock released when the answer is sent or the build fails
  unfoldable pub prepare_export : ℕ → ℕ → M env.Bytes
  unfolding build_export_unlocked
  prepare_export owner_id meeting_id =
      under_lifecycle_lock owner_id meeting_id (build_export_unlocked owner_id meeting_id)
