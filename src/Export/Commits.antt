-- ===== src/Export/Commits.antt =====
-- An export never breaks the commit marker, and what it returns is a PDF.
use hack_ef3da0e3_aib2bsaass.Base.{
  ℕ, ◌≡◌, refl, Bool, true, false, not, Option, none, some, if◌then◌else◌, nat_eq,
}
use hack_ef3da0e3_aib2bsaass.Base.Exec.{raise, skip}
use hack_ef3da0e3_aib2bsaass.Base.Exec.Hoare.{
  Hoare, Keeps, Post, Hoare-bind, Hoare-pure, Hoare-raise, Hoare-if, Hoare-weaken, Hoare-strengthen,
  Hoare-given, Hoare-finally, Keeps-pure, Keeps-raise,
}
use hack_ef3da0e3_aib2bsaass.Model.Meeting.{MeetingRecord, is_approved}
use hack_ef3da0e3_aib2bsaass.Store.World.{
  Env, World, M, Raised, file_not_found, artifact_integrity, value_error,
}
use hack_ef3da0e3_aib2bsaass.Store.Files.Laws.{On, sync-Keeps}
use hack_ef3da0e3_aib2bsaass.Store.Records.Reading.{reading_rules, read_record-Keeps, now-Keeps}
use hack_ef3da0e3_aib2bsaass.Store.Deletion.Locks.{under_lifecycle_lock-Hoare}
use hack_ef3da0e3_aib2bsaass.Store.Cache.{pdf_path}
use hack_ef3da0e3_aib2bsaass.Store.Committed.{IsCommitted, Committed}
use hack_ef3da0e3_aib2bsaass.Store.Committed.Keeping.{aside-Keeps, update_meeting-Keeps}
use hack_ef3da0e3_aib2bsaass.Review.Service.{read_reviewed_results_unlocked}
use hack_ef3da0e3_aib2bsaass.Review.Service.Commits.{
  read_current_locked-Keeps, delete_pdf_cache-Keeps, pdf-IsAside, pdf_marker-IsAside,
}
use hack_ef3da0e3_aib2bsaass.Export.{
  Printer, valid_pdf, without_marker, read_pdf_cache, write_pdf_cache, clear_exporting_stage,
  not_cached, cached_pdf, draw, draw_anew, from_cache, build_export_unlocked, prepare_export,
  at_stage,
}

module _ ⦃env : Env⦄ (printer : Printer) where
  ruleset export_rules = (
    reading_rules, aside-Keeps, pdf-IsAside, pdf_marker-IsAside, update_meeting-Keeps,
    read_record-Keeps, now-Keeps, delete_pdf_cache-Keeps,
  )

  pdf_path-Keeps : (o k : ℕ) → Keeps (On Committed) (pdf_path o k)
  unfolding pdf_path
  pdf_path-Keeps o k = search export_rules depth 12

  without_marker-Keeps : (e : Raised) → Keeps (On Committed) (without_marker printer e)
  without_marker-Keeps file_not_found = Keeps-raise artifact_integrity
  without_marker-Keeps e = Keeps-raise e

  read_pdf_cache-Keeps : (o k n : ℕ) → Keeps (On Committed) (read_pdf_cache printer o k n)
  unfolding read_pdf_cache
  read_pdf_cache-Keeps o k n = search (export_rules, pdf_path-Keeps, without_marker-Keeps) depth 16

  write_pdf_cache-Keeps :
      (o k n : ℕ) (d : env.Bytes) → Keeps (On Committed) (write_pdf_cache printer o k n d)
  unfolding write_pdf_cache
  write_pdf_cache-Keeps o k n d = search (export_rules, pdf_path-Keeps) depth 16

  clear_exporting_stage-Keeps : (o k : ℕ) → Keeps (On Committed) (clear_exporting_stage printer o k)
  unfolding clear_exporting_stage
  clear_exporting_stage-Keeps o k = search export_rules depth 16

  not_cached-Keeps : (o k n : ℕ) (e : Raised) → Keeps (On Committed) (not_cached printer o k n e)
  not_cached-Keeps o k n file_not_found = Keeps-pure none
  not_cached-Keeps o k n artifact_integrity = search export_rules
  not_cached-Keeps o k n e = Keeps-raise e

  cached_pdf-Keeps : (o k n : ℕ) → Keeps (On Committed) (cached_pdf printer o k n)
  unfolding cached_pdf
  cached_pdf-Keeps o k n = search (export_rules, read_pdf_cache-Keeps, not_cached-Keeps) depth 12

  read_reviewed_results_unlocked-Keeps :
      (o k : ℕ) → Keeps (On Committed) (read_reviewed_results_unlocked o k)
  unfolding read_reviewed_results_unlocked
  read_reviewed_results_unlocked-Keeps o k =
      search (export_rules, read_current_locked-Keeps) depth 12

  -- a committed folder, and a valid PDF in hand
  abbrev Drawn : env.Bytes → World → Type 0
  Drawn d w = On Committed w × (valid_pdf printer d ≡ true)

  framed :
      {A : Type 0} (X : Type 0) (m : M A)
      → Keeps (On Committed) m
      → Hoare (λ w. On Committed w × X) m (λ a w. On Committed w × X) (λ e. On Committed)
  framed X m h =
      Hoare-given m (λ w p. p.1)
        (λ x. Hoare-weaken m (Hoare-strengthen m (λ w p. p.0) h) (λ a w q. (q, x)) (λ e w q. q))

  valid_or_raise :
      (b : Bool)
      → Hoare
          (On Committed)
          (if not b then raise value_error else skip)
          (λ u w. On Committed w × (b ≡ true))
          (λ e. On Committed)
  unfolding skip
  valid_or_raise true = record { at = λ w h. (h, refl) }
  valid_or_raise false = Hoare-raise value_error (λ w h. h)

  draw-Hoare :
      (o k : ℕ) (r : MeetingRecord)
      → Hoare (On Committed) (draw printer o k r) Drawn (λ e. On Committed)
  unfolding draw
  draw-Hoare o k r = Hoare-bind _ _ (now-Keeps Committed) (λ t.
      Hoare-bind _ _ (update_meeting-Keeps o (at_stage printer _ t r)) (λ m.
        Hoare-bind _ _ (read_reviewed_results_unlocked-Keeps o k) (λ results.
          Hoare-bind {Q = λ u. On Committed} _ _ (search export_rules) (λ u.
            Hoare-bind {Q = λ d. On Committed} _ _ (search export_rules) (λ content.
              Hoare-bind _ _ (valid_or_raise (valid_pdf printer content)) (λ v.
                Hoare-bind _ _
                  (framed (valid_pdf printer content ≡ true) _
                    (write_pdf_cache-Keeps o k r.meeting.revision content))
                  (λ x. Hoare-pure content (λ w h. h))))))))

  draw_anew-Hoare :
      (o k : ℕ) (r : MeetingRecord)
      → Hoare (On Committed) (draw_anew printer o k r) Drawn (λ e. On Committed)
  unfolding draw_anew
  draw_anew-Hoare o k r =
      Hoare-finally (draw printer o k r) (clear_exporting_stage printer o k) (draw-Hoare o k r)
        (λ d. framed (valid_pdf printer d ≡ true) _ (clear_exporting_stage-Keeps o k))
        (clear_exporting_stage-Keeps o k)

  from_cache-Hoare :
      (o k : ℕ) (r : MeetingRecord) (cached : Option env.Bytes)
      → Hoare (On Committed) (from_cache printer o k r cached) Drawn (λ e. On Committed)
  from_cache-Hoare o k r none = draw_anew-Hoare o k r
  from_cache-Hoare o k r (some d) =
      Hoare-if (valid_pdf printer d) _ _
        (λ good.
          Hoare-bind _ _ (clear_exporting_stage-Keeps o k) (λ u. Hoare-pure d (λ w h. (h, good))))
        (λ bad.
          Hoare-bind _ _ (delete_pdf_cache-Keeps o k r.meeting.revision)
            (λ u. draw_anew-Hoare o k r))

  build_export_unlocked-Hoare :
      (o k : ℕ) → Hoare (On Committed) (build_export_unlocked printer o k) Drawn (λ e. On Committed)
  unfolding build_export_unlocked
  build_export_unlocked-Hoare o k = Hoare-bind _ _ (read_record-Keeps Committed o k) (λ r.
      Hoare-if (not (is_approved r.meeting.status)) _ _ (λ refused. Hoare-raise _ (λ w h. h))
        (λ approved.
          Hoare-bind _ _ (cached_pdf-Keeps o k r.meeting.revision) (from_cache-Hoare o k r)))

  -- From a committed folder, an export ends in a committed folder, whether it returns or raises,
  -- whatever the system, the clock and the renderer answer, and what it returns, from the cache or
  -- drawn anew, is a PDF by its first and last bytes, in which the PDF library finds a page.
  pub prepare_export_lem :
      (o k : ℕ) (w : World)
      → IsCommitted w.files
      → Post
          (λ d w'. IsCommitted w'.files × (valid_pdf printer d ≡ true))
          (λ e w'. IsCommitted w'.files)
          (prepare_export printer o k w)
  unfolding prepare_export
  prepare_export_lem o k w h =
      (under_lifecycle_lock-Hoare Committed Drawn o k (build_export_unlocked printer o k)
          (build_export_unlocked-Hoare o k)
          (λ d. framed (valid_pdf printer d ≡ true) _ (sync-Keeps Committed))).at
        w h
