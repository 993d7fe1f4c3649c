-- ===== src/Export/Cache.antt =====
-- On a system that does every call, a PDF that is put into the cache is found there.
use hack_ef3da0e3_aib2bsaass.Base.{ℕ, ◌≡◌, refl, ◌∙◌, true, false, none, some, is_some, ap}
use hack_ef3da0e3_aib2bsaass.Base.Exec.{◌>>◌}
use hack_ef3da0e3_aib2bsaass.Base.Exec.Hoare.{
  Hoare, Post, Hoare-bind, Hoare-catch, Hoare-if, Hoare-pure, Hoare-weaken,
}
use hack_ef3da0e3_aib2bsaass.Model.Meeting.{MeetingRecord}
use hack_ef3da0e3_aib2bsaass.Store.World.{
  Env, World, Files, done, pdf, pdf_marker, live, meeting_json, write, name_beq,
}
use hack_ef3da0e3_aib2bsaass.Store.Files.Faultless.{
  IsFaultless, touch-IsFaultless, atomic_write-IsFaultless,
}
use hack_ef3da0e3_aib2bsaass.Store.Records.Reads.{Stored}
use hack_ef3da0e3_aib2bsaass.Store.Publish.Faultless.{known, read_file-known, read_record-known}
use hack_ef3da0e3_aib2bsaass.Store.Committed.{write-other, write_self}
use hack_ef3da0e3_aib2bsaass.Store.Cache.{pdf_path}
use hack_ef3da0e3_aib2bsaass.Export.{
  Printer, pdf_cache_marker, without_marker, read_pdf_cache, write_pdf_cache,
}

module _ ⦃env : Env⦄ (printer : Printer) (o k : ℕ) (r : MeetingRecord) where
  pdf_path-IsFaultless :
      (f : Files)
      → Stored f o k r
      → Hoare (IsFaultless f) (pdf_path o k) (λ u. IsFaultless f) (λ e w. ⊥)
  unfolding pdf_path
  pdf_path-IsFaultless f s =
      Hoare-bind _ _ (Hoare-weaken _ (read_record-known f o k r s) (λ a w h. h.1) (λ e w h. h))
        (λ stored. Hoare-bind _ _ (touch-IsFaultless f) (λ u. touch-IsFaultless f))

  module _ (n : ℕ) (content : env.Bytes) (f : Files) (s : Stored f o k r)
      (no_pdf : f (pdf n) ≡ none) (no_marker : f (pdf_marker n) ≡ none) where
    abbrev marker : env.Bytes
    marker = pdf_cache_marker printer o k n content

    abbrev cached : Files
    cached = write (pdf_marker n) marker (write (pdf n) content f)

    no_marker_after : is_some (write (pdf n) content f (pdf_marker n)) ≡ false
    unfolding name_beq
    no_marker_after = ap is_some (write-other (pdf n) (pdf_marker n) content f refl ∙ no_marker)

    write_pdf_cache-IsFaultless :
        Hoare
          (IsFaultless f)
          (write_pdf_cache printer o k n content)
          (λ u. IsFaultless cached)
          (λ e w. ⊥)
    unfolding write_pdf_cache
    write_pdf_cache-IsFaultless = Hoare-bind _ _ (pdf_path-IsFaultless f s) (λ u.
        Hoare-bind _ _ (atomic_write-IsFaultless f (pdf n) content true (ap is_some no_pdf)) (λ u.
          atomic_write-IsFaultless (write (pdf n) content f) (pdf_marker n) marker true
            no_marker_after))

    cached-Stored : Stored cached o k r
    unfolding name_beq
    cached-Stored = record {
      bytes = s.bytes;
      at_name =
          write-other (pdf_marker n) (live meeting_json) marker (write (pdf n) content f) refl
          ∙ write-other (pdf n) (live meeting_json) content f refl
          ∙ s.at_name;
      parsed = s.parsed;
      owner = s.owner;
      meeting = s.meeting;
    }

    content_cached : cached (pdf n) ≡ some content
    unfolding name_beq
    content_cached =
        write-other (pdf_marker n) (pdf n) marker (write (pdf n) content f) refl
        ∙ write_self (pdf n) content f

    read_pdf_cache-IsFaultless :
        Hoare (IsFaultless cached) (read_pdf_cache printer o k n) (λ d w. d ≡ content) (λ e w. ⊥)
    unfolding read_pdf_cache
    read_pdf_cache-IsFaultless = Hoare-bind _ _ (pdf_path-IsFaultless cached cached-Stored) (λ u.
        Hoare-bind _ _ (read_file-known cached (pdf n) content content_cached) (
          known _ content (
            Hoare-bind _ _
              (Hoare-catch _ (without_marker printer)
                (read_file-known cached (pdf_marker n) marker
                  (write_self (pdf_marker n) marker (write (pdf n) content f)))
                (λ e. record { at = λ w h. absurd h }))
              (known _ marker (
                Hoare-if (env.bytes_eq.beq marker marker) _ _
                  (λ same. Hoare-pure content (λ w h. refl))
                  (λ other. absurd (cc ((env.bytes_eq.beq_iff marker marker).1 refl, other))))))))

  -- On a system that does every call and for a stored meeting of the owner: PDF bytes that are put
  -- into the cache for a revision that has neither a PDF nor a marker are what the cache then
  -- returns for that revision, and neither step raises.
  pub read_pdf_cache-write_pdf_cache :
      (n : ℕ) (content : env.Bytes) (w : World)
      → ((i : ℕ) → w.os i ≡ done)
      → Stored w.files o k r
      → w.files (pdf n) ≡ none
      → w.files (pdf_marker n) ≡ none
      → Post
          (λ d v. d ≡ content)
          (λ e v. ⊥)
          ((write_pdf_cache printer o k n content >> read_pdf_cache printer o k n) w)
  read_pdf_cache-write_pdf_cache n content w every s no_pdf no_marker =
      (Hoare-bind _ _ (write_pdf_cache-IsFaultless n content w.files s no_pdf no_marker)
          (λ u. read_pdf_cache-IsFaultless n content w.files s no_pdf no_marker)).at
        w (record { calls_done = every; folder = refl })
