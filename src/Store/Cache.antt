-- ===== src/Store/Cache.antt =====
-- `pdf_path` and `delete_pdf_cache`: the cached PDF of one revision.
use hack_ef3da0e3_aib2bsaass.Base.{ℕ}
use hack_ef3da0e3_aib2bsaass.Base.Exec.{◌>>◌}
use hack_ef3da0e3_aib2bsaass.Store.World.{Env, M, pdf, pdf_marker}
use hack_ef3da0e3_aib2bsaass.Store.Files.{touch, unlink, sync}
use hack_ef3da0e3_aib2bsaass.Store.Records.{read_record}

module _ ⦃env : Env⦄ where
  -- A revision is a natural number, so the test of its type and sign has nothing to refuse.
  unfoldable pub pdf_path : ℕ → ℕ → M Unit
  pdf_path owner_id meeting_id = do read_record owner_id meeting_id; touch; touch

  unfoldable pub delete_pdf_cache : ℕ → ℕ → ℕ → M Unit
  delete_pdf_cache owner_id meeting_id revision = do
    pdf_path owner_id meeting_id
    unlink (pdf revision)
    unlink (pdf_marker revision)
    sync
