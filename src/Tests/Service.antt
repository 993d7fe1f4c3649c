-- ===== src/Tests/Service.antt =====
-- Concrete sweeps and exports: the theorems about them, applied.
use hack_ef3da0e3_aib2bsaass.Base.{
  ℕ, ◌<◌, ◌+◌, ◌≡◌, refl, true, arith, none, some, [], ◌∷◌, if◌then◌else◌, any, set_of,
}
use hack_ef3da0e3_aib2bsaass.Base.Exec.Hoare.{Post}
use hack_ef3da0e3_aib2bsaass.Model.Text.{codes}
use hack_ef3da0e3_aib2bsaass.Model.Text.{non_empty_text, is_space, person_name, is_sha256}
use hack_ef3da0e3_aib2bsaass.Model.Meeting.{
  is_pending, pending, expired, MeetingRecord, MeetingStatus, valid_record, valid_meeting,
  valid_metadata, valid_source, valid_stage, valid_job_history,
}
use hack_ef3da0e3_aib2bsaass.Store.World.{
  live, meeting_json, pdf, pdf_marker, name_beq, Files, World,
}
use hack_ef3da0e3_aib2bsaass.Store.Committed.{IsCommitted, IsCommitted-unmarked}
use hack_ef3da0e3_aib2bsaass.Runtime.{sweep_meeting, record_expiry}
use hack_ef3da0e3_aib2bsaass.Runtime.Deadline.{sweep_meeting_lem}
use hack_ef3da0e3_aib2bsaass.Runtime.Expiry.{is_waiting, record_expiry_lem}
use hack_ef3da0e3_aib2bsaass.Export.{
  write_pdf_cache, read_pdf_cache, Printer, valid_pdf, pdf_cache_marker, prepare_export,
}
use hack_ef3da0e3_aib2bsaass.Export.Cache.{read_pdf_cache-write_pdf_cache}
use hack_ef3da0e3_aib2bsaass.Store.Records.{parse_record}
use hack_ef3da0e3_aib2bsaass.Store.Records.Reads.{Stored}
use hack_ef3da0e3_aib2bsaass.Base.Exec.{◌>>◌}
use hack_ef3da0e3_aib2bsaass.Export.Commits.{prepare_export_lem}
use hack_ef3da0e3_aib2bsaass.Tests.Concrete.{env, only, world_of, failed_record, record_in}

abbrev failed_folder : Files
failed_folder = only (live meeting_json) (env.encode_record failed_record)

failed_folder-IsCommitted : IsCommitted failed_folder
unfolding name_beq
failed_folder-IsCommitted = IsCommitted-unmarked failed_folder refl

failed-Stored : Stored failed_folder 1 2 failed_record
unfolding name_beq parse_record valid_record valid_meeting valid_metadata non_empty_text is_space
    person_name set_of valid_source valid_stage is_sha256 valid_job_history
failed-Stored = record {
  bytes = env.encode_record failed_record;
  at_name = refl;
  parsed = refl;
  owner = refl;
  meeting = refl;
}

-- a clock that stands before the deadline
abbrev still_world : World
still_world = record (world_of failed_folder) { clock = λ n. 10 }

before_deadline :
    (deadline : ℕ)
    → is_pending failed_record.local_cleanup_status ≡ true
    → failed_record.meeting.temporary_expires_at ≡ some deadline
    → ℕ
    → 10 < deadline
before_deadline deadline p e i = ground (arith, e)

sweep_meeting_lem_example : (sweep_meeting true 1 2 still_world).1.files ≡ failed_folder
sweep_meeting_lem_example =
    sweep_meeting_lem 1 2 failed_folder (λ n. 10) failed_record failed-Stored before_deadline true
      still_world refl refl

record_expiry_lem_example :
    (record_expiry 50 failed_record).meeting.cleanup_status
    ≡ (if any is_waiting failed_record.jobs then pending else expired)
record_expiry_lem_example = record_expiry_lem 50 failed_record

-- a renderer that draws one text
abbrev printer : Printer
printer = record {
  render_pdf = λ m t i. some (env.utf8 (codes "%PDF-"));
  octets = λ d. codes "%PDF-1.7 %%EOF";
  pages = λ d. some 1;
  uuid_text = λ n. (48 + n) ∷ [];
}

abbrev approved_record : MeetingRecord
approved_record = record_in MeetingStatus.approved none

abbrev drawn : env.Bytes
drawn = env.utf8 (codes "%PDF-")

-- an approved meeting with a cached PDF
abbrev cached_folder : Files
cached_folder n =
    if name_beq (pdf 0) n
    then some drawn
    else if name_beq (pdf_marker 0) n
    then some (pdf_cache_marker printer 1 2 0 drawn)
    else only (live meeting_json) (env.encode_record approved_record) n

cached_folder-IsCommitted : IsCommitted cached_folder
unfolding name_beq
cached_folder-IsCommitted = IsCommitted-unmarked cached_folder refl

prepare_export_lem_example :
    Post
      (λ d w'. IsCommitted w'.files × (valid_pdf printer d ≡ true))
      (λ e w'. IsCommitted w'.files)
      (prepare_export printer 1 2 (world_of cached_folder))
prepare_export_lem_example =
    prepare_export_lem printer 1 2 (world_of cached_folder) cached_folder-IsCommitted

abbrev approved_folder : Files
approved_folder = only (live meeting_json) (env.encode_record approved_record)

approved-Stored : Stored approved_folder 1 2 approved_record
unfolding name_beq parse_record valid_record valid_meeting valid_metadata non_empty_text is_space
    person_name set_of valid_source valid_stage is_sha256 valid_job_history
approved-Stored = record {
  bytes = env.encode_record approved_record;
  at_name = refl;
  parsed = refl;
  owner = refl;
  meeting = refl;
}

read_pdf_cache-write_pdf_cache_example :
    Post
      (λ d v. d ≡ drawn)
      (λ e v. ⊥)
      ((write_pdf_cache printer 1 2 0 drawn >> read_pdf_cache printer 1 2 0)
        (world_of approved_folder))
unfolding name_beq
read_pdf_cache-write_pdf_cache_example =
    read_pdf_cache-write_pdf_cache printer 1 2 approved_record 0 drawn (world_of approved_folder)
      (λ i. refl) approved-Stored refl refl
