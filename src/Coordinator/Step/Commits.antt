-- ===== src/Coordinator/Step/Commits.antt =====
-- A step of the coordinator submits only what it has recorded before, and keeps the folder committed,
-- whatever the system, the clock and the network answer.
use hack_ef3da0e3_aib2bsaass.Base.{
  ℕ, ◌≡◌, refl, ap, sym, subst, true, Option, none, some, Result, ok, err,
}
use hack_ef3da0e3_aib2bsaass.Base.Exec.{catch}
use hack_ef3da0e3_aib2bsaass.Base.Exec.Hoare.{
  Hoare, Hoare-bind, Hoare-if, Hoare-weaken, Hoare-strengthen, Hoare-raise, Hoare-pure, Hoare-given,
  Keeps, Keeps-after, Post, keeps_rules, Keeps-bind, Keeps-raise, Keeps-catch,
}
use hack_ef3da0e3_aib2bsaass.Model.Text.{Text}
use hack_ef3da0e3_aib2bsaass.Model.Meeting.{
  Meeting, MeetingRecord, JobRecord, MeetingStage, ReadyManifest, FailureCode,
}
use hack_ef3da0e3_aib2bsaass.Model.Gpu.{JobV1, JobStatus}
use hack_ef3da0e3_aib2bsaass.Store.World.{
  Env, World, Files, Raised, IsCodec, os_error, file_not_found, gpu_unavailable, gpu_protocol,
  gpu_input, gpu_domain, artifact_not_ready, artifact_integrity, validation_error, unsafe_path,
  DomainCode, submission_pending, job_not_found, result_not_ready, payload_deleted,
}
use hack_ef3da0e3_aib2bsaass.Store.Files.Laws.{On}
use hack_ef3da0e3_aib2bsaass.Store.Records.{read_record, now}
use hack_ef3da0e3_aib2bsaass.Store.Records.Reading.{read_record-Keeps, now-Keeps}
use hack_ef3da0e3_aib2bsaass.Store.Committed.{IsCommitted}
use hack_ef3da0e3_aib2bsaass.Coordinator.Sound.{Sound, IsBegun, IsRecorded, update_meeting-Written}
use hack_ef3da0e3_aib2bsaass.Store.Publish.Jobs.{job_at-with_job}
use hack_ef3da0e3_aib2bsaass.Store.Publish.{job_at}
use hack_ef3da0e3_aib2bsaass.Gpu.{submit_job}
use hack_ef3da0e3_aib2bsaass.Gpu.Requests.{submit_job-Keeps}
use hack_ef3da0e3_aib2bsaass.Store.Updates.{update_meeting}
use hack_ef3da0e3_aib2bsaass.Coordinator.Cleanup.{touched}
use hack_ef3da0e3_aib2bsaass.Coordinator.Cleanup.{reconcile_pending_jobs}
use hack_ef3da0e3_aib2bsaass.Coordinator.Cleanup.Commits.{
  cleanup_rules, clean-Keeps, reconcile_pending_jobs-Keeps,
}
use hack_ef3da0e3_aib2bsaass.Coordinator.Desk.{Desk, D}
use hack_ef3da0e3_aib2bsaass.Coordinator.Step.{
  Located, settled, located, Found, waiting, missing, known, save_paper, fail_with, view,
  process_at, unpublished, manifest_if_ready, resume, by_key_error, find_by_key, submit_paper,
  no_source, has_source, submit_new, locate_found, locate, locate_job, complete, take_over,
  by_status, follow, proceed, advance, on_domain_error, on_refusal, on_outage, attempt_step,
  result_of, process, unreadable_storage, process_once, with_current, started, context_of,
}
use hack_ef3da0e3_aib2bsaass.Coordinator.Desk.Laws.{
  Safe, Kept, lift-Hoare, lifted, current-Keeps, change-Keeps, current-Hoare, skip-Hoare,
  change-Hoare,
}

module _ ⦃env : Env⦄ where
  module _ (codec : IsCodec env) where
    ruleset desk_rules =
        (keeps_rules, lifted, current-Keeps, change-Keeps, cleanup_rules, clean-Keeps)

    save_paper-Keeps : Keeps Safe save_paper
    unfolding save_paper
    save_paper-Keeps = search desk_rules depth 12

    fail_with-Keeps : (c : FailureCode) → Keeps Safe (fail_with c)
    unfolding fail_with
    fail_with-Keeps c = search (desk_rules, save_paper-Keeps) depth 12

    view-Keeps : Keeps Safe view
    unfolding view
    view-Keeps = search desk_rules depth 12

    process_at-Keeps : (s : Option MeetingStage) → Keeps Safe (process_at s)
    unfolding process_at
    process_at-Keeps s = search desk_rules depth 12

    unpublished-Keeps : (e : Raised) → Keeps (On Sound) (unpublished e)
    unpublished-Keeps artifact_not_ready = search keeps_rules
    unpublished-Keeps e = search keeps_rules

    manifest_if_ready-Keeps : (o m : ℕ) → Keeps (On Sound) (manifest_if_ready o m)
    unfolding manifest_if_ready
    manifest_if_ready-Keeps o m = search (cleanup_rules, unpublished-Keeps) depth 12

    resume-Keeps : (m : ReadyManifest) (r : MeetingRecord) → Keeps (On Sound) (resume m r)
    unfolding resume
    resume-Keeps m r = search (cleanup_rules, clean-Keeps) depth 16

    by_key_error-Keeps : (e : Raised) → Keeps (On Sound) (by_key_error e)
    by_key_error-Keeps (gpu_domain s submission_pending) = search keeps_rules
    by_key_error-Keeps (gpu_domain s job_not_found) = search keeps_rules
    by_key_error-Keeps e = search keeps_rules

    find_by_key-Keeps : (j : JobRecord) (r : MeetingRecord) → Keeps (On Sound) (find_by_key j r)
    unfolding find_by_key
    find_by_key-Keeps j r = search (cleanup_rules, by_key_error-Keeps) depth 12

    no_source-Keeps : (e : Raised) → Keeps (On Sound) (no_source e)
    no_source-Keeps file_not_found = search keeps_rules
    no_source-Keeps e = search keeps_rules

    has_source-Keeps : (r : MeetingRecord) → Keeps (On Sound) (has_source r)
    unfolding has_source
    has_source-Keeps r = search (cleanup_rules, no_source-Keeps) depth 12

    -- This record says that the submission of `r` was begun.
    abbrev Begins : MeetingRecord → Text → MeetingRecord → Type 0
    Begins r h z =
        (z.meeting.id ≡ r.meeting.id)
        × (z.meeting.attempt ≡ r.meeting.attempt)
        × (z.audio_sha256 ≡ some h)
        × ((j : JobRecord) × (job_at r.meeting.attempt z.jobs ≡ some j)
            × (j.submit_started ≡ some true))

    begins :
        (r : MeetingRecord) (h : Text)
        → r.audio_sha256 ≡ some h
        → Begins r h (with_current started r)
    begins r h audio =
        let (j, found, here) = job_at-with_job r.meeting.attempt started (λ j. refl) r.jobs in
        (refl, refl, audio, (started j, found, refl))

    begun :
        (r : MeetingRecord) (h : Text) (f : Files)
        → Kept (Begins r h) f
        → IsBegun f (context_of r h)
    begun r h f (z, at_name, parsed, (meeting, attempt, audio, (j, found, marked))) = record {
      stored = z;
      job = j;
      bytes = env.encode_record z;
      at_name = at_name;
      parsed = parsed;
      meeting = meeting;
      attempt = attempt;
      audio = audio;
      at_attempt = found;
      marked = marked;
    }

    -- What was saved is on the disk.
    save_paper-Hoare :
        (X : MeetingRecord → Type 0)
        → ((t : ℕ) (r : MeetingRecord) → X r → X (touched t r))
        → Hoare
            (λ d. Safe d × X d.paper)
            save_paper
            (λ m d. Safe d × Kept X d.world.files)
            (λ e. Safe)
    unfolding save_paper
    save_paper-Hoare X stable = Hoare-bind _ _ (lift-Hoare X now (now-Keeps Sound)) λ t.
        Hoare-bind _ _ (change-Hoare (touched t) X X (stable t)) λ _.
          Hoare-bind _ _ current-Hoare λ r.
            Hoare-given _ (λ d p. subst X p.1 p.0.1)
              λ x.
                Hoare-strengthen _ (λ d p. (p.0.0, tt))
                  (Hoare-weaken _
                    (lift-Hoare (λ r. Unit) (update_meeting r.owner_id r)
                      (update_meeting-Written codec r.owner_id r))
                    (λ m d p. ((p.0.0, p.0.1.0), (r, p.0.1.1, p.0.1.2, x))) (λ e d p. p))

    submit_paper-Hoare :
        (h : Text)
        → Hoare
            (λ d. Safe d × (d.paper.audio_sha256 ≡ some h))
            (submit_paper h)
            (λ l. Safe)
            (λ e. Safe)
    unfolding submit_paper
    submit_paper-Hoare h = Hoare-bind _ _ current-Hoare λ r.
        Hoare-given _ (λ d p. subst (λ z. z.audio_sha256 ≡ some h) p.1 p.0.1)
          λ audio.
            Hoare-bind {Q = λ u d. Safe d × (d.paper ≡ r)} _ _
              (Hoare-if _ _ _ (λ bad. Hoare-raise validation_error (λ d p. p.0.0))
                (λ good. skip-Hoare (λ d p. (p.0.0, p.1))))
              λ _.
                Hoare-bind _ _
                  (change-Hoare (with_current started) (λ z. z ≡ r) (Begins r h)
                    (λ z e.
                      subst (λ y. Begins r h (with_current started y)) (sym e) (begins r h audio)))
                  λ _. Hoare-bind _ _ (save_paper-Hoare (Begins r h) (λ t z b. b)) λ _.
                    Hoare-bind _ _
                      (Hoare-strengthen _ (λ d p. ((p.0, begun r h d.world.files p.1), tt))
                        (Hoare-weaken _
                          (lift-Hoare (λ z. Unit) (submit_job (context_of r h))
                            (submit_job-Keeps (λ f s. Sound f s × IsBegun f (context_of r h))
                              (context_of r h) (λ f s b. ((b.0.0, (b.1, b.0.1)), b.1))))
                          (λ j d p. p.0.0) (λ e d p. p.0)))
                      λ j. Hoare-pure (located j) (λ d p. p)

    submit_new-Hoare :
        (a : Option Text)
        → Hoare (λ d. Safe d × (d.paper.audio_sha256 ≡ a)) (submit_new a) (λ l. Safe) (λ e. Safe)
    submit_new-Hoare none =
        Hoare-strengthen _ (λ d p. p.0) (search (desk_rules, fail_with-Keeps) depth 12)
    submit_new-Hoare (some h) = Hoare-bind _ _ current-Hoare λ r.
        Hoare-bind _ _
          (Hoare-strengthen _ (λ d p. p.0)
            (lift-Hoare (λ z. z.audio_sha256 ≡ some h) (has_source r) (has_source-Keeps r)))
          λ present.
            Hoare-if present _ _ (λ there. submit_paper-Hoare h)
              (λ gone.
                Hoare-strengthen _ (λ d p. p.0) (search (desk_rules, fail_with-Keeps) depth 12))

    locate_found-Keeps : (f : Found) → Keeps Safe (locate_found f)
    locate_found-Keeps waiting = search (desk_rules, view-Keeps) depth 12
    locate_found-Keeps missing = Hoare-bind _ _ current-Hoare λ r.
        Hoare-strengthen _ (λ d p. (p.0, ap (λ (z : MeetingRecord). z.audio_sha256) p.1))
          (submit_new-Hoare r.audio_sha256)
    locate_found-Keeps (known j) = search desk_rules

    locate-Keeps : (j : JobRecord) → Keeps Safe (locate j)
    unfolding locate
    locate-Keeps j =
        search
          (desk_rules, process_at-Keeps, save_paper-Keeps, find_by_key-Keeps, locate_found-Keeps)
          depth 20

    locate_job-Keeps : (j : JobRecord) (id : Option ℕ) → Keeps Safe (locate_job j id)
    locate_job-Keeps j none = locate-Keeps j
    locate_job-Keeps j (some id) = search desk_rules depth 12

    complete-Keeps : (j : JobV1) → Keeps Safe (complete j)
    unfolding complete
    complete-Keeps j = search desk_rules depth 20

    take_over-Keeps : (j : JobV1) → Keeps Safe (take_over j)
    unfolding take_over
    take_over-Keeps j =
        search (desk_rules, process_at-Keeps, save_paper-Keeps, complete-Keeps, view-Keeps) depth 16

    by_status-Keeps : (j : JobV1) (s : JobStatus) → Keeps Safe (by_status j s)
    by_status-Keeps j JobStatus.expired = fail_with-Keeps _
    by_status-Keeps j JobStatus.failed = fail_with-Keeps _
    by_status-Keeps j s = take_over-Keeps j

    follow-Keeps : (j : JobRecord) (l : Located) → Keeps Safe (follow j l)
    unfolding follow
    follow-Keeps j (settled m) = search desk_rules
    follow-Keeps j (located r) = search (desk_rules, by_status-Keeps) depth 16

    proceed-Keeps : (j : JobRecord) (m : Option ReadyManifest) → Keeps Safe (proceed j m)
    proceed-Keeps j none = search (desk_rules, locate_job-Keeps, follow-Keeps) depth 12
    proceed-Keeps j (some m) = search (desk_rules, resume-Keeps) depth 12

    advance-Keeps : Keeps Safe advance
    unfolding advance
    advance-Keeps = search (desk_rules, view-Keeps, manifest_if_ready-Keeps, proceed-Keeps) depth 16

    on_domain_error-Keeps : (s : ℕ) (c : DomainCode) → Keeps Safe (on_domain_error s c)
    on_domain_error-Keeps s DomainCode.source_expired = fail_with-Keeps _
    on_domain_error-Keeps s payload_deleted = fail_with-Keeps _
    on_domain_error-Keeps s job_not_found = view-Keeps
    on_domain_error-Keeps s result_not_ready = view-Keeps
    on_domain_error-Keeps s c = fail_with-Keeps _

    on_refusal-Keeps : (e : Raised) → Keeps Safe (on_refusal e)
    on_refusal-Keeps gpu_protocol = fail_with-Keeps _
    on_refusal-Keeps validation_error = fail_with-Keeps _
    on_refusal-Keeps artifact_integrity = fail_with-Keeps _
    on_refusal-Keeps gpu_input = fail_with-Keeps _
    on_refusal-Keeps (gpu_domain s c) = on_domain_error-Keeps s c
    on_refusal-Keeps e = Keeps-raise e

    on_outage-Keeps : (e : Raised) → Keeps Safe (on_outage e)
    on_outage-Keeps gpu_unavailable = view-Keeps
    on_outage-Keeps os_error = view-Keeps
    on_outage-Keeps file_not_found = view-Keeps
    on_outage-Keeps e = Keeps-raise e

    attempt_step-Keeps : Keeps Safe attempt_step
    unfolding attempt_step
    attempt_step-Keeps =
        Keeps-catch (catch advance on_refusal) on_outage
          (Keeps-catch advance on_refusal advance-Keeps on_refusal-Keeps) on_outage-Keeps

    result_of-Keeps :
        (m : D Meeting) (r : MeetingRecord) → Keeps Safe m → Keeps (On Sound) (result_of m r)
    result_of-Keeps m r h = record {
      at = λ w p.
          go (m (record { world = w; paper = r })) (h.at (record { world = w; paper = r }) p);
    }
      where
        go :
            (o : Result Raised Meeting × Desk)
            → Post (λ (a : Meeting). Safe) (λ (e : Raised). Safe) o
            → Post (λ (a : Meeting). On Sound) (λ (e : Raised). On Sound) (o.0, o.1.world)
        go (ok a, d) p = p
        go (err e, d) p = p

    process-Keeps : (o k : ℕ) → Keeps (On Sound) (process o k)
    unfolding process
    process-Keeps o k = Keeps-bind (read_record o k) _ (read_record-Keeps Sound o k) λ stored.
        Keeps-bind (reconcile_pending_jobs stored) _ (reconcile_pending_jobs-Keeps codec stored)
          λ r. result_of-Keeps attempt_step r attempt_step-Keeps

    unreadable_storage-Keeps : (e : Raised) → Keeps (On Sound) (unreadable_storage e)
    unreadable_storage-Keeps os_error = search keeps_rules
    unreadable_storage-Keeps file_not_found = search keeps_rules
    unreadable_storage-Keeps unsafe_path = search keeps_rules
    unreadable_storage-Keeps artifact_integrity = search keeps_rules
    unreadable_storage-Keeps e = search keeps_rules

    pub process_once-Keeps : (o k : ℕ) → Keeps (On Sound) (process_once o k)
    unfolding process_once
    process_once-Keeps o k =
        Keeps-catch (process o k) unreadable_storage (process-Keeps o k) unreadable_storage-Keeps

    -- One step of the coordinator, whether it returns or raises and whatever the system, the clock
    -- and the network answer: if each submission sent before was recorded, so is each one sent until
    -- its end, that is, when it was sent, meeting.json held a valid record of the meeting, at the
    -- attempt and with the audio of the submission, whose job of the attempt was marked as started.
    -- And if the three originals stood under the manifest, where there was one that can be read,
    -- then at the end they stand under the manifest, where there is one. What was written is read
    -- back, and a SHA-256 is 64 hexadecimal digits.
    pub process_once-IsRecorded :
        (o k : ℕ) (w : World)
        → IsCommitted w.files
        → IsRecorded w.sent
        → IsCommitted (process_once o k w).1.files × IsRecorded (process_once o k w).1.sent
    process_once-IsRecorded o k w h s =
        Keeps-after (process_once o k) (process_once-Keeps o k) w (h, s)
