-- ===== src/Gpu/Requests.antt =====
-- What a call of the GPU client keeps: it changes no file, and remembers each request.
use hack_ef3da0e3_aib2bsaass.Base.{ℕ, List, ◌∷◌}
use hack_ef3da0e3_aib2bsaass.Base.Exec.Hoare.{Keeps, keeps_rules, Keeps-bind, Keeps-raise}
use hack_ef3da0e3_aib2bsaass.Model.Text.{Text}
use hack_ef3da0e3_aib2bsaass.Model.Gpu.{GpuContextV1}
use hack_ef3da0e3_aib2bsaass.Store.World.{
  Env, Raised, Transport, timeout, connection, response, Request, Files, Sent, gpu_unavailable,
  submit, get_job, get_job_by_key, get_result, ack,
}
use hack_ef3da0e3_aib2bsaass.Store.Files.Laws.{View, On}
use hack_ef3da0e3_aib2bsaass.Store.Records.Reading.{reading_rules}
use hack_ef3da0e3_aib2bsaass.Gpu.{
  transmit, received, send, submit_job, fetch_job, fetch_job_by_key, fetch_result, acknowledge,
  unreadable,
}

module _ ⦃env : Env⦄ where
  -- A request is remembered with the folder as it stands.
  module _ (I : View) (r : Request)
      (remember : (f : Files) (s : List Sent)
        → I f s
        → I f (record { request = r; files = f } ∷ s)) where
    transmit-Keeps : Keeps (On I) (transmit r)
    unfolding transmit
    transmit-Keeps = record { at = λ w h. remember w.files w.sent h }

    received-Keeps : (n : ℕ) (t : Transport) → Keeps (On I) (received n t)
    received-Keeps n timeout = Keeps-raise gpu_unavailable
    received-Keeps n connection = Keeps-raise gpu_unavailable
    received-Keeps n (response status body) = search keeps_rules

    send-Keeps : (n : ℕ) → Keeps (On I) (send r n)
    unfolding send
    send-Keeps n = Keeps-bind (transmit r) (received n) transmit-Keeps (received-Keeps n)

  unreadable-Keeps : (I : View) (e : Raised) → Keeps (On I) (unreadable e)
  unreadable-Keeps I e = search keeps_rules

  -- What each call keeps, where its request is one that may be remembered.
  abbrev Remembers : View → Request → Type 0
  Remembers I r = (f : Files) (s : List Sent) → I f s → I f (record { request = r; files = f } ∷ s)

  module _ (I : View) where
    pub submit_job-Keeps : (c : GpuContextV1) → Remembers I (submit c) → Keeps (On I) (submit_job c)
    unfolding submit_job
    submit_job-Keeps c h =
        search (reading_rules, unreadable-Keeps, send-Keeps I (submit c) h) depth 16

    pub fetch_job-Keeps : (id : ℕ) → Remembers I (get_job id) → Keeps (On I) (fetch_job id)
    unfolding fetch_job
    fetch_job-Keeps id h = search (reading_rules, send-Keeps I (get_job id) h) depth 12

    pub fetch_job_by_key-Keeps :
        (m a : ℕ) → Remembers I (get_job_by_key m a) → Keeps (On I) (fetch_job_by_key m a)
    unfolding fetch_job_by_key
    fetch_job_by_key-Keeps m a h =
        search (reading_rules, send-Keeps I (get_job_by_key m a) h) depth 12

    pub fetch_result-Keeps : (id : ℕ) → Remembers I (get_result id) → Keeps (On I) (fetch_result id)
    unfolding fetch_result
    fetch_result-Keeps id h = search (reading_rules, send-Keeps I (get_result id) h) depth 12

    pub acknowledge-Keeps :
        (id : ℕ) (t : Text) → Remembers I (ack id t) → Keeps (On I) (acknowledge id t)
    unfolding acknowledge
    acknowledge-Keeps id t h = search (reading_rules, send-Keeps I (ack id t) h) depth 12
