-- ===== src/ScanWorker/Decisions.antt =====
-- hub/core/scan_worker.py: which evidence lets the worker call a job clean.
use ori_skills_hub.Prelude.{
  ℕ, ◌*◌, ◌≡◌, refl, sym, Text, Bool, true, false, Option, none, some, codes, Result, ok, err,
  text_eq, if◌then◌else◌, if-keeps, leb,
}
use ori_skills_hub.Core.{ScanJobState, state_eq, pending_submission, malicious, manual_review}
use ori_skills_hub.Database.{ScanJob}
use ori_skills_hub.ScanQueue.{second}
use ori_skills_hub.Scanner.{
  ScanError, invalid_response, provider, authentication, temporary, rate_limit, ScanResult,
  PollResult, HttpOutcome, Response, response, submit, poll_once,
}
use ori_skills_hub.Scanner.Counts.{HasCleanStatus}
use ori_skills_hub.Scanner.Verdict.{ReportsClean, ShowsClean, poll_once-clean}
use ori_skills_hub.ScanWorker.{
  Policy, World, Upload, found, missing, unreadable, Metrics, Action, settle, delay, as_completed,
  completion, expired, exhaust, retry, on_error, submitted_action, submit_job, verdict_action,
  completed_action, polled_action, poll_job, decide,
}

-- The action completes the job as clean.
abbrev pub settles_clean : Action → Bool
settles_clean (settle tally c) = state_eq c.state ScanJobState.clean
settles_clean _ = false

retry-unclean :
    (p : Policy) (worker : Text) (j : ScanJob) (clock wait : ℕ) (detail : Text) (cap : ℕ)
    → settles_clean (retry p worker j clock wait detail cap) ≡ false
unfolding retry exhaust
retry-unclean p worker j clock wait detail cap =
    if-keeps (λ a. settles_clean a ≡ false) (leb p.maximum_attempts j.attempt_count) _ _ (λ _. refl)
      (λ _. refl)

on_error-unclean :
    (p : Policy) (worker : Text) (w : World) (j : ScanJob) (m : Metrics) (e : ScanError)
    → settles_clean (on_error p worker w j m e).0 ≡ false
unfolding on_error
on_error-unclean p worker w j m (rate_limit wait) =
    retry-unclean p worker j w.clock wait (codes "VirusTotal rate limit reached") (300 * second)
on_error-unclean p worker w j m (authentication t) =
    retry-unclean p worker j w.clock p.maximum_backoff t p.maximum_backoff
on_error-unclean p worker w j m (temporary t) =
    retry-unclean p worker j w.clock (delay p w.draw j.attempt_count) t p.maximum_backoff
on_error-unclean p worker w j m (provider t) = refl
on_error-unclean p worker w j m invalid_response = refl

submitted_action-unclean :
    (p : Policy) (worker : Text) (w : World) (j : ScanJob) (m : Metrics) (o : Result ScanError Text)
    → settles_clean (submitted_action p worker w j m o).0 ≡ false
unfolding submitted_action
submitted_action-unclean p worker w j m (ok id) = refl
submitted_action-unclean p worker w j m (err e) = on_error-unclean p worker w j m e

submit_job-unclean :
    (p : Policy) (worker : Text) (w : World) (j : ScanJob) (m : Metrics) (u : Upload)
    → settles_clean (submit_job p worker w j m u).0 ≡ false
unfolding submit_job
submit_job-unclean p worker w j m (found payload) =
    submitted_action-unclean p worker w j m (submit w.configured payload w.http)
submit_job-unclean p worker w j m (missing t) = refl
submit_job-unclean p worker w j m unreadable = refl

verdict_action-clean :
    (worker : Text) (j : ScanJob) (o : PollResult) (r : ScanResult)
    → settles_clean (verdict_action worker j o r) ≡ true
    → HasCleanStatus r
unfolding verdict_action
verdict_action-clean worker j o r h =
    go (text_eq r.status (codes "clean")) (text_eq r.status (codes "malicious")) h
  where
    go :
        (clean bad : Bool)
        → settles_clean (
            settle as_completed
              (record (if clean
                then completion worker j ScanJobState.clean (codes "clean") r.detail
                else if bad
                then completion worker j malicious (codes "malicious") r.detail
                else completion worker j manual_review (codes "suspicious") r.detail) {
                  stats = some o.stats;
                }))
          ≡ true
        → clean ≡ true
    go true bad h = refl
    go false true h = cc
    go false false h = cc

completed_action-clean :
    (worker : Text) (j : ScanJob) (o : PollResult) (result : Option ScanResult)
    → result ≡ o.result
    → settles_clean (completed_action worker j o result) ≡ true
    → ReportsClean o
unfolding completed_action
completed_action-clean worker j o none e h = cc
completed_action-clean worker j o (some r) e h = (r, sym e, verdict_action-clean worker j o r h)

-- The analysis of this identifier is shown to be clean by the response that was given.
abbrev pub Shown : HttpOutcome → Text → Type 0
Shown http id = (r : Response) × (http ≡ response r) × ShowsClean id r

polled_action-clean :
    (p : Policy) (worker : Text) (w : World) (j : ScanJob) (m : Metrics) (id : Text)
    (o : Result ScanError PollResult)
    → poll_once w.configured id w.http ≡ o
    → settles_clean (polled_action p worker w j m o).0 ≡ true
    → Shown w.http id
unfolding polled_action
polled_action-clean p worker w j m id (err e) q h = cc (on_error-unclean p worker w j m e, h)
polled_action-clean p worker w j m id (ok o) q h =
    if-keeps (λ a. settles_clean a ≡ true → Shown w.http id) o.completed _ _
      (λ _ h.
        poll_once-clean w.configured id w.http o q
          (completed_action-clean worker j o o.result refl h))
      (λ _ h. cc) h

-- The analysis of the job is shown to be clean.
abbrev pub JobShown : HttpOutcome → Option Text → Type 0
JobShown http analysis = (id : Text) × (analysis ≡ some id) × Shown http id

poll_job-clean :
    (p : Policy) (worker : Text) (w : World) (j : ScanJob) (m : Metrics) (analysis : Option Text)
    → settles_clean (poll_job p worker w j m analysis).0 ≡ true
    → JobShown w.http analysis
unfolding poll_job
poll_job-clean p worker w j m none h = cc
poll_job-clean p worker w j m (some id) h =
    (id, refl, polled_action-clean p worker w j m id (poll_once w.configured id w.http) refl h)

-- The worker completes a job as clean only on a response that shows the completed analysis of the
-- job's own analysis identifier with no malicious and no suspicious engine and a majority of
-- harmless ones.
pub decide-clean :
    (p : Policy) (worker : Text) (w : World) (j : ScanJob) (m : Metrics)
    → settles_clean (decide p worker w j m).0 ≡ true
    → JobShown w.http j.provider_analysis_id
unfolding decide exhaust
decide-clean p worker w j m h =
    if-keeps {A = Action × Metrics}
      (λ a. settles_clean a.0 ≡ true → JobShown w.http j.provider_analysis_id)
      (expired p j w.claim_now) _ _ (λ _ h. cc)
      (λ _.
        if-keeps {A = Action × Metrics}
          (λ a. settles_clean a.0 ≡ true → JobShown w.http j.provider_analysis_id)
          (state_eq j.state pending_submission) _ _
          (λ _ h. cc (submit_job-unclean p worker w j m w.upload, h))
          (λ _. poll_job-clean p worker w j m j.provider_analysis_id))
      h
