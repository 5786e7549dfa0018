-- ===== src/ScanWorker.antt =====
-- hub/core/scan_worker.py: the policy and the decisions of ScanWorker. Durations are in microseconds, the
-- unit of the timestamps. What the clocks, the random source, the storage and the HTTP client give is
-- an argument, `World`; the worker's own decision and the calls of the repository are the code's.
pub mod Bounds
pub mod Decisions
pub mod Invocation
use ori_skills_hub.Prelude.{
  ℕ, zero, suc, ◌+◌, ◌*◌, ◌-◌, Text, Bool, ◌&&◌, ◌||◌, Option, none, some, codes, text_eq, ltb, leb,
  Result, ok, err, ◌>>=◌, ◌>>◌, guard, if◌then◌else◌,
}
use ori_skills_hub.Core.{
  ScanJobState, malicious, manual_review, exhausted, pending_submission, state_eq,
}
use ori_skills_hub.Database.{DbError, ScanJob, value_error}
use ori_skills_hub.ScanQueue.{second}
use ori_skills_hub.ScanQueue.Reports.{Report}
use ori_skills_hub.ScanQueue.Completion.{Completion, CallContext}
use ori_skills_hub.Scanner.{
  ScanError, invalid_response, provider, authentication, temporary, rate_limit, ScanResult,
  PollResult, HttpOutcome, submit, poll_once,
}

pub record Policy : Type 0 where
  pub lease_seconds : ℕ
  pub initial_backoff : ℕ
  pub maximum_backoff : ℕ
  pub jitter : ℕ
  pub maximum_attempts : ℕ
  pub maximum_job_age_seconds : ℕ

-- `ScanWorkerPolicy.__post_init__`
unfoldable pub check_policy : Policy → Result DbError (Unit {0})
check_policy p = do
  guard (leb 1 p.lease_seconds && leb p.lease_seconds 300) value_error
  guard (ltb 0 p.initial_backoff && leb p.initial_backoff p.maximum_backoff) value_error
  guard (leb p.jitter p.maximum_backoff) value_error
  guard (leb 1 p.maximum_attempts && leb p.maximum_attempts 1000) value_error
  guard (leb 60 p.maximum_job_age_seconds && leb p.maximum_job_age_seconds 604800) value_error

-- The outcome of `storage.read`: the bytes, FileNotFoundError with its text, or another exception.
pub data Upload : Type 0 where
  found missing : Text → Upload
  unreadable : Upload

-- What one invocation meets. `draw` is the value of `random.uniform(0.0, jitter)`.
pub record World : Type 0 where
  pub claim_now : ℕ
  pub claim_event_id : Text
  pub claim_stamp : ℕ
  pub upload : Upload
  pub configured : Bool
  pub http : HttpOutcome
  pub clock : ℕ
  pub draw : ℕ
  pub context : CallContext

-- `WorkerMetrics`, less the latency.
pub record Metrics : Type 0 where
  pub claims : ℕ
  pub submissions : ℕ
  pub polls : ℕ
  pub rate_limits : ℕ
  pub exhausted : ℕ
  pub completed : ℕ

-- The counter that a completion increments if it changed the job.
pub data Tally : Type 0 where
  untallied as_completed as_exhausted : Tally

-- The call of the repository that a job leads to, or an exception that nothing catches.
pub data Action : Type 0 where
  report_submission : Report → Text → Action
  report_polling report_retry : Report → Action
  settle : Tally → Completion → Action
  crash : Action

-- `value * 2**exponent`
unfoldable pub doubled : ℕ → ℕ → ℕ
doubled value zero = value
doubled value (suc n) = doubled value n * 2

abbrev pub smaller : ℕ → ℕ → ℕ
smaller a b = if leb a b then a else b

abbrev pub larger : ℕ → ℕ → ℕ
larger a b = if leb a b then b else a

-- `_delay`; subtraction stops at 0, as `max(0, ...)` does.
unfoldable pub delay : Policy → ℕ → ℕ → ℕ
delay p draw attempt_count =
    smaller
      (smaller (doubled p.initial_backoff (smaller (attempt_count - 1) 30)) p.maximum_backoff
        + draw)
      p.maximum_backoff

unfoldable pub expired : Policy → ScanJob → ℕ → Bool
expired p j now =
    ltb p.maximum_attempts j.attempt_count
    || ltb (j.created_at + p.maximum_job_age_seconds * second) now

abbrev pub completion : Text → ScanJob → ScanJobState → Text → Text → Completion
completion worker j state verdict detail = record {
  job_id = j.id;
  worker_id = worker;
  state = state;
  verdict = verdict;
  detail = detail;
  stats = none;
}

-- `_exhaust`
unfoldable pub exhaust : Text → ScanJob → Text → Action
exhaust worker j detail =
    settle as_exhausted (completion worker j exhausted (codes "unavailable") detail)

abbrev pub manual : Text → ScanJob → Text → Action
manual worker j detail =
    settle untallied (completion worker j manual_review (codes "unavailable") detail)

abbrev pub report : Text → ScanJob → ℕ → Text → Report
report worker j next_attempt_at detail = record {
  job_id = j.id;
  worker_id = worker;
  next_attempt_at = next_attempt_at;
  detail = detail;
}

-- `_retry`, with the cap that `maximum_delay or maximum_backoff_seconds` gives.
unfoldable pub retry : Policy → Text → ScanJob → ℕ → ℕ → Text → ℕ → Action
unfolding exhaust
retry p worker j clock wait detail cap =
    if leb p.maximum_attempts j.attempt_count
    then exhaust worker j (codes "scan attempt budget exhausted")
    else report_retry (report worker j (clock + smaller (larger wait second) cap) detail)

-- The `except` clauses of `_submit` and `_poll`. `invalid_response` is caught in the scanner and
-- does not arrive here; as a ValueError it would not be caught.
unfoldable pub on_error : Policy → Text → World → ScanJob → Metrics → ScanError → Action × Metrics
unfolding retry delay
on_error p worker w j m (rate_limit wait) = (
  retry p worker j w.clock wait (codes "VirusTotal rate limit reached") (300 * second),
  record m { rate_limits = m.rate_limits + 1 },
)
on_error p worker w j m (authentication t) =
    (retry p worker j w.clock p.maximum_backoff t p.maximum_backoff, m)
on_error p worker w j m (temporary t) =
    (retry p worker j w.clock (delay p w.draw j.attempt_count) t p.maximum_backoff, m)
on_error p worker w j m (provider t) = (manual worker j t, m)
on_error p worker w j m invalid_response = (crash, m)

unfoldable pub submitted_action :
    Policy → Text → World → ScanJob → Metrics → Result ScanError Text → Action × Metrics
unfolding on_error
submitted_action p worker w j m (ok id) = (
  report_submission
      (report worker j (w.clock + delay p w.draw j.attempt_count)
        (codes "sample submitted; analysis pending"))
      id,
  record m { submissions = m.submissions + 1 },
)
submitted_action p worker w j m (err e) = on_error p worker w j m e

-- `_submit`, by what the storage gives.
unfoldable pub submit_job : Policy → Text → World → ScanJob → Metrics → Upload → Action × Metrics
unfolding submitted_action
submit_job p worker w j m (found payload) =
    submitted_action p worker w j m (submit w.configured payload w.http)
submit_job p worker w j m (missing t) = (manual worker j t, m)
submit_job p worker w j m unreadable = (crash, m)

-- The completion for the verdict of a completed analysis.
unfoldable pub verdict_action : Text → ScanJob → PollResult → ScanResult → Action
verdict_action worker j o r =
    settle as_completed
      (record (if text_eq r.status (codes "clean")
        then completion worker j ScanJobState.clean (codes "clean") r.detail
        else if text_eq r.status (codes "malicious")
        then completion worker j malicious (codes "malicious") r.detail
        else completion worker j manual_review (codes "suspicious") r.detail) {
          stats = some o.stats;
        })

-- The outcome of a completed analysis; without a result it raises ScannerProviderError.
unfoldable pub completed_action : Text → ScanJob → PollResult → Option ScanResult → Action
unfolding verdict_action
completed_action worker j o none =
    manual worker j (codes "scanner completed without a bounded verdict")
completed_action worker j o (some r) = verdict_action worker j o r

unfoldable pub polled_action :
    Policy → Text → World → ScanJob → Metrics → Result ScanError PollResult → Action × Metrics
unfolding on_error completed_action
polled_action p worker w j m (err e) = on_error p worker w j m e
polled_action p worker w j m (ok o) = (
  if o.completed
      then completed_action worker j o o.result
      else report_polling (
          report worker j (w.clock + delay p w.draw j.attempt_count)
            (codes "analysis remains queued or in progress")),
  record m { polls = m.polls + 1 },
)

-- `_poll`, by the analysis identifier of the job.
unfoldable pub poll_job : Policy → Text → World → ScanJob → Metrics → Option Text → Action × Metrics
unfolding polled_action
poll_job p worker w j m none =
    (manual worker j (codes "submitted scan job has no provider analysis identifier"), m)
poll_job p worker w j m (some id) = polled_action p worker w j m (poll_once w.configured id w.http)

-- The `try` block of `run_once`.
unfoldable pub decide : Policy → Text → World → ScanJob → Metrics → Action × Metrics
unfolding expired exhaust submit_job poll_job
decide p worker w j m =
    if expired p j w.claim_now
    then (exhaust worker j (codes "scan job exceeded its bounded lifetime"), m)
    else if state_eq j.state pending_submission
    then submit_job p worker w j m w.upload
    else poll_job p worker w j m j.provider_analysis_id
