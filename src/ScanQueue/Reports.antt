-- ===== src/ScanQueue/Reports.antt =====
-- hub/db/scans.py: the reports of a worker on a leased job, which `_record_progress` writes.
use ori_skills_hub.Prelude.{
  ℕ, Text, Bool, true, false, ◌&&◌, ◌||◌, Option, none, some, [], find, is_some, text_eq, ltb, err,
  ◌>>=◌, if◌then◌else◌,
}
use ori_skills_hub.Core.{ScanJobState, pending_submission, polling, state_eq}
use ori_skills_hub.Database.{Db, ScanJob, ScanEvent, persistence_conflict}
use ori_skills_hub.Database.Guards.{opt_eq}
use ori_skills_hub.Database.Writes.{Write, update_jobs, insert_event}
use ori_skills_hub.ScanQueue.{bounded, get}

-- The WHERE clause of a write that needs the lease.
unfoldable pub owns : Text → Text → ℕ → ScanJob → Bool
owns job_id owner now j =
    text_eq j.id job_id
    && opt_eq j.lease_owner owner
    && elim j.lease_expires_at [ none ↦ false | some expires ↦ ltb now expires ]

-- The keyword arguments of `_record_progress`.
pub record Progress : Type 0 where
  pub job_id : Text
  pub worker_id : Text
  pub expected : ScanJobState → Bool
  pub state : ScanJobState
  pub next_attempt_at : ℕ
  pub detail : Text
  pub provider_analysis_id : Option Text
  pub submitted : Bool
  pub polled : Bool

-- The columns that `_record_progress` sets.
unfoldable pub progressed : Progress → Text → ℕ → ScanJob → ScanJob
progressed p detail now j = record j {
  state = p.state;
  next_attempt_at = p.next_attempt_at;
  detail = detail;
  lease_owner = none;
  lease_expires_at = none;
  updated_at = now;
  provider_analysis_id = elim p.provider_analysis_id [
    | none ↦ j.provider_analysis_id
    | some id ↦ some id
  ];
  submitted_at = if p.submitted then some now else j.submitted_at;
  last_polled_at = if p.polled then some now else j.last_polled_at;
}

abbrev pub progress_event : Progress → Text → Text → Text → ℕ → ScanJob → ScanEvent
progress_event p detail owner event_id stamp j = record {
  id = event_id;
  scan_job_id = j.id;
  state = p.state;
  attempt_count = j.attempt_count;
  verdict = none;
  detail = detail;
  stats = [];
  worker_id = some owner;
  occurred_at = stamp;
}

unfoldable pub progresses : Progress → Text → ℕ → ScanJob → Bool
progresses p owner now j = owns p.job_id owner now j && p.expected j.state

unfoldable pub write_progress : Progress → Text → Text → ℕ → Text → ℕ → Option ScanJob → Db → Write
write_progress p owner detail now event_id stamp none db = err persistence_conflict
write_progress p owner detail now event_id stamp (some j) db = do
  db1 ← update_jobs true (progresses p owner now) (progressed p detail now) db
  insert_event (progress_event p detail owner event_id stamp j) db1

unfoldable pub record_progress : Progress → ℕ → Text → ℕ → Db → Write
unfolding progresses owns progressed write_progress
record_progress p now event_id stamp db = do
  owner ← bounded p.worker_id 255
  detail ← bounded p.detail 1024
  write_progress p owner detail now event_id stamp (find (progresses p owner now) db.jobs) db

-- The arguments that the three callers of `_record_progress` share.
pub record Report : Type 0 where
  pub job_id : Text
  pub worker_id : Text
  pub next_attempt_at : ℕ
  pub detail : Text

unfoldable pub record_submission : Report → Text → ℕ → Text → ℕ → Db → Write
record_submission r analysis_id now event_id stamp db = do
  id ← bounded analysis_id 512
  record_progress
      (record {
        job_id = r.job_id;
        worker_id = r.worker_id;
        expected = λ s. state_eq s pending_submission;
        state = ScanJobState.submitted;
        next_attempt_at = r.next_attempt_at;
        detail = r.detail;
        provider_analysis_id = some id;
        submitted = true;
        polled = false;
      })
      now event_id stamp db

unfoldable pub record_polling : Report → ℕ → Text → ℕ → Db → Write
record_polling r now event_id stamp db =
    record_progress
      (record {
        job_id = r.job_id;
        worker_id = r.worker_id;
        expected = λ s. state_eq s ScanJobState.submitted || state_eq s polling;
        state = polling;
        next_attempt_at = r.next_attempt_at;
        detail = r.detail;
        provider_analysis_id = none;
        submitted = false;
        polled = true;
      })
      now event_id stamp db

-- `get` is a transaction of its own; `between` is the database at the second one.
unfoldable pub record_retry : Report → ℕ → Text → ℕ → Db → Db → Write
record_retry r now event_id stamp db between = do
  found ← get r.job_id db
  record_progress
      (record {
        job_id = r.job_id;
        worker_id = r.worker_id;
        expected = state_eq found.job.state;
        state = found.job.state;
        next_attempt_at = r.next_attempt_at;
        detail = r.detail;
        provider_analysis_id = none;
        submitted = false;
        polled = is_some found.job.provider_analysis_id;
      })
      now event_id stamp between
