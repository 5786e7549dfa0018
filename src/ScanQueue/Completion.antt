-- ===== src/ScanQueue/Completion.antt =====
-- hub/db/scans.py: `complete`.
use ori_skills_hub.Prelude.{
  ℕ, ◌+◌, Text, Bool, true, false, not, ◌&&◌, ◌||◌, Option, none, some, ◌++◌, find, codes, text_eq,
  Result, ok, err, ◌>>=◌, ◌>>◌, guard, if◌then◌else◌,
}
use ori_skills_hub.Core.{
  SkillStatus, ScanJobState, pending_review, listed, rejected, malicious, status_eq, is_terminal,
}
use ori_skills_hub.Value.{Fields}
use ori_skills_hub.Database.{
  Tx, SkillVersion, Artifact, SkillTransitionAudit, ScanJob, ScanEvent, Stats, DbError, value_error,
  persistence_conflict, integrity_as_conflict,
}
use ori_skills_hub.Database.Guards.{state_text}
use ori_skills_hub.Database.Writes.{update_jobs, insert_event, check_deferred}
use ori_skills_hub.Publication.Transitions.{audit_rows, insert_audits}
use ori_skills_hub.ScanQueue.{bounded}
use ori_skills_hub.ScanQueue.Reports.{owns}
use ori_skills_hub.ScanQueue.Evidence.{stats_json}

pub record Completion : Type 0 where
  pub job_id : Text
  pub worker_id : Text
  pub state : ScanJobState
  pub verdict : Text
  pub detail : Text
  pub stats : Option Fields

-- The identifiers and clocks of one call.
pub record CallContext : Type 0 where
  pub now : ℕ
  pub event_id : Text
  pub audit_id : Text
  pub stamp : ℕ

-- The arguments after `_bounded` and `_stats_json`; `raw_verdict` is the argument as given.
pub record CleanCompletion : Type 0 where
  pub job_id : Text
  pub owner : Text
  pub state : ScanJobState
  pub verdict : Text
  pub raw_verdict : Text
  pub detail : Text
  pub stats : Stats

unfoldable pub completes : CleanCompletion → ℕ → ScanJob → Bool
completes c now j = owns c.job_id c.owner now j && not (is_terminal j.state)

unfoldable pub completed : CleanCompletion → ℕ → ScanJob → ScanJob
completed c now j = record j {
  state = c.state;
  verdict = some c.verdict;
  detail = c.detail;
  stats = c.stats;
  completed_at = some now;
  last_polled_at = some now;
  lease_owner = none;
  lease_expires_at = none;
  updated_at = now;
}

abbrev pub completion_event : CleanCompletion → CallContext → ScanJob → ScanEvent
completion_event c x j = record {
  id = x.event_id;
  scan_job_id = c.job_id;
  state = c.state;
  attempt_count = j.attempt_count;
  verdict = some c.raw_verdict;
  detail = c.detail;
  stats = c.stats;
  worker_id = some c.owner;
  occurred_at = x.stamp;
}

-- The status that a scan result moves its skill to.
unfoldable pub scan_target : ScanJobState → Option SkillStatus
scan_target ScanJobState.clean = some listed
scan_target malicious = some rejected
scan_target _ = none

-- The skills that the INSERT ... SELECT takes.
unfoldable pub settles : ScanJob → SkillStatus → SkillVersion → Bool
settles j target s =
    text_eq s.artifact_id j.artifact_id
    && status_eq s.status pending_review
    && (status_eq target rejected || not s.declares_tier_cd)

unfoldable pub scan_audit :
    CleanCompletion
    → CallContext
    → ScanJob
    → SkillStatus
    → SkillVersion
    → Artifact
    → SkillTransitionAudit
scan_audit c x j target s art = record {
  id = x.audit_id;
  skill_version_id = s.id;
  transition_number = s.revision + 1;
  actor_id = c.owner;
  prior_status = some pending_review;
  new_status = target;
  reason = c.detail;
  occurred_at = x.stamp;
  correlation_id = j.correlation_id;
  idempotency_key = codes "scan:" ++ (c.job_id ++ (codes ":" ++ state_text c.state));
  artifact_digest = art.artifact_digest;
  manifest_digest = art.manifest_digest;
}

unfoldable pub settle_to : CleanCompletion → CallContext → ScanJob → Option SkillStatus → Tx Bool
unfolding settles scan_audit
settle_to c x j none db = ok (true, db)
settle_to c x j (some target) db = do
  db1 ←
      insert_audits (audit_rows (settles j target) (scan_audit c x j target) db.artifacts db.skills)
        db
  db2 ← check_deferred db1
  ok (true, db2)

-- `existing is not None and existing.state in _TERMINAL_STATES`
unfoldable pub already_terminal : Option ScanJob → Bool
already_terminal none = false
already_terminal (some j) = is_terminal j.state

unfoldable pub finish_job : CleanCompletion → CallContext → Option ScanJob → Tx Bool
unfolding completed already_terminal settle_to scan_target
finish_job c x none db =
    if already_terminal (find (λ j. text_eq j.id c.job_id) db.jobs)
    then ok (false, db)
    else err persistence_conflict
finish_job c x (some j) db = do
  db1 ← update_jobs true (completes c x.now) (completed c x.now) db
  db2 ← insert_event (completion_event c x j) db1
  settle_to c x j (scan_target c.state) db2

unfoldable pub complete_job : CleanCompletion → CallContext → Tx Bool
unfolding completes owns finish_job
complete_job c x db = finish_job c x (find (completes c x.now) db.jobs) db

unfoldable pub clean_completion : Completion → Result DbError CleanCompletion
clean_completion c = do
  guard (is_terminal c.state) value_error
  owner ← bounded c.worker_id 255
  detail ← bounded c.detail 1024
  stats ← stats_json c.stats
  verdict ← bounded c.verdict 32
  ok (record {
    job_id = c.job_id;
    owner = owner;
    state = c.state;
    verdict = verdict;
    raw_verdict = c.verdict;
    detail = detail;
    stats = stats;
  })

unfoldable pub complete : Completion → CallContext → Tx Bool
unfolding clean_completion complete_job
complete c x db = do clean ← clean_completion c; integrity_as_conflict (complete_job clean x db)
