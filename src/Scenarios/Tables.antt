-- ===== src/Scenarios/Tables.antt =====
-- The tables after each of the calls that publish, scan and list one skill.
use ori_skills_hub.Prelude.{
  ℕ, ◌≡◌, refl, Text, Option, none, [], ◌∷◌, codes, true, false, text_eq, strip, all, any,
}
use ori_skills_hub.Core.{ScanJobState, ScannerVerdict, pending_review, pending_submission}
use ori_skills_hub.Database.{
  Db, Artifact, SkillVersion, SkillTransitionAudit, ScanJob, ScanEvent, Stats, empty_tables,
  committed,
}
use ori_skills_hub.Publication.{
  create_publication, check_publication, new_artifact, new_skill, initial_audit, write_publication,
  admit_scan_job, new_job, validate_initial_skill,
}
use ori_skills_hub.Publication.Inputs.{required, digest, audit_reason}
use ori_skills_hub.Database.Writes.{
  insert_artifact, insert_job, insert_event, insert_audit, apply_audit, insert_skill,
  check_deferred,
}
use ori_skills_hub.Database.JobGuards.{
  artifact_checks, job_validate_initial_state, job_checks, event_checks,
}
use ori_skills_hub.Database.Guards.{
  digest_column, audit_validate_state, audit_require_scan_evidence, audit_checks,
  skill_validate_initial_status, author_is_active, initial_audit_matches, skill_require_scan_job,
  skill_checks,
}
use ori_skills_hub.Lifecycle.{step}
use ori_skills_hub.Scenarios.{alice, digest_of, publish_pump}

abbrev pub pump_artifact : Artifact
pump_artifact = record {
  id = codes "artifact";
  artifact_digest = digest_of 50;
  manifest_digest = digest_of 51;
  storage_key = digest_of 50;
  byte_size = 10;
  artifact_signature = codes "sig";
  manifest_signature = codes "sig";
  scanner_verdict = ScannerVerdict.unavailable;
  scanner_detail = codes "";
  author_artifact_digest = digest_of 49;
  author_artifact_signature = codes "sig";
  created_at = 100;
}

abbrev pub pump_pending : SkillVersion
pump_pending = record {
  id = codes "skill";
  name = codes "pump";
  version = codes "1.0";
  author_id = codes "alice";
  artifact_id = codes "artifact";
  status = pending_review;
  declares_tier_cd = false;
  requires_scan = true;
  downloads = 0;
  review_approved_at = none;
  review_approved_by = none;
  revision = 1;
  created_at = 100;
  updated_at = 100;
}

abbrev pub pump_audit : SkillTransitionAudit
pump_audit = record {
  id = codes "audit1";
  skill_version_id = codes "skill";
  transition_number = 1;
  actor_id = codes "alice";
  prior_status = none;
  new_status = pending_review;
  reason = codes "first";
  occurred_at = 100;
  correlation_id = codes "c";
  idempotency_key = codes "k1";
  artifact_digest = digest_of 50;
  manifest_digest = digest_of 51;
}

abbrev pub new_scan : ScanJob
new_scan = record {
  id = codes "job";
  artifact_id = codes "artifact";
  provider = codes "virustotal";
  provider_analysis_id = none;
  state = pending_submission;
  attempt_count = 0;
  next_attempt_at = 100;
  lease_owner = none;
  lease_expires_at = none;
  submitted_at = none;
  last_polled_at = none;
  completed_at = none;
  verdict = none;
  detail = codes "awaiting provider submission";
  stats = [];
  correlation_id = codes "c";
  idempotency_key = codes "k1";
  author_upload_digest = digest_of 49;
  author_upload_storage_key = digest_of 49;
  created_at = 100;
  updated_at = 100;
}

abbrev pub scan_event :
    Text → ScanJobState → ℕ → Option Text → Text → Stats → Option Text → ℕ → ScanEvent
scan_event id state attempts verdict detail stats worker at = record {
  id = id;
  scan_job_id = codes "job";
  state = state;
  attempt_count = attempts;
  verdict = verdict;
  detail = detail;
  stats = stats;
  worker_id = worker;
  occurred_at = at;
}

abbrev pub published : Db
published = record {
  authors = alice ∷ [];
  artifacts = pump_artifact ∷ [];
  skills = pump_pending ∷ [];
  audits = pump_audit ∷ [];
  jobs = new_scan ∷ [];
  events =
      scan_event (codes "event1") pending_submission 0 none (codes "awaiting provider submission")
        [] none 100
      ∷ [];
}

pub publish_step : step (empty_tables (alice ∷ [])) (publish_pump false) ≡ published
unfolding step committed create_publication check_publication text_eq required strip new_artifact
    digest all new_skill initial_audit audit_reason write_publication insert_artifact any
    artifact_checks digest_column admit_scan_job new_job insert_job job_validate_initial_state
    job_checks insert_event event_checks insert_audit audit_validate_state
    audit_require_scan_evidence audit_checks apply_audit validate_initial_skill insert_skill
    skill_validate_initial_status author_is_active initial_audit_matches skill_require_scan_job
    skill_checks check_deferred
publish_step = refl
