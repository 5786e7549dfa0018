-- ===== src/Publication.antt =====
-- hub/db/repository.py: the operations of HubRepository that change the tables. An identifier from
-- `new_record_id()` and the database's clock are arguments. `committed` of Database.antt gives the
-- tables after the call.
pub mod Inputs
pub mod Transitions
use ori_skills_hub.Prelude.{
  ℕ, suc, ◌+◌, Text, Bool, true, false, not, ◌&&◌, ◌||◌, Option, none, some, List, [], ◌∷◌, find,
  select, update_where, length, codes, text_eq, is_some, is_none, leb, Result, ok, err, ◌>>=◌, ◌>>◌,
  guard, reject, if◌then◌else◌,
}
use ori_skills_hub.Value.{ℤ, pos, negsuc}
use ori_skills_hub.Core.{
  SkillStatus, ScannerVerdict, pending_review, listed, rejected, unlisted, pending_submission,
  status_eq,
}
use ori_skills_hub.Database.{
  Db, Tx, Artifact, SkillVersion, SkillTransitionAudit, ScanJob, ScanEvent, DbError, value_error,
  invalid_state_transition, integrity_as_conflict,
}
use ori_skills_hub.Database.Writes.{
  Write, insert_artifact, insert_audit, insert_skill, insert_job, insert_event, check_deferred,
}
use Inputs.{required, audit_reason, digest}

pub record NewScanJob : Type 0 where
  pub job_id : Text
  pub author_upload_digest : Text
  pub author_upload_storage_key : Text
  pub correlation_id : Text
  pub idempotency_key : Text
  pub provider : Text

-- The keyword arguments of `create_publication`.
pub record NewPublication : Type 0 where
  pub name : Text
  pub version : Text
  pub artifact_digest : Text
  pub manifest_digest : Text
  pub storage_key : Text
  pub byte_size : ℤ
  pub artifact_signature : Text
  pub manifest_signature : Text
  pub scanner_verdict : ScannerVerdict
  pub scanner_detail : Text
  pub author_artifact_digest : Text
  pub author_artifact_signature : Text
  pub declares_tier_cd : Bool
  pub initial_status : SkillStatus
  pub authenticated_actor_id : Text
  pub reason : Text
  pub correlation_id : Text
  pub idempotency_key : Text
  pub scan_job : Option NewScanJob

-- The identifiers that one call of `create_publication` draws.
pub record NewIds : Type 0 where
  pub artifact : Text
  pub skill : Text
  pub audit : Text
  pub event : Text

abbrev storage_key_differs : Option NewScanJob → Bool
storage_key_differs none = false
storage_key_differs (some j) = not (text_eq j.author_upload_storage_key j.author_upload_digest)

abbrev to_byte_size : ℤ → Result DbError ℕ
to_byte_size (pos n) = ok n
to_byte_size (negsuc n) = err value_error

-- The tests at the head of `create_publication`.
unfoldable pub check_publication : NewPublication → Result DbError (Unit {0})
check_publication p = do
  guard (status_eq p.initial_status pending_review || status_eq p.initial_status listed)
      invalid_state_transition
  reject (p.declares_tier_cd && status_eq p.initial_status listed) invalid_state_transition
  reject (is_some p.scan_job && not (status_eq p.initial_status pending_review))
      invalid_state_transition
  reject (storage_key_differs p.scan_job) value_error
  guard (leb (length p.scanner_detail) 1024) value_error

unfoldable pub new_artifact : NewIds → ℕ → NewPublication → Result DbError Artifact
new_artifact ids now p = do
  byte_size ← to_byte_size p.byte_size
  artifact_digest ← digest p.artifact_digest
  manifest_digest ← digest p.manifest_digest
  storage_key ← required p.storage_key
  artifact_signature ← required p.artifact_signature
  manifest_signature ← required p.manifest_signature
  author_artifact_digest ← digest p.author_artifact_digest
  author_artifact_signature ← required p.author_artifact_signature
  ok (record {
    id = ids.artifact;
    artifact_digest = artifact_digest;
    manifest_digest = manifest_digest;
    storage_key = storage_key;
    byte_size = byte_size;
    artifact_signature = artifact_signature;
    manifest_signature = manifest_signature;
    scanner_verdict = p.scanner_verdict;
    scanner_detail = p.scanner_detail;
    author_artifact_digest = author_artifact_digest;
    author_artifact_signature = author_artifact_signature;
    created_at = now;
  })

unfoldable pub new_skill : NewIds → ℕ → NewPublication → Text → Result DbError SkillVersion
new_skill ids now p actor_id = do
  name ← required p.name
  version ← required p.version
  ok (record {
    id = ids.skill;
    name = name;
    version = version;
    author_id = actor_id;
    artifact_id = ids.artifact;
    status = p.initial_status;
    declares_tier_cd = p.declares_tier_cd;
    requires_scan = is_some p.scan_job;
    downloads = 0;
    review_approved_at = none;
    review_approved_by = none;
    revision = 1;
    created_at = now;
    updated_at = now;
  })

unfoldable pub initial_audit :
    NewIds → ℕ → NewPublication → Text → Artifact → Result DbError SkillTransitionAudit
initial_audit ids now p actor_id artifact = do
  reason ← audit_reason p.reason
  correlation_id ← required p.correlation_id
  idempotency_key ← required p.idempotency_key
  ok (record {
    id = ids.audit;
    skill_version_id = ids.skill;
    transition_number = 1;
    actor_id = actor_id;
    prior_status = none;
    new_status = p.initial_status;
    reason = reason;
    occurred_at = now;
    correlation_id = correlation_id;
    idempotency_key = idempotency_key;
    artifact_digest = artifact.artifact_digest;
    manifest_digest = artifact.manifest_digest;
  })

unfoldable pub new_job : Artifact → ℕ → NewScanJob → Result DbError ScanJob
new_job artifact now j = do
  id ← required j.job_id
  provider ← required j.provider
  correlation_id ← required j.correlation_id
  idempotency_key ← required j.idempotency_key
  author_upload_digest ← digest j.author_upload_digest
  author_upload_storage_key ← required j.author_upload_storage_key
  ok (record {
    id = id;
    artifact_id = artifact.id;
    provider = provider;
    provider_analysis_id = none;
    state = pending_submission;
    attempt_count = 0;
    next_attempt_at = now;
    lease_owner = none;
    lease_expires_at = none;
    submitted_at = none;
    last_polled_at = none;
    completed_at = none;
    verdict = none;
    detail = codes "awaiting provider submission";
    stats = [];
    correlation_id = correlation_id;
    idempotency_key = idempotency_key;
    author_upload_digest = author_upload_digest;
    author_upload_storage_key = author_upload_storage_key;
    created_at = now;
    updated_at = now;
  })

abbrev pub admission_event : Text → ℕ → ScanJob → ScanEvent
admission_event id now job = record {
  id = id;
  scan_job_id = job.id;
  state = job.state;
  attempt_count = 0;
  verdict = none;
  detail = job.detail;
  stats = [];
  worker_id = none;
  occurred_at = now;
}

unfoldable pub admit_scan_job : NewIds → ℕ → Artifact → Option NewScanJob → Db → Write
admit_scan_job ids now artifact none db = ok db
admit_scan_job ids now artifact (some j) db = do
  job ← new_job artifact now j
  db1 ← insert_job job db
  insert_event (admission_event ids.event now job) db1

-- The ORM's `_validate_initial_skill`, before the row is inserted.
unfoldable pub validate_initial_skill : SkillVersion → Result DbError (Unit {0})
validate_initial_skill s = do
  guard (status_eq s.status pending_review || status_eq s.status listed) invalid_state_transition
  reject (s.declares_tier_cd && status_eq s.status listed) invalid_state_transition
  reject (s.requires_scan && status_eq s.status listed) invalid_state_transition

-- The unit of work of `create_publication`: artifact, scan job with its event, audit, skill.
unfoldable pub write_publication :
    NewIds → ℕ → NewPublication → Artifact → SkillTransitionAudit → SkillVersion → Db → Write
write_publication ids now p artifact audit skill db = do
  db1 ← insert_artifact artifact db
  db2 ← admit_scan_job ids now artifact p.scan_job db1
  db3 ← insert_audit audit db2
  validate_initial_skill skill
  db4 ← insert_skill skill db3
  check_deferred db4

unfoldable pub create_publication : NewIds → ℕ → NewPublication → Tx SkillVersion
create_publication ids now p db = do
  check_publication p
  actor_id ← required p.authenticated_actor_id
  artifact ← new_artifact ids now p
  skill ← new_skill ids now p actor_id
  audit ← initial_audit ids now p actor_id artifact
  db' ← integrity_as_conflict (write_publication ids now p artifact audit skill db)
  ok (skill, db')
