-- ===== src/Database.antt =====
-- hub/db/_models.py: the rows of the tables that publication and scanning use, and a transaction.
-- A column of String type is a `Text`, a nullable one an `Option`, a timestamp a number of
-- microseconds. `stats_json` is kept as the mapping that it encodes, `"{}"` as the empty one.
-- A table is a list of rows, the newest first.

pub mod Guards
pub mod JobGuards
pub mod Writes
use ori_skills_hub.Prelude.{ℕ, Text, Bool, Option, List, [], Result, ok, err}
use ori_skills_hub.Core.{SkillStatus, ScannerVerdict, ScanJobState}

pub data AuthorStatus : Type 0 where
  pending_registration active revoked : AuthorStatus

pub record Author : Type 0 where
  pub id : Text
  pub external_subject : Text
  pub display_handle : Text
  pub public_key_b64 : Text
  pub status : AuthorStatus
  pub identity_revision : ℕ

pub record Artifact : Type 0 where
  pub id : Text
  pub artifact_digest : Text
  pub manifest_digest : Text
  pub storage_key : Text
  pub byte_size : ℕ
  pub artifact_signature : Text
  pub manifest_signature : Text
  pub scanner_verdict : ScannerVerdict
  pub scanner_detail : Text
  pub author_artifact_digest : Text
  pub author_artifact_signature : Text
  pub created_at : ℕ

pub record SkillVersion : Type 0 where
  pub id : Text
  pub name : Text
  pub version : Text
  pub author_id : Text
  pub artifact_id : Text
  pub status : SkillStatus
  pub declares_tier_cd : Bool
  pub requires_scan : Bool
  pub downloads : ℕ
  pub review_approved_at : Option ℕ
  pub review_approved_by : Option Text
  pub revision : ℕ
  pub created_at : ℕ
  pub updated_at : ℕ

pub record SkillTransitionAudit : Type 0 where
  pub id : Text
  pub skill_version_id : Text
  pub transition_number : ℕ
  pub actor_id : Text
  pub prior_status : Option SkillStatus
  pub new_status : SkillStatus
  pub reason : Text
  pub occurred_at : ℕ
  pub correlation_id : Text
  pub idempotency_key : Text
  pub artifact_digest : Text
  pub manifest_digest : Text

abbrev pub Stats : Type 0
Stats = List (Text × ℕ)

pub record ScanJob : Type 0 where
  pub id : Text
  pub artifact_id : Text
  pub provider : Text
  pub provider_analysis_id : Option Text
  pub state : ScanJobState
  pub attempt_count : ℕ
  pub next_attempt_at : ℕ
  pub lease_owner : Option Text
  pub lease_expires_at : Option ℕ
  pub submitted_at : Option ℕ
  pub last_polled_at : Option ℕ
  pub completed_at : Option ℕ
  pub verdict : Option Text
  pub detail : Text
  pub stats : Stats
  pub correlation_id : Text
  pub idempotency_key : Text
  pub author_upload_digest : Text
  pub author_upload_storage_key : Text
  pub created_at : ℕ
  pub updated_at : ℕ

pub record ScanEvent : Type 0 where
  pub id : Text
  pub scan_job_id : Text
  pub state : ScanJobState
  pub attempt_count : ℕ
  pub verdict : Option Text
  pub detail : Text
  pub stats : Stats
  pub worker_id : Option Text
  pub occurred_at : ℕ

pub record Db : Type 0 where
  pub authors : List Author
  pub artifacts : List Artifact
  pub skills : List SkillVersion
  pub audits : List SkillTransitionAudit
  pub jobs : List ScanJob
  pub events : List ScanEvent

-- hub/db/errors.py, with `ValueError` and SQLAlchemy's `IntegrityError` and `MultipleResultsFound`.
pub data DbError : Type 0 where
  value_error persistence_conflict record_not_found invalid_state_transition : DbError
  integrity_error multiple_results : DbError

-- `except IntegrityError`
abbrev pub integrity_as_conflict : {A : Type 0} → Result DbError A → Result DbError A
integrity_as_conflict (ok a) = ok a
integrity_as_conflict (err integrity_error) = err persistence_conflict
integrity_as_conflict (err e) = err e

-- The body of `async with database.transaction()`: an exception rolls everything back, so an error
-- carries no database.
abbrev pub Tx : Type 0 → Type 0
Tx A = Db → Result DbError (A × Db)

-- What the caller sees after the transaction: the outcome, and the database that is then current.
unfoldable pub committed : {A : Type 0} → Db → Result DbError (A × Db) → Db
committed db (ok (a, db')) = db'
committed db (err e) = db

abbrev pub empty_tables : List Author → Db
empty_tables authors = record {
  authors = authors;
  artifacts = [];
  skills = [];
  audits = [];
  jobs = [];
  events = [];
}
