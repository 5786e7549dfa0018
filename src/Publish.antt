-- ===== src/Publish.antt =====
-- hub/core/publish.py, with the signing methods of hub/security/hub_keys.py that it calls and the
-- two queries of hub/db/repository.py that it makes. The private keys, the content-addressed store
-- and the scanner are arguments. The result's artifact digest is that of the store.
pub mod Pipeline
pub mod Accepted
pub mod Admitted
pub mod Gate
use ori_skills_hub.Prelude.{
  ℕ, ◌+◌, Text, Bool, true, false, not, ◌&&◌, ◌||◌, Option, none, some, List, [], ◌∷◌, ◌++◌, any,
  take, length, codes, text_eq, Result, ok, err, ◌>>=◌, ◌>>◌, guard, reject, if◌then◌else◌,
}
use ori_skills_hub.Core.{
  SkillStatus, ScannerVerdict, pending_review, listed, status_eq, ScanJobState, pending_submission,
}
use ori_skills_hub.Value.{pos, Value, str, obj, Fields, end, field, name, put}
use ori_skills_hub.Database.{Db, SkillVersion, SkillTransitionAudit, DbError, persistence_conflict}
use ori_skills_hub.Publication.{NewIds, NewPublication, NewScanJob, create_publication}
use ori_skills_hub.Publication.Inputs.{required}
use ori_skills_hub.Publication.Transitions.{is_version}
use ori_skills_hub.Scanner.{ScanResult}
use ori_skills_hub.Validation.{SkillValidationError}
use ori_skills_hub.Validation.Package.{
  SkillValidationResult, validate_skill_metadata, PublishDecision, publish_decision,
}
use ori_skills_hub.Signing.{
  SignatureError, Bytes, Crypto, wire_signature, digest_prefix, canonical_manifest_bytes,
  ArtifactSignatureMetadata, verify_manifest_signature, verify_artifact_signature,
}
use ori_skills_hub.Archive.{ArchiveError, TarballLimits, Platform}
use ori_skills_hub.Archive.Inspection.{SkillYamlDocument, extract_skill_yaml}
use ori_skills_hub.Archive.Rebuild.{rebuild_tarball}

pub data PublishError : Type 0 where
  replay author_mismatch conflict storage_error : PublishError
  database : DbError → PublishError
  signature_error : SignatureError → PublishError
  archive_error : ArchiveError → PublishError
  validation_error : SkillValidationError → PublishError

abbrev pub raised_as : {E A : Type 0} → (E → PublishError) → Result E A → Result PublishError A
raised_as wrap (ok a) = ok a
raised_as wrap (err e) = err (wrap e)

-- `HubSigningKeys`: what the two private keys make of bytes, and their public anchors.
pub record HubSigningKeys : Type 0 where
  pub manifest_private_key : Bytes → Bytes
  pub artifact_private_key : Bytes → Bytes
  pub manifest_public_key_b64 : Text
  pub artifact_public_key_b64 : Text

unfoldable pub sign_manifest : Crypto → HubSigningKeys → Fields → Result SignatureError Text
sign_manifest c keys parsed_skill = do
  bytes ← canonical_manifest_bytes c parsed_skill
  ok (wire_signature c (keys.manifest_private_key bytes))

unfoldable pub sign_artifact : Crypto → HubSigningKeys → Bytes → ArtifactSignatureMetadata
sign_artifact c keys artifact_bytes = record {
  artifact_sha256 = digest_prefix ++ c.sha256_hex artifact_bytes;
  schema = codes "ori.skill_artifact_signature.v1";
  signature = wire_signature c (keys.artifact_private_key artifact_bytes);
}

-- The metadata as a mapping.
abbrev pub metadata_fields : ArtifactSignatureMetadata → Fields
metadata_fields m = field (name (codes "artifact_sha256")) (str m.artifact_sha256) (
    field (name (codes "schema")) (str m.schema)
      (field (name (codes "signature")) (str m.signature) end))

unfoldable pub publication_recorded_for_idempotency_key : Text → Text → Db → Result DbError Bool
publication_recorded_for_idempotency_key actor_id idempotency_key db = do
  actor ← required actor_id
  key ← required idempotency_key
  ok (
      any (λ (a : SkillTransitionAudit). text_eq a.actor_id actor && text_eq a.idempotency_key key)
        db.audits)

unfoldable pub skill_version_exists : Text → Text → Db → Result DbError Bool
unfolding is_version
skill_version_exists skill_name version db = do
  clean_name ← required skill_name
  clean_version ← required version
  ok (any (is_version clean_name clean_version) db.skills)

-- What the scanner's executor gives within its time: a result, or an exception of this type.
pub data ScanRun : Type 0 where
  scanned : ScanResult → ScanRun
  raised : Text → ScanRun

unfoldable pub verdict_for : ScanResult → ScannerVerdict × Text
verdict_for result =
    let detail = take 1024 result.detail in
    if text_eq result.status (codes "clean")
    then (ScannerVerdict.clean, detail)
    else if text_eq result.status (codes "skipped")
    then (ScannerVerdict.unavailable, detail)
    else (ScannerVerdict.suspicious, detail)

-- `_scan_with_timeout`
unfoldable pub scan_with_timeout : ScanRun → ScannerVerdict × Text
unfolding verdict_for
scan_with_timeout (scanned result) = verdict_for result
scan_with_timeout (raised type_name) =
    (ScannerVerdict.unavailable, codes "scanner unavailable: " ++ type_name)

abbrev pub is_clean : ScannerVerdict → Bool
is_clean ScannerVerdict.clean = true
is_clean _ = false

-- The collaborators of a call, with the identifiers that it draws and the database's clock.
pub record Services : Type 0 where
  pub platform : Platform
  pub crypto : Crypto
  pub signing_keys : HubSigningKeys
  pub tarball_limits : TarballLimits
  pub store : Bytes → Option Text
  pub scanner : Bytes → ScanRun
  pub ids : NewIds
  pub scan_job_id : Text
  pub now : ℕ

-- The other keyword arguments; `actor_id`, `display_handle` and `public_key_b64` are those of the
-- authenticated author.
pub record Upload : Type 0 where
  pub upload_bytes : Bytes
  pub author_metadata : ArtifactSignatureMetadata
  pub actor_id : Text
  pub display_handle : Text
  pub public_key_b64 : Text
  pub reason : Text
  pub correlation_id : Text
  pub idempotency_key : Text
  pub defer_scan : Bool

-- The verdict, its detail and the status to begin with.
pub record Admission : Type 0 where
  pub verdict : ScannerVerdict
  pub detail : Text
  pub initial_status : SkillStatus

unfoldable pub admission : PublishDecision → Bool → ScanRun → Admission
admission decision true run = record {
  verdict = ScannerVerdict.unavailable;
  detail = codes "asynchronous scan pending";
  initial_status = pending_review;
}
admission decision false run =
    let found = scan_with_timeout run in
    record {
      verdict = found.0;
      detail = found.1;
      initial_status =
          if status_eq decision.status listed && is_clean found.0 then listed else pending_review;
    }

-- `storage.store`
abbrev pub stored : Services → Bytes → Result PublishError Text
stored s bytes = elim (s.store bytes) [ none ↦ err storage_error | some key ↦ ok key ]

-- The storage key of a deferred upload.
unfoldable pub store_upload : Services → Upload → Bool → Result PublishError (Option Text)
store_upload s u true = do key ← stored s u.upload_bytes; ok (some key)
store_upload s u false = ok none

unfoldable pub new_scan_job : Services → Upload → Option Text → Option NewScanJob
new_scan_job s u none = none
new_scan_job s u (some storage_key) = some (record {
  job_id = s.scan_job_id;
  author_upload_digest = u.author_metadata.artifact_sha256;
  author_upload_storage_key = storage_key;
  correlation_id = u.correlation_id;
  idempotency_key = u.idempotency_key;
  provider = codes "virustotal";
})

abbrev pub conflict_or : DbError → PublishError
conflict_or persistence_conflict = conflict
conflict_or e = database e

-- `PublishResult`
pub record PublishResult : Type 0 where
  pub name : Text
  pub version : Text
  pub status : SkillStatus
  pub artifact_digest : Text
  pub manifest_digest : Text
  pub scan_job_id : Option Text
  pub scanner_state : Option ScanJobState
