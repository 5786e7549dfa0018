-- ===== src/Publish/Pipeline.antt =====
-- hub/core/publish.py: `publish_skill`.
use ori_skills_hub.Prelude.{
  Text, Bool, Option, none, some, ◌++◌, length, codes, text_eq, Result, ok, ◌>>=◌, ◌>>◌, guard,
  reject, if◌then◌else◌,
}
use ori_skills_hub.Core.{pending_submission}
use ori_skills_hub.Value.{pos, str, obj, Fields, put}
use ori_skills_hub.Database.{Db, SkillVersion}
use ori_skills_hub.Publication.{NewPublication, create_publication}
use ori_skills_hub.Validation.Package.{
  SkillValidationResult, validate_skill_metadata, PublishDecision, publish_decision,
}
use ori_skills_hub.Signing.{
  Bytes, digest_prefix, canonical_manifest_bytes, ArtifactSignatureMetadata,
  verify_manifest_signature, verify_artifact_signature,
}
use ori_skills_hub.Archive.Inspection.{extract_skill_yaml}
use ori_skills_hub.Archive.Rebuild.{rebuild_tarball}
use ori_skills_hub.Publish.{
  PublishError, replay, author_mismatch, conflict, database, signature_error, archive_error,
  validation_error, raised_as, sign_manifest, sign_artifact, metadata_fields,
  publication_recorded_for_idempotency_key, skill_version_exists, Services, Upload, Admission,
  admission, stored, store_upload, new_scan_job, conflict_or, PublishResult,
}

-- The steps up to the decision: the manifest of the upload, and what its validation gives.
unfoldable pub accept_upload :
    Services → Upload → Db → Result PublishError (Fields × SkillValidationResult)
unfolding publication_recorded_for_idempotency_key skill_version_exists
accept_upload s u db = do
  recorded ←
      raised_as database (publication_recorded_for_idempotency_key u.actor_id u.idempotency_key db)
  reject recorded replay
  raised_as signature_error (
      verify_artifact_signature s.crypto u.upload_bytes (metadata_fields u.author_metadata)
        u.public_key_b64)
  document ←
      raised_as archive_error
        (extract_skill_yaml s.platform s.crypto s.tarball_limits u.upload_bytes)
  validation ← raised_as validation_error (validate_skill_metadata (obj document.mapping))
  guard (text_eq validation.author u.display_handle) author_mismatch
  exists ← raised_as database (skill_version_exists validation.name validation.version db)
  reject exists conflict
  ok (document.mapping, validation)

pub record SignedPackage : Type 0 where
  pub manifest_signature : Text
  pub signed_manifest : Fields
  pub final_bytes : Bytes
  pub artifact_metadata : ArtifactSignatureMetadata

-- The manifest and the archive under the Hub's signatures, which are verified again.
unfoldable pub sign_package : Services → Upload → Fields → Result PublishError SignedPackage
unfolding sign_manifest sign_artifact
sign_package s u manifest = do
  manifest_signature ← raised_as signature_error (sign_manifest s.crypto s.signing_keys manifest)
  let signed_manifest = put manifest (codes "signature") (str manifest_signature)
  final_bytes ←
      raised_as archive_error
        (rebuild_tarball s.platform s.crypto s.tarball_limits u.upload_bytes signed_manifest)
  let artifact_metadata = sign_artifact s.crypto s.signing_keys final_bytes
  raised_as signature_error
      (verify_manifest_signature s.crypto signed_manifest s.signing_keys.manifest_public_key_b64)
  raised_as signature_error (
      verify_artifact_signature s.crypto final_bytes (metadata_fields artifact_metadata)
        s.signing_keys.artifact_public_key_b64)
  ok (record {
    manifest_signature = manifest_signature;
    signed_manifest = signed_manifest;
    final_bytes = final_bytes;
    artifact_metadata = artifact_metadata;
  })

unfoldable pub manifest_digest_of : Services → Fields → Result PublishError Text
manifest_digest_of s signed_manifest = do
  bytes ← raised_as signature_error (canonical_manifest_bytes s.crypto signed_manifest)
  ok (digest_prefix ++ s.crypto.sha256_hex bytes)

-- The keyword arguments of `create_publication`.
unfoldable pub publication_of :
    Services
    → Upload
    → SkillValidationResult
    → PublishDecision
    → Admission
    → SignedPackage
    → Text
    → Text
    → Option Text
    → NewPublication
unfolding new_scan_job
publication_of s u validation decision a signed artifact_digest manifest_digest upload_key =
    record {
      name = validation.name;
      version = validation.version;
      artifact_digest = artifact_digest;
      manifest_digest = manifest_digest;
      storage_key = artifact_digest;
      byte_size = pos (length signed.final_bytes);
      artifact_signature = signed.artifact_metadata.signature;
      manifest_signature = signed.manifest_signature;
      scanner_verdict = a.verdict;
      scanner_detail = a.detail;
      author_artifact_digest = u.author_metadata.artifact_sha256;
      author_artifact_signature = u.author_metadata.signature;
      declares_tier_cd = decision.declares_tier_cd;
      initial_status = a.initial_status;
      authenticated_actor_id = u.actor_id;
      reason = u.reason;
      correlation_id = u.correlation_id;
      idempotency_key = u.idempotency_key;
      scan_job = new_scan_job s u upload_key;
    }

unfoldable pub result_of : Services → Bool → SkillVersion → Text → Text → PublishResult
result_of s defer_scan skill artifact_digest manifest_digest = record {
  name = skill.name;
  version = skill.version;
  status = skill.status;
  artifact_digest = artifact_digest;
  manifest_digest = manifest_digest;
  scan_job_id = if defer_scan then some s.scan_job_id else none;
  scanner_state = if defer_scan then some pending_submission else none;
}

unfoldable pub publish_skill :
    Services → Upload → Db → Result PublishError (PublishResult × SkillVersion × Db)
unfolding accept_upload sign_package manifest_digest_of admission store_upload publication_of
    result_of
publish_skill s u db = do
  accepted ← accept_upload s u db
  decision ← raised_as validation_error (publish_decision (obj accepted.0))
  let a = admission decision u.defer_scan (s.scanner u.upload_bytes)
  signed ← sign_package s u accepted.0
  upload_key ← store_upload s u u.defer_scan
  artifact_digest ← stored s signed.final_bytes
  manifest_digest ← manifest_digest_of s signed.signed_manifest
  created ← raised_as conflict_or (
      create_publication s.ids s.now
        (publication_of s u accepted.1 decision a signed artifact_digest manifest_digest upload_key)
        db)
  ok (result_of s u.defer_scan created.0 artifact_digest manifest_digest, created.0, created.1)
