-- ===== src/Scenarios/Releases.antt =====
-- The theorem on `publish_skill` at one upload, whose scan is deferred.
use ori_skills_hub.Publish.{
  publication_recorded_for_idempotency_key, metadata_fields, raised, Services, Upload,
  PublishResult,
}
use ori_skills_hub.Signing.{
  unverified, decode_signature, canonical_manifest_bytes, ArtifactSignatureMetadata,
  verify_artifact_signature,
}
use ori_skills_hub.Prelude.{
  err, false, strip, all, join, text_eq, split, any, starts_with, ◌≡◌, refl, Text, true, some, [],
  ◌∷◌, ◌++◌, codes, ok,
}
use ori_skills_hub.Publication.Inputs.{required}
use ori_skills_hub.Validation.Package.{declares_tier_cd}
use ori_skills_hub.Value.{get, str, Fields, put}
use ori_skills_hub.Archive.Inspection.{extract_skill_yaml, last_part, inspect_tarball}
use ori_skills_hub.Archive.Document.{parse_skill_yaml}
use ori_skills_hub.Archive.Tree.{validate_path_relationships}
use ori_skills_hub.Archive.Names.{
  stem, ends_badly, check_component, has_drive, drop_empty_last, canonical_member_name,
}
use ori_skills_hub.Core.{pending_review, pending_submission}
use ori_skills_hub.Database.{Db, empty_tables}
use ori_skills_hub.Archive.{default_limits}
use ori_skills_hub.Signing.Wire.{IsSigned, verify_artifact_signature-IsSigned}
use ori_skills_hub.Archive.Rebuild.{rebuild_tarball}
use ori_skills_hub.Archive.Rebuild.Rebuilt.{IsRebuilt, rebuild_tarball-IsRebuilt}
use ori_skills_hub.Publish.Pipeline.{SignedPackage, publish_skill}
use ori_skills_hub.Scenarios.{alice, ids, digest_of}
use ori_skills_hub.Scenarios.Tables.{pump_artifact, pump_pending, pump_audit, published}
use ori_skills_hub.Scenarios.Packages.{root}
use ori_skills_hub.Scenarios.Archives.{repeated, crypto, platform, signature}

abbrev wire : Text
wire = codes "ed25519:" ++ signature

abbrev metadata : ArtifactSignatureMetadata
metadata = record {
  artifact_sha256 = digest_of 49;
  schema = codes "ori.skill_artifact_signature.v1";
  signature = wire;
}

abbrev anchor : Text
anchor = repeated 32 66

abbrev services : Services
services = record {
  platform = platform;
  crypto = crypto;
  signing_keys = record {
    manifest_private_key = λ bytes. signature;
    artifact_private_key = λ bytes. signature;
    manifest_public_key_b64 = anchor;
    artifact_public_key_b64 = anchor;
  };
  tarball_limits = default_limits;
  store = λ bytes. some (digest_of 49);
  scanner = λ bytes. raised (codes "TimeoutError");
  ids = ids;
  scan_job_id = codes "job";
  now = 100;
}

abbrev sent : Upload
sent = record {
  upload_bytes = 80 ∷ [];
  author_metadata = metadata;
  actor_id = codes "alice";
  display_handle = codes "alice";
  public_key_b64 = anchor;
  reason = codes "first";
  correlation_id = codes "c";
  idempotency_key = codes "k1";
  defer_scan = true;
}

abbrev signed_manifest : Fields
signed_manifest = put root (codes "signature") (str wire)

abbrev release : SignedPackage
release = record {
  manifest_signature = wire;
  signed_manifest = signed_manifest;
  final_bytes = codes "rebuilt";
  artifact_metadata = metadata;
}

abbrev released : Db
released = record published {
  artifacts =
      record pump_artifact {
        artifact_digest = digest_of 49;
        manifest_digest = digest_of 49;
        storage_key = digest_of 49;
        byte_size = 7;
        artifact_signature = wire;
        manifest_signature = wire;
        scanner_detail = codes "asynchronous scan pending";
        author_artifact_signature = wire;
      }
      ∷ [];
  skills = record pump_pending { declares_tier_cd = true } ∷ [];
  audits =
      record pump_audit { artifact_digest = digest_of 49; manifest_digest = digest_of 49 } ∷ [];
}

abbrev outcome : PublishResult
outcome = record {
  name = codes "pump";
  version = codes "1.0";
  status = pending_review;
  artifact_digest = digest_of 49;
  manifest_digest = digest_of 49;
  scan_job_id = some (codes "job");
  scanner_state = some pending_submission;
}

signed_result : verify_artifact_signature crypto (80 ∷ []) (metadata_fields metadata) anchor ≡ ok tt
unfolding publish_skill required strip any verify_artifact_signature text_eq all get starts_with
    extract_skill_yaml canonical_member_name drop_empty_last split has_drive join check_component
    ends_badly stem
signed_result = refl

verify_artifact_signature-IsSigned_example :
    IsSigned crypto (80 ∷ []) (metadata_fields metadata) anchor
verify_artifact_signature-IsSigned_example =
    verify_artifact_signature-IsSigned crypto (80 ∷ []) (metadata_fields metadata) anchor
      signed_result

rebuilt_result :
    rebuild_tarball platform crypto default_limits (80 ∷ []) signed_manifest ≡ ok (codes "rebuilt")
unfolding rebuild_tarball inspect_tarball canonical_member_name starts_with any drop_empty_last
    split text_eq has_drive join check_component ends_badly stem validate_path_relationships
    last_part parse_skill_yaml canonical_manifest_bytes all put get decode_signature
rebuilt_result = refl

rebuild_tarball-IsRebuilt_example :
    IsRebuilt platform crypto default_limits (80 ∷ []) signed_manifest (codes "rebuilt")
rebuild_tarball-IsRebuilt_example =
    rebuild_tarball-IsRebuilt platform crypto default_limits (80 ∷ []) signed_manifest
      (codes "rebuilt") rebuilt_result

used_key : publication_recorded_for_idempotency_key (codes "alice") (codes "k1") published ≡ ok true
unfolding publication_recorded_for_idempotency_key required strip any text_eq
used_key = refl

abbrev unsigned : Upload
unsigned = record sent { public_key_b64 = codes "short" }

new_key :
    publication_recorded_for_idempotency_key
      (codes "alice")
      (codes "k1")
      (empty_tables (alice ∷ []))
    ≡ ok false
unfolding publication_recorded_for_idempotency_key required strip any
new_key = refl

not_signed :
    verify_artifact_signature crypto (80 ∷ []) (metadata_fields metadata) (codes "short")
    ≡ err unverified
unfolding verify_artifact_signature any text_eq all get starts_with
not_signed = refl
