-- ===== src/Publish/Accepted.antt =====
-- hub/core/publish.py: the uploads that `publish_skill` publishes.
use ori_skills_hub.Prelude.{
  ◌≡◌, ap, subst, codes, text_eq, text_eq_iff, Result, ok, err, >>=-eq-ok, ok-eq, guard-eq-ok,
  reject-eq-ok,
}
use ori_skills_hub.Value.{str, obj, Fields, put}
use ori_skills_hub.Database.{Db}
use ori_skills_hub.Validation.Package.{SkillValidationResult, validate_skill_metadata}
use ori_skills_hub.Validation.Package.Authority.{IsPackage, validate_skill_metadata-IsPackage}
use ori_skills_hub.Signing.{Crypto, Bytes, verify_manifest_signature, verify_artifact_signature}
use ori_skills_hub.Signing.Wire.{IsSigned, verify_artifact_signature-IsSigned}
use ori_skills_hub.Archive.{TarballLimits, Platform}
use ori_skills_hub.Archive.Inspection.{
  ArchiveInspection, SkillYamlDocument, inspect_tarball, extract_skill_yaml,
}
use ori_skills_hub.Archive.Inspection.Packages.{IsArchive, inspect_tarball-IsArchive}
use ori_skills_hub.Archive.Rebuild.{rebuild_tarball}
use ori_skills_hub.Archive.Rebuild.Rebuilt.{IsRebuilt, rebuild_tarball-IsRebuilt}
use ori_skills_hub.Publish.{
  PublishError, replay, author_mismatch, conflict, database, signature_error, archive_error,
  validation_error, raised_as, sign_manifest, sign_artifact, metadata_fields,
  publication_recorded_for_idempotency_key, skill_version_exists, Services, Upload,
}
use ori_skills_hub.Publish.Pipeline.{accept_upload, SignedPackage, sign_package}

pub raised_as-ok :
    {E A : Type 0} (wrap : E → PublishError) (r : Result E A) {a : A}
    → raised_as wrap r ≡ ok a
    → r ≡ ok a
raised_as-ok wrap (ok b) {a} h = ap ok (ok-eq b a h)
raised_as-ok wrap (err e) h = cc

-- An upload that the author has signed, whose archive is accepted, and whose package is valid and
-- names the author.
pub record IsUpload (s : Services) (u : Upload) (manifest : Fields)
    (validation : SkillValidationResult) : Type 0 where
  pub signed : IsSigned s.crypto u.upload_bytes (metadata_fields u.author_metadata) u.public_key_b64
  pub archive : ArchiveInspection
  pub is_archive : IsArchive s.platform s.crypto s.tarball_limits archive
  pub mapping : archive.manifest.mapping ≡ manifest
  pub is_package : IsPackage (obj manifest) validation
  pub authored : validation.author ≡ u.display_handle

extract_skill_yaml-IsArchive :
    (p : Platform) (c : Crypto) (limits : TarballLimits) (bytes : Bytes) (d : SkillYamlDocument)
    → extract_skill_yaml p c limits bytes ≡ ok d
    → (a : ArchiveInspection) × IsArchive p c limits a × (a.manifest ≡ d)
unfolding extract_skill_yaml
extract_skill_yaml-IsArchive p c limits bytes d h =
    let (a, e, k) = >>=-eq-ok (inspect_tarball p c limits bytes) _ h in
    (a, inspect_tarball-IsArchive p c limits bytes a e, ok-eq a.manifest d k)

pub accept_upload-IsUpload :
    (s : Services) (u : Upload) (db : Db) (accepted : Fields × SkillValidationResult)
    → accept_upload s u db ≡ ok accepted
    → IsUpload s u accepted.0 accepted.1
unfolding accept_upload
accept_upload-IsUpload s u db accepted h =
    let (seen, _, k) =
      >>=-eq-ok
        (raised_as database
          (publication_recorded_for_idempotency_key u.actor_id u.idempotency_key db))
        _ h in
    let (_, k1) = reject-eq-ok seen replay _ k in
    let (_, e2, k2) =
      >>=-eq-ok
        (raised_as signature_error (
          verify_artifact_signature s.crypto u.upload_bytes (metadata_fields u.author_metadata)
            u.public_key_b64))
        _ k1 in
    let (d, e3, k3) =
      >>=-eq-ok
        (raised_as archive_error
          (extract_skill_yaml s.platform s.crypto s.tarball_limits u.upload_bytes))
        _ k2 in
    let (v, e4, k4) =
      >>=-eq-ok (raised_as validation_error (validate_skill_metadata (obj d.mapping))) _ k3 in
    let (author, k5) = guard-eq-ok (text_eq v.author u.display_handle) author_mismatch _ k4 in
    let (exists, _, k6) =
      >>=-eq-ok (raised_as database (skill_version_exists v.name v.version db)) _ k5 in
    let (_, k7) = reject-eq-ok exists conflict _ k6 in
    let (a, is_archive, m) =
      extract_skill_yaml-IsArchive s.platform s.crypto s.tarball_limits u.upload_bytes d
        (raised_as-ok archive_error _ e3) in
    subst (λ (x : Fields × SkillValidationResult). IsUpload s u x.0 x.1)
      (ok-eq (d.mapping, v) accepted k7)
      (record {
        signed =
            verify_artifact_signature-IsSigned s.crypto u.upload_bytes _ u.public_key_b64
              (raised_as-ok signature_error _ e2);
        archive = a;
        is_archive = is_archive;
        mapping = ap (λ (x : SkillYamlDocument). x.mapping) m;
        is_package =
            validate_skill_metadata-IsPackage (obj d.mapping) v
              (raised_as-ok validation_error _ e4);
        authored = (text_eq_iff v.author u.display_handle).0 author;
      })

-- What the Hub has signed is verified under its anchor, and is rebuilt from the upload.
pub record IsRelease (s : Services) (u : Upload) (r : SignedPackage) : Type 0 where
  pub rebuilt :
      IsRebuilt s.platform s.crypto s.tarball_limits u.upload_bytes r.signed_manifest r.final_bytes
  pub signed :
      IsSigned s.crypto r.final_bytes
        (metadata_fields r.artifact_metadata)
        s.signing_keys.artifact_public_key_b64
  pub manifest_verified :
      verify_manifest_signature s.crypto r.signed_manifest s.signing_keys.manifest_public_key_b64
      ≡ ok tt

pub sign_package-IsRelease :
    (s : Services) (u : Upload) (manifest : Fields) (r : SignedPackage)
    → sign_package s u manifest ≡ ok r
    → IsRelease s u r
unfolding sign_package
sign_package-IsRelease s u manifest r h =
    let (signature, _, k) =
      >>=-eq-ok (raised_as signature_error (sign_manifest s.crypto s.signing_keys manifest)) _ h in
    let signed = put manifest (codes "signature") (str signature) in
    let (final, e1, k1) =
      >>=-eq-ok
        (raised_as archive_error
          (rebuild_tarball s.platform s.crypto s.tarball_limits u.upload_bytes signed))
        _ k in
    let metadata = sign_artifact s.crypto s.signing_keys final in
    let (_, e2, k2) =
      >>=-eq-ok
        (raised_as signature_error
          (verify_manifest_signature s.crypto signed s.signing_keys.manifest_public_key_b64))
        _ k1 in
    let (_, e3, k3) =
      >>=-eq-ok
        (raised_as signature_error (
          verify_artifact_signature s.crypto final (metadata_fields metadata)
            s.signing_keys.artifact_public_key_b64))
        _ k2 in
    subst (IsRelease s u) (ok-eq _ r k3) (record {
      rebuilt =
          rebuild_tarball-IsRebuilt s.platform s.crypto s.tarball_limits u.upload_bytes signed final
            (raised_as-ok archive_error _ e1);
      signed =
          verify_artifact_signature-IsSigned s.crypto final _ _ (raised_as-ok signature_error _ e3);
      manifest_verified = raised_as-ok signature_error _ e2;
    })
