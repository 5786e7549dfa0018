-- ===== src/Publish/Gate.antt =====
-- hub/core/publish.py: the status that `publish_skill` publishes with.
use ori_skills_hub.Prelude.{◌≡◌, ◌⊎◌, true, false, some, List, Memᴰ, ◌++◌, map}
use ori_skills_hub.Core.{listed}
use ori_skills_hub.Value.{obj, Fields}
use ori_skills_hub.Database.{Db, SkillVersion}
use ori_skills_hub.Lifecycle.Published.{AwaitsScan}
use ori_skills_hub.Validation.{tier_a, tier_b, ActionTier}
use ori_skills_hub.Validation.Package.{SkillValidationResult, trigger_tier, action_tier}
use ori_skills_hub.Validation.Package.Authority.{IsPackage}
use ori_skills_hub.Publish.{Services, Upload, PublishResult}
use ori_skills_hub.Publish.Pipeline.{SignedPackage}
use ori_skills_hub.Publish.Accepted.{IsUpload, IsRelease}
use ori_skills_hub.Publish.Admitted.{FoundClean}

abbrev pub declared_by :
    {manifest : Fields} {v : SkillValidationResult} → IsPackage (obj manifest) v → List ActionTier
declared_by p = map trigger_tier p.triggers ++ map action_tier p.tiers

-- What a call that returns has published, and what it has written.
pub record IsPublication (s : Services) (u : Upload) (r : PublishResult × SkillVersion × Db)
    : Type 0 where
  pub manifest : Fields
  pub validation : SkillValidationResult
  pub upload : IsUpload s u manifest validation
  pub release : SignedPackage
  pub is_release : IsRelease s u release
  pub kept : s.store release.final_bytes ≡ some r.0.artifact_digest
  pub same_status : r.0.status ≡ r.1.status
  pub gated :
      r.0.status ≡ listed
      → (u.defer_scan ≡ false)
        × FoundClean (s.scanner u.upload_bytes)
        × ((v : SkillValidationResult) × (p : IsPackage (obj manifest) v) × ((t : ActionTier)
              → Memᴰ t (declared_by p)
              → (t ≡ tier_a) ⊎ (t ≡ tier_b)))
  pub awaiting : u.defer_scan ≡ true → AwaitsScan r.1 r.2
