-- ===== src/Validation/Package/Authority.antt =====
-- hub/core/validation.py and hub/core/review.py: the packages that are accepted, and how.
use ori_skills_hub.Prelude.{
  ◌≤◌, ◌≡◌, refl, subst, ◌⊎◌, inl, inr, Text, Bool, true, false, List, ◌++◌, Memᴰ, map, any,
  any-true, any-false, codes, leb→le, UniqueBy, ok, >>=-eq-ok, ok-eq, guard-eq-ok, if◌then◌else◌,
}
use ori_skills_hub.Core.{pending_review, listed}
use ori_skills_hub.Value.{Value, str, arr, obj, Items, nil, Fields, end, field, get, get_or}
use ori_skills_hub.Validation.{
  invalid, require_mapping, require_string, validate_json_value, ActionTier, tier_a, tier_b, tier_c,
  tier_d,
}
use ori_skills_hub.Validation.Json.{IsJson, validate_json_value-IsJson}
use ori_skills_hub.Validation.Reads.{require_mapping-obj, require_string-str}
use ori_skills_hub.Validation.Triggers.{TriggerPolicy, trigger_name, parse_sensors, parse_triggers}
use ori_skills_hub.Validation.Triggers.Authority.{AreTriggers, parse_triggers-Accepted}
use ori_skills_hub.Validation.Actions.{ActionTiers, parse_actions, entry_name}
use ori_skills_hub.Validation.Actions.Accepted.{AreActions, parse_actions-AreActions}
use ori_skills_hub.Validation.Package.{
  count_placeholders, max_history_placeholders, check_prompts, parse_prompts, SkillValidationResult,
  is_manual_review_tier, declares_tier_cd, trigger_tier, action_tier, check_signature,
  validate_skill_metadata, PublishDecision, publish_decision,
}

-- Every value is a template with at most so many placeholders.
unfoldable pub ArePrompts : Fields → Type 0
ArePrompts end = Unit
ArePrompts (field k v rest) =
    (template : Text) × (v ≡ str template)
    × (count_placeholders template ≤ max_history_placeholders)
    × ArePrompts rest

check_prompts-ArePrompts : (fields : Fields) → check_prompts fields ≡ ok tt → ArePrompts fields
unfolding check_prompts ArePrompts
check_prompts-ArePrompts end h = tt
check_prompts-ArePrompts (field k v rest) h =
    let (template, e, k1) = >>=-eq-ok (require_string false false v) _ h in
    let (few, k2) = guard-eq-ok _ invalid _ k1 in
    (
      template,
      require_string-str false false v template e,
      leb→le _ _ few,
      check_prompts-ArePrompts rest k2,
    )

-- The package of this metadata, and what its result says of it.
pub record IsPackage (skill_yaml : Value) (r : SkillValidationResult) : Type 0 where
  pub root : Fields
  pub items : Items
  pub triggers : List TriggerPolicy
  pub tiers : ActionTiers
  pub prompts : Fields
  pub is_mapping : skill_yaml ≡ obj root
  pub is_json : IsJson (obj root)
  pub named : get root (codes "name") ≡ str r.name
  pub versioned : get root (codes "version") ≡ str r.version
  pub authored : get root (codes "author") ≡ str r.author
  pub listed_triggers : get root (codes "triggers") ≡ arr items
  pub are_triggers : AreTriggers items triggers
  pub distinct_triggers : UniqueBy trigger_name triggers
  pub are_actions : AreActions (get root (codes "actions")) triggers tiers
  pub listed_prompts : get_or root (codes "prompts") (obj end) ≡ obj prompts
  pub are_prompts : ArePrompts prompts
  pub trigger_names : r.trigger_names ≡ map trigger_name triggers
  pub action_names : r.action_names ≡ map entry_name tiers
  pub declared : r.declared_tiers ≡ map trigger_tier triggers ++ map action_tier tiers

parse_prompts-ArePrompts :
    (v : Value) → parse_prompts v ≡ ok tt → (fields : Fields) × (v ≡ obj fields) × ArePrompts fields
unfolding parse_prompts
parse_prompts-ArePrompts v h =
    let (fields, e, k) = >>=-eq-ok (require_mapping v) check_prompts h in
    (fields, require_mapping-obj v fields e, check_prompts-ArePrompts fields k)

-- An accepted package is a mapping of JSON values with string names, that gives its name, version
-- and author. Its triggers are the items of `triggers`, in order, with the name, tier, approval,
-- reasoning policy and fallback that these give. They have different names, and only a Tier D trigger
-- bypasses the model, and it escalates to `rule` alone; only a Tier B trigger reasons after the
-- action; a Tier C trigger names a fallback. Its actions are the items of `actions.available`, in
-- order, with the name and tier that these give; they have different names, and each trigger is as
-- `IsAuthorised` says: its default actions are declared, different and at least one; those of
-- Tier D belong to a Tier D trigger; the fallback of a Tier C trigger logs or is a Tier A action;
-- and a Tier A or B trigger with a Tier B default is approved or notified, by a Tier A default.
-- Each prompt has at most 16 history placeholders. The result has the names and the tiers of these.
pub validate_skill_metadata-IsPackage :
    (skill_yaml : Value) (r : SkillValidationResult)
    → validate_skill_metadata skill_yaml ≡ ok r
    → IsPackage skill_yaml r
unfolding validate_skill_metadata
validate_skill_metadata-IsPackage skill_yaml r h =
    let (root, e, k) = >>=-eq-ok (require_mapping skill_yaml) _ h in
    let (_, e1, k1) = >>=-eq-ok (validate_json_value (obj root)) _ k in
    let (name, e2, k2) = >>=-eq-ok (require_string true true (get root (codes "name"))) _ k1 in
    let (version, e3, k3) =
      >>=-eq-ok (require_string true true (get root (codes "version"))) _ k2 in
    let (author, e4, k4) = >>=-eq-ok (require_string true true (get root (codes "author"))) _ k3 in
    let (_, _, k5) = >>=-eq-ok (check_signature (get root (codes "signature"))) _ k4 in
    let (_, _, k6) =
      >>=-eq-ok (parse_sensors (get_or root (codes "sensors_required") (arr nil))) _ k5 in
    let (triggers, e7, k7) = >>=-eq-ok (parse_triggers (get root (codes "triggers"))) _ k6 in
    let (tiers, e8, k8) = >>=-eq-ok (parse_actions (get root (codes "actions")) triggers) _ k7 in
    let (_, e9, k9) = >>=-eq-ok (parse_prompts (get_or root (codes "prompts") (obj end))) _ k8 in
    let (_, _, k10) = >>=-eq-ok (require_mapping (get_or root (codes "config") (obj end))) _ k9 in
    let (items, there, found) = parse_triggers-Accepted (get root (codes "triggers")) triggers e7 in
    let (prompts, p, q) = parse_prompts-ArePrompts (get_or root (codes "prompts") (obj end)) e9 in
    subst (IsPackage skill_yaml) (ok-eq _ r k10) (record {
      root = root;
      items = items;
      triggers = triggers;
      tiers = tiers;
      prompts = prompts;
      is_mapping = require_mapping-obj skill_yaml root e;
      is_json = (validate_json_value-IsJson (obj root)).0 e1;
      named = require_string-str true true _ name e2;
      versioned = require_string-str true true _ version e3;
      authored = require_string-str true true _ author e4;
      listed_triggers = there;
      are_triggers = found.each;
      distinct_triggers = found.distinct;
      are_actions = parse_actions-AreActions (get root (codes "actions")) triggers tiers e8;
      listed_prompts = p;
      are_prompts = q;
      trigger_names = refl;
      action_names = refl;
      declared = refl;
    })

manual_tier : (t : ActionTier) → is_manual_review_tier t ≡ true → (t ≡ tier_c) ⊎ (t ≡ tier_d)
manual_tier tier_a h = cc
manual_tier tier_b h = cc
manual_tier tier_c h = inl refl
manual_tier tier_d h = inr refl

automatic_tier : (t : ActionTier) → is_manual_review_tier t ≡ false → (t ≡ tier_a) ⊎ (t ≡ tier_b)
automatic_tier tier_a h = inl refl
automatic_tier tier_b h = inr refl
automatic_tier tier_c h = cc
automatic_tier tier_d h = cc

-- The decision is `listed` where each tier is A or B, else `pending_review`.
pub data IsDecision (tiers : List ActionTier) (d : PublishDecision) : Type 0 where
  automatic :
      d.status ≡ listed
      → d.declares_tier_cd ≡ false
      → ((t : ActionTier) → Memᴰ t tiers → (t ≡ tier_a) ⊎ (t ≡ tier_b))
      → IsDecision tiers d
  manual :
      d.status ≡ pending_review
      → d.declares_tier_cd ≡ true
      → (t : ActionTier) → Memᴰ t tiers
      → (t ≡ tier_c) ⊎ (t ≡ tier_d)
      → IsDecision tiers d

decision_of_test :
    (tiers : List ActionTier) (b : Bool)
    → any is_manual_review_tier tiers ≡ b
    → IsDecision tiers (
        if b
        then record { status = pending_review; declares_tier_cd = true }
        else record { status = listed; declares_tier_cd = false })
decision_of_test tiers true h =
    let (t, m, e) = any-true is_manual_review_tier tiers h in manual refl refl t m (manual_tier t e)
decision_of_test tiers false h =
    automatic refl refl (λ t m. automatic_tier t (any-false is_manual_review_tier tiers t h m))

-- A package that is accepted is decided: `listed`, if each item of its `triggers` and of its
-- `actions.available` has Tier A or B, and `pending_review`, if one of them has Tier C or D.
pub publish_decision-IsDecision :
    (skill_yaml : Value) (d : PublishDecision)
    → publish_decision skill_yaml ≡ ok d
    → (r : SkillValidationResult) × (p : IsPackage skill_yaml r) × IsDecision
        (map trigger_tier p.triggers ++ map action_tier p.tiers)
        d
unfolding publish_decision declares_tier_cd
publish_decision-IsDecision skill_yaml d h =
    let (r, e, k) = >>=-eq-ok (validate_skill_metadata skill_yaml) _ h in
    let p = validate_skill_metadata-IsPackage skill_yaml r e in
    (
      r,
      p,
      subst (λ ts. IsDecision ts d) p.declared
          (subst (IsDecision r.declared_tiers) (ok-eq _ d k)
            (decision_of_test r.declared_tiers (declares_tier_cd r) refl)),
    )
