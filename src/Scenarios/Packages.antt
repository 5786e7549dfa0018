-- ===== src/Scenarios/Packages.antt =====
-- The theorems on skill.yaml at one package: a pump whose Tier C trigger falls back on a notice.
use ori_skills_hub.Validation.Package.{
  count_placeholders, SkillValidationResult, declares_tier_cd, trigger_tier, action_tier,
  validate_skill_metadata, PublishDecision, publish_decision,
}
use ori_skills_hub.Validation.Actions.{
  tier_of_action, parse_default, check_trigger, keys, parse_action, parse_actions,
}
use ori_skills_hub.Validation.Triggers.{
  check_reasoning_policy, parse_trigger, parse_triggers, parse_sensors,
}
use ori_skills_hub.Validation.{
  require_bool, require_int, require_action_tier, require_trigger_name, require_array,
  require_string, require_mapping, tier_a, tier_b, tier_c, validate_json_value,
}
use ori_skills_hub.Prelude.{
  any, all, strip, text_eq, ◌≡◌, refl, ◌++◌, map, true, [], ◌∷◌, codes, ok,
}
use ori_skills_hub.Value.{
  get, has_string_keys, Value, Fields, float, boolean, str, arr, obj, nil, cons, end, field, name,
}
use ori_skills_hub.Core.{pending_review}
use ori_skills_hub.Validation.Package.Authority.{
  IsPackage, IsDecision, validate_skill_metadata-IsPackage, publish_decision-IsDecision,
}

abbrev trigger : Fields
trigger = field (name (codes "name")) (str (codes "over-pressure")) (
    field (name (codes "action_tier")) (str (codes "C"))
      (field (name (codes "safe_default_action")) (str (codes "notify")) end))

abbrev low_trigger : Fields
low_trigger = field (name (codes "name")) (str (codes "low")) (
    field (name (codes "action_tier")) (str (codes "B"))
      (field (name (codes "requires_approval")) (boolean true) end))

abbrev action_of : Value → Value → Value
action_of n t = obj (field (name (codes "name")) n (field (name (codes "tier")) t end))

abbrev actions : Fields
actions =
    field (name (codes "available"))
      (arr (
        cons (action_of (str (codes "notify")) (str (codes "A")))
          (cons (action_of (str (codes "open_valve")) (str (codes "B"))) nil)))
      (field (name (codes "defaults"))
        (obj (
          field (name (codes "low")) (arr (cons (str (codes "open_valve")) nil)) (
            field (name (codes "over-pressure"))
              (arr (cons (str (codes "notify")) (cons (str (codes "open_valve")) nil))) end)))
        end)

abbrev pub root : Fields
root = field (name (codes "name")) (str (codes "pump")) (
    field (name (codes "version")) (str (codes "1.0")) (
      field (name (codes "author")) (str (codes "alice")) (
        field (name (codes "triggers")) (arr (cons (obj trigger) (cons (obj low_trigger) nil))) (
          field (name (codes "actions")) (obj actions) (
            field (name (codes "prompts"))
              (obj (field (name (codes "low")) (str (codes "{history.pressure} bar")) end))
              (field (name (codes "limit")) (float true) end))))))

abbrev pub skill_yaml : Value
skill_yaml = obj root

abbrev pub result : SkillValidationResult
result = record {
  name = codes "pump";
  version = codes "1.0";
  author = codes "alice";
  trigger_names = codes "over-pressure" ∷ codes "low" ∷ [];
  action_names = codes "notify" ∷ codes "open_valve" ∷ [];
  declared_tiers = tier_c ∷ tier_b ∷ tier_a ∷ tier_b ∷ [];
}

pub accepted : validate_skill_metadata skill_yaml ≡ ok result
unfolding validate_skill_metadata require_mapping has_string_keys validate_json_value require_string
    get text_eq strip parse_sensors require_array parse_triggers parse_trigger require_trigger_name
    all any require_action_tier require_int require_bool check_reasoning_policy parse_actions
    parse_action keys check_trigger parse_default tier_of_action count_placeholders
accepted = refl

abbrev pub decision : PublishDecision
decision = record { status = pending_review; declares_tier_cd = true }

pub decided : publish_decision skill_yaml ≡ ok decision
unfolding publish_decision declares_tier_cd any
decided = rw accepted refl

validate_skill_metadata-IsPackage_example : IsPackage skill_yaml result
validate_skill_metadata-IsPackage_example =
    validate_skill_metadata-IsPackage skill_yaml result accepted

publish_decision-IsDecision_example :
    (r : SkillValidationResult) × (p : IsPackage skill_yaml r) × IsDecision
      (map trigger_tier p.triggers ++ map action_tier p.tiers)
      decision
publish_decision-IsDecision_example = publish_decision-IsDecision skill_yaml decision decided
