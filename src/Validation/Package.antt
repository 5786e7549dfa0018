-- ===== src/Validation/Package.antt =====
-- hub/core/validation.py: `_parse_prompts`, `validate_skill_metadata` and its result, and
-- hub/core/review.py.
pub mod Authority
use ori_skills_hub.Prelude.{
  ℕ, ◌+◌, Text, Bool, true, false, not, ◌&&◌, ◌||◌, Option, none, some, List, [], ◌∷◌, ◌++◌, map,
  any, take, drop, length, codes, text_eq, leb, ◌==◌, Result, ok, err, ◌>>=◌, ◌>>◌, guard, reject,
  if◌then◌else◌,
}
use ori_skills_hub.Core.{SkillStatus, pending_review, listed}
use ori_skills_hub.Value.{Value, null, str, arr, obj, Items, nil, Fields, end, field, get, get_or}
use ori_skills_hub.Validation.{
  Checked, invalid, require_mapping, require_string, validate_json_value, ActionTier, tier_c,
  tier_d, tier_eq,
}
use ori_skills_hub.Validation.Triggers.{TriggerPolicy, trigger_name, parse_sensors, parse_triggers}
use ori_skills_hub.Validation.Actions.{ActionTiers, parse_actions, entry_name}

-- The rest of a placeholder after its prefix: at least one character that is no brace, and `}`.
unfoldable pub closes : Bool → Text → Bool
closes begun [] = false
closes begun (c ∷ s) =
    let rest = closes true s in if c == b'}' then begun else if c == b'{' then false else rest

-- `{history.` and its rest stand here.
unfoldable pub is_placeholder : Text → Bool
unfolding closes
is_placeholder s = text_eq (take 9 s) (codes "{history.") && closes false (drop 9 s)

-- `len(_HISTORY_PLACEHOLDER_RE.findall(template))`. A match has no brace inside, so no two matches
-- overlap, and they are as many as the places where one begins.
unfoldable pub count_placeholders : Text → ℕ
unfolding is_placeholder
count_placeholders [] = 0
count_placeholders (c ∷ s) = (if is_placeholder (c ∷ s) then 1 else 0) + count_placeholders s

-- `MAX_HISTORY_PLACEHOLDERS`
abbrev pub max_history_placeholders : ℕ
max_history_placeholders = 16

unfoldable pub check_prompts : Fields → Checked (Unit {0})
check_prompts end = ok tt
check_prompts (field k raw_template rest) = do
  template ← require_string false false raw_template
  guard (leb (count_placeholders template) max_history_placeholders) invalid
  check_prompts rest

unfoldable pub parse_prompts : Value → Checked (Unit {0})
unfolding check_prompts
parse_prompts v = require_mapping v >>= check_prompts

pub record SkillValidationResult : Type 0 where
  pub name : Text
  pub version : Text
  pub author : Text
  pub trigger_names : List Text
  pub action_names : List Text
  pub declared_tiers : List ActionTier

abbrev pub is_manual_review_tier : ActionTier → Bool
is_manual_review_tier tier = tier_eq tier tier_c || tier_eq tier tier_d

-- The property `declares_tier_cd`. `declared_tiers` stands for the set of its members.
unfoldable pub declares_tier_cd : SkillValidationResult → Bool
declares_tier_cd r = any is_manual_review_tier r.declared_tiers

abbrev pub trigger_tier : TriggerPolicy → ActionTier
trigger_tier trigger = trigger.action_tier

abbrev pub action_tier : Text × ActionTier → ActionTier
action_tier entry = entry.1

unfoldable pub check_signature : Value → Checked (Unit {0})
check_signature null = ok tt
check_signature v = do s ← require_string true true v; ok tt

unfoldable pub validate_skill_metadata : Value → Checked SkillValidationResult
unfolding check_signature parse_prompts
validate_skill_metadata skill_yaml = do
  root ← require_mapping skill_yaml
  validate_json_value (obj root)
  name ← require_string true true (get root (codes "name"))
  version ← require_string true true (get root (codes "version"))
  author ← require_string true true (get root (codes "author"))
  check_signature (get root (codes "signature"))
  parse_sensors (get_or root (codes "sensors_required") (arr nil))
  triggers ← parse_triggers (get root (codes "triggers"))
  actions ← parse_actions (get root (codes "actions")) triggers
  parse_prompts (get_or root (codes "prompts") (obj end))
  config ← require_mapping (get_or root (codes "config") (obj end))
  ok (record {
    name = name;
    version = version;
    author = author;
    trigger_names = map trigger_name triggers;
    action_names = map entry_name actions;
    declared_tiers = map trigger_tier triggers ++ map action_tier actions;
  })

-- hub/core/models.py: `PublishDecision`, less its reason.
pub record PublishDecision : Type 0 where
  pub status : SkillStatus
  pub declares_tier_cd : Bool

abbrev pub decision_for : SkillValidationResult → PublishDecision
decision_for validation =
    if declares_tier_cd validation
    then record { status = pending_review; declares_tier_cd = true }
    else record { status = listed; declares_tier_cd = false }

unfoldable pub publish_decision : Value → Checked PublishDecision
publish_decision skill_yaml = do
  validation ← validate_skill_metadata skill_yaml
  ok (decision_for validation)
