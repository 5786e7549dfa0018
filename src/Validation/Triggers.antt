-- ===== src/Validation/Triggers.antt =====
-- hub/core/validation.py: `_parse_sensors` and `_parse_triggers`.
pub mod Authority
use ori_skills_hub.Prelude.{
  Text, Bool, true, false, not, ◌&&◌, ◌||◌, Option, none, some, List, [], ◌∷◌, is_nil, codes,
  text_eq, contains, Result, ok, err, ◌>>=◌, ◌>>◌, guard, reject, if◌then◌else◌,
}
use ori_skills_hub.Value.{
  ℤ, pos, Value, null, boolean, integer, str, Items, nil, cons, Fields, get, get_or,
}
use ori_skills_hub.Validation.{
  Checked, invalid, require_mapping, require_array, require_string, require_bool, require_int,
  require_trigger_name, require_action_tier, ActionTier, tier_a, tier_b, tier_c, tier_d, tier_eq,
}

abbrev pub optional_identifier : Value → Checked (Option Text)
optional_identifier null = ok none
optional_identifier v = do s ← require_string true true v; ok (some s)

-- One round of `_parse_sensors`: the type of the sensor.
unfoldable pub parse_sensor : List Text → Value → Checked Text
parse_sensor seen item = do
  sensor ← require_mapping item
  sensor_type ← require_string true true (get sensor (codes "type"))
  reject (contains seen sensor_type) invalid
  protocol ← optional_identifier (get sensor (codes "protocol"))
  ok sensor_type

unfoldable pub parse_sensor_items : List Text → Items → Checked (Unit {0})
unfolding parse_sensor
parse_sensor_items seen nil = ok tt
parse_sensor_items seen (cons item rest) = do
  sensor_type ← parse_sensor seen item
  parse_sensor_items (sensor_type ∷ seen) rest

unfoldable pub parse_sensors : Value → Checked (Unit {0})
unfolding parse_sensor_items
parse_sensors v = require_array false v >>= parse_sensor_items []

pub record TriggerPolicy : Type 0 where
  pub name : Text
  pub action_tier : ActionTier
  pub requires_approval : Bool
  pub reasoning_policy : Option Text
  pub safe_default_action : Text

abbrev pub trigger_name : TriggerPolicy → Text
trigger_name trigger = trigger.name

abbrev is_escalation_tier : Text → Bool
is_escalation_tier t =
    text_eq t (codes "rule") || text_eq t (codes "local_slm") || text_eq t (codes "gateway")

unfoldable pub check_reasoning_policy : ActionTier → Option Text → Checked (Option Text)
check_reasoning_policy tier none = ok none
check_reasoning_policy tier (some policy) = do
  guard (text_eq policy (codes "post_action")) invalid
  guard (tier_eq tier tier_b) invalid
  ok (some policy)

-- The `reasoning_policy` of a trigger of this tier.
unfoldable pub parse_reasoning_policy : ActionTier → Value → Checked (Option Text)
parse_reasoning_policy tier v = optional_identifier v >>= check_reasoning_policy tier

-- One round of `_parse_triggers`.
unfoldable pub parse_trigger : List Text → Value → Checked TriggerPolicy
unfolding parse_reasoning_policy
parse_trigger seen item = do
  trigger ← require_mapping item
  name ← require_trigger_name (get trigger (codes "name"))
  reject (contains seen name) invalid
  tier ← require_action_tier (get trigger (codes "action_tier"))
  condition ← require_string false false (get_or trigger (codes "condition") (str []))
  cooldown ← require_int (get_or trigger (codes "cooldown_seconds") (integer (pos 0)))
  escalation ← require_string true true (
      get_or trigger (codes "escalate_to")
        (str (if tier_eq tier tier_d then codes "rule" else codes "local_slm")))
  guard (is_escalation_tier escalation) invalid
  reject (tier_eq tier tier_d && not (text_eq escalation (codes "rule"))) invalid
  bypass_llm ← require_bool (get_or trigger (codes "bypass_llm") (boolean false))
  reject (bypass_llm && not (tier_eq tier tier_d)) invalid
  reasoning_policy ← parse_reasoning_policy tier (get trigger (codes "reasoning_policy"))
  requires_approval ← require_bool (get_or trigger (codes "requires_approval") (boolean false))
  timeout ← require_int (get_or trigger (codes "approval_timeout_seconds") (integer (pos 300)))
  safe_default ←
      require_string false true
        (get_or trigger (codes "safe_default_action") (str (codes "log_to_dashboard")))
  reject (tier_eq tier tier_c && is_nil safe_default) invalid
  ok (record {
    name = name;
    action_tier = tier;
    requires_approval = requires_approval;
    reasoning_policy = reasoning_policy;
    safe_default_action = safe_default;
  })

unfoldable pub parse_trigger_items : List Text → Items → Checked (List TriggerPolicy)
parse_trigger_items seen nil = ok []
parse_trigger_items seen (cons item rest) = do
  trigger ← parse_trigger seen item
  triggers ← parse_trigger_items (trigger.name ∷ seen) rest
  ok (trigger ∷ triggers)

unfoldable pub parse_triggers : Value → Checked (List TriggerPolicy)
unfolding parse_trigger_items
parse_triggers v = require_array true v >>= parse_trigger_items []
