-- ===== src/Validation/Actions.antt =====
-- hub/core/validation.py: `_parse_actions`. `action_tiers` is the list of its entries in order.
pub mod Defaults
pub mod Authority
pub mod Accepted
use ori_skills_hub.Prelude.{
  Text, Bool, true, false, not, ◌&&◌, ◌||◌, Option, none, some, List, [], ◌∷◌, map, all, any,
  is_nil, is_some, codes, text_eq, contains, Result, ok, err, ◌>>=◌, ◌>>◌, guard, reject,
  if◌then◌else◌,
}
use ori_skills_hub.Value.{Value, Items, nil, cons, Fields, end, field, Key, name, not_string, get}
use ori_skills_hub.Validation.{
  Checked, invalid, require_mapping, require_array, require_string, require_action_tier, ActionTier,
  tier_a, tier_b, tier_c, tier_d, tier_eq,
}
use ori_skills_hub.Validation.Triggers.{TriggerPolicy, trigger_name}

abbrev pub ActionTiers : Type 0
ActionTiers = List (Text × ActionTier)

-- `action_tiers.get(name)`
unfoldable pub tier_of_action : ActionTiers → Text → Option ActionTier
tier_of_action [] t = none
tier_of_action ((s, tier) ∷ rest) t = if text_eq s t then some tier else tier_of_action rest t

abbrev pub is_tier : ActionTier → Option ActionTier → Bool
is_tier tier none = false
is_tier tier (some u) = tier_eq u tier

-- `action_tiers[name] == tier`, for a declared name.
abbrev pub has_tier : ActionTiers → ActionTier → Text → Bool
has_tier tiers tier t = is_tier tier (tier_of_action tiers t)

abbrev pub entry_name : Text × ActionTier → Text
entry_name entry = entry.0

-- One round over `actions.available`.
unfoldable pub parse_action : List Text → Value → Checked (Text × ActionTier)
parse_action seen item = do
  action ← require_mapping item
  action_name ← require_string true true (get action (codes "name"))
  reject (contains seen action_name) invalid
  tier ← require_action_tier (get action (codes "tier"))
  ok (action_name, tier)

unfoldable pub parse_action_items : List Text → Items → Checked ActionTiers
parse_action_items seen nil = ok []
parse_action_items seen (cons item rest) = do
  entry ← parse_action seen item
  entries ← parse_action_items (entry.0 ∷ seen) rest
  ok (entry ∷ entries)

-- The keys of a mapping whose keys are strings.
unfoldable pub keys : Fields → List Text
keys end = []
keys (field (name k) v rest) = k ∷ keys rest
keys (field not_string v rest) = keys rest

-- `missing_defaults` and `extra_defaults` are empty.
unfoldable pub same_names : List Text → List Text → Bool
same_names triggers defaults = all (contains defaults) triggers && all (contains triggers) defaults

-- One round over the default actions of a trigger.
unfoldable pub parse_default : ActionTiers → ActionTier → List Text → Value → Checked Text
parse_default tiers authority seen item = do
  action_name ← require_string true true item
  reject (contains seen action_name) invalid
  guard (is_some (tier_of_action tiers action_name)) invalid
  reject (has_tier tiers tier_d action_name && not (tier_eq authority tier_d)) invalid
  ok action_name

unfoldable pub parse_default_items :
    ActionTiers → ActionTier → List Text → Items → Checked (List Text)
parse_default_items tiers authority seen nil = ok []
parse_default_items tiers authority seen (cons item rest) = do
  action_name ← parse_default tiers authority seen item
  names ← parse_default_items tiers authority (action_name ∷ seen) rest
  ok (action_name ∷ names)

-- The fallback of a Tier C trigger is `log_to_dashboard` or a declared Tier A action.
unfoldable pub check_safe_default : ActionTiers → TriggerPolicy → Checked (Unit {0})
check_safe_default tiers trigger =
    if tier_eq trigger.action_tier tier_c
      && not (text_eq trigger.safe_default_action (codes "log_to_dashboard"))
    then guard (is_some (tier_of_action tiers trigger.safe_default_action)) invalid
      >> guard (has_tier tiers tier_a trigger.safe_default_action) invalid
    else ok tt

abbrev pub is_post : Option Text → Bool
is_post none = false
is_post (some policy) = text_eq policy (codes "post_action")

-- `trigger.reasoning_policy == "post_action"`
abbrev pub is_post_action : TriggerPolicy → Bool
is_post_action trigger = is_post trigger.reasoning_policy

unfoldable pub check_physical : ActionTiers → TriggerPolicy → List Text → Checked (Unit {0})
check_physical tiers trigger names =
    if not (any (has_tier tiers tier_b) names)
      || tier_eq trigger.action_tier tier_c
      || tier_eq trigger.action_tier tier_d
    then ok tt
    else do
      reject (not trigger.requires_approval && not (is_post_action trigger)) invalid
      reject (is_post_action trigger && not (any (has_tier tiers tier_a) names)) invalid

-- One round over the triggers: the default actions of the trigger.
unfoldable pub check_trigger : ActionTiers → Fields → TriggerPolicy → Checked (List Text)
unfolding parse_default_items check_safe_default check_physical
check_trigger tiers defaults trigger = do
  items ← require_array true (get defaults trigger.name)
  names ← parse_default_items tiers trigger.action_tier [] items
  check_safe_default tiers trigger
  check_physical tiers trigger names
  ok names

unfoldable pub check_triggers : ActionTiers → Fields → List TriggerPolicy → Checked (Unit {0})
check_triggers tiers defaults [] = ok tt
check_triggers tiers defaults (trigger ∷ rest) = do
  names ← check_trigger tiers defaults trigger
  check_triggers tiers defaults rest

unfoldable pub parse_actions : Value → List TriggerPolicy → Checked ActionTiers
unfolding parse_action_items same_names check_triggers
parse_actions v triggers = do
  actions ← require_mapping v
  available ← require_array true (get actions (codes "available"))
  tiers ← parse_action_items [] available
  defaults ← require_mapping (get actions (codes "defaults"))
  guard (same_names (map trigger_name triggers) (keys defaults)) invalid
  check_triggers tiers defaults triggers
  ok tiers
