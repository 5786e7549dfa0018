-- ===== src/Validation/Actions/Accepted.antt =====
-- hub/core/validation.py: what `_parse_actions` accepts.
use ori_skills_hub.Prelude.{
  ◌≡◌, subst, Text, true, false, List, [], ◌∷◌, All, map, codes, UniqueBy, UniqueBy-cons, FreshBy,
  contains, ok, >>=-eq-ok, ok-eq, guard-eq-ok, reject-eq-ok,
}
use ori_skills_hub.Value.{Value, str, arr, obj, Items, nil, cons, Fields, get}
use ori_skills_hub.Validation.{
  invalid, require_mapping, require_array, require_string, require_action_tier, ActionTier,
}
use ori_skills_hub.Validation.Reads.{
  letter, require_mapping-obj, require_string-str, require_array-arr, require_action_tier-letter,
}
use ori_skills_hub.Validation.Triggers.{TriggerPolicy, trigger_name}
use ori_skills_hub.Validation.Actions.{
  ActionTiers, check_triggers, parse_actions, parse_action_items, parse_action, same_names, keys,
  entry_name,
}
use ori_skills_hub.Validation.Actions.Authority.{IsAuthorised, check_triggers-IsAuthorised}

-- The item declares the action of this name with this tier.
pub record Declares (item : Value) (entry : Text × ActionTier) : Type 0 where
  pub fields : Fields
  pub is_mapping : item ≡ obj fields
  pub named : get fields (codes "name") ≡ str entry.0
  pub tier : get fields (codes "tier") ≡ str (letter entry.1)

-- The items declare the actions, in order.
abbrev pub AreDeclared : Items → ActionTiers → Type 0
AreDeclared nil [] = Unit
AreDeclared nil (entry ∷ rest) = ⊥
AreDeclared (cons v items) [] = ⊥
AreDeclared (cons v items) (entry ∷ rest) = Declares v entry × AreDeclared items rest

parse_action-Declares :
    (seen : List Text) (item : Value) (entry : Text × ActionTier)
    → parse_action seen item ≡ ok entry
    → Declares item entry
unfolding parse_action
parse_action-Declares seen item entry h =
    let (action, e, k) = >>=-eq-ok (require_mapping item) _ h in
    let (t, e1, k1) = >>=-eq-ok (require_string true true (get action (codes "name"))) _ k in
    let (_, k2) = reject-eq-ok (contains seen t) invalid _ k1 in
    let (tier, e3, k3) = >>=-eq-ok (require_action_tier (get action (codes "tier"))) _ k2 in
    subst (Declares item) (ok-eq (t, tier) entry k3) (record {
      fields = action;
      is_mapping = require_mapping-obj item action e;
      named = require_string-str true true _ t e1;
      tier = require_action_tier-letter _ tier e3;
    })

parse_action_items-AreDeclared :
    (seen : List Text) (items : Items) (tiers : ActionTiers)
    → parse_action_items seen items ≡ ok tiers
    → AreDeclared items tiers
unfolding parse_action_items
parse_action_items-AreDeclared seen nil tiers h = subst (AreDeclared nil) (ok-eq [] tiers h) tt
parse_action_items-AreDeclared seen (cons item rest) tiers h =
    let (entry, e, k) = >>=-eq-ok (parse_action seen item) _ h in
    let (entries, e1, k1) = >>=-eq-ok (parse_action_items (entry.0 ∷ seen) rest) _ k in
    subst (AreDeclared (cons item rest)) (ok-eq (entry ∷ entries) tiers k1) (
      parse_action-Declares seen item entry e,
      parse_action_items-AreDeclared (entry.0 ∷ seen) rest entries e1,
    )

parse_action-fresh :
    (seen : List Text) (item : Value) (entry : Text × ActionTier)
    → parse_action seen item ≡ ok entry
    → contains seen entry.0 ≡ false
unfolding parse_action
parse_action-fresh seen item entry h =
    let (action, _, k) = >>=-eq-ok (require_mapping item) _ h in
    let (t, _, k1) = >>=-eq-ok (require_string true true (get action (codes "name"))) _ k in
    let (fresh, k2) = reject-eq-ok (contains seen t) invalid _ k1 in
    let (tier, _, k3) = >>=-eq-ok (require_action_tier (get action (codes "tier"))) _ k2 in
    subst (λ (u : Text × ActionTier). contains seen u.0 ≡ false) (ok-eq (t, tier) entry k3) fresh

parse_action_items-distinct :
    (seen : List Text) (items : Items) (tiers : ActionTiers)
    → parse_action_items seen items ≡ ok tiers
    → FreshBy entry_name seen tiers × UniqueBy entry_name tiers
unfolding parse_action_items
parse_action_items-distinct seen nil tiers h =
    subst (λ ts. FreshBy entry_name seen ts × UniqueBy entry_name ts) (ok-eq [] tiers h) (tt, tt)
parse_action_items-distinct seen (cons item rest) tiers h =
    let (entry, e, k) = >>=-eq-ok (parse_action seen item) _ h in
    let (entries, e1, k1) = >>=-eq-ok (parse_action_items (entry.0 ∷ seen) rest) _ k in
    let (f, u) = parse_action_items-distinct (entry.0 ∷ seen) rest entries e1 in
    subst (λ ts. FreshBy entry_name seen ts × UniqueBy entry_name ts)
      (ok-eq (entry ∷ entries) tiers k1)
      (UniqueBy-cons entry_name seen entry entries (parse_action-fresh seen item entry e) f u)

-- The tiers of the actions and the default actions of the triggers, of an accepted `actions`.
pub record AreActions (actions : Value) (triggers : List TriggerPolicy) (tiers : ActionTiers)
    : Type 0 where
  pub fields : Fields
  pub available : Items
  pub defaults : Fields
  pub is_mapping : actions ≡ obj fields
  pub declared : get fields (codes "available") ≡ arr available
  pub are_declared : AreDeclared available tiers
  pub found : get fields (codes "defaults") ≡ obj defaults
  pub complete : same_names (map trigger_name triggers) (keys defaults) ≡ true
  pub distinct : UniqueBy entry_name tiers
  pub authorised : All (IsAuthorised tiers defaults) triggers

pub parse_actions-AreActions :
    (v : Value) (triggers : List TriggerPolicy) (tiers : ActionTiers)
    → parse_actions v triggers ≡ ok tiers
    → AreActions v triggers tiers
unfolding parse_actions
parse_actions-AreActions v triggers tiers h =
    let (fields, e, k) = >>=-eq-ok (require_mapping v) _ h in
    let (available, e1, k1) = >>=-eq-ok (require_array true (get fields (codes "available"))) _ k in
    let (ts, e2, k2) = >>=-eq-ok (parse_action_items [] available) _ k1 in
    let (defaults, e3, k3) = >>=-eq-ok (require_mapping (get fields (codes "defaults"))) _ k2 in
    let (same, k4) = guard-eq-ok _ invalid _ k3 in
    let (_, e5, k5) = >>=-eq-ok (check_triggers ts defaults triggers) _ k4 in
    let (_, u) = parse_action_items-distinct [] available ts e2 in
    subst (AreActions v triggers) (ok-eq ts tiers k5) (record {
      fields = fields;
      available = available;
      defaults = defaults;
      is_mapping = require_mapping-obj v fields e;
      declared = require_array-arr true _ available e1;
      are_declared = parse_action_items-AreDeclared [] available ts e2;
      found = require_mapping-obj (get fields (codes "defaults")) defaults e3;
      complete = same;
      distinct = u;
      authorised = check_triggers-IsAuthorised ts defaults triggers e5;
    })
