-- ===== src/Validation/Triggers/Authority.antt =====
-- hub/core/validation.py: the triggers that `_parse_triggers` accepts.
use ori_skills_hub.Prelude.{
  ◌≡◌, refl, sym, ap, subst, ◌∙◌, Text, Bool, true, false, not, ◌&&◌, Option, none, some, List, [],
  ◌∷◌, is_nil, codes, text_eq, text_eq_iff, contains, UniqueBy, UniqueBy-cons, FreshBy, ok,
  >>=-eq-ok, ok-eq, guard-eq-ok, reject-eq-ok, some-eq, arith, &&-false, &&-not-false,
  if◌then◌else◌,
}
use ori_skills_hub.Value.{
  Value, null, boolean, integer, float, str, arr, obj, other, Items, nil, cons, Fields, get, get_or,
}
use ori_skills_hub.Validation.{
  invalid, require_mapping, require_array, require_string, require_bool, require_int,
  require_trigger_name, require_action_tier, is_trigger_name, ActionTier, tier_b, tier_c, tier_d,
  tier_eq,
}
use ori_skills_hub.Validation.Reads.{
  tier_eq-eq, require_string-str, require_mapping-obj, require_array-arr, require_bool-boolean,
  require_trigger_name-str, require_action_tier-letter, letter,
}
use ori_skills_hub.Validation.Triggers.{
  TriggerPolicy, optional_identifier, check_reasoning_policy, parse_reasoning_policy, parse_trigger,
  parse_trigger_items, parse_triggers, trigger_name,
}

-- The manifest gives this reasoning policy: null or absent, where there is none.
abbrev pub SaysPolicy : Value → Option Text → Type 0
SaysPolicy v none = v ≡ null
SaysPolicy v (some policy) = v ≡ str policy

-- What the mapping of an accepted trigger says.
pub record IsTrigger (item : Value) (trigger : TriggerPolicy) : Type 0 where
  pub fields : Fields
  pub is_mapping : item ≡ obj fields
  pub named : get fields (codes "name") ≡ str trigger.name
  pub valid_name : is_trigger_name trigger.name ≡ true
  pub tier : get fields (codes "action_tier") ≡ str (letter trigger.action_tier)
  pub approval :
      get_or fields (codes "requires_approval") (boolean false) ≡ boolean trigger.requires_approval
  pub fallback :
      get_or fields (codes "safe_default_action") (str (codes "log_to_dashboard"))
      ≡ str trigger.safe_default_action
  pub policy : SaysPolicy (get fields (codes "reasoning_policy")) trigger.reasoning_policy
  pub direct :
      get_or fields (codes "bypass_llm") (boolean false) ≡ boolean true
      → trigger.action_tier ≡ tier_d
  pub ruled :
      trigger.action_tier ≡ tier_d
      → get_or fields (codes "escalate_to") (str (codes "rule")) ≡ str (codes "rule")
  pub noticed :
      (policy : Text)
      → trigger.reasoning_policy ≡ some policy
      → (policy ≡ codes "post_action") × (trigger.action_tier ≡ tier_b)
  pub has_fallback : trigger.action_tier ≡ tier_c → is_nil trigger.safe_default_action ≡ false

check_reasoning_policy-noticed :
    (tier : ActionTier) (o kept : Option Text) (policy : Text)
    → check_reasoning_policy tier o ≡ ok kept
    → kept ≡ some policy
    → (policy ≡ codes "post_action") × (tier ≡ tier_b)
unfolding check_reasoning_policy
check_reasoning_policy-noticed tier none kept policy h e = cc (ok-eq none kept h ∙ e)
check_reasoning_policy-noticed tier (some p) kept policy h e =
    let (q, k) = guard-eq-ok _ invalid _ h in
    let (b, k1) = guard-eq-ok _ invalid _ k in
    (
      some-eq policy p (sym e ∙ sym (ok-eq (some p) kept k1))
          ∙ (text_eq_iff p (codes "post_action")).0 q,
      tier_eq-eq tier tier_b b,
    )

parse_reasoning_policy-noticed :
    (tier : ActionTier) (v : Value) (kept : Option Text) (policy : Text)
    → parse_reasoning_policy tier v ≡ ok kept
    → kept ≡ some policy
    → (policy ≡ codes "post_action") × (tier ≡ tier_b)
unfolding parse_reasoning_policy
parse_reasoning_policy-noticed tier v kept policy h e =
    let (o, _, k) = >>=-eq-ok _ (check_reasoning_policy tier) h in
    check_reasoning_policy-noticed tier o kept policy k e

check_reasoning_policy-same :
    (tier : ActionTier) (o kept : Option Text) → check_reasoning_policy tier o ≡ ok kept → o ≡ kept
unfolding check_reasoning_policy
check_reasoning_policy-same tier none kept h = ok-eq none kept h
check_reasoning_policy-same tier (some p) kept h =
    let (_, k) = guard-eq-ok _ invalid _ h in
    let (_, k1) = guard-eq-ok _ invalid _ k in ok-eq (some p) kept k1

optional_identifier-SaysPolicy :
    (v : Value) (o : Option Text) → optional_identifier v ≡ ok o → SaysPolicy v o
unfolding require_string
optional_identifier-SaysPolicy null o h = subst (SaysPolicy null) (ok-eq none o h) refl
optional_identifier-SaysPolicy (boolean b) o h = cc
optional_identifier-SaysPolicy (integer n) o h = cc
optional_identifier-SaysPolicy (float b) o h = cc
optional_identifier-SaysPolicy (str s) o h =
    let (t, e, k) = >>=-eq-ok (require_string true true (str s)) _ h in
    subst (SaysPolicy (str s)) (ok-eq (some t) o k) (require_string-str true true (str s) t e)
optional_identifier-SaysPolicy (arr items) o h = cc
optional_identifier-SaysPolicy (obj fields) o h = cc
optional_identifier-SaysPolicy other o h = cc

parse_reasoning_policy-SaysPolicy :
    (tier : ActionTier) (v : Value) (kept : Option Text)
    → parse_reasoning_policy tier v ≡ ok kept
    → SaysPolicy v kept
unfolding parse_reasoning_policy
parse_reasoning_policy-SaysPolicy tier v kept h =
    let (o, e, k) = >>=-eq-ok _ (check_reasoning_policy tier) h in
    subst (SaysPolicy v) (check_reasoning_policy-same tier o kept k)
      (optional_identifier-SaysPolicy v o e)

direct_tier :
    (v : Value) (b : Bool) (tier : ActionTier)
    → require_bool v ≡ ok b
    → (b && not (tier_eq tier tier_d)) ≡ false
    → v ≡ boolean true
    → tier ≡ tier_d
direct_tier v b tier e h p =
    let is_set : b ≡ true = ground (arith, require_bool-boolean v b e, p) in
    tier_eq-eq tier tier_d (&&-not-false b _ h is_set)

-- The default of `escalate_to` in a trigger of this tier.
abbrev default_target : ActionTier → Value
default_target tier = str (if tier_eq tier tier_d then codes "rule" else codes "local_slm")

ruled_target :
    (fields : Fields) (tier : ActionTier) (target : Text)
    → require_string true true (get_or fields (codes "escalate_to") (default_target tier))
      ≡ ok target
    → (tier_eq tier tier_d && not (text_eq target (codes "rule"))) ≡ false
    → tier ≡ tier_d
    → get_or fields (codes "escalate_to") (str (codes "rule")) ≡ str (codes "rule")
ruled_target fields tier target e h p =
    ap (λ t. get_or fields (codes "escalate_to") (default_target t)) (sym p)
    ∙ require_string-str true true _ target e
    ∙ ap str (
        (text_eq_iff target (codes "rule")).0
          (&&-not-false (tier_eq tier tier_d) _ h (ap (λ t. tier_eq t tier_d) p)))

parse_trigger-IsTrigger :
    (seen : List Text) (item : Value) (trigger : TriggerPolicy)
    → parse_trigger seen item ≡ ok trigger
    → (contains seen trigger.name ≡ false) × IsTrigger item trigger
unfolding parse_trigger
parse_trigger-IsTrigger seen item trigger h =
    let (fields, e, k) = >>=-eq-ok (require_mapping item) _ h in
    let (name, e1, k1) = >>=-eq-ok (require_trigger_name (get fields (codes "name"))) _ k in
    let (fresh, k2) = reject-eq-ok (contains seen name) invalid _ k1 in
    let (tier, e3, k3) = >>=-eq-ok (require_action_tier (get fields (codes "action_tier"))) _ k2 in
    let (_, _, k4) = >>=-eq-ok (require_string false false _) _ k3 in
    let (_, _, k5) = >>=-eq-ok (require_int _) _ k4 in
    let (target, e6, k6) = >>=-eq-ok (require_string true true _) _ k5 in
    let (_, k7) = guard-eq-ok _ invalid _ k6 in
    let (ruled, k8) = reject-eq-ok _ invalid _ k7 in
    let (bypass, e9, k9) = >>=-eq-ok (require_bool _) _ k8 in
    let (direct, k10) = reject-eq-ok _ invalid _ k9 in
    let (policy, e11, k11) =
      >>=-eq-ok (parse_reasoning_policy tier (get fields (codes "reasoning_policy"))) _ k10 in
    let (approval, e12, k12) = >>=-eq-ok (require_bool _) _ k11 in
    let (_, _, k13) = >>=-eq-ok (require_int _) _ k12 in
    let (fallback, e14, k14) = >>=-eq-ok (require_string false true _) _ k13 in
    let (kept, k15) = reject-eq-ok _ invalid _ k14 in
    let (there, valid) = require_trigger_name-str (get fields (codes "name")) name e1 in
    subst (λ t. (contains seen t.name ≡ false) × IsTrigger item t) (ok-eq _ trigger k15)
      (
        fresh,
        record {
          fields = fields;
          is_mapping = require_mapping-obj item fields e;
          named = there;
          valid_name = valid;
          tier = require_action_tier-letter _ tier e3;
          approval = require_bool-boolean _ approval e12;
          fallback = require_string-str false true _ fallback e14;
          policy = parse_reasoning_policy-SaysPolicy tier _ policy e11;
          direct = λ p. direct_tier _ bypass tier e9 direct p;
          ruled = λ p. ruled_target fields tier target e6 ruled p;
          noticed = λ p q. parse_reasoning_policy-noticed tier _ policy p e11 q;
          has_fallback = λ p. &&-false (tier_eq tier tier_c) _ kept (ap (λ t. tier_eq t tier_c) p);
        },
      )

-- The items are the mappings of the triggers, in order.
abbrev pub AreTriggers : Items → List TriggerPolicy → Type 0
AreTriggers nil [] = Unit
AreTriggers nil (trigger ∷ rest) = ⊥
AreTriggers (cons v items) [] = ⊥
AreTriggers (cons v items) (trigger ∷ rest) = IsTrigger v trigger × AreTriggers items rest

pub record Accepted (seen : List Text) (items : Items) (triggers : List TriggerPolicy)
    : Type 0 where
  pub fresh : FreshBy trigger_name seen triggers
  pub distinct : UniqueBy trigger_name triggers
  pub each : AreTriggers items triggers

parse_trigger_items-Accepted :
    (seen : List Text) (items : Items) (triggers : List TriggerPolicy)
    → parse_trigger_items seen items ≡ ok triggers
    → Accepted seen items triggers
unfolding parse_trigger_items
parse_trigger_items-Accepted seen nil triggers h =
    subst (Accepted seen nil) (ok-eq [] triggers h)
      (record { fresh = tt; distinct = tt; each = tt })
parse_trigger_items-Accepted seen (cons item rest) triggers h =
    let (trigger, e, k) = >>=-eq-ok (parse_trigger seen item) _ h in
    let (more, e1, k1) = >>=-eq-ok (parse_trigger_items (trigger.name ∷ seen) rest) _ k in
    let (c, t) = parse_trigger-IsTrigger seen item trigger e in
    let found = parse_trigger_items-Accepted (trigger.name ∷ seen) rest more e1 in
    let (f, u) = UniqueBy-cons trigger_name seen trigger more c found.fresh found.distinct in
    subst (Accepted seen (cons item rest)) (ok-eq (trigger ∷ more) triggers k1)
      (record { fresh = f; distinct = u; each = (t, found.each) })

pub parse_triggers-Accepted :
    (v : Value) (triggers : List TriggerPolicy)
    → parse_triggers v ≡ ok triggers
    → (items : Items) × (v ≡ arr items) × Accepted [] items triggers
unfolding parse_triggers
parse_triggers-Accepted v triggers h =
    let (items, e, k) = >>=-eq-ok (require_array true v) _ h in
    (items, require_array-arr true v items e, parse_trigger_items-Accepted [] items triggers k)
