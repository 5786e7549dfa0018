-- ===== src/Validation/Actions/Authority.antt =====
-- hub/core/validation.py: the triggers whose default actions `_parse_actions` accepts.
use ori_skills_hub.Prelude.{
  ◌≡◌, refl, sym, ap, ◌∙◌, ◌⊎◌, inl, inr, Text, Bool, true, false, not, ◌&&◌, ◌||◌, Option, none,
  some, List, [], ◌∷◌, Memᴰ, All, any, any-true, any-intro, is_nil, codes, text_eq, text_eq_iff,
  text_eq_refl, UniqueBy, ok, >>=-eq-ok, guard, reject, arith, Bool-cases, if◌then◌else◌, ◌>>◌,
}
use ori_skills_hub.Value.{arr, Fields, get}
use ori_skills_hub.Validation.{
  Checked, invalid, require_array, tier_a, tier_b, tier_c, tier_d, tier_eq,
}
use ori_skills_hub.Validation.Reads.{is_empty, require_array-arr, require_array-some}
use ori_skills_hub.Validation.Triggers.{TriggerPolicy}
use ori_skills_hub.Validation.Actions.{
  ActionTiers, has_tier, parse_default_items, check_safe_default, is_post, is_post_action,
  check_physical, check_trigger, check_triggers,
}
use ori_skills_hub.Validation.Actions.Defaults.{
  IsDeclared, has_tier-IsDeclared, strings, IsDefault, parse_default_items-AreDefaults,
}

-- The fallback of a Tier C trigger only logs, or is a declared Tier A action.
abbrev pub HasFallback : ActionTiers → TriggerPolicy → Type 0
HasFallback tiers trigger =
    trigger.action_tier ≡ tier_c
    → (trigger.safe_default_action ≡ codes "log_to_dashboard")
      ⊎ IsDeclared tiers trigger.safe_default_action tier_a

fallback_tests :
    (c log there safe : Bool)
    → ◌≡◌ {A = Checked (Unit {0})}
        (if c && not log then guard there invalid >> guard safe invalid else ok tt)
        (ok tt)
    → c ≡ true
    → log ≡ false
    → safe ≡ true
fallback_tests c log there safe h d e = ground arith

check_safe_default-HasFallback :
    (tiers : ActionTiers) (trigger : TriggerPolicy)
    → check_safe_default tiers trigger ≡ ok tt
    → HasFallback tiers trigger
unfolding check_safe_default
check_safe_default-HasFallback tiers trigger h c =
    let logs = text_eq trigger.safe_default_action (codes "log_to_dashboard") in
    elim (Bool-cases logs) [
      | inl e ↦ inl ((text_eq_iff trigger.safe_default_action (codes "log_to_dashboard")).0 e)
      | inr e ↦ inr (
          has_tier-IsDeclared tiers tier_a trigger.safe_default_action
            (fallback_tests (tier_eq trigger.action_tier tier_c) logs _ _ h (rw c refl) e))
    ]

-- An action of Tier B among the defaults of the trigger has an approval or a notice.
pub record IsSupervised (tiers : ActionTiers) (trigger : TriggerPolicy) (names : List Text)
    : Type 0 where
  pub supervised :
      (trigger.requires_approval ≡ true) ⊎ (trigger.reasoning_policy ≡ some (codes "post_action"))
  pub notified :
      trigger.reasoning_policy ≡ some (codes "post_action")
      → (t : Text) × Memᴰ t names × IsDeclared tiers t tier_a

supervision_tests :
    (physical c d approved post notice : Bool)
    → ◌≡◌ {A = Checked (Unit {0})}
        (if not physical || c || d
          then ok tt
          else (reject (not approved && not post) invalid >> reject (post && not notice) invalid))
        (ok tt)
    → physical ≡ true
    → c ≡ false
    → d ≡ false
    → ((approved || post) ≡ true) × (post ≡ true → notice ≡ true)
supervision_tests physical c d true true notice h p e f = (refl, λ _. ground arith)
supervision_tests physical c d true false notice h p e f = (refl, λ q. cc)
supervision_tests physical c d false true notice h p e f = (refl, λ _. ground arith)
supervision_tests physical c d false false notice h p e f = cc

is_post-some : (o : Option Text) → is_post o ≡ true → o ≡ some (codes "post_action")
is_post-some none h = cc
is_post-some (some policy) h = ap some ((text_eq_iff policy (codes "post_action")).0 h)

supervised_by :
    (trigger : TriggerPolicy) (approved : Bool)
    → trigger.requires_approval ≡ approved
    → (approved || is_post_action trigger) ≡ true
    → (trigger.requires_approval ≡ true) ⊎ (trigger.reasoning_policy ≡ some (codes "post_action"))
supervised_by trigger true e h = inl e
supervised_by trigger false e h = inr (is_post-some trigger.reasoning_policy h)

check_physical-IsSupervised :
    (tiers : ActionTiers) (trigger : TriggerPolicy) (names : List Text)
    → check_physical tiers trigger names ≡ ok tt
    → any (has_tier tiers tier_b) names ≡ true
    → tier_eq trigger.action_tier tier_c ≡ false
    → tier_eq trigger.action_tier tier_d ≡ false
    → IsSupervised tiers trigger names
unfolding check_physical
check_physical-IsSupervised tiers trigger names h p c d =
    let (a, n) =
      supervision_tests (any (has_tier tiers tier_b) names) (tier_eq trigger.action_tier tier_c)
        (tier_eq trigger.action_tier tier_d) trigger.requires_approval (is_post_action trigger)
        (any (has_tier tiers tier_a) names) h p c d in
    record {
      supervised = supervised_by trigger trigger.requires_approval refl a;
      notified = λ q.
          let (t, m, e) =
            any-true (has_tier tiers tier_a) names
              (n (ap is_post q ∙ text_eq_refl (codes "post_action"))) in
          (t, m, has_tier-IsDeclared tiers tier_a t e);
    }

-- What `actions.defaults` gives the trigger.
pub record IsAuthorised (tiers : ActionTiers) (defaults : Fields) (trigger : TriggerPolicy)
    : Type 0 where
  pub names : List Text
  pub listed : get defaults trigger.name ≡ arr (strings names)
  pub some_name : is_nil names ≡ false
  pub distinct : UniqueBy (λ t. t) names
  pub each : All (IsDefault tiers trigger.action_tier) names
  pub fallback : HasFallback tiers trigger
  pub physical :
      (t : Text)
      → Memᴰ t names
      → has_tier tiers tier_b t ≡ true
      → tier_eq trigger.action_tier tier_c ≡ false
      → tier_eq trigger.action_tier tier_d ≡ false
      → IsSupervised tiers trigger names

is_nil-strings : (names : List Text) → is_empty (strings names) ≡ false → is_nil names ≡ false
is_nil-strings [] h = h
is_nil-strings (t ∷ names) h = refl

check_trigger-IsAuthorised :
    (tiers : ActionTiers) (defaults : Fields) (trigger : TriggerPolicy) (names : List Text)
    → check_trigger tiers defaults trigger ≡ ok names
    → IsAuthorised tiers defaults trigger
unfolding check_trigger
check_trigger-IsAuthorised tiers defaults trigger names h =
    let (items, e, k) = >>=-eq-ok (require_array true (get defaults trigger.name)) _ h in
    let (ns, e1, k1) = >>=-eq-ok (parse_default_items tiers trigger.action_tier [] items) _ k in
    let (_, f, k2) = >>=-eq-ok (check_safe_default tiers trigger) _ k1 in
    let (_, q, k3) = >>=-eq-ok (check_physical tiers trigger ns) _ k2 in
    let found = parse_default_items-AreDefaults tiers trigger.action_tier [] items ns e1 in
    let n = require_array-some (get defaults trigger.name) items e in
    record {
      names = ns;
      listed = require_array-arr true (get defaults trigger.name) items e ∙ ap arr found.listed;
      some_name = is_nil-strings ns (ap is_empty (sym found.listed) ∙ n);
      distinct = found.distinct;
      each = found.each;
      fallback = check_safe_default-HasFallback tiers trigger f;
      physical = λ t m b c d.
          check_physical-IsSupervised tiers trigger ns q
            (any-intro (has_tier tiers tier_b) ns t m b) c d;
    }

pub check_triggers-IsAuthorised :
    (tiers : ActionTiers) (defaults : Fields) (triggers : List TriggerPolicy)
    → check_triggers tiers defaults triggers ≡ ok tt
    → All (IsAuthorised tiers defaults) triggers
unfolding check_triggers
check_triggers-IsAuthorised tiers defaults [] h = tt
check_triggers-IsAuthorised tiers defaults (trigger ∷ rest) h =
    let (names, e, k) = >>=-eq-ok (check_trigger tiers defaults trigger) _ h in
    (
      check_trigger-IsAuthorised tiers defaults trigger names e,
      check_triggers-IsAuthorised tiers defaults rest k,
    )
