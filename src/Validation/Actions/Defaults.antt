-- ===== src/Validation/Actions/Defaults.antt =====
-- hub/core/validation.py: the default actions that `_parse_actions` accepts for a trigger.
use ori_skills_hub.Prelude.{
  ◌≡◌, refl, ap, subst, ◌∙◌, inl, inr, Text, true, false, not, ◌&&◌, Option, none, some, List, [],
  ◌∷◌, Memᴰ, All, is_some, text_eq, text_eq_iff, UniqueBy, UniqueBy-cons, FreshBy, contains, ok,
  >>=-eq-ok, ok-eq, guard-eq-ok, reject-eq-ok, arith, Bool-cases, &&-not-false,
}
use ori_skills_hub.Value.{Value, str, Items, nil, cons}
use ori_skills_hub.Validation.{invalid, require_string, ActionTier, tier_d, tier_eq}
use ori_skills_hub.Validation.Reads.{tier_eq-eq, require_string-str}
use ori_skills_hub.Validation.Actions.{
  ActionTiers, tier_of_action, is_tier, has_tier, parse_default, parse_default_items,
}

-- `actions.available` declares this action with this tier.
abbrev pub IsDeclared : ActionTiers → Text → ActionTier → Type 0
IsDeclared tiers t tier = Memᴰ (t, tier) tiers

tier_of_action-IsDeclared :
    (tiers : ActionTiers) (t : Text) (tier : ActionTier)
    → tier_of_action tiers t ≡ some tier
    → IsDeclared tiers t tier
unfolding tier_of_action
tier_of_action-IsDeclared [] t tier h = cc
tier_of_action-IsDeclared ((s, u) ∷ rest) t tier h = elim (Bool-cases (text_eq s t)) [
  | inl e ↦ Memᴰ.head (ground (arith, (text_eq_iff s t).0 e))
  | inr e ↦ Memᴰ.tail (tier_of_action-IsDeclared rest t tier (ground arith))
]

declared_as : (tier : ActionTier) (o : Option ActionTier) → is_tier tier o ≡ true → o ≡ some tier
declared_as tier none h = cc
declared_as tier (some u) h = ap some (tier_eq-eq u tier h)

pub has_tier-IsDeclared :
    (tiers : ActionTiers) (tier : ActionTier) (t : Text)
    → has_tier tiers tier t ≡ true
    → IsDeclared tiers t tier
has_tier-IsDeclared tiers tier t h =
    tier_of_action-IsDeclared tiers t tier (declared_as tier (tier_of_action tiers t) h)

-- The values of a list of strings.
abbrev pub strings : List Text → Items
strings [] = nil
strings (s ∷ rest) = cons (str s) (strings rest)

-- A trigger of tier `authority` may take this action: it is declared, and of Tier D only if the
-- trigger is.
pub record IsDefault (tiers : ActionTiers) (authority : ActionTier) (t : Text) : Type 0 where
  pub tier : ActionTier
  pub declared : IsDeclared tiers t tier
  pub within : tier ≡ tier_d → authority ≡ tier_d

declared-IsDefault :
    (tiers : ActionTiers) (authority : ActionTier) (t : Text) (o : Option ActionTier)
    → tier_of_action tiers t ≡ o
    → is_some o ≡ true
    → (has_tier tiers tier_d t && not (tier_eq authority tier_d)) ≡ false
    → IsDefault tiers authority t
declared-IsDefault tiers authority t none e i h = cc
declared-IsDefault tiers authority t (some tier) e i h = record {
  tier = tier;
  declared = tier_of_action-IsDeclared tiers t tier e;
  within = λ d.
      tier_eq-eq authority tier_d
        (&&-not-false (has_tier tiers tier_d t) _ h (ap (is_tier tier_d) (e ∙ ap some d)));
}

parse_default-IsDefault :
    (tiers : ActionTiers) (authority : ActionTier) (seen : List Text) (item : Value) (t : Text)
    → parse_default tiers authority seen item ≡ ok t
    → (item ≡ str t) × (contains seen t ≡ false) × IsDefault tiers authority t
unfolding parse_default
parse_default-IsDefault tiers authority seen item t h =
    let (s, e, k) = >>=-eq-ok (require_string true true item) _ h in
    let (fresh, k1) = reject-eq-ok (contains seen s) invalid _ k in
    let (there, k2) = guard-eq-ok (is_some (tier_of_action tiers s)) invalid _ k1 in
    let (within, k3) = reject-eq-ok _ invalid _ k2 in
    let p = ok-eq s t k3 in
    (
      require_string-str true true item s e ∙ ap str p,
      subst (λ u. contains seen u ≡ false) p fresh,
      subst (IsDefault tiers authority) p
          (declared-IsDefault tiers authority s (tier_of_action tiers s) refl there within),
    )

-- The items are the names of different actions, none of them seen before, that the trigger may take.
pub record AreDefaults (tiers : ActionTiers) (authority : ActionTier) (seen : List Text)
    (items : Items) (names : List Text) : Type 0 where
  pub listed : items ≡ strings names
  pub fresh : FreshBy (λ t. t) seen names
  pub distinct : UniqueBy (λ t. t) names
  pub each : All (IsDefault tiers authority) names

pub parse_default_items-AreDefaults :
    (tiers : ActionTiers) (authority : ActionTier) (seen : List Text) (items : Items)
    (names : List Text)
    → parse_default_items tiers authority seen items ≡ ok names
    → AreDefaults tiers authority seen items names
unfolding parse_default_items
parse_default_items-AreDefaults tiers authority seen nil names h =
    subst (AreDefaults tiers authority seen nil) (ok-eq [] names h)
      (record { listed = refl; fresh = tt; distinct = tt; each = tt })
parse_default_items-AreDefaults tiers authority seen (cons item rest) names h =
    let (t, e, k) = >>=-eq-ok (parse_default tiers authority seen item) _ h in
    let (ns, e1, k1) = >>=-eq-ok (parse_default_items tiers authority (t ∷ seen) rest) _ k in
    let (i, c, d) = parse_default-IsDefault tiers authority seen item t e in
    let found = parse_default_items-AreDefaults tiers authority (t ∷ seen) rest ns e1 in
    let (f, u) = UniqueBy-cons (λ t. t) seen t ns c found.fresh found.distinct in
    subst (AreDefaults tiers authority seen (cons item rest)) (ok-eq (t ∷ ns) names k1) (record {
      listed = ground (arith, i, found.listed);
      fresh = f;
      distinct = u;
      each = (d, found.each);
    })
