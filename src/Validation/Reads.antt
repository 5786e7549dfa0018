-- ===== src/Validation/Reads.antt =====
-- hub/core/validation.py: the values that the readers of one field accept.
use ori_skills_hub.Prelude.{
  ◌≡◌, refl, sym, ap, subst, ◌∙◌, ◌⊎◌, inl, inr, Text, Bool, true, false, codes, text_eq,
  text_eq_iff, if◌then◌else◌, ok, >>=-eq-ok, ok-eq, guard-eq-ok, reject-eq-ok,
}
use ori_skills_hub.Value.{Value, boolean, str, arr, obj, Items, nil, cons, Fields, has_string_keys}
use ori_skills_hub.Validation.{
  Checked, invalid, require_mapping, require_array, require_string, require_bool,
  require_trigger_name, is_trigger_name, ActionTier, tier_a, tier_b, tier_c, tier_d, tier_eq,
  tier_of, require_action_tier,
}

pub tier_eq-eq : (t u : ActionTier) → tier_eq t u ≡ true → t ≡ u
tier_eq-eq tier_a tier_a h = refl
tier_eq-eq tier_b tier_b h = refl
tier_eq-eq tier_c tier_c h = refl
tier_eq-eq tier_d tier_d h = refl
tier_eq-eq tier_a tier_b h = cc
tier_eq-eq tier_a tier_c h = cc
tier_eq-eq tier_a tier_d h = cc
tier_eq-eq tier_b tier_a h = cc
tier_eq-eq tier_b tier_c h = cc
tier_eq-eq tier_b tier_d h = cc
tier_eq-eq tier_c tier_a h = cc
tier_eq-eq tier_c tier_b h = cc
tier_eq-eq tier_c tier_d h = cc
tier_eq-eq tier_d tier_a h = cc
tier_eq-eq tier_d tier_b h = cc
tier_eq-eq tier_d tier_c h = cc

pub tier_eq_refl : (t : ActionTier) → tier_eq t t ≡ true
tier_eq_refl tier_a = refl
tier_eq_refl tier_b = refl
tier_eq_refl tier_c = refl
tier_eq_refl tier_d = refl

pub require_string-str :
    (n i : Bool) (v : Value) (s : Text) → require_string n i v ≡ ok s → v ≡ str s
unfolding require_string
require_string-str n i (str t) s h =
    let (_, k) = reject-eq-ok _ invalid _ h in
    let (_, k1) = reject-eq-ok _ invalid _ k in ap str (ok-eq t s k1)
require_string-str n i v s h = cc

pub require_mapping-obj :
    (v : Value) (fields : Fields) → require_mapping v ≡ ok fields → v ≡ obj fields
unfolding require_mapping
require_mapping-obj (obj fs) fields h =
    let (_, k) = guard-eq-ok (has_string_keys fs) invalid _ h in ap obj (ok-eq fs fields k)
require_mapping-obj v fields h = cc

pub require_bool-boolean : (v : Value) (b : Bool) → require_bool v ≡ ok b → v ≡ boolean b
unfolding require_bool
require_bool-boolean (boolean c) b h = ap boolean (ok-eq c b h)
require_bool-boolean v b h = cc

pub require_trigger_name-str :
    (v : Value) (s : Text)
    → require_trigger_name v ≡ ok s
    → (v ≡ str s) × (is_trigger_name s ≡ true)
unfolding require_trigger_name
require_trigger_name-str v s h =
    let (t, e, k) = >>=-eq-ok (require_string true true v) _ h in
    let (n, k1) = guard-eq-ok (is_trigger_name t) invalid _ k in
    subst (λ u. (v ≡ str u) × (is_trigger_name u ≡ true)) (ok-eq t s k1)
      (require_string-str true true v t e, n)

-- The spelling of a tier in a manifest.
abbrev pub letter : ActionTier → Text
letter tier_a = codes "A"
letter tier_b = codes "B"
letter tier_c = codes "C"
letter tier_d = codes "D"

-- Where the tier is not this letter's, it is read from the rest.
letter_or :
    (t : Text) (first tier : ActionTier) (b : Bool) (rest : Checked ActionTier)
    → text_eq t (letter first) ≡ b
    → (if b then ok first else rest) ≡ ok tier
    → (t ≡ letter tier) ⊎ (rest ≡ ok tier)
letter_or t first tier true rest e h =
    inl ((text_eq_iff t (letter first)).0 e ∙ ap letter (ok-eq first tier h))
letter_or t first tier false rest e h = inr h

tier_of-letter : (t : Text) (tier : ActionTier) → tier_of t ≡ ok tier → t ≡ letter tier
tier_of-letter t tier h = elim (letter_or t tier_a tier _ _ refl h) [
  | inl e ↦ e
  | inr h1 ↦ elim (letter_or t tier_b tier _ _ refl h1) [
    | inl e ↦ e
    | inr h2 ↦ elim (letter_or t tier_c tier _ _ refl h2) [
      | inl e ↦ e
      | inr h3 ↦ elim (letter_or t tier_d tier _ _ refl h3) [ inl e ↦ e | inr h4 ↦ cc ]
    ]
  ]
]

pub require_action_tier-letter :
    (v : Value) (tier : ActionTier) → require_action_tier v ≡ ok tier → v ≡ str (letter tier)
unfolding require_action_tier
require_action_tier-letter v tier h =
    let (t, e, k) = >>=-eq-ok (require_string true true v) tier_of h in
    require_string-str true true v t e ∙ ap str (tier_of-letter t tier k)

abbrev pub is_empty : Items → Bool
is_empty nil = true
is_empty (cons v rest) = false

pub require_array-arr :
    (n : Bool) (v : Value) (items : Items) → require_array n v ≡ ok items → v ≡ arr items
unfolding require_array
require_array-arr n (arr nil) items h =
    let (_, k) = reject-eq-ok n invalid _ h in ap arr (ok-eq nil items k)
require_array-arr n (arr (cons v rest)) items h = ap arr (ok-eq (cons v rest) items h)
require_array-arr n v items h = cc

pub require_array-some :
    (v : Value) (items : Items) → require_array true v ≡ ok items → is_empty items ≡ false
unfolding require_array
require_array-some (arr nil) items h = cc
require_array-some (arr (cons v rest)) items h = ap is_empty (sym (ok-eq (cons v rest) items h))
require_array-some v items h = cc
