-- ===== src/Validation.antt =====
-- hub/core/validation.py: the checks on the fields of skill.yaml. A `SkillValidationError` is one
-- error, its message is left out; so are the field names that only messages use. The parents of a
-- nested value are not passed down, since a value here is a tree; an interpreter's recursion limit
-- has no counterpart.
pub mod Json
pub mod Reads
pub mod Triggers
pub mod Actions
pub mod Package
use ori_skills_hub.Prelude.{
  ℕ, Text, Bool, true, false, not, ◌&&◌, ◌||◌, Option, none, some, List, [], ◌∷◌, all, is_nil,
  codes, text_eq, strip, leb, ◌==◌, Result, ok, err, ◌>>=◌, ◌>>◌, guard, reject, if◌then◌else◌,
}
use ori_skills_hub.Value.{
  ℤ, Key, Value, null, boolean, integer, float, str, arr, obj, other, Items, nil, cons, Fields, end,
  field, has_string_keys,
}

pub data SkillValidationError : Type 0 where
  invalid : SkillValidationError

abbrev pub Checked : Type 0 → Type 0
Checked A = Result SkillValidationError A

unfoldable pub require_mapping : Value → Checked Fields
require_mapping (obj fields) = do guard (has_string_keys fields) invalid; ok fields
require_mapping v = err invalid

unfoldable pub require_array : Bool → Value → Checked Items
require_array non_empty (arr nil) = do reject non_empty invalid; ok nil
require_array non_empty (arr (cons v rest)) = ok (cons v rest)
require_array non_empty v = err invalid

-- `_require_string`, with `non_empty` and `identifier`.
unfoldable pub require_string : Bool → Bool → Value → Checked Text
require_string non_empty identifier (str s) = do
  reject (non_empty && is_nil (strip s)) invalid
  reject (identifier && not (text_eq s (strip s))) invalid
  ok s
require_string non_empty identifier v = err invalid

unfoldable pub require_bool : Value → Checked Bool
require_bool (boolean b) = ok b
require_bool v = err invalid

unfoldable pub require_int : Value → Checked ℤ
require_int (integer n) = ok n
require_int v = err invalid

-- `_validate_json_value`; the keys of a mapping are tested before its values. A value is a finite tree,
-- so there is no cycle to refuse, and is nested within the recursion limit of the interpreter, beyond
-- which the code refuses it.
unfoldable mutual
  unfolding has_string_keys

  pub validate_json_value : Value → Checked (Unit {0})
  validate_json_value null = ok tt
  validate_json_value (boolean b) = ok tt
  validate_json_value (integer n) = ok tt
  validate_json_value (float finite) = guard finite invalid
  validate_json_value (str s) = ok tt
  validate_json_value (arr items) = validate_json_items items
  validate_json_value (obj fields) =
      guard (has_string_keys fields) invalid >> validate_json_fields fields
  validate_json_value other = err invalid

  pub validate_json_items : Items → Checked (Unit {0})
  validate_json_items nil = ok tt
  validate_json_items (cons v rest) = validate_json_value v >> validate_json_items rest

  pub validate_json_fields : Fields → Checked (Unit {0})
  validate_json_fields end = ok tt
  validate_json_fields (field k v rest) = validate_json_value v >> validate_json_fields rest

abbrev is_alnum : ℕ → Bool
is_alnum c = leb b'0' c && leb c b'9' || leb b'A' c && leb c b'Z' || leb b'a' c && leb c b'z'

abbrev is_name_character : ℕ → Bool
is_name_character c = is_alnum c || c == b'_' || c == b'-'

-- `_TRIGGER_NAME_RE.fullmatch`
unfoldable pub is_trigger_name : Text → Bool
is_trigger_name [] = false
is_trigger_name (c ∷ s) = is_alnum c && all is_name_character s

unfoldable pub require_trigger_name : Value → Checked Text
unfolding require_string is_trigger_name
require_trigger_name v = do
  name ← require_string true true v
  guard (is_trigger_name name) invalid
  ok name

-- `ActionTier`: "A", "B", "C" and "D".
pub data ActionTier : Type 0 where
  tier_a tier_b tier_c tier_d : ActionTier

abbrev pub tier_eq : ActionTier → ActionTier → Bool
tier_eq tier_a tier_a = true
tier_eq tier_b tier_b = true
tier_eq tier_c tier_c = true
tier_eq tier_d tier_d = true
tier_eq _ _ = false

abbrev pub tier_of : Text → Checked ActionTier
tier_of t =
    if text_eq t (codes "A")
    then ok tier_a
    else if text_eq t (codes "B")
    then ok tier_b
    else if text_eq t (codes "C")
    then ok tier_c
    else if text_eq t (codes "D")
    then ok tier_d
    else err invalid

unfoldable pub require_action_tier : Value → Checked ActionTier
unfolding require_string
require_action_tier v = require_string true true v >>= tier_of
