-- ===== src/Validation/Json.antt =====
-- hub/core/validation.py: what `_validate_json_value` accepts.
use ori_skills_hub.Prelude.{◌≡◌, refl, ◌↔◌, true, ok, >>=-eq-ok, guard-eq-ok, arith}
use ori_skills_hub.Value.{
  Key, name, not_string, Value, null, boolean, integer, float, str, arr, obj, other, Items, nil,
  cons, Fields, end, field, has_string_keys,
}
use ori_skills_hub.Validation.{
  invalid, validate_json_value, validate_json_items, validate_json_fields,
}

abbrev pub IsName : Key → Type 0
IsName (name k) = Unit
IsName not_string = ⊥

-- The values of JSON: finite numbers, and objects whose names are strings.
unfoldable mutual
  pub IsJson : Value → Type 0
  IsJson (float finite) = finite ≡ true
  IsJson (arr items) = IsJsonArray items
  IsJson (obj fields) = IsJsonObject fields
  IsJson other = ⊥
  IsJson null = Unit
  IsJson (boolean b) = Unit
  IsJson (integer n) = Unit
  IsJson (str s) = Unit

  pub IsJsonArray : Items → Type 0
  IsJsonArray nil = Unit
  IsJsonArray (cons v rest) = IsJson v × IsJsonArray rest

  pub IsJsonObject : Fields → Type 0
  IsJsonObject end = Unit
  IsJsonObject (field k v rest) = IsName k × IsJson v × IsJsonObject rest

object_keys : (fields : Fields) → IsJsonObject fields → has_string_keys fields ≡ true
unfolding IsJsonObject has_string_keys
object_keys end h = refl
object_keys (field (name k) v rest) h = object_keys rest h.2
object_keys (field not_string v rest) h = absurd h.0

mutual
  unfolding validate_json_value IsJson has_string_keys

  accepted_value : (v : Value) → validate_json_value v ≡ ok tt → IsJson v
  accepted_value null h = tt
  accepted_value (boolean b) h = tt
  accepted_value (integer n) h = tt
  accepted_value (float finite) h = ground arith
  accepted_value (str s) h = tt
  accepted_value (arr items) h = accepted_items items h
  accepted_value (obj fields) h =
      let (e, k) = guard-eq-ok (has_string_keys fields) invalid _ h in accepted_fields fields e k
  accepted_value other h = cc

  accepted_items : (items : Items) → validate_json_items items ≡ ok tt → IsJsonArray items
  accepted_items nil h = tt
  accepted_items (cons v rest) h =
      let (u, e, k) = >>=-eq-ok (validate_json_value v) _ h in
      (accepted_value v e, accepted_items rest k)

  accepted_fields :
      (fields : Fields)
      → has_string_keys fields ≡ true
      → validate_json_fields fields ≡ ok tt
      → IsJsonObject fields
  accepted_fields end s h = tt
  accepted_fields (field (name j) v rest) s h =
      let (u, e, k) = >>=-eq-ok (validate_json_value v) _ h in
      (tt, accepted_value v e, accepted_fields rest s k)
  accepted_fields (field not_string v rest) s h = cc

mutual
  unfolding validate_json_value IsJson has_string_keys

  json_value : (v : Value) → IsJson v → validate_json_value v ≡ ok tt
  json_value null h = refl
  json_value (boolean b) h = refl
  json_value (integer n) h = refl
  json_value (float finite) h = ground (arith, h)
  json_value (str s) h = refl
  json_value (arr items) h = json_items items h
  json_value (obj fields) h = rw (object_keys fields h) (json_fields fields h)
  json_value other h = absurd h

  json_items : (items : Items) → IsJsonArray items → validate_json_items items ≡ ok tt
  json_items nil h = refl
  json_items (cons v rest) h = rw (json_value v h.0) (json_items rest h.1)

  json_fields : (fields : Fields) → IsJsonObject fields → validate_json_fields fields ≡ ok tt
  json_fields end h = refl
  json_fields (field j v rest) h = rw (json_value v h.1) (json_fields rest h.2)

-- The finite trees that pass are the JSON values.
pub validate_json_value-IsJson : (v : Value) → (validate_json_value v ≡ ok tt) ↔ IsJson v
validate_json_value-IsJson v = (accepted_value v, json_value v)
