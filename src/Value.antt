-- ===== src/Value.antt =====
-- The decoded YAML and JSON values that the program inspects. A mapping is its entries in order,
-- each key once, as in a Python dict; a key that is not a string has only that said of it. Of a
-- float the program asks whether it is finite. Values are trees, so no value is its own part.
use ori_skills_hub.Prelude.{ℕ, Text, Bool, true, false, text_eq, if◌then◌else◌}

-- `negsuc n` is -(n + 1).
pub data ℤ : Type 0 where
  pos : ℕ → ℤ
  negsuc : ℕ → ℤ

pub data Key : Type 0 where
  name : Text → Key
  not_string : Key

mutual
  pub data Value : Type 0 where
    null : Value
    boolean : Bool → Value
    integer : ℤ → Value
    float : Bool → Value
    str : Text → Value
    arr : Items → Value
    obj : Fields → Value
    other : Value

  pub data Items : Type 0 where
    nil : Items
    cons : Value → Items → Items

  pub data Fields : Type 0 where
    end : Fields
    field : Key → Value → Fields → Fields

abbrev pub key_is : Text → Key → Bool
key_is k (name j) = text_eq j k
key_is k not_string = false

-- `mapping.get(key, default)`
unfoldable pub get_or : Fields → Text → Value → Value
get_or end k d = d
get_or (field j v rest) k d = if key_is k j then v else get_or rest k d

-- `mapping.get(key)`
unfoldable pub get : Fields → Text → Value
unfolding get_or
get fields k = get_or fields k null

-- The mapping with `key` set: in its place if it is there, else at the end.
unfoldable pub put : Fields → Text → Value → Fields
put end k v = field (name k) v end
put (field j w rest) k v = if key_is k j then field j v rest else field j w (put rest k v)

-- `all(isinstance(key, str) for key in value)`
unfoldable pub has_string_keys : Fields → Bool
has_string_keys end = true
has_string_keys (field (name k) v rest) = has_string_keys rest
has_string_keys (field not_string v rest) = false
