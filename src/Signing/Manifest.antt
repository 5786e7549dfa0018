-- ===== src/Signing/Manifest.antt =====
-- hub/security/signing.py: the manifests that are signed.
use ori_skills_hub.Prelude.{
  ◌≡◌, refl, ap, ◌↔◌, Text, codes, text_eq, ok, >>=-eq-ok, arith, Bool-cases, inl, inr,
}
use ori_skills_hub.Value.{
  name, not_string, Value, null, boolean, integer, float, str, arr, obj, other, Items, nil, cons,
  Fields, end, field, key_is, put,
}
use ori_skills_hub.Validation.Json.{IsJson, IsJsonArray, IsJsonObject}
use ori_skills_hub.Signing.{
  Crypto, Bytes, validate_manifest, validate_manifest_items, validate_manifest_fields,
  unsigned_fields, canonical_manifest_bytes,
}

mutual
  unfolding validate_manifest IsJson

  signed_value : (v : Value) → validate_manifest v ≡ ok tt → IsJson v
  signed_value null h = tt
  signed_value (boolean b) h = tt
  signed_value (integer n) h = tt
  signed_value (float finite) h = ground arith
  signed_value (str s) h = tt
  signed_value (arr items) h = signed_items items h
  signed_value (obj fields) h = signed_fields fields h
  signed_value other h = cc

  signed_items : (items : Items) → validate_manifest_items items ≡ ok tt → IsJsonArray items
  signed_items nil h = tt
  signed_items (cons v rest) h =
      let (_, e, k) = >>=-eq-ok (validate_manifest v) _ h in (signed_value v e, signed_items rest k)

  signed_fields : (fields : Fields) → validate_manifest_fields fields ≡ ok tt → IsJsonObject fields
  signed_fields end h = tt
  signed_fields (field (name k) v rest) h =
      let (_, e, l) = >>=-eq-ok (validate_manifest v) _ h in
      (tt, signed_value v e, signed_fields rest l)
  signed_fields (field not_string v rest) h = cc

mutual
  unfolding validate_manifest IsJson

  signable_value : (v : Value) → IsJson v → validate_manifest v ≡ ok tt
  signable_value null h = refl
  signable_value (boolean b) h = refl
  signable_value (integer n) h = refl
  signable_value (float finite) h = ground (arith, h)
  signable_value (str s) h = refl
  signable_value (arr items) h = signable_items items h
  signable_value (obj fields) h = signable_fields fields h
  signable_value other h = absurd h

  signable_items : (items : Items) → IsJsonArray items → validate_manifest_items items ≡ ok tt
  signable_items nil h = refl
  signable_items (cons v rest) h = rw (signable_value v h.0) (signable_items rest h.1)

  signable_fields :
      (fields : Fields) → IsJsonObject fields → validate_manifest_fields fields ≡ ok tt
  signable_fields end h = refl
  signable_fields (field (name k) v rest) h = rw (signable_value v h.1) (signable_fields rest h.2)
  signable_fields (field not_string v rest) h = absurd h.0

pub validate_manifest-IsJson : (v : Value) → (validate_manifest v ≡ ok tt) ↔ IsJson v
validate_manifest-IsJson v = (signed_value v, signable_value v)

-- The manifest with this text as its signature.
abbrev pub sign_with : Text → Fields → Fields
sign_with s fields = put fields (codes "signature") (str s)

sign_with-json :
    (s : Text) (fields : Fields) → IsJsonObject fields → IsJsonObject (sign_with s fields)
unfolding put IsJson
sign_with-json s end h = (tt, tt, tt)
sign_with-json s (field k v rest) h = elim (Bool-cases (key_is (codes "signature") k)) [
  | inl e ↦ rw e (h.0, tt, h.2)
  | inr e ↦ rw e (h.0, h.1, sign_with-json s rest h.2)
]

unsigned_fields-sign_with :
    (s : Text) (fields : Fields) → unsigned_fields (sign_with s fields) ≡ unsigned_fields fields
unfolding put unsigned_fields text_eq
unsigned_fields-sign_with s end = refl
unsigned_fields-sign_with s (field k v rest) = elim (Bool-cases (key_is (codes "signature") k)) [
  | inl e ↦ rw (e, e) refl
  | inr e ↦ rw e (rw e (ap (field k v) (unsigned_fields-sign_with s rest)))
]

-- Setting the signature of a manifest that can be signed leaves the signed bytes as they are.
pub canonical_manifest_bytes-sign_with :
    (c : Crypto) (fields : Fields) (s : Text) (bytes : Bytes)
    → canonical_manifest_bytes c fields ≡ ok bytes
    → canonical_manifest_bytes c (sign_with s fields) ≡ ok bytes
unfolding canonical_manifest_bytes IsJson
canonical_manifest_bytes-sign_with c fields s bytes h =
    let (_, e, k) = >>=-eq-ok (validate_manifest (obj fields)) _ h in
    let json = sign_with-json s fields (signed_fields fields e) in
    rw (signable_value (obj (sign_with s fields)) json, unsigned_fields-sign_with s fields) k
