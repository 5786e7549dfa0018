-- ===== src/Signing.antt =====
-- hub/security/signing.py: signature wire values, canonical manifests and detached metadata. A
-- `SignatureVerificationError` is one error, its message is left out. base64, hashlib, json and the
-- Ed25519 library are what `Crypto` has; an interpreter's recursion limit has no counterpart.
pub mod Manifest
pub mod Wire
use ori_skills_hub.Prelude.{
  ℕ, ◌+◌, Text, Bool, true, false, not, ◌&&◌, ◌||◌, Option, none, some, List, [], ◌∷◌, ◌++◌, all,
  drop, length, codes, text_eq, contains, leb, ◌==◌, starts_with, Result, ok, err, ◌>>=◌, ◌>>◌,
  guard, reject, if◌then◌else◌,
}
use ori_skills_hub.Value.{
  Key, name, not_string, Value, null, boolean, integer, float, str, arr, obj, other, Items, nil,
  cons, Fields, end, field, key_is, get,
}

pub data SignatureError : Type 0 where
  unverified : SignatureError

abbrev pub Bytes : Type 0
Bytes = List ℕ

-- `b64decode` with validation, or its exception; `b64encode` as text; the digest in hexadecimal;
-- `dumps` with sorted keys, encoded, or its exception; whether bytes are a
-- public key; and whether a signature is that of these bytes under it.
pub record Crypto : Type 0 where
  pub b64decode : Text → Option Bytes
  pub b64encode : Bytes → Text
  pub sha256_hex : Bytes → Text
  pub dumps : Fields → Option Bytes
  pub is_public_key : Bytes → Bool
  pub verifies : Bytes → Bytes → Bytes → Bool

abbrev pub Verified : Type 0 → Type 0
Verified A = Result SignatureError A

abbrev pub or_unverified : {A : Type 0} → Option A → Verified A
or_unverified none = err unverified
or_unverified (some a) = ok a

unfoldable pub decode_standard_base64 : Crypto → ℕ → Text → Verified Bytes
decode_standard_base64 c expected_length value = do
  decoded ← or_unverified (c.b64decode value)
  guard (text_eq (c.b64encode decoded) value) unverified
  guard (length decoded == expected_length) unverified
  ok decoded

-- `SIGNATURE_PREFIX` and `ARTIFACT_DIGEST_PREFIX`
abbrev pub signature_prefix : Text
signature_prefix = codes "ed25519:"

abbrev pub digest_prefix : Text
digest_prefix = codes "sha256:"

unfoldable pub decode_signature : Crypto → Text → Verified Bytes
unfolding decode_standard_base64
decode_signature c signature = do
  reject (text_eq signature (codes "bundled")) unverified
  guard (starts_with signature_prefix signature) unverified
  decode_standard_base64 c 64 (drop 8 signature)

unfoldable pub wire_signature : Crypto → Bytes → Text
wire_signature c signature = signature_prefix ++ c.b64encode signature

-- The bytes of a key that the library accepts.
unfoldable pub load_public_key : Crypto → Text → Verified Bytes
unfolding decode_standard_base64
load_public_key c public_key_b64 = do
  key ← decode_standard_base64 c 32 public_key_b64
  guard (c.is_public_key key) unverified
  ok key

-- `_validate_json_value`; each key is tested just before its value.
unfoldable mutual
  pub validate_manifest : Value → Verified (Unit {0})
  validate_manifest null = ok tt
  validate_manifest (boolean b) = ok tt
  validate_manifest (integer n) = ok tt
  validate_manifest (float finite) = guard finite unverified
  validate_manifest (str s) = ok tt
  validate_manifest (arr items) = validate_manifest_items items
  validate_manifest (obj fields) = validate_manifest_fields fields
  validate_manifest other = err unverified

  pub validate_manifest_items : Items → Verified (Unit {0})
  validate_manifest_items nil = ok tt
  validate_manifest_items (cons v rest) = validate_manifest v >> validate_manifest_items rest

  pub validate_manifest_fields : Fields → Verified (Unit {0})
  validate_manifest_fields end = ok tt
  validate_manifest_fields (field (name k) v rest) =
      validate_manifest v >> validate_manifest_fields rest
  validate_manifest_fields (field not_string v rest) = err unverified

-- The items whose key is not `signature`.
unfoldable pub unsigned_fields : Fields → Fields
unsigned_fields end = end
unsigned_fields (field k v rest) =
    let kept = unsigned_fields rest in if key_is (codes "signature") k then kept else field k v kept

unfoldable pub canonical_manifest_bytes : Crypto → Fields → Verified Bytes
unfolding validate_manifest unsigned_fields
canonical_manifest_bytes c parsed_skill = do
  validate_manifest (obj parsed_skill)
  or_unverified (c.dumps (unsigned_fields parsed_skill))

abbrev pub require_str : Value → Verified Text
require_str (str s) = ok s
require_str v = err unverified

unfoldable pub verify_manifest_signature : Crypto → Fields → Text → Verified (Unit {0})
unfolding decode_signature load_public_key canonical_manifest_bytes
verify_manifest_signature c parsed_skill public_key_b64 = do
  signature_field ← require_str (get parsed_skill (codes "signature"))
  signature ← decode_signature c signature_field
  key ← load_public_key c public_key_b64
  signed ← canonical_manifest_bytes c parsed_skill
  guard (c.verifies key signature signed) unverified

pub record ArtifactSignatureMetadata : Type 0 where
  pub artifact_sha256 : Text
  pub schema : Text
  pub signature : Text

abbrev pub expected_fields : List Text
expected_fields = codes "artifact_sha256" ∷ codes "schema" ∷ codes "signature" ∷ []

-- The names of a mapping; a key that is no string is none of the expected ones.
unfoldable pub has_only_fields : Fields → Bool
has_only_fields end = true
has_only_fields (field (name k) v rest) = contains expected_fields k && has_only_fields rest
has_only_fields (field not_string v rest) = false

unfoldable pub has_name : Fields → Text → Bool
has_name end k = false
has_name (field j v rest) k = key_is k j || has_name rest k

abbrev pub is_hex : ℕ → Bool
is_hex c = leb b'0' c && leb c b'9' || leb b'a' c && leb c b'f'

unfoldable pub is_digest : Text → Bool
is_digest digest =
    starts_with digest_prefix digest && length digest == 7 + 64 && all is_hex (drop 7 digest)

unfoldable pub parse_artifact_metadata : Fields → Verified ArtifactSignatureMetadata
unfolding has_only_fields has_name is_digest
parse_artifact_metadata metadata = do
  guard (has_only_fields metadata && all (has_name metadata) expected_fields) unverified
  digest ← require_str (get metadata (codes "artifact_sha256"))
  schema ← require_str (get metadata (codes "schema"))
  signature ← require_str (get metadata (codes "signature"))
  guard (text_eq schema (codes "ori.skill_artifact_signature.v1")) unverified
  guard (is_digest digest) unverified
  ok (record { artifact_sha256 = digest; schema = schema; signature = signature })

unfoldable pub verify_artifact_signature : Crypto → Bytes → Fields → Text → Verified (Unit {0})
unfolding decode_signature load_public_key parse_artifact_metadata
verify_artifact_signature c artifact_bytes metadata public_key_b64 = do
  parsed ← parse_artifact_metadata metadata
  guard (text_eq parsed.artifact_sha256 (digest_prefix ++ c.sha256_hex artifact_bytes)) unverified
  signature ← decode_signature c parsed.signature
  key ← load_public_key c public_key_b64
  guard (c.verifies key signature artifact_bytes) unverified
