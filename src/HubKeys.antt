-- ===== src/HubKeys.antt =====
-- hub/security/hub_keys.py: loading the Hub's signing keys. Environment variables and key files are
-- functions; of Ed25519 the program reads what `KeyLibrary` has. A `ConfigError` has no message
-- here. Generating key files is not modelled.
pub mod Secrets
pub mod Sources
use ori_skills_hub.Prelude.{
  ℕ, Text, Bool, true, false, not, ◌&&◌, ◌||◌, Option, none, some, List, [], ◌∷◌, all, reverse,
  length, is_nil, is_some, codes, text_eq, ltb, leb, ◌==◌, Result, ok, err, ◌>>=◌, ◌>>◌, guard,
  reject, if◌then◌else◌,
}
use ori_skills_hub.Signing.{SignatureError, Bytes, Crypto, decode_standard_base64}
use ori_skills_hub.Publish.{HubSigningKeys}

-- `not_a_key` is the SignatureVerificationError of the public anchors.
pub data KeyError : Type 0 where
  config_error not_a_key : KeyError

-- The private key of a seed, as what it makes of bytes, with the bytes of its public key, or a
-- ValueError.
abbrev pub KeyLibrary : Type 0
KeyLibrary = Bytes → Option ((Bytes → Bytes) × Bytes)

abbrev pub Environment : Type 0
Environment = Text → Option Text

-- The content of a file, or an OSError.
abbrev pub KeyFiles : Type 0
KeyFiles = Text → Option Bytes

abbrev pub or_config : {A : Type 0} → Option A → Result KeyError A
or_config none = err config_error
or_config (some a) = ok a

abbrev pub as_key_error : {A : Type 0} → KeyError → Result SignatureError A → Result KeyError A
as_key_error raised (ok a) = ok a
as_key_error raised (err e) = err raised

unfoldable pub decode_private_seed : Crypto → Text → Result KeyError Bytes
decode_private_seed c value = do
  decoded ← or_config (c.b64decode value)
  guard (text_eq (c.b64encode decoded) value) config_error
  guard (length decoded == 32) config_error
  ok decoded

unfoldable pub private_key_from_seed :
    KeyLibrary → Bytes → Result KeyError ((Bytes → Bytes) × Bytes)
private_key_from_seed library seed = do
  guard (length seed == 32) config_error
  or_config (library seed)

-- `HubSigningKeys.__init__`, with the tests of `HubPublicTrustAnchors`.
unfoldable pub hub_signing_keys :
    Crypto → KeyLibrary → Bytes → Bytes → Result KeyError HubSigningKeys
unfolding private_key_from_seed
hub_signing_keys c library manifest_seed artifact_seed = do
  manifest ← private_key_from_seed library manifest_seed
  artifact ← private_key_from_seed library artifact_seed
  manifest_anchor ← as_key_error not_a_key (decode_standard_base64 c 32 (c.b64encode manifest.1))
  artifact_anchor ← as_key_error not_a_key (decode_standard_base64 c 32 (c.b64encode artifact.1))
  ok (record {
    manifest_private_key = manifest.0;
    artifact_private_key = artifact.0;
    manifest_public_key_b64 = c.b64encode manifest.1;
    artifact_public_key_b64 = c.b64encode artifact.1;
  })

unfoldable pub from_base64_seeds :
    Crypto → KeyLibrary → Text → Text → Result KeyError HubSigningKeys
unfolding decode_private_seed hub_signing_keys
from_base64_seeds c library manifest_seed_b64 artifact_seed_b64 = do
  manifest_seed ← decode_private_seed c manifest_seed_b64
  artifact_seed ← decode_private_seed c artifact_seed_b64
  hub_signing_keys c library manifest_seed artifact_seed

-- A value that is set and not empty.
abbrev pub set_value : Option Text → Option Text
set_value none = none
set_value (some value) = if is_nil value then none else some value

-- `_configured`
abbrev pub configured : Environment → Text → Option Text
configured environment env_name = set_value (environment env_name)

-- The text without a last newline and, before that, a carriage return; the first argument has the
-- characters in reverse.
unfoldable pub strip_return : Text → Text
strip_return [] = []
strip_return (c ∷ rest) = if c == 13 then rest else c ∷ rest

unfoldable pub strip_newline : Text → Text
unfolding strip_return
strip_newline [] = []
strip_newline (c ∷ rest) = if c == 10 then strip_return rest else c ∷ rest

-- The secret in a key file.
unfoldable pub secret_of_file : Option Bytes → Result KeyError Text
unfolding strip_newline
secret_of_file content = do
  raw_secret ← or_config content
  guard (leb (length raw_secret) 4096) config_error
  guard (all (λ byte. ltb byte 128) raw_secret) config_error
  let secret = reverse (strip_newline (reverse raw_secret))
  reject (is_nil secret) config_error
  ok secret

-- `_read_secret_source`, of the two configured values.
unfoldable pub choose_source : KeyFiles → Option Text → Option Text → Result KeyError (Option Text)
unfolding secret_of_file
choose_source files (some inline) (some file_name) = err config_error
choose_source files (some inline) none = ok (some inline)
choose_source files none none = ok none
choose_source files none (some file_name) = do
  secret ← secret_of_file (files file_name)
  ok (some secret)

unfoldable pub read_secret_source :
    Environment → KeyFiles → Text → Text → Result KeyError (Option Text)
unfolding choose_source
read_secret_source environment files value_env file_env =
    choose_source files (configured environment value_env) (configured environment file_env)

-- The keys of a shared, a manifest and an artifact secret, in a mode that can publish or not.
unfoldable pub keys_of_sources :
    Crypto
    → KeyLibrary
    → Bool
    → Option Text
    → Option Text
    → Option Text
    → Result KeyError (Option HubSigningKeys)
unfolding from_base64_seeds
keys_of_sources c library publish_capable (some shared) none none = do
  keys ← from_base64_seeds c library shared shared
  ok (some keys)
keys_of_sources c library publish_capable (some shared) (some manifest) artifact = err config_error
keys_of_sources c library publish_capable (some shared) none (some artifact) = err config_error
keys_of_sources c library publish_capable none (some manifest) none = err config_error
keys_of_sources c library publish_capable none none (some artifact) = err config_error
keys_of_sources c library publish_capable none (some manifest) (some artifact) = do
  keys ← from_base64_seeds c library manifest artifact
  ok (some keys)
keys_of_sources c library publish_capable none none none = do
  reject publish_capable config_error
  ok none

unfoldable pub load_hub_signing_keys_from_env :
    Crypto → KeyLibrary → KeyFiles → Environment → Bool → Result KeyError (Option HubSigningKeys)
unfolding read_secret_source keys_of_sources
load_hub_signing_keys_from_env c library files environment publish_capable = do
  shared ←
      read_secret_source environment files (codes "HUB_ROOT_SIGNING_PRIVATE_KEY_B64")
        (codes "HUB_ROOT_SIGNING_PRIVATE_KEY_FILE")
  manifest ←
      read_secret_source environment files (codes "HUB_MANIFEST_SIGNING_PRIVATE_KEY_B64")
        (codes "HUB_MANIFEST_SIGNING_PRIVATE_KEY_FILE")
  artifact ←
      read_secret_source environment files (codes "HUB_ARTIFACT_SIGNING_PRIVATE_KEY_B64")
        (codes "HUB_ARTIFACT_SIGNING_PRIVATE_KEY_FILE")
  keys_of_sources c library publish_capable shared manifest artifact
