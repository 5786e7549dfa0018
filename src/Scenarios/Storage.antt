-- ===== src/Scenarios/Storage.antt =====
-- The theorems on stored objects and on the loading of keys, at one object and one secret.
use ori_skills_hub.Signing.{decode_standard_base64, Bytes, is_digest}
use ori_skills_hub.Objects.{digest_of_bytes, ContentAddressedStorage, store, read_object}
use ori_skills_hub.Prelude.{
  all, starts_with, ◌≡◌, refl, Text, true, Option, none, some, [], ◌∷◌, codes, text_eq, ok,
  if◌then◌else◌,
}
use ori_skills_hub.Publish.{HubSigningKeys}
use ori_skills_hub.Archive.Tree.{lookup}
use ori_skills_hub.Objects.Immutable.{store-keeps, read_object-store}
use ori_skills_hub.HubKeys.{KeyLibrary, KeyFiles, Environment, load_hub_signing_keys_from_env}
use ori_skills_hub.HubKeys.Sources.{Reads, IsLoaded, load_hub_signing_keys_from_env-IsLoaded}
use ori_skills_hub.Scenarios.{digest_of}
use ori_skills_hub.Scenarios.Archives.{repeated, crypto}

-- The digest repeats the first byte.
abbrev hex : Bytes → Text
hex [] = repeated 64 48
hex (b ∷ bytes) = repeated 64 b

abbrev nothing_stored : ContentAddressedStorage
nothing_stored = record { objects = [] }

abbrev one_stored : ContentAddressedStorage
one_stored = record { objects = (repeated 64 49, 49 ∷ []) ∷ [] }

abbrev two_stored : ContentAddressedStorage
two_stored = record { objects = (repeated 64 50, 50 ∷ []) ∷ (repeated 64 49, 49 ∷ []) ∷ [] }

stored_first : store hex (49 ∷ []) nothing_stored ≡ ok (digest_of 49, one_stored)
unfolding load_hub_signing_keys_from_env text_eq decode_standard_base64 store lookup
stored_first = refl

well_formed : is_digest (digest_of 49) ≡ true
unfolding read_object is_digest starts_with all lookup text_eq digest_of_bytes
well_formed = refl

lookup_nothing : (c : Bytes) → ◌≡◌ {A = Option Bytes} none (some c) → c ≡ 49 ∷ []
lookup_nothing c h = cc

read_object-store_example : read_object hex (digest_of 49) one_stored ≡ ok (49 ∷ [])
unfolding read_object is_digest starts_with all lookup text_eq digest_of_bytes
read_object-store_example =
    read_object-store hex (49 ∷ []) nothing_stored (digest_of 49, one_stored) stored_first
      well_formed lookup_nothing

stored_second : store hex (50 ∷ []) one_stored ≡ ok (digest_of 50, two_stored)
unfolding read_object is_digest starts_with all lookup text_eq digest_of_bytes store
stored_second = refl

read_first : read_object hex (digest_of 49) one_stored ≡ ok (49 ∷ [])
unfolding read_object is_digest starts_with all lookup text_eq digest_of_bytes
read_first = refl

store-keeps_example : read_object hex (digest_of 49) two_stored ≡ ok (49 ∷ [])
store-keeps_example =
    store-keeps hex (50 ∷ []) one_stored (digest_of 50, two_stored) (digest_of 49) (49 ∷ [])
      stored_second read_first

abbrev library : KeyLibrary
library seed = some ((λ bytes. repeated 64 65), repeated 32 66)

abbrev no_files : KeyFiles
no_files file_name = none

abbrev root_only : Environment
root_only env_name =
    if text_eq env_name (codes "HUB_ROOT_SIGNING_PRIVATE_KEY_B64")
    then some (repeated 32 67)
    else none

abbrev root_keys : HubSigningKeys
root_keys = record {
  manifest_private_key = λ bytes. repeated 64 65;
  artifact_private_key = λ bytes. repeated 64 65;
  manifest_public_key_b64 = repeated 32 66;
  artifact_public_key_b64 = repeated 32 66;
}

loaded : load_hub_signing_keys_from_env crypto library no_files root_only true ≡ ok (some root_keys)
unfolding load_hub_signing_keys_from_env text_eq decode_standard_base64
loaded = refl

load_hub_signing_keys_from_env-IsLoaded_example :
    (s : Option Text) × (m : Option Text) × (a : Option Text) × Reads root_only no_files
      (codes "HUB_ROOT_SIGNING_PRIVATE_KEY_B64")
      (codes "HUB_ROOT_SIGNING_PRIVATE_KEY_FILE")
      s
    × Reads root_only no_files
        (codes "HUB_MANIFEST_SIGNING_PRIVATE_KEY_B64")
        (codes "HUB_MANIFEST_SIGNING_PRIVATE_KEY_FILE")
        m
    × Reads root_only no_files
        (codes "HUB_ARTIFACT_SIGNING_PRIVATE_KEY_B64")
        (codes "HUB_ARTIFACT_SIGNING_PRIVATE_KEY_FILE")
        a
    × IsLoaded crypto library true s m a (some root_keys)
load_hub_signing_keys_from_env-IsLoaded_example =
    load_hub_signing_keys_from_env-IsLoaded crypto library no_files root_only true (some root_keys)
      loaded
