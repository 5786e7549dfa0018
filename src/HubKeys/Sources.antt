-- ===== src/HubKeys/Sources.antt =====
-- hub/security/hub_keys.py: where loaded keys come from.
use ori_skills_hub.Prelude.{
  ◌≡◌, refl, sym, ap, subst, ◌∙◌, Text, Bool, false, Option, none, some, length, ◌==◌, ==_iff,
  codes, text_eq, text_eq_iff, ok, >>=-eq-ok, ok-eq, guard-eq-ok, reject-eq-ok,
}
use ori_skills_hub.Signing.{Crypto, Bytes, decode_standard_base64}
use ori_skills_hub.Publish.{HubSigningKeys}
use ori_skills_hub.HubKeys.{
  config_error, not_a_key, or_config, as_key_error, KeyLibrary, KeyFiles, Environment, configured,
  decode_private_seed, private_key_from_seed, hub_signing_keys, from_base64_seeds,
  read_secret_source, keys_of_sources, load_hub_signing_keys_from_env,
}
use ori_skills_hub.HubKeys.Secrets.{IsSource, or_config-some, choose_source-IsSource}

-- The key pair of a canonical base64 seed of 32 bytes.
pub record IsPair (c : Crypto) (library : KeyLibrary) (seed_b64 : Text)
    (private_key : Bytes → Bytes) (public_key_b64 : Text) : Type 0 where
  pub seed : Bytes
  pub public_key : Bytes
  pub decoded : c.b64decode seed_b64 ≡ some seed
  pub canonical : c.b64encode seed ≡ seed_b64
  pub full : length seed ≡ 32
  pub made : library seed ≡ some (private_key, public_key)
  pub published : public_key_b64 ≡ c.b64encode public_key

-- The manifest pair is that of the manifest seed, the artifact pair that of the artifact seed.
pub record AreKeys (c : Crypto) (library : KeyLibrary) (manifest artifact : Text)
    (keys : HubSigningKeys) : Type 0 where
  pub manifest_pair :
      IsPair c library manifest keys.manifest_private_key keys.manifest_public_key_b64
  pub artifact_pair :
      IsPair c library artifact keys.artifact_private_key keys.artifact_public_key_b64

-- The keys of one shared seed, or of a seed for each profile, or none where nothing is published.
pub data IsLoaded (c : Crypto) (library : KeyLibrary) (publish_capable : Bool)
    : Option Text → Option Text → Option Text → Option HubSigningKeys → Type 0 where
  shared :
      (secret : Text) (keys : HubSigningKeys)
      → AreKeys c library secret secret keys
      → IsLoaded c library publish_capable (some secret) none none (some keys)
  profiles :
      (manifest artifact : Text) (keys : HubSigningKeys)
      → AreKeys c library manifest artifact keys
      → IsLoaded c library publish_capable none (some manifest) (some artifact) (some keys)
  read_only : publish_capable ≡ false → IsLoaded c library publish_capable none none none none

-- What a seed is, and the pair that the library makes of it.
seed-IsPair :
    (c : Crypto) (library : KeyLibrary) (seed_b64 : Text) (seed : Bytes)
    (made : (Bytes → Bytes) × Bytes)
    → decode_private_seed c seed_b64 ≡ ok seed
    → private_key_from_seed library seed ≡ ok made
    → IsPair c library seed_b64 made.0 (c.b64encode made.1)
unfolding decode_private_seed private_key_from_seed
seed-IsPair c library seed_b64 seed made h k =
    let (decoded, e, h1) = >>=-eq-ok (or_config (c.b64decode seed_b64)) _ h in
    let (same, h2) = guard-eq-ok (text_eq (c.b64encode decoded) seed_b64) config_error _ h1 in
    let (_, h3) = guard-eq-ok (length decoded == 32) config_error _ h2 in
    let (full, k1) = guard-eq-ok (length seed == 32) config_error _ k in
    let q = ok-eq decoded seed h3 in
    record {
      seed = seed;
      public_key = made.1;
      decoded = or_config-some (c.b64decode seed_b64) decoded e ∙ ap some q;
      canonical = ap c.b64encode (sym q) ∙ (text_eq_iff _ _).0 same;
      full = (==_iff _ _).0 full;
      made = or_config-some (library seed) made k1;
      published = refl;
    }

from_base64_seeds-AreKeys :
    (c : Crypto) (library : KeyLibrary) (manifest artifact : Text) (keys : HubSigningKeys)
    → from_base64_seeds c library manifest artifact ≡ ok keys
    → AreKeys c library manifest artifact keys
unfolding from_base64_seeds hub_signing_keys
from_base64_seeds-AreKeys c library manifest artifact keys h =
    let (ms, e, h1) = >>=-eq-ok (decode_private_seed c manifest) _ h in
    let (sa, e1, h2) = >>=-eq-ok (decode_private_seed c artifact) _ h1 in
    let (mp, e2, h3) = >>=-eq-ok (private_key_from_seed library ms) _ h2 in
    let (pa, e3, h4) = >>=-eq-ok (private_key_from_seed library sa) _ h3 in
    let (_, _, h5) =
      >>=-eq-ok (as_key_error not_a_key (decode_standard_base64 c 32 (c.b64encode mp.1))) _ h4 in
    let (_, _, h6) =
      >>=-eq-ok (as_key_error not_a_key (decode_standard_base64 c 32 (c.b64encode pa.1))) _ h5 in
    subst (AreKeys c library manifest artifact) (ok-eq _ keys h6) (record {
      manifest_pair = seed-IsPair c library manifest ms mp e e2;
      artifact_pair = seed-IsPair c library artifact sa pa e1 e3;
    })

keys_of_sources-IsLoaded :
    (c : Crypto) (library : KeyLibrary) (publish_capable : Bool) (s m a : Option Text)
    (keys : Option HubSigningKeys)
    → keys_of_sources c library publish_capable s m a ≡ ok keys
    → IsLoaded c library publish_capable s m a keys
unfolding keys_of_sources
keys_of_sources-IsLoaded c library b (some s) none none keys h =
    let (k, e, q) = >>=-eq-ok (from_base64_seeds c library s s) _ h in
    subst (IsLoaded c library b (some s) none none) (ok-eq (some k) keys q)
      (shared s k (from_base64_seeds-AreKeys c library s s k e))
keys_of_sources-IsLoaded c library b (some s) (some m) none keys h = cc
keys_of_sources-IsLoaded c library b (some s) (some m) (some a) keys h = cc
keys_of_sources-IsLoaded c library b (some s) none (some a) keys h = cc
keys_of_sources-IsLoaded c library b none (some m) none keys h = cc
keys_of_sources-IsLoaded c library b none none (some a) keys h = cc
keys_of_sources-IsLoaded c library b none (some m) (some a) keys h =
    let (k, e, q) = >>=-eq-ok (from_base64_seeds c library m a) _ h in
    subst (IsLoaded c library b none (some m) (some a)) (ok-eq (some k) keys q)
      (profiles m a k (from_base64_seeds-AreKeys c library m a k e))
keys_of_sources-IsLoaded c library b none none none keys h =
    let (r, q) = reject-eq-ok b config_error _ h in
    subst (IsLoaded c library b none none none) (ok-eq none keys q) (read_only r)

-- The secret that a pair of variables configures.
abbrev pub Reads : Environment → KeyFiles → Text → Text → Option Text → Type 0
Reads environment files value_env file_env =
    IsSource files (configured environment value_env) (configured environment file_env)

-- Where loading returns, each of the three secrets was read from its variable or from the file that
-- is named, never both: a file of at most 4096 bytes, without the end of its last line. The keys are
-- those of the shared secret alone, or those of both profiles' secrets alone, each the library's key
-- of its own canonical seed of 32 bytes with the public key in base64; there are none only where no
-- source is configured and the mode cannot publish.
pub load_hub_signing_keys_from_env-IsLoaded :
    (c : Crypto) (library : KeyLibrary) (files : KeyFiles) (environment : Environment)
    (publish_capable : Bool) (keys : Option HubSigningKeys)
    → load_hub_signing_keys_from_env c library files environment publish_capable ≡ ok keys
    → (s : Option Text) × (m : Option Text) × (a : Option Text) × Reads environment files
        (codes "HUB_ROOT_SIGNING_PRIVATE_KEY_B64")
        (codes "HUB_ROOT_SIGNING_PRIVATE_KEY_FILE")
        s
      × Reads environment files
          (codes "HUB_MANIFEST_SIGNING_PRIVATE_KEY_B64")
          (codes "HUB_MANIFEST_SIGNING_PRIVATE_KEY_FILE")
          m
      × Reads environment files
          (codes "HUB_ARTIFACT_SIGNING_PRIVATE_KEY_B64")
          (codes "HUB_ARTIFACT_SIGNING_PRIVATE_KEY_FILE")
          a
      × IsLoaded c library publish_capable s m a keys
unfolding load_hub_signing_keys_from_env read_secret_source
load_hub_signing_keys_from_env-IsLoaded c library files environment b keys h =
    let (s, e, k) = >>=-eq-ok (read_secret_source environment files _ _) _ h in
    let (m, e1, k1) = >>=-eq-ok (read_secret_source environment files _ _) _ k in
    let (a, e2, k2) = >>=-eq-ok (read_secret_source environment files _ _) _ k1 in
    (
      s,
      m,
      a,
      choose_source-IsSource files _ _ s e,
      choose_source-IsSource files _ _ m e1,
      choose_source-IsSource files _ _ a e2,
      keys_of_sources-IsLoaded c library b s m a keys k2,
    )
