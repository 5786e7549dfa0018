-- ===== src/Signing/Wire.antt =====
-- hub/security/signing.py: wire signatures and detached metadata.
use ori_skills_hub.Prelude.{
  ℕ, ◌≡◌, refl, sym, ap, subst, ◌∙◌, Text, true, Option, none, some, ◌++◌, drop, length, codes,
  text_eq, text_eq_iff, text_eq_refl, starts_with, starts_with-append, ==_iff, ok, >>=-eq-ok, ok-eq,
  guard-eq-ok, reject-eq-ok, guard-ok,
}
use ori_skills_hub.Value.{Value, str, Fields, get}
use ori_skills_hub.Signing.{
  unverified, Bytes, Crypto, or_unverified, decode_standard_base64, signature_prefix, digest_prefix,
  decode_signature, wire_signature, load_public_key, require_str, ArtifactSignatureMetadata,
  parse_artifact_metadata, verify_artifact_signature,
}

or_unverified-some : {A : Type 0} (o : Option A) (a : A) → or_unverified o ≡ ok a → o ≡ some a
or_unverified-some none a h = cc
or_unverified-some (some b) a h = ap some (ok-eq b a h)

-- A text is the canonical base64 of so many bytes.
pub record IsBase64 (c : Crypto) (n : ℕ) (value : Text) (bytes : Bytes) : Type 0 where
  pub decoded : c.b64decode value ≡ some bytes
  pub canonical : value ≡ c.b64encode bytes
  pub sized : length bytes ≡ n

pub decode_standard_base64-IsBase64 :
    (c : Crypto) (n : ℕ) (value : Text) (bytes : Bytes)
    → decode_standard_base64 c n value ≡ ok bytes
    → IsBase64 c n value bytes
unfolding decode_standard_base64
decode_standard_base64-IsBase64 c n value bytes h =
    let (bs, e, k) = >>=-eq-ok (or_unverified (c.b64decode value)) _ h in
    let (canonical, k1) = guard-eq-ok _ unverified _ k in
    let (sized, k2) = guard-eq-ok _ unverified _ k1 in
    subst (IsBase64 c n value) (ok-eq bs bytes k2) (record {
      decoded = or_unverified-some (c.b64decode value) bs e;
      canonical = sym ((text_eq_iff (c.b64encode bs) value).0 canonical);
      sized = (==_iff (length bs) n).0 sized;
    })

drop_prefix : (t : Text) → drop 8 (signature_prefix ++ t) ≡ t
drop_prefix t = refl

-- A signature that is decoded is `ed25519:` and the canonical base64 of its bytes, which are 64.
pub decode_signature-wire :
    (c : Crypto) (signature : Text) (bytes : Bytes)
    → decode_signature c signature ≡ ok bytes
    → (signature ≡ wire_signature c bytes) × (length bytes ≡ 64)
unfolding decode_signature wire_signature
decode_signature-wire c signature bytes h =
    let (_, k) = reject-eq-ok _ unverified _ h in
    let (begins, k1) = guard-eq-ok _ unverified _ k in
    let (t, e) = starts_with-append signature_prefix signature begins in
    let found = decode_standard_base64-IsBase64 c 64 (drop 8 signature) bytes k1 in
    (e ∙ ap (λ r. signature_prefix ++ r) (sym (ap (drop 8) e) ∙ found.canonical), found.sized)

-- What is signed is decoded again, where decoding undoes encoding.
pub decode_signature-wire_signature :
    (c : Crypto) (bytes : Bytes)
    → c.b64decode (c.b64encode bytes) ≡ some bytes
    → length bytes ≡ 64
    → decode_signature c (wire_signature c bytes) ≡ ok bytes
unfolding decode_signature wire_signature decode_standard_base64 text_eq starts_with
decode_signature-wire_signature c bytes back sized =
    rw (back, text_eq_refl (c.b64encode bytes), (==_iff (length bytes) 64).1 sized) refl

-- The detached metadata of these bytes: their digest, and a signature of them under the key.
pub record IsSigned (c : Crypto) (artifact_bytes : Bytes) (metadata : Fields)
    (public_key_b64 : Text) : Type 0 where
  pub signature : Bytes
  pub key : Bytes
  pub digest :
      get metadata (codes "artifact_sha256") ≡ str (digest_prefix ++ c.sha256_hex artifact_bytes)
  pub wire : get metadata (codes "signature") ≡ str (wire_signature c signature)
  pub schema : get metadata (codes "schema") ≡ str (codes "ori.skill_artifact_signature.v1")
  pub is_key : IsBase64 c 32 public_key_b64 key
  pub verified : c.verifies key signature artifact_bytes ≡ true

require_str-str : (v : Value) (s : Text) → require_str v ≡ ok s → v ≡ str s
require_str-str (str t) s h = ap str (ok-eq t s h)
require_str-str v s h = cc

-- The metadata has these texts.
abbrev Reads : Fields → ArtifactSignatureMetadata → Type 0
Reads metadata m =
    (get metadata (codes "artifact_sha256") ≡ str m.artifact_sha256)
    × (get metadata (codes "schema") ≡ str m.schema)
    × (get metadata (codes "signature") ≡ str m.signature)
    × (m.schema ≡ codes "ori.skill_artifact_signature.v1")

parse_artifact_metadata-Reads :
    (metadata : Fields) (m : ArtifactSignatureMetadata)
    → parse_artifact_metadata metadata ≡ ok m
    → Reads metadata m
unfolding parse_artifact_metadata
parse_artifact_metadata-Reads metadata m h =
    let (_, k) = guard-eq-ok _ unverified _ h in
    let (digest, e, k1) = >>=-eq-ok (require_str (get metadata (codes "artifact_sha256"))) _ k in
    let (schema, e1, k2) = >>=-eq-ok (require_str (get metadata (codes "schema"))) _ k1 in
    let (signature, e2, k3) = >>=-eq-ok (require_str (get metadata (codes "signature"))) _ k2 in
    let (v1, k4) = guard-eq-ok _ unverified _ k3 in
    let (_, k5) = guard-eq-ok _ unverified _ k4 in
    subst (Reads metadata) (ok-eq _ m k5) (
      require_str-str _ digest e,
      require_str-str _ schema e1,
      require_str-str _ signature e2,
      (text_eq_iff schema (codes "ori.skill_artifact_signature.v1")).0 v1,
    )

load_public_key-IsBase64 :
    (c : Crypto) (text : Text) (key : Bytes)
    → load_public_key c text ≡ ok key
    → IsBase64 c 32 text key
unfolding load_public_key
load_public_key-IsBase64 c text key h =
    let (bs, e, k) = >>=-eq-ok (decode_standard_base64 c 32 text) _ h in
    let (_, k1) = guard-eq-ok _ unverified _ k in
    subst (IsBase64 c 32 text) (ok-eq bs key k1) (decode_standard_base64-IsBase64 c 32 text bs e)

-- Metadata is accepted only for bytes whose SHA-256 digest it gives, with a signature in canonical
-- form that the library verifies over these bytes under the key.
pub verify_artifact_signature-IsSigned :
    (c : Crypto) (artifact_bytes : Bytes) (metadata : Fields) (public_key_b64 : Text)
    → verify_artifact_signature c artifact_bytes metadata public_key_b64 ≡ ok tt
    → IsSigned c artifact_bytes metadata public_key_b64
unfolding verify_artifact_signature
verify_artifact_signature-IsSigned c artifact_bytes metadata public_key_b64 h =
    let (m, e, k) = >>=-eq-ok (parse_artifact_metadata metadata) _ h in
    let (same, k1) = guard-eq-ok _ unverified _ k in
    let (signature, e2, k2) = >>=-eq-ok (decode_signature c m.signature) _ k1 in
    let (key, e3, k3) = >>=-eq-ok (load_public_key c public_key_b64) _ k2 in
    let (digest, schema, wire, v1) = parse_artifact_metadata-Reads metadata m e in
    record {
      signature = signature;
      key = key;
      digest = digest ∙ ap str ((text_eq_iff m.artifact_sha256 _).0 same);
      wire = wire ∙ ap str (decode_signature-wire c m.signature signature e2).0;
      schema = schema ∙ ap str v1;
      is_key = load_public_key-IsBase64 c public_key_b64 key e3;
      verified = guard-ok _ unverified k3;
    }
