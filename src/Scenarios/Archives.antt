-- ===== src/Scenarios/Archives.antt =====
-- The theorems on archives at one archive: the directory `pump` with its skill.yaml.
use ori_skills_hub.Archive.{
  RawLimits, value_error, expanded, check_limits, Bytes, default_limits, TarMember, Extracted,
  ended, next, scalar, mapping, Pairs, no_pair, pair, Platform,
}
use ori_skills_hub.Prelude.{
  err, all, join, text_eq, split, any, starts_with, ℕ, zero, suc, ◌≡◌, refl, true, false, none,
  some, [], ◌∷◌, length, codes, ltb, leb, ◌&&◌, ◌||◌, map, ok, if◌then◌else◌, ◌+◌,
}
use ori_skills_hub.Signing.{canonical_manifest_bytes, Crypto, decode_signature, wire_signature}
use ori_skills_hub.Archive.Document.{parse_skill_yaml}
use ori_skills_hub.Archive.Inspection.{last_part, ArchiveInspection, inspect_tarball}
use ori_skills_hub.Archive.Tree.{validate_path_relationships}
use ori_skills_hub.Archive.Names.{
  stem, ends_badly, check_component, has_drive, drop_empty_last, canonical_member_name,
}
use ori_skills_hub.Value.{integer, negsuc, boolean, pos, str, Fields, end, field, name, not_string}
use ori_skills_hub.Signing.Manifest.{sign_with, canonical_manifest_bytes-sign_with}
use ori_skills_hub.Signing.Wire.{decode_signature-wire, decode_signature-wire_signature}
use ori_skills_hub.Archive.Names.Canonical.{IsCanonical, canonical_member_name-IsCanonical}
use ori_skills_hub.Archive.Inspection.Packages.{IsArchive, inspect_tarball-IsArchive}
use ori_skills_hub.Scenarios.Packages.{root}

abbrev pub repeated : ℕ → ℕ → Bytes
repeated zero b = []
repeated (suc n) b = b ∷ repeated n b

-- Every key is a key, and base64 writes each byte as itself.
abbrev pub crypto : Crypto
crypto = record {
  b64decode = λ text. some text;
  b64encode = λ bytes. bytes;
  sha256_hex = λ bytes. repeated 64 49;
  dumps = λ fields. some (codes "{}");
  is_public_key = λ key. true;
  verifies = λ key signature bytes. true;
}

abbrev pairs_of : Fields → Pairs
pairs_of end = no_pair
pairs_of (field (name k) v rest) = pair false (scalar (str k)) (scalar v) (pairs_of rest)
pairs_of (field not_string v rest) = pairs_of rest

abbrev folder : TarMember
folder = record {
  name = codes "pump/";
  is_sym = false;
  is_lnk = false;
  is_file = false;
  is_dir = true;
  is_sparse = false;
  size = pos 0;
  mode = 493;
  offset_data = 512;
  content = Extracted.no_file;
}

abbrev document : TarMember
document = record {
  name = codes "pump/skill.yaml";
  is_sym = false;
  is_lnk = false;
  is_file = true;
  is_dir = false;
  is_sparse = false;
  size = pos 4;
  mode = 420;
  offset_data = 1024;
  content = Extracted.read (codes "yaml");
}

-- ASCII with control characters below the space.
abbrev pub platform : Platform
platform = record {
  is_control = λ c. ltb c 32;
  is_alpha = λ c. leb 97 c && leb c 122 || leb 65 c && leb c 90;
  normalize = λ text. text;
  casefold = λ text. map (λ c. if leb 65 c && leb c 90 then c + 32 else c) text;
  utf8_size = λ text. some (length text);
  decode_utf8 = λ bytes. some bytes;
  gunzip = λ bytes limit. expanded (repeated 2560 0);
  open_tar = λ bytes. next folder (next document ended);
  compose = λ text. some (mapping (pairs_of root));
  safe_dump = λ fields. some (codes "yaml");
  write_archive = λ members. codes "rebuilt";
}

abbrev pub inspection : ArchiveInspection
inspection = record {
  manifest = record { path = codes "pump/skill.yaml"; mapping = root };
  members =
      record { name = codes "pump"; is_directory = true; mode = 493; data_bytes = none }
      ∷ record {
        name = codes "pump/skill.yaml";
        is_directory = false;
        mode = 420;
        data_bytes = some (codes "yaml");
      }
      ∷ [];
}

pub inspected : inspect_tarball platform crypto default_limits (80 ∷ []) ≡ ok inspection
unfolding inspect_tarball canonical_member_name starts_with any drop_empty_last split text_eq
    has_drive join check_component ends_badly stem validate_path_relationships last_part
    parse_skill_yaml canonical_manifest_bytes all
inspected = refl

inspect_tarball-IsArchive_example : IsArchive platform crypto default_limits inspection
inspect_tarball-IsArchive_example =
    inspect_tarball-IsArchive platform crypto default_limits (80 ∷ []) inspection inspected

named : canonical_member_name platform default_limits folder ≡ ok (codes "pump")
unfolding canonical_member_name starts_with any drop_empty_last split text_eq has_drive join
    check_component ends_badly stem
named = refl

canonical_member_name-IsCanonical_example :
    IsCanonical platform default_limits folder (codes "pump")
canonical_member_name-IsCanonical_example =
    canonical_member_name-IsCanonical platform default_limits folder (codes "pump") named

abbrev pub signature : Bytes
signature = repeated 64 65

decode_signature-wire_signature_example :
    decode_signature crypto (wire_signature crypto signature) ≡ ok signature
decode_signature-wire_signature_example = decode_signature-wire_signature crypto signature refl refl

canonical_bytes : canonical_manifest_bytes crypto root ≡ ok (codes "{}")
unfolding canonical_manifest_bytes
canonical_bytes = refl

canonical_manifest_bytes-sign_with_example :
    canonical_manifest_bytes crypto (sign_with (codes "ed25519:") root) ≡ ok (codes "{}")
canonical_manifest_bytes-sign_with_example =
    canonical_manifest_bytes-sign_with crypto root (codes "ed25519:") (codes "{}") canonical_bytes

decoded : decode_signature crypto (wire_signature crypto signature) ≡ ok signature
decoded = decode_signature-wire_signature crypto signature refl refl

decode_signature-wire_example :
    (wire_signature crypto signature ≡ wire_signature crypto signature) × (length signature ≡ 64)
decode_signature-wire_example =
    decode_signature-wire crypto (wire_signature crypto signature) signature decoded

-- `TarballLimits()`, and a Boolean or a negative number among its arguments.
abbrev raw_default : RawLimits
raw_default = record {
  max_archive_bytes = integer (pos 10485760);
  max_expanded_archive_bytes = integer (pos 67108864);
  max_members = integer (pos 512);
  max_file_bytes = integer (pos 16777216);
  max_total_file_bytes = integer (pos 50331648);
  max_skill_yaml_bytes = integer (pos 524288);
  max_path_bytes = integer (pos 512);
}

default_accepted : check_limits raw_default ≡ ok default_limits
unfolding check_limits
default_accepted = refl

boolean_refused : check_limits (record raw_default { max_members = boolean true }) ≡ err value_error
unfolding check_limits
boolean_refused = refl

negative_refused :
    check_limits (record raw_default { max_members = integer (negsuc 0) }) ≡ err value_error
unfolding check_limits
negative_refused = refl
