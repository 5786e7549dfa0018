-- ===== src/Archive/Rebuild.antt =====
-- hub/storage/tarball.py: `_snapshot_json_value`, `_serialise_signed_manifest`,
-- `_normalised_tar_info` and `rebuild_tarball`.
pub mod Rebuilt
use ori_skills_hub.Prelude.{
  ℕ, ◌*◌, ◌/◌, ◌%◌, Text, Bool, true, false, not, ◌&&◌, ◌||◌, Option, none, some, List, [], ◌∷◌,
  ◌++◌, map, length, contains, codes, text_eq, leb, ◌==◌, Result, ok, err, ◌>>=◌, ◌>>◌, guard,
  reject, if◌then◌else◌,
}
use ori_skills_hub.Value.{
  Key, name, not_string, Value, null, boolean, integer, float, str, arr, obj, other, Items, nil,
  cons, Fields, end, field, get,
}
use ori_skills_hub.Signing.{Crypto, decode_signature, canonical_manifest_bytes}
use ori_skills_hub.Archive.{
  ArchiveError, format, limit, safety, Bytes, TarballLimits, TarHeader, Platform,
}
use ori_skills_hub.Archive.Document.{or_format, or_else_format, top_level_mapping}
use ori_skills_hub.Archive.Inspection.{ArchiveMember, ArchiveInspection, inspect_tarball}

-- The names seen before are those of the entries already copied.
unfoldable mutual
  pub snapshot_json_value : Value → Result ArchiveError Value
  snapshot_json_value null = ok null
  snapshot_json_value (boolean b) = ok (boolean b)
  snapshot_json_value (integer n) = ok (integer n)
  snapshot_json_value (float finite) = guard finite format >> ok (float finite)
  snapshot_json_value (str s) = ok (str s)
  snapshot_json_value (arr items) = snapshot_items items >>= λ copied. ok (arr copied)
  snapshot_json_value (obj fields) = snapshot_fields [] fields >>= λ copied. ok (obj copied)
  snapshot_json_value other = err format

  pub snapshot_items : Items → Result ArchiveError Items
  snapshot_items nil = ok nil
  snapshot_items (cons v rest) =
      snapshot_json_value v >>= λ w. snapshot_items rest >>= λ copied. ok (cons w copied)

  pub snapshot_fields : List Text → Fields → Result ArchiveError Fields
  snapshot_fields seen end = ok end
  snapshot_fields seen (field not_string v rest) = err format
  snapshot_fields seen (field (name k) v rest) =
      reject (contains seen k) format
      >> (snapshot_json_value v >>= λ w.
          snapshot_fields (k ∷ seen) rest >>= λ copied. ok (field (name k) w copied))

unfoldable pub string_signature : Value → Result ArchiveError Text
string_signature (str s) = ok s
string_signature v = err format

unfoldable pub serialise_signed_manifest :
    Platform → Crypto → Fields → Fields → TarballLimits → Result ArchiveError Bytes
unfolding snapshot_json_value string_signature
serialise_signed_manifest p c original signed limits = do
  plain_value ← snapshot_json_value (obj signed)
  plain ← top_level_mapping plain_value
  signature ← string_signature (get plain (codes "signature"))
  decoded ← or_format (decode_signature c signature)
  original_unsigned ← or_format (canonical_manifest_bytes c original)
  signed_unsigned ← or_format (canonical_manifest_bytes c plain)
  guard (text_eq original_unsigned signed_unsigned) safety
  payload ← or_else_format (p.safe_dump plain)
  guard (leb (length payload) limits.max_skill_yaml_bytes) limit
  ok payload

-- `mode & 0o111`
abbrev pub is_executable : ℕ → Bool
is_executable mode = mode % 2 == 1 || mode / 8 % 2 == 1 || mode / 64 % 2 == 1

unfoldable pub normalised_tar_info : ArchiveMember → ℕ → TarHeader
normalised_tar_info m payload_size = record {
  name = if m.is_directory then m.name ++ codes "/" else m.name;
  is_directory = m.is_directory;
  mode = if m.is_directory || is_executable m.mode then 493 else 420;
  uid = 0;
  gid = 0;
  uname = codes "";
  gname = codes "";
  mtime = 0;
  size = payload_size;
}

abbrev pub payload_size : Option Bytes → ℕ
payload_size none = 0
payload_size (some payload) = length payload

-- The entry for a member, where the manifest at `path` is replaced.
unfoldable pub rebuilt_entry : Text → Bytes → ArchiveMember → TarHeader × Option Bytes
unfolding normalised_tar_info
rebuilt_entry path signed_payload m =
    let payload = if text_eq m.name path then some signed_payload else m.data_bytes in
    (normalised_tar_info m (payload_size payload), payload)

unfoldable pub rebuild_tarball :
    Platform → Crypto → TarballLimits → Bytes → Fields → Result ArchiveError Bytes
unfolding serialise_signed_manifest rebuilt_entry
rebuild_tarball p c limits tarball_bytes signed_skill_yaml = do
  inspection ← inspect_tarball p c limits tarball_bytes
  signed_payload ←
      serialise_signed_manifest p c inspection.manifest.mapping signed_skill_yaml limits
  let rebuilt_bytes =
      p.write_archive
        (map (rebuilt_entry inspection.manifest.path signed_payload) inspection.members)
  guard (leb (length rebuilt_bytes) limits.max_archive_bytes) limit
  rebuilt_inspection ← inspect_tarball p c limits rebuilt_bytes
  guard (text_eq rebuilt_inspection.manifest.path inspection.manifest.path) format
  ok rebuilt_bytes
