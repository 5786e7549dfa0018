-- ===== src/Archive/Inspection.antt =====
-- hub/storage/tarball.py: `_decompress_tarball`, `_inspect_tarball` and what they call.
pub mod Members
pub mod Manifests
pub mod Rounds
pub mod Packages
use ori_skills_hub.Prelude.{
  ℕ, ◌+◌, ◌-◌, ◌*◌, ◌/◌, ◌%◌, max, Text, Bool, true, false, not, ◌&&◌, ◌||◌, Option, none, some,
  List, [], ◌∷◌, ◌++◌, any, all, drop, reverse, length, is_nil, is_none, codes, text_eq, leb, ltb,
  ◌==◌, split, starts_with, Result, ok, err, ◌>>=◌, ◌>>◌, guard, reject, if◌then◌else◌,
}
use ori_skills_hub.Value.{ℤ, pos, negsuc, Fields}
use ori_skills_hub.Signing.{Crypto}
use ori_skills_hub.Archive.{
  ArchiveError, zlib_failure, Gunzipped, expanded, gzip_error, zlib_error, format, limit, safety,
  Bytes, TarballLimits, Extracted, no_file, failed, read, TarMember, Listing, ended, malformed,
  next, Platform,
}
use ori_skills_hub.Archive.Names.{slash, canonical_member_name}
use ori_skills_hub.Archive.Tree.{SeenPaths, validate_path_relationships}
use ori_skills_hub.Archive.Document.{or_else_format, parse_skill_yaml}

abbrev of_gunzip : Gunzipped → Result ArchiveError Bytes
of_gunzip (expanded payload) = ok payload
of_gunzip gzip_error = err format
of_gunzip zlib_error = err zlib_failure

unfoldable pub decompress_tarball : Platform → TarballLimits → Bytes → Result ArchiveError Bytes
decompress_tarball p limits tarball_bytes = do
  reject (is_nil tarball_bytes) format
  guard (leb (length tarball_bytes) limits.max_archive_bytes) limit
  expanded_bytes ← of_gunzip (p.gunzip tarball_bytes (limits.max_expanded_archive_bytes + 1))
  guard (leb (length expanded_bytes) limits.max_expanded_archive_bytes) limit
  reject (is_nil expanded_bytes) format
  ok expanded_bytes

unfoldable pub payload_of : Extracted → ℕ → Result ArchiveError Bytes
payload_of no_file size = err format
payload_of failed size = err format
payload_of (read payload) size = do guard (length payload == size) format; ok payload

-- `_member_payload`, of a member of this size.
unfoldable pub member_payload : TarMember → ℕ → Result ArchiveError Bytes
unfolding payload_of
member_payload t size = payload_of t.content size

-- `_validate_tar_termination`
unfoldable pub validate_tar_termination : Bytes → ℕ → Result ArchiveError (Unit {0})
validate_tar_termination raw_tar last_member_end = do
  guard (length raw_tar % 512 == 0) format
  let trailing = drop last_member_end raw_tar
  reject (ltb (length trailing) 1024 || any (λ byte. not (byte == 0)) trailing) format

pub record SkillYamlDocument : Type 0 where
  pub path : Text
  pub mapping : Fields

pub record ArchiveMember : Type 0 where
  pub name : Text
  pub is_directory : Bool
  pub mode : ℕ
  pub data_bytes : Option Bytes

pub record ArchiveInspection : Type 0 where
  pub manifest : SkillYamlDocument
  pub members : List ArchiveMember

-- The variables of the loop; the lists have the newest entry first.
pub record Scan : Type 0 where
  pub members : List ArchiveMember
  pub manifests : List SkillYamlDocument
  pub seen : SeenPaths
  pub total_file_bytes : ℕ
  pub last_member_end : ℕ

abbrev pub empty_scan : Scan
empty_scan = record {
  members = [];
  manifests = [];
  seen = record { paths = []; spellings = [] };
  total_file_bytes = 0;
  last_member_end = 0;
}

-- `name.split("/")[-1]`
unfoldable pub last_part : List Text → Text
last_part [] = []
last_part (part ∷ []) = part
last_part (part ∷ other ∷ parts) = last_part (other ∷ parts)

abbrev pub basename : Text → Text
basename name = last_part (split slash name)

abbrev pub is_manifest_name : Platform → Text → Bool
is_manifest_name p name = text_eq (p.casefold (basename name)) (codes "skill.yaml")

-- The size of a member that is no negative number.
unfoldable pub member_size : ℤ → Result ArchiveError ℕ
member_size (pos n) = ok n
member_size (negsuc n) = err format

-- The tests on the kind and the size of a member.
unfoldable pub check_kind : TarMember → Result ArchiveError ℕ
unfolding member_size
check_kind member = do
  reject (member.is_sym || member.is_lnk) safety
  reject (not member.is_file && not member.is_dir) safety
  reject member.is_sparse safety
  size ← member_size member.size
  reject (member.is_dir && not (size == 0)) format
  ok size

-- A manifest has the exact name, stands at the root or one directory deep, and is small.
unfoldable pub check_manifest_name : TarballLimits → Text → ℕ → Result ArchiveError (Unit {0})
check_manifest_name limits name size = do
  guard (text_eq (basename name) (codes "skill.yaml")) safety
  guard (leb (length (split slash name)) 2) safety
  guard (leb size limits.max_skill_yaml_bytes) limit

-- The total after a regular file, and its payload.
unfoldable pub read_file :
    Platform → TarballLimits → TarMember → Text → ℕ → ℕ → Result ArchiveError (ℕ × Option Bytes)
unfolding check_manifest_name member_payload
read_file p limits member name size total = do
  guard (leb size limits.max_file_bytes) limit
  guard (leb (total + size) limits.max_total_file_bytes) limit
  (if is_manifest_name p name then check_manifest_name limits name size else ok tt)
  payload ← member_payload member size
  ok (total + size, some payload)

unfoldable pub read_member :
    Platform → TarballLimits → TarMember → Text → ℕ → ℕ → Result ArchiveError (ℕ × Option Bytes)
unfolding read_file
read_member p limits member name size total =
    if member.is_file then read_file p limits member name size total else ok (total, none)

-- A directory is never a manifest. Where `data` is None for a member that is no directory, the
-- assertion cannot fail: such a member is a file, which has been read.
unfoldable pub new_manifest :
    Platform
    → Crypto
    → TarMember
    → Text
    → Option Bytes
    → List SkillYamlDocument
    → Result ArchiveError (List SkillYamlDocument)
new_manifest p c t name data_bytes manifests = do
  reject t.is_dir safety
  payload ← or_else_format data_bytes
  mapping ← parse_skill_yaml p c payload
  guard (is_nil manifests) safety
  ok (record { path = name; mapping = mapping } ∷ manifests)

-- The manifests after a member.
unfoldable pub add_manifest :
    Platform
    → Crypto
    → TarMember
    → Text
    → Option Bytes
    → List SkillYamlDocument
    → Result ArchiveError (List SkillYamlDocument)
unfolding new_manifest
add_manifest p c t name data_bytes manifests =
    if is_manifest_name p name then new_manifest p c t name data_bytes manifests else ok manifests

abbrev pub aligned_end : TarMember → ℕ → ℕ
aligned_end member size = (member.offset_data + size + 512 - 1) / 512 * 512

-- One round of the loop, with the index of its member.
unfoldable pub inspect_member :
    Platform → Crypto → TarballLimits → ℕ → TarMember → Scan → Result ArchiveError Scan
unfolding check_kind read_member add_manifest
inspect_member p c limits index member s = do
  guard (leb index limits.max_members) limit
  size ← check_kind member
  name ← canonical_member_name p limits member
  seen ← validate_path_relationships p.casefold name member.is_dir s.seen
  found ← read_member p limits member name size s.total_file_bytes
  manifests ← add_manifest p c member name found.1 s.manifests
  ok (record {
    members =
        record {
          name = name;
          is_directory = member.is_dir;
          mode = member.mode;
          data_bytes = found.1;
        }
        ∷ s.members;
    manifests = manifests;
    seen = seen;
    total_file_bytes = found.0;
    last_member_end = max s.last_member_end (aligned_end member size);
  })

unfoldable pub inspect_members :
    Platform → Crypto → TarballLimits → ℕ → Listing → Scan → Result ArchiveError Scan
unfolding inspect_member
inspect_members p c limits index ended s = ok s
inspect_members p c limits index malformed s = err format
inspect_members p c limits index (next m rest) s = do
  s' ← inspect_member p c limits index m s
  inspect_members p c limits (index + 1) rest s'

-- `manifests[0]`, if there is one.
unfoldable pub first_manifest : List SkillYamlDocument → Result ArchiveError SkillYamlDocument
first_manifest [] = err format
first_manifest (document ∷ rest) = ok document

abbrev pub is_in_root : Text → ArchiveMember → Bool
is_in_root root m = text_eq m.name root || starts_with (root ++ codes "/") m.name

-- There is one part, or every member stands under the first.
abbrev pub under_first : List Text → List ArchiveMember → Bool
under_first [] members = true
under_first (root ∷ parts) members = is_nil parts || all (is_in_root root) members

-- `"/" not in manifest.path`, or no member is outside the package root.
unfoldable pub is_contained : Text → List ArchiveMember → Bool
is_contained path members = under_first (split slash path) members

unfoldable pub inspect_tarball :
    Platform → Crypto → TarballLimits → Bytes → Result ArchiveError ArchiveInspection
unfolding decompress_tarball validate_tar_termination inspect_members first_manifest is_contained
inspect_tarball p c limits tarball_bytes = do
  raw_tar ← decompress_tarball p limits tarball_bytes
  s ← inspect_members p c limits 1 (p.open_tar raw_tar) empty_scan
  validate_tar_termination raw_tar s.last_member_end
  manifest ← first_manifest s.manifests
  guard (is_contained manifest.path s.members) safety
  ok (record { manifest = manifest; members = reverse s.members })

-- `extract_skill_yaml`
unfoldable pub extract_skill_yaml :
    Platform → Crypto → TarballLimits → Bytes → Result ArchiveError SkillYamlDocument
unfolding inspect_tarball
extract_skill_yaml p c limits tarball_bytes = do
  inspection ← inspect_tarball p c limits tarball_bytes
  ok inspection.manifest
