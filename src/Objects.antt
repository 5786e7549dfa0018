-- ===== src/Objects.antt =====
-- hub/storage/objects.py: the content-addressed store. The directory of linked objects is an
-- association list from file names; an object appears in it at once, by `os.link`, so temporary
-- files are left out, and so are errors of the file system.
pub mod Immutable
use ori_skills_hub.Prelude.{
  Text, Bool, Option, none, some, List, ◌∷◌, ◌++◌, drop, is_nil, text_eq, Result, ok, err, ◌>>=◌,
  ◌>>◌, guard, reject,
}
use ori_skills_hub.Signing.{Bytes, digest_prefix, is_digest}
use ori_skills_hub.Archive.Tree.{lookup}

pub data StorageError : Type 0 where
  storage_safety storage_integrity file_not_found : StorageError

pub record ContentAddressedStorage : Type 0 where
  pub objects : List (Text × Bytes)

-- `_digest`, by the library's digest in hexadecimal.
unfoldable pub digest_of_bytes : (Bytes → Text) → Bytes → Text
digest_of_bytes sha256_hex artifact_bytes = digest_prefix ++ sha256_hex artifact_bytes

-- `_path_for`, below the directory.
abbrev pub path_for : Text → Text
path_for digest = drop 7 digest

-- What linking the object gives: a new entry, or a test of the one that is there.
unfoldable pub link_object :
    (Bytes → Text)
    → Text
    → Bytes
    → Option Bytes
    → ContentAddressedStorage
    → Result StorageError ContentAddressedStorage
unfolding digest_of_bytes
link_object sha256_hex digest artifact_bytes none s =
    ok (record { objects = (path_for digest, artifact_bytes) ∷ s.objects })
link_object sha256_hex digest artifact_bytes (some existing) s = do
  guard (text_eq (digest_of_bytes sha256_hex existing) digest) storage_integrity
  ok s

unfoldable pub store :
    (Bytes → Text)
    → Bytes
    → ContentAddressedStorage
    → Result StorageError (Text × ContentAddressedStorage)
unfolding link_object
store sha256_hex artifact_bytes s = do
  reject (is_nil artifact_bytes) storage_safety
  let digest = digest_of_bytes sha256_hex artifact_bytes
  s' ← link_object sha256_hex digest artifact_bytes (lookup s.objects (path_for digest)) s
  ok (digest, s')

unfoldable pub read_bytes : Option Bytes → Result StorageError Bytes
read_bytes none = err file_not_found
read_bytes (some b) = ok b

unfoldable pub read_object :
    (Bytes → Text) → Text → ContentAddressedStorage → Result StorageError Bytes
unfolding read_bytes
read_object sha256_hex digest s = do
  guard (is_digest digest) storage_safety
  artifact_bytes ← read_bytes (lookup s.objects (path_for digest))
  guard (text_eq (digest_of_bytes sha256_hex artifact_bytes) digest) storage_integrity
  ok artifact_bytes
