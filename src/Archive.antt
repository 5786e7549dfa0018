-- ===== src/Archive.antt =====
-- hub/storage/tarball.py: the archives of skills. A `TarballError` is one of its three kinds, its
-- message is left out. Of Unicode and of gzip, tarfile and yaml the program reads what `Platform`
-- has.
pub mod Names
pub mod Tree
pub mod Document
pub mod Inspection
pub mod Rebuild
use ori_skills_hub.Prelude.{
  ℕ, suc, ◌+◌, ◌*◌, Text, Bool, true, false, Option, leb, ltb, ◌&&◌, Result, ok, err, ◌>>=◌, ◌>>◌,
  guard, reject, List,
}
use ori_skills_hub.Value.{ℤ, pos, Value, integer, Fields}

-- Two are no TarballError: `not_utf8`, the UnicodeEncodeError of a lone component, and `zlib_failure`,
-- the zlib.error of a damaged stream.
pub data ArchiveError : Type 0 where
  format limit safety not_utf8 zlib_failure : ArchiveError

abbrev pub Bytes : Type 0
Bytes = List ℕ

pub record TarballLimits : Type 0 where
  pub max_archive_bytes : ℕ
  pub max_expanded_archive_bytes : ℕ
  pub max_members : ℕ
  pub max_file_bytes : ℕ
  pub max_total_file_bytes : ℕ
  pub max_skill_yaml_bytes : ℕ
  pub max_path_bytes : ℕ

pub data LimitError : Type 0 where
  value_error : LimitError

-- The arguments of the constructor, which may be of any type.
pub record RawLimits : Type 0 where
  pub max_archive_bytes : Value
  pub max_expanded_archive_bytes : Value
  pub max_members : Value
  pub max_file_bytes : Value
  pub max_total_file_bytes : Value
  pub max_skill_yaml_bytes : Value
  pub max_path_bytes : Value

-- A positive integer, and no Boolean.
unfoldable pub positive_limit : Value → Result LimitError ℕ
positive_limit (integer (pos (suc n))) = ok (suc n)
positive_limit v = err value_error

-- `TarballLimits.__post_init__`
unfoldable pub check_limits : RawLimits → Result LimitError TarballLimits
unfolding positive_limit
check_limits raw = do
  max_archive_bytes ← positive_limit raw.max_archive_bytes
  max_expanded_archive_bytes ← positive_limit raw.max_expanded_archive_bytes
  max_members ← positive_limit raw.max_members
  max_file_bytes ← positive_limit raw.max_file_bytes
  max_total_file_bytes ← positive_limit raw.max_total_file_bytes
  max_skill_yaml_bytes ← positive_limit raw.max_skill_yaml_bytes
  max_path_bytes ← positive_limit raw.max_path_bytes
  reject (ltb max_file_bytes max_skill_yaml_bytes) value_error
  reject (ltb max_total_file_bytes max_file_bytes) value_error
  reject (ltb max_expanded_archive_bytes max_total_file_bytes) value_error
  ok (record {
    max_archive_bytes = max_archive_bytes;
    max_expanded_archive_bytes = max_expanded_archive_bytes;
    max_members = max_members;
    max_file_bytes = max_file_bytes;
    max_total_file_bytes = max_total_file_bytes;
    max_skill_yaml_bytes = max_skill_yaml_bytes;
    max_path_bytes = max_path_bytes;
  })

-- `DEFAULT_TARBALL_LIMITS`
abbrev pub default_limits : TarballLimits
default_limits = record {
  max_archive_bytes = 10 * 1024 * 1024;
  max_expanded_archive_bytes = 64 * 1024 * 1024;
  max_members = 512;
  max_file_bytes = 16 * 1024 * 1024;
  max_total_file_bytes = 48 * 1024 * 1024;
  max_skill_yaml_bytes = 512 * 1024;
  max_path_bytes = 512;
}

-- What reading `member.size + 1` bytes of a member gives: no file object, an exception of tarfile
-- or of the stream, or bytes.
pub data Extracted : Type 0 where
  no_file failed : Extracted
  read : Bytes → Extracted

-- A `tarfile.TarInfo`, with its payload.
pub record TarMember : Type 0 where
  pub name : Text
  pub is_sym : Bool
  pub is_lnk : Bool
  pub is_file : Bool
  pub is_dir : Bool
  pub is_sparse : Bool
  pub size : ℤ
  pub mode : ℕ
  pub offset_data : ℕ
  pub content : Extracted

-- The members that iterating over an archive gives, until it ends or raises an exception.
pub data Listing : Type 0 where
  ended malformed : Listing
  next : TarMember → Listing → Listing

-- What composing a YAML text gives: the value of a scalar node or of another that the library
-- constructs by itself, an alias, or the nodes of a plain collection; of a key node, whether its tag
-- is that of a merge key.
mutual
  pub data Node : Type 0 where
    scalar : Value → Node
    alias : Node
    sequence : Nodes → Node
    mapping : Pairs → Node

  pub data Nodes : Type 0 where
    no_node : Nodes
    node : Node → Nodes → Nodes

  pub data Pairs : Type 0 where
    no_pair : Pairs
    pair : Bool → Node → Node → Pairs → Pairs

-- A `tarfile.TarInfo` that is written.
pub record TarHeader : Type 0 where
  pub name : Text
  pub is_directory : Bool
  pub mode : ℕ
  pub uid : ℕ
  pub gid : ℕ
  pub uname : Text
  pub gname : Text
  pub mtime : ℕ
  pub size : ℕ

-- What `GzipFile.read` gives or raises: `gzip_error` is an EOFError, BadGzipFile or OSError.
pub data Gunzipped : Type 0 where
  expanded : Bytes → Gunzipped
  gzip_error zlib_error : Gunzipped

-- `is_control` says that `unicodedata.category` is Cc, Cf or Cs, and `utf8_size` is the length of
-- the encoded text, if it can be encoded. `gunzip` reads at most so many bytes. `compose` raises a YAMLError or gives the nodes of the text; `safe_dump` is
-- the encoded text of a document, or raises an exception; `write_archive` is the compressed archive
-- of these members.
pub record Platform : Type 0 where
  pub is_control : ℕ → Bool
  pub is_alpha : ℕ → Bool
  pub normalize : Text → Text
  pub casefold : Text → Text
  pub utf8_size : Text → Option ℕ
  pub decode_utf8 : Bytes → Option Text
  pub gunzip : Bytes → ℕ → Gunzipped
  pub open_tar : Bytes → Listing
  pub compose : Text → Option Node
  pub safe_dump : Fields → Option Bytes
  pub write_archive : List (TarHeader × Option Bytes) → Bytes
