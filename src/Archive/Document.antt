-- ===== src/Archive/Document.antt =====
-- hub/storage/tarball.py: `_StrictSafeLoader` and `_parse_skill_yaml`.
use ori_skills_hub.Prelude.{
  Text, Option, none, some, List, [], ◌∷◌, contains, Result, ok, err, ◌>>=◌, ◌>>◌, reject,
}
use ori_skills_hub.Value.{name, Value, str, arr, obj, Items, nil, cons, Fields, end, field}
use ori_skills_hub.Signing.{Crypto, canonical_manifest_bytes}
use ori_skills_hub.Archive.{
  ArchiveError, format, Bytes, Platform, Node, scalar, alias, sequence, mapping, Nodes, no_node,
  node, Pairs, no_pair, pair,
}

-- The YAMLError of the loader.
pub data YamlError : Type 0 where
  yaml_error : YamlError

-- The key of a constructed key node.
unfoldable pub string_key : Value → Result YamlError Text
string_key (str k) = ok k
string_key v = err yaml_error

-- `construct_mapping`, and `compose_node` on an alias; the keys of a mapping are compared with
-- those seen before them.
unfoldable mutual
  unfolding string_key

  pub construct : Node → Result YamlError Value
  construct (scalar v) = ok v
  construct alias = err yaml_error
  construct (sequence nodes) = construct_nodes nodes >>= λ items. ok (arr items)
  construct (mapping pairs) = construct_pairs [] pairs >>= λ fields. ok (obj fields)

  pub construct_nodes : Nodes → Result YamlError Items
  construct_nodes no_node = ok nil
  construct_nodes (node n rest) =
      construct n >>= λ v. construct_nodes rest >>= λ items. ok (cons v items)

  pub construct_pairs : List Text → Pairs → Result YamlError Fields
  construct_pairs seen no_pair = ok end
  construct_pairs seen (pair is_merge k v rest) =
      reject is_merge yaml_error
      >> (construct k >>= string_key >>= λ key.
          reject (contains seen key) yaml_error
          >> (construct v >>= λ value.
              construct_pairs (key ∷ seen) rest >>= λ fields. ok (field (name key) value fields)))

-- Another error, in the place of the one raised.
abbrev pub or_format : {E A : Type 0} → Result E A → Result ArchiveError A
or_format (ok a) = ok a
or_format (err e) = err format

abbrev pub or_else_format : {A : Type 0} → Option A → Result ArchiveError A
or_else_format none = err format
or_else_format (some a) = ok a

unfoldable pub top_level_mapping : Value → Result ArchiveError Fields
top_level_mapping (obj fields) = ok fields
top_level_mapping v = err format

unfoldable pub parse_skill_yaml : Platform → Crypto → Bytes → Result ArchiveError Fields
unfolding construct top_level_mapping
parse_skill_yaml p c payload = do
  text ← or_else_format (p.decode_utf8 payload)
  root ← or_else_format (p.compose text)
  parsed ← or_format (construct root)
  document ← top_level_mapping parsed
  signed ← or_format (canonical_manifest_bytes c document)
  ok document
