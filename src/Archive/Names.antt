-- ===== src/Archive/Names.antt =====
-- hub/storage/tarball.py: `_canonical_member_name`.
pub mod Canonical
use ori_skills_hub.Prelude.{
  ℕ, Text, Bool, true, false, not, ◌&&◌, ◌||◌, Option, none, some, List, [], ◌∷◌, ◌++◌, any, is_nil,
  codes, text_eq, leb, ◌==◌, split, join, starts_with, contains, Result, ok, err, ◌>>=◌, ◌>>◌,
  guard, reject, if◌then◌else◌,
}
use ori_skills_hub.Archive.{
  ArchiveError, safety, limit, not_utf8, TarballLimits, TarMember, Platform,
}

abbrev pub slash : ℕ
slash = 47

abbrev pub has : ℕ → Text → Bool
has c s = any (λ d. d == c) s

-- `parts[:-1]` where the last part is empty.
unfoldable pub drop_empty_last : List Text → List Text
drop_empty_last [] = []
drop_empty_last (part ∷ []) = if is_nil part then [] else part ∷ []
drop_empty_last (part ∷ next ∷ parts) = part ∷ drop_empty_last (next ∷ parts)

abbrev pub is_dot_part : Text → Bool
is_dot_part part = is_nil part || text_eq part (codes ".") || text_eq part (codes "..")

-- `first[0].isalpha() and first[1] == ":"`, of the first part.
unfoldable pub has_drive : (ℕ → Bool) → List Text → Bool
has_drive is_alpha ((letter ∷ colon ∷ rest) ∷ parts) = is_alpha letter && colon == b':'
has_drive is_alpha _ = false

-- `component.endswith((" ", "."))`
unfoldable pub ends_badly : Text → Bool
ends_badly [] = false
ends_badly (c ∷ []) = c == b' ' || c == b'.'
ends_badly (c ∷ d ∷ s) = ends_badly (d ∷ s)

-- `component.split(".", 1)[0]`
unfoldable pub stem : Text → Text
stem [] = []
stem (c ∷ s) = let rest = stem s in if c == b'.' then [] else c ∷ rest

-- `_WINDOWS_RESERVED_NAMES`
abbrev pub windows_reserved_names : List Text
windows_reserved_names =
    codes "aux"
    ∷ codes "con"
    ∷ codes "conin$"
    ∷ codes "conout$"
    ∷ codes "nul"
    ∷ codes "prn"
    ∷ codes "com1"
    ∷ codes "com2"
    ∷ codes "com3"
    ∷ codes "com4"
    ∷ codes "com5"
    ∷ codes "com6"
    ∷ codes "com7"
    ∷ codes "com8"
    ∷ codes "com9"
    ∷ codes "lpt1"
    ∷ codes "lpt2"
    ∷ codes "lpt3"
    ∷ codes "lpt4"
    ∷ codes "lpt5"
    ∷ codes "lpt6"
    ∷ codes "lpt7"
    ∷ codes "lpt8"
    ∷ codes "lpt9"
    ∷ []

abbrev pub encoded_size : Platform → ArchiveError → Text → Result ArchiveError ℕ
encoded_size p raised s = elim (p.utf8_size s) [ none ↦ err raised | some n ↦ ok n ]

unfoldable pub check_component : Platform → Text → Result ArchiveError (Unit {0})
check_component p component = do
  size ← encoded_size p not_utf8 component
  guard (leb size 255) limit
  reject (ends_badly component) safety
  reject (has b':' component) safety
  reject (contains windows_reserved_names (p.casefold (stem component))) safety

unfoldable pub check_components : Platform → List Text → Result ArchiveError (Unit {0})
check_components p [] = ok tt
check_components p (component ∷ rest) = do check_component p component; check_components p rest

-- The parts of the name.
abbrev pub member_parts : TarMember → List Text
member_parts member =
    let parts = split slash member.name in if member.is_dir then drop_empty_last parts else parts

unfoldable pub canonical_member_name :
    Platform → TarballLimits → TarMember → Result ArchiveError Text
unfolding check_components
canonical_member_name p limits member = do
  reject (is_nil member.name) safety
  reject (starts_with (codes "/") member.name) safety
  reject (has b'\\' member.name) safety
  reject (any p.is_control member.name) safety
  let parts = member_parts member
  reject (is_nil parts || any is_dot_part parts) safety
  reject (has_drive p.is_alpha parts) safety
  guard (text_eq (p.normalize (join slash parts)) (join slash parts)) safety
  size ← encoded_size p safety (join slash parts)
  guard (leb size limits.max_path_bytes) limit
  check_components p parts
  ok (join slash parts)
