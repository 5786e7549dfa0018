-- ===== src/Archive/Tree.antt =====
-- hub/storage/tarball.py: `_validate_path_relationships`. The two dictionaries are association
-- lists, the newest entry first.
pub mod Shape
use ori_skills_hub.Prelude.{
  ℕ, zero, suc, ◌-◌, Text, Bool, true, false, not, ◌&&◌, ◌||◌, Option, none, some, List, [], ◌∷◌,
  ◌++◌, any, is_some, length, take, codes, text_eq, split, join, starts_with, Result, ok, err,
  ◌>>=◌, ◌>>◌, reject, if◌then◌else◌,
}
use ori_skills_hub.Archive.{ArchiveError, safety}
use ori_skills_hub.Archive.Names.{slash}

-- `mapping.get(key)`
unfoldable pub lookup : {A : Type 0} → List (Text × A) → Text → Option A
lookup [] k = none
lookup ((j, a) ∷ rest) k = let found = lookup rest k in if text_eq j k then some a else found

-- `seen_paths`: whether the folded path is a directory. `seen_prefix_spellings`: the spelling of
-- each folded prefix.
pub record SeenPaths : Type 0 where
  pub paths : List (Text × Bool)
  pub spellings : List (Text × Text)

-- `"/".join(components[:index])`
abbrev pub prefix : List Text → ℕ → Text
prefix components index = join slash (take index components)

abbrev pub is_other_spelling : Option Text → Text → Bool
is_other_spelling none spelling = false
is_other_spelling (some prior) spelling = not (text_eq prior spelling)

-- The rounds from this index on, as many as are left.
unfoldable pub check_prefixes :
    List Text → List Text → ℕ → ℕ → List (Text × Text) → Result ArchiveError (List (Text × Text))
check_prefixes original folded zero index spellings = ok spellings
check_prefixes original folded (suc left) index spellings = do
  reject (is_other_spelling (lookup spellings (prefix folded index)) (prefix original index)) safety
  check_prefixes original folded left (suc index)
      ((prefix folded index, prefix original index) ∷ spellings)

abbrev pub is_file_entry : Option Bool → Bool
is_file_entry none = false
is_file_entry (some is_directory) = not is_directory

-- One of the prefixes from this index on, as many as are left, is a regular file.
unfoldable pub has_file_parent : List (Text × Bool) → List Text → ℕ → ℕ → Bool
has_file_parent paths folded zero index = false
has_file_parent paths folded (suc left) index =
    is_file_entry (lookup paths (prefix folded index))
    || has_file_parent paths folded left (suc index)

abbrev pub is_inside : Text → Text × Bool → Bool
is_inside folded entry = starts_with (folded ++ codes "/") entry.0

unfoldable pub validate_path_relationships :
    (Text → Text) → Text → Bool → SeenPaths → Result ArchiveError SeenPaths
unfolding check_prefixes has_file_parent lookup
validate_path_relationships casefold name is_directory seen = do
  let folded = casefold name
  let components = split slash folded
  reject (is_some (lookup seen.paths folded)) safety
  spellings ← check_prefixes (split slash name) components (length components) 1 seen.spellings
  reject (has_file_parent seen.paths components (length components - 1) 1) safety
  reject (not is_directory && any (is_inside folded) seen.paths) safety
  ok (record { paths = (folded, is_directory) ∷ seen.paths; spellings = spellings })
