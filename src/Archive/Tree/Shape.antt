-- ===== src/Archive/Tree/Shape.antt =====
-- hub/storage/tarball.py: the paths that `_validate_path_relationships` lets in are those of a tree.
use ori_skills_hub.Prelude.{
  ℕ, zero, suc, ◌+◌, ◌-◌, ◌≤◌, ◌<◌, ◌≡◌, refl, sym, ap, subst, ◌∙◌, inl, inr, Text, Bool, false,
  not, ◌&&◌, some, List, [], ◌∷◌, ◌++◌, Memᴰ, All, All-intro, any, any-false, is_some, length,
  codes, text_eq_iff, text_eq_comm, leb, split, starts_with, starts_with-prefix, has_key, ok,
  >>=-eq-ok, ok-eq, reject-eq-ok, arith, ||-split, &&-false, Bool-cases,
}
use ori_skills_hub.Archive.{safety}
use ori_skills_hub.Archive.Names.{slash}
use ori_skills_hub.Archive.Tree.{
  lookup, SeenPaths, prefix, check_prefixes, is_file_entry, has_file_parent, is_inside,
  validate_path_relationships,
}

abbrev pub entry_path : Text × Bool → Text
entry_path entry = entry.0

-- No path goes on below that of a regular file.
abbrev pub NotBelow : Text × Bool → Text × Bool → Type 0
NotBelow a b = a.1 ≡ false → starts_with (a.0 ++ codes "/") b.0 ≡ false

-- The paths are different, and none is below a regular file.
abbrev pub IsTree : List (Text × Bool) → Type 0
IsTree [] = Unit
IsTree (a ∷ paths) =
    (any (has_key entry_path a.0) paths ≡ false)
    × All (λ b. NotBelow a b × NotBelow b a) paths
    × IsTree paths

lookup-none :
    (paths : List (Text × Bool)) (k : Text)
    → is_some (lookup paths k) ≡ false
    → any (has_key entry_path k) paths ≡ false
unfolding lookup any
lookup-none [] k h = refl
lookup-none ((j, a) ∷ paths) k h = ground (arith, lookup-none paths k)

-- The first entry of a path.
lookup_unique :
    (paths : List (Text × Bool)) (k : Text) (dir : Bool)
    → IsTree paths
    → Memᴰ (k, dir) paths
    → lookup paths k ≡ some dir
unfolding lookup any
lookup_unique [] k dir t m = elim m [ ]
lookup_unique ((j, a) ∷ paths) k dir t (Memᴰ.head e) =
    let same : j ≡ k = ap entry_path (sym e) in
    rw ((text_eq_iff j k).1 same) (ap (λ (b : Text × Bool). some b.1) (sym e))
lookup_unique ((j, a) ∷ paths) k dir t (Memᴰ.tail m) =
    let differs = any-false (has_key entry_path j) paths (k, dir) t.0 m in
    rw (text_eq_comm j k, differs) (lookup_unique paths k dir t.2 m)

not_file_parent :
    (paths : List (Text × Bool)) (components : List Text) (left index n : ℕ)
    → has_file_parent paths components left index ≡ false
    → index ≤ n
    → n < index + left
    → is_file_entry (lookup paths (prefix components n)) ≡ false
unfolding has_file_parent
not_file_parent paths components zero index n h lo hi = absurd (omega (arith, lo, hi))
not_file_parent paths components (suc left) index n h lo hi =
    let (here, rest) = ||-split (is_file_entry (lookup paths (prefix components index))) _ h in
    elim (Bool-cases (leb n index)) [
      | inl e ↦
          let same : index ≡ n = ground (arith, e, lo) in
          subst (λ i. is_file_entry (lookup paths (prefix components i)) ≡ false) same here
      | inr e ↦
          not_file_parent paths components left (suc index) n rest (ground (arith, e, lo))
            (omega (arith, hi))
    ]

-- The new path is below no regular file.
above-NotBelow :
    (paths : List (Text × Bool)) (new b : Text × Bool)
    → IsTree paths
    → has_file_parent paths (split slash new.0) (length (split slash new.0) - 1) 1 ≡ false
    → Memᴰ b paths
    → NotBelow b new
above-NotBelow paths new b t h m file = elim (Bool-cases (starts_with (b.0 ++ codes "/") new.0)) [
  | inr e ↦ e
  | inl e ↦
      let (n, lo, hi, p) = starts_with-prefix slash b.0 new.0 e in
      let clear =
        not_file_parent paths (split slash new.0) (length (split slash new.0) - 1) 1 n h lo
          (omega (arith, hi)) in
      let found = ap (lookup paths) p ∙ lookup_unique paths b.0 b.1 t m in
      cc (sym (ap is_file_entry found ∙ ap not file) ∙ clear)
]

below-NotBelow :
    (paths : List (Text × Bool)) (new b : Text × Bool)
    → (not new.1 && any (is_inside new.0) paths) ≡ false
    → Memᴰ b paths
    → NotBelow new b
below-NotBelow paths new b h m file =
    any-false (is_inside new.0) paths b
      (&&-false (not new.1) (any (is_inside new.0) paths) h (ap not file)) m

-- What the test lets in keeps the paths a tree, and adds the folded name to them.
pub validate_path_relationships-IsTree :
    (casefold : Text → Text) (name : Text) (dir : Bool) (seen seen' : SeenPaths)
    → IsTree seen.paths
    → validate_path_relationships casefold name dir seen ≡ ok seen'
    → (seen'.paths ≡ (casefold name, dir) ∷ seen.paths) × IsTree seen'.paths
unfolding validate_path_relationships
validate_path_relationships-IsTree casefold name dir seen seen' t h =
    let folded = casefold name in
    let (new, k) = reject-eq-ok (is_some (lookup seen.paths folded)) safety _ h in
    let parts = split slash folded in
    let (spellings, _, k1) =
      >>=-eq-ok (check_prefixes (split slash name) parts (length parts) 1 seen.spellings) _ k in
    let (above, k2) = reject-eq-ok _ safety _ k1 in
    let (below, k3) = reject-eq-ok _ safety _ k2 in
    let p : (folded, dir) ∷ seen.paths ≡ seen'.paths =
      ap (λ (s : SeenPaths). s.paths)
        (ok-eq (record { paths = (folded, dir) ∷ seen.paths; spellings = spellings }) seen' k3) in
    (
      sym p,
      subst IsTree p (
        lookup-none seen.paths folded new,
        All-intro (λ b. NotBelow (folded, dir) b × NotBelow b (folded, dir)) seen.paths
            (λ b m. (
              below-NotBelow seen.paths (folded, dir) b below m,
              above-NotBelow seen.paths (folded, dir) b t above m,
            )),
        t,
      ),
    )
