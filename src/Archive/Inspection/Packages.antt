-- ===== src/Archive/Inspection/Packages.antt =====
-- hub/storage/tarball.py: the archives that `_inspect_tarball` accepts.
use ori_skills_hub.Prelude.{
  ◌≤◌, ◌≡◌, refl, sym, ap, subst, ◌∙◌, ◌⊎◌, inl, inr, Text, Bool, true, false, List, [], ◌∷◌, ◌++◌,
  Memᴰ, All, All-mem, all, map, reverse, length, codes, text_eq, text_eq_iff, split, starts_with,
  ok, >>=-eq-ok, ok-eq, guard-eq-ok, arith, Bool-cases, &&-split, if◌then◌else◌,
}
use ori_skills_hub.Signing.{Crypto}
use ori_skills_hub.Archive.{safety, Bytes, TarballLimits, Platform}
use ori_skills_hub.Archive.Names.{slash}
use ori_skills_hub.Archive.Tree.Shape.{IsTree}
use ori_skills_hub.Archive.Inspection.{
  is_manifest_name, last_part, SkillYamlDocument, ArchiveMember, ArchiveInspection, empty_scan,
  decompress_tarball, validate_tar_termination, inspect_members, first_manifest, is_in_root,
  under_first, is_contained, inspect_tarball,
}
use ori_skills_hub.Archive.Inspection.Members.{MayStand}
use ori_skills_hub.Archive.Inspection.Manifests.{IsManifest, manifest_names, manifest_path}
use ori_skills_hub.Archive.Inspection.Rounds.{
  IsMember, total_size, path_entry, inspect_members-IsScan, empty_scan-IsScan,
}

-- The manifest stands at the root, or in a directory that every member belongs to.
pub data IsPlaced (path : Text) (members : List ArchiveMember) : Type 0 where
  at_root : split slash path ≡ codes "skill.yaml" ∷ [] → IsPlaced path members
  in_directory :
      (root : Text)
      → split slash path ≡ root ∷ codes "skill.yaml" ∷ []
      → All (λ m. (m.name ≡ root) ⊎ (starts_with (root ++ codes "/") m.name ≡ true)) members
      → IsPlaced path members

-- An archive and its members, the last one first.
pub record IsArchive (p : Platform) (c : Crypto) (limits : TarballLimits) (a : ArchiveInspection)
    : Type 0 where
  pub latest : List ArchiveMember
  pub ordered : a.members ≡ reverse latest
  pub few : length latest ≤ limits.max_members
  pub light : total_size latest ≤ limits.max_total_file_bytes
  pub each : All (IsMember p limits) latest
  pub tree : IsTree (map (path_entry p) latest)
  pub manifest : IsManifest p c latest a.manifest
  pub only : manifest_names p latest ≡ a.manifest.path ∷ []
  pub placed : IsPlaced a.manifest.path latest

named_if :
    (p : Platform) (name n : Text) (rest : List Text) (b : Bool)
    → is_manifest_name p name ≡ b
    → (Memᴰ n rest → is_manifest_name p n ≡ true)
    → Memᴰ n (if b then name ∷ rest else rest)
    → is_manifest_name p n ≡ true
named_if p name n rest false e named m = named m
named_if p name n rest true e named (Memᴰ.head i) = ap (is_manifest_name p) i ∙ e
named_if p name n rest true e named (Memᴰ.tail m) = named m

manifest_names-named :
    (p : Platform) (members : List ArchiveMember) (n : Text)
    → Memᴰ n (manifest_names p members)
    → is_manifest_name p n ≡ true
unfolding manifest_names
manifest_names-named p [] n m = elim m [ ]
manifest_names-named p (x ∷ members) n m =
    named_if p x.name n (manifest_names p members) (is_manifest_name p x.name) refl
      (manifest_names-named p members n) m

in_root :
    (root : Text) (members : List ArchiveMember)
    → all (is_in_root root) members ≡ true
    → All (λ m. (m.name ≡ root) ⊎ (starts_with (root ++ codes "/") m.name ≡ true)) members
unfolding all
in_root root [] h = tt
in_root root (m ∷ members) h =
    let (here, rest) = &&-split (is_in_root root m) _ h in
    (
      elim (Bool-cases (text_eq m.name root)) [
        | inl e ↦ inl ((text_eq_iff m.name root).0 e)
        | inr e ↦ inr (ground (arith, e, here))
      ],
      in_root root members rest,
    )

IsPlaced-by_parts :
    (path : Text) (members : List ArchiveMember) (parts : List Text)
    → split slash path ≡ parts
    → last_part parts ≡ codes "skill.yaml"
    → length parts ≤ 2
    → is_contained path members ≡ true
    → IsPlaced path members
unfolding last_part is_contained
IsPlaced-by_parts path members [] e last few h = cc
IsPlaced-by_parts path members (name ∷ []) e last few h = at_root (e ∙ ap (λ n. n ∷ []) last)
IsPlaced-by_parts path members (root ∷ name ∷ []) e last few h =
    in_directory root (e ∙ ap (λ n. root ∷ n ∷ []) last)
      (in_root root members (subst (λ ps. under_first ps members ≡ true) e h))
IsPlaced-by_parts path members (a ∷ b ∷ c ∷ rest) e last few h = absurd (omega (arith, few))

first_manifest-only :
    (manifests : List SkillYamlDocument) (d : SkillYamlDocument)
    → length manifests ≤ 1
    → first_manifest manifests ≡ ok d
    → manifests ≡ d ∷ []
unfolding first_manifest
first_manifest-only [] d n h = cc
first_manifest-only (x ∷ []) d n h = ap (λ y. y ∷ []) (ok-eq x d h)
first_manifest-only (x ∷ y ∷ rest) d n h = absurd (omega (arith, n))

-- A member with the bytes of the manifest stands where a manifest may.
manifest-IsPlaced :
    (p : Platform) (c : Crypto) (limits : TarballLimits) (members : List ArchiveMember)
    (d : SkillYamlDocument)
    → All (IsMember p limits) members
    → IsManifest p c members d
    → is_manifest_name p d.path ≡ true
    → is_contained d.path members ≡ true
    → IsPlaced d.path members
manifest-IsPlaced p c limits members d each m named contained =
    let keeper = All-mem (IsMember p limits) members m.holder each m.within in
    let (exact, near, _) =
      subst (λ n. MayStand p limits n m.bytes) m.path (keeper.allowed m.bytes m.content) named in
    IsPlaced-by_parts d.path members (split slash d.path) refl exact near contained

-- An archive that is accepted has at most so many members and bytes in all. Each member has a
-- canonical name, and each regular file its bytes, within the limit. The paths, with case folded,
-- are different, and none goes on below a regular file. Exactly one member is a manifest: it has
-- the name `skill.yaml`, stands at the root or in a directory that holds every member, and its
-- content, of bounded size, is parsed to the mapping that is returned.
pub inspect_tarball-IsArchive :
    (p : Platform) (c : Crypto) (limits : TarballLimits) (tarball_bytes : Bytes)
    (a : ArchiveInspection)
    → inspect_tarball p c limits tarball_bytes ≡ ok a
    → IsArchive p c limits a
unfolding inspect_tarball
inspect_tarball-IsArchive p c limits tarball_bytes a h =
    let (raw, _, k) = >>=-eq-ok (decompress_tarball p limits tarball_bytes) _ h in
    let (s, e1, k1) = >>=-eq-ok (inspect_members p c limits 1 (p.open_tar raw) empty_scan) _ k in
    let (_, _, k2) = >>=-eq-ok (validate_tar_termination raw s.last_member_end) _ k1 in
    let (d, e3, k3) = >>=-eq-ok (first_manifest s.manifests) _ k2 in
    let (contained, k4) = guard-eq-ok (is_contained d.path s.members) safety _ k3 in
    let (n, i) =
      inspect_members-IsScan p c limits 1 (p.open_tar raw) empty_scan s
        (empty_scan-IsScan p c limits) e1 in
    let one = first_manifest-only s.manifests d i.manifests.single e3 in
    let only : manifest_names p s.members ≡ d.path ∷ [] =
      sym i.manifests.listed ∙ ap (map manifest_path) one in
    let named =
      manifest_names-named p s.members d.path
        (subst (λ ns. Memᴰ d.path ns) (sym only) (Memᴰ.head refl)) in
    let parsed = subst (All (IsManifest p c s.members)) one i.manifests.parsed in
    subst (IsArchive p c limits) (ok-eq _ a k4) (record {
      latest = s.members;
      ordered = refl;
      few = i.few;
      light = subst (λ m. m ≤ limits.max_total_file_bytes) i.total i.light;
      each = i.each;
      tree = subst IsTree i.paths i.tree;
      manifest = parsed.0;
      only = only;
      placed = manifest-IsPlaced p c limits s.members d i.each parsed.0 named contained;
    })
