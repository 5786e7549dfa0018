-- ===== src/Archive/Inspection/Rounds.antt =====
-- hub/storage/tarball.py: the invariant of the loop of `_inspect_tarball`.
use ori_skills_hub.Prelude.{
  ℕ, ◌+◌, ◌≤◌, ◌≡◌, refl, sym, ap, subst, ◌∙◌, Text, Bool, true, false, not, ◌&&◌, ◌||◌, Option,
  some, List, [], ◌∷◌, All, map, length, leb, leb→le, ok, >>=-eq-ok, ok-eq, guard-eq-ok,
  reject-eq-ok, some-eq, arith,
}
use ori_skills_hub.Signing.{Crypto}
use ori_skills_hub.Archive.{
  limit, safety, Bytes, TarballLimits, TarMember, Listing, ended, malformed, next, Platform,
}
use ori_skills_hub.Archive.Names.{canonical_member_name}
use ori_skills_hub.Archive.Names.Canonical.{IsCanonical, canonical_member_name-IsCanonical}
use ori_skills_hub.Archive.Tree.{validate_path_relationships}
use ori_skills_hub.Archive.Tree.Shape.{IsTree, validate_path_relationships-IsTree}
use ori_skills_hub.Archive.Inspection.{
  check_kind, read_member, ArchiveMember, add_manifest, Scan, empty_scan, inspect_member,
  inspect_members,
}
use ori_skills_hub.Archive.Inspection.Members.{
  data_size, MayStand, IsRead, nothing, content, read_member-IsRead,
}
use ori_skills_hub.Archive.Inspection.Manifests.{
  AreManifests, manifest_names, add_manifest-IsAdded, added-AreManifests,
}

-- A member that is kept: its name is canonical, and a regular file has its bytes, within the limits.
pub record IsMember (p : Platform) (limits : TarballLimits) (m : ArchiveMember) : Type 0 where
  pub source : TarMember
  pub canonical : IsCanonical p limits source m.name
  pub filled : m.is_directory ≡ false → (b : Bytes) × (m.data_bytes ≡ some b)
  pub small : (b : Bytes) → m.data_bytes ≡ some b → length b ≤ limits.max_file_bytes
  pub allowed : (b : Bytes) → m.data_bytes ≡ some b → MayStand p limits m.name b

unfoldable pub total_size : List ArchiveMember → ℕ
total_size [] = 0
total_size (m ∷ members) = total_size members + data_size m.data_bytes

abbrev pub path_entry : Platform → ArchiveMember → Text × Bool
path_entry p m = (p.casefold m.name, m.is_directory)

pub record IsScan (p : Platform) (c : Crypto) (limits : TarballLimits) (index : ℕ) (s : Scan)
    : Type 0 where
  pub counted : length s.members + 1 ≡ index
  pub few : length s.members ≤ limits.max_members
  pub each : All (IsMember p limits) s.members
  pub paths : s.seen.paths ≡ map (path_entry p) s.members
  pub tree : IsTree s.seen.paths
  pub total : s.total_file_bytes ≡ total_size s.members
  pub light : s.total_file_bytes ≤ limits.max_total_file_bytes
  pub manifests : AreManifests p c s.members s.manifests

kind_of : (t : TarMember) (size : ℕ) → check_kind t ≡ ok size → t.is_file ≡ false → t.is_dir ≡ true
unfolding check_kind
kind_of t size h e =
    let (_, k) = reject-eq-ok (t.is_sym || t.is_lnk) safety _ h in
    let (kind, _) = reject-eq-ok (not t.is_file && not t.is_dir) safety _ k in
    ground (arith, kind, e)

read-IsMember :
    (p : Platform) (limits : TarballLimits) (t : TarMember) (name : Text) (total after : ℕ)
    (data_bytes : Option Bytes)
    → IsCanonical p limits t name
    → (t.is_file ≡ false → t.is_dir ≡ true)
    → IsRead p limits t.is_file name total after data_bytes
    → IsMember p limits
        (record { name = name; is_directory = t.is_dir; mode = t.mode; data_bytes = data_bytes })
read-IsMember p limits t name total after data_bytes c kind (nothing e) = record {
  source = t;
  canonical = c;
  filled = λ d. cc (sym (kind e) ∙ d);
  small = λ b h. cc;
  allowed = λ b h. cc;
}
read-IsMember p limits t name total after data_bytes c kind (content b f small fits allowed) =
    record {
      source = t;
      canonical = c;
      filled = λ d. (b, refl);
      small = λ x h. subst (λ y. length y ≤ limits.max_file_bytes) (some-eq b x h) small;
      allowed = λ x h. subst (MayStand p limits name) (some-eq b x h) allowed;
    }

read_total :
    (p : Platform) (limits : TarballLimits) (is_file : Bool) (name : Text) (total after : ℕ)
    (data_bytes : Option Bytes)
    → total ≤ limits.max_total_file_bytes
    → IsRead p limits is_file name total after data_bytes
    → (after ≡ total + data_size data_bytes) × (after ≤ limits.max_total_file_bytes)
read_total p limits is_file name total after data_bytes l (nothing e) = (omega arith, l)
read_total p limits is_file name total after data_bytes l (content b f small fits allowed) =
    (refl, fits)

-- A round keeps the invariant, at the next index.
inspect_member-IsScan :
    (p : Platform) (c : Crypto) (limits : TarballLimits) (index : ℕ) (t : TarMember) (s s' : Scan)
    → IsScan p c limits index s
    → inspect_member p c limits index t s ≡ ok s'
    → IsScan p c limits (index + 1) s'
unfolding inspect_member total_size
inspect_member-IsScan p c limits index t s s' i h =
    let (few, k) = guard-eq-ok (leb index limits.max_members) limit _ h in
    let (size, e1, k1) = >>=-eq-ok (check_kind t) _ k in
    let (name, e2, k2) = >>=-eq-ok (canonical_member_name p limits t) _ k1 in
    let (seen, e3, k3) =
      >>=-eq-ok (validate_path_relationships p.casefold name t.is_dir s.seen) _ k2 in
    let (found, e4, k4) = >>=-eq-ok (read_member p limits t name size s.total_file_bytes) _ k3 in
    let (manifests, e5, k5) = >>=-eq-ok (add_manifest p c t name found.1 s.manifests) _ k4 in
    let (paths, tree) =
      validate_path_relationships-IsTree p.casefold name t.is_dir s.seen seen i.tree e3 in
    let what = read_member-IsRead p limits t name size s.total_file_bytes found e4 in
    let (total, light) =
      read_total p limits t.is_file name s.total_file_bytes found.0 found.1 i.light what in
    let m : ArchiveMember = record {
      name = name;
      is_directory = t.is_dir;
      mode = t.mode;
      data_bytes = found.1;
    } in
    subst (IsScan p c limits (index + 1)) (ok-eq _ s' k5) (record {
      counted = omega (arith, i.counted);
      few = omega (arith, i.counted, leb→le index limits.max_members few);
      each = (
        read-IsMember p limits t name s.total_file_bytes found.0 found.1
            (canonical_member_name-IsCanonical p limits t name e2) (kind_of t size e1) what,
        i.each,
      );
      paths = paths ∙ ap (λ ps. (p.casefold name, t.is_dir) ∷ ps) i.paths;
      tree = tree;
      total = total ∙ ap (λ n. n + data_size found.1) i.total;
      light = light;
      manifests =
          added-AreManifests p c m s.members t.is_dir s.manifests manifests i.manifests
            (add_manifest-IsAdded p c t name found.1 s.manifests manifests e5);
    })

pub inspect_members-IsScan :
    (p : Platform) (c : Crypto) (limits : TarballLimits) (index : ℕ) (l : Listing) (s s' : Scan)
    → IsScan p c limits index s
    → inspect_members p c limits index l s ≡ ok s'
    → (n : ℕ) × IsScan p c limits n s'
unfolding inspect_members
inspect_members-IsScan p c limits index ended s s' i h =
    (index, subst (IsScan p c limits index) (ok-eq s s' h) i)
inspect_members-IsScan p c limits index malformed s s' i h = cc
inspect_members-IsScan p c limits index (next t rest) s s' i h =
    let (s1, e, k) = >>=-eq-ok (inspect_member p c limits index t s) _ h in
    inspect_members-IsScan p c limits (index + 1) rest s1 s'
      (inspect_member-IsScan p c limits index t s s1 i e) k

pub empty_scan-IsScan :
    (p : Platform) (c : Crypto) (limits : TarballLimits) → IsScan p c limits 1 empty_scan
unfolding manifest_names total_size
empty_scan-IsScan p c limits = record {
  counted = refl;
  few = omega arith;
  each = tt;
  paths = refl;
  tree = tt;
  total = refl;
  light = omega arith;
  manifests = record { listed = refl; parsed = tt; single = omega arith };
}
