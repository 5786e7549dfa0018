-- ===== src/Archive/Inspection/Manifests.antt =====
-- hub/storage/tarball.py: the manifests that `_inspect_tarball` collects.
use ori_skills_hub.Prelude.{
  ◌≤◌, ◌≡◌, refl, sym, ap, subst, ◌∙◌, Text, Bool, true, false, Option, none, some, List, [], ◌∷◌,
  Memᴰ, All, All-map, map, length, is_nil, ok, >>=-eq-ok, ok-eq, guard-eq-ok, reject-eq-ok, arith,
  if◌then◌else◌,
}
use ori_skills_hub.Signing.{Crypto}
use ori_skills_hub.Value.{Fields}
use ori_skills_hub.Archive.{safety, Bytes, TarMember, Platform}
use ori_skills_hub.Archive.Document.{or_else_format, parse_skill_yaml}
use ori_skills_hub.Archive.Inspection.{
  is_manifest_name, SkillYamlDocument, ArchiveMember, add_manifest, new_manifest,
}

-- The manifest is the parsed content of a member.
pub record IsManifest (p : Platform) (c : Crypto) (members : List ArchiveMember)
    (d : SkillYamlDocument) : Type 0 where
  pub holder : ArchiveMember
  pub within : Memᴰ holder members
  pub path : holder.name ≡ d.path
  pub bytes : Bytes
  pub content : holder.data_bytes ≡ some bytes
  pub parsed : parse_skill_yaml p c bytes ≡ ok d.mapping

abbrev pub manifest_path : SkillYamlDocument → Text
manifest_path d = d.path

-- The names of the members that are manifests.
unfoldable pub manifest_names : Platform → List ArchiveMember → List Text
manifest_names p [] = []
manifest_names p (m ∷ members) =
    let rest = manifest_names p members in if is_manifest_name p m.name then m.name ∷ rest else rest

-- The manifests are those of the members, and at most one.
pub record AreManifests (p : Platform) (c : Crypto) (members : List ArchiveMember)
    (manifests : List SkillYamlDocument) : Type 0 where
  pub listed : map manifest_path manifests ≡ manifest_names p members
  pub parsed : All (IsManifest p c members) manifests
  pub single : length manifests ≤ 1

-- What a member does to the manifests.
pub data IsAdded (p : Platform) (c : Crypto) (is_dir : Bool) (name : Text)
    (data_bytes : Option Bytes) (before : List SkillYamlDocument)
    : List SkillYamlDocument → Type 0 where
  kept : is_manifest_name p name ≡ false → IsAdded p c is_dir name data_bytes before before
  added :
      (b : Bytes) (mapping : Fields)
      → is_manifest_name p name ≡ true
      → is_dir ≡ false
      → data_bytes ≡ some b
      → parse_skill_yaml p c b ≡ ok mapping
      → before ≡ []
      → IsAdded p c is_dir name data_bytes before (record { path = name; mapping = mapping } ∷ [])

or_else_format-some : {A : Type 0} (o : Option A) (a : A) → or_else_format o ≡ ok a → o ≡ some a
or_else_format-some none a h = cc
or_else_format-some (some b) a h = ap some (ok-eq b a h)

is_nil-eq : {A : Type 0} (xs : List A) → is_nil xs ≡ true → xs ≡ []
is_nil-eq [] h = refl
is_nil-eq (x ∷ xs) h = cc

new_manifest-IsAdded :
    (p : Platform) (c : Crypto) (t : TarMember) (name : Text) (data_bytes : Option Bytes)
    (before after : List SkillYamlDocument)
    → is_manifest_name p name ≡ true
    → new_manifest p c t name data_bytes before ≡ ok after
    → IsAdded p c t.is_dir name data_bytes before after
unfolding new_manifest
new_manifest-IsAdded p c t name data_bytes before after e h =
    let (dir, k) = reject-eq-ok t.is_dir safety _ h in
    let (b, found, k1) = >>=-eq-ok (or_else_format data_bytes) _ k in
    let (mapping, parsed, k2) = >>=-eq-ok (parse_skill_yaml p c b) _ k1 in
    let (first, k3) = guard-eq-ok (is_nil before) safety _ k2 in
    let empty = is_nil-eq before first in
    subst (IsAdded p c t.is_dir name data_bytes before)
      (ap (λ ms. record { path = name; mapping = mapping } ∷ ms) (sym empty) ∙ ok-eq _ after k3)
      (added b mapping e dir (or_else_format-some data_bytes b found) parsed empty)

add_if :
    (p : Platform) (c : Crypto) (t : TarMember) (name : Text) (data_bytes : Option Bytes)
    (before after : List SkillYamlDocument) (b : Bool)
    → is_manifest_name p name ≡ b
    → (if b then new_manifest p c t name data_bytes before else ok before) ≡ ok after
    → IsAdded p c t.is_dir name data_bytes before after
add_if p c t name data_bytes before after false e h =
    subst (IsAdded p c t.is_dir name data_bytes before) (ok-eq before after h) (kept e)
add_if p c t name data_bytes before after true e h =
    new_manifest-IsAdded p c t name data_bytes before after e h

pub add_manifest-IsAdded :
    (p : Platform) (c : Crypto) (t : TarMember) (name : Text) (data_bytes : Option Bytes)
    (before after : List SkillYamlDocument)
    → add_manifest p c t name data_bytes before ≡ ok after
    → IsAdded p c t.is_dir name data_bytes before after
unfolding add_manifest
add_manifest-IsAdded p c t name data_bytes before after h =
    add_if p c t name data_bytes before after (is_manifest_name p name) refl h

older-IsManifest :
    (p : Platform) (c : Crypto) (m : ArchiveMember) (members : List ArchiveMember)
    (d : SkillYamlDocument)
    → IsManifest p c members d
    → IsManifest p c (m ∷ members) d
older-IsManifest p c m members d h = record {
  holder = h.holder;
  within = Memᴰ.tail h.within;
  path = h.path;
  bytes = h.bytes;
  content = h.content;
  parsed = h.parsed;
}

pub added-AreManifests :
    (p : Platform) (c : Crypto) (m : ArchiveMember) (members : List ArchiveMember) (is_dir : Bool)
    (before after : List SkillYamlDocument)
    → AreManifests p c members before
    → IsAdded p c is_dir m.name m.data_bytes before after
    → AreManifests p c (m ∷ members) after
unfolding manifest_names
added-AreManifests p c m members is_dir before after a (kept e) = record {
  listed = rw e a.listed;
  parsed =
      All-map (IsManifest p c members) (IsManifest p c (m ∷ members)) before
        (older-IsManifest p c m members) a.parsed;
  single = a.single;
}
added-AreManifests p c m members is_dir before after a (added b mapping e dir found parsed empty) =
    record {
      listed = rw e (ap (λ ns. m.name ∷ ns) (ap (map manifest_path) (sym empty) ∙ a.listed));
      parsed = (
        record {
          holder = m;
          within = Memᴰ.head refl;
          path = refl;
          bytes = b;
          content = found;
          parsed = parsed;
        },
        tt,
      );
      single = omega arith;
    }
