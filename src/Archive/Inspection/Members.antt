-- ===== src/Archive/Inspection/Members.antt =====
-- hub/storage/tarball.py: what one round of `_inspect_tarball` keeps.
use ori_skills_hub.Prelude.{
  ℕ, ◌+◌, ◌≤◌, ◌≡◌, refl, sym, ap, subst, ◌∙◌, Text, Bool, true, false, Option, none, some, length,
  codes, text_eq_iff, leb→le, ==_iff, split, ok, >>=-eq-ok, ok-eq, guard-eq-ok, guard-ok, arith,
  if◌then◌else◌,
}
use ori_skills_hub.Archive.{
  format, limit, safety, Bytes, TarballLimits, Extracted, no_file, failed, read, TarMember,
  Platform,
}
use ori_skills_hub.Archive.Names.{slash}
use ori_skills_hub.Archive.Inspection.{
  basename, is_manifest_name, check_manifest_name, payload_of, member_payload, read_file,
  read_member,
}

abbrev pub data_size : Option Bytes → ℕ
data_size none = 0
data_size (some b) = length b

-- A member of this name is no manifest, or a small one of the exact name, where one may stand.
abbrev pub MayStand : Platform → TarballLimits → Text → Bytes → Type 0
MayStand p limits name b =
    is_manifest_name p name ≡ true
    → (basename name ≡ codes "skill.yaml")
      × (length (split slash name) ≤ 2)
      × (length b ≤ limits.max_skill_yaml_bytes)

-- What is read of a member: nothing, or the bytes of a regular file, within the limits.
pub data IsRead (p : Platform) (limits : TarballLimits) (is_file : Bool) (name : Text) (total : ℕ)
    : ℕ → Option Bytes → Type 0 where
  nothing : is_file ≡ false → IsRead p limits is_file name total total none
  content :
      (b : Bytes)
      → is_file ≡ true
      → length b ≤ limits.max_file_bytes
      → total + length b ≤ limits.max_total_file_bytes
      → MayStand p limits name b
      → IsRead p limits is_file name total (total + length b) (some b)

payload_sized : (x : Extracted) (size : ℕ) (b : Bytes) → payload_of x size ≡ ok b → length b ≡ size
unfolding payload_of
payload_sized no_file size b h = cc
payload_sized failed size b h = cc
payload_sized (read payload) size b h =
    let (e, k) = guard-eq-ok _ format _ h in
    subst (λ c. length c ≡ size) (ok-eq payload b k) ((==_iff (length payload) size).0 e)

manifest_allowed :
    (p : Platform) (limits : TarballLimits) (name : Text) (size : ℕ) (b : Bytes)
    → length b ≡ size
    → (if is_manifest_name p name then check_manifest_name limits name size else ok tt) ≡ ok tt
    → MayStand p limits name b
unfolding check_manifest_name
manifest_allowed p limits name size b e h m =
    let checked : check_manifest_name limits name size ≡ ok tt = ground (arith, h, m) in
    let (exact, k) = guard-eq-ok _ safety _ checked in
    let (near, k1) = guard-eq-ok _ safety _ k in
    (
      (text_eq_iff (basename name) (codes "skill.yaml")).0 exact,
      leb→le _ 2 near,
      subst (λ n. n ≤ limits.max_skill_yaml_bytes) (sym e) (leb→le size _ (guard-ok _ limit k1)),
    )

read_file-IsRead :
    (p : Platform) (limits : TarballLimits) (t : TarMember) (name : Text) (size total : ℕ)
    (found : ℕ × Option Bytes)
    → t.is_file ≡ true
    → read_file p limits t name size total ≡ ok found
    → IsRead p limits t.is_file name total found.0 found.1
unfolding read_file member_payload
read_file-IsRead p limits t name size total found file h =
    let (small, k) = guard-eq-ok _ limit _ h in
    let (fits, k1) = guard-eq-ok _ limit _ k in
    let (u, m, k2) =
      >>=-eq-ok (if is_manifest_name p name then check_manifest_name limits name size else ok tt) _
        k1 in
    let (b, e, k3) = >>=-eq-ok (payload_of t.content size) _ k2 in
    let sized = payload_sized t.content size b e in
    subst (λ (f : ℕ × Option Bytes). IsRead p limits t.is_file name total f.0 f.1)
      (ap (λ n. (total + n, some b)) sized ∙ ok-eq (total + size, some b) found k3)
      (content b file (subst (λ n. n ≤ limits.max_file_bytes) (sym sized) (leb→le size _ small))
        (subst (λ n. total + n ≤ limits.max_total_file_bytes) (sym sized)
          (leb→le (total + size) _ fits))
        (manifest_allowed p limits name size b sized m))

IsRead-if :
    (p : Platform) (limits : TarballLimits) (t : TarMember) (name : Text) (size total : ℕ)
    (found : ℕ × Option Bytes) (file : Bool)
    → t.is_file ≡ file
    → (if file then read_file p limits t name size total else ok (total, none)) ≡ ok found
    → IsRead p limits t.is_file name total found.0 found.1
IsRead-if p limits t name size total found true e h =
    read_file-IsRead p limits t name size total found e h
IsRead-if p limits t name size total found false e h =
    subst (λ (f : ℕ × Option Bytes). IsRead p limits t.is_file name total f.0 f.1)
      (ok-eq (total, none) found h) (nothing e)

pub read_member-IsRead :
    (p : Platform) (limits : TarballLimits) (t : TarMember) (name : Text) (size total : ℕ)
    (found : ℕ × Option Bytes)
    → read_member p limits t name size total ≡ ok found
    → IsRead p limits t.is_file name total found.0 found.1
unfolding read_member
read_member-IsRead p limits t name size total found h =
    IsRead-if p limits t name size total found t.is_file refl h
