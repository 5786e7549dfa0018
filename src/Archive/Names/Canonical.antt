-- ===== src/Archive/Names/Canonical.antt =====
-- hub/storage/tarball.py: the names that `_canonical_member_name` returns.
use ori_skills_hub.Prelude.{
  ℕ, ◌≤◌, ◌≡◌, refl, sym, ap, subst, ◌∙◌, ◌⊎◌, inl, inr, Text, Bool, true, false, Option, none,
  some, List, [], ◌∷◌, ◌++◌, All, any, is_nil, codes, text_eq_iff, leb→le, split, join, starts_with,
  is_free, join-split, split-free, split-join, contains, ok, err, >>=-eq-ok, ok-eq, guard-eq-ok,
  reject-eq-ok, reject-ok, ||-split, if◌then◌else◌,
}
use mathlib.Core.List.{append_assoc}
use ori_skills_hub.Archive.{
  ArchiveError, safety, limit, not_utf8, TarballLimits, TarMember, Platform,
}
use ori_skills_hub.Archive.Names.{
  slash, has, drop_empty_last, is_dot_part, has_drive, ends_badly, stem, windows_reserved_names,
  encoded_size, check_component, check_components, member_parts, canonical_member_name,
}

-- A part of a canonical name: short, no `.` or `..`, and plain on every operating system.
pub record IsComponent (p : Platform) (part : Text) : Type 0 where
  pub named : is_dot_part part ≡ false
  pub size : ℕ
  pub encoded : p.utf8_size part ≡ some size
  pub short : size ≤ 255
  pub ends_well : ends_badly part ≡ false
  pub no_colon : has b':' part ≡ false
  pub no_device : contains windows_reserved_names (p.casefold (stem part)) ≡ false

pub record IsCanonical (p : Platform) (limits : TarballLimits) (member : TarMember) (name : Text)
    : Type 0 where
  pub spelled : (member.name ≡ name) ⊎ ((member.is_dir ≡ true) × (member.name ≡ name ++ codes "/"))
  pub relative : starts_with (codes "/") member.name ≡ false
  pub no_backslash : has b'\\' member.name ≡ false
  pub no_control : any p.is_control member.name ≡ false
  pub no_drive : has_drive p.is_alpha (split slash name) ≡ false
  pub normal : p.normalize name ≡ name
  pub size : ℕ
  pub encoded : p.utf8_size name ≡ some size
  pub short : size ≤ limits.max_path_bytes
  pub components : All (IsComponent p) (split slash name)

encoded_size-some :
    (p : Platform) (raised : ArchiveError) (s : Text) (n : ℕ) (o : Option ℕ)
    → p.utf8_size s ≡ o
    → elim o [ none ↦ err raised | some n ↦ ok n ] ≡ ok n
    → p.utf8_size s ≡ some n
encoded_size-some p raised s n none e h = cc
encoded_size-some p raised s n (some m) e h = e ∙ ap some (ok-eq m n h)

check_component-IsComponent :
    (p : Platform) (part : Text)
    → is_dot_part part ≡ false
    → check_component p part ≡ ok tt
    → IsComponent p part
unfolding check_component
check_component-IsComponent p part d h =
    let (n, e, k) = >>=-eq-ok (encoded_size p not_utf8 part) _ h in
    let (short, k1) = guard-eq-ok _ limit _ k in
    let (ends, k2) = reject-eq-ok _ safety _ k1 in
    let (colon, k3) = reject-eq-ok _ safety _ k2 in
    record {
      named = d;
      size = n;
      encoded = encoded_size-some p not_utf8 part n (p.utf8_size part) refl e;
      short = leb→le n 255 short;
      ends_well = ends;
      no_colon = colon;
      no_device = reject-ok _ safety k3;
    }

check_components-IsComponent :
    (p : Platform) (parts : List Text)
    → any is_dot_part parts ≡ false
    → check_components p parts ≡ ok tt
    → All (IsComponent p) parts
unfolding check_components any
check_components-IsComponent p [] d h = tt
check_components-IsComponent p (part ∷ parts) d h =
    let (_, e, k) = >>=-eq-ok (check_component p part) _ h in
    let (here, rest) = ||-split (is_dot_part part) (any is_dot_part parts) d in
    (check_component-IsComponent p part here e, check_components-IsComponent p parts rest k)

-- What dropping an empty last part leaves: the same parts, or all but one.
drop_empty_last-cases :
    (parts : List Text)
    → (drop_empty_last parts ≡ parts) ⊎ (parts ≡ drop_empty_last parts ++ [] ∷ [])
unfolding drop_empty_last
drop_empty_last-cases [] = inl refl
drop_empty_last-cases ([] ∷ []) = inr refl
drop_empty_last-cases ((c ∷ part) ∷ []) = inl refl
drop_empty_last-cases (part ∷ next ∷ parts) = elim (drop_empty_last-cases (next ∷ parts)) [
  | inl e ↦ inl (ap (λ ps. part ∷ ps) e)
  | inr e ↦ inr (ap (λ ps. part ∷ ps) e)
]

drop_empty_last-free :
    (parts : List Text)
    → All (λ part. is_free slash part ≡ true) parts
    → All (λ part. is_free slash part ≡ true) (drop_empty_last parts)
unfolding drop_empty_last
drop_empty_last-free [] h = tt
drop_empty_last-free ([] ∷ []) h = tt
drop_empty_last-free ((c ∷ part) ∷ []) h = h
drop_empty_last-free (part ∷ next ∷ parts) h = (h.0, drop_empty_last-free (next ∷ parts) h.1)

join-append_empty :
    (parts : List Text)
    → is_nil parts ≡ false
    → join slash (parts ++ [] ∷ []) ≡ join slash parts ++ codes "/"
unfolding join
join-append_empty [] h = cc
join-append_empty (part ∷ []) h = refl
join-append_empty (part ∷ next ∷ parts) h =
    ap (λ s. part ++ slash ∷ s) (join-append_empty (next ∷ parts) refl)
    ∙ sym (append_assoc part (slash ∷ join slash (next ∷ parts)) (codes "/"))

-- The parts of a member's name have no separator, and spell the name but for a last separator.
abbrev AreParts : Text → Bool → List Text → Type 0
AreParts name dir parts =
    All (λ part. is_free slash part ≡ true) parts
    × ((name ≡ join slash parts) ⊎ ((dir ≡ true) × (name ≡ join slash parts ++ codes "/")))

dropped-AreParts :
    (name : Text)
    → is_nil (drop_empty_last (split slash name)) ≡ false
    → AreParts name true (drop_empty_last (split slash name))
dropped-AreParts name n = (
  drop_empty_last-free (split slash name) (split-free slash name),
  elim (drop_empty_last-cases (split slash name)) [
    | inl e ↦ inl (sym (join-split slash name) ∙ ap (join slash) (sym e))
    | inr e ↦ inr (
      refl,
      sym (join-split slash name)
          ∙ ap (join slash) e
          ∙ join-append_empty (drop_empty_last (split slash name)) n,
    )
  ],
)

member_parts-AreParts :
    (name : Text) (dir : Bool)
    → is_nil (if dir then drop_empty_last (split slash name) else split slash name) ≡ false
    → AreParts name dir (if dir then drop_empty_last (split slash name) else split slash name)
member_parts-AreParts name true n = dropped-AreParts name n
member_parts-AreParts name false n = (split-free slash name, inl (sym (join-split slash name)))

-- A name that is returned is the member's, less a last `/` of a directory. It is relative, in NFC,
-- no longer than the limit, with no backslash, control character or drive letter; none of its
-- components is empty, `.` or `..`, has more than 255 bytes or a colon, ends with a space or a dot,
-- or is a device of Windows.
pub canonical_member_name-IsCanonical :
    (p : Platform) (limits : TarballLimits) (member : TarMember) (name : Text)
    → canonical_member_name p limits member ≡ ok name
    → IsCanonical p limits member name
unfolding canonical_member_name
canonical_member_name-IsCanonical p limits member name h =
    let parts = member_parts member in
    let (_, k) = reject-eq-ok (is_nil member.name) safety _ h in
    let (relative, k1) = reject-eq-ok _ safety _ k in
    let (backslash, k2) = reject-eq-ok _ safety _ k1 in
    let (control, k3) = reject-eq-ok _ safety _ k2 in
    let (shape, k4) = reject-eq-ok _ safety _ k3 in
    let (drive, k5) = reject-eq-ok _ safety _ k4 in
    let (normal, k6) = guard-eq-ok _ safety _ k5 in
    let (size, e, k7) = >>=-eq-ok (encoded_size p safety (join slash parts)) _ k6 in
    let (short, k8) = guard-eq-ok _ limit _ k7 in
    let (_, e1, k9) = >>=-eq-ok (check_components p parts) _ k8 in
    let (some_part, dots) = ||-split (is_nil parts) (any is_dot_part parts) shape in
    let (free, spelled) = member_parts-AreParts member.name member.is_dir some_part in
    let back : split slash (join slash parts) ≡ parts = split-join slash parts some_part free in
    subst (IsCanonical p limits member) (ok-eq (join slash parts) name k9) (record {
      spelled = spelled;
      relative = relative;
      no_backslash = backslash;
      no_control = control;
      no_drive = ap (has_drive p.is_alpha) back ∙ drive;
      normal = (text_eq_iff (p.normalize (join slash parts)) (join slash parts)).0 normal;
      size = size;
      encoded =
          encoded_size-some p safety (join slash parts) size (p.utf8_size (join slash parts)) refl
            e;
      short = leb→le size limits.max_path_bytes short;
      components =
          subst (All (IsComponent p)) (sym back) (check_components-IsComponent p parts dots e1);
    })
