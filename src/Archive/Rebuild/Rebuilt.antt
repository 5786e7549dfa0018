-- ===== src/Archive/Rebuild/Rebuilt.antt =====
-- hub/storage/tarball.py: the archives that `rebuild_tarball` returns.
use ori_skills_hub.Prelude.{
  ◌≤◌, ◌≡◌, ◌≢◌, true, false, List, [], ◌∷◌, ◌++◌, if-keeps, if◌then◌else◌, refl, ap, subst, ◌∙◌,
  Text, Option, none, some, leb, map, length, leb→le, text_eq, text_eq_iff, codes, ok, err,
  >>=-eq-ok, ok-eq, guard-eq-ok, Result,
}
use ori_skills_hub.Value.{Value, str, obj, Fields, get}
use ori_skills_hub.Signing.{Crypto, canonical_manifest_bytes, decode_signature, wire_signature}
use ori_skills_hub.Signing.Wire.{decode_signature-wire}
use ori_skills_hub.Archive.{format, limit, safety, Bytes, TarballLimits, TarHeader, Platform}
use ori_skills_hub.Archive.Document.{or_format, or_else_format, top_level_mapping}
use ori_skills_hub.Archive.Inspection.{ArchiveMember, ArchiveInspection, inspect_tarball}
use ori_skills_hub.Archive.Rebuild.{
  snapshot_json_value, string_signature, serialise_signed_manifest, rebuilt_entry, rebuild_tarball,
  normalised_tar_info, payload_size, is_executable,
}

or_format-ok : {E A : Type 0} (r : Result E A) (a : A) → or_format r ≡ ok a → r ≡ ok a
or_format-ok (ok b) a h = ap ok (ok-eq b a h)
or_format-ok (err e) a h = cc

or_else_format-ok : {A : Type 0} (o : Option A) (a : A) → or_else_format o ≡ ok a → o ≡ some a
or_else_format-ok none a h = cc
or_else_format-ok (some b) a h = ap some (ok-eq b a h)

top_level_mapping-obj :
    (v : Value) (fields : Fields) → top_level_mapping v ≡ ok fields → v ≡ obj fields
unfolding top_level_mapping
top_level_mapping-obj (obj fs) fields h = ap obj (ok-eq fs fields h)
top_level_mapping-obj v fields h = cc

string_signature-str : (v : Value) (s : Text) → string_signature v ≡ ok s → v ≡ str s
unfolding string_signature
string_signature-str (str t) s h = ap str (ok-eq t s h)
string_signature-str v s h = cc

-- The payload of a signed manifest: its snapshot has a well-formed signature and the signed bytes
-- of the original.
pub record IsSerialised (p : Platform) (c : Crypto) (original signed : Fields)
    (limits : TarballLimits) (payload : Bytes) : Type 0 where
  pub plain : Fields
  pub copied : snapshot_json_value (obj signed) ≡ ok (obj plain)
  pub signature : Bytes
  pub well_formed : get plain (codes "signature") ≡ str (wire_signature c signature)
  pub unsigned : Bytes
  pub same_original : canonical_manifest_bytes c original ≡ ok unsigned
  pub same_signed : canonical_manifest_bytes c plain ≡ ok unsigned
  pub dumped : p.safe_dump plain ≡ some payload
  pub small : length payload ≤ limits.max_skill_yaml_bytes

serialise_signed_manifest-IsSerialised :
    (p : Platform) (c : Crypto) (original signed : Fields) (limits : TarballLimits)
    (payload : Bytes)
    → serialise_signed_manifest p c original signed limits ≡ ok payload
    → IsSerialised p c original signed limits payload
unfolding serialise_signed_manifest
serialise_signed_manifest-IsSerialised p c original signed limits payload h =
    let (v, e, k) = >>=-eq-ok (snapshot_json_value (obj signed)) _ h in
    let (plain, e1, k1) = >>=-eq-ok (top_level_mapping v) _ k in
    let (text, e2, k2) = >>=-eq-ok (string_signature (get plain (codes "signature"))) _ k1 in
    let (signature, e3, k3) = >>=-eq-ok (or_format (decode_signature c text)) _ k2 in
    let (a, e4, k4) = >>=-eq-ok (or_format (canonical_manifest_bytes c original)) _ k3 in
    let (b, e5, k5) = >>=-eq-ok (or_format (canonical_manifest_bytes c plain)) _ k4 in
    let (same, k6) = guard-eq-ok (text_eq a b) safety _ k5 in
    let (out, e7, k7) = >>=-eq-ok (or_else_format (p.safe_dump plain)) _ k6 in
    let (small, k8) = guard-eq-ok _ limit _ k7 in
    let wire = decode_signature-wire c text signature (or_format-ok _ signature e3) in
    subst (IsSerialised p c original signed limits) (ok-eq out payload k8) (record {
      plain = plain;
      copied = e ∙ ap ok (top_level_mapping-obj v plain e1);
      signature = signature;
      well_formed = string_signature-str _ text e2 ∙ ap str wire.0;
      unsigned = b;
      same_original = or_format-ok _ a e4 ∙ ap ok ((text_eq_iff a b).0 same);
      same_signed = or_format-ok _ b e5;
      dumped = or_else_format-ok (p.safe_dump plain) out e7;
      small = leb→le (length out) _ small;
    })

-- The entry for an accepted member: the manifest has the signed payload and any other member its own
-- bytes; it keeps its kind and its name, which ends in a slash for a directory; its size is that of
-- its bytes; and it names no owner and no time.
pub record IsEntry (path : Text) (signed : Bytes) (m : ArchiveMember) (e : TarHeader × Option Bytes)
    : Type 0 where
  pub manifest : m.name ≡ path → e.1 ≡ some signed
  pub kept : m.name ≢ path → e.1 ≡ m.data_bytes
  pub kind : e.0.is_directory ≡ m.is_directory
  pub file_name : m.is_directory ≡ false → e.0.name ≡ m.name
  pub directory_name : m.is_directory ≡ true → e.0.name ≡ m.name ++ codes "/"
  pub directory_mode : m.is_directory ≡ true → e.0.mode ≡ 493
  pub file_mode : m.is_directory ≡ false → e.0.mode ≡ (if is_executable m.mode then 493 else 420)
  pub empty : e.1 ≡ none → e.0.size ≡ 0
  pub sized : (bytes : Bytes) → e.1 ≡ some bytes → e.0.size ≡ length bytes
  pub no_owner : (e.0.uid ≡ 0) × (e.0.gid ≡ 0) × (e.0.uname ≡ []) × (e.0.gname ≡ [])
  pub no_time : e.0.mtime ≡ 0

-- The entries are those of the members, in order.
abbrev pub AreEntries : Text → Bytes → List ArchiveMember → List (TarHeader × Option Bytes) → Type 0
AreEntries path signed [] [] = Unit
AreEntries path signed [] (e ∷ entries) = ⊥
AreEntries path signed (m ∷ members) [] = ⊥
AreEntries path signed (m ∷ members) (e ∷ entries) =
    IsEntry path signed m e × AreEntries path signed members entries

rebuilt_entry-IsEntry :
    (path : Text) (signed : Bytes) (m : ArchiveMember)
    → IsEntry path signed m (rebuilt_entry path signed m)
unfolding rebuilt_entry normalised_tar_info
rebuilt_entry-IsEntry path signed m = record {
  manifest = λ e. rw ((text_eq_iff m.name path).1 e) refl;
  kept = λ n.
      if-keeps (λ o. o ≡ m.data_bytes) (text_eq m.name path) (some signed) m.data_bytes
        (λ e. absurd (n ((text_eq_iff m.name path).0 e))) (λ _. refl);
  kind = refl;
  file_name = λ e. rw e refl;
  directory_name = λ e. rw e refl;
  directory_mode = λ e. rw e refl;
  file_mode = λ e. rw e refl;
  empty = λ e. ap payload_size e;
  sized = λ bytes e. ap payload_size e;
  no_owner = (refl, refl, refl, refl);
  no_time = refl;
}

map-rebuilt_entry :
    (path : Text) (signed : Bytes) (members : List ArchiveMember)
    → AreEntries path signed members (map (rebuilt_entry path signed) members)
map-rebuilt_entry path signed [] = tt
map-rebuilt_entry path signed (m ∷ members) =
    (rebuilt_entry-IsEntry path signed m, map-rebuilt_entry path signed members)

-- The rebuilt archive is that of the accepted members, in their order, with another manifest.
pub record IsRebuilt (p : Platform) (c : Crypto) (limits : TarballLimits) (tarball_bytes : Bytes)
    (signed : Fields) (rebuilt_bytes : Bytes) : Type 0 where
  pub before : ArchiveInspection
  pub after : ArchiveInspection
  pub payload : Bytes
  pub inspected : inspect_tarball p c limits tarball_bytes ≡ ok before
  pub inspected_again : inspect_tarball p c limits rebuilt_bytes ≡ ok after
  pub same_path : after.manifest.path ≡ before.manifest.path
  pub serialised : IsSerialised p c before.manifest.mapping signed limits payload
  pub entries : List (TarHeader × Option Bytes)
  pub are_entries : AreEntries before.manifest.path payload before.members entries
  pub written : rebuilt_bytes ≡ p.write_archive entries
  pub small : length rebuilt_bytes ≤ limits.max_archive_bytes

-- A rebuilt archive has an entry for each member of the accepted upload, in order, of the same name
-- and kind: the member at the path of the manifest with the signed payload, any other with its own
-- bytes, and each with a fixed mode, no owner and no time. The payload is dumped from a mapping whose
-- signed bytes are those of the original manifest and whose signature is well formed. The archive is
-- within the limit, and is itself accepted with the manifest at the same path.
pub rebuild_tarball-IsRebuilt :
    (p : Platform) (c : Crypto) (limits : TarballLimits) (tarball_bytes : Bytes) (signed : Fields)
    (rebuilt_bytes : Bytes)
    → rebuild_tarball p c limits tarball_bytes signed ≡ ok rebuilt_bytes
    → IsRebuilt p c limits tarball_bytes signed rebuilt_bytes
unfolding rebuild_tarball
rebuild_tarball-IsRebuilt p c limits tarball_bytes signed rebuilt_bytes h =
    let (a, e, k) = >>=-eq-ok (inspect_tarball p c limits tarball_bytes) _ h in
    let (payload, e1, k1) =
      >>=-eq-ok (serialise_signed_manifest p c a.manifest.mapping signed limits) _ k in
    let out = p.write_archive (map (rebuilt_entry a.manifest.path payload) a.members) in
    let (small, k2) = guard-eq-ok (leb (length out) limits.max_archive_bytes) limit _ k1 in
    let (b, e3, k3) = >>=-eq-ok (inspect_tarball p c limits out) _ k2 in
    let (same, k4) = guard-eq-ok (text_eq b.manifest.path a.manifest.path) format _ k3 in
    subst (IsRebuilt p c limits tarball_bytes signed) (ok-eq out rebuilt_bytes k4) (record {
      before = a;
      after = b;
      payload = payload;
      inspected = e;
      inspected_again = e3;
      same_path = (text_eq_iff b.manifest.path a.manifest.path).0 same;
      serialised =
          serialise_signed_manifest-IsSerialised p c a.manifest.mapping signed limits payload e1;
      entries = map (rebuilt_entry a.manifest.path payload) a.members;
      are_entries = map-rebuilt_entry a.manifest.path payload a.members;
      written = refl;
      small = leb→le (length out) limits.max_archive_bytes small;
    })
