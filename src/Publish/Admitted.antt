-- ===== src/Publish/Admitted.antt =====
-- hub/core/publish.py: the status and the scan job that an upload is admitted with.
use ori_skills_hub.Prelude.{
  ℕ, ◌≡◌, refl, sym, ap, subst, Text, Bool, true, false, Option, none, some, is_some, codes,
  text_eq, text_eq_iff, &&-split, ok, >>=-eq-ok, ok-eq, arith, if◌then◌else◌,
}
use ori_skills_hub.Core.{SkillStatus, ScannerVerdict, pending_review, listed, status_eq}
use ori_skills_hub.Database.{Db, SkillVersion, integrity_as_conflict}
use ori_skills_hub.Publication.{
  NewIds, NewPublication, create_publication, check_publication, new_artifact, new_skill,
  initial_audit, write_publication,
}
use ori_skills_hub.Publication.Inputs.{required}
use ori_skills_hub.Scanner.{ScanResult}
use ori_skills_hub.Validation.Package.{PublishDecision}
use ori_skills_hub.Publish.{
  ScanRun, scanned, raised, verdict_for, scan_with_timeout, is_clean, Services, Upload, admission,
  stored, store_upload, new_scan_job,
}

new_skill-fields :
    (ids : NewIds) (now : ℕ) (p : NewPublication) (actor : Text) (skill : SkillVersion)
    → new_skill ids now p actor ≡ ok skill
    → (skill.status ≡ p.initial_status) × (skill.requires_scan ≡ is_some p.scan_job)
unfolding new_skill
new_skill-fields ids now p actor skill h =
    let (name, _, k) = >>=-eq-ok (required p.name) _ h in
    let (version, _, k1) = >>=-eq-ok (required p.version) _ k in
    let e = ok-eq _ skill k1 in
    (
      ap (λ (x : SkillVersion). x.status) (sym e),
      ap (λ (x : SkillVersion). x.requires_scan) (sym e),
    )

pub create_publication-fields :
    (ids : NewIds) (now : ℕ) (p : NewPublication) (db : Db) (r : SkillVersion × Db)
    → create_publication ids now p db ≡ ok r
    → (r.0.status ≡ p.initial_status) × (r.0.requires_scan ≡ is_some p.scan_job)
unfolding create_publication
create_publication-fields ids now p db r h =
    let (_, _, k1) = >>=-eq-ok (check_publication p) _ h in
    let (actor, _, k2) = >>=-eq-ok (required p.authenticated_actor_id) _ k1 in
    let (art, _, k3) = >>=-eq-ok (new_artifact ids now p) _ k2 in
    let (skill, e, k4) = >>=-eq-ok (new_skill ids now p actor) _ k3 in
    let (a, _, k5) = >>=-eq-ok (initial_audit ids now p actor art) _ k4 in
    let (db', _, k6) =
      >>=-eq-ok (integrity_as_conflict (write_publication ids now p art a skill db)) _ k5 in
    subst
      (λ (x : SkillVersion × Db).
        (x.0.status ≡ p.initial_status) × (x.0.requires_scan ≡ is_some p.scan_job))
      (ok-eq (skill, db') r k6) (new_skill-fields ids now p actor skill e)

-- The scanner has found the upload clean.
abbrev pub FoundClean : ScanRun → Type 0
FoundClean run = (result : ScanResult) × (run ≡ scanned result) × (result.status ≡ codes "clean")

-- An upload is admitted as listed only by a decision to list it and a clean scan of it.
pub record IsAdmitted (decision : PublishDecision) (defer_scan : Bool) (run : ScanRun)
    : Type 0 where
  pub at_once : defer_scan ≡ false
  pub decided : decision.status ≡ listed
  pub clean : FoundClean run

verdict_tests :
    (a b : Bool) (detail : Text)
    → (let f : ScannerVerdict × Text =
          if a
          then (ScannerVerdict.clean, detail)
          else if b
          then (ScannerVerdict.unavailable, detail)
          else (ScannerVerdict.suspicious, detail) in
        is_clean f.0 ≡ true)
    → a ≡ true
verdict_tests true b detail h = refl
verdict_tests false true detail h = cc
verdict_tests false false detail h = cc

verdict_for-clean :
    (result : ScanResult) → is_clean (verdict_for result).0 ≡ true → result.status ≡ codes "clean"
unfolding verdict_for
verdict_for-clean result h =
    (text_eq_iff result.status (codes "clean")).0
      (verdict_tests _ (text_eq result.status (codes "skipped")) _ h)

scan_with_timeout-clean :
    (run : ScanRun) → is_clean (scan_with_timeout run).0 ≡ true → FoundClean run
unfolding scan_with_timeout
scan_with_timeout-clean (scanned result) h = (result, refl, verdict_for-clean result h)
scan_with_timeout-clean (raised t) h = cc

status_of_test : (b : Bool) → (if b then listed else pending_review) ≡ listed → b ≡ true
status_of_test true h = refl
status_of_test false h = cc

status_eq-listed : (st : SkillStatus) → status_eq st listed ≡ true → st ≡ listed
status_eq-listed st h = ground arith

pub admission-IsAdmitted :
    (decision : PublishDecision) (defer_scan : Bool) (run : ScanRun)
    → (admission decision defer_scan run).initial_status ≡ listed
    → IsAdmitted decision defer_scan run
unfolding admission
admission-IsAdmitted decision true run h = cc
admission-IsAdmitted decision false run h =
    let (d, c) =
      &&-split (status_eq decision.status listed) (is_clean (scan_with_timeout run).0)
        (status_of_test _ h) in
    record {
      at_once = refl;
      decided = status_eq-listed decision.status d;
      clean = scan_with_timeout-clean run c;
    }

-- The scan job of a deferred upload.
pub store_upload-some :
    (s : Services) (u : Upload) (defer_scan : Bool) (key : Option Text)
    → defer_scan ≡ true
    → store_upload s u defer_scan ≡ ok key
    → is_some (new_scan_job s u key) ≡ true
unfolding store_upload new_scan_job
store_upload-some s u false key d h = cc
store_upload-some s u true none d h =
    let (k, _, e) = >>=-eq-ok (stored s u.upload_bytes) _ h in
    ap is_some (sym (ok-eq (some k) none e))
store_upload-some s u true (some key) d h = refl
