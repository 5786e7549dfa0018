-- ===== src/Lifecycle/Published.antt =====
-- hub/db/repository.py: what a publication that needs a scan leaves in the tables.
use ori_skills_hub.Prelude.{
  ℕ, ◌≡◌, refl, sym, ap, subst, ◌∙◌, true, false, ◌&&◌, any, any-true, Memᴰ, text_eq, text_eq_iff,
  arith, Result, ok, >>=-eq-ok, &&-split,
}
use ori_skills_hub.Core.{pending_review, pending_submission, state_eq, state_eq_iff}
use ori_skills_hub.Database.{
  Db, DbError, Author, AuthorStatus, active, SkillVersion, ScanJob, integrity_as_conflict, Artifact,
  SkillTransitionAudit,
}
use ori_skills_hub.Database.Guards.{
  author_is_active, skill_require_scan_job, skill_validate_initial_status,
}
use ori_skills_hub.Database.Writes.{insert_artifact, insert_audit, insert_skill}
use ori_skills_hub.Publication.{
  NewIds, NewPublication, check_publication, new_artifact, new_skill, initial_audit, admit_scan_job,
  validate_initial_skill, write_publication, create_publication,
}
use ori_skills_hub.Publication.Inputs.{required}
use ori_skills_hub.Lifecycle.Creation.{insert_skill-facts, scan_required_is_pending}
use ori_skills_hub.Lifecycle.Frame.{check_deferred-eq}
use ori_skills_hub.Lifecycle.Invariant.{conflict-ok}

-- A skill that waits for its scan, by an active author.
pub record AwaitsScan (s : SkillVersion) (db : Db) : Type 0 where
  pub stored : Memᴰ s db.skills
  pub pending : s.status ≡ pending_review
  pub job : ScanJob
  pub queued : Memᴰ job db.jobs
  pub same_artifact : job.artifact_id ≡ s.artifact_id
  pub unsent : job.state ≡ pending_submission
  pub author : Author
  pub registered : Memᴰ author db.authors
  pub same_author : author.id ≡ s.author_id
  pub is_active : author.status ≡ active

active_status :
    (status : AuthorStatus) → elim status [ active ↦ true | _ ↦ false ] ≡ true → status ≡ active
active_status status h = ground arith

author_found :
    (db : Db) (s : SkillVersion)
    → skill_validate_initial_status db s ≡ false
    → any (λ author. author_is_active author s.author_id) db.authors ≡ true
unfolding skill_validate_initial_status
author_found db s h = ground arith

job_found :
    (db : Db) (s : SkillVersion)
    → skill_require_scan_job db s ≡ false
    → s.requires_scan ≡ true
    → any
        (λ (j : ScanJob).
          text_eq j.artifact_id s.artifact_id && state_eq j.state pending_submission)
        db.jobs
      ≡ true
unfolding skill_require_scan_job
job_found db s h q = ground arith

insert_skill-initial :
    (s : SkillVersion) (db db' : Db)
    → insert_skill s db ≡ ok db'
    → skill_validate_initial_status db s ≡ false
unfolding insert_skill
insert_skill-initial s db db' h = ground arith

insert_skill-AwaitsScan :
    (s : SkillVersion) (db db' : Db)
    → s.requires_scan ≡ true
    → insert_skill s db ≡ ok db'
    → AwaitsScan s db'
unfolding author_is_active
insert_skill-AwaitsScan s db db' q h =
    let (rows, _, scan) = insert_skill-facts s db db' h in
    let (j, m, e) = any-true _ db.jobs (job_found db s scan q) in
    let (art, st) = &&-split _ _ e in
    let (w, n, f) = any-true _ db.authors (author_found db s (insert_skill-initial s db db' h)) in
    let (i, act) = &&-split (text_eq w.id s.author_id) _ f in
    subst (AwaitsScan s) (sym rows) (record {
      stored = Memᴰ.head refl;
      pending = scan_required_is_pending db s scan q;
      job = j;
      queued = m;
      same_artifact = (text_eq_iff _ _).0 art;
      unsent = (state_eq_iff _ _).0 st;
      author = w;
      registered = n;
      same_author = (text_eq_iff _ _).0 i;
      is_active = active_status w.status act;
    })

write_publication-AwaitsScan :
    (ids : NewIds) (now : ℕ) (p : NewPublication) (artifact : Artifact) (a : SkillTransitionAudit)
    (s : SkillVersion) (db db' : Db)
    → s.requires_scan ≡ true
    → write_publication ids now p artifact a s db ≡ ok db'
    → AwaitsScan s db'
unfolding write_publication
write_publication-AwaitsScan ids now p artifact a s db db' q h =
    let (db1, _, k1) = >>=-eq-ok (insert_artifact artifact db) _ h in
    let (db2, _, k2) = >>=-eq-ok (admit_scan_job ids now artifact p.scan_job db1) _ k1 in
    let (db3, _, k3) = >>=-eq-ok (insert_audit a db2) _ k2 in
    let (_, _, k4) = >>=-eq-ok (validate_initial_skill s) _ k3 in
    let (db4, h4, k5) = >>=-eq-ok (insert_skill s db3) _ k4 in
    subst (AwaitsScan s) (sym (check_deferred-eq db4 db' k5))
      (insert_skill-AwaitsScan s db3 db4 q h4)

pair-eq :
    (s : SkillVersion) (db' : Db) (r : SkillVersion × Db)
    → ◌≡◌ {A = Result DbError (SkillVersion × Db)} (ok (s, db')) (ok r)
    → (s, db') ≡ r
pair-eq s db' r h = ground arith

-- A publication that returns a skill that needs a scan has stored that skill in pending_review, with
-- a queued scan job of its artifact that is not yet submitted, and its author is active.
pub create_publication-AwaitsScan :
    (ids : NewIds) (now : ℕ) (p : NewPublication) (db : Db) (r : SkillVersion × Db)
    → create_publication ids now p db ≡ ok r
    → r.0.requires_scan ≡ true
    → AwaitsScan r.0 r.1
unfolding create_publication
create_publication-AwaitsScan ids now p db r h q =
    let (_, _, k1) = >>=-eq-ok (check_publication p) _ h in
    let (actor, _, k2) = >>=-eq-ok (required p.authenticated_actor_id) _ k1 in
    let (art, _, k3) = >>=-eq-ok (new_artifact ids now p) _ k2 in
    let (s, _, k4) = >>=-eq-ok (new_skill ids now p actor) _ k3 in
    let (a, _, k5) = >>=-eq-ok (initial_audit ids now p actor art) _ k4 in
    let (db', hw, k6) =
      >>=-eq-ok (integrity_as_conflict (write_publication ids now p art a s db)) _ k5 in
    let e = pair-eq s db' r k6 in
    subst (λ (x : SkillVersion × Db). AwaitsScan x.0 x.1) e
      (write_publication-AwaitsScan ids now p art a s db db'
        (ap (λ (x : SkillVersion × Db). x.0.requires_scan) e ∙ q) (conflict-ok _ hw))
