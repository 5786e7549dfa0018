-- ===== src/Lifecycle/ScanSteps.antt =====
-- The calls of the scan repository and the download counter keep the tables consistent.
use ori_skills_hub.Prelude.{
  UniqueBy-update, any-has_key-update, ℕ, ◌≡◌, refl, sym, subst, ◌∙◌, Text, Bool, true, false, ◌&&◌,
  Option, none, some, find, update_where, All-update, All-map, arith, ok, guard, leb, >>=-eq-ok,
}
use ori_skills_hub.Core.{SkillStatus, listed, status_eq, pending_review}
use ori_skills_hub.Database.{Db, value_error, Artifact, SkillVersion, ScanJob}
use ori_skills_hub.Database.Writes.{insert_event, update_jobs, check_deferred}
use ori_skills_hub.Publication.Inputs.{required}
use ori_skills_hub.Publication.Transitions.{
  audit_rows, insert_audits, increment_downloads, is_version, downloaded,
}
use ori_skills_hub.ScanQueue.{
  ScanJobRecord, bounded, candidate, claims, leased, joined, claim_candidate, announce_claim,
  claim_due, claim_event,
}
use ori_skills_hub.ScanQueue.Reports.{
  Progress, write_progress, progresses, progressed, record_progress,
}
use ori_skills_hub.ScanQueue.Completion.{
  Completion, CallContext, CleanCompletion, completes, completed, scan_target, settles,
  completion_event, scan_audit, settle_to, finish_job, complete_job, clean_completion, complete,
}
use ori_skills_hub.Lifecycle.History.{Recorded, Evidenced, Owned, IsConsistent, skill_id}
use ori_skills_hub.Lifecycle.Frame.{
  IsFrame, IsFrame-refl, IsFrame-trans, IsFrame-IsConsistent, KeepsKeys, insert_event-IsFrame,
  update_jobs-IsFrame, check_deferred-eq,
}
use ori_skills_hub.Lifecycle.Invariant.{
  returned-eq, conflict-ok, audit_rows-All, insert_audits-IsConsistent,
}

pub progressed-KeepsKeys :
    (p : Progress) (detail : Text) (now : ℕ) → KeepsKeys (progressed p detail now)
unfolding progressed
progressed-KeepsKeys p detail now = record { same_id = λ j. refl; same_artifact = λ j. refl }

pub leased-KeepsKeys : (owner : Text) (now expires : ℕ) → KeepsKeys (leased owner now expires)
unfolding leased
leased-KeepsKeys owner now expires = record { same_id = λ j. refl; same_artifact = λ j. refl }

pub completed-KeepsKeys : (c : CleanCompletion) (now : ℕ) → KeepsKeys (completed c now)
unfolding completed
completed-KeepsKeys c now = record { same_id = λ j. refl; same_artifact = λ j. refl }

pub downloaded-IsConsistent :
    (hit : SkillVersion → Bool) (now : ℕ) (db : Db)
    → IsConsistent db
    → IsConsistent (record db { skills = update_where hit (downloaded now) db.skills })
downloaded-IsConsistent hit now db c = record {
  unique_ids = UniqueBy-update skill_id hit (downloaded now) db.skills (λ s. refl) c.unique_ids;
  unique_jobs = c.unique_jobs;
  owned =
      All-map (Owned db.skills) (Owned (update_where hit (downloaded now) db.skills)) db.audits
        (λ a o.
          any-has_key-update skill_id a.skill_version_id hit (downloaded now) db.skills (λ s. refl)
          ∙ o)
        c.owned;
  recorded =
      All-update (Recorded db.audits) (Recorded db.audits) hit (downloaded now) db.skills c.recorded
        (λ s m r h. r) (λ s m r h. r);
  evidenced =
      All-update (Evidenced db.jobs) (Evidenced db.jobs) hit (downloaded now) db.skills c.evidenced
        (λ s m r h. r) (λ s m r h. r);
}

-- The tables after a successful count.
pub increment_downloads-eq :
    (name version : Text) (now : ℕ) (db : Db) (r : ℕ × Db)
    → increment_downloads name version now db ≡ ok r
    → (hit : SkillVersion → Bool) × (record db {
      skills = update_where hit (downloaded now) db.skills;
    }
        ≡ r.1)
unfolding increment_downloads
increment_downloads-eq name version now db r h =
    let (n, _, k) = >>=-eq-ok (required name) _ h in
    let (v, _, k1) = >>=-eq-ok (required version) _ k in
    ((λ s. is_version n v s && status_eq s.status listed), ground arith)

pub increment_downloads-IsConsistent :
    (name version : Text) (now : ℕ) (db : Db) (r : ℕ × Db)
    → IsConsistent db
    → increment_downloads name version now db ≡ ok r
    → IsConsistent r.1
increment_downloads-IsConsistent name version now db r c h =
    let (hit, e) = increment_downloads-eq name version now db r h in
    subst IsConsistent e (downloaded-IsConsistent hit now db c)

write_progress-IsFrame :
    (p : Progress) (owner detail : Text) (now : ℕ) (event_id : Text) (stamp : ℕ)
    (o : Option ScanJob) (db db' : Db)
    → write_progress p owner detail now event_id stamp o db ≡ ok db'
    → IsFrame db db'
unfolding write_progress
write_progress-IsFrame p owner detail now event_id stamp none db db' h = cc
write_progress-IsFrame p owner detail now event_id stamp (some j) db db' h =
    let (db1, u, e) =
      >>=-eq-ok (update_jobs true (progresses p owner now) (progressed p detail now) db) _ h in
    IsFrame-trans (update_jobs-IsFrame true _ _ db db1 (progressed-KeepsKeys p detail now) u)
      (insert_event-IsFrame _ db1 db' e)

pub record_progress-IsFrame :
    (p : Progress) (now : ℕ) (event_id : Text) (stamp : ℕ) (db db' : Db)
    → record_progress p now event_id stamp db ≡ ok db'
    → IsFrame db db'
unfolding record_progress
record_progress-IsFrame p now event_id stamp db db' h =
    let (owner, _, k) = >>=-eq-ok (bounded p.worker_id 255) _ h in
    let (detail, _, k1) = >>=-eq-ok (bounded p.detail 1024) _ k in
    write_progress-IsFrame p owner detail now event_id stamp _ db db' k1

announce_claim-IsFrame :
    (owner event_id : Text) (stamp : ℕ) (o : Option ScanJobRecord) (db : Db)
    (r : Option ScanJobRecord × Db)
    → announce_claim owner event_id stamp o db ≡ ok r
    → IsFrame db r.1
unfolding announce_claim
announce_claim-IsFrame owner event_id stamp none db r h = cc
announce_claim-IsFrame owner event_id stamp (some j) db r h =
    let (db', e, k) = >>=-eq-ok (insert_event (claim_event event_id stamp owner j.job) db) _ h in
    subst (IsFrame db) (returned-eq (some j) db' r k) (insert_event-IsFrame _ db db' e)

claim_candidate-IsFrame :
    (owner : Text) (now expires : ℕ) (event_id : Text) (stamp : ℕ) (o : Option ScanJob) (db : Db)
    (r : Option ScanJobRecord × Db)
    → claim_candidate owner now expires event_id stamp o db ≡ ok r
    → IsFrame db r.1
unfolding claim_candidate
claim_candidate-IsFrame owner now expires event_id stamp none db r h =
    subst (IsFrame db) (returned-eq none db r h) (IsFrame-refl db)
claim_candidate-IsFrame owner now expires event_id stamp (some c) db r h =
    let (db1, u, k) =
      >>=-eq-ok (update_jobs false (claims now c) (leased owner now expires) db) _ h in
    IsFrame-trans (update_jobs-IsFrame false _ _ db db1 (leased-KeepsKeys owner now expires) u) (
      announce_claim-IsFrame owner event_id stamp (joined db1 (leased owner now expires c)) db1 r k)

pub claim_due-IsFrame :
    (worker_id : Text) (now lease_seconds : ℕ) (event_id : Text) (stamp : ℕ) (db : Db)
    (r : Option ScanJobRecord × Db)
    → claim_due worker_id now lease_seconds event_id stamp db ≡ ok r
    → IsFrame db r.1
unfolding claim_due
claim_due-IsFrame worker_id now lease_seconds event_id stamp db r h =
    let (owner, _, k) = >>=-eq-ok (bounded worker_id 255) _ h in
    let (_, _, k1) =
      >>=-eq-ok (guard (leb 1 lease_seconds && leb lease_seconds 300) value_error) _ k in
    claim_candidate-IsFrame owner now _ event_id stamp (candidate now db.jobs) db r k1

scan_audit-prior :
    (c : CleanCompletion) (x : CallContext) (j : ScanJob) (target : SkillStatus) (s : SkillVersion)
    (art : Artifact)
    → (scan_audit c x j target s art).prior_status ≡ some pending_review
unfolding scan_audit
scan_audit-prior c x j target s art = refl

settle_to-IsConsistent :
    (c : CleanCompletion) (x : CallContext) (j : ScanJob) (o : Option SkillStatus) (db : Db)
    (r : Bool × Db)
    → IsConsistent db
    → settle_to c x j o db ≡ ok r
    → IsConsistent r.1
unfolding settle_to
settle_to-IsConsistent c x j none db r v h = subst IsConsistent (returned-eq true db r h) v
settle_to-IsConsistent c x j (some target) db r v h =
    let rows = audit_rows (settles j target) (scan_audit c x j target) db.artifacts db.skills in
    let (db1, i, k) = >>=-eq-ok (insert_audits rows db) _ h in
    let (db2, d, k1) = >>=-eq-ok (check_deferred db1) _ k in
    subst IsConsistent (sym (check_deferred-eq db1 db2 d) ∙ returned-eq true db2 r k1) (
      insert_audits-IsConsistent pending_review rows db db1
        (audit_rows-All (λ a. a.prior_status ≡ some pending_review) (settles j target)
          (scan_audit c x j target) db.artifacts db.skills (scan_audit-prior c x j target))
        v i)

finish_job-IsConsistent :
    (c : CleanCompletion) (x : CallContext) (o : Option ScanJob) (db : Db) (r : Bool × Db)
    → IsConsistent db
    → finish_job c x o db ≡ ok r
    → IsConsistent r.1
unfolding finish_job
finish_job-IsConsistent c x none db r v h = subst IsConsistent (ground arith) v
finish_job-IsConsistent c x (some j) db r v h =
    let (db1, u, k) = >>=-eq-ok (update_jobs true (completes c x.now) (completed c x.now) db) _ h in
    let (db2, e, k1) = >>=-eq-ok (insert_event (completion_event c x j) db1) _ k in
    let framed =
      IsFrame-trans (update_jobs-IsFrame true _ _ db db1 (completed-KeepsKeys c x.now) u)
        (insert_event-IsFrame _ db1 db2 e) in
    settle_to-IsConsistent c x j (scan_target c.state) db2 r (IsFrame-IsConsistent db db2 framed v)
      k1

pub complete-IsConsistent :
    (c : Completion) (x : CallContext) (db : Db) (r : Bool × Db)
    → IsConsistent db
    → complete c x db ≡ ok r
    → IsConsistent r.1
unfolding complete complete_job
complete-IsConsistent c x db r v h =
    let (clean, _, k) = >>=-eq-ok (clean_completion c) _ h in
    finish_job-IsConsistent clean x (find (completes clean x.now) db.jobs) db r v (conflict-ok _ k)
