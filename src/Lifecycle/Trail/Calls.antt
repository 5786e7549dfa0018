-- ===== src/Lifecycle/Trail/Calls.antt =====
-- The chain of writes of each call, and of a sequence of calls.
use ori_skills_hub.Prelude.{
  ℕ, ◌≡◌, sym, subst, ◌∙◌, Text, Bool, true, false, ◌&&◌, Option, none, some, List, [], ◌∷◌, find,
  ok, guard, leb, >>=-eq-ok, arith,
}
use ori_skills_hub.Core.{SkillStatus, pending_review, listed}
use ori_skills_hub.Database.{Db, value_error, ScanJob, SkillVersion}
use ori_skills_hub.Database.Writes.{insert_event, update_jobs, check_deferred}
use ori_skills_hub.Publication.{create_publication}
use ori_skills_hub.Publication.Transitions.{
  Transition, audit_rows, insert_audits, allowed_prior_status, transition_skill,
  increment_downloads,
}
use ori_skills_hub.ScanQueue.{
  ScanJobRecord, bounded, candidate, claims, leased, joined, claim_event, announce_claim,
  claim_candidate, claim_due,
}
use ori_skills_hub.ScanQueue.Reports.{
  Progress, progresses, progressed, write_progress, record_progress,
}
use ori_skills_hub.ScanQueue.Completion.{
  Completion, CallContext, CleanCompletion, completes, completed, completion_event, scan_target,
  settles, scan_audit, settle_to, finish_job, complete_job, clean_completion, complete,
}
use ori_skills_hub.Lifecycle.{
  Call, publish, transition, download, claim, progress, finish, step, run,
}
use ori_skills_hub.Lifecycle.Frame.{check_deferred-eq}
use ori_skills_hub.Lifecycle.Invariant.{returned-eq, conflict-ok}
use ori_skills_hub.Lifecycle.ScanSteps.{increment_downloads-eq}
use ori_skills_hub.Lifecycle.Runs.{committed_keeps, written_keeps}
use ori_skills_hub.Lifecycle.Trail.{
  Trail, here, next, Trail-trans, Trail-one, event, jobs, downloads, progressed-IsJobUpdate,
  leased-IsJobUpdate, completed-IsJobUpdate, create_publication-Trail, insert_audits-Trail,
  transition_from-Trail,
}

write_progress-Trail :
    (p : Progress) (owner detail : Text) (now : ℕ) (event_id : Text) (stamp : ℕ)
    (o : Option ScanJob) (db db' : Db)
    → write_progress p owner detail now event_id stamp o db ≡ ok db'
    → Trail db db'
unfolding write_progress
write_progress-Trail p owner detail now event_id stamp none db db' h = cc
write_progress-Trail p owner detail now event_id stamp (some j) db db' h =
    let (db1, u, e) =
      >>=-eq-ok (update_jobs true (progresses p owner now) (progressed p detail now) db) _ h in
    next (next here (jobs true _ _ (progressed-IsJobUpdate p detail now) u)) (event _ e)

record_progress-Trail :
    (p : Progress) (now : ℕ) (event_id : Text) (stamp : ℕ) (db db' : Db)
    → record_progress p now event_id stamp db ≡ ok db'
    → Trail db db'
unfolding record_progress
record_progress-Trail p now event_id stamp db db' h =
    let (owner, _, k) = >>=-eq-ok (bounded p.worker_id 255) _ h in
    let (detail, _, k1) = >>=-eq-ok (bounded p.detail 1024) _ k in
    write_progress-Trail p owner detail now event_id stamp _ db db' k1

announce_claim-Trail :
    (owner event_id : Text) (stamp : ℕ) (o : Option ScanJobRecord) (db : Db)
    (r : Option ScanJobRecord × Db)
    → announce_claim owner event_id stamp o db ≡ ok r
    → Trail db r.1
unfolding announce_claim
announce_claim-Trail owner event_id stamp none db r h = cc
announce_claim-Trail owner event_id stamp (some j) db r h =
    let (db', e, k) = >>=-eq-ok (insert_event (claim_event event_id stamp owner j.job) db) _ h in
    subst (Trail db) (returned-eq (some j) db' r k) (Trail-one (event _ e))

claim_candidate-Trail :
    (owner : Text) (now expires : ℕ) (event_id : Text) (stamp : ℕ) (o : Option ScanJob) (db : Db)
    (r : Option ScanJobRecord × Db)
    → claim_candidate owner now expires event_id stamp o db ≡ ok r
    → Trail db r.1
unfolding claim_candidate
claim_candidate-Trail owner now expires event_id stamp none db r h =
    subst (Trail db) (returned-eq none db r h) here
claim_candidate-Trail owner now expires event_id stamp (some c) db r h =
    let (db1, u, k) =
      >>=-eq-ok (update_jobs false (claims now c) (leased owner now expires) db) _ h in
    Trail-trans (Trail-one (jobs false _ _ (leased-IsJobUpdate owner now expires) u))
      (announce_claim-Trail owner event_id stamp (joined db1 (leased owner now expires c)) db1 r k)

claim_due-Trail :
    (worker_id : Text) (now lease_seconds : ℕ) (event_id : Text) (stamp : ℕ) (db : Db)
    (r : Option ScanJobRecord × Db)
    → claim_due worker_id now lease_seconds event_id stamp db ≡ ok r
    → Trail db r.1
unfolding claim_due
claim_due-Trail worker_id now lease_seconds event_id stamp db r h =
    let (owner, _, k) = >>=-eq-ok (bounded worker_id 255) _ h in
    let (_, _, k1) =
      >>=-eq-ok (guard (leb 1 lease_seconds && leb lease_seconds 300) value_error) _ k in
    claim_candidate-Trail owner now _ event_id stamp (candidate now db.jobs) db r k1

pub settle_to-Trail :
    (c : CleanCompletion) (x : CallContext) (j : ScanJob) (o : Option SkillStatus) (db : Db)
    (r : Bool × Db)
    → settle_to c x j o db ≡ ok r
    → Trail db r.1
unfolding settle_to
settle_to-Trail c x j none db r h = subst (Trail db) (returned-eq true db r h) here
settle_to-Trail c x j (some target) db r h =
    let rows = audit_rows (settles j target) (scan_audit c x j target) db.artifacts db.skills in
    let (db1, i, k) = >>=-eq-ok (insert_audits rows db) _ h in
    let (db2, d, k1) = >>=-eq-ok (check_deferred db1) _ k in
    subst (Trail db) (sym (check_deferred-eq db1 db2 d) ∙ returned-eq true db2 r k1)
      (insert_audits-Trail rows db db1 i)

finish_job-Trail :
    (c : CleanCompletion) (x : CallContext) (o : Option ScanJob) (db : Db) (r : Bool × Db)
    → finish_job c x o db ≡ ok r
    → Trail db r.1
unfolding finish_job
finish_job-Trail c x none db r h = subst (Trail db) (ground arith) here
finish_job-Trail c x (some j) db r h =
    let (db1, u, k) = >>=-eq-ok (update_jobs true (completes c x.now) (completed c x.now) db) _ h in
    let (db2, e, k1) = >>=-eq-ok (insert_event (completion_event c x j) db1) _ k in
    Trail-trans (next (next here (jobs true _ _ (completed-IsJobUpdate c x.now) u)) (event _ e))
      (settle_to-Trail c x j (scan_target c.state) db2 r k1)

complete-Trail :
    (c : Completion) (x : CallContext) (db : Db) (r : Bool × Db)
    → complete c x db ≡ ok r
    → Trail db r.1
unfolding complete complete_job
complete-Trail c x db r h =
    let (clean, _, k) = >>=-eq-ok (clean_completion c) _ h in
    finish_job-Trail clean x (find (completes clean x.now) db.jobs) db r (conflict-ok _ k)

transition_skill-Trail :
    (t : Transition) (db : Db) (r : SkillVersion × Db) → transition_skill t db ≡ ok r → Trail db r.1
unfolding transition_skill allowed_prior_status
transition_skill-Trail t db r h =
    ground (arith, transition_from-Trail pending_review t db r, transition_from-Trail listed t db r)

increment_downloads-Trail :
    (name version : Text) (now : ℕ) (db : Db) (r : ℕ × Db)
    → increment_downloads name version now db ≡ ok r
    → Trail db r.1
increment_downloads-Trail name version now db r h =
    let (hit, e) = increment_downloads-eq name version now db r h in Trail-one (downloads hit now e)

pub step-Trail : (db : Db) (c : Call) → Trail db (step db c)
unfolding step
step-Trail db (publish ids now p) =
    committed_keeps (Trail db) db (create_publication ids now p db) here
      (create_publication-Trail ids now p db)
step-Trail db (transition t) =
    committed_keeps (Trail db) db (transition_skill t db) here (transition_skill-Trail t db)
step-Trail db (download name version now) =
    committed_keeps (Trail db) db (increment_downloads name version now db) here
      (increment_downloads-Trail name version now db)
step-Trail db (claim worker now lease event_id stamp) =
    committed_keeps (Trail db) db (claim_due worker now lease event_id stamp db) here
      (claim_due-Trail worker now lease event_id stamp db)
step-Trail db (progress p now event_id stamp) =
    written_keeps (Trail db) db (record_progress p now event_id stamp db) here
      (record_progress-Trail p now event_id stamp db)
step-Trail db (finish c x) =
    committed_keeps (Trail db) db (complete c x db) here (complete-Trail c x db)

pub run-Trail : (db : Db) (calls : List Call) → Trail db (run db calls)
unfolding run
run-Trail db [] = here
run-Trail db (c ∷ calls) = Trail-trans (step-Trail db c) (run-Trail (step db c) calls)
