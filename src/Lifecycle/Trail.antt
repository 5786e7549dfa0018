-- ===== src/Lifecycle/Trail.antt =====
-- Every call as a chain of single writes, each accepted by the guards of the tables.
pub mod Calls
pub mod Log
pub mod Jobs
pub mod Results
use ori_skills_hub.Prelude.{
  ℕ, ◌+◌, ◌≤◌, ◌≡◌, refl, sym, subst, ◌∙◌, Text, Bool, true, false, ◌&&◌, Option, none, some, List,
  [], ◌∷◌, update_where, find, Result, ok, err, ◌>>=◌, ◌>>◌, guard, leb, >>=-eq-ok, arith,
}
use ori_skills_hub.Core.{SkillStatus}
use ori_skills_hub.Database.{
  Db, DbError, value_error, Artifact, SkillVersion, SkillTransitionAudit, ScanJob, ScanEvent,
  committed, integrity_as_conflict,
}
use ori_skills_hub.Database.Writes.{
  insert_artifact, insert_audit, insert_skill, insert_job, insert_event, update_jobs,
  check_deferred,
}
use ori_skills_hub.Publication.{
  NewIds, NewPublication, NewScanJob, check_publication, new_artifact, new_skill, initial_audit,
  new_job, admit_scan_job, admission_event, validate_initial_skill, write_publication,
  create_publication,
}
use ori_skills_hub.Publication.Inputs.{required}
use ori_skills_hub.Publication.Transitions.{
  Transition, audit_rows, insert_audits, transition_audit, allowed_prior_status, finish_transition,
  transition_from, transition_skill, increment_downloads, is_version, clean_transition, downloaded,
}
use ori_skills_hub.ScanQueue.{
  ScanJobRecord, bounded, candidate, claims, leased, joined, claim_event, announce_claim,
  claim_candidate, claim_due,
}
use ori_skills_hub.ScanQueue.Reports.{
  Progress, progresses, progressed, progress_event, write_progress, record_progress,
}
use ori_skills_hub.ScanQueue.Completion.{
  Completion, CallContext, CleanCompletion, completes, completed, completion_event, scan_target,
  settles, scan_audit, settle_to, finish_job, complete_job, clean_completion, complete,
}
use ori_skills_hub.Lifecycle.{
  Call, publish, transition, download, claim, progress, finish, written, step, run,
}
use ori_skills_hub.Lifecycle.Frame.{KeepsKeys, check_deferred-eq}
use ori_skills_hub.Lifecycle.Invariant.{returned-eq, conflict-ok, finish_transition-eq}
use ori_skills_hub.Lifecycle.ScanSteps.{
  progressed-KeepsKeys, leased-KeepsKeys, completed-KeepsKeys, increment_downloads-eq,
}
use ori_skills_hub.Lifecycle.Runs.{committed_keeps, written_keeps}

-- A rewriting of jobs that keeps what identifies them and loses no attempt, and keeps the state if
-- the UPDATE does not set it.
pub record IsJobUpdate (of_state : Bool) (f : ScanJob → ScanJob) : Type 0 where
  pub keys : KeepsKeys f
  pub attempts : (j : ScanJob) → j.attempt_count ≤ (f j).attempt_count
  pub state_kept : of_state ≡ false → (j : ScanJob) → (f j).state ≡ j.state

pub data Write1 (db db' : Db) : Type 0 where
  artifact : (a : Artifact) → insert_artifact a db ≡ ok db' → Write1 db db'
  job : (j : ScanJob) → insert_job j db ≡ ok db' → Write1 db db'
  event : (e : ScanEvent) → insert_event e db ≡ ok db' → Write1 db db'
  audit : (a : SkillTransitionAudit) → insert_audit a db ≡ ok db' → Write1 db db'
  skill : (s : SkillVersion) → insert_skill s db ≡ ok db' → Write1 db db'
  jobs :
      (of_state : Bool) (p : ScanJob → Bool) (f : ScanJob → ScanJob)
      → IsJobUpdate of_state f
      → update_jobs of_state p f db ≡ ok db'
      → Write1 db db'
  downloads :
      (hit : SkillVersion → Bool) (now : ℕ)
      → record db { skills = update_where hit (downloaded now) db.skills } ≡ db'
      → Write1 db db'

pub data Trail (db : Db) : Db → Type 0 where
  here : Trail db db
  next : {a b : Db} → Trail db a → Write1 a b → Trail db b

pub Trail-trans : {a b c : Db} → Trail a b → Trail b c → Trail a c
Trail-trans t here = t
Trail-trans t (next u w) = next (Trail-trans t u) w

pub Trail-one : {a b : Db} → Write1 a b → Trail a b
Trail-one w = next here w

pub progressed-IsJobUpdate :
    (p : Progress) (detail : Text) (now : ℕ) → IsJobUpdate true (progressed p detail now)
unfolding progressed
progressed-IsJobUpdate p detail now = record {
  keys = progressed-KeepsKeys p detail now;
  attempts = λ j. omega arith;
  state_kept = λ h. cc;
}

pub leased-IsJobUpdate :
    (owner : Text) (now expires : ℕ) → IsJobUpdate false (leased owner now expires)
unfolding leased
leased-IsJobUpdate owner now expires = record {
  keys = leased-KeepsKeys owner now expires;
  attempts = λ j. omega arith;
  state_kept = λ h j. refl;
}

pub completed-IsJobUpdate : (c : CleanCompletion) (now : ℕ) → IsJobUpdate true (completed c now)
unfolding completed
completed-IsJobUpdate c now = record {
  keys = completed-KeepsKeys c now;
  attempts = λ j. omega arith;
  state_kept = λ h. cc;
}

admit_scan_job-Trail :
    (ids : NewIds) (now : ℕ) (a : Artifact) (o : Option NewScanJob) (db db' : Db)
    → admit_scan_job ids now a o db ≡ ok db'
    → Trail db db'
unfolding admit_scan_job
admit_scan_job-Trail ids now a none db db' h = subst (Trail db) (ground arith) here
admit_scan_job-Trail ids now a (some j) db db' h =
    let (row, _, k) = >>=-eq-ok (new_job a now j) _ h in
    let (db1, i, e) = >>=-eq-ok (insert_job row db) _ k in next (next here (job row i)) (event _ e)

write_publication-Trail :
    (ids : NewIds) (now : ℕ) (p : NewPublication) (art : Artifact) (a : SkillTransitionAudit)
    (s : SkillVersion) (db db' : Db)
    → write_publication ids now p art a s db ≡ ok db'
    → Trail db db'
unfolding write_publication
write_publication-Trail ids now p art a s db db' h =
    let (db1, h1, k1) = >>=-eq-ok (insert_artifact art db) _ h in
    let (db2, h2, k2) = >>=-eq-ok (admit_scan_job ids now art p.scan_job db1) _ k1 in
    let (db3, h3, k3) = >>=-eq-ok (insert_audit a db2) _ k2 in
    let (_, _, k4) = >>=-eq-ok (validate_initial_skill s) _ k3 in
    let (db4, h4, k5) = >>=-eq-ok (insert_skill s db3) _ k4 in
    subst (Trail db) (sym (check_deferred-eq db4 db' k5)) (
      next
        (next
          (Trail-trans (Trail-one (artifact art h1))
            (admit_scan_job-Trail ids now art p.scan_job db1 db2 h2))
          (audit a h3))
        (skill s h4))

pub create_publication-Trail :
    (ids : NewIds) (now : ℕ) (p : NewPublication) (db : Db) (r : SkillVersion × Db)
    → create_publication ids now p db ≡ ok r
    → Trail db r.1
unfolding create_publication
create_publication-Trail ids now p db r h =
    let (_, _, k1) = >>=-eq-ok (check_publication p) _ h in
    let (actor, _, k2) = >>=-eq-ok (required p.authenticated_actor_id) _ k1 in
    let (art, _, k3) = >>=-eq-ok (new_artifact ids now p) _ k2 in
    let (s, _, k4) = >>=-eq-ok (new_skill ids now p actor) _ k3 in
    let (a, _, k5) = >>=-eq-ok (initial_audit ids now p actor art) _ k4 in
    let (db', hw, k6) =
      >>=-eq-ok (integrity_as_conflict (write_publication ids now p art a s db)) _ k5 in
    subst (Trail db) (returned-eq s db' r k6)
      (write_publication-Trail ids now p art a s db db' (conflict-ok _ hw))

pub insert_audits-Trail :
    (rows : List SkillTransitionAudit) (db db' : Db) → insert_audits rows db ≡ ok db' → Trail db db'
unfolding insert_audits
insert_audits-Trail [] db db' h = subst (Trail db) (ground arith) here
insert_audits-Trail (a ∷ rows) db db' h =
    let (db1, h1, k) = >>=-eq-ok (insert_audit a db) _ h in
    Trail-trans (Trail-one (audit a h1)) (insert_audits-Trail rows db1 db' k)

pub transition_from-Trail :
    (prior : SkillStatus) (t : Transition) (db : Db) (r : SkillVersion × Db)
    → transition_from prior t db ≡ ok r
    → Trail db r.1
unfolding transition_from
transition_from-Trail prior raw db r h =
    let (t, _, k) = >>=-eq-ok (clean_transition raw) _ h in
    let (db', h1, k1) = >>=-eq-ok (insert_audits _ db) _ (conflict-ok _ k) in
    subst (Trail db) (finish_transition-eq t _ db' r k1) (insert_audits-Trail _ db db' h1)
