-- ===== src/Database/Writes.antt =====
-- The statements that change the tables, each with the triggers and constraints that guard it. A
-- statement that a guard refuses is an IntegrityError. `now` is CURRENT_TIMESTAMP.
use ori_skills_hub.Prelude.{
  ◌+◌, Bool, not, ◌&&◌, ◌||◌, some, ◌∷◌, any, all, length, select, update_where, text_eq, is_some,
  ◌==◌, Result, ok, ◌>>◌, guard, reject, if◌then◌else◌,
}
use ori_skills_hub.Core.{pending_review, listed, rejected, unlisted, status_eq}
use ori_skills_hub.Database.{
  Db, Artifact, SkillVersion, SkillTransitionAudit, ScanJob, ScanEvent, DbError, integrity_error,
}
use ori_skills_hub.Database.Guards.{
  opt_status_eq, audit_validate_state, audit_require_scan_evidence, skill_validate_initial_status,
  skill_require_scan_job, skill_reject_approval_update, skill_validate_revision_transition,
  skill_validate_status_transition, skill_require_transition_audit, skill_checks, audit_checks,
}
use ori_skills_hub.Database.JobGuards.{
  job_validate_initial_state, job_validate_state_transition, job_reject_terminal_rewrite,
  job_validate_state_evidence, job_checks, event_checks, artifact_checks,
}

abbrev pub Write : Type 0
Write = Result DbError Db

unfoldable pub insert_artifact : Artifact → Db → Write
insert_artifact a db = do
  reject
      (any
        (λ b.
          text_eq b.id a.id
          || text_eq b.artifact_digest a.artifact_digest
          || text_eq b.storage_key a.storage_key)
        db.artifacts)
      integrity_error
  guard (artifact_checks a) integrity_error
  ok (record db { artifacts = a ∷ db.artifacts })

-- The rows that the UPDATE of an audit trigger selects.
unfoldable pub audit_hits : SkillTransitionAudit → SkillVersion → Bool
audit_hits a s =
    text_eq s.id a.skill_version_id
    && opt_status_eq a.prior_status s.status
    && (s.revision + 1) == a.transition_number

unfoldable pub listing_row : SkillTransitionAudit → SkillVersion → SkillVersion
listing_row a s = record s {
  status = a.new_status;
  revision = a.transition_number;
  review_approved_at = some a.occurred_at;
  review_approved_by = some a.actor_id;
  updated_at = a.occurred_at;
}

unfoldable pub nonlisting_row : SkillTransitionAudit → SkillVersion → SkillVersion
nonlisting_row a s = record s {
  status = a.new_status;
  revision = a.transition_number;
  updated_at = a.occurred_at;
}

-- The triggers of `UPDATE OF status, revision` and the CHECK constraints of the new row.
unfoldable pub skill_update_aborts : Db → SkillVersion → SkillVersion → Bool
skill_update_aborts db old new =
    skill_validate_revision_transition old new
    || skill_validate_status_transition old new
    || skill_require_transition_audit db old new
    || not (skill_checks new)

-- skill_transition_audit_apply_listing
unfoldable pub apply_listing : SkillTransitionAudit → Db → Write
apply_listing a db = do
  reject
      (any
        (λ s.
          audit_hits a s
          && (skill_reject_approval_update s (listing_row a s)
              || skill_update_aborts db s (listing_row a s)))
        db.skills)
      integrity_error
  guard (length (select (audit_hits a) db.skills) == 1) integrity_error
  ok (record db { skills = update_where (audit_hits a) (listing_row a) db.skills })

-- skill_transition_audit_apply_nonlisting
unfoldable pub apply_nonlisting : SkillTransitionAudit → Db → Write
apply_nonlisting a db = do
  reject (any (λ s. audit_hits a s && skill_update_aborts db s (nonlisting_row a s)) db.skills)
      integrity_error
  guard (length (select (audit_hits a) db.skills) == 1) integrity_error
  ok (record db { skills = update_where (audit_hits a) (nonlisting_row a) db.skills })

-- The two AFTER INSERT triggers by their WHEN clauses.
unfoldable pub apply_audit : SkillTransitionAudit → Db → Write
apply_audit a db =
    if opt_status_eq a.prior_status pending_review && status_eq a.new_status listed
    then apply_listing a db
    else if is_some a.prior_status
        && (status_eq a.new_status rejected || status_eq a.new_status unlisted)
    then apply_nonlisting a db
    else ok db

unfoldable pub audit_clashes : SkillTransitionAudit → SkillTransitionAudit → Bool
audit_clashes a b =
    text_eq b.id a.id
    || text_eq b.actor_id a.actor_id && text_eq b.idempotency_key a.idempotency_key
    || text_eq b.skill_version_id a.skill_version_id && b.transition_number == a.transition_number

unfoldable pub insert_audit : SkillTransitionAudit → Db → Write
insert_audit a db = do
  reject (audit_validate_state db a) integrity_error
  reject (audit_require_scan_evidence db a) integrity_error
  reject (any (audit_clashes a) db.audits) integrity_error
  guard (audit_checks a) integrity_error
  apply_audit a (record db { audits = a ∷ db.audits })

unfoldable pub skill_clashes : SkillVersion → SkillVersion → Bool
skill_clashes s t =
    text_eq t.id s.id
    || text_eq t.name s.name && text_eq t.version s.version
    || text_eq t.artifact_id s.artifact_id

unfoldable pub insert_skill : SkillVersion → Db → Write
insert_skill s db = do
  reject (skill_validate_initial_status db s) integrity_error
  reject (skill_require_scan_job db s) integrity_error
  reject (any (skill_clashes s) db.skills) integrity_error
  guard (skill_checks s) integrity_error
  guard (any (λ author. text_eq author.id s.author_id) db.authors) integrity_error
  guard (any (λ art. text_eq art.id s.artifact_id) db.artifacts) integrity_error
  ok (record db { skills = s ∷ db.skills })

unfoldable pub insert_job : ScanJob → Db → Write
insert_job j db = do
  reject (job_validate_initial_state db j) integrity_error
  reject (any (λ k. text_eq k.id j.id || text_eq k.artifact_id j.artifact_id) db.jobs)
      integrity_error
  guard (job_checks j) integrity_error
  ok (record db { jobs = j ∷ db.jobs })

unfoldable pub insert_event : ScanEvent → Db → Write
insert_event e db = do
  reject (any (λ f. text_eq f.id e.id) db.events) integrity_error
  guard (any (λ j. text_eq j.id e.scan_job_id) db.jobs) integrity_error
  guard (event_checks e) integrity_error
  ok (record db { events = e ∷ db.events })

-- `UPDATE scan_jobs SET ... WHERE p`, with the triggers of an UPDATE and, if `of_state`, of one that
-- sets `state`.
unfoldable pub job_update_aborts : Bool → ScanJob → ScanJob → Bool
job_update_aborts of_state old new =
    job_reject_terminal_rewrite old
    || of_state && job_validate_state_transition old new
    || job_validate_state_evidence old new
    || not (job_checks new)

unfoldable pub update_jobs : Bool → (ScanJob → Bool) → (ScanJob → ScanJob) → Db → Write
update_jobs of_state p f db = do
  reject (any (λ j. p j && job_update_aborts of_state j (f j)) db.jobs) integrity_error
  ok (record db { jobs = update_where p f db.jobs })

-- The deferred foreign key of `skill_transition_audit`, checked at the commit.
unfoldable pub check_deferred : Db → Write
check_deferred db = do
  guard (all (λ a. any (λ s. text_eq s.id a.skill_version_id) db.skills) db.audits) integrity_error
  ok db
