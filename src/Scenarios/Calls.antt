-- ===== src/Scenarios/Calls.antt =====
-- The theorems on publications and transitions at concrete calls.
use ori_skills_hub.Prelude.{
  update_where, select, all, any, find, text_eq, strip, ◌≡◌, refl, subst, codes, some, ok, false,
  [], ◌∷◌,
}
use ori_skills_hub.Publication.Transitions.{
  finish_transition, transition_audit, audit_rows, insert_audits, allowed_prior_status, Transition,
  transition_skill,
}
use ori_skills_hub.Database.Guards.{
  audit_supports_update, skill_require_transition_audit, skill_validate_status_transition,
  skill_validate_revision_transition, skill_checks, skill_require_scan_job, initial_audit_matches,
  author_is_active, skill_validate_initial_status, digest_column, audit_checks,
  audit_require_scan_evidence, audit_move, audit_matches_skill, audit_validate_state,
}
use ori_skills_hub.Database.Writes.{
  nonlisting_row, skill_update_aborts, audit_hits, apply_nonlisting, check_deferred, insert_skill,
  apply_audit, insert_event, insert_job, insert_artifact, audit_clashes, insert_audit,
}
use ori_skills_hub.Publication.{
  validate_initial_skill, admit_scan_job, write_publication, initial_audit, new_skill, new_artifact,
  check_publication, new_job, create_publication,
}
use ori_skills_hub.Database.JobGuards.{
  event_checks, job_checks, job_validate_initial_state, artifact_checks,
}
use ori_skills_hub.Publication.Inputs.{digest, audit_reason, required}
use ori_skills_hub.Core.{rejected, pending_review}
use ori_skills_hub.Database.{Db, SkillVersion, SkillTransitionAudit, empty_tables}
use ori_skills_hub.Lifecycle.History.{IsConsistent}
use ori_skills_hub.Lifecycle.Runs.{run-IsConsistent}
use ori_skills_hub.Lifecycle.Outcomes.{IsMoved, transition_skill-IsMoved}
use ori_skills_hub.Lifecycle.Published.{AwaitsScan, create_publication-AwaitsScan}
use ori_skills_hub.Scenarios.{alice, ids, upload, publish_pump, approve_pump}
use ori_skills_hub.Scenarios.Tables.{published, pump_pending, pump_audit}
use ori_skills_hub.Scenarios.Publishing.{published-run}

create_result :
    create_publication ids 100 (upload false) (empty_tables (alice ∷ []))
    ≡ ok (pump_pending, published)
unfolding transition_skill allowed_prior_status required strip audit_reason insert_audits audit_rows
    text_eq find insert_audit audit_validate_state transition_audit any audit_matches_skill
    audit_move audit_require_scan_evidence audit_clashes new_job audit_checks create_publication
    check_publication new_artifact digest all new_skill initial_audit write_publication
    insert_artifact artifact_checks digest_column admit_scan_job insert_job
    job_validate_initial_state job_checks insert_event event_checks apply_audit
    validate_initial_skill insert_skill skill_validate_initial_status author_is_active
    initial_audit_matches skill_require_scan_job skill_checks check_deferred
create_result = refl

create_publication-AwaitsScan_example : AwaitsScan pump_pending published
create_publication-AwaitsScan_example =
    create_publication-AwaitsScan ids 100 (upload false) (empty_tables (alice ∷ []))
      (pump_pending, published) create_result refl

abbrev reject_pump : Transition
reject_pump = record approve_pump { target_status = rejected }

abbrev pump_rejected : SkillVersion
pump_rejected = record pump_pending { status = rejected; revision = 2; updated_at = 400 }

abbrev rejection : SkillTransitionAudit
rejection = record pump_audit {
  id = codes "audit9";
  transition_number = 2;
  actor_id = codes "admin";
  prior_status = some pending_review;
  new_status = rejected;
  reason = codes "reviewed";
  occurred_at = 400;
  correlation_id = codes "c9";
  idempotency_key = codes "k9";
}

abbrev turned_down : Db
turned_down = record published {
  skills = pump_rejected ∷ [];
  audits = rejection ∷ published.audits;
}

reject_result : transition_skill reject_pump published ≡ ok (pump_rejected, turned_down)
unfolding transition_skill allowed_prior_status required strip audit_reason insert_audits audit_rows
    text_eq find insert_audit audit_validate_state transition_audit any audit_matches_skill
    audit_move audit_require_scan_evidence audit_clashes audit_checks digest_column apply_audit
    apply_nonlisting audit_hits skill_update_aborts skill_validate_revision_transition
    nonlisting_row skill_validate_status_transition skill_require_transition_audit
    audit_supports_update skill_checks select finish_transition update_where check_deferred all
reject_result = refl

published-IsConsistent : IsConsistent published
published-IsConsistent =
    subst IsConsistent published-run (run-IsConsistent (alice ∷ []) (publish_pump false ∷ []))

transition_skill-IsMoved_example : IsMoved reject_pump published (pump_rejected, turned_down)
transition_skill-IsMoved_example =
    transition_skill-IsMoved reject_pump published (pump_rejected, turned_down)
      published-IsConsistent reject_result
