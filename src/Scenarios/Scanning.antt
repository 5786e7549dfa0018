-- ===== src/Scenarios/Scanning.antt =====
-- The tables while the skill of Scenarios/Tables.antt is scanned, up to its listing.
use ori_skills_hub.Prelude.{
  ◌≡◌, refl, ap, ◌∙◌, none, some, List, [], ◌∷◌, codes, true, false, ok, strip, find, text_eq, any,
  update_where, select, all,
}
use ori_skills_hub.Core.{ScanJobState, pending_review, listed, pending_submission, submitted}
use ori_skills_hub.Database.{
  Db, SkillVersion, SkillTransitionAudit, ScanJob, empty_tables, committed,
}
use ori_skills_hub.ScanQueue.{bounded, claim_due, ScanJobRecord}
use ori_skills_hub.ScanQueue.Reports.{record_progress}
use ori_skills_hub.ScanQueue.Evidence.{stats_json}
use ori_skills_hub.Database.Writes.{
  update_jobs, job_update_aborts, insert_event, insert_audit, audit_clashes, apply_audit,
  apply_listing, audit_hits, listing_row, skill_update_aborts, check_deferred,
}
use ori_skills_hub.Database.JobGuards.{
  job_reject_terminal_rewrite, job_validate_state_transition, job_validate_state_evidence,
  job_checks, event_checks,
}
use ori_skills_hub.Database.Guards.{
  digest_column, audit_validate_state, audit_matches_skill, audit_move, audit_require_scan_evidence,
  has_evidence, audit_checks, skill_reject_approval_update, skill_validate_revision_transition,
  skill_validate_status_transition, skill_require_transition_audit, audit_supports_update,
  skill_checks,
}
use ori_skills_hub.Publication.Transitions.{insert_audits, audit_rows}
use ori_skills_hub.Lifecycle.{Call, progress, finish, step, run, written}
use ori_skills_hub.ScanQueue.Completion.{complete}
use ori_skills_hub.Scenarios.{
  alice, lease_pump, submitted_report, clean_report, at_time, scanned_calls, publish_pump,
}
use ori_skills_hub.Scenarios.Tables.{
  published, publish_step, new_scan, scan_event, pump_pending, pump_artifact, pump_audit,
}

abbrev pub leased_job : ScanJob
leased_job = record new_scan {
  lease_owner = some (codes "w1");
  lease_expires_at = some 30000200;
  attempt_count = 1;
  updated_at = 200;
}

abbrev pub claimed : Db
claimed = record published {
  jobs = leased_job ∷ [];
  events =
      scan_event (codes "event2") pending_submission 1 none
        (codes "job leased for bounded processing") [] (some (codes "w1")) 200
      ∷ published.events;
}

abbrev pub claimed_record : ScanJobRecord
claimed_record = record { job = leased_job; skill = pump_pending; artifact = pump_artifact }

pub claim_result :
    claim_due (codes "w1") 200 30 (codes "event2") 200 published ≡ ok (some claimed_record, claimed)
unfolding complete bounded strip stats_json find text_eq update_jobs any job_update_aborts
    job_reject_terminal_rewrite job_validate_state_transition job_validate_state_evidence job_checks
    digest_column insert_event update_where event_checks insert_audits claim_due
claim_result = refl

abbrev pub sent_job : ScanJob
sent_job = record leased_job {
  state = submitted;
  next_attempt_at = 300;
  detail = codes "sent";
  lease_owner = none;
  lease_expires_at = none;
  updated_at = 250;
  provider_analysis_id = some (codes "analysis");
  submitted_at = some 250;
}

abbrev pub sent : Db
sent = record claimed {
  jobs = sent_job ∷ [];
  events =
      scan_event (codes "event3") submitted 1 none (codes "sent") [] (some (codes "w1")) 250
      ∷ claimed.events;
}

pub progress_result :
    record_progress (submitted_report 300) 250 (codes "event3") 250 claimed ≡ ok sent
unfolding complete bounded strip stats_json find text_eq update_jobs any job_update_aborts
    job_reject_terminal_rewrite job_validate_state_transition job_validate_state_evidence job_checks
    digest_column insert_event update_where event_checks insert_audits record_progress
progress_result = refl

abbrev pub polled_job : ScanJob
polled_job = record sent_job {
  lease_owner = some (codes "w1");
  lease_expires_at = some 30000300;
  attempt_count = 2;
  updated_at = 300;
}

abbrev pub polled : Db
polled = record sent {
  jobs = polled_job ∷ [];
  events =
      scan_event (codes "event4") submitted 2 none (codes "job leased for bounded processing") []
        (some (codes "w1")) 300
      ∷ sent.events;
}

pub poll_step : step sent (lease_pump 300 (codes "event4")) ≡ polled
unfolding complete bounded strip stats_json find text_eq update_jobs any job_update_aborts
    job_reject_terminal_rewrite job_validate_state_transition job_validate_state_evidence job_checks
    digest_column insert_event update_where event_checks insert_audits step committed claim_due
poll_step = refl

abbrev pub clean_job : ScanJob
clean_job = record polled_job {
  state = ScanJobState.clean;
  verdict = some (codes "clean");
  detail = codes "ok";
  stats = (codes "harmless", 60) ∷ [];
  completed_at = some 350;
  last_polled_at = some 350;
  lease_owner = none;
  lease_expires_at = none;
  updated_at = 350;
}

abbrev pub pump_listed : SkillVersion
pump_listed = record pump_pending {
  status = listed;
  revision = 2;
  review_approved_at = some 350;
  review_approved_by = some (codes "w1");
  updated_at = 350;
}

abbrev listing_audit : SkillTransitionAudit
listing_audit = record pump_audit {
  id = codes "audit2";
  transition_number = 2;
  actor_id = codes "w1";
  prior_status = some pending_review;
  new_status = listed;
  reason = codes "ok";
  occurred_at = 350;
  idempotency_key = codes "scan:job:clean";
}

abbrev pub scanned : Db
scanned = record polled {
  skills = pump_listed ∷ [];
  audits = listing_audit ∷ polled.audits;
  jobs = clean_job ∷ [];
  events =
      scan_event (codes "event5") ScanJobState.clean 2 (some (codes "clean")) (codes "ok")
        ((codes "harmless", 60) ∷ []) (some (codes "w1")) 350
      ∷ polled.events;
}

pub finish_result : complete clean_report (at_time 350) polled ≡ ok (true, scanned)
unfolding complete bounded strip stats_json find text_eq update_jobs any job_update_aborts
    job_reject_terminal_rewrite job_validate_state_transition job_validate_state_evidence job_checks
    digest_column insert_event update_where event_checks insert_audits audit_rows insert_audit
    audit_validate_state audit_matches_skill audit_move audit_require_scan_evidence has_evidence
    audit_clashes audit_checks apply_audit apply_listing audit_hits skill_reject_approval_update
    listing_row skill_update_aborts skill_validate_revision_transition
    skill_validate_status_transition skill_require_transition_audit audit_supports_update
    skill_checks select check_deferred all
finish_result = refl

run_after :
    (db db' done : Db) (c : Call) (calls : List Call)
    → step db c ≡ db'
    → run db' calls ≡ done
    → run db (c ∷ calls) ≡ done
unfolding run
run_after db db' done c calls h k = ap (λ d. run d calls) h ∙ k

abbrev last_call : List Call
last_call = finish clean_report (at_time 350) ∷ []

abbrev last_two : List Call
last_two = lease_pump 300 (codes "event4") ∷ last_call

abbrev last_three : List Call
last_three = progress (submitted_report 300) 250 (codes "event3") 250 ∷ last_two

abbrev last_four : List Call
last_four = lease_pump 200 (codes "event2") ∷ last_three

-- The calls of the scenario lead to these tables.
pub scanned-run : run (empty_tables (alice ∷ [])) (scanned_calls false) ≡ scanned
unfolding step committed run
scanned-run = run_after _ published scanned (publish_pump false) last_four publish_step (
    run_after _ claimed scanned (lease_pump 200 (codes "event2")) last_three
      (ap (committed published) claim_result)
      (run_after _ sent scanned (progress (submitted_report 300) 250 (codes "event3") 250) last_two
        (ap (written claimed) progress_result)
        (run_after _ polled scanned (lease_pump 300 (codes "event4")) last_call poll_step (
          run_after _ scanned scanned (finish clean_report (at_time 350)) []
            (ap (committed polled) finish_result) refl))))
