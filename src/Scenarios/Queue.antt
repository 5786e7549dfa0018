-- ===== src/Scenarios/Queue.antt =====
-- The theorems on the scan queue at concrete tables.
use ori_skills_hub.Prelude.{
  ◌+◌, ◌*◌, ◌≡◌, ◌≢◌, ◌≤◌, refl, none, some, [], ◌∷◌, codes, true, Memᴰ, ok, strip, arith, UniqueBy,
  any, text_eq, find, update_where,
}
use ori_skills_hub.Database.{Db, ScanJob}
use ori_skills_hub.Database.Writes.{update_jobs, job_update_aborts, insert_event}
use ori_skills_hub.Database.JobGuards.{
  job_reject_terminal_rewrite, job_validate_state_evidence, job_checks, event_checks,
}
use ori_skills_hub.Database.Guards.{digest_column}
use ori_skills_hub.ScanQueue.{bounded, second, ScanJobRecord, claim_due}
use ori_skills_hub.ScanQueue.Due.{IsIdle}
use ori_skills_hub.ScanQueue.Leases.{IsClaim, claim_due-IsClaim}
use ori_skills_hub.ScanQueue.Exclusion.{stay, claim_due-exclusive}
use ori_skills_hub.ScanQueue.Idle.{claim_due-none}
use ori_skills_hub.ScanQueue.Ownership.{IsHeld, record_progress-IsHeld}
use ori_skills_hub.Lifecycle.Trail.Results.{IsCompletion, complete-IsCompletion}
use ori_skills_hub.Scenarios.{submitted_report, clean_report, at_time}
use ori_skills_hub.Scenarios.Tables.{published, new_scan, pump_artifact, pump_pending}
use ori_skills_hub.Scenarios.Scanning.{
  claimed, claimed_record, claim_result, sent, progress_result, polled, finish_result, scanned,
}

claim_due-IsClaim_example :
    IsClaim (codes "w1") 200 (200 + 30 * second) published claimed_record claimed
    × (1 ≤ 30)
    × (30 ≤ 300)
unfolding strip
claim_due-IsClaim_example =
    claim_due-IsClaim (codes "w1") 200 30 (codes "event2") 200 claimed_record published claimed
      claim_result

-- Nothing is due while the only job is leased.
idle_result : claim_due (codes "w2") 210 30 (codes "event9") 210 claimed ≡ ok (none, claimed)
unfolding claim_due bounded strip
idle_result = refl

claim_due-none_example : IsIdle 210 claimed.jobs × (claimed ≡ claimed)
claim_due-none_example =
    claim_due-none (codes "w2") 210 30 (codes "event9") 210 claimed claimed idle_result

record_progress-IsHeld_example :
    (j : ScanJob) × Memᴰ j claimed.jobs
    × IsHeld (codes "job") (strip (codes "w1")) 250 j
    × ((submitted_report 300).expected j.state ≡ true)
record_progress-IsHeld_example =
    record_progress-IsHeld (submitted_report 300) 250 (codes "event3") 250 claimed sent
      progress_result

complete-IsCompletion_example : IsCompletion clean_report 350 polled scanned
complete-IsCompletion_example =
    complete-IsCompletion clean_report (at_time 350) polled scanned finish_result

abbrev other_scan : ScanJob
other_scan = record new_scan { id = codes "job2"; next_attempt_at = 150 }

abbrev two_jobs : Db
two_jobs = record published { jobs = new_scan ∷ other_scan ∷ [] }

abbrev one_leased : Db
one_leased = record claimed { jobs = claimed_record.job ∷ other_scan ∷ [] }

abbrev other_leased : ScanJob
other_leased = record other_scan {
  lease_owner = some (codes "w2");
  lease_expires_at = some 30000210;
  attempt_count = 1;
  updated_at = 210;
}

abbrev other_record : ScanJobRecord
other_record = record { job = other_leased; skill = pump_pending; artifact = pump_artifact }

abbrev both_leased : Db
both_leased = record one_leased {
  jobs = claimed_record.job ∷ other_leased ∷ [];
  events =
      record {
        id = codes "event8";
        scan_job_id = codes "job2";
        state = other_scan.state;
        attempt_count = 1;
        verdict = none;
        detail = codes "job leased for bounded processing";
        stats = [];
        worker_id = some (codes "w2");
        occurred_at = 210;
      }
      ∷ one_leased.events;
}

first_claim :
    claim_due (codes "w1") 200 30 (codes "event2") 200 two_jobs
    ≡ ok (some claimed_record, one_leased)
unfolding claim_due bounded strip update_jobs any text_eq job_update_aborts
    job_reject_terminal_rewrite job_validate_state_evidence job_checks digest_column find
    insert_event update_where event_checks
first_claim = refl

second_claim :
    claim_due (codes "w2") 210 30 (codes "event8") 210 one_leased
    ≡ ok (some other_record, both_leased)
unfolding claim_due bounded strip update_jobs any text_eq job_update_aborts
    job_reject_terminal_rewrite job_validate_state_evidence job_checks digest_column find
    insert_event update_where event_checks
second_claim = refl

two_jobs_unique : UniqueBy (λ (j : ScanJob). j.id) two_jobs.jobs
unfolding text_eq any
two_jobs_unique = (refl, (refl, tt))

claim_due-exclusive_example : other_record.job.id ≢ claimed_record.job.id
claim_due-exclusive_example =
    claim_due-exclusive (codes "w1") (codes "w2") 200 30 210 30 (codes "event2") (codes "event8")
      200 210 claimed_record other_record two_jobs one_leased one_leased both_leased two_jobs_unique
      first_claim stay second_claim (ground arith)
