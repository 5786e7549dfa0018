-- ===== src/ScanWorker/Invocation.antt =====
-- hub/core/scan_worker.py: `run_once`, the claim, the action that it leads to, and its ending.
use ori_skills_hub.Prelude.{◌+◌, Text, Bool, true, false, Option, none, some, Result, ok, err}
use ori_skills_hub.Database.{Db, DbError}
use ori_skills_hub.ScanQueue.{ScanJobRecord, claim_due}
use ori_skills_hub.ScanQueue.Reports.{record_submission, record_polling, record_retry}
use ori_skills_hub.ScanQueue.Completion.{CallContext, complete}
use ori_skills_hub.ScanWorker.{
  Policy, World, Metrics, Action, decide, as_completed, as_exhausted, report_submission,
  report_polling, report_retry, settle, crash,
}

abbrev pub no_result : Result DbError Db → Result DbError (Bool × Db)
no_result (ok db) = ok (false, db)
no_result (err e) = err e

-- The call that the action stands for. No other transaction comes between the two of a retry.
unfoldable pub perform : CallContext → Action → Db → Option (Result DbError (Bool × Db))
perform x (report_submission r id) db =
    some (no_result (record_submission r id x.now x.event_id x.stamp db))
perform x (report_polling r) db = some (no_result (record_polling r x.now x.event_id x.stamp db))
perform x (report_retry r) db = some (no_result (record_retry r x.now x.event_id x.stamp db db))
perform x (settle tally c) db = some (complete c x db)
perform x crash db = none

-- How an invocation ends: it returns whether there was a job, a repository call raises, or another
-- exception escapes.
pub data Ending : Type 0 where
  returned : Bool → Ending
  raised : DbError → Ending
  crashed : Ending

pub record Ran : Type 0 where
  pub ending : Ending
  pub tables : Db
  pub metrics : Metrics

unfoldable pub tallied : Action → Bool → Metrics → Metrics
tallied (settle as_completed c) true m = record m { completed = m.completed + 1 }
tallied (settle as_exhausted c) true m = record m { exhausted = m.exhausted + 1 }
tallied _ _ m = m

unfoldable pub ended : Action → Metrics → Db → Option (Result DbError (Bool × Db)) → Ran
unfolding tallied
ended a m db none = record { ending = crashed; tables = db; metrics = m }
ended a m db (some (err e)) = record { ending = raised e; tables = db; metrics = m }
ended a m db (some (ok (changed, db'))) = record {
  ending = returned true;
  tables = db';
  metrics = tallied a changed m;
}

abbrev pub act : World → Action × Metrics → Db → Ran
act w (a, m) db = ended a m db (perform w.context a db)

unfoldable pub after_claim :
    Policy → Text → World → Metrics → Db → Result DbError (Option ScanJobRecord × Db) → Ran
unfolding decide perform ended
after_claim p worker w m db (err e) = record { ending = raised e; tables = db; metrics = m }
after_claim p worker w m db (ok (none, db')) = record {
  ending = returned false;
  tables = db';
  metrics = m;
}
after_claim p worker w m db (ok (some r, db')) =
    act w (decide p worker w r.job (record m { claims = m.claims + 1 })) db'

-- The claim, the decision and the reports, with no transaction of anyone else between them.
unfoldable pub run_once : Policy → Text → World → Db → Metrics → Ran
unfolding after_claim
run_once p worker w db m =
    after_claim p worker w m db
      (claim_due worker w.claim_now p.lease_seconds w.claim_event_id w.claim_stamp db)
