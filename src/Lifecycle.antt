-- ===== src/Lifecycle.antt =====
-- The tables under any sequence of repository calls. Each call is one transaction, so a list of
-- calls is also any interleaving of several workers and web requests. `progress` stands for
-- `record_submission`, `record_polling` and the second transaction of `record_retry`.
pub mod History
pub mod AuditRow
pub mod AuditStep
pub mod Frame
pub mod Creation
pub mod Invariant
pub mod ScanSteps
pub mod Runs
pub mod Trail
pub mod Moves
pub mod Outcomes
pub mod Published
use ori_skills_hub.Prelude.{ℕ, Text, Result, ok, err, List, [], ◌∷◌, ◌>>=◌}
use ori_skills_hub.Database.{Db, DbError, committed}
use ori_skills_hub.Publication.{NewIds, NewPublication, create_publication}
use ori_skills_hub.Publication.Transitions.{Transition, transition_skill, increment_downloads}
use ori_skills_hub.ScanQueue.{claim_due}
use ori_skills_hub.ScanQueue.Reports.{Progress, record_progress}
use ori_skills_hub.ScanQueue.Completion.{Completion, CallContext, complete}

pub data Call : Type 0 where
  publish : NewIds → ℕ → NewPublication → Call
  transition : Transition → Call
  download : Text → Text → ℕ → Call
  claim : Text → ℕ → ℕ → Text → ℕ → Call
  progress : Progress → ℕ → Text → ℕ → Call
  finish : Completion → CallContext → Call

abbrev pub written : Db → Result DbError Db → Db
written db (ok db') = db'
written db (err e) = db

-- The tables after one call, whether it returns or raises.
unfoldable pub step : Db → Call → Db
step db (publish ids now p) = committed db (create_publication ids now p db)
step db (transition t) = committed db (transition_skill t db)
step db (download name version now) = committed db (increment_downloads name version now db)
step db (claim worker now lease event_id stamp) =
    committed db (claim_due worker now lease event_id stamp db)
step db (progress p now event_id stamp) = written db (record_progress p now event_id stamp db)
step db (finish c x) = committed db (complete c x db)

unfoldable pub run : Db → List Call → Db
run db [] = db
run db (c ∷ calls) = run (step db c) calls
