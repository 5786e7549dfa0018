-- ===== src/ScanQueue.antt =====
-- hub/db/scans.py: `get` and `claim_due` of ScanRepository. `now` stands for the clock that the operation
-- reads, `event_id` for `new_record_id()`, and `stamp` for the database's CURRENT_TIMESTAMP.
pub mod Evidence
pub mod Completion
pub mod Order
pub mod Due
pub mod Leases
pub mod Exclusion
pub mod Ownership
pub mod Idle
pub mod Reports
use ori_skills_hub.Prelude.{
  ℕ, ◌+◌, ◌*◌, ◌≤◌, Text, Bool, true, false, not, ◌&&◌, ◌||◌, Option, none, some, List, [], ◌∷◌,
  find, length, is_nil, codes, strip, text_eq, ltb, leb, ◌==◌, Result, ok, err, ◌>>=◌, ◌>>◌, guard,
  reject, if◌then◌else◌,
}
use ori_skills_hub.Core.{is_terminal}
use ori_skills_hub.Database.{
  Db, Tx, SkillVersion, Artifact, ScanJob, ScanEvent, DbError, value_error, record_not_found,
}
use ori_skills_hub.Database.Writes.{update_jobs, insert_event}

-- One second in the unit of the timestamps.
abbrev pub second : ℕ
second = 1000000

unfoldable pub bounded : Text → ℕ → Result DbError Text
bounded value maximum = do
  let clean = strip value
  reject (is_nil clean) value_error
  guard (leb (length clean) maximum) value_error
  ok clean

-- The row of a job with those of its skill and its artifact.
pub record ScanJobRecord : Type 0 where
  pub job : ScanJob
  pub skill : SkillVersion
  pub artifact : Artifact

-- `_joined_job`, for one job.
unfoldable pub joined : Db → ScanJob → Option ScanJobRecord
joined db j = elim (find (λ art. text_eq art.id j.artifact_id) db.artifacts) [
  | none ↦ none
  | some art ↦ elim (find (λ s. text_eq s.artifact_id art.id) db.skills) [
    | none ↦ none
    | some s ↦ some (record { job = j; skill = s; artifact = art })
  ]
]

unfoldable pub get : Text → Db → Result DbError ScanJobRecord
unfolding joined
get job_id db = elim (find (λ j. text_eq j.id (strip job_id)) db.jobs) [
  | none ↦ err record_not_found
  | some j ↦ elim (joined db j) [ none ↦ err record_not_found | some r ↦ ok r ]
]

-- The WHERE clause of `claim_due`.
unfoldable pub is_due : ℕ → ScanJob → Bool
is_due now j =
    not (is_terminal j.state)
    && leb j.next_attempt_at now
    && elim j.lease_expires_at [ none ↦ true | some expires ↦ leb expires now ]

-- ORDER BY next_attempt_at, created_at
unfoldable pub before : ScanJob → ScanJob → Bool
before a b =
    ltb a.next_attempt_at b.next_attempt_at
    || a.next_attempt_at == b.next_attempt_at && leb a.created_at b.created_at

-- The first due job in that order; SQL leaves open which of several equal ones it is.
unfoldable pub candidate : ℕ → List ScanJob → Option ScanJob
unfolding is_due before
candidate now [] = none
candidate now (j ∷ js) =
    let rest = candidate now js in
    elim (is_due now j) [
      | false ↦ rest
      | true ↦ elim rest [ none ↦ some j | some k ↦ if before j k then some j else some k ]
    ]

unfoldable pub leased : Text → ℕ → ℕ → ScanJob → ScanJob
leased owner now expires j = record j {
  lease_owner = some owner;
  lease_expires_at = some expires;
  attempt_count = j.attempt_count + 1;
  updated_at = now;
}

abbrev pub claim_event : Text → ℕ → Text → ScanJob → ScanEvent
claim_event event_id stamp owner j = record {
  id = event_id;
  scan_job_id = j.id;
  state = j.state;
  attempt_count = j.attempt_count;
  verdict = j.verdict;
  detail = codes "job leased for bounded processing";
  stats = j.stats;
  worker_id = some owner;
  occurred_at = stamp;
}

unfoldable pub claims : ℕ → ScanJob → ScanJob → Bool
claims now c j = text_eq j.id c.id && is_due now j

-- The read of the leased row, and the event.
unfoldable pub announce_claim : Text → Text → ℕ → Option ScanJobRecord → Tx (Option ScanJobRecord)
announce_claim owner event_id stamp none db = err record_not_found
announce_claim owner event_id stamp (some r) db = do
  db' ← insert_event (claim_event event_id stamp owner r.job) db
  ok (some r, db')

unfoldable pub claim_candidate :
    Text → ℕ → ℕ → Text → ℕ → Option ScanJob → Tx (Option ScanJobRecord)
unfolding joined leased claims announce_claim
claim_candidate owner now expires event_id stamp none db = ok (none, db)
claim_candidate owner now expires event_id stamp (some c) db = do
  db1 ← update_jobs false (claims now c) (leased owner now expires) db
  announce_claim owner event_id stamp (joined db1 (leased owner now expires c)) db1

unfoldable pub claim_due : Text → ℕ → ℕ → Text → ℕ → Tx (Option ScanJobRecord)
unfolding candidate claim_candidate
claim_due worker_id now lease_seconds event_id stamp db = do
  owner ← bounded worker_id 255
  guard (leb 1 lease_seconds && leb lease_seconds 300) value_error
  claim_candidate owner now (now + lease_seconds * second) event_id stamp (candidate now db.jobs) db
