-- ===== src/ScanQueue/Idle.antt =====
-- hub/db/scans.py: a claim that returns nothing.
use ori_skills_hub.Prelude.{
  ℕ, ◌+◌, ◌*◌, ◌≡◌, Text, true, false, ◌&&◌, Option, none, some, leb, All-map, arith, ok, >>=-eq-ok,
  guard-eq-ok,
}
use ori_skills_hub.Database.{Db, ScanJob, value_error}
use ori_skills_hub.Database.Writes.{update_jobs, insert_event}
use ori_skills_hub.ScanQueue.{
  second, bounded, ScanJobRecord, joined, is_due, candidate, leased, claims, claim_event,
  announce_claim, claim_candidate, claim_due,
}
use ori_skills_hub.ScanQueue.Due.{IsDue, IsIdle, IsDue-is_due}
use ori_skills_hub.ScanQueue.Order.{NoneDue, Chosen, candidate-Chosen}

announce_claim-some :
    {A : Type 0} (owner event_id : Text) (stamp : ℕ) (o : Option ScanJobRecord) (db db' : Db)
    → announce_claim owner event_id stamp o db ≡ ok (none, db')
    → A
unfolding announce_claim
announce_claim-some owner event_id stamp none db db' h = cc
announce_claim-some owner event_id stamp (some r) db db' h =
    let (db1, _, k) = >>=-eq-ok (insert_event (claim_event event_id stamp owner r.job) db) _ h in
    cc (none_some (ground arith))
  where
    none_some : ◌≡◌ {A = Option ScanJobRecord} (some r) none → true ≡ false
    none_some h = cc

claim_candidate-none :
    (owner : Text) (now expires : ℕ) (event_id : Text) (stamp : ℕ) (o : Option ScanJob)
    (db db' : Db)
    → Chosen now db.jobs o
    → claim_candidate owner now expires event_id stamp o db ≡ ok (none, db')
    → NoneDue now db.jobs × (db' ≡ db)
unfolding claim_candidate
claim_candidate-none owner now expires event_id stamp none db db' c h = (c, ground arith)
claim_candidate-none owner now expires event_id stamp (some j) db db' c h =
    let (db1, u, k) =
      >>=-eq-ok (update_jobs false (claims now j) (leased owner now expires) db) _ h in
    announce_claim-some owner event_id stamp (joined db1 (leased owner now expires j)) db1 db' k

-- A claim returns None only when no job is due: each one is terminal, or its next attempt is still to
-- come, or it has a lease that has not run out. It has then changed nothing.
pub claim_due-none :
    (worker_id : Text) (now lease_seconds : ℕ) (event_id : Text) (stamp : ℕ) (db db' : Db)
    → claim_due worker_id now lease_seconds event_id stamp db ≡ ok (none, db')
    → IsIdle now db.jobs × (db' ≡ db)
unfolding claim_due
claim_due-none worker_id now lease_seconds event_id stamp db db' h =
    let (owner, _, k) = >>=-eq-ok (bounded worker_id 255) _ h in
    let (_, k1) = guard-eq-ok (leb 1 lease_seconds && leb lease_seconds 300) value_error _ k in
    let (idle, same) =
      claim_candidate-none owner now (now + lease_seconds * second) event_id stamp
        (candidate now db.jobs) db db' (candidate-Chosen now db.jobs) k1 in
    (
      All-map (λ k. is_due now k ≡ false) (λ k. IsDue now k → ⊥) db.jobs
          (λ k n due. none_due k n due) idle,
      same,
    )
  where
    none_due : (k : ScanJob) → is_due now k ≡ false → IsDue now k → ⊥
    none_due k n due = cc (n, IsDue-is_due now k due)
