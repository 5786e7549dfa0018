-- ===== src/ScanQueue/Leases.antt =====
-- hub/db/scans.py: what a claim does, and how the claims of several workers meet.
use ori_skills_hub.Prelude.{
  ℕ, [], ◌∷◌, Bool-cases, inl, inr, All-map, text_eq, ◌+◌, ◌*◌, ◌≤◌, ◌≡◌, ◌≢◌, refl, sym, ap, subst,
  ◌∙◌, Text, Bool, true, false, ◌&&◌, Option, none, some, List, update_where, strip, leb, leb→le,
  text_eq_iff, arith, Result, ok, >>=-eq-ok, guard-eq-ok, &&-split,
}
use ori_skills_hub.Database.{Db, DbError, ScanJob, ScanEvent, value_error}
use ori_skills_hub.Database.Writes.{update_jobs, insert_event}
use ori_skills_hub.ScanQueue.{
  second, bounded, ScanJobRecord, joined, is_due, before, candidate, leased, claims, claim_event,
  announce_claim, claim_candidate, claim_due,
}
use ori_skills_hub.ScanQueue.Due.{
  IsDue, IsFirst, Precedes, is_due-IsDue, IsDue-is_due, before-Precedes,
}
use ori_skills_hub.ScanQueue.Order.{IsFirstDue, Chosen, candidate-Chosen}

pub bounded-eq :
    (value : Text) (maximum : ℕ) (t : Text) → bounded value maximum ≡ ok t → t ≡ strip value
unfolding bounded
bounded-eq value maximum t h = ground arith

joined-job : (db : Db) (j : ScanJob) (r : ScanJobRecord) → joined db j ≡ some r → r.job ≡ j
unfolding joined
joined-job db j r h = ground arith

-- A claim that returned a job, by the tests of the code.
pub record Claimed (owner : Text) (now expires : ℕ) (db : Db) (r : ScanJobRecord) (db' : Db)
    : Type 0 where
  pub job : ScanJob
  pub chosen : IsFirstDue now db.jobs job
  pub returned : r.job ≡ leased owner now expires job
  pub rows : db'.jobs ≡ update_where (claims now job) (leased owner now expires) db.jobs

update_jobs-rows :
    (of_state : Bool) (p : ScanJob → Bool) (f : ScanJob → ScanJob) (db db' : Db)
    → update_jobs of_state p f db ≡ ok db'
    → db'.jobs ≡ update_where p f db.jobs
unfolding update_jobs
update_jobs-rows of_state p f db db' h = ground arith

insert_event-jobs : (e : ScanEvent) (db db' : Db) → insert_event e db ≡ ok db' → db'.jobs ≡ db.jobs
unfolding insert_event
insert_event-jobs e db db' h = ground arith

pair-eq :
    (o p : Option ScanJobRecord) (a b : Db)
    → ◌≡◌ {A = Result DbError (Option ScanJobRecord × Db)} (ok (o, a)) (ok (p, b))
    → (o ≡ p) × (a ≡ b)
pair-eq o p a b h = (ground arith, ground arith)

announce_claim-facts :
    (owner event_id : Text) (stamp : ℕ) (o p : Option ScanJobRecord) (db db' : Db)
    → announce_claim owner event_id stamp o db ≡ ok (p, db')
    → (o ≡ p) × (db'.jobs ≡ db.jobs)
unfolding announce_claim
announce_claim-facts owner event_id stamp none p db db' h = cc
announce_claim-facts owner event_id stamp (some r) p db db' h =
    let (db1, i, k) = >>=-eq-ok (insert_event (claim_event event_id stamp owner r.job) db) _ h in
    let (e, f) = pair-eq (some r) p db1 db' k in
    (e, ap (λ (d : Db). d.jobs) (sym f) ∙ insert_event-jobs _ db db1 i)

claim_candidate-Claimed :
    (owner : Text) (now expires : ℕ) (event_id : Text) (stamp : ℕ) (o : Option ScanJob)
    (r : ScanJobRecord) (db db' : Db)
    → Chosen now db.jobs o
    → claim_candidate owner now expires event_id stamp o db ≡ ok (some r, db')
    → Claimed owner now expires db r db'
unfolding claim_candidate
claim_candidate-Claimed owner now expires event_id stamp none r db db' c h =
    cc (pair-eq none (some r) db db' h).0
claim_candidate-Claimed owner now expires event_id stamp (some j) r db db' c h =
    let (db1, u, k) =
      >>=-eq-ok (update_jobs false (claims now j) (leased owner now expires) db) _ h in
    let (e, rows) =
      announce_claim-facts owner event_id stamp (joined db1 (leased owner now expires j)) (some r)
        db1 db' k in
    record {
      job = j;
      chosen = c;
      returned = joined-job db1 _ r e;
      rows = rows ∙ update_jobs-rows false _ _ db db1 u;
    }

pub claim_due-Claimed :
    (worker_id : Text) (now lease_seconds : ℕ) (event_id : Text) (stamp : ℕ) (r : ScanJobRecord)
    (db db' : Db)
    → claim_due worker_id now lease_seconds event_id stamp db ≡ ok (some r, db')
    → Claimed (strip worker_id) now (now + lease_seconds * second) db r db'
      × (1 ≤ lease_seconds)
      × (lease_seconds ≤ 300)
unfolding claim_due
claim_due-Claimed worker_id now lease_seconds event_id stamp r db db' h =
    let (owner, b, k) = >>=-eq-ok (bounded worker_id 255) _ h in
    let (g, k1) = guard-eq-ok (leb 1 lease_seconds && leb lease_seconds 300) value_error _ k in
    let (lo, hi) = &&-split _ _ g in
    (
      subst (λ o. Claimed o now (now + lease_seconds * second) db r db')
          (bounded-eq worker_id 255 owner b)
          (claim_candidate-Claimed owner now _ event_id stamp (candidate now db.jobs) r db db'
            (candidate-Chosen now db.jobs) k1),
      leb→le _ _ lo,
      leb→le _ _ hi,
    )

-- A row that a claim has leased: only its lease, attempt count and updated_at are new.
pub record IsLeased (owner : Text) (now expires : ℕ) (before after : ScanJob) : Type 0 where
  pub owned : after.lease_owner ≡ some owner
  pub until : after.lease_expires_at ≡ some expires
  pub counted : after.attempt_count ≡ before.attempt_count + 1
  pub touched : after.updated_at ≡ now
  pub same_rest :
      record after {
        lease_owner = before.lease_owner;
        lease_expires_at = before.lease_expires_at;
        attempt_count = before.attempt_count;
        updated_at = before.updated_at;
      }
      ≡ before

leased-IsLeased :
    (owner : Text) (now expires : ℕ) (j : ScanJob)
    → IsLeased owner now expires j (leased owner now expires j)
unfolding leased
leased-IsLeased owner now expires j = record {
  owned = refl;
  until = refl;
  counted = refl;
  touched = refl;
  same_rest = refl;
}

-- Of the rows, those of the claimed job that are due are leased, and the others are as they were.
pub data IsRow (owner : Text) (now expires : ℕ) (job before after : ScanJob) : Type 0 where
  hit :
      before.id ≡ job.id
      → IsDue now before
      → IsLeased owner now expires before after
      → IsRow owner now expires job before after
  other_job : before.id ≢ job.id → after ≡ before → IsRow owner now expires job before after
  not_due : (IsDue now before → ⊥) → after ≡ before → IsRow owner now expires job before after

abbrev pub AreRows : Text → ℕ → ℕ → ScanJob → List ScanJob → List ScanJob → Type 0
AreRows owner now expires job [] [] = Unit
AreRows owner now expires job [] (k ∷ after) = ⊥
AreRows owner now expires job (j ∷ before) [] = ⊥
AreRows owner now expires job (j ∷ before) (k ∷ after) =
    IsRow owner now expires job j k × AreRows owner now expires job before after

-- A claim that returned a job.
pub record IsClaim (owner : Text) (now expires : ℕ) (db : Db) (r : ScanJobRecord) (db' : Db)
    : Type 0 where
  pub job : ScanJob
  pub chosen : IsFirst now db.jobs job
  pub returned : IsLeased owner now expires job r.job
  pub rows : AreRows owner now expires job db.jobs db'.jobs

leased-IsRow :
    (owner : Text) (now expires : ℕ) (job j : ScanJob) (b : Bool)
    → claims now job j ≡ b
    → IsRow owner now expires job j (elim b [ false ↦ j | true ↦ leased owner now expires j ])
unfolding claims
leased-IsRow owner now expires job j true e =
    let (same, due) = &&-split (text_eq j.id job.id) _ e in
    IsRow.hit ((text_eq_iff j.id job.id).0 same) (is_due-IsDue now j due)
      (leased-IsLeased owner now expires j)
leased-IsRow owner now expires job j false e = elim (Bool-cases (text_eq j.id job.id)) [
  | inl same ↦
      not_due
        (λ due.
          absurd_test
            (claims_of (text_eq j.id job.id) (is_due now j) same (IsDue-is_due now j due) e))
        refl
  | inr other ↦
      other_job (λ same. absurd_test (other_of other ((text_eq_iff j.id job.id).1 same))) refl
]
  where
    absurd_test : true ≡ false → ⊥
    absurd_test h = cc

    claims_of : (a b : Bool) → a ≡ true → b ≡ true → (a && b) ≡ false → true ≡ false
    claims_of a b p q h = ground (arith, p, q, h)

    other_of : text_eq j.id job.id ≡ false → text_eq j.id job.id ≡ true → true ≡ false
    other_of p q = sym q ∙ p

update_where-AreRows :
    (owner : Text) (now expires : ℕ) (job : ScanJob) (jobs : List ScanJob)
    → AreRows owner now expires job jobs
        (update_where (claims now job) (leased owner now expires) jobs)
unfolding update_where
update_where-AreRows owner now expires job [] = tt
update_where-AreRows owner now expires job (j ∷ jobs) = (
  leased-IsRow owner now expires job j (claims now job j) refl,
  update_where-AreRows owner now expires job jobs,
)

Claimed-IsClaim :
    (owner : Text) (now expires : ℕ) (db : Db) (r : ScanJobRecord) (db' : Db)
    → Claimed owner now expires db r db'
    → IsClaim owner now expires db r db'
Claimed-IsClaim owner now expires db r db' c = record {
  job = c.job;
  chosen = record {
    present = c.chosen.present;
    due = is_due-IsDue now c.job c.chosen.due;
    first =
        All-map (λ k. is_due now k ≡ true → before c.job k ≡ true)
          (λ k. IsDue now k → Precedes c.job k) db.jobs
          (λ k f due. before-Precedes c.job k (f (IsDue-is_due now k due))) c.chosen.first;
  };
  returned =
      subst (IsLeased owner now expires c.job) (sym c.returned)
        (leased-IsLeased owner now expires c.job);
  rows =
      subst (AreRows owner now expires c.job db.jobs) (sym c.rows)
        (update_where-AreRows owner now expires c.job db.jobs);
}

-- A claim that returns a job has leased, for the stripped worker name and for the requested time of 1
-- to 300 seconds, a job that was due: open, its next attempt reached, with no lease or one that had
-- run out. No due job comes before it, by next_attempt_at and then created_at. The returned job, and
-- the due rows with its identifier, have the new lease, one attempt more and the time of the claim,
-- and are otherwise as before; all other rows are as before.
pub claim_due-IsClaim :
    (worker_id : Text) (now lease_seconds : ℕ) (event_id : Text) (stamp : ℕ) (r : ScanJobRecord)
    (db db' : Db)
    → claim_due worker_id now lease_seconds event_id stamp db ≡ ok (some r, db')
    → IsClaim (strip worker_id) now (now + lease_seconds * second) db r db'
      × (1 ≤ lease_seconds)
      × (lease_seconds ≤ 300)
claim_due-IsClaim worker_id now lease_seconds event_id stamp r db db' h =
    let (c, lo, hi) = claim_due-Claimed worker_id now lease_seconds event_id stamp r db db' h in
    (Claimed-IsClaim (strip worker_id) now (now + lease_seconds * second) db r db' c, lo, hi)
