-- ===== src/ScanQueue/Exclusion.antt =====
-- hub/db/scans.py: how the claims of several workers meet.
use ori_skills_hub.Prelude.{
  ℕ, Memᴰ, All-map, ◌+◌, ◌*◌, ◌<◌, ◌≡◌, ◌≢◌, refl, sym, ap, subst, ◌∙◌, Text, true, false, Option,
  none, some, List, All, All-mem, All-update, All-intro, UniqueBy, UniqueBy-eq, strip, text_eq_iff,
  text_eq_refl, arith, ok, &&-split,
}
use ori_skills_hub.Database.{Db, ScanJob}
use ori_skills_hub.ScanQueue.{second, ScanJobRecord, is_due, leased, claims, claim_due}
use ori_skills_hub.ScanQueue.Leases.{Claimed, claim_due-Claimed}
use ori_skills_hub.ScanQueue.Idle.{claim_due-none}

leased-id : (owner : Text) (now expires : ℕ) (j : ScanJob) → (leased owner now expires j).id ≡ j.id
unfolding leased
leased-id owner now expires j = refl

claims-due : (now : ℕ) (c j : ScanJob) → j ≡ c → is_due now c ≡ true → claims now c j ≡ true
unfolding claims
claims-due now c j e d = rw e (ground (arith, text_eq_refl c.id))

claims-id : (now : ℕ) (c j : ScanJob) → claims now c j ≡ true → j.id ≡ c.id
unfolding claims
claims-id now c j h = (text_eq_iff _ _).0 (&&-split _ _ h).0

-- Every row of this job has a lease until then.
abbrev IsHeld : Text → ℕ → Db → Type 0
IsHeld id until db = All (λ j. j.id ≡ id → j.lease_expires_at ≡ some until) db.jobs

leased-until :
    (owner : Text) (now expires : ℕ) (j : ScanJob)
    → (leased owner now expires j).lease_expires_at ≡ some expires
unfolding leased
leased-until owner now expires j = refl

-- The claimed job is held in every row with its identifier.
Claimed-IsHeld :
    (owner : Text) (now expires : ℕ) (r : ScanJobRecord) (db db' : Db)
    → UniqueBy (λ (j : ScanJob). j.id) db.jobs
    → Claimed owner now expires db r db'
    → IsHeld r.job.id expires db'
Claimed-IsHeld owner now expires r db db' u c =
    subst (All (λ j. j.id ≡ r.job.id → j.lease_expires_at ≡ some expires)) (sym c.rows) (
      All-update (λ j. Unit {0}) (λ j. j.id ≡ r.job.id → j.lease_expires_at ≡ some expires)
        (claims now c.job) (leased owner now expires) db.jobs (trivial db.jobs)
        (λ j m _ hit same. leased-until owner now expires j)
        (λ j m _ miss same. cc (
          miss,
          claims-due now c.job j
              (UniqueBy-eq (λ (k : ScanJob). k.id) db.jobs j c.job u m c.chosen.present
                (same ∙ ap (λ (k : ScanJob). k.id) c.returned ∙ leased-id owner now expires c.job))
              c.chosen.due,
        )))
  where
    trivial : (jobs : List ScanJob) → All (λ (j : ScanJob). Unit {0}) jobs
    trivial jobs = All-intro (λ j. Unit {0}) jobs (λ _ _. tt)

-- What happens to the tables before a lease of this job runs out: claims of any workers, and steps
-- that leave the rows of this job as they are.
pub data Meanwhile (id : Text) (until : ℕ) : Db → Db → Type 0 where
  stay : {db : Db} → Meanwhile id until db db
  claims_at :
      {db db1 db2 : Db} {o : Option ScanJobRecord} (worker_id : Text) (now lease_seconds : ℕ)
      (event_id : Text) (stamp : ℕ)
      → now < until
      → claim_due worker_id now lease_seconds event_id stamp db ≡ ok (o, db1)
      → Meanwhile id until db1 db2
      → Meanwhile id until db db2
  others :
      {db db1 db2 : Db}
      → All (λ j. j.id ≡ id → Memᴰ j db.jobs) db1.jobs
      → Meanwhile id until db1 db2
      → Meanwhile id until db db2

held-not_due :
    (later until : ℕ) (j : ScanJob)
    → later < until
    → j.lease_expires_at ≡ some until
    → is_due later j ≡ false
unfolding is_due
held-not_due later until j h e = rw e (ground (arith, h))

claims-not_due : (now : ℕ) (c j : ScanJob) → is_due now j ≡ false → claims now c j ≡ false
unfolding claims
claims-not_due now c j h = rw h (ground arith)

-- A claim leaves a job alone that is held.
claim_due-keeps :
    (worker_id : Text) (now lease_seconds : ℕ) (event_id : Text) (stamp : ℕ) (id : Text) (until : ℕ)
    (o : Option ScanJobRecord) (db db' : Db)
    → now < until
    → claim_due worker_id now lease_seconds event_id stamp db ≡ ok (o, db')
    → IsHeld id until db
    → IsHeld id until db'
claim_due-keeps worker_id now lease_seconds event_id stamp id until none db db' lt h held =
    subst (IsHeld id until)
      (sym (claim_due-none worker_id now lease_seconds event_id stamp db db' h).1) held
claim_due-keeps worker_id now lease_seconds event_id stamp id until (some r) db db' lt h held =
    let (c, _, _) = claim_due-Claimed worker_id now lease_seconds event_id stamp r db db' h in
    subst (All (λ j. j.id ≡ id → j.lease_expires_at ≡ some until)) (sym c.rows) (
      All-update (λ j. j.id ≡ id → j.lease_expires_at ≡ some until)
        (λ j. j.id ≡ id → j.lease_expires_at ≡ some until) (claims now c.job)
        (leased (strip worker_id) now (now + lease_seconds * second)) db.jobs held
        (λ j m f hit same. cc (
          hit,
          claims-not_due now c.job j (
              held-not_due now until j lt (
                f (sym (leased-id (strip worker_id) now (now + lease_seconds * second) j) ∙ same))),
        ))
        (λ j m f miss same. f same))

Meanwhile-IsHeld :
    (id : Text) (until : ℕ) (db db' : Db)
    → Meanwhile id until db db'
    → IsHeld id until db
    → IsHeld id until db'
Meanwhile-IsHeld id until db db' stay held = held
Meanwhile-IsHeld id until db db'
      (claims_at {db = d} {db1 = db1} {o = o} worker_id now lease_seconds event_id stamp lt h rest)
      held =
    Meanwhile-IsHeld id until db1 db' rest
      (claim_due-keeps worker_id now lease_seconds event_id stamp id until o d db1 lt h held)
Meanwhile-IsHeld id until db db' (others {db = d} {db1 = db1} kept rest) held =
    Meanwhile-IsHeld id until db1 db' rest (
      All-map (λ j. j.id ≡ id → Memᴰ j d.jobs) (λ j. j.id ≡ id → j.lease_expires_at ≡ some until)
        db1.jobs
        (λ j f same.
          All-mem (λ k. k.id ≡ id → k.lease_expires_at ≡ some until) d.jobs j held (f same) same)
        kept)

-- While job identifiers are unique: after a claim, however many claims are made before its lease
-- runs out, by any workers, and whatever other steps leave the rows of the claimed job as they are, a
-- further claim before that time does not return that job.
pub claim_due-exclusive :
    (worker_id other_id : Text) (now lease_seconds later other_lease : ℕ)
    (event_id other_event : Text) (stamp other_stamp : ℕ) (r s : ScanJobRecord)
    (db db1 db2 db3 : Db)
    → UniqueBy (λ (j : ScanJob). j.id) db.jobs
    → claim_due worker_id now lease_seconds event_id stamp db ≡ ok (some r, db1)
    → Meanwhile r.job.id (now + lease_seconds * second) db1 db2
    → claim_due other_id later other_lease other_event other_stamp db2 ≡ ok (some s, db3)
    → later < now + lease_seconds * second
    → s.job.id ≢ r.job.id
claim_due-exclusive worker_id other_id now lease_seconds later other_lease event_id other_event
      stamp other_stamp r s db db1 db2 db3 u first between second_claim h same =
    let (c, _, _) = claim_due-Claimed worker_id now lease_seconds event_id stamp r db db1 first in
    let (d, _, _) =
      claim_due-Claimed other_id later other_lease other_event other_stamp s db2 db3 second_claim in
    let held =
      Meanwhile-IsHeld r.job.id (now + lease_seconds * second) db1 db2 between
        (Claimed-IsHeld _ now _ r db db1 u c) in
    let until =
      All-mem (λ j. j.id ≡ r.job.id → j.lease_expires_at ≡ some (now + lease_seconds * second))
        db2.jobs d.job held d.chosen.present
        (sym (ap (λ (k : ScanJob). k.id) d.returned ∙ leased-id _ later _ d.job) ∙ same) in
    cc (held-not_due later (now + lease_seconds * second) d.job h until, d.chosen.due)
