-- ===== src/ScanQueue/Ownership.antt =====
-- hub/db/scans.py: who may report on a job.
use ori_skills_hub.Prelude.{
  ℕ, ◌<◌, ◌≡◌, refl, ap, subst, Text, Bool, true, false, Option, none, some, Memᴰ, find, find-some,
  strip, ltb, text_eq_iff, arith, ok, >>=-eq-ok, &&-split,
}
use ori_skills_hub.Database.{Db, ScanJob}
use ori_skills_hub.Database.Guards.{opt_eq}
use ori_skills_hub.ScanQueue.{bounded}
use ori_skills_hub.ScanQueue.Reports.{owns, Progress, progresses, write_progress, record_progress}
use ori_skills_hub.ScanQueue.Leases.{bounded-eq}

-- The job is leased to the owner, and the lease has not expired.
pub record IsHeld (id owner : Text) (now : ℕ) (j : ScanJob) : Type 0 where
  pub same_id : j.id ≡ id
  pub holder : j.lease_owner ≡ some owner
  pub expires : ℕ
  pub lease : j.lease_expires_at ≡ some expires
  pub unexpired : now < expires

opt_eq-holder : (o : Option Text) (t : Text) → opt_eq o t ≡ true → o ≡ some t
opt_eq-holder none t h = cc
opt_eq-holder (some s) t h = ap some ((text_eq_iff s t).0 h)

abbrev later_than : ℕ → Option ℕ → Bool
later_than now o = elim o [ none ↦ false | some expires ↦ ltb now expires ]

later_than-some :
    (now : ℕ) (o : Option ℕ) → later_than now o ≡ true → (e : ℕ) × (o ≡ some e) × (now < e)
later_than-some now none h = cc
later_than-some now (some e) h = (e, refl, ground arith)

pub owns-IsHeld :
    (id owner : Text) (now : ℕ) (j : ScanJob) → owns id owner now j ≡ true → IsHeld id owner now j
unfolding owns
owns-IsHeld id owner now j h =
    let (h1, l) = &&-split _ _ h in
    let (i, o) = &&-split _ _ h1 in
    let (e, q, u) = later_than-some now j.lease_expires_at l in
    record {
      same_id = (text_eq_iff _ _).0 i;
      holder = opt_eq-holder j.lease_owner owner o;
      expires = e;
      lease = q;
      unexpired = u;
    }

write_progress-found :
    (p : Progress) (owner detail : Text) (now : ℕ) (event_id : Text) (stamp : ℕ)
    (o : Option ScanJob) (db db' : Db)
    → write_progress p owner detail now event_id stamp o db ≡ ok db'
    → (j : ScanJob) × (o ≡ some j)
unfolding write_progress
write_progress-found p owner detail now event_id stamp none db db' h = cc
write_progress-found p owner detail now event_id stamp (some j) db db' h = (j, refl)

-- A report of progress that succeeds was about a job that was leased to the reporting worker under
-- a lease that had not expired, and that was in one of the states that the report expects; so the
-- report of a worker whose lease has expired, or was taken over, is an error.
pub record_progress-IsHeld :
    (p : Progress) (now : ℕ) (event_id : Text) (stamp : ℕ) (db db' : Db)
    → record_progress p now event_id stamp db ≡ ok db'
    → (j : ScanJob) × Memᴰ j db.jobs
      × IsHeld p.job_id (strip p.worker_id) now j
      × (p.expected j.state ≡ true)
unfolding record_progress progresses
record_progress-IsHeld p now event_id stamp db db' h =
    let (owner, b, k) = >>=-eq-ok (bounded p.worker_id 255) _ h in
    let (detail, _, k1) = >>=-eq-ok (bounded p.detail 1024) _ k in
    let (j, f) =
      write_progress-found p owner detail now event_id stamp (find (progresses p owner now) db.jobs)
        db db' k1 in
    let (m, q) = find-some (progresses p owner now) db.jobs f in
    let (o, e) = &&-split _ _ q in
    (
      j,
      m,
      subst (λ w. IsHeld p.job_id w now j) (bounded-eq p.worker_id 255 owner b)
          (owns-IsHeld p.job_id owner now j o),
      e,
    )
