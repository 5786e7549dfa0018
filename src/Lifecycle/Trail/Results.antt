-- ===== src/Lifecycle/Trail/Results.antt =====
-- hub/db/scans.py: what a successful `complete` has done to the job.
use ori_skills_hub.Prelude.{
  ℕ, ◌≡◌, refl, sym, ap, subst, ◌∙◌, Bool, true, false, not, Option, none, some, Memᴰ, find,
  find-some, mem-update_where_hit, text_eq, if◌then◌else◌, strip, arith, Result, ok, err, >>=-eq-ok,
  guard-eq-ok, &&-split, not-true,
}
use ori_skills_hub.Core.{is_terminal}
use ori_skills_hub.Database.{Db, DbError, ScanJob, value_error, persistence_conflict}
use ori_skills_hub.Database.Writes.{update_jobs, insert_event}
use ori_skills_hub.ScanQueue.{bounded}
use ori_skills_hub.ScanQueue.Reports.{owns}
use ori_skills_hub.ScanQueue.Ownership.{IsHeld, owns-IsHeld}
use ori_skills_hub.ScanQueue.Leases.{bounded-eq}
use ori_skills_hub.ScanQueue.Evidence.{stats_json}
use ori_skills_hub.ScanQueue.Completion.{
  Completion, CallContext, CleanCompletion, completes, completed, completion_event,
  already_terminal, scan_target, finish_job, complete_job, clean_completion, complete,
}
use ori_skills_hub.Lifecycle.Frame.{update_jobs-eq}
use ori_skills_hub.Lifecycle.Invariant.{conflict-ok}
use ori_skills_hub.Lifecycle.Trail.{Trail-trans, Trail-one, event}
use ori_skills_hub.Lifecycle.Trail.Calls.{settle_to-Trail}
use ori_skills_hub.Lifecycle.Trail.Jobs.{trail-terminal}

-- The job that a worker has completed: before and after.
pub record IsCompletion (c : Completion) (now : ℕ) (db db' : Db) : Type 0 where
  pub before : ScanJob
  pub after : ScanJob
  pub present : Memᴰ before db.jobs
  pub held : IsHeld c.job_id (strip c.worker_id) now before
  pub unfinished : is_terminal before.state ≡ false
  pub stored : Memᴰ after db'.jobs
  pub same_id : after.id ≡ before.id
  pub state : after.state ≡ c.state
  pub final : is_terminal after.state ≡ true
  pub released : after.lease_owner ≡ none
  pub verdict : after.verdict ≡ some (strip c.verdict)

not_done :
    {A : Type 0} (b : Bool) (db db' : Db)
    → ◌≡◌ {A = Result DbError (Bool × Db)}
        (if b then ok (false, db) else err persistence_conflict)
        (ok (true, db'))
    → A
not_done true db db' h = cc (done h)
  where
    done : ◌≡◌ {A = Result DbError (Bool × Db)} (ok (false, db)) (ok (true, db')) → false ≡ true
    done h = ground arith
not_done false db db' h = cc

finish_job-row :
    (c : CleanCompletion) (x : CallContext) (o : Option ScanJob) (db : Db) (db' : Db)
    → is_terminal c.state ≡ true
    → o ≡ find (completes c x.now) db.jobs
    → finish_job c x o db ≡ ok (true, db')
    → (j : ScanJob) × Memᴰ j db.jobs
      × (completes c x.now j ≡ true)
      × Memᴰ (completed c x.now j) db'.jobs
unfolding finish_job completed
finish_job-row c x none db db' t f h =
    not_done (already_terminal (find (λ j. text_eq j.id c.job_id) db.jobs)) db db' h
finish_job-row c x (some j) db db' t f h =
    let (db1, u, k) = >>=-eq-ok (update_jobs true (completes c x.now) (completed c x.now) db) _ h in
    let (db2, e, k1) = >>=-eq-ok (insert_event (completion_event c x j) db1) _ k in
    let (m, q) = find-some (completes c x.now) db.jobs (sym f) in
    let (rows, _) = update_jobs-eq true _ _ db db1 u in
    let stored =
      subst (λ (d : Db). Memᴰ (completed c x.now j) d.jobs) (sym rows)
        (mem-update_where_hit (completes c x.now) (completed c x.now) db.jobs j m q) in
    let trail =
      Trail-trans (Trail-one (event _ e))
        (settle_to-Trail c x j (scan_target c.state) db2 (true, db') k1) in
    (j, m, q, trail-terminal (completed c x.now j) trail t stored)

clean_completion-facts :
    (c : Completion) (d : CleanCompletion)
    → clean_completion c ≡ ok d
    → (is_terminal c.state ≡ true)
      × (d.state ≡ c.state)
      × (d.job_id ≡ c.job_id)
      × (d.owner ≡ strip c.worker_id)
      × (d.verdict ≡ strip c.verdict)
unfolding clean_completion
clean_completion-facts c d h =
    let (t, k) = guard-eq-ok (is_terminal c.state) value_error _ h in
    let (owner, ho, k1) = >>=-eq-ok (bounded c.worker_id 255) _ k in
    let (detail, _, k2) = >>=-eq-ok (bounded c.detail 1024) _ k1 in
    let (stats, _, k3) = >>=-eq-ok (stats_json c.stats) _ k2 in
    let (verdict, hv, k4) = >>=-eq-ok (bounded c.verdict 32) _ k3 in
    let e = clean-eq _ d k4 in
    (
      t,
      ap (λ (x : CleanCompletion). x.state) (sym e),
      ap (λ (x : CleanCompletion). x.job_id) (sym e),
      ap (λ (x : CleanCompletion). x.owner) (sym e) ∙ bounded-eq c.worker_id 255 owner ho,
      ap (λ (x : CleanCompletion). x.verdict) (sym e) ∙ bounded-eq c.verdict 32 verdict hv,
    )
  where
    clean-eq :
        (a b : CleanCompletion) → ◌≡◌ {A = Result DbError CleanCompletion} (ok a) (ok b) → a ≡ b
    clean-eq a b h = ground arith

completed-IsCompletion :
    (c : Completion) (d : CleanCompletion) (now : ℕ) (db db' : Db) (j : ScanJob)
    → d.state ≡ c.state
    → d.job_id ≡ c.job_id
    → d.owner ≡ strip c.worker_id
    → d.verdict ≡ strip c.verdict
    → is_terminal c.state ≡ true
    → Memᴰ j db.jobs
    → completes d now j ≡ true
    → Memᴰ (completed d now j) db'.jobs
    → IsCompletion c now db db'
unfolding completes completed
completed-IsCompletion c d now db db' j st id ow ve t m q n =
    let (o, u) = &&-split (owns d.job_id d.owner now j) (not (is_terminal j.state)) q in
    record {
      before = j;
      after = completed d now j;
      present = m;
      held = rw (sym id, sym ow) (owns-IsHeld d.job_id d.owner now j o);
      unfinished = not-true _ u;
      stored = n;
      same_id = refl;
      state = st;
      final = subst (λ s. is_terminal s ≡ true) (sym st) t;
      released = refl;
      verdict = ap some ve;
    }

-- A completion that returns True was made by the worker that held the unexpired lease of a job in
-- a state that was not terminal, and the job is then in the requested terminal state, with the
-- verdict that was given and without a lease.
pub complete-IsCompletion :
    (c : Completion) (x : CallContext) (db db' : Db)
    → complete c x db ≡ ok (true, db')
    → IsCompletion c x.now db db'
unfolding complete complete_job
complete-IsCompletion c x db db' h =
    let (d, hd, k) = >>=-eq-ok (clean_completion c) _ h in
    let (t, st, id, ow, ve) = clean_completion-facts c d hd in
    let final = subst (λ s. is_terminal s ≡ true) (sym st) t in
    let (j, m, q, n) =
      finish_job-row d x (find (completes d x.now) db.jobs) db db' final refl (conflict-ok _ k) in
    completed-IsCompletion c d x.now db db' j st id ow ve t m q n
