-- ===== src/Lifecycle/Trail/Jobs.antt =====
-- The life of one scan job under any sequence of calls.
use ori_skills_hub.Prelude.{
  ◌≤◌, ◌≡◌, refl, sym, ap, subst, ◌∙◌, Text, Bool, true, false, ◌&&◌, Option, none, some, List,
  any-false, update_where, mem-update_where_miss, mem-update_where_hit, Memᴰ, arith, Bool-cases,
  inl, inr, text_eq_iff,
}
use native.Mathlib.Nat.{le_trans, le_refl}
use ori_skills_hub.Core.{ScanJobState, is_terminal, state_eq, state_eq_iff}
use ori_skills_hub.Database.{Db, ScanJob}
use ori_skills_hub.Database.Guards.{opt_eq}
use ori_skills_hub.Database.JobGuards.{
  job_move, job_validate_state_transition, job_validate_state_evidence,
}
use ori_skills_hub.Database.Writes.{job_update_aborts}
use ori_skills_hub.Lifecycle.{Call, run}
use ori_skills_hub.Lifecycle.Frame.{insert_job-eq, update_jobs-eq, update_jobs-terminal}
use ori_skills_hub.Lifecycle.Trail.{
  IsJobUpdate, Write1, artifact, job, event, audit, skill, jobs, downloads, Trail, here, next,
}
use ori_skills_hub.Lifecycle.Trail.Calls.{run-Trail}
use ori_skills_hub.Lifecycle.Trail.Log.{write-jobs}

-- The states that a job can reach by the moves of the schema.
pub data JobPath (s : ScanJobState) : ScanJobState → Type 0 where
  stay : JobPath s s
  move : {t u : ScanJobState} → JobPath s t → job_move t u ≡ true → JobPath s u

JobPath-trans : {s t u : ScanJobState} → JobPath s t → JobPath t u → JobPath s u
JobPath-trans p stay = p
JobPath-trans p (move q h) = move (JobPath-trans p q) h

-- A row that `j` has become.
pub record Continues (j k : ScanJob) : Type 0 where
  pub same_id : k.id ≡ j.id
  pub same_artifact : k.artifact_id ≡ j.artifact_id
  pub path : JobPath j.state k.state
  pub attempts : j.attempt_count ≤ k.attempt_count
  pub analysis : (id : Text) → j.provider_analysis_id ≡ some id → k.provider_analysis_id ≡ some id

Continues-refl : (j : ScanJob) → Continues j j
Continues-refl j = record {
  same_id = refl;
  same_artifact = refl;
  path = stay;
  attempts = le_refl j.attempt_count;
  analysis = λ id h. h;
}

Continues-trans : {j k l : ScanJob} → Continues j k → Continues k l → Continues j l
Continues-trans c d = record {
  same_id = d.same_id ∙ c.same_id;
  same_artifact = d.same_artifact ∙ c.same_artifact;
  path = JobPath-trans c.path d.path;
  attempts = le_trans c.attempts d.attempts;
  analysis = λ id h. d.analysis id (c.analysis id h);
}

allowed-state :
    (j k : ScanJob) → job_validate_state_transition j k ≡ false → JobPath j.state k.state
unfolding job_validate_state_transition
allowed-state j k h = elim (Bool-cases (state_eq k.state j.state)) [
  | inl same ↦ subst (JobPath j.state) (sym ((state_eq_iff _ _).0 same)) stay
  | inr other ↦ move stay (ground arith)
]

update-state :
    (of_state : Bool) (f : ScanJob → ScanJob) (j : ScanJob)
    → IsJobUpdate of_state f
    → job_update_aborts of_state j (f j) ≡ false
    → JobPath j.state (f j).state
unfolding job_update_aborts
update-state true f j u h = allowed-state j (f j) (ground arith)
update-state false f j u h = subst (JobPath j.state) (sym (u.state_kept refl j)) stay

opt_eq-some : (o : Option Text) (t : Text) → opt_eq o t ≡ true → o ≡ some t
opt_eq-some none t h = cc
opt_eq-some (some s) t h = ap some ((text_eq_iff s t).0 h)

kept-analysis :
    (of_state : Bool) (j k : ScanJob) (id : Text)
    → job_update_aborts of_state j k ≡ false
    → j.provider_analysis_id ≡ some id
    → k.provider_analysis_id ≡ some id
unfolding job_update_aborts job_validate_state_evidence
kept-analysis of_state j k id h e = opt_eq-some k.provider_analysis_id id (ground (arith, e))

update-Continues :
    (of_state : Bool) (f : ScanJob → ScanJob) (j : ScanJob)
    → IsJobUpdate of_state f
    → job_update_aborts of_state j (f j) ≡ false
    → Continues j (f j)
update-Continues of_state f j u h = record {
  same_id = u.keys.same_id j;
  same_artifact = u.keys.same_artifact j;
  path = update-state of_state f j u h;
  attempts = u.attempts j;
  analysis = λ id e. kept-analysis of_state j (f j) id h e;
}

-- Where the row of `j` is after one write.
abbrev Row : ScanJob → Db → Type 0
Row j db = (k : ScanJob) × Memᴰ k db.jobs × Continues j k

unchanged-Row : (j : ScanJob) (a b : Db) → b.jobs ≡ a.jobs → Memᴰ j a.jobs → Row j b
unchanged-Row j a b e m = (j, subst (Memᴰ j) (sym e) m, Continues-refl j)

update-Row :
    (of_state : Bool) (p : ScanJob → Bool) (f : ScanJob → ScanJob) (j : ScanJob) (a b : Db)
    → IsJobUpdate of_state f
    → b ≡ record a { jobs = update_where p f a.jobs }
    → (p j && job_update_aborts of_state j (f j)) ≡ false
    → Memᴰ j a.jobs
    → Row j b
update-Row of_state p f j a b u e clean m = subst (Row j) (sym e) (elim (Bool-cases (p j)) [
  | inl hit ↦ (
    f j,
    mem-update_where_hit p f a.jobs j m hit,
    update-Continues of_state f j u (ground (arith, clean, hit)),
  )
  | inr miss ↦ (j, mem-update_where_miss p f a.jobs j m miss, Continues-refl j)
])

write-Row : {a b : Db} (j : ScanJob) → Write1 a b → Memᴰ j a.jobs → Row j b
write-Row {a} {b} j (job k h) m =
    subst (Row j) (sym (insert_job-eq k a b h)) (j, Memᴰ.tail m, Continues-refl j)
write-Row {a} {b} j (jobs of_state p f u h) m =
    let (e, clean) = update_jobs-eq of_state p f a b h in
    update-Row of_state p f j a b u e (any-false _ a.jobs j clean m) m
write-Row {a} {b} j (artifact x h) m = unchanged-Row j a b (write-jobs (artifact x h) tt) m
write-Row {a} {b} j (event x h) m = unchanged-Row j a b (write-jobs (event x h) tt) m
write-Row {a} {b} j (audit x h) m = unchanged-Row j a b (write-jobs (audit x h) tt) m
write-Row {a} {b} j (skill x h) m = unchanged-Row j a b (write-jobs (skill x h) tt) m
write-Row {a} {b} j (downloads hit now e) m =
    unchanged-Row j a b (write-jobs (downloads hit now e) tt) m

Trail-Row : {a b : Db} (j : ScanJob) → Trail a b → Memᴰ j a.jobs → Row j b
Trail-Row j here m = (j, m, Continues-refl j)
Trail-Row j (next t w) m =
    let (k, n, c) = Trail-Row j t m in
    let (l, o, d) = write-Row k w n in (l, o, Continues-trans c d)

-- Whatever the calls, a job stays in the table under its identifier and its artifact, its state is
-- reached from its old one by the moves of the schema, its attempts do not fall, and an analysis
-- identifier that it has never changes.
pub run-Continues :
    (db : Db) (calls : List Call) (j : ScanJob)
    → Memᴰ j db.jobs
    → (k : ScanJob) × Memᴰ k (run db calls).jobs × Continues j k
run-Continues db calls j m = Trail-Row j (run-Trail db calls) m

write-terminal :
    {a b : Db} (j : ScanJob)
    → Write1 a b
    → is_terminal j.state ≡ true
    → Memᴰ j a.jobs
    → Memᴰ j b.jobs
write-terminal {a} {b} j (jobs of_state p f u h) t m = update_jobs-terminal of_state p f a b j h m t
write-terminal {a} {b} j (job k h) t m =
    subst (λ (d : Db). Memᴰ j d.jobs) (sym (insert_job-eq k a b h)) (Memᴰ.tail m)
write-terminal {a} {b} j (artifact x h) t m = subst (Memᴰ j) (sym (write-jobs (artifact x h) tt)) m
write-terminal {a} {b} j (event x h) t m = subst (Memᴰ j) (sym (write-jobs (event x h) tt)) m
write-terminal {a} {b} j (audit x h) t m = subst (Memᴰ j) (sym (write-jobs (audit x h) tt)) m
write-terminal {a} {b} j (skill x h) t m = subst (Memᴰ j) (sym (write-jobs (skill x h) tt)) m
write-terminal {a} {b} j (downloads hit now e) t m =
    subst (Memᴰ j) (sym (write-jobs (downloads hit now e) tt)) m

pub trail-terminal :
    {a b : Db} (j : ScanJob)
    → Trail a b
    → is_terminal j.state ≡ true
    → Memᴰ j a.jobs
    → Memᴰ j b.jobs
trail-terminal j here t m = m
trail-terminal j (next u w) t m = write-terminal j w t (trail-terminal j u t m)

-- No sequence of calls changes anything in the row of a job in a terminal state.
pub terminal_is_final :
    (db : Db) (calls : List Call) (j : ScanJob)
    → Memᴰ j db.jobs
    → is_terminal j.state ≡ true
    → Memᴰ j (run db calls).jobs
terminal_is_final db calls j m t = trail-terminal j (run-Trail db calls) t m
