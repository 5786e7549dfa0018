-- ===== src/Lifecycle/Frame.antt =====
-- The writes that leave the skills and their audit log alone.
use ori_skills_hub.Prelude.{
  UniqueBy-update, has_key, ℕ, ◌≡◌, refl, sym, ap, subst, ◌∙◌, Text, Bool, true, false, ◌&&◌, ◌||◌,
  Option, none, some, List, [], ◌∷◌, any, any-false, any-true, any-intro, update_where,
  mem-update_where_miss, All-map, Memᴰ, text_eq, arith, ok, &&-split, >>=-eq-ok,
}
use ori_skills_hub.Core.{ScanJobState, is_terminal}
use ori_skills_hub.Database.{Db, Artifact, ScanJob, ScanEvent}
use ori_skills_hub.Database.Guards.{is_evidence}
use ori_skills_hub.Database.JobGuards.{job_reject_terminal_rewrite}
use ori_skills_hub.Database.Writes.{
  insert_artifact, insert_job, insert_event, update_jobs, job_update_aborts, check_deferred,
}
use ori_skills_hub.Publication.{NewIds, NewScanJob, admit_scan_job, new_job}
use ori_skills_hub.Lifecycle.History.{Evidenced, IsConsistent, UniqueJobs, job_id, job_artifact}

abbrev pub evidence_for : Text → ScanJob → Bool
evidence_for artifact_id j = text_eq j.artifact_id artifact_id && is_evidence j.state

-- The skills and audits stay, and no evidence is lost.
pub record IsFrame (db db' : Db) : Type 0 where
  pub same_skills : db'.skills ≡ db.skills
  pub same_audits : db'.audits ≡ db.audits
  pub keeps_unique : UniqueJobs db.jobs → UniqueJobs db'.jobs
  pub keeps_evidence :
      (artifact_id : Text)
      → any (evidence_for artifact_id) db.jobs ≡ true
      → any (evidence_for artifact_id) db'.jobs ≡ true

pub IsFrame-refl : (db : Db) → IsFrame db db
IsFrame-refl db = record {
  same_skills = refl;
  same_audits = refl;
  keeps_unique = λ u. u;
  keeps_evidence = λ _ h. h;
}

pub IsFrame-trans : {a b c : Db} → IsFrame a b → IsFrame b c → IsFrame a c
IsFrame-trans f g = record {
  same_skills = g.same_skills ∙ f.same_skills;
  same_audits = g.same_audits ∙ f.same_audits;
  keeps_unique = λ u. g.keeps_unique (f.keeps_unique u);
  keeps_evidence = λ id h. g.keeps_evidence id (f.keeps_evidence id h);
}

pub IsFrame-IsConsistent : (db db' : Db) → IsFrame db db' → IsConsistent db → IsConsistent db'
IsFrame-IsConsistent db db' f c = record {
  unique_ids = rw f.same_skills c.unique_ids;
  unique_jobs = f.keeps_unique c.unique_jobs;
  owned = rw (f.same_audits, f.same_skills) c.owned;
  recorded = rw (f.same_skills, f.same_audits) c.recorded;
  evidenced = rw f.same_skills (
      All-map (Evidenced db.jobs) (Evidenced db'.jobs) db.skills
        (λ s ev q w. f.keeps_evidence s.artifact_id (ev q w)) c.evidenced);
}

same_jobs-IsFrame :
    (db db' : Db)
    → db'.skills ≡ db.skills
    → db'.audits ≡ db.audits
    → db'.jobs ≡ db.jobs
    → IsFrame db db'
same_jobs-IsFrame db db' s a j = record {
  same_skills = s;
  same_audits = a;
  keeps_unique = λ u. rw j u;
  keeps_evidence = λ id h. rw j h;
}

pub insert_artifact-IsFrame :
    (a : Artifact) (db db' : Db) → insert_artifact a db ≡ ok db' → IsFrame db db'
unfolding insert_artifact
insert_artifact-IsFrame a db db' h =
    same_jobs-IsFrame db db' (ground arith) (ground arith) (ground arith)

pub insert_event-IsFrame :
    (e : ScanEvent) (db db' : Db) → insert_event e db ≡ ok db' → IsFrame db db'
unfolding insert_event
insert_event-IsFrame e db db' h =
    same_jobs-IsFrame db db' (ground arith) (ground arith) (ground arith)

pub insert_job-eq :
    (j : ScanJob) (db db' : Db) → insert_job j db ≡ ok db' → db' ≡ record db { jobs = j ∷ db.jobs }
unfolding insert_job
insert_job-eq j db db' h = ground arith

no_job_clash :
    (j : ScanJob) (jobs : List ScanJob)
    → any (λ k. text_eq k.id j.id || text_eq k.artifact_id j.artifact_id) jobs ≡ false
    → (any (has_key job_id j.id) jobs ≡ false)
      × (any (has_key job_artifact j.artifact_id) jobs ≡ false)
unfolding any
no_job_clash j [] h = (refl, refl)
no_job_clash j (k ∷ jobs) h =
    (ground (arith, no_job_clash j jobs), ground (arith, no_job_clash j jobs))

insert_job-fresh :
    (j : ScanJob) (db db' : Db)
    → insert_job j db ≡ ok db'
    → any (λ k. text_eq k.id j.id || text_eq k.artifact_id j.artifact_id) db.jobs ≡ false
unfolding insert_job
insert_job-fresh j db db' h = ground arith

pub insert_job-IsFrame : (j : ScanJob) (db db' : Db) → insert_job j db ≡ ok db' → IsFrame db db'
unfolding any
insert_job-IsFrame j db db' h =
    let e = insert_job-eq j db db' h in
    record {
      same_skills = ap (λ (d : Db). d.skills) e;
      same_audits = ap (λ (d : Db). d.audits) e;
      keeps_unique = λ u.
          let (i, a) = no_job_clash j db.jobs (insert_job-fresh j db db' h) in
          subst (λ (d : Db). UniqueJobs d.jobs) (sym e)
            (record { by_id = (i, u.by_id); by_artifact = (a, u.by_artifact) });
      keeps_evidence =
          λ id q. subst (λ (d : Db). any (evidence_for id) d.jobs ≡ true) (sym e) (ground arith);
    }

pub check_deferred-eq : (db db' : Db) → check_deferred db ≡ ok db' → db' ≡ db
unfolding check_deferred
check_deferred-eq db db' h = ground arith

evidence_is_terminal : (s : ScanJobState) → is_evidence s ≡ true → is_terminal s ≡ true
unfolding is_evidence
evidence_is_terminal s h = ground arith

terminal_aborts :
    (of_state : Bool) (old new : ScanJob)
    → is_terminal old.state ≡ true
    → job_update_aborts of_state old new ≡ true
unfolding job_update_aborts job_reject_terminal_rewrite
terminal_aborts of_state old new h = rw h

pub update_jobs-eq :
    (of_state : Bool) (p : ScanJob → Bool) (f : ScanJob → ScanJob) (db db' : Db)
    → update_jobs of_state p f db ≡ ok db'
    → (db' ≡ record db { jobs = update_where p f db.jobs })
      × (any (λ j. p j && job_update_aborts of_state j (f j)) db.jobs ≡ false)
unfolding update_jobs
update_jobs-eq of_state p f db db' h = (ground arith, ground arith)

-- No UPDATE reaches a terminal row.
pub update_jobs-terminal :
    (of_state : Bool) (p : ScanJob → Bool) (f : ScanJob → ScanJob) (db db' : Db) (j : ScanJob)
    → update_jobs of_state p f db ≡ ok db'
    → Memᴰ j db.jobs
    → is_terminal j.state ≡ true
    → Memᴰ j db'.jobs
update_jobs-terminal of_state p f db db' j h m t =
    let (e, clean) = update_jobs-eq of_state p f db db' h in
    let untouched = any-false (λ j. p j && job_update_aborts of_state j (f j)) db.jobs j clean m in
    subst (λ (d : Db). Memᴰ j d.jobs) (sym e)
      (mem-update_where_miss p f db.jobs j m
        (ground (arith, untouched, terminal_aborts of_state j (f j) t)))

-- A rewriting of jobs that leaves what identifies them.
pub record KeepsKeys (f : ScanJob → ScanJob) : Type 0 where
  pub same_id : (j : ScanJob) → (f j).id ≡ j.id
  pub same_artifact : (j : ScanJob) → (f j).artifact_id ≡ j.artifact_id

pub update_jobs-IsFrame :
    (of_state : Bool) (p : ScanJob → Bool) (f : ScanJob → ScanJob) (db db' : Db)
    → KeepsKeys f
    → update_jobs of_state p f db ≡ ok db'
    → IsFrame db db'
update_jobs-IsFrame of_state p f db db' keys h =
    let (e, _) = update_jobs-eq of_state p f db db' h in
    record {
      same_skills = ap (λ (d : Db). d.skills) e;
      same_audits = ap (λ (d : Db). d.audits) e;
      keeps_unique = λ u.
          subst (λ (d : Db). UniqueJobs d.jobs) (sym e)
            (record {
              by_id = UniqueBy-update job_id p f db.jobs keys.same_id u.by_id;
              by_artifact =
                  UniqueBy-update job_artifact p f db.jobs keys.same_artifact u.by_artifact;
            });
      keeps_evidence = λ id q.
          let (j, m, ev) = any-true (evidence_for id) db.jobs q in
          any-intro (evidence_for id) db'.jobs j
            (update_jobs-terminal of_state p f db db' j h m
              (evidence_is_terminal j.state (&&-split _ _ ev).1))
            ev;
    }

pub admit_scan_job-IsFrame :
    (ids : NewIds) (now : ℕ) (a : Artifact) (j : Option NewScanJob) (db db' : Db)
    → admit_scan_job ids now a j db ≡ ok db'
    → IsFrame db db'
unfolding admit_scan_job
admit_scan_job-IsFrame ids now a none db db' h = subst (IsFrame db) (ground arith) (IsFrame-refl db)
admit_scan_job-IsFrame ids now a (some j) db db' h =
    let (job, _, h1) = >>=-eq-ok (new_job a now j) _ h in
    let (db1, i, h2) = >>=-eq-ok (insert_job job db) _ h1 in
    IsFrame-trans (insert_job-IsFrame job db db1 i) (insert_event-IsFrame _ db1 db' h2)
