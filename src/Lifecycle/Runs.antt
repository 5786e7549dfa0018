-- ===== src/Lifecycle/Runs.antt =====
-- What holds after any sequence of calls, in any order and by any callers.
use ori_skills_hub.Prelude.{
  ◌≡◌, refl, true, List, [], ◌∷◌, All-mem, Memᴰ, Result, ok, err, any-true, &&-split, text_eq_iff,
  Bool-cases, inl, inr, UniqueBy-eq, sym, ap, ◌∙◌, false,
}
use ori_skills_hub.Database.{Db, DbError, Author, SkillVersion, ScanJob, committed, empty_tables}
use ori_skills_hub.Database.Guards.{is_evidence}
use ori_skills_hub.Publication.{create_publication}
use ori_skills_hub.Publication.Transitions.{transition_skill, increment_downloads}
use ori_skills_hub.ScanQueue.{claim_due}
use ori_skills_hub.ScanQueue.Reports.{record_progress}
use ori_skills_hub.ScanQueue.Completion.{complete}
use ori_skills_hub.Lifecycle.{
  Call, publish, transition, download, claim, progress, finish, written, step, run,
}
use ori_skills_hub.Lifecycle.History.{job_artifact, was_listed, IsConsistent, Evidenced}
use ori_skills_hub.Lifecycle.Frame.{IsFrame-IsConsistent}
use ori_skills_hub.Lifecycle.Invariant.{
  create_publication-IsConsistent, transition_skill-IsConsistent,
}
use ori_skills_hub.Lifecycle.ScanSteps.{
  increment_downloads-IsConsistent, record_progress-IsFrame, claim_due-IsFrame,
  complete-IsConsistent,
}

pub committed_keeps :
    {A : Type 0} (P : Db → Type 0) (db : Db) (o : Result DbError (A × Db))
    → P db
    → ((r : A × Db) → o ≡ ok r → P r.1)
    → P (committed db o)
unfolding committed
committed_keeps P db (ok (a, db')) h keep = keep (a, db') refl
committed_keeps P db (err e) h keep = h

pub written_keeps :
    (P : Db → Type 0) (db : Db) (o : Result DbError Db)
    → P db
    → ((db' : Db) → o ≡ ok db' → P db')
    → P (written db o)
written_keeps P db (ok db') h keep = keep db' refl
written_keeps P db (err e) h keep = h

step-IsConsistent : (db : Db) (c : Call) → IsConsistent db → IsConsistent (step db c)
unfolding step
step-IsConsistent db (publish ids now p) v =
    committed_keeps IsConsistent db (create_publication ids now p db) v
      (λ r h. create_publication-IsConsistent ids now p db r v h)
step-IsConsistent db (transition t) v =
    committed_keeps IsConsistent db (transition_skill t db) v
      (λ r h. transition_skill-IsConsistent t db r v h)
step-IsConsistent db (download name version now) v =
    committed_keeps IsConsistent db (increment_downloads name version now db) v
      (λ r h. increment_downloads-IsConsistent name version now db r v h)
step-IsConsistent db (claim worker now lease event_id stamp) v =
    committed_keeps IsConsistent db (claim_due worker now lease event_id stamp db) v (λ r h.
      IsFrame-IsConsistent db r.1 (claim_due-IsFrame worker now lease event_id stamp db r h) v)
step-IsConsistent db (progress p now event_id stamp) v =
    written_keeps IsConsistent db (record_progress p now event_id stamp db) v (λ db' h.
      IsFrame-IsConsistent db db' (record_progress-IsFrame p now event_id stamp db db' h) v)
step-IsConsistent db (finish c x) v =
    committed_keeps IsConsistent db (complete c x db) v (λ r h. complete-IsConsistent c x db r v h)

run-keeps : (db : Db) (calls : List Call) → IsConsistent db → IsConsistent (run db calls)
unfolding run
run-keeps db [] v = v
run-keeps db (c ∷ calls) v = run-keeps (step db c) calls (step-IsConsistent db c v)

empty_tables-IsConsistent : (authors : List Author) → IsConsistent (empty_tables authors)
empty_tables-IsConsistent authors = record {
  unique_ids = tt;
  unique_jobs = record { by_id = tt; by_artifact = tt };
  owned = tt;
  recorded = tt;
  evidenced = tt;
}

-- Whatever calls were made on empty tables, the identifiers of the skills differ from one another,
-- every audit row belongs to a skill, replaying the audit rows of a skill gives its status and its
-- revision, and a skill that needs a scan and is or was listed has a scan job in state clean,
-- manual_review or exhausted.
pub run-IsConsistent :
    (authors : List Author) (calls : List Call) → IsConsistent (run (empty_tables authors) calls)
run-IsConsistent authors calls =
    run-keeps (empty_tables authors) calls (empty_tables-IsConsistent authors)

-- A listed or unlisted skill that needs a scan has, after any calls, a scan job of its artifact whose
-- state is clean, manual_review or exhausted.
listed_has_evidence :
    (authors : List Author) (calls : List Call) (s : SkillVersion)
    → Memᴰ s (run (empty_tables authors) calls).skills
    → s.requires_scan ≡ true
    → was_listed s.status ≡ true
    → (j : ScanJob) × Memᴰ j (run (empty_tables authors) calls).jobs
      × (j.artifact_id ≡ s.artifact_id)
      × (is_evidence j.state ≡ true)
listed_has_evidence authors calls s m q w =
    let v = run-IsConsistent authors calls in
    let db = run (empty_tables authors) calls in
    let (j, n, e) =
      any-true _ db.jobs (All-mem (Evidenced db.jobs) db.skills s v.evidenced m q w) in
    let (i, ev) = &&-split _ _ e in (j, n, (text_eq_iff _ _).0 i, ev)

-- After any calls, a skill that needs a scan and whose scan job is not in the state clean,
-- manual_review or exhausted, which includes a malicious one, is neither listed nor unlisted.
pub unproven_is_not_listed :
    (authors : List Author) (calls : List Call) (s : SkillVersion) (j : ScanJob)
    → Memᴰ s (run (empty_tables authors) calls).skills
    → Memᴰ j (run (empty_tables authors) calls).jobs
    → s.requires_scan ≡ true
    → j.artifact_id ≡ s.artifact_id
    → is_evidence j.state ≡ false
    → was_listed s.status ≡ false
unproven_is_not_listed authors calls s j m n q same e = elim (Bool-cases (was_listed s.status)) [
  | inr never ↦ never
  | inl was ↦
      let (k, o, art, ev) = listed_has_evidence authors calls s m q was in
      let jobs = (run-IsConsistent authors calls).unique_jobs in
      let one = UniqueBy-eq job_artifact _ k j jobs.by_artifact o n (art ∙ sym same) in
      cc (ap (λ (i : ScanJob). is_evidence i.state) one, ev, e)
]
