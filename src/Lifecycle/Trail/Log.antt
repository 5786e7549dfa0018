-- ===== src/Lifecycle/Trail/Log.antt =====
-- How the logs and the artifacts of hub/db/_models.py grow, and which writes touch the jobs.
use ori_skills_hub.Prelude.{◌≡◌, refl, sym, ap, subst, List, [], ◌∷◌, ◌++◌, ok, arith}
use mathlib.Core.List.{append_assoc}
use ori_skills_hub.Database.{Db, Artifact, SkillTransitionAudit, ScanEvent}
use ori_skills_hub.Database.Writes.{
  insert_artifact, insert_audit, insert_event, apply_audit, apply_listing, apply_nonlisting,
}
use ori_skills_hub.Lifecycle.{Call, run}
use ori_skills_hub.Lifecycle.Frame.{insert_job-eq, update_jobs-eq}
use ori_skills_hub.Lifecycle.Creation.{insert_skill-facts}
use ori_skills_hub.Lifecycle.Trail.{
  Write1, artifact, job, event, audit, skill, jobs, downloads, Trail, here, next,
}
use ori_skills_hub.Lifecycle.Trail.Calls.{run-Trail}

-- The tables that one write leaves alone, all but the log growing at its head.
pub record GrowsLog (a b : Db) : Type 0 where
  pub audits : List SkillTransitionAudit
  pub artifacts : List Artifact
  pub events : List ScanEvent
  pub audit_log : b.audits ≡ audits ++ a.audits
  pub artifact_table : b.artifacts ≡ artifacts ++ a.artifacts
  pub event_log : b.events ≡ events ++ a.events

pub insert_audit-tables :
    (a : SkillTransitionAudit) (db db' : Db)
    → insert_audit a db ≡ ok db'
    → (db'.audits ≡ a ∷ db.audits)
      × (db'.artifacts ≡ db.artifacts)
      × (db'.events ≡ db.events)
      × (db'.jobs ≡ db.jobs)
unfolding insert_audit apply_audit apply_listing apply_nonlisting
insert_audit-tables a db db' h = (ground arith, ground arith, ground arith, ground arith)

insert_artifact-eq :
    (a : Artifact) (db db' : Db)
    → insert_artifact a db ≡ ok db'
    → record db { artifacts = a ∷ db.artifacts } ≡ db'
unfolding insert_artifact
insert_artifact-eq a db db' h = ground arith

insert_event-eq :
    (e : ScanEvent) (db db' : Db)
    → insert_event e db ≡ ok db'
    → record db { events = e ∷ db.events } ≡ db'
unfolding insert_event
insert_event-eq e db db' h = ground arith

same-GrowsLog :
    (a b : Db)
    → b.audits ≡ a.audits
    → b.artifacts ≡ a.artifacts
    → b.events ≡ a.events
    → GrowsLog a b
same-GrowsLog a b x y z = record {
  audits = [];
  artifacts = [];
  events = [];
  audit_log = x;
  artifact_table = y;
  event_log = z;
}

write-GrowsLog : {a b : Db} → Write1 a b → GrowsLog a b
write-GrowsLog {a} {b} (artifact x h) = subst (GrowsLog a) (insert_artifact-eq x a b h) (record {
  audits = [];
  artifacts = x ∷ [];
  events = [];
  audit_log = refl;
  artifact_table = refl;
  event_log = refl;
})
write-GrowsLog {a} {b} (job j h) =
    subst (GrowsLog a) (sym (insert_job-eq j a b h)) (same-GrowsLog a _ refl refl refl)
write-GrowsLog {a} {b} (event e h) = subst (GrowsLog a) (insert_event-eq e a b h) (record {
  audits = [];
  artifacts = [];
  events = e ∷ [];
  audit_log = refl;
  artifact_table = refl;
  event_log = refl;
})
write-GrowsLog {a} {b} (audit x h) =
    let (p, q, r, _) = insert_audit-tables x a b h in
    record {
      audits = x ∷ [];
      artifacts = [];
      events = [];
      audit_log = p;
      artifact_table = q;
      event_log = r;
    }
write-GrowsLog {a} {b} (skill s h) =
    subst (GrowsLog a) (sym (insert_skill-facts s a b h).0) (same-GrowsLog a _ refl refl refl)
write-GrowsLog {a} {b} (jobs of_state p f u h) =
    subst (GrowsLog a) (sym (update_jobs-eq of_state p f a b h).0)
      (same-GrowsLog a _ refl refl refl)
write-GrowsLog {a} {b} (downloads hit now e) =
    subst (GrowsLog a) e (same-GrowsLog a _ refl refl refl)

-- The writes of the other tables leave the jobs alone.
abbrev pub OtherTable : {a b : Db} → Write1 a b → Type 0
OtherTable (job j h) = ⊥
OtherTable (jobs of_state p f u h) = ⊥
OtherTable _ = Unit {0}

pub write-jobs : {a b : Db} (w : Write1 a b) → OtherTable w → b.jobs ≡ a.jobs
write-jobs {a} {b} (job j h) n = absurd n
write-jobs {a} {b} (jobs of_state p f u h) n = absurd n
write-jobs {a} {b} (artifact x h) n = ap (λ (d : Db). d.jobs) (sym (insert_artifact-eq x a b h))
write-jobs {a} {b} (event e h) n = ap (λ (d : Db). d.jobs) (sym (insert_event-eq e a b h))
write-jobs {a} {b} (audit x h) n = (insert_audit-tables x a b h).3
write-jobs {a} {b} (skill s h) n = ap (λ (d : Db). d.jobs) (insert_skill-facts s a b h).0
write-jobs {a} {b} (downloads hit now e) n = ap (λ (d : Db). d.jobs) (sym e)

GrowsLog-trans : {a b c : Db} → GrowsLog a b → GrowsLog b c → GrowsLog a c
GrowsLog-trans g h = record {
  audits = h.audits ++ g.audits;
  artifacts = h.artifacts ++ g.artifacts;
  events = h.events ++ g.events;
  audit_log = rw (h.audit_log, g.audit_log, append_assoc) refl;
  artifact_table = rw (h.artifact_table, g.artifact_table, append_assoc) refl;
  event_log = rw (h.event_log, g.event_log, append_assoc) refl;
}

Trail-GrowsLog : {a b : Db} → Trail a b → GrowsLog a b
Trail-GrowsLog {a} here = same-GrowsLog a a refl refl refl
Trail-GrowsLog (next t w) = GrowsLog-trans (Trail-GrowsLog t) (write-GrowsLog w)

-- Whatever the calls, the audit log, the scan events and the artifacts of before are still there,
-- unchanged and in order, behind what was added.
pub run-GrowsLog : (db : Db) (calls : List Call) → GrowsLog db (run db calls)
run-GrowsLog db calls = Trail-GrowsLog (run-Trail db calls)
