-- ===== src/Lifecycle/History.antt =====
-- The audit log of one skill as a record of its status: replaying it gives the status and the
-- revision that the row of the skill has.
use ori_skills_hub.Prelude.{
  ℕ, ◌+◌, ◌≡◌, Text, Bool, true, false, ◌&&◌, Option, none, some, List, [], ◌∷◌, any, UniqueBy,
  select, All, text_eq, is_none, ◌==◌, if◌then◌else◌,
}
use ori_skills_hub.Core.{SkillStatus, listed, unlisted}
use ori_skills_hub.Database.{Db, SkillVersion, SkillTransitionAudit, ScanJob}
use ori_skills_hub.Database.Guards.{opt_status_eq, audit_move, is_evidence}

abbrev pub history : Text → List SkillTransitionAudit → List SkillTransitionAudit
history id = select (λ a. text_eq a.skill_version_id id)

-- One more audit row: the first opens the history, a later one moves from the status and the
-- revision that are reached.
unfoldable pub replay_one :
    Option (SkillStatus × ℕ) → SkillTransitionAudit → Option (SkillStatus × ℕ)
replay_one none a =
    if is_none a.prior_status && a.transition_number == 1
    then some (a.new_status, a.transition_number)
    else none
replay_one (some (status, revision)) a =
    if opt_status_eq a.prior_status status
      && (revision + 1) == a.transition_number
      && audit_move status a.new_status
    then some (a.new_status, a.transition_number)
    else none

-- The newest row is the first of the list.
unfoldable pub replay : List SkillTransitionAudit → Option (SkillStatus × ℕ)
replay [] = none
replay (a ∷ older) = replay_one (replay older) a

abbrev pub Recorded : List SkillTransitionAudit → SkillVersion → Type 0
Recorded audits s = replay (history s.id audits) ≡ some (s.status, s.revision)

-- The skill has been listed at some time.
abbrev pub was_listed : SkillStatus → Bool
was_listed listed = true
was_listed unlisted = true
was_listed _ = false

-- A listed skill that needs a scan has a job with evidence.
abbrev pub Evidenced : List ScanJob → SkillVersion → Type 0
Evidenced jobs s =
    s.requires_scan ≡ true
    → was_listed s.status ≡ true
    → any (λ j. text_eq j.artifact_id s.artifact_id && is_evidence j.state) jobs ≡ true

abbrev pub has_id : Text → SkillVersion → Bool
has_id id s = text_eq s.id id

abbrev pub skill_id : SkillVersion → Text
skill_id s = s.id

abbrev pub job_id : ScanJob → Text
job_id j = j.id

abbrev pub job_artifact : ScanJob → Text
job_artifact j = j.artifact_id

-- No two jobs share an identifier, or an artifact.
pub record UniqueJobs (jobs : List ScanJob) : Type 0 where
  pub by_id : UniqueBy job_id jobs
  pub by_artifact : UniqueBy job_artifact jobs

abbrev pub Owned : List SkillVersion → SkillTransitionAudit → Type 0
Owned skills a = any (has_id a.skill_version_id) skills ≡ true

pub record IsConsistent (db : Db) : Type 0 where
  pub unique_ids : UniqueBy skill_id db.skills
  pub unique_jobs : UniqueJobs db.jobs
  pub owned : All (Owned db.skills) db.audits
  pub recorded : All (Recorded db.audits) db.skills
  pub evidenced : All (Evidenced db.jobs) db.skills
