-- ===== src/Lifecycle/Moves.antt =====
-- hub/db/repository.py: the audit row of a transition.
use ori_skills_hub.Prelude.{
  ℕ, ◌+◌, ◌≡◌, Bool, true, false, strip, &&-split, refl, sym, ap, subst, ◌∙◌, ◌&&◌, Option, none,
  some, List, [], ◌∷◌, find, All, All-mem, Memᴰ, text_eq, text_eq_iff, arith, ok,
}
use ori_skills_hub.Core.{
  SkillStatus, pending_review, listed, rejected, unlisted, status_eq, status_eq_iff,
}
use ori_skills_hub.Database.{Db, SkillVersion, Artifact, SkillTransitionAudit}
use ori_skills_hub.Publication.Inputs.{required}
use ori_skills_hub.Database.Writes.{insert_audit}
use ori_skills_hub.Publication.Transitions.{
  Transition, join_row, audit_rows, transition_audit, allowed_prior_status, is_version,
  clean_transition,
}
use ori_skills_hub.Lifecycle.History.{IsConsistent, Recorded, replay, replay_one, history}
use ori_skills_hub.Lifecycle.AuditStep.{history-hit, insert_audit-IsConsistent}
use ori_skills_hub.Lifecycle.Invariant.{join_row-All}
use ori_skills_hub.Lifecycle.Trail.Log.{insert_audit-tables}

pub replay_one-status :
    (o : Option (SkillStatus × ℕ)) (a : SkillTransitionAudit) (status : SkillStatus) (n : ℕ)
    → replay_one o a ≡ some (status, n)
    → status ≡ a.new_status
unfolding replay_one
replay_one-status none a status n h = ground arith
replay_one-status (some (prior, m)) a status n h = ground arith

-- The skill of a new audit row has the status that the row states.
pub insert_audit-status :
    (a : SkillTransitionAudit) (prior : SkillStatus) (s : SkillVersion) (db db' : Db)
    → a.prior_status ≡ some prior
    → IsConsistent db
    → insert_audit a db ≡ ok db'
    → Memᴰ s db'.skills
    → a.skill_version_id ≡ s.id
    → s.status ≡ a.new_status
unfolding replay
insert_audit-status a prior s db db' p c h m i =
    let recorded =
      All-mem (Recorded db'.audits) db'.skills s
        (insert_audit-IsConsistent a prior db db' p c h).recorded m in
    let log = (insert_audit-tables a db db' h).0 in
    replay_one-status (replay (history s.id db.audits)) a s.status s.revision
      (sym (ap replay (ap (history s.id) log ∙ history-hit s.id a db.audits i)) ∙ recorded)

pub same_status : (a b : SkillStatus) → ◌≡◌ {A = Option SkillStatus} (some a) (some b) → a ≡ b
same_status a b h = ground arith

-- The moves that the schema of the statuses allows.
pub data Allows : SkillStatus → SkillStatus → Type 0 where
  lists : Allows pending_review listed
  rejects : Allows pending_review rejected
  unlists : Allows listed unlisted

pub allowed_prior_status-Allows :
    (target prior : SkillStatus) → allowed_prior_status target ≡ some prior → Allows prior target
unfolding allowed_prior_status
allowed_prior_status-Allows pending_review prior h = cc
allowed_prior_status-Allows listed prior h =
    subst (λ s. Allows s listed) (same_status pending_review prior h) lists
allowed_prior_status-Allows rejected prior h =
    subst (λ s. Allows s rejected) (same_status pending_review prior h) rejects
allowed_prior_status-Allows unlisted prior h =
    subst (λ s. Allows s unlisted) (same_status listed prior h) unlists

-- The audit row of a transition, for a skill of its name and version that has the prior status.
pub record IsAudited (t : Transition) (prior : SkillStatus) (db : Db) (a : SkillTransitionAudit)
    : Type 0 where
  pub before : SkillVersion
  pub was_present : Memᴰ before db.skills
  pub was_named : before.name ≡ strip t.name
  pub was_versioned : before.version ≡ strip t.version
  pub had_prior : before.status ≡ prior
  pub of_skill : a.skill_version_id ≡ before.id
  pub from_prior : a.prior_status ≡ some prior
  pub to_target : a.new_status ≡ t.target_status
  pub by_actor : a.actor_id ≡ strip t.authenticated_actor_id
  pub next : a.transition_number ≡ before.revision + 1

-- Every row that is written is made of a skill that is selected.
pub audit_rows-All_selected :
    (P : SkillTransitionAudit → Type 0) (p : SkillVersion → Bool)
    (make : SkillVersion → Artifact → SkillTransitionAudit) (artifacts : List Artifact)
    (skills : List SkillVersion)
    → ((s : SkillVersion) (art : Artifact) → Memᴰ s skills → p s ≡ true → P (make s art))
    → All P (audit_rows p make artifacts skills)
unfolding audit_rows
audit_rows-All_selected P p make artifacts [] h = tt
audit_rows-All_selected P p make artifacts (s ∷ skills) h =
    go (p s) refl
      (audit_rows-All_selected P p make artifacts skills (λ k art m. h k art (Memᴰ.tail m)))
  where
    go :
        (b : Bool)
        → p s ≡ b
        → All P (audit_rows p make artifacts skills)
        → All P (elim b [
          | false ↦ audit_rows p make artifacts skills
          | true ↦
              join_row
                (make s)
                (find (λ art. text_eq art.id s.artifact_id) artifacts)
                (audit_rows p make artifacts skills)
        ])
    go false e rest = rest
    go true e rest =
        join_row-All P (make s) true (find (λ art. text_eq art.id s.artifact_id) artifacts)
          (audit_rows p make artifacts skills) (λ art. h s art (Memᴰ.head refl) e) rest

-- The texts of a transition are stripped.
pub clean_transition-texts :
    (raw t : Transition)
    → clean_transition raw ≡ ok t
    → (t.name ≡ strip raw.name)
      × (t.version ≡ strip raw.version)
      × (t.authenticated_actor_id ≡ strip raw.authenticated_actor_id)
      × (t.target_status ≡ raw.target_status)
unfolding required
clean_transition-texts raw t h = (ground arith, ground arith, ground arith, ground arith)

pub transition_audit-IsAudited :
    (prior : SkillStatus) (raw t : Transition) (db : Db) (s : SkillVersion) (art : Artifact)
    → clean_transition raw ≡ ok t
    → Memᴰ s db.skills
    → (is_version t.name t.version s && status_eq s.status prior) ≡ true
    → IsAudited raw prior db (transition_audit t prior s art)
unfolding transition_audit is_version
transition_audit-IsAudited prior raw t db s art ct m h =
    let (v, p) = &&-split _ (status_eq s.status prior) h in
    let (n, w) = &&-split (text_eq s.name t.name) _ v in
    let (cn, cv, ca, cs) = clean_transition-texts raw t ct in
    record {
      before = s;
      was_present = m;
      was_named = (text_eq_iff s.name t.name).0 n ∙ cn;
      was_versioned = (text_eq_iff s.version t.version).0 w ∙ cv;
      had_prior = (status_eq_iff s.status prior).0 p;
      of_skill = refl;
      from_prior = refl;
      to_target = cs;
      by_actor = ca;
      next = refl;
    }
