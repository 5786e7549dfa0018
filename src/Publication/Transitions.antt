-- ===== src/Publication/Transitions.antt =====
-- hub/db/repository.py: `transition_skill` and `increment_downloads`.
use ori_skills_hub.Prelude.{
  ℕ, ◌+◌, Text, Bool, true, false, ◌&&◌, Option, none, some, List, [], ◌∷◌, find, select,
  update_where, text_eq, Result, ok, err, ◌>>=◌,
}
use ori_skills_hub.Core.{SkillStatus, pending_review, listed, rejected, unlisted, status_eq}
use ori_skills_hub.Database.{
  Db, Tx, Artifact, SkillVersion, SkillTransitionAudit, DbError, record_not_found,
  invalid_state_transition, integrity_as_conflict, multiple_results,
}
use ori_skills_hub.Database.Writes.{Write, insert_audit, check_deferred}
use ori_skills_hub.Publication.Inputs.{required, audit_reason}

unfoldable pub allowed_prior_status : SkillStatus → Option SkillStatus
allowed_prior_status listed = some pending_review
allowed_prior_status rejected = some pending_review
allowed_prior_status unlisted = some listed
allowed_prior_status pending_review = none

-- The row of the join, if the artifact is there.
abbrev pub join_row :
    (Artifact → SkillTransitionAudit)
    → Option Artifact
    → List SkillTransitionAudit
    → List SkillTransitionAudit
join_row make none rest = rest
join_row make (some art) rest = make art ∷ rest

-- `SELECT ... FROM skill_versions JOIN artifacts WHERE p`, one audit row for each row found.
unfoldable pub audit_rows :
    (SkillVersion → Bool)
    → (SkillVersion → Artifact → SkillTransitionAudit)
    → List Artifact
    → List SkillVersion
    → List SkillTransitionAudit
audit_rows p make artifacts [] = []
audit_rows p make artifacts (s ∷ skills) =
    let rest = audit_rows p make artifacts skills in
    elim (p s) [
      | false ↦ rest
      | true ↦ join_row (make s) (find (λ art. text_eq art.id s.artifact_id) artifacts) rest
    ]

-- `INSERT ... FROM SELECT`
unfoldable pub insert_audits : List SkillTransitionAudit → Db → Write
insert_audits [] db = ok db
insert_audits (a ∷ rest) db = insert_audit a db >>= insert_audits rest

-- The arguments of `transition_skill`, with the identifier and the time of the audit row.
pub record Transition : Type 0 where
  pub name : Text
  pub version : Text
  pub target_status : SkillStatus
  pub authenticated_actor_id : Text
  pub reason : Text
  pub correlation_id : Text
  pub idempotency_key : Text
  pub audit_id : Text
  pub now : ℕ

unfoldable pub is_version : Text → Text → SkillVersion → Bool
is_version name version s = text_eq s.name name && text_eq s.version version

unfoldable pub get_skill : Text → Text → Db → Result DbError SkillVersion
unfolding is_version
get_skill name version db = do
  clean_name ← required name
  clean_version ← required version
  elim (find (is_version clean_name clean_version) db.skills) [
    | none ↦ err record_not_found
    | some s ↦ ok s
  ]

-- The cleaned arguments.
abbrev pub clean_transition : Transition → Result DbError Transition
clean_transition t = do
  name ← required t.name
  version ← required t.version
  actor_id ← required t.authenticated_actor_id
  reason ← audit_reason t.reason
  correlation_id ← required t.correlation_id
  idempotency_key ← required t.idempotency_key
  ok (record t {
    name = name;
    version = version;
    authenticated_actor_id = actor_id;
    reason = reason;
    correlation_id = correlation_id;
    idempotency_key = idempotency_key;
  })

unfoldable pub transition_audit :
    Transition → SkillStatus → SkillVersion → Artifact → SkillTransitionAudit
transition_audit t prior s art = record {
  id = t.audit_id;
  skill_version_id = s.id;
  transition_number = s.revision + 1;
  actor_id = t.authenticated_actor_id;
  prior_status = some prior;
  new_status = t.target_status;
  reason = t.reason;
  occurred_at = t.now;
  correlation_id = t.correlation_id;
  idempotency_key = t.idempotency_key;
  artifact_digest = art.artifact_digest;
  manifest_digest = art.manifest_digest;
}

-- What follows `scalar_one_or_none` on the identifiers that the INSERT returned.
unfoldable pub finish_transition :
    Transition → List SkillTransitionAudit → Db → Result DbError (SkillVersion × Db)
unfolding get_skill
finish_transition t [] db = do _ ← get_skill t.name t.version db; err invalid_state_transition
finish_transition t (a ∷ b ∷ rest) db = err multiple_results
finish_transition t (a ∷ []) db = elim (find (λ s. text_eq s.id a.skill_version_id) db.skills) [
  | none ↦ err record_not_found
  | some s ↦ do db' ← check_deferred db; ok (s, db')
]

unfoldable pub transition_from : SkillStatus → Transition → Tx SkillVersion
unfolding is_version
transition_from prior raw db = do
  t ← clean_transition raw
  let rows =
      audit_rows (λ s. is_version t.name t.version s && status_eq s.status prior)
        (transition_audit t prior) db.artifacts db.skills
  integrity_as_conflict (insert_audits rows db >>= finish_transition t rows)

unfoldable pub transition_skill : Transition → Tx SkillVersion
unfolding transition_from
transition_skill t db = elim (allowed_prior_status t.target_status) [
  | none ↦ err invalid_state_transition
  | some prior ↦ transition_from prior t db
]

abbrev pub downloaded : ℕ → SkillVersion → SkillVersion
downloaded now s = record s { downloads = s.downloads + 1; updated_at = now }

unfoldable pub increment_downloads : Text → Text → ℕ → Tx ℕ
unfolding is_version get_skill
increment_downloads name version now db = do
  clean_name ← required name
  clean_version ← required version
  let hit = λ (s : SkillVersion). is_version clean_name clean_version s && status_eq s.status listed
  elim (select hit db.skills) [
    | [] ↦ do _ ← get_skill name version db; err invalid_state_transition
    | s ∷ [] ↦
        ok (s.downloads + 1, record db { skills = update_where hit (downloaded now) db.skills })
    | s ∷ t ∷ rest ↦ err multiple_results
  ]
