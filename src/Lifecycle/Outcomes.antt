-- ===== src/Lifecycle/Outcomes.antt =====
-- hub/db/repository.py: what a call that returns has found and left in the tables.
use ori_skills_hub.Prelude.{
  ◌≡◌, refl, sym, ap, subst, ◌∙◌, ◌&&◌, Option, none, some, List, [], ◌∷◌, find, find-some, All,
  Memᴰ, text_eq, text_eq_iff, arith, Result, ok, err, ◌>>=◌, >>=-eq-ok,
}
use ori_skills_hub.Core.{SkillStatus, status_eq}
use ori_skills_hub.Database.{
  Db, DbError, SkillVersion, SkillTransitionAudit, invalid_state_transition, record_not_found,
}
use ori_skills_hub.Database.Writes.{insert_audit, check_deferred}
use ori_skills_hub.Publication.Transitions.{
  Transition, audit_rows, insert_audits, transition_audit, allowed_prior_status, finish_transition,
  transition_from, transition_skill, is_version, clean_transition, get_skill,
}
use ori_skills_hub.Lifecycle.History.{IsConsistent}
use ori_skills_hub.Lifecycle.Frame.{check_deferred-eq}
use ori_skills_hub.Lifecycle.Invariant.{conflict-ok}
use ori_skills_hub.Lifecycle.Trail.Log.{insert_audit-tables}
use ori_skills_hub.Lifecycle.Moves.{
  Allows, allowed_prior_status-Allows, IsAudited, audit_rows-All_selected,
  transition_audit-IsAudited, insert_audit-status,
}

-- The transition has added its audit row, and returns the skill of that row, with the status that was
-- asked for.
pub record IsMoved (t : Transition) (db : Db) (r : SkillVersion × Db) : Type 0 where
  pub prior : SkillStatus
  pub allowed : Allows prior t.target_status
  pub audit : SkillTransitionAudit
  pub audited : IsAudited t prior db audit
  pub logged : r.1.audits ≡ audit ∷ db.audits
  pub present : Memᴰ r.0 r.1.skills
  pub same_skill : r.0.id ≡ audited.before.id
  pub moved : r.0.status ≡ t.target_status

ok-eq : {A : Type 0} (a b : A) → ◌≡◌ {A = Result DbError A} (ok a) (ok b) → a ≡ b
ok-eq a b h = ground arith

settled_rows :
    (prior : SkillStatus) (raw t : Transition) (rows : List SkillTransitionAudit) (db db' : Db)
    (r : SkillVersion × Db)
    → Allows prior raw.target_status
    → All (IsAudited raw prior db) rows
    → IsConsistent db
    → insert_audits rows db ≡ ok db'
    → finish_transition t rows db' ≡ ok r
    → IsMoved raw db r
unfolding insert_audits finish_transition
settled_rows prior raw t [] db db' r allowed stated c h k =
    let (_, _, e) = >>=-eq-ok (get_skill t.name t.version db') _ k in cc
settled_rows prior raw t (a ∷ b ∷ rest) db db' r allowed stated c h k = cc
settled_rows prior raw t (a ∷ []) db db' r allowed stated c h k =
    let (db1, i, e) = >>=-eq-ok (insert_audit a db) _ h in
    found (find (λ s. text_eq s.id a.skill_version_id) db'.skills) refl
      (subst (λ d. insert_audit a db ≡ ok d) (ok-eq db1 db' e) i) k
  where
    found :
        (o : Option SkillVersion)
        → find (λ s. text_eq s.id a.skill_version_id) db'.skills ≡ o
        → insert_audit a db ≡ ok db'
        → elim o [ none ↦ err record_not_found | some s ↦ check_deferred db' >>= λ d. ok (s, d) ]
          ≡ ok r
        → IsMoved raw db r
    found none f i h = cc
    found (some s) f i h =
        let (d, hd, e) = >>=-eq-ok (check_deferred db') _ h in
        let (m, q) =
          find-some (λ (s : SkillVersion). text_eq s.id a.skill_version_id) db'.skills f in
        subst (IsMoved raw db) (ok-eq (s, d) r e) (record {
          prior = prior;
          allowed = allowed;
          audit = a;
          audited = stated.0;
          logged =
              ap (λ (x : Db). x.audits) (check_deferred-eq db' d hd)
              ∙ (insert_audit-tables a db db' i).0;
          present = subst (λ (x : Db). Memᴰ s x.skills) (sym (check_deferred-eq db' d hd)) m;
          same_skill = (text_eq_iff _ _).0 q ∙ stated.0.of_skill;
          moved =
              insert_audit-status a prior s db db' stated.0.from_prior c i m
                (sym ((text_eq_iff _ _).0 q))
              ∙ stated.0.to_target;
        })

transition_from-IsMoved :
    (prior : SkillStatus) (raw : Transition) (db : Db) (r : SkillVersion × Db)
    → Allows prior raw.target_status
    → IsConsistent db
    → transition_from prior raw db ≡ ok r
    → IsMoved raw db r
unfolding transition_from
transition_from-IsMoved prior raw db r allowed c h =
    let (t, ct, k) = >>=-eq-ok (clean_transition raw) _ h in
    let rows =
      audit_rows (λ s. is_version t.name t.version s && status_eq s.status prior)
        (transition_audit t prior) db.artifacts db.skills in
    let (db', i, k1) = >>=-eq-ok (insert_audits rows db) _ (conflict-ok _ k) in
    settled_rows prior raw t rows db db' r allowed
      (audit_rows-All_selected (IsAudited raw prior db) _ (transition_audit t prior) db.artifacts
        db.skills (λ s art m e. transition_audit-IsAudited prior raw t db s art ct m e))
      c i k1

-- If the tables were consistent, a transition that returns has found a skill of the stripped name and
-- version in the prior status that the move needs, `pending_review` for listing and rejecting and
-- `listed` for unlisting; it has added one audit row, of this skill, move and actor; and it returns
-- the skill's row of the tables, with the requested status.
pub transition_skill-IsMoved :
    (t : Transition) (db : Db) (r : SkillVersion × Db)
    → IsConsistent db
    → transition_skill t db ≡ ok r
    → IsMoved t db r
unfolding transition_skill
transition_skill-IsMoved t db r c h = go (allowed_prior_status t.target_status) refl h
  where
    go :
        (o : Option SkillStatus)
        → allowed_prior_status t.target_status ≡ o
        → elim o [ none ↦ err invalid_state_transition | some prior ↦ transition_from prior t db ]
          ≡ ok r
        → IsMoved t db r
    go none e h = cc
    go (some prior) e h =
        transition_from-IsMoved prior t db r (allowed_prior_status-Allows t.target_status prior e) c
          h
