-- ===== src/Lifecycle/Invariant.antt =====
-- Every call of the repositories keeps the tables consistent.
use ori_skills_hub.Prelude.{
  ℕ, ◌≡◌, refl, sym, ap, subst, ◌∙◌, Text, Bool, true, false, ◌&&◌, Option, none, some, List, [],
  ◌∷◌, All, arith, Result, ok, >>=-eq-ok,
}
use ori_skills_hub.Core.{SkillStatus, listed, status_eq, pending_review}
use ori_skills_hub.Database.{
  Db, DbError, Artifact, SkillVersion, SkillTransitionAudit, integrity_as_conflict,
}
use ori_skills_hub.Database.Writes.{insert_audit, check_deferred}
use ori_skills_hub.Publication.{
  NewIds, NewPublication, check_publication, new_artifact, new_skill, initial_audit,
  write_publication, create_publication,
}
use ori_skills_hub.Publication.Inputs.{required}
use ori_skills_hub.Publication.Transitions.{
  Transition, join_row, audit_rows, insert_audits, transition_audit, allowed_prior_status,
  finish_transition, transition_from, transition_skill, is_version, clean_transition,
}
use ori_skills_hub.Lifecycle.History.{IsConsistent}
use ori_skills_hub.Lifecycle.AuditStep.{insert_audit-IsConsistent}
use ori_skills_hub.Lifecycle.Creation.{Opens, write_publication-IsConsistent}

new_skill-opened :
    (ids : NewIds) (now : ℕ) (p : NewPublication) (actor : Text) (s : SkillVersion)
    → new_skill ids now p actor ≡ ok s
    → (s.id ≡ ids.skill) × (s.status ≡ p.initial_status) × (s.revision ≡ 1)
unfolding new_skill
new_skill-opened ids now p actor s h = ground arith

initial_audit-opens :
    (ids : NewIds) (now : ℕ) (p : NewPublication) (actor : Text) (art : Artifact)
    (a : SkillTransitionAudit)
    → initial_audit ids now p actor art ≡ ok a
    → (a.skill_version_id ≡ ids.skill)
      × (a.prior_status ≡ none)
      × (a.transition_number ≡ 1)
      × (a.new_status ≡ p.initial_status)
unfolding initial_audit
initial_audit-opens ids now p actor art a h = ground arith

pub conflict-ok :
    {A : Type 0} (r : Result DbError A) {a : A} → integrity_as_conflict r ≡ ok a → r ≡ ok a
conflict-ok r h = ground arith

pub returned-eq :
    {A : Type 0} (a : A) (db' : Db) (r : A × Db)
    → ◌≡◌ {A = Result DbError (A × Db)} (ok (a, db')) (ok r)
    → db' ≡ r.1
returned-eq a db' r h = ground arith

pub create_publication-IsConsistent :
    (ids : NewIds) (now : ℕ) (p : NewPublication) (db : Db) (r : SkillVersion × Db)
    → IsConsistent db
    → create_publication ids now p db ≡ ok r
    → IsConsistent r.1
unfolding create_publication
create_publication-IsConsistent ids now p db r c h =
    let (_, _, k1) = >>=-eq-ok (check_publication p) _ h in
    let (actor, _, k2) = >>=-eq-ok (required p.authenticated_actor_id) _ k1 in
    let (art, _, k3) = >>=-eq-ok (new_artifact ids now p) _ k2 in
    let (s, hs, k4) = >>=-eq-ok (new_skill ids now p actor) _ k3 in
    let (a, ha, k5) = >>=-eq-ok (initial_audit ids now p actor art) _ k4 in
    let (db', hw, k6) =
      >>=-eq-ok (integrity_as_conflict (write_publication ids now p art a s db)) _ k5 in
    let (si, ss, sr) = new_skill-opened ids now p actor s hs in
    let (ai, ap, an, as') = initial_audit-opens ids now p actor art a ha in
    let opens : Opens a s = record {
      same_skill = ai ∙ sym si;
      no_prior = ap;
      first = an;
      revision_one = sr;
      same_status = as' ∙ sym ss;
    } in
    subst IsConsistent (returned-eq s db' r k6)
      (write_publication-IsConsistent ids now p art a s db db' opens c (conflict-ok _ hw))

pub join_row-All :
    (P : SkillTransitionAudit → Type 0) (make : Artifact → SkillTransitionAudit) (b : Bool)
    (o : Option Artifact) (rest : List SkillTransitionAudit)
    → ((art : Artifact) → P (make art))
    → All P rest
    → All P (elim b [ false ↦ rest | true ↦ join_row make o rest ])
join_row-All P make false o rest h a = a
join_row-All P make true none rest h a = a
join_row-All P make true (some art) rest h a = (h art, a)

pub audit_rows-All :
    (P : SkillTransitionAudit → Type 0) (p : SkillVersion → Bool)
    (make : SkillVersion → Artifact → SkillTransitionAudit) (artifacts : List Artifact)
    (skills : List SkillVersion)
    → ((s : SkillVersion) (art : Artifact) → P (make s art))
    → All P (audit_rows p make artifacts skills)
unfolding audit_rows
audit_rows-All P p make artifacts [] h = tt
audit_rows-All P p make artifacts (s ∷ skills) h =
    join_row-All P (make s) (p s) _ (audit_rows p make artifacts skills) (h s)
      (audit_rows-All P p make artifacts skills h)

pub insert_audits-IsConsistent :
    (prior : SkillStatus) (rows : List SkillTransitionAudit) (db db' : Db)
    → All (λ a. a.prior_status ≡ some prior) rows
    → IsConsistent db
    → insert_audits rows db ≡ ok db'
    → IsConsistent db'
unfolding insert_audits
insert_audits-IsConsistent prior [] db db' stated c h = subst IsConsistent (ground arith) c
insert_audits-IsConsistent prior (a ∷ rows) db db' stated c h =
    let (db1, h1, k) = >>=-eq-ok (insert_audit a db) _ h in
    insert_audits-IsConsistent prior rows db1 db' stated.1
      (insert_audit-IsConsistent a prior db db1 stated.0 c h1) k

pub finish_transition-eq :
    (t : Transition) (rows : List SkillTransitionAudit) (db : Db) (r : SkillVersion × Db)
    → finish_transition t rows db ≡ ok r
    → db ≡ r.1
unfolding finish_transition check_deferred
finish_transition-eq t [] db r h = ground arith
finish_transition-eq t (a ∷ []) db r h = ground arith
finish_transition-eq t (a ∷ b ∷ rows) db r h = cc

transition_audit-prior :
    (t : Transition) (prior : SkillStatus) (s : SkillVersion) (art : Artifact)
    → (transition_audit t prior s art).prior_status ≡ some prior
unfolding transition_audit
transition_audit-prior t prior s art = refl

transition_from-IsConsistent :
    (prior : SkillStatus) (t : Transition) (db : Db) (r : SkillVersion × Db)
    → IsConsistent db
    → transition_from prior t db ≡ ok r
    → IsConsistent r.1
unfolding transition_from
transition_from-IsConsistent prior raw db r c h =
    let (t, _, k) = >>=-eq-ok (clean_transition raw) _ h in
    let rows =
      audit_rows (λ s. is_version t.name t.version s && status_eq s.status prior)
        (transition_audit t prior) db.artifacts db.skills in
    let (db', h1, k1) = >>=-eq-ok (insert_audits rows db) _ (conflict-ok _ k) in
    subst IsConsistent (finish_transition-eq t rows db' r k1) (
      insert_audits-IsConsistent prior rows db db'
        (audit_rows-All (λ a. a.prior_status ≡ some prior) _ (transition_audit t prior) db.artifacts
          db.skills (transition_audit-prior t prior))
        c h1)

pub transition_skill-IsConsistent :
    (t : Transition) (db : Db) (r : SkillVersion × Db)
    → IsConsistent db
    → transition_skill t db ≡ ok r
    → IsConsistent r.1
unfolding transition_skill allowed_prior_status
transition_skill-IsConsistent t db r c h = ground (
  arith,
  transition_from-IsConsistent pending_review t db r c,
  transition_from-IsConsistent listed t db r c,
)
