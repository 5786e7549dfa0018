-- ===== src/Lifecycle/AuditRow.antt =====
-- One audit row that states a move: what `insert_audit` does, and that it keeps the tables
-- consistent.
use ori_skills_hub.Prelude.{
  ◌+◌, ◌≡◌, refl, ◌⊎◌, inl, inr, Bool, true, false, some, ◌∷◌, any, any-true, update_where, Memᴰ,
  text_eq_iff, ==_iff, arith, ok, reject-eq-ok, guard-eq-ok, &&-split,
}
use ori_skills_hub.Core.{SkillStatus, status_eq_iff}
use ori_skills_hub.Database.{Db, SkillVersion, SkillTransitionAudit}
use ori_skills_hub.Database.Guards.{
  audit_move, audit_matches_skill, audit_validate_state, audit_require_scan_evidence,
}
use ori_skills_hub.Database.Writes.{
  audit_hits, listing_row, nonlisting_row, apply_listing, apply_nonlisting, apply_audit,
  insert_audit,
}

-- What a trigger's UPDATE writes into the row of the skill.
pub record IsMoveTo (a : SkillTransitionAudit) (f : SkillVersion → SkillVersion) : Type 0 where
  pub same_id : (s : SkillVersion) → (f s).id ≡ s.id
  pub same_artifact : (s : SkillVersion) → (f s).artifact_id ≡ s.artifact_id
  pub same_requirement : (s : SkillVersion) → (f s).requires_scan ≡ s.requires_scan
  pub new_status : (s : SkillVersion) → (f s).status ≡ a.new_status
  pub new_revision : (s : SkillVersion) → (f s).revision ≡ a.transition_number

listing_row-IsMoveTo : (a : SkillTransitionAudit) → IsMoveTo a (listing_row a)
unfolding listing_row
listing_row-IsMoveTo a = record {
  same_id = λ s. refl;
  same_artifact = λ s. refl;
  same_requirement = λ s. refl;
  new_status = λ s. refl;
  new_revision = λ s. refl;
}

nonlisting_row-IsMoveTo : (a : SkillTransitionAudit) → IsMoveTo a (nonlisting_row a)
unfolding nonlisting_row
nonlisting_row-IsMoveTo a = record {
  same_id = λ s. refl;
  same_artifact = λ s. refl;
  same_requirement = λ s. refl;
  new_status = λ s. refl;
  new_revision = λ s. refl;
}

abbrev pub moved : SkillTransitionAudit → (SkillVersion → SkillVersion) → Db → Db
moved a f db = record db {
  audits = a ∷ db.audits;
  skills = update_where (audit_hits a) f db.skills;
}

-- What a successful `insert_audit` of a row with a prior status has seen and done.
pub record AuditEffect (a : SkillTransitionAudit) (prior : SkillStatus) (db db' : Db) : Type 0 where
  pub f : SkillVersion → SkillVersion
  pub is_move : IsMoveTo a f
  pub result : db' ≡ moved a f db
  pub witness : SkillVersion
  pub present : Memᴰ witness db.skills
  pub matched : audit_matches_skill db a prior witness ≡ true
  pub supported : audit_require_scan_evidence db a ≡ false

apply_listing-eq :
    (a : SkillTransitionAudit) (db db' : Db)
    → apply_listing a db ≡ ok db'
    → db' ≡ record db { skills = update_where (audit_hits a) (listing_row a) db.skills }
unfolding apply_listing
apply_listing-eq a db db' h = ground arith

apply_nonlisting-eq :
    (a : SkillTransitionAudit) (db db' : Db)
    → apply_nonlisting a db ≡ ok db'
    → db' ≡ record db { skills = update_where (audit_hits a) (nonlisting_row a) db.skills }
unfolding apply_nonlisting
apply_nonlisting-eq a db db' h = ground arith

-- A stated move is written by one trigger or the other.
apply_audit-cases :
    (a : SkillTransitionAudit) (prior : SkillStatus) (db db' : Db)
    → a.prior_status ≡ some prior
    → audit_move prior a.new_status ≡ true
    → apply_audit a db ≡ ok db'
    → (apply_listing a db ≡ ok db') ⊎ (apply_nonlisting a db ≡ ok db')
unfolding apply_audit audit_move
apply_audit-cases a prior db db' p m h = ground arith

pub audit_matches_skill-move :
    (db : Db) (a : SkillTransitionAudit) (prior : SkillStatus) (s : SkillVersion)
    → audit_matches_skill db a prior s ≡ true
    → (s.id ≡ a.skill_version_id)
      × (s.status ≡ prior)
      × (s.revision + 1 ≡ a.transition_number)
      × (audit_move prior a.new_status ≡ true)
unfolding audit_matches_skill
audit_matches_skill-move db a prior s h =
    let (h1, m) = &&-split _ _ h in
    let (h2, _) = &&-split _ _ h1 in
    let (h3, n) = &&-split _ _ h2 in
    let (i, st) = &&-split _ _ h3 in
    ((text_eq_iff _ _).0 i, (status_eq_iff _ _).0 st, (==_iff _ _).0 n, m)

pub insert_audit-effect :
    (a : SkillTransitionAudit) (prior : SkillStatus) (db db' : Db)
    → a.prior_status ≡ some prior
    → insert_audit a db ≡ ok db'
    → AuditEffect a prior db db'
unfolding insert_audit audit_validate_state
insert_audit-effect a prior db db' p h =
    let (v, h1) = reject-eq-ok (audit_validate_state db a) _ _ h in
    let (e, h2) = reject-eq-ok (audit_require_scan_evidence db a) _ _ h1 in
    let (_, h3) = reject-eq-ok _ _ _ h2 in
    let (_, h4) = guard-eq-ok _ _ _ h3 in
    let (w, m, q) =
      any-true (audit_matches_skill db a prior) db.skills
        (validated (any (audit_matches_skill db a prior) db.skills) refl v) in
    let (_, _, _, mv) = audit_matches_skill-move db a prior w q in
    elim (apply_audit-cases a prior (record db { audits = a ∷ db.audits }) db' p mv h4) [
      | inl l ↦ record {
        f = listing_row a;
        is_move = listing_row-IsMoveTo a;
        result = apply_listing-eq a _ db' l;
        witness = w;
        present = m;
        matched = q;
        supported = e;
      }
      | inr l ↦ record {
        f = nonlisting_row a;
        is_move = nonlisting_row-IsMoveTo a;
        result = apply_nonlisting-eq a _ db' l;
        witness = w;
        present = m;
        matched = q;
        supported = e;
      }
    ]
  where
    validated :
        (b : Bool)
        → any (audit_matches_skill db a prior) db.skills ≡ b
        → audit_validate_state db a ≡ false
        → any (audit_matches_skill db a prior) db.skills ≡ true
    validated true e v = e
    validated false e v = ground (arith, p)
