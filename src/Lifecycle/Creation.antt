-- ===== src/Lifecycle/Creation.antt =====
-- `create_publication` keeps the tables consistent: the new skill has the one audit row that opens
-- its history.
use ori_skills_hub.Prelude.{
  ℕ, ◌≡◌, refl, sym, ap, subst, ◌∙◌, Text, true, false, none, List, [], ◌∷◌, any, any-false, select,
  All, All-mem, All-intro, All-map, Memᴰ, text_eq, text_eq_iff, text_eq_comm, arith, ok, >>=-eq-ok,
  Bool-cases, inl, inr,
}
use ori_skills_hub.Core.{pending_review}
use ori_skills_hub.Database.{Db, Artifact, SkillVersion, SkillTransitionAudit}
use ori_skills_hub.Database.Guards.{skill_require_scan_job}
use ori_skills_hub.Database.Writes.{
  insert_artifact, insert_audit, insert_skill, apply_audit, skill_clashes,
}
use ori_skills_hub.Publication.{
  NewIds, NewPublication, admit_scan_job, validate_initial_skill, write_publication,
}
use ori_skills_hub.Lifecycle.History.{
  history, replay, replay_one, Recorded, was_listed, Evidenced, has_id, Owned, IsConsistent,
}
use ori_skills_hub.Lifecycle.AuditStep.{history-hit, history-miss}
use ori_skills_hub.Lifecycle.Frame.{
  IsFrame-trans, IsFrame-IsConsistent, insert_artifact-IsFrame, admit_scan_job-IsFrame,
  check_deferred-eq,
}

-- The first audit row of a skill, as `create_publication` makes it.
pub record Opens (a : SkillTransitionAudit) (s : SkillVersion) : Type 0 where
  pub same_skill : a.skill_version_id ≡ s.id
  pub no_prior : a.prior_status ≡ none
  pub first : a.transition_number ≡ 1
  pub revision_one : s.revision ≡ 1
  pub same_status : a.new_status ≡ s.status

insert_audit-opening :
    (a : SkillTransitionAudit) (db db' : Db)
    → a.prior_status ≡ none
    → insert_audit a db ≡ ok db'
    → db' ≡ record db { audits = a ∷ db.audits }
unfolding insert_audit apply_audit
insert_audit-opening a db db' p h = ground (arith, p)

pub insert_skill-facts :
    (s : SkillVersion) (db db' : Db)
    → insert_skill s db ≡ ok db'
    → (db' ≡ record db { skills = s ∷ db.skills })
      × (any (skill_clashes s) db.skills ≡ false)
      × (skill_require_scan_job db s ≡ false)
unfolding insert_skill
insert_skill-facts s db db' h = (ground arith, ground arith, ground arith)

no_clash-fresh :
    (s : SkillVersion) (skills : List SkillVersion)
    → any (skill_clashes s) skills ≡ false
    → any (has_id s.id) skills ≡ false
unfolding any skill_clashes
no_clash-fresh s [] h = refl
no_clash-fresh s (t ∷ skills) h = ground (arith, no_clash-fresh s skills)

-- An identifier that no skill has is in no audit row.
history-fresh :
    (id : Text) (skills : List SkillVersion) (audits : List SkillTransitionAudit)
    → any (has_id id) skills ≡ false
    → All (Owned skills) audits
    → history id audits ≡ []
unfolding select
history-fresh id skills [] fresh owned = refl
history-fresh id skills (a ∷ audits) fresh owned =
    elim (Bool-cases (text_eq a.skill_version_id id)) [
      | inl e ↦
          cc (subst (λ i. any (has_id i) skills ≡ true) ((text_eq_iff _ _).0 e) owned.0, fresh)
      | inr e ↦ history-miss id a audits e ∙ history-fresh id skills audits fresh owned.1
    ]

pub scan_required_is_pending :
    (db : Db) (s : SkillVersion)
    → skill_require_scan_job db s ≡ false
    → s.requires_scan ≡ true
    → s.status ≡ pending_review
unfolding skill_require_scan_job
scan_required_is_pending db s h q = ground arith

module _ (db : Db) (a : SkillTransitionAudit) (s : SkillVersion) (c : IsConsistent db)
    (o : Opens a s) (fresh : any (has_id s.id) db.skills ≡ false)
    (pending : s.requires_scan ≡ true → s.status ≡ pending_review) where
  Recorded-new : Recorded (a ∷ db.audits) s
  unfolding replay replay_one
  Recorded-new = rw (
    history-hit s.id a db.audits o.same_skill,
    history-fresh s.id db.skills db.audits fresh c.owned,
    o.no_prior,
    o.first,
    o.revision_one,
    o.same_status,
  )

  Recorded-old :
      (t : SkillVersion) → Memᴰ t db.skills → Recorded db.audits t → Recorded (a ∷ db.audits) t
  Recorded-old t m r =
      rw
        (history-miss t.id a db.audits (
          subst (λ i. text_eq i t.id ≡ false) (sym o.same_skill)
            (text_eq_comm s.id t.id ∙ any-false (has_id s.id) db.skills t fresh m)))
        r

  Evidenced-new : Evidenced db.jobs s
  Evidenced-new q w = cc (subst (λ st. was_listed st ≡ true) (pending q) w)

  Owned-after : (b : SkillTransitionAudit) → Owned db.skills b → Owned (s ∷ db.skills) b
  unfolding any
  Owned-after b h = ground arith

  Owned-new : Owned (s ∷ db.skills) a
  unfolding any
  Owned-new = ground (arith, (text_eq_iff s.id a.skill_version_id).1 (sym o.same_skill))

  pub opened-IsConsistent :
      IsConsistent (record db { audits = a ∷ db.audits; skills = s ∷ db.skills })
  opened-IsConsistent = record {
    unique_ids = (fresh, c.unique_ids);
    unique_jobs = c.unique_jobs;
    owned = (
      Owned-new,
      All-map (Owned db.skills) (Owned (s ∷ db.skills)) db.audits Owned-after c.owned,
    );
    recorded = (
      Recorded-new,
      All-intro (Recorded (a ∷ db.audits)) db.skills
          (λ t m. Recorded-old t m (All-mem (Recorded db.audits) db.skills t c.recorded m)),
    );
    evidenced = (Evidenced-new, c.evidenced);
  }

pub write_publication-IsConsistent :
    (ids : NewIds) (now : ℕ) (p : NewPublication) (artifact : Artifact) (a : SkillTransitionAudit)
    (s : SkillVersion) (db db' : Db)
    → Opens a s
    → IsConsistent db
    → write_publication ids now p artifact a s db ≡ ok db'
    → IsConsistent db'
unfolding write_publication
write_publication-IsConsistent ids now p artifact a s db db' o c h =
    let (db1, h1, k1) = >>=-eq-ok (insert_artifact artifact db) _ h in
    let (db2, h2, k2) = >>=-eq-ok (admit_scan_job ids now artifact p.scan_job db1) _ k1 in
    let (db3, h3, k3) = >>=-eq-ok (insert_audit a db2) _ k2 in
    let (_, _, k4) = >>=-eq-ok (validate_initial_skill s) _ k3 in
    let (db4, h4, k5) = >>=-eq-ok (insert_skill s db3) _ k4 in
    let framed =
      IsFrame-trans (insert_artifact-IsFrame artifact db db1 h1)
        (admit_scan_job-IsFrame ids now artifact p.scan_job db1 db2 h2) in
    let c2 = IsFrame-IsConsistent db db2 framed c in
    let e3 = insert_audit-opening a db2 db3 o.no_prior h3 in
    let (e4, no_clash, scan) = insert_skill-facts s db3 db4 h4 in
    let fresh =
      no_clash-fresh s db2.skills
        (subst (λ (d : Db). any (skill_clashes s) d.skills ≡ false) e3 no_clash) in
    subst IsConsistent
      (sym (
        check_deferred-eq db4 db' k5 ∙ e4 ∙ ap (λ (d : Db). record d { skills = s ∷ d.skills }) e3))
      (opened-IsConsistent db2 a s c2 o fresh (scan_required_is_pending db3 s scan))
