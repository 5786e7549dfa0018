-- ===== src/Lifecycle/AuditStep.antt =====
-- An audit row that states a move keeps the tables consistent.
use ori_skills_hub.Prelude.{
  UniqueBy-eq, UniqueBy-update, any-has_key-update, ℕ, ◌+◌, ◌≡◌, sym, ap, subst, ◌∙◌, Text, true,
  false, ◌&&◌, some, List, ◌∷◌, any, any-true, any-intro, select, update_where, All-map, All-update,
  Memᴰ, text_eq, text_eq_iff, ◌==◌, arith, ◌⊎◌, ok, Bool-cases, inl, inr, &&-split,
}
use ori_skills_hub.Core.{SkillStatus, status_eq_iff, listed}
use ori_skills_hub.Database.{Db, SkillVersion, SkillTransitionAudit}
use ori_skills_hub.Database.Guards.{
  opt_status_eq, audit_move, audit_require_scan_evidence, has_evidence, is_evidence,
}
use ori_skills_hub.Database.Writes.{audit_hits, insert_audit}
use ori_skills_hub.Lifecycle.History.{
  history, replay, replay_one, Recorded, was_listed, Evidenced, has_id, Owned, IsConsistent,
  skill_id,
}
use ori_skills_hub.Lifecycle.AuditRow.{
  AuditEffect, moved, insert_audit-effect, audit_matches_skill-move,
}

pub history-hit :
    (id : Text) (a : SkillTransitionAudit) (audits : List SkillTransitionAudit)
    → a.skill_version_id ≡ id
    → history id (a ∷ audits) ≡ a ∷ history id audits
unfolding select
history-hit id a audits e = ground (arith, (text_eq_iff a.skill_version_id id).1 e)

pub history-miss :
    (id : Text) (a : SkillTransitionAudit) (audits : List SkillTransitionAudit)
    → text_eq a.skill_version_id id ≡ false
    → history id (a ∷ audits) ≡ history id audits
unfolding select
history-miss id a audits e = ground arith

audit_hits-parts :
    (a : SkillTransitionAudit) (s : SkillVersion)
    → audit_hits a s ≡ true
    → (s.id ≡ a.skill_version_id)
      × (opt_status_eq a.prior_status s.status ≡ true)
      × (((s.revision + 1) == a.transition_number) ≡ true)
unfolding audit_hits
audit_hits-parts a s h =
    let (h1, n) = &&-split _ _ h in let (i, p) = &&-split _ _ h1 in ((text_eq_iff _ _).0 i, p, n)

audit_hits-intro :
    (a : SkillTransitionAudit) (s : SkillVersion)
    → s.id ≡ a.skill_version_id
    → a.prior_status ≡ some s.status
    → s.revision + 1 ≡ a.transition_number
    → audit_hits a s ≡ true
unfolding audit_hits
audit_hits-intro a s i p n = ground (arith, (text_eq_iff s.id a.skill_version_id).1 i, p, n)

replay_one-move :
    (a : SkillTransitionAudit) (status : SkillStatus) (revision : ℕ)
    → opt_status_eq a.prior_status status ≡ true
    → ((revision + 1) == a.transition_number) ≡ true
    → audit_move status a.new_status ≡ true
    → replay_one (some (status, revision)) a ≡ some (a.new_status, a.transition_number)
unfolding replay_one
replay_one-move a status revision p n m = rw (p, n, m)

module _ (a : SkillTransitionAudit) (prior : SkillStatus) (db db' : Db)
    (stated : a.prior_status ≡ some prior) (c : IsConsistent db)
    (e : AuditEffect a prior db db') where
  -- The row that the trigger found is the only one of its identifier.
  target_is_hit :
      (s : SkillVersion) → Memᴰ s db.skills → s.id ≡ a.skill_version_id → audit_hits a s ≡ true
  target_is_hit s m i =
      let (wi, ws, wn, _) = audit_matches_skill-move db a prior e.witness e.matched in
      let same : s ≡ e.witness =
        UniqueBy-eq skill_id db.skills s e.witness c.unique_ids m e.present (i ∙ sym wi) in
      subst (λ t. audit_hits a t ≡ true) (sym same)
        (audit_hits-intro a e.witness wi (stated ∙ ap some (sym ws)) wn)

  not_target :
      (s : SkillVersion)
      → Memᴰ s db.skills
      → audit_hits a s ≡ false
      → text_eq a.skill_version_id s.id ≡ false
  not_target s m miss = elim (Bool-cases (text_eq a.skill_version_id s.id)) [
    | inr no_match ↦ no_match
    | inl same ↦ cc (target_is_hit s m (sym ((text_eq_iff _ _).0 same)), miss)
  ]

  move_holds : audit_move prior a.new_status ≡ true
  move_holds = (audit_matches_skill-move db a prior e.witness e.matched).3

  hit_status : (s : SkillVersion) → audit_hits a s ≡ true → s.status ≡ prior
  hit_status s h =
      let (_, p, _) = audit_hits-parts a s h in
      sym ((status_eq_iff prior s.status).0 (subst (λ o. opt_status_eq o s.status ≡ true) stated p))

  Recorded-hit :
      (s : SkillVersion)
      → Recorded db.audits s
      → audit_hits a s ≡ true
      → Recorded (a ∷ db.audits) (e.f s)
  unfolding replay
  Recorded-hit s r h =
      let (i, p, n) = audit_hits-parts a s h in
      rw
        (
          e.is_move.same_id s,
          e.is_move.new_status s,
          e.is_move.new_revision s,
          history-hit s.id a db.audits (sym i),
          r,
        )
        (replay_one-move a s.status s.revision p n
          (subst (λ st. audit_move st a.new_status ≡ true) (sym (hit_status s h)) move_holds))

  Recorded-miss :
      (s : SkillVersion)
      → Memᴰ s db.skills
      → Recorded db.audits s
      → audit_hits a s ≡ false
      → Recorded (a ∷ db.audits) s
  Recorded-miss s m r h = rw (history-miss s.id a db.audits (not_target s m h)) r

  -- The trigger on listings has seen evidence for the identifier.
  evidence_found :
      (s : SkillVersion)
      → Memᴰ s db.skills
      → s.id ≡ a.skill_version_id
      → s.requires_scan ≡ true
      → a.new_status ≡ listed
      → has_evidence db a.skill_version_id ≡ true
  unfolding audit_require_scan_evidence
  evidence_found s m i q l = ground (
    arith,
    e.supported,
    any-intro (λ (u : SkillVersion). text_eq u.id a.skill_version_id && u.requires_scan) db.skills s
        m (ground (arith, (text_eq_iff s.id a.skill_version_id).1 i, q)),
  )

  listed_evidence :
      (s : SkillVersion)
      → Memᴰ s db.skills
      → s.id ≡ a.skill_version_id
      → s.requires_scan ≡ true
      → a.new_status ≡ listed
      → any (λ j. text_eq j.artifact_id s.artifact_id && is_evidence j.state) db.jobs ≡ true
  unfolding has_evidence
  listed_evidence s m i q l =
      let (t, n, ev) = any-true _ db.skills (evidence_found s m i q l) in
      let (ti, tj) = &&-split _ _ ev in
      let same : t ≡ s =
        UniqueBy-eq skill_id db.skills t s c.unique_ids n m ((text_eq_iff _ _).0 ti ∙ sym i) in
      subst
        (λ u. any (λ j. text_eq j.artifact_id u.artifact_id && is_evidence j.state) db.jobs ≡ true)
        same tj

  -- A move to `unlisted` leaves `listed`.
  was_listed_before :
      (s : SkillVersion)
      → audit_hits a s ≡ true
      → was_listed a.new_status ≡ true
      → (a.new_status ≡ listed) ⊎ (was_listed s.status ≡ true)
  unfolding audit_move
  was_listed_before s h w = ground (arith, hit_status s h, move_holds)

  Evidenced-hit :
      (s : SkillVersion)
      → Memᴰ s db.skills
      → Evidenced db.jobs s
      → audit_hits a s ≡ true
      → Evidenced db.jobs (e.f s)
  Evidenced-hit s m ev h q w =
      let required = sym (e.is_move.same_requirement s) ∙ q in
      let listing = subst (λ st. was_listed st ≡ true) (e.is_move.new_status s) w in
      rw (e.is_move.same_artifact s) (elim (was_listed_before s h listing) [
        | inl l ↦ listed_evidence s m (audit_hits-parts a s h).0 required l
        | inr earlier ↦ ev required earlier
      ])

  moved-IsConsistent : IsConsistent (moved a e.f db)
  moved-IsConsistent = record {
    unique_ids =
        UniqueBy-update skill_id (audit_hits a) e.f db.skills e.is_move.same_id c.unique_ids;
    unique_jobs = c.unique_jobs;
    owned = (
      Owned-after a (
          any-intro (has_id a.skill_version_id) db.skills e.witness e.present
            ((text_eq_iff _ _).1 (audit_matches_skill-move db a prior e.witness e.matched).0)),
      All-map _ _ db.audits Owned-after c.owned,
    );
    recorded =
        All-update (Recorded db.audits) (Recorded (a ∷ db.audits)) (audit_hits a) e.f db.skills
          c.recorded (λ s m r h. Recorded-hit s r h) Recorded-miss;
    evidenced =
        All-update (Evidenced db.jobs) (Evidenced db.jobs) (audit_hits a) e.f db.skills c.evidenced
          Evidenced-hit (λ s m ev h. ev);
  }
    where
      Owned-after :
          (b : SkillTransitionAudit)
          → Owned db.skills b
          → Owned (update_where (audit_hits a) e.f db.skills) b
      Owned-after b o =
          any-has_key-update skill_id b.skill_version_id (audit_hits a) e.f db.skills
            e.is_move.same_id
          ∙ o

pub insert_audit-IsConsistent :
    (a : SkillTransitionAudit) (prior : SkillStatus) (db db' : Db)
    → a.prior_status ≡ some prior
    → IsConsistent db
    → insert_audit a db ≡ ok db'
    → IsConsistent db'
insert_audit-IsConsistent a prior db db' stated c h =
    let e = insert_audit-effect a prior db db' stated h in
    subst IsConsistent (sym e.result) (moved-IsConsistent a prior db db' stated c e)
