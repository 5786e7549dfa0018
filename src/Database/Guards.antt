-- ===== src/Database/Guards.antt =====
-- hub/db/_models.py: the SQLite triggers that publication and scanning meet, each as a test that is
-- true where the trigger raises ABORT, and the CHECK constraints of each table as one test that is
-- true where they hold. A comparison with NULL is false, as in a WHEN clause.
use ori_skills_hub.Prelude.{
  ℕ, ◌+◌, Text, Bool, true, false, not, ◌&&◌, ◌||◌, Option, none, some, any, length, codes, text_eq,
  is_none, is_some, is_nil, ◌==◌, leb, if◌then◌else◌, take, map,
}
use ori_skills_hub.Core.{
  SkillStatus, ScanJobState, pending_review, listed, rejected, unlisted, pending_submission,
  submitted, polling, malicious, manual_review, exhausted, status_eq, state_eq,
}
use ori_skills_hub.Database.{Db, Author, active, Artifact, SkillVersion, SkillTransitionAudit}

abbrev pub opt_eq : Option Text → Text → Bool
opt_eq none t = false
opt_eq (some s) t = text_eq s t

abbrev pub opt_status_eq : Option SkillStatus → SkillStatus → Bool
opt_status_eq none t = false
opt_status_eq (some s) t = status_eq s t

abbrev opt_time_eq : Option ℕ → ℕ → Bool
opt_time_eq none t = false
opt_time_eq (some s) t = s == t

-- The column's text of a job state.
abbrev pub state_text : ScanJobState → Text
state_text pending_submission = codes "pending_submission"
state_text submitted = codes "submitted"
state_text polling = codes "polling"
state_text ScanJobState.clean = codes "clean"
state_text malicious = codes "malicious"
state_text manual_review = codes "manual_review"
state_text exhausted = codes "exhausted"

-- LIKE does not tell the cases of ASCII letters apart.
lower_ascii : ℕ → ℕ
lower_ascii c = if leb 65 c && leb c 90 then c + 32 else c

-- `x LIKE 'sha256:%' AND length(x) = 71`
unfoldable pub digest_column : Text → Bool
unfolding lower_ascii
digest_column t = text_eq (map lower_ascii (take 7 t)) (codes "sha256:") && length t == 71

abbrev is_set : Text → Bool
is_set t = not (is_nil t)

-- skill_transition_audit_validate_state: the moves that an audit row may state.
unfoldable pub audit_move : SkillStatus → SkillStatus → Bool
audit_move prior new =
    status_eq prior pending_review && (status_eq new listed || status_eq new rejected)
    || status_eq prior listed && status_eq new unlisted

unfoldable pub audit_matches_skill : Db → SkillTransitionAudit → SkillStatus → SkillVersion → Bool
audit_matches_skill db a prior s =
    text_eq s.id a.skill_version_id
    && status_eq s.status prior
    && (s.revision + 1) == a.transition_number
    && any
        (λ art.
          text_eq art.id s.artifact_id
          && text_eq art.artifact_digest a.artifact_digest
          && text_eq art.manifest_digest a.manifest_digest)
        db.artifacts
    && audit_move prior a.new_status

unfoldable pub audit_validate_state : Db → SkillTransitionAudit → Bool
audit_validate_state db a = elim a.prior_status [
  | none ↦ false
  | some prior ↦ not (any (audit_matches_skill db a prior) db.skills)
]

unfoldable pub is_evidence : ScanJobState → Bool
is_evidence s = state_eq s ScanJobState.clean || state_eq s manual_review || state_eq s exhausted

-- A skill of this id has a job in a state that is evidence for a listing.
unfoldable pub has_evidence : Db → Text → Bool
unfolding is_evidence
has_evidence db skill_id =
    any
      (λ s.
        text_eq s.id skill_id
        && any (λ j. text_eq j.artifact_id s.artifact_id && is_evidence j.state) db.jobs)
      db.skills

unfoldable pub audit_require_scan_evidence : Db → SkillTransitionAudit → Bool
audit_require_scan_evidence db a =
    status_eq a.new_status listed
    && any (λ s. text_eq s.id a.skill_version_id && s.requires_scan) db.skills
    && not (has_evidence db a.skill_version_id)

unfoldable pub author_is_active : Author → Text → Bool
author_is_active author id =
    text_eq author.id id && elim author.status [ active ↦ true | _ ↦ false ]

unfoldable pub initial_audit_matches : Artifact → SkillVersion → SkillTransitionAudit → Bool
initial_audit_matches art s a =
    text_eq a.skill_version_id s.id
    && a.transition_number == 1
    && is_none a.prior_status
    && status_eq a.new_status s.status
    && text_eq a.artifact_digest art.artifact_digest
    && text_eq a.manifest_digest art.manifest_digest

unfoldable pub skill_validate_initial_status : Db → SkillVersion → Bool
skill_validate_initial_status db s =
    not (status_eq s.status pending_review || status_eq s.status listed)
    || s.declares_tier_cd && status_eq s.status listed
    || not (any (λ author. author_is_active author s.author_id) db.authors)
    || not (s.revision == 1)
    || not (s.downloads == 0)
    || is_some s.review_approved_at
    || is_some s.review_approved_by
    || not (
        any (λ art. text_eq art.id s.artifact_id && any (initial_audit_matches art s) db.audits)
          db.artifacts)

unfoldable pub skill_require_scan_job : Db → SkillVersion → Bool
skill_require_scan_job db s =
    s.requires_scan
    && (not (status_eq s.status pending_review)
        || not (
            any (λ j. text_eq j.artifact_id s.artifact_id && state_eq j.state pending_submission)
              db.jobs))

unfoldable pub skill_reject_approval_update : SkillVersion → SkillVersion → Bool
skill_reject_approval_update old new = not (
    status_eq old.status pending_review
    && status_eq new.status listed
    && is_none old.review_approved_at
    && is_none old.review_approved_by
    && is_some new.review_approved_at
    && is_some new.review_approved_by)

unfoldable pub skill_validate_revision_transition : SkillVersion → SkillVersion → Bool
skill_validate_revision_transition old new =
    not (new.revision == old.revision)
    && (status_eq new.status old.status || not (new.revision == (old.revision + 1)))

unfoldable pub skill_validate_status_transition : SkillVersion → SkillVersion → Bool
unfolding audit_move
skill_validate_status_transition old new =
    not (status_eq new.status old.status) && not (audit_move old.status new.status)

unfoldable pub audit_supports_update :
    Artifact → SkillVersion → SkillVersion → SkillTransitionAudit → Bool
audit_supports_update art old new a =
    text_eq a.skill_version_id old.id
    && a.transition_number == new.revision
    && opt_status_eq a.prior_status old.status
    && status_eq a.new_status new.status
    && text_eq a.artifact_digest art.artifact_digest
    && text_eq a.manifest_digest art.manifest_digest
    && (not (status_eq new.status listed)
        || opt_time_eq new.review_approved_at a.occurred_at
          && opt_eq new.review_approved_by a.actor_id)

unfoldable pub skill_require_transition_audit : Db → SkillVersion → SkillVersion → Bool
skill_require_transition_audit db old new =
    not (status_eq new.status old.status)
    && not (
        any
          (λ art.
            text_eq art.id old.artifact_id && any (audit_supports_update art old new) db.audits)
          db.artifacts)

unfoldable pub skill_checks : SkillVersion → Bool
skill_checks s =
    is_set s.name
    && is_set s.version
    && leb 1 s.revision
    && (is_none s.review_approved_at && is_none s.review_approved_by
        || is_some s.review_approved_at && is_some s.review_approved_by)
    && (not (status_eq s.status pending_review || status_eq s.status rejected)
        || is_none s.review_approved_at && is_none s.review_approved_by)
    && (not s.declares_tier_cd
        || not (status_eq s.status listed)
        || is_some s.review_approved_at && is_some s.review_approved_by)

unfoldable pub audit_checks : SkillTransitionAudit → Bool
audit_checks a =
    not (opt_status_eq a.prior_status a.new_status)
    && is_set a.actor_id
    && is_set a.reason
    && (is_none a.prior_status && a.transition_number == 1
        || is_some a.prior_status && leb 2 a.transition_number)
    && is_set a.correlation_id
    && is_set a.idempotency_key
    && digest_column a.artifact_digest
    && digest_column a.manifest_digest
