-- ===== src/Core.antt =====
-- hub/core/models.py: the closed sets of states. A column that holds one of these strings, with a
-- CHECK constraint that says so, is a value of the type.
use ori_skills_hub.Prelude.{◌≡◌, ◌↔◌, Bool, true, false, ◌||◌, arith}

pub data SkillStatus : Type 0 where
  pending_review listed rejected unlisted : SkillStatus

pub data ScannerVerdict : Type 0 where
  clean suspicious unavailable : ScannerVerdict

pub data ScanJobState : Type 0 where
  pending_submission submitted polling clean malicious manual_review exhausted : ScanJobState

abbrev pub status_eq : SkillStatus → SkillStatus → Bool
status_eq pending_review pending_review = true
status_eq listed listed = true
status_eq rejected rejected = true
status_eq unlisted unlisted = true
status_eq _ _ = false

abbrev pub state_eq : ScanJobState → ScanJobState → Bool
state_eq pending_submission pending_submission = true
state_eq submitted submitted = true
state_eq polling polling = true
state_eq ScanJobState.clean ScanJobState.clean = true
state_eq malicious malicious = true
state_eq manual_review manual_review = true
state_eq exhausted exhausted = true
state_eq _ _ = false

pub status_eq_iff : (s t : SkillStatus) → (status_eq s t ≡ true) ↔ (s ≡ t)
status_eq_iff s t = ground arith

pub state_eq_iff : (s t : ScanJobState) → (state_eq s t ≡ true) ↔ (s ≡ t)
state_eq_iff s t = ground arith

-- `_TERMINAL_STATES` of hub/db/scans.py
abbrev pub is_terminal : ScanJobState → Bool
is_terminal s =
    state_eq s ScanJobState.clean
    || state_eq s malicious
    || state_eq s manual_review
    || state_eq s exhausted
