-- ===== src/Database/JobGuards.antt =====
-- hub/db/_models.py: the triggers and CHECK constraints of `artifacts`, `scan_jobs` and
-- `scan_events`, in the form of Database/Guards.antt.
use ori_skills_hub.Prelude.{
  ℕ, Text, Bool, true, false, not, ◌&&◌, ◌||◌, Option, none, some, any, length, text_eq, is_none,
  is_some, is_nil, ◌==◌, leb,
}
use ori_skills_hub.Core.{
  ScanJobState, pending_submission, submitted, polling, malicious, manual_review, exhausted,
  state_eq, is_terminal,
}
use ori_skills_hub.Database.{Db, Artifact, ScanJob, ScanEvent}
use ori_skills_hub.Database.Guards.{opt_eq, state_text, digest_column}

abbrev is_set : Text → Bool
is_set t = not (is_nil t)

unfoldable pub job_validate_initial_state : Db → ScanJob → Bool
job_validate_initial_state db j =
    not (state_eq j.state pending_submission)
    || not (j.attempt_count == 0)
    || is_some j.provider_analysis_id
    || is_some j.lease_owner
    || is_some j.lease_expires_at
    || not (
        any
          (λ art.
            text_eq art.id j.artifact_id
            && text_eq art.author_artifact_digest j.author_upload_digest)
          db.artifacts)

-- scan_jobs_validate_state_transition: the moves that an UPDATE of `state` may make.
unfoldable pub job_move : ScanJobState → ScanJobState → Bool
job_move old new =
    state_eq old pending_submission
      && (state_eq new submitted || state_eq new manual_review || state_eq new exhausted)
    || (state_eq old submitted || state_eq old polling)
      && (state_eq new polling
          || state_eq new ScanJobState.clean
          || state_eq new malicious
          || state_eq new manual_review
          || state_eq new exhausted)

unfoldable pub job_validate_state_transition : ScanJob → ScanJob → Bool
unfolding job_move
job_validate_state_transition old new =
    not (state_eq new.state old.state) && not (job_move old.state new.state)

unfoldable pub job_reject_terminal_rewrite : ScanJob → Bool
job_reject_terminal_rewrite old = is_terminal old.state

-- `NEW.verdict <> NEW.state`
abbrev verdict_differs : Option Text → ScanJobState → Bool
verdict_differs none s = false
verdict_differs (some v) s = not (text_eq v (state_text s))

-- `OLD.x IS NOT NULL AND NEW.x IS NOT OLD.x`
abbrev analysis_id_changed : Option Text → Option Text → Bool
analysis_id_changed none new = false
analysis_id_changed (some old) new = not (opt_eq new old)

unfoldable pub job_validate_state_evidence : ScanJob → ScanJob → Bool
job_validate_state_evidence old new =
    (state_eq new.state submitted || state_eq new.state polling)
      && (is_none new.provider_analysis_id || is_none new.submitted_at || is_some new.completed_at)
    || (state_eq new.state ScanJobState.clean || state_eq new.state malicious)
      && (is_none new.provider_analysis_id
          || is_none new.completed_at
          || verdict_differs new.verdict new.state
          || is_nil new.stats)
    || (state_eq new.state manual_review || state_eq new.state exhausted)
      && (is_none new.completed_at || is_none new.verdict)
    || not (is_terminal new.state) && is_some new.completed_at
    || analysis_id_changed old.provider_analysis_id new.provider_analysis_id

abbrev within : Option Text → ℕ → Bool
within none n = true
within (some t) n = leb (length t) n

-- The length of `stats_json` is checked where it is made (ScanQueue/Evidence.antt), and its validity
-- holds by construction.
unfoldable pub job_checks : ScanJob → Bool
job_checks j =
    is_set j.provider
    && within j.provider_analysis_id 512
    && leb (length j.detail) 1024
    && is_set j.correlation_id
    && is_set j.idempotency_key
    && digest_column j.author_upload_digest
    && is_set j.author_upload_storage_key

unfoldable pub event_checks : ScanEvent → Bool
event_checks e = leb (length e.detail) 1024

unfoldable pub artifact_checks : Artifact → Bool
artifact_checks a =
    digest_column a.artifact_digest
    && digest_column a.manifest_digest
    && is_set a.storage_key
    && is_set a.artifact_signature
    && is_set a.manifest_signature
    && leb (length a.scanner_detail) 1024
    && digest_column a.author_artifact_digest
    && is_set a.author_artifact_signature
