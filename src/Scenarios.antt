-- ===== src/Scenarios.antt =====
-- Concrete calls and tables, on which the theorems are applied.
pub mod Publishing
pub mod Tables
pub mod Scanning
pub mod Queue
pub mod Scans
pub mod Working
pub mod Calls
pub mod Packages
pub mod Archives
pub mod Releases
pub mod Storage
use ori_skills_hub.Prelude.{
  ℕ, ◌+◌, ◌*◌, Text, Bool, true, false, Option, none, some, List, [], ◌∷◌, ◌++◌, codes,
}
use ori_skills_hub.Value.{pos, Fields, end, field, integer, name}
use ori_skills_hub.Core.{ScannerVerdict, pending_review, listed, rejected, ScanJobState}
use ori_skills_hub.Database.{Db, Author, active}
use ori_skills_hub.Publication.{NewIds, NewPublication, NewScanJob}
use ori_skills_hub.Publication.Transitions.{Transition}
use ori_skills_hub.ScanQueue.Reports.{Progress}
use ori_skills_hub.ScanQueue.Completion.{Completion, CallContext}
use ori_skills_hub.Lifecycle.{Call, publish, transition, download, claim, progress, finish}

abbrev pub alice : Author
alice = record {
  id = codes "alice";
  external_subject = codes "subject";
  display_handle = codes "Alice";
  public_key_b64 = codes "key";
  status = active;
  identity_revision = 2;
}

-- `sha256:` and 64 times one digit.
abbrev pub digest_of : ℕ → Text
digest_of d =
    let four : Text = d ∷ d ∷ d ∷ d ∷ [] in
    let sixteen : Text = four ++ (four ++ (four ++ four)) in
    codes "sha256:" ++ (sixteen ++ (sixteen ++ (sixteen ++ sixteen)))

abbrev pub ids : NewIds
ids = record {
  artifact = codes "artifact";
  skill = codes "skill";
  audit = codes "audit1";
  event = codes "event1";
}

abbrev pub scan_job : NewScanJob
scan_job = record {
  job_id = codes "job";
  author_upload_digest = digest_of 49;
  author_upload_storage_key = digest_of 49;
  correlation_id = codes "c";
  idempotency_key = codes "k1";
  provider = codes "virustotal";
}

abbrev pub upload : Bool → NewPublication
upload tier_cd = record {
  name = codes " pump ";
  version = codes "1.0";
  artifact_digest = digest_of 50;
  manifest_digest = digest_of 51;
  storage_key = digest_of 50;
  byte_size = pos 10;
  artifact_signature = codes "sig";
  manifest_signature = codes "sig";
  scanner_verdict = ScannerVerdict.unavailable;
  scanner_detail = codes "";
  author_artifact_digest = digest_of 49;
  author_artifact_signature = codes "sig";
  declares_tier_cd = tier_cd;
  initial_status = pending_review;
  authenticated_actor_id = codes "alice";
  reason = codes "first";
  correlation_id = codes "c";
  idempotency_key = codes "k1";
  scan_job = some scan_job;
}

abbrev pub publish_pump : Bool → Call
publish_pump tier_cd = publish ids 100 (upload tier_cd)

abbrev pub lease_pump : ℕ → Text → Call
lease_pump now event = claim (codes "w1") now 30 event now

abbrev pub submitted_report : ℕ → Progress
submitted_report next = record {
  job_id = codes "job";
  worker_id = codes "w1";
  expected = λ s. elim s [ ScanJobState.pending_submission ↦ true | _ ↦ false ];
  state = ScanJobState.submitted;
  next_attempt_at = next;
  detail = codes "sent";
  provider_analysis_id = some (codes "analysis");
  submitted = true;
  polled = false;
}

abbrev pub clean_report : Completion
clean_report = record {
  job_id = codes "job";
  worker_id = codes "w1";
  state = ScanJobState.clean;
  verdict = codes "clean";
  detail = codes "ok";
  stats = some (field (name (codes "harmless")) (integer (pos 60)) end);
}

abbrev pub at_time : ℕ → CallContext
at_time now = record {
  now = now;
  event_id = codes "event5";
  audit_id = codes "audit2";
  stamp = now;
}

-- A skill is uploaded, scanned and found clean, and then downloaded.
abbrev pub scanned_calls : Bool → List Call
scanned_calls tier_cd =
    publish_pump tier_cd
    ∷ lease_pump 200 (codes "event2")
    ∷ progress (submitted_report 300) 250 (codes "event3") 250
    ∷ lease_pump 300 (codes "event4")
    ∷ finish clean_report (at_time 350)
    ∷ []

abbrev pub approve_pump : Transition
approve_pump = record {
  name = codes "pump";
  version = codes "1.0";
  target_status = listed;
  authenticated_actor_id = codes "admin";
  reason = codes "reviewed";
  correlation_id = codes "c9";
  idempotency_key = codes "k9";
  audit_id = codes "audit9";
  now = 400;
}
