-- ===== src/ScanWorker/Bounds.antt =====
-- hub/core/scan_worker.py: the bounds of the backoff and of the attempts.
use ori_skills_hub.Prelude.{
  ℕ, zero, suc, ◌+◌, ◌≤◌, ◌<◌, ◌-◌, ◌≡◌, Text, Bool, true, false, Option, none, some, leb, arith,
  Result, ok, err, guard-eq-ok, &&-split, leb→le, if-keeps,
}
use ori_skills_hub.Core.{state_eq, pending_submission}
use ori_skills_hub.Database.{ScanJob}
use ori_skills_hub.Scanner.{
  ScanError, invalid_response, provider, authentication, temporary, rate_limit, PollResult,
  ScanResult, submit, poll_once,
}
use ori_skills_hub.ScanWorker.{
  Policy, check_policy, World, Upload, found, missing, unreadable, Metrics, Action, report_retry,
  doubled, smaller, delay, expired, exhaust, retry, on_error, submitted_action, submit_job,
  verdict_action, completed_action, polled_action, poll_job, decide,
}

doubled-le : (value n : ℕ) → value ≤ doubled value n
unfolding doubled
doubled-le value zero = omega arith
doubled-le value (suc n) = let h = doubled-le value n in omega (arith, h)

smaller-bounds :
    (base draw low high : ℕ)
    → low ≤ base
    → low ≤ high
    → (low ≤ smaller (smaller base high + draw) high)
      × (smaller (smaller base high + draw) high ≤ high)
smaller-bounds base draw low high h k = (ground arith, ground arith)

backoff_bounds : (p : Policy) → check_policy p ≡ ok tt → p.initial_backoff ≤ p.maximum_backoff
unfolding check_policy
backoff_bounds p h =
    let (_, k) = guard-eq-ok _ _ _ h in
    let (b, _) = guard-eq-ok _ _ _ k in leb→le _ _ (&&-split _ _ b).1

-- Under a policy that passes its own checks, the delay before a further attempt is at least the
-- initial backoff and at most the maximum backoff, whatever the jitter and the attempt count.
pub delay-bounds :
    (p : Policy) (draw attempt_count : ℕ)
    → check_policy p ≡ ok tt
    → (p.initial_backoff ≤ delay p draw attempt_count)
      × (delay p draw attempt_count ≤ p.maximum_backoff)
unfolding delay
delay-bounds p draw attempt_count h =
    smaller-bounds _ draw p.initial_backoff p.maximum_backoff
      (doubled-le p.initial_backoff (smaller (attempt_count - 1) 30)) (backoff_bounds p h)

-- The action asks for a further attempt after an error.
abbrev pub is_retry : Action → Bool
is_retry (report_retry r) = true
is_retry _ = false

abbrev WithinBudget : Policy → ScanJob → Action → Type 0
WithinBudget p j a = is_retry a ≡ true → j.attempt_count < p.maximum_attempts

retry-WithinBudget :
    (p : Policy) (worker : Text) (j : ScanJob) (clock wait : ℕ) (detail : Text) (cap : ℕ)
    → WithinBudget p j (retry p worker j clock wait detail cap)
unfolding retry exhaust
retry-WithinBudget p worker j clock wait detail cap =
    if-keeps (WithinBudget p j) (leb p.maximum_attempts j.attempt_count) _ _ (λ _ h. cc)
      (λ e _. ground (arith, e))

on_error-WithinBudget :
    (p : Policy) (worker : Text) (w : World) (j : ScanJob) (m : Metrics) (e : ScanError)
    → WithinBudget p j (on_error p worker w j m e).0
unfolding on_error
on_error-WithinBudget p worker w j m (rate_limit wait) h =
    retry-WithinBudget p worker j w.clock wait _ _ h
on_error-WithinBudget p worker w j m (authentication t) h =
    retry-WithinBudget p worker j w.clock p.maximum_backoff t p.maximum_backoff h
on_error-WithinBudget p worker w j m (temporary t) h =
    retry-WithinBudget p worker j w.clock (delay p w.draw j.attempt_count) t p.maximum_backoff h
on_error-WithinBudget p worker w j m (provider t) h = cc
on_error-WithinBudget p worker w j m invalid_response h = cc

submitted_action-WithinBudget :
    (p : Policy) (worker : Text) (w : World) (j : ScanJob) (m : Metrics) (o : Result ScanError Text)
    → WithinBudget p j (submitted_action p worker w j m o).0
unfolding submitted_action
submitted_action-WithinBudget p worker w j m (ok id) h = cc
submitted_action-WithinBudget p worker w j m (err e) h = on_error-WithinBudget p worker w j m e h

submit_job-WithinBudget :
    (p : Policy) (worker : Text) (w : World) (j : ScanJob) (m : Metrics) (u : Upload)
    → WithinBudget p j (submit_job p worker w j m u).0
unfolding submit_job
submit_job-WithinBudget p worker w j m (found payload) h =
    submitted_action-WithinBudget p worker w j m (submit w.configured payload w.http) h
submit_job-WithinBudget p worker w j m (missing t) h = cc
submit_job-WithinBudget p worker w j m unreadable h = cc

completed_action-WithinBudget :
    (p : Policy) (worker : Text) (j : ScanJob) (o : PollResult) (r : Option ScanResult)
    → WithinBudget p j (completed_action worker j o r)
unfolding completed_action verdict_action
completed_action-WithinBudget p worker j o none h = cc
completed_action-WithinBudget p worker j o (some r) h = cc

polled_action-WithinBudget :
    (p : Policy) (worker : Text) (w : World) (j : ScanJob) (m : Metrics)
    (o : Result ScanError PollResult)
    → WithinBudget p j (polled_action p worker w j m o).0
unfolding polled_action
polled_action-WithinBudget p worker w j m (err e) h = on_error-WithinBudget p worker w j m e h
polled_action-WithinBudget p worker w j m (ok o) h =
    if-keeps (WithinBudget p j) o.completed _ _
      (λ _. completed_action-WithinBudget p worker j o o.result) (λ _ h. cc) h

poll_job-WithinBudget :
    (p : Policy) (worker : Text) (w : World) (j : ScanJob) (m : Metrics) (id : Option Text)
    → WithinBudget p j (poll_job p worker w j m id).0
unfolding poll_job
poll_job-WithinBudget p worker w j m none h = cc
poll_job-WithinBudget p worker w j m (some id) h =
    polled_action-WithinBudget p worker w j m (poll_once w.configured id w.http) h

-- A job is retried after an error only while its attempts are below the maximum.
pub decide-WithinBudget :
    (p : Policy) (worker : Text) (w : World) (j : ScanJob) (m : Metrics)
    → is_retry (decide p worker w j m).0 ≡ true
    → j.attempt_count < p.maximum_attempts
unfolding decide exhaust
decide-WithinBudget p worker w j m h =
    if-keeps {A = Action × Metrics} (λ a. WithinBudget p j a.0) (expired p j w.claim_now) _ _
      (λ _ h. cc)
      (λ _.
        if-keeps {A = Action × Metrics} (λ a. WithinBudget p j a.0)
          (state_eq j.state pending_submission) _ _
          (λ _. submit_job-WithinBudget p worker w j m w.upload)
          (λ _. poll_job-WithinBudget p worker w j m j.provider_analysis_id))
      h
