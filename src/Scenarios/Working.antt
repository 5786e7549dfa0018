-- ===== src/Scenarios/Working.antt =====
-- The theorems on the scan worker at a concrete invocation.
use ori_skills_hub.Scanner.{
  verdict_of_counts, sum_counts, completed_verdict, non_negative_count, normalised_stats,
  analysis_state, raise_provider_status, provider_id, poll_once, HttpOutcome, response, timeout,
}
use ori_skills_hub.Value.{get}
use ori_skills_hub.Prelude.{any, ◌*◌, ◌≡◌, ◌≤◌, ◌<◌, refl, true, some, codes, text_eq}
use ori_skills_hub.Database.{ScanJob}
use ori_skills_hub.ScanQueue.{second}
use ori_skills_hub.ScanWorker.{Policy, check_policy, World, found, Metrics, delay, decide}
use ori_skills_hub.ScanWorker.Bounds.{is_retry, delay-bounds, decide-WithinBudget}
use ori_skills_hub.ScanWorker.Decisions.{settles_clean, JobShown, decide-clean}
use ori_skills_hub.Scenarios.{at_time}
use ori_skills_hub.Scenarios.Scanning.{polled_job}
use ori_skills_hub.Scenarios.Scans.{clean_response}

abbrev default_policy : Policy
default_policy = record {
  lease_seconds = 30;
  initial_backoff = 2 * second;
  maximum_backoff = 300 * second;
  jitter = second;
  maximum_attempts = 20;
  maximum_job_age_seconds = 86400;
}

abbrev world : HttpOutcome → World
world http = record {
  claim_now = 300;
  claim_event_id = codes "event4";
  claim_stamp = 300;
  upload = found (codes "archive");
  configured = true;
  http = http;
  clock = 310;
  draw = 7;
  context = at_time 350;
}

abbrev no_metrics : Metrics
no_metrics = record {
  claims = 0;
  submissions = 0;
  polls = 0;
  rate_limits = 0;
  exhausted = 0;
  completed = 0;
}

-- The job of the scenario, under the identifier of the response.
abbrev job : ScanJob
job = record polled_job { provider_analysis_id = some (codes "a1") }

delay-bounds_example :
    (2 * second ≤ delay default_policy 7 3) × (delay default_policy 7 3 ≤ 300 * second)
unfolding check_policy
delay-bounds_example = delay-bounds default_policy 7 3 refl

retried : is_retry (decide default_policy (codes "w1") (world timeout) job no_metrics).0 ≡ true
unfolding decide poll_once provider_id any raise_provider_status analysis_state get text_eq
    normalised_stats non_negative_count completed_verdict sum_counts verdict_of_counts
retried = refl

decide-WithinBudget_example : 2 < 20
decide-WithinBudget_example =
    decide-WithinBudget default_policy (codes "w1") (world timeout) job no_metrics retried

settled :
    settles_clean
      (decide default_policy (codes "w1") (world (response clean_response)) job no_metrics).0
    ≡ true
unfolding decide poll_once provider_id any raise_provider_status analysis_state get text_eq
    normalised_stats non_negative_count completed_verdict sum_counts verdict_of_counts
settled = refl

decide-clean_example : JobShown (response clean_response) (some (codes "a1"))
decide-clean_example =
    decide-clean default_policy (codes "w1") (world (response clean_response)) job no_metrics
      settled
