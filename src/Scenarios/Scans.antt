-- ===== src/Scenarios/Scans.antt =====
-- The scanner's theorem at a concrete response.
use ori_skills_hub.ScanQueue.Evidence.{decimal}
use ori_skills_hub.Scanner.{
  verdict_of_counts, sum_counts, completed_verdict, non_negative_count, normalised_stats,
  analysis_state, raise_provider_status, Response, response, PollResult, poll_once, provider_id,
}
use ori_skills_hub.Value.{get, Value, Fields, pos, name, integer, str, obj, end, field}
use ori_skills_hub.Prelude.{any, text_eq, ◌≡◌, refl, some, codes, true, ok}
use ori_skills_hub.Scanner.Verdict.{ShowsClean, poll_once-clean}

abbrev counts : Fields
counts = field (name (codes "malicious")) (integer (pos 0)) (
    field (name (codes "suspicious")) (integer (pos 0)) (
      field (name (codes "harmless")) (integer (pos 60)) (
        field (name (codes "undetected")) (integer (pos 5)) (
          field (name (codes "failure")) (integer (pos 0)) (
            field (name (codes "timeout")) (integer (pos 0)) (
              field (name (codes "confirmed-timeout")) (integer (pos 0))
                (field (name (codes "type-unsupported")) (integer (pos 1)) end)))))))

abbrev body : Value
body = obj (
    field (name (codes "data"))
      (obj (
        field (name (codes "type")) (str (codes "analysis")) (
          field (name (codes "id")) (str (codes "a1")) (
            field (name (codes "attributes"))
              (obj (
                field (name (codes "status")) (str (codes "completed"))
                  (field (name (codes "stats")) (obj counts) end)))
              end))))
      end)

abbrev pub clean_response : Response
clean_response = record {
  status_code = 200;
  content_length = 300;
  json = some body;
  retry_after = 60000000;
}

abbrev clean_poll : PollResult
clean_poll = record {
  completed = true;
  result = some (record {
    status = codes "clean";
    detail =
        codes
          "VirusTotal completed with an affirmative harmless majority (harmless=60, inconclusive=6)";
  });
  stats = counts;
}

clean_poll_result : poll_once true (codes "a1") (response clean_response) ≡ ok clean_poll
unfolding poll_once provider_id any raise_provider_status analysis_state get text_eq
    normalised_stats non_negative_count completed_verdict sum_counts verdict_of_counts decimal
clean_poll_result = refl

poll_once-clean_example :
    (r : Response) × (response clean_response ≡ response r) × ShowsClean (codes "a1") r
unfolding text_eq
poll_once-clean_example =
    poll_once-clean true (codes "a1") (response clean_response) clean_poll clean_poll_result (
      record {
        status = codes "clean";
        detail =
            codes
              "VirusTotal completed with an affirmative harmless majority (harmless=60, inconclusive=6)";
      },
      refl,
      refl,
    )
