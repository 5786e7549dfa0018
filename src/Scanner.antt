-- ===== src/Scanner.antt =====
-- hub/integrations/scan.py: one submission and one poll of VirusTotal, from the HTTP response on. The
-- HTTP client is not modelled: a call takes what `httpx` gave. `retry_after` is the value of
-- `_retry_after_seconds`, in the unit of the timestamps.
pub mod Counts
pub mod Responses
pub mod Verdict
use ori_skills_hub.Prelude.{
  ℕ, ◌+◌, Text, Bool, true, false, ◌&&◌, ◌||◌, Option, none, some, List, [], ◌∷◌, ◌++◌, any, length,
  is_nil, codes, text_eq, ltb, leb, ◌==◌, Result, ok, err, ◌>>=◌, ◌>>◌, guard, reject,
  if◌then◌else◌,
}
use ori_skills_hub.Value.{
  has_string_keys, pos, negsuc, name, not_string, Value, null, integer, str, obj, Fields, end,
  field, get,
}
use ori_skills_hub.ScanQueue.Evidence.{decimal}

pub record ScanResult : Type 0 where
  pub status : Text
  pub detail : Text

pub record PollResult : Type 0 where
  pub completed : Bool
  pub result : Option ScanResult
  pub stats : Fields

-- `ScannerProviderError` and its subclasses, with `str(exc)` or the delay that they carry, and the
-- internal `_InvalidVirusTotalResponse`.
pub data ScanError : Type 0 where
  invalid_response : ScanError
  provider authentication temporary : Text → ScanError
  rate_limit : ℕ → ScanError

pub record Response : Type 0 where
  pub status_code : ℕ
  pub content_length : ℕ
  pub json : Option Value
  pub retry_after : ℕ

pub data HttpOutcome : Type 0 where
  response : Response → HttpOutcome
  timeout http_error : HttpOutcome

-- `_raise_provider_status`; `response.is_error` is a status of 400 to 599.
unfoldable pub raise_provider_status : Response → Result ScanError (Unit {0})
raise_provider_status r = do
  reject (r.status_code == 401 || r.status_code == 403)
      (authentication (codes "VirusTotal authentication failed"))
  reject (r.status_code == 429) (rate_limit r.retry_after)
  reject (leb 500 r.status_code)
      (temporary (codes "VirusTotal service returned HTTP " ++ decimal r.status_code))
  reject (leb 400 r.status_code && leb r.status_code 599)
      (provider (codes "VirusTotal request returned HTTP " ++ decimal r.status_code))

unfoldable pub object_mapping : Value → Result ScanError Fields
unfolding has_string_keys
object_mapping (obj fields) = if has_string_keys fields then ok fields else err invalid_response
object_mapping v = err invalid_response

unfoldable pub json_object : Response → Result ScanError Fields
unfolding object_mapping
json_object r = do
  reject (ltb 1048576 r.content_length) invalid_response
  elim r.json [ none ↦ err invalid_response | some v ↦ object_mapping v ]

-- `value == text`, for a text
abbrev pub is_str : Text → Value → Bool
is_str t (str s) = text_eq s t
is_str t _ = false

-- `_provider_id`
unfoldable pub provider_id : Text → Result ScanError Text
provider_id value = do
  reject (is_nil value || ltb 512 (length value) || any (λ c. ltb c 32 || c == 127) value)
      (provider (codes "VirusTotal analysis identifier is invalid"))
  ok value

abbrev pub non_empty_text : Value → Result ScanError Text
non_empty_text (str s) = do reject (is_nil s) invalid_response; ok s
non_empty_text _ = err invalid_response

unfoldable pub analysis_id_from_upload : Response → Result ScanError Text
unfolding json_object provider_id
analysis_id_from_upload r = do
  payload ← json_object r
  data_fields ← object_mapping (get payload (codes "data"))
  guard (is_str (codes "analysis") (get data_fields (codes "type"))) invalid_response
  analysis_id ← non_empty_text (get data_fields (codes "id"))
  provider_id analysis_id

abbrev pub optional_mapping : Value → Result ScanError (Option Fields)
optional_mapping null = ok none
optional_mapping v = do fields ← object_mapping v; ok (some fields)

-- `_analysis_state`: the status, and the stats if there are any.
unfoldable pub analysis_state : Response → Text → Result ScanError (Text × Option Fields)
unfolding json_object
analysis_state r expected_id = do
  payload ← json_object r
  data_fields ← object_mapping (get payload (codes "data"))
  guard
      (is_str (codes "analysis") (get data_fields (codes "type"))
        && is_str expected_id (get data_fields (codes "id")))
      invalid_response
  attributes ← object_mapping (get data_fields (codes "attributes"))
  status ← non_empty_text (get attributes (codes "status"))
  stats ← optional_mapping (get attributes (codes "stats"))
  ok (status, stats)

-- `_non_negative_count`
unfoldable pub non_negative_count : Fields → Text → Result ScanError ℕ
non_negative_count stats key = elim (get stats key) [
  | integer n ↦ elim n [ pos k ↦ ok k | negsuc k ↦ err invalid_response ]
  | _ ↦ err invalid_response
]

abbrev pub inconclusive_stat_names : List Text
inconclusive_stat_names =
    codes "undetected"
    ∷ codes "failure"
    ∷ codes "timeout"
    ∷ codes "confirmed-timeout"
    ∷ codes "type-unsupported"
    ∷ []

-- `sum(_non_negative_count(stats, name) for name in names)`
unfoldable pub sum_counts : Fields → List Text → Result ScanError ℕ
sum_counts stats [] = ok 0
sum_counts stats (k ∷ names) = do
  n ← non_negative_count stats k
  rest ← sum_counts stats names
  ok (n + rest)

unfoldable pub pending : Text → ScanResult
pending reason = record {
  status = codes "pending_manual_review";
  detail = reason ++ codes "; manual review required";
}

-- The verdict of `_completed_verdict` on the four counts.
unfoldable pub verdict_of_counts : ℕ → ℕ → ℕ → ℕ → ScanResult
verdict_of_counts malicious suspicious harmless inconclusive =
    if ltb 0 malicious
    then record {
      status = codes "malicious";
      detail =
          codes "VirusTotal detected malware (malicious="
          ++ (decimal malicious ++ (codes ", suspicious=" ++ (decimal suspicious ++ codes ")")));
    }
    else if ltb 0 suspicious
    then pending (
        codes "VirusTotal returned suspicious detections (suspicious="
        ++ (decimal suspicious ++ codes ")"))
    else if harmless == 0
    then pending (codes "VirusTotal analysis returned no affirmative harmless results")
    else if leb harmless inconclusive
    then pending (
        codes "VirusTotal analysis returned insufficient affirmative harmless results (harmless="
        ++ (decimal harmless ++ (codes ", inconclusive=" ++ (decimal inconclusive ++ codes ")"))))
    else record {
      status = codes "clean";
      detail =
          codes "VirusTotal completed with an affirmative harmless majority (harmless="
          ++ (decimal harmless ++ (codes ", inconclusive=" ++ (decimal inconclusive ++ codes ")")));
    }

unfoldable pub completed_verdict : Option Fields → Result ScanError ScanResult
completed_verdict none = err invalid_response
completed_verdict (some stats) = do
  malicious ← non_negative_count stats (codes "malicious")
  suspicious ← non_negative_count stats (codes "suspicious")
  harmless ← non_negative_count stats (codes "harmless")
  inconclusive ← sum_counts stats inconclusive_stat_names
  ok (verdict_of_counts malicious suspicious harmless inconclusive)

unfoldable pub counts_of : Fields → List Text → Result ScanError Fields
counts_of stats [] = ok end
counts_of stats (k ∷ names) = do
  n ← non_negative_count stats k
  rest ← counts_of stats names
  ok (field (name k) (integer (pos n)) rest)

unfoldable pub normalised_stats : Option Fields → Result ScanError Fields
unfolding counts_of
normalised_stats none = err invalid_response
normalised_stats (some stats) =
    counts_of stats
      (codes "malicious" ∷ codes "suspicious" ∷ codes "harmless" ∷ inconclusive_stat_names)

-- The `except` clauses of `submit` and `poll_once`.
abbrev pub as_provider_error : {A : Type 0} → Result ScanError A → Result ScanError A
as_provider_error (err invalid_response) =
    err (provider (codes "VirusTotal returned an invalid response"))
as_provider_error r = r

abbrev pub with_response :
    {A : Type 0} → HttpOutcome → (Response → Result ScanError A) → Result ScanError A
with_response (response r) k = as_provider_error (k r)
with_response timeout k = err (temporary (codes "VirusTotal request timed out"))
with_response http_error k = err (temporary (codes "VirusTotal request failed"))

-- `submit`; `configured` says that there is an API key.
unfoldable pub submit : Bool → Text → HttpOutcome → Result ScanError Text
submit configured payload http = do
  guard configured (authentication (codes "VirusTotal API key is not configured"))
  reject (is_nil payload || ltb 33554432 (length payload))
      (provider (codes "archive cannot be submitted to VirusTotal"))
  with_response http (λ r. raise_provider_status r >> analysis_id_from_upload r)

-- The outcome of a completed analysis.
unfoldable pub final_outcome : Option Fields → Result ScanError PollResult
final_outcome raw_stats = do
  stats ← normalised_stats raw_stats
  result ← completed_verdict raw_stats
  ok (record { completed = true; result = some result; stats = stats })

-- The outcome of one poll by the status of the analysis.
unfoldable pub poll_outcome : Text → Option Fields → Result ScanError PollResult
unfolding final_outcome
poll_outcome status raw_stats =
    if text_eq status (codes "queued") || text_eq status (codes "in-progress")
    then ok (record { completed = false; result = none; stats = end })
    else if text_eq status (codes "completed")
    then final_outcome raw_stats
    else err (provider (codes "VirusTotal returned an unknown analysis status"))

-- The reading of the response to a poll.
unfoldable pub read_poll : Text → Response → Result ScanError PollResult
unfolding poll_outcome
read_poll safe_id r = do
  raise_provider_status r
  (status, raw_stats) ← analysis_state r safe_id
  poll_outcome status raw_stats

unfoldable pub poll_once : Bool → Text → HttpOutcome → Result ScanError PollResult
unfolding read_poll
poll_once configured analysis_id http = do
  guard configured (authentication (codes "VirusTotal API key is not configured"))
  safe_id ← provider_id analysis_id
  with_response http (read_poll safe_id)
