-- ===== src/Scanner/Verdict.antt =====
-- hub/integrations/scan.py: the evidence behind a clean result.
use ori_skills_hub.Prelude.{
  ◌<◌, ◌≤◌, text_eq_iff, ◌≡◌, refl, sym, ap, subst, ◌∙◌, Text, Bool, true, false, Option, none,
  some, codes, text_eq, arith, Result, ok, err, >>=-eq-ok, ok-eq, guard, if◌then◌else◌,
}
use ori_skills_hub.Value.{str, obj, Fields, end, get}
use ori_skills_hub.Scanner.{
  ScanResult, PollResult, ScanError, Response, HttpOutcome, response, timeout, http_error,
  raise_provider_status, completed_verdict, normalised_stats, analysis_state, final_outcome,
  read_poll, with_response, poll_outcome, poll_once, provider_id,
}
use ori_skills_hub.Scanner.Counts.{IsClean, HasCleanStatus, completed_verdict-IsClean}
use ori_skills_hub.Scanner.Responses.{raise_provider_status-below, analysis_state-IsState}

-- The outcome is a completed analysis with a clean result.
abbrev pub ReportsClean : PollResult → Type 0
ReportsClean p = (r : ScanResult) × (p.result ≡ some r) × HasCleanStatus r

final_outcome-IsClean :
    (raw : Option Fields) (p : PollResult)
    → final_outcome raw ≡ ok p
    → ReportsClean p
    → (stats : Fields) × (raw ≡ some stats) × IsClean stats
unfolding final_outcome
final_outcome-IsClean raw p h (r, e, q) =
    let (stats, _, k) = >>=-eq-ok (normalised_stats raw) _ h in
    let (result, c, k1) = >>=-eq-ok (completed_verdict raw) _ k in
    completed_verdict-IsClean raw result c
      (subst HasCleanStatus (some-eq r result (sym e ∙ reported result stats p k1)) q)
  where
    reported :
        (result : ScanResult) (stats : Fields) (p : PollResult)
        → ◌≡◌ {A = Result ScanError PollResult}
            (ok (record { completed = true; result = some result; stats = stats }))
            (ok p)
        → p.result ≡ some result
    reported result stats p h = ap (λ (o : PollResult). o.result) (sym (ok-eq _ p h))

    some-eq : (a b : ScanResult) → ◌≡◌ {A = Option ScanResult} (some a) (some b) → a ≡ b
    some-eq a b h = ground arith

none-reported :
    {A : Type 0} (p : PollResult) (r : ScanResult)
    → ◌≡◌ {A = Result ScanError PollResult}
        (ok (record { completed = false; result = none; stats = end }))
        (ok p)
    → p.result ≡ some r
    → A
none-reported p r h e = cc (none_some (ap (λ (o : PollResult). o.result) (ok-eq _ p h) ∙ e))
  where
    none_some : ◌≡◌ {A = Option ScanResult} none (some r) → true ≡ false
    none_some h = cc

outcome_cases :
    (running done : Bool) (e : ScanError) (raw : Option Fields) (p : PollResult)
    → (if running
        then ok (record { completed = false; result = none; stats = end })
        else if done
        then final_outcome raw
        else err e)
      ≡ ok p
    → ReportsClean p
    → (stats : Fields) × (raw ≡ some stats) × IsClean stats × (done ≡ true)
outcome_cases true done e raw p h (r, q, _) = none-reported p r h q
outcome_cases false true e raw p h c =
    let (stats, f, clean) = final_outcome-IsClean raw p h c in (stats, f, clean, refl)
outcome_cases false false e raw p h c = cc

poll_outcome-IsClean :
    (status : Text) (raw : Option Fields) (p : PollResult)
    → poll_outcome status raw ≡ ok p
    → ReportsClean p
    → (stats : Fields) × (raw ≡ some stats)
      × IsClean stats
      × (text_eq status (codes "completed") ≡ true)
unfolding poll_outcome
poll_outcome-IsClean status raw p h c = outcome_cases _ _ _ raw p h c

-- The response to a poll shows a completed analysis of this identifier, whose counts are clean.
pub record ShowsClean (id : Text) (r : Response) : Type 0 where
  pub payload : Fields
  pub data_fields : Fields
  pub attributes : Fields
  pub stats : Fields
  pub not_error : r.status_code < 400
  pub small : r.content_length ≤ 1048576
  pub body : r.json ≡ some (obj payload)
  pub has_data : get payload (codes "data") ≡ obj data_fields
  pub is_analysis : get data_fields (codes "type") ≡ str (codes "analysis")
  pub of_id : get data_fields (codes "id") ≡ str id
  pub with_attributes : get data_fields (codes "attributes") ≡ obj attributes
  pub is_completed : get attributes (codes "status") ≡ str (codes "completed")
  pub with_stats : get attributes (codes "stats") ≡ obj stats
  pub counts : IsClean stats

read_poll-ShowsClean :
    (id : Text) (r : Response) (p : PollResult)
    → read_poll id r ≡ ok p
    → ReportsClean p
    → ShowsClean id r
unfolding read_poll
read_poll-ShowsClean id r p h c =
    let (_, a, k) = >>=-eq-ok (raise_provider_status r) _ h in
    let ((status, raw), s, k1) = >>=-eq-ok (analysis_state r id) _ k in
    let (stats, e, clean, done) = poll_outcome-IsClean status raw p k1 c in
    let q = analysis_state-IsState r id status stats (s ∙ ap (λ o. ok (status, o)) e) in
    record {
      payload = q.payload;
      data_fields = q.data_fields;
      attributes = q.attributes;
      stats = stats;
      not_error = raise_provider_status-below r a;
      small = q.body.0;
      body = q.body.1;
      has_data = q.has_data;
      is_analysis = q.is_analysis;
      of_id = q.of_id;
      with_attributes = q.with_attributes;
      is_completed = q.has_status ∙ ap str ((text_eq_iff status (codes "completed")).0 done);
      with_stats = q.with_stats;
      counts = clean;
    }

with_response-ok :
    {A : Type 0} (http : HttpOutcome) (k : Response → Result ScanError A) {a : A}
    → with_response http k ≡ ok a
    → (r : Response) × (http ≡ response r) × (k r ≡ ok a)
with_response-ok (response r) k h = (r, refl, ground arith)
with_response-ok timeout k h = cc
with_response-ok http_error k h = cc

provider_id-eq : (value id : Text) → provider_id value ≡ ok id → id ≡ value
unfolding provider_id
provider_id-eq value id h = ground arith

-- A poll reports a clean result only from a response with a status below 400 and at most 1048576
-- bytes, whose JSON body has a data object of type "analysis" with the polled identifier, the status
-- "completed" and stats that count no malicious and no suspicious engine and more harmless engines
-- than undetected, failed, timed out, confirmed timed out and unsupported ones together.
pub poll_once-clean :
    (configured : Bool) (analysis_id : Text) (http : HttpOutcome) (p : PollResult)
    → poll_once configured analysis_id http ≡ ok p
    → ReportsClean p
    → (r : Response) × (http ≡ response r) × ShowsClean analysis_id r
unfolding poll_once
poll_once-clean configured analysis_id http p h c =
    let (_, _, k) = >>=-eq-ok (guard configured _) _ h in
    let (safe_id, s, k1) = >>=-eq-ok (provider_id analysis_id) _ k in
    let (r, e, k2) = with_response-ok http (read_poll safe_id) k1 in
    (
      r,
      e,
      subst (λ i. ShowsClean i r) (provider_id-eq analysis_id safe_id s)
          (read_poll-ShowsClean safe_id r p k2 c),
    )
