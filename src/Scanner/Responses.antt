-- ===== src/Scanner/Responses.antt =====
-- hub/integrations/scan.py: what an accepted response to a poll says.
use ori_skills_hub.Prelude.{
  ℕ, ◌<◌, ◌≤◌, ◌&&◌, &&-split, reject-ok, reject-eq-ok, guard-eq-ok, is_nil, text_eq_iff, ◌≡◌, ap,
  ◌∙◌, Text, true, false, Option, none, some, codes, ltb, leb, arith, Result, ok, err, >>=-eq-ok,
  ok-eq, if-keeps,
}
use ori_skills_hub.Value.{Value, null, str, obj, Fields, get, has_string_keys}
use ori_skills_hub.Scanner.{
  ScanError, Response, object_mapping, json_object, is_str, non_empty_text, optional_mapping,
  invalid_response, authentication, rate_limit, temporary, provider, raise_provider_status,
  analysis_state,
}

pub below_errors :
    (code : ℕ) → leb 500 code ≡ false → (leb 400 code && leb code 599) ≡ false → code < 400
below_errors code server client = ground arith

pub raise_provider_status-below :
    (r : Response) → raise_provider_status r ≡ ok tt → r.status_code < 400
unfolding raise_provider_status
raise_provider_status-below r h =
    let (_, k) = reject-eq-ok _ (authentication _) _ h in
    let (_, k1) = reject-eq-ok _ (rate_limit _) _ k in
    let (server, k2) = reject-eq-ok (leb 500 r.status_code) (temporary _) _ k1 in
    let client = reject-ok (leb 400 r.status_code && leb r.status_code 599) (provider _) k2 in
    below_errors r.status_code server client

pub object_mapping-obj :
    (v : Value) (fields : Fields) → object_mapping v ≡ ok fields → v ≡ obj fields
unfolding object_mapping
object_mapping-obj (obj fs) fields h =
    if-keeps (λ (o : Result ScanError Fields). o ≡ ok fields → obj fs ≡ obj fields)
      (has_string_keys fs) _ _ (λ _ e. ap obj (ok-eq fs fields e)) (λ _ e. cc) h
object_mapping-obj v fields h = cc

pub same_mapping :
    (a b : Fields) → ◌≡◌ {A = Result ScanError (Option Fields)} (ok (some a)) (ok (some b)) → a ≡ b
same_mapping a b h = ground arith

pub no_mapping :
    {A : Type 0} (fields : Fields)
    → ◌≡◌ {A = Result ScanError (Option Fields)} (ok none) (ok (some fields))
    → A
no_mapping fields h = cc

pub optional_mapping-obj :
    (v : Value) (fields : Fields) → optional_mapping v ≡ ok (some fields) → v ≡ obj fields
unfolding object_mapping
optional_mapping-obj null fields h = cc h
optional_mapping-obj (obj fs) fields h =
    let (mapping, e, k) = >>=-eq-ok (object_mapping (obj fs)) _ h in
    object_mapping-obj (obj fs) mapping e ∙ ap obj (same_mapping mapping fields k)
optional_mapping-obj v fields h = cc

pub json_object-body :
    (r : Response) (payload : Fields)
    → json_object r ≡ ok payload
    → (r.content_length ≤ 1048576) × (r.json ≡ some (obj payload))
unfolding json_object
json_object-body r payload h =
    let (small, k) = reject-eq-ok (ltb 1048576 r.content_length) invalid_response _ h in
    (ground (arith, small), of_json r.json k)
  where
    of_json :
        (o : Option Value)
        → elim o [ none ↦ err invalid_response | some v ↦ object_mapping v ] ≡ ok payload
        → o ≡ some (obj payload)
    of_json none h = cc
    of_json (some v) h = ap some (object_mapping-obj v payload h)

pub is_str-str : (t : Text) (v : Value) → is_str t v ≡ true → v ≡ str t
is_str-str t (str s) h = ap str ((text_eq_iff s t).0 h)
is_str-str t v h = cc

pub non_empty_text-str : (v : Value) (t : Text) → non_empty_text v ≡ ok t → v ≡ str t
non_empty_text-str (str s) t h =
    let (_, k) = reject-eq-ok (is_nil s) invalid_response _ h in ap str (ok-eq s t k)
non_empty_text-str v t h = cc

-- What an accepted state says of the response.
pub record IsState (id status : Text) (stats : Fields) (r : Response) : Type 0 where
  pub payload : Fields
  pub data_fields : Fields
  pub attributes : Fields
  pub body : (r.content_length ≤ 1048576) × (r.json ≡ some (obj payload))
  pub has_data : get payload (codes "data") ≡ obj data_fields
  pub is_analysis : get data_fields (codes "type") ≡ str (codes "analysis")
  pub of_id : get data_fields (codes "id") ≡ str id
  pub with_attributes : get data_fields (codes "attributes") ≡ obj attributes
  pub has_status : get attributes (codes "status") ≡ str status
  pub with_stats : get attributes (codes "stats") ≡ obj stats

pub analysis_state-IsState :
    (r : Response) (id status : Text) (stats : Fields)
    → analysis_state r id ≡ ok (status, some stats)
    → IsState id status stats r
unfolding analysis_state
analysis_state-IsState r id status stats h =
    let (payload, e, k) = >>=-eq-ok (json_object r) _ h in
    let (data_fields, e1, k1) = >>=-eq-ok (object_mapping (get payload (codes "data"))) _ k in
    let (g, k2) = guard-eq-ok _ invalid_response _ k1 in
    let (typed, named) = &&-split _ _ g in
    let (attributes, e3, k3) =
      >>=-eq-ok (object_mapping (get data_fields (codes "attributes"))) _ k2 in
    let (t, e4, k4) = >>=-eq-ok (non_empty_text (get attributes (codes "status"))) _ k3 in
    let (o, e5, k5) = >>=-eq-ok (optional_mapping (get attributes (codes "stats"))) _ k4 in
    let p = ok-eq (t, o) (status, some stats) k5 in
    record {
      payload = payload;
      data_fields = data_fields;
      attributes = attributes;
      body = json_object-body r payload e;
      has_data = object_mapping-obj _ data_fields e1;
      is_analysis = is_str-str _ _ typed;
      of_id = is_str-str _ _ named;
      with_attributes = object_mapping-obj _ attributes e3;
      has_status = non_empty_text-str _ t e4 ∙ ap (λ (q : Text × Option Fields). str q.0) p;
      with_stats = optional_mapping-obj _ stats (e5 ∙ ap (λ (q : Text × Option Fields). ok q.1) p);
    }
