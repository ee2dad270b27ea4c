-- ===== src/Sidecar/Gate.antt =====
-- What `request_miner` of src/oathcast/application_payment.py has checked when it calls its client.
use oathcast.Prelude.Checked.{Sure-bind, Sure-then, Sure-guard}
use oathcast.Sidecar.Text.{
  safe_text, codes, PaymentError, id_pattern, miner_id_pattern, endpoint_pattern,
}
use oathcast.Sidecar.Boundary.{
  Boundary, MinerRequest, SidecarClient, admit, request_miner, dispatch, delivered, normalized,
  fingerprint, payload_of,
}
use oathcast.Prelude.{
  String, Bool, ℕ, ◌≡◌, ◌&&◌, one_of, List, true, leb→le, some, arith, eq_iff, ◌⊎◌, refl, length,
  inr, ◌≤◌, inl, leb, ◌==◌, both,
}
use oathcast.Json.{Fields, text}
use oathcast.Prelude.Exec.{Sure, Result, err, ok}

safe_text-matches :
    (name : String) (maximum : ℕ) (pattern : List ℕ → Bool) (s t : String)
    → safe_text name maximum (some pattern) (text s) ≡ ok t
    → pattern (codes s) ≡ true
unfolding safe_text
safe_text-matches name maximum pattern s t e = ground (arith, e)

-- A request that may be paid for, and the payload that is sent for it.
pub record IsAdmitted (b : Boundary) (r : MinerRequest) (payload : Fields) : Type 0 where
  pub consent : r.consent ≡ true
  pub principal : id_pattern (codes r.principal_id) ≡ true
  pub key : id_pattern (codes r.idempotency_key) ≡ true
  pub miner_named : miner_id_pattern (codes r.miner_id) ≡ true
  pub endpoint_named : endpoint_pattern (codes r.endpoint) ≡ true
  pub miner_allowed : one_of r.miner_id b.allowed_miner_ids ≡ true
  pub endpoint_allowed : one_of r.endpoint b.allowed_endpoints ≡ true
  pub few : length r.params ≤ b.max_params
  pub params : Fields
  pub params_safe : normalized b.max_param_value_length r.params ≡ ok params
  pub bound :
      fingerprint b.host r.principal_id r.idempotency_key r.miner_id r.endpoint params
      ≡ r.request_fingerprint
  pub sent : payload ≡ payload_of r params

admitted :
    (b : Boundary) (r : MinerRequest) (params : Fields) (principal key miner endpoint : String)
    → r.consent ≡ true
    → safe_text "principal_id" 128 (some id_pattern) (text r.principal_id) ≡ ok principal
    → safe_text "idempotency_key" 128 (some id_pattern) (text r.idempotency_key) ≡ ok key
    → safe_text "miner_id" 64 (some miner_id_pattern) (text r.miner_id) ≡ ok miner
    → safe_text "endpoint" 128 (some endpoint_pattern) (text r.endpoint) ≡ ok endpoint
    → (one_of r.miner_id b.allowed_miner_ids && one_of r.endpoint b.allowed_endpoints) ≡ true
    → leb (length r.params) b.max_params ≡ true
    → normalized b.max_param_value_length r.params ≡ ok params
    → (fingerprint b.host r.principal_id r.idempotency_key r.miner_id r.endpoint params
        == r.request_fingerprint)
      ≡ true
    → IsAdmitted b r (payload_of r params)
admitted b r params _ _ _ _ consent principal key miner endpoint allowed few safe bound =
    let (m, n) = both _ _ allowed in
    record {
      consent = consent;
      principal = safe_text-matches _ _ _ _ _ principal;
      key = safe_text-matches _ _ _ _ _ key;
      miner_named = safe_text-matches _ _ _ _ _ miner;
      endpoint_named = safe_text-matches _ _ _ _ _ endpoint;
      miner_allowed = m;
      endpoint_allowed = n;
      few = leb→le _ _ few;
      params = params;
      params_safe = safe;
      bound = (eq_iff _ _).0 bound;
      sent = refl;
    }

admit-IsAdmitted : (b : Boundary) (r : MinerRequest) → Sure (IsAdmitted b r) (admit b r)
unfolding admit
admit-IsAdmitted b r =
    search
      (
        Sure-then (IsAdmitted b r),
        Sure-bind (IsAdmitted b r),
        Sure-guard (IsAdmitted b r),
        admitted,
      )
      depth 40

dispatch-gated :
    {S : Type 0} (b : Boundary) (client : SidecarClient S) (r : MinerRequest) (s : S)
    (admitted : Result PaymentError Fields)
    → Sure (IsAdmitted b r) admitted
    → ((e : PaymentError) × (dispatch b client admitted s ≡ (err e, s)))
      ⊎ ((payload : Fields) × IsAdmitted b r payload
          × (dispatch b client admitted s ≡ delivered b.host (client payload s)))
dispatch-gated b client r s (ok payload) a = inr (payload, a, refl)
dispatch-gated b client r s (err e) a = inl (e, refl)

-- `request_miner` either raises and leaves the client untouched, or it calls the client once: with the
-- user's consent, for an allowlisted miner and endpoint with well-formed names, for at most `max_params`
-- parameters, with exactly the payload of the request and of its checked parameters, and only when the
-- fingerprint that the caller gave is the canonical one of that payload.
pub request_miner-gated :
    {S : Type 0} (b : Boundary) (client : SidecarClient S) (r : MinerRequest) (s : S)
    → ((e : PaymentError) × (request_miner b client r s ≡ (err e, s)))
      ⊎ ((payload : Fields) × IsAdmitted b r payload
          × (request_miner b client r s ≡ delivered b.host (client payload s)))
unfolding request_miner
request_miner-gated b client r s = dispatch-gated b client r s (admit b r) (admit-IsAdmitted b r)
