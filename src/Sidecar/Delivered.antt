-- ===== src/Sidecar/Delivered.antt =====
-- `request_miner` of src/oathcast/application_payment.py as a whole: what stands behind a response that it
-- returns.
use oathcast.Sidecar.Gate.{IsAdmitted, request_miner-gated}
use oathcast.Sidecar.Verified.{IsVerified, response-IsVerified}
use oathcast.Sidecar.Boundary.{Boundary, SidecarClient, MinerRequest, request_miner, delivered}
use oathcast.Sidecar.Response.{PaidResponse}
use oathcast.Json.{Fields}
use oathcast.Prelude.Exec.{Result, ok, Sure-ok, err}
use oathcast.Prelude.{◌≡◌, ap, inl, inr, sym, ◌∙◌}
use oathcast.Sidecar.Text.{ClientFault}

module _ {S : Type 0} (b : Boundary) (client : SidecarClient S) (r : MinerRequest) (s s' : S) where
  abbrev pub Behind : PaidResponse → Type 0
  Behind response =
      (payload : Fields) × (answer : Fields) × IsAdmitted b r payload
      × (client payload s ≡ (ok answer, s'))
      × IsVerified answer response

  delivered-ok :
      (response : PaidResponse) (p : Result ClientFault Fields × S)
      → delivered b.host p ≡ (ok response, s')
      → (answer : Fields) × (p ≡ (ok answer, s')) × IsVerified answer response
  delivered-ok response (ok answer, t) e = (
    answer,
    (λ i. (ok answer, (e i).1)),
    Sure-ok (IsVerified answer) _ response (ap (λ p. p.0) e) (response-IsVerified answer b.host),
  )
  delivered-ok response (err fault, t) e = cc

  -- A response that `request_miner` returns has been paid for as the user asked and is verified: the
  -- client was called with the payload of an admitted request, it answered, and the returned response is
  -- that answer's, with a status of success and with evidence of a confirmed transfer on the expected
  -- network under the hashes and the signature that the response carries.
  pub request_miner-verified :
      (response : PaidResponse) → request_miner b client r s ≡ (ok response, s') → Behind response
  request_miner-verified response e = elim (request_miner-gated b client r s) [
    | inl (fault, raised) ↦ cc
    | inr (payload, admitted, called) ↦
        let (answer, answered, checked) =
          delivered-ok response (client payload s) (sym called ∙ e) in
        (payload, answer, admitted, answered, checked)
  ]
