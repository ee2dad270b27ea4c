-- ===== src/Payment/Authorization.antt =====
-- `ValidatedPaymentAuthorization` of src/oathcast/payment.py: the one option a signer may authorize.
use oathcast.Prelude.{ℕ, String, Option, [], ◌∷◌}
use oathcast.Prelude.Int.{ℤ, pos}
use oathcast.Json.{Host, number, text, object, of_pairs, opt_text}
use oathcast.Json.Dumps.{sha256_json}

pub record Authorization : Type 0 where
  pub request_url : String
  pub challenge_sha256 : String
  pub version : ℤ
  pub scheme : String
  pub network : String
  pub asset : String
  pub amount_micro_usdc : ℕ
  pub pay_to : String
  pub resource_url : Option String
  pub challenge_payload_json : String
  pub option_json : String

-- The digest binds every field that a signer sees.
unfoldable pub authorization_sha256 : Host → Authorization → String
unfolding sha256_json
authorization_sha256 h a = sha256_json h (
    object (
      of_pairs (
        ("request_url", text a.request_url)
        ∷ ("challenge_sha256", text a.challenge_sha256)
        ∷ ("version", number a.version)
        ∷ ("scheme", text a.scheme)
        ∷ ("network", text a.network)
        ∷ ("asset", text a.asset)
        ∷ ("amount_micro_usdc", number (pos a.amount_micro_usdc))
        ∷ ("pay_to", text a.pay_to)
        ∷ ("resource_url", opt_text a.resource_url)
        ∷ ("option_json", text a.option_json)
        ∷ [])))
