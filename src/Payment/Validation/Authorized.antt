-- ===== src/Payment/Validation/Authorized.antt =====
-- The authorization that a signer receives, for a challenge that has passed validation.
use oathcast.Json.{Host, Fields}
use oathcast.Payment.Challenge.{Challenge, Policy, version, minimum_usdc_microunits}
use oathcast.Payment.Validation.{from_challenge, allows_version, authorization_for}
use oathcast.Payment.Validation.Approved.{IsApproved}
use oathcast.Prelude.{List, String, Option, ◌≡◌, true, some, ◌≤◌, none, ◌⊎◌, refl, false, inl, inr}
use oathcast.Prelude.Int.{ℤ}
use oathcast.Prelude.Moment.{Moment}
use oathcast.Payment.Authorization.{Authorization}
use oathcast.Prelude.Exec.{ok}

allows_version-some :
    (vs : List ℤ) (v : Option ℤ) → allows_version vs v ≡ true → (n : ℤ) × (v ≡ some n)
allows_version-some vs none e = cc
allows_version-some vs (some n) e = (n, refl)

module _ (h : Host) (challenge : Challenge) (url : String) (policy : Policy) (now : Moment) where
  -- A validated option always makes an authorization; it names the requested URL, the recipient of the
  -- policy, an amount between the floor and the cap, and no other resource than the URL.
  pub from_challenge-approved :
      (option : Fields)
      → IsApproved h challenge.payload url policy now option
      → (a : Authorization) × (from_challenge h challenge url option ≡ ok a)
        × (a.request_url ≡ url)
        × (minimum_usdc_microunits ≤ a.amount_micro_usdc)
        × (a.amount_micro_usdc ≤ policy.max_amount_micro_usdc)
        × (h.lower a.pay_to ≡ h.lower policy.expected_pay_to)
        × ((a.resource_url ≡ some url) ⊎ (a.resource_url ≡ none))
  unfolding from_challenge
  from_challenge-approved option approved =
      let (v, ev) =
        allows_version-some policy.allowed_versions (version h challenge.payload)
          approved.versioned in
      let (n, en, low, high) = approved.amount in
      let (p, ep, lower) = approved.recipient in
      (
        authorization_for h challenge url option v n p,
        rw (ev, en, ep) refl,
        refl,
        low,
        high,
        lower,
        resource approved.resource,
      )
    where
      resource :
          {r : Option String}
          → (r ≡ some url) ⊎ ((r ≡ none) × (policy.require_resource ≡ false))
          → (r ≡ some url) ⊎ (r ≡ none)
      resource (inl e) = inl e
      resource (inr e) = inr e.0
