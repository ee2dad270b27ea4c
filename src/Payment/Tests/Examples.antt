-- ===== src/Payment/Tests/Examples.antt =====
-- The theorems of the payment boundary, applied at the scenario.
use oathcast.Json.Numbers.{to_int}
use oathcast.Prelude.{[], ◌∷◌, ◌≡◌, refl, List, arith, some, ◌≤◌, none, ◌⊎◌}
use oathcast.Prelude.Exec.{ok, err}
use oathcast.Payment.Tests.Scenario.{config, url, visits, host, payload, option, noon}
use oathcast.Payment.Authorization.{Authorization}
use oathcast.Payment.Journal.Table.{
  blocking_count, Status, select, blocking_total, Row, aborted, submitted, one_if_blocking,
  amount_if_blocking, reserved, delete,
}
use oathcast.Payment.Journal.History.{
  IsSound, Call, replay, reserve_call, replay-IsSound, perform, submitted_call, unknown_call,
}
use oathcast.Payment.Journal.Methods.{
  Error, reserve, timestamp, abort_reservation, assert_available, insert, new_row,
}
use oathcast.Payment.Journal.Lifecycle.{
  Edge, IsSpent, status_of, IsDuplicate, no_second_reservation, perform-Edge,
}
use oathcast.Payment.Validation.{
  validate_for_request, authorization_for, from_challenge, first_candidate, is_candidate,
  check_option,
}
use oathcast.Payment.Validation.Approved.{validate-IsApproved}
use oathcast.Payment.Client.Once.{paid_count}
use oathcast.Payment.Challenge.{
  version, base_sepolia_network, minimum_usdc_microunits, base_sepolia_usdc, validate_deadline,
  accepts, amount_of, deadline_epoch_seconds, resource_url_of,
}
use oathcast.Payment.Client.Pay.{policy_of}
use oathcast.Payment.Client.AtMostOnce.{happen, fresh_world, paid_at_most_once}
use oathcast.Prelude.Int.{pos}
use oathcast.Payment.Journal.Written.{Reserved, reserve-Reserved}
use oathcast.Clock.{iso_utc, format_timestamp}
use oathcast.Payment.Validation.Authorized.{from_challenge-approved}
use oathcast.Payment.Journal.Again.{freed, reserve-again}

abbrev authorization : Authorization
authorization =
    authorization_for host (record { encoded_header = "challenge"; payload = payload }) url option
      (pos 2) 10000 "0xabc"

abbrev calls : List Call
calls =
    (reserve_call authorization noon)
    ∷ (submitted_call authorization noon)
    ∷ (unknown_call url "timeout" noon)
    ∷ []

empty-IsSound : IsSound config.limits []
unfolding blocking_count blocking_total
empty-IsSound = record { keyed = tt; count = omega arith; total = omega arith }

abbrev row : Status → Row
row status = record {
  request_url = url;
  status = status;
  amount_micro_usdc = 10000;
  pay_to = "0xabc";
  network = base_sepolia_network;
  asset = base_sepolia_usdc;
  request_sha256 = url;
  challenge_sha256 = "c";
  authorization_sha256 = "a";
  settlement_evidence = none;
  error = none;
  created_at = "t";
  updated_at = "t";
}

submitted-IsSound : IsSound config.limits ((row submitted) ∷ [])
unfolding blocking_count blocking_total select one_if_blocking amount_if_blocking
submitted-IsSound = record { keyed = (refl, tt); count = omega arith; total = omega arith }

replay-IsSound_example : IsSound config.limits (replay host config.limits calls [])
replay-IsSound_example = replay-IsSound host config.limits calls [] empty-IsSound

submitted-IsSpent : IsSpent (status_of url ((row submitted) ∷ []))
unfolding select
submitted-IsSpent = tt

no_second_reservation_example :
    (e : Error) × (reserve host authorization config.limits noon
        (replay host config.limits calls ((row submitted) ∷ []))
      ≡ (err e, replay host config.limits calls ((row submitted) ∷ [])))
    × IsDuplicate e
no_second_reservation_example =
    no_second_reservation host config.limits authorization calls ((row submitted) ∷ []) noon
      submitted-IsSound submitted-IsSpent refl

perform-Edge_example : Edge (status_of url ((row submitted) ∷ [])) (
    status_of url
      (perform host config.limits (unknown_call url "timeout" noon) ((row submitted) ∷ [])).1)
perform-Edge_example =
    perform-Edge host config.limits url (unknown_call url "timeout" noon) ((row submitted) ∷ [])
      submitted-IsSound.keyed

reserve-Reserved_example :
    Reserved authorization config.limits
      (iso_utc noon.micros)
      ((row aborted) ∷ [])
      (reserve host authorization config.limits noon ((row aborted) ∷ []))
reserve-Reserved_example =
    reserve-Reserved host authorization config.limits noon ((row aborted) ∷ []) refl

validated : validate_for_request host payload url (policy_of config) noon ≡ ok option
unfolding validate_for_request version to_int validate_deadline first_candidate accepts is_candidate
    amount_of deadline_epoch_seconds resource_url_of check_option
validated = refl

from_challenge-approved_example :
    (a : Authorization) × (from_challenge host
        (record { encoded_header = "challenge"; payload = payload })
        url
        option
      ≡ ok a)
    × (a.request_url ≡ url)
    × (minimum_usdc_microunits ≤ a.amount_micro_usdc)
    × (a.amount_micro_usdc ≤ (policy_of config).max_amount_micro_usdc)
    × (host.lower a.pay_to ≡ host.lower (policy_of config).expected_pay_to)
    × ((a.resource_url ≡ some url) ⊎ (a.resource_url ≡ none))
from_challenge-approved_example =
    from_challenge-approved host (record { encoded_header = "challenge"; payload = payload }) url
      (policy_of config) noon option
      (validate-IsApproved host payload url (policy_of config) noon option validated)

paid_at_most_once_example : paid_count url (happen config.limits visits fresh_world).sent ≤ 1
paid_at_most_once_example = paid_at_most_once config.limits visits url

reserved_once : (reserve host authorization config.limits noon ((row aborted) ∷ [])).0 ≡ ok tt
unfolding reserve timestamp format_timestamp assert_available insert select blocking_count
    blocking_total one_if_blocking amount_if_blocking delete new_row
reserved_once = refl

reserve-again_example :
    ((abort_reservation url "timeout" noon
        (reserve host authorization config.limits noon ((row aborted) ∷ [])).1).0
      ≡ ok tt)
    × ((reserve host authorization config.limits noon
          (freed host authorization config.limits "timeout" noon noon ((row aborted) ∷ []))).0
        ≡ ok tt)
    × (status_of url
          (reserve host authorization config.limits noon
            (freed host authorization config.limits "timeout" noon noon ((row aborted) ∷ []))).1
        ≡ some reserved)
unfolding select
reserve-again_example =
    reserve-again host authorization config.limits "timeout" noon noon noon ((row aborted) ∷ [])
      (refl, tt) reserved_once refl refl
