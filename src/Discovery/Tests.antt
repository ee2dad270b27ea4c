-- ===== src/Discovery/Tests.antt =====
use oathcast.Prelude.{String, List, All, some, ◌∷◌, [], true, ◌≡◌, arith, refl, none}
use oathcast.Json.{Fields, of_pairs, object, text, array, cons, number, nil, null, real}
use oathcast.Discovery.Prices.{
  Decimals, price_to_micro_usdc, min_price_micro_usdc, explicit_micro_usdc,
}
use oathcast.Discovery.Miner.{
  from_dict, discover_weather_miners, integration_records, supports_weather, Capability,
  discover_from, intents_of, texts, is_listed,
}
use oathcast.Discovery.Complete.{has_slug, discover_weather_miners_complete}
use oathcast.Discovery.Records.{
  protocol_reliability, is_active, endpoint_path, reliability_out_of_range, endpoint_name, paths,
}
use oathcast.Json.TestHost.{test_host}
use oathcast.Discovery.Eligible.{IsEligible, discover_weather_miners-IsListing}
use oathcast.Prelude.Int.{pos}
use oathcast.Json.Numbers.{to_float, truthy}
use oathcast.Prelude.Exec.{err, ok}
use oathcast.Prelude.Distinct.{Distinct}  -- Concrete records of Miners, and the theorems applied there.

abbrev miner : String → String → Fields
miner id slug = of_pairs (
    ("id", text id)
    ∷ ("slug", text slug)
    ∷ ("intents", array (cons (text "WEATHER_CHECK") nil))
    ∷ ("avg_score", real (pos 700000))
    ∷ ("endpoints", array (cons (object (of_pairs (("path", text "/v2/weather/") ∷ []))) nil))
    ∷ ("on_chain", object (of_pairs (("min_price_usdc", number (pos 2500)) ∷ [])))
    ∷ [])

abbrev offline : Fields
offline = of_pairs (("id", text "m4") ∷ ("slug", text "d") ∷ ("status", text "offline") ∷ [])

-- "0.25" is 25 / 10².
abbrev decimals : Decimals
decimals = λ s. some (record { coefficient = pos 25; shift = 0; places = 2 })

abbrev listed : String → String → Capability
listed id slug = record {
  miner_id = id;
  slug = slug;
  name = slug;
  base_url = "";
  intents = "WEATHER_CHECK" ∷ [];
  active = true;
  endpoint_path = "/v2/weather/";
  owner = null;
  historical_reliability = pos 700000;
  endpoint_name = "weather";
  min_price_micro_usdc = some (pos 2500);
  registry_snapshot_sha256 = none;
}

read_miner : from_dict test_host decimals (miner "m1" "a") ≡ ok (listed "m1" "a")
unfolding from_dict protocol_reliability min_price_micro_usdc intents_of is_active endpoint_path
    endpoint_name texts paths truthy to_float explicit_micro_usdc price_to_micro_usdc
read_miner = refl

price_now : price_to_micro_usdc test_host decimals (text "0.25") ≡ some (pos 250000)
unfolding price_to_micro_usdc
price_now = refl

-- The participant's own Miner, a second record of a slug and one that is offline are left out.
abbrev registry : List Fields
registry = miner "m1" "a" ∷ miner "m2" "own" ∷ miner "m3" "a" ∷ offline ∷ miner "m5" "b" ∷ []

discovered :
    discover_weather_miners test_host decimals ("own" ∷ []) [] registry
    ≡ ok (listed "m1" "a" ∷ listed "m5" "b" ∷ [])
unfolding discover_weather_miners discover_from from_dict protocol_reliability min_price_micro_usdc
    intents_of is_active endpoint_path endpoint_name texts paths truthy to_float explicit_micro_usdc
    price_to_micro_usdc is_listed supports_weather
discovered = refl

unreliable :
    discover_weather_miners test_host decimals [] []
      (of_pairs (("avg_score", number (pos 2)) ∷ []) ∷ [])
    ≡ err reliability_out_of_range
unfolding discover_weather_miners discover_from from_dict protocol_reliability to_float
unreliable = refl

wrapped :
    integration_records
      (object (of_pairs (("data", array (cons (object offline) (cons null nil))) ∷ [])))
    ≡ ok (offline ∷ [])
unfolding integration_records
wrapped = refl

b-IsEligible : IsEligible ("own" ∷ []) [] (listed "m5" "b")
unfolding supports_weather
b-IsEligible = record {
  active = refl;
  weather = refl;
  named = ((λ e. cc e), (λ e. cc e));
  foreign = (refl, refl);
  reliable = (omega arith, omega arith);
}

read_b : from_dict test_host decimals (miner "m5" "b") ≡ ok (listed "m5" "b")
unfolding from_dict protocol_reliability min_price_micro_usdc intents_of is_active endpoint_path
    endpoint_name texts paths truthy to_float explicit_micro_usdc price_to_micro_usdc
read_b = refl

discover_weather_miners-IsListing_example :
    All (IsEligible ("own" ∷ []) []) (listed "m1" "a" ∷ listed "m5" "b" ∷ [])
    × Distinct (λ c. c.slug) (listed "m1" "a" ∷ listed "m5" "b" ∷ [])
discover_weather_miners-IsListing_example =
    discover_weather_miners-IsListing test_host decimals ("own" ∷ []) [] registry
      (listed "m1" "a" ∷ listed "m5" "b" ∷ []) discovered

discover_weather_miners_complete_example :
    has_slug "b" (listed "m1" "a" ∷ listed "m5" "b" ∷ []) ≡ true
discover_weather_miners_complete_example =
    discover_weather_miners_complete test_host decimals ("own" ∷ []) []
      (miner "m1" "a" ∷ miner "m2" "own" ∷ miner "m3" "a" ∷ offline ∷ []) [] (miner "m5" "b")
      (listed "m5" "b") (listed "m1" "a" ∷ listed "m5" "b" ∷ []) read_b b-IsEligible discovered
