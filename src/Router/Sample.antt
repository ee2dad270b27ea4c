-- ===== src/Router/Sample.antt =====
-- A router over two Miners, for tests: a client's state counts the calls.
use oathcast.Prelude.Int.{pos}
use oathcast.Prelude.Exec.{ok, err}
use oathcast.Json.{Host, real, object, of_pairs, null}
use oathcast.Json.TestHost.{test_host}
use oathcast.Forecast.{Question}
use oathcast.Sidecar.Text.{outcome_unknown}
use oathcast.Router.Paying.{payment}
use oathcast.Router.Reply.{Router, Raw, plain}
use oathcast.Router.Adapter.{generic_response}
use oathcast.Prelude.{String, ℕ, some, List, none, ◌∷◌, [], if◌then◌else◌, ◌==◌, suc, true}
use oathcast.Discovery.Miner.{Capability}

abbrev pub question : Question
question = record {
  event_id = "rain";
  location_name = "Paris";
  latitude = pos 48850000;
  longitude = pos 2350000;
  horizon_start = 43200000000;
  horizon_end = 46800000000;
  forecast_cutoff = 39600000000;
  threshold_mm = pos 100000;
  metric = "precipitation";
  precipitation_type = "measurable";
  operator = ">";
  timezone = "UTC";
  spatial_semantics = "point";
}

abbrev pub capability : String → Capability
capability slug = record {
  miner_id = slug;
  slug = slug;
  name = slug;
  base_url = "";
  intents = "WEATHER_FORECAST" ∷ [];
  active = true;
  endpoint_path = "/v1/forecast/point";
  owner = null;
  historical_reliability = pos 500000;
  endpoint_name = "predict";
  min_price_micro_usdc = none;
  registry_snapshot_sha256 = none;
}

abbrev pub answer : ℕ → Raw
answer n = plain (object (of_pairs (("probability", real (pos n)) ∷ [])))

abbrev pub host : Host
host = record test_host { json_loads = λ s. some (object (of_pairs [])) }

-- The own Miner says 40 %, another says 80 %, and the payment to a third is lost.
abbrev pub router : List Capability → Router ℕ
router capabilities = record {
  host = host;
  capabilities = capabilities;
  clients = λ slug.
      if slug == "own"
      then some (λ q id n. (ok (answer 400000), suc n))
      else if slug == "other"
      then some (λ q id n. (ok (answer 800000), suc n))
      else if slug == "lost"
      then some (λ q id n. (err (payment (outcome_unknown "lost")), suc n))
      else none;
  parse_response = λ miner raw q. generic_response test_host raw;
  own_slugs = "own" ∷ [];
  require_external = true;
  clock = λ n. n;
  perf_counter = λ n. n;
  reply_projector = none;
}
