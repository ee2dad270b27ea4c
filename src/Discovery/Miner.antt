-- ===== src/Discovery/Miner.antt =====
-- `MinerCapability`, `discover_weather_miners` and `integration_records` of src/oathcast/discovery.py.
use oathcast.Prelude.Checked.{◌>>=◌}
use oathcast.Prelude.{
  String, List, Bool, ◌∷◌, [], false, ◌&&◌, Option, one_of, not, ◌||◌, some, ◌==◌, none,
  if◌then◌else◌,
}
use oathcast.Json.{
  Host, Fields, Items, Value, text, get_or, cons, array, str, nil, object, null, end, as_text,
}
use oathcast.Discovery.Records.{
  protocol_reliability, is_active, RecordError, endpoint_path, endpoint_name, no_records,
}
use oathcast.Prelude.Int.{ℤ}
use oathcast.Discovery.Prices.{min_price_micro_usdc, Decimals, fields_or}
use oathcast.Prelude.Exec.{Result, ok, err}

-- `MinerCapability`; the reliability is in millionths. A snapshot digest that is no text, which its
-- annotation excludes, is left out.
pub record Capability : Type 0 where
  pub miner_id : String
  pub slug : String
  pub name : String
  pub base_url : String
  pub intents : List String
  pub active : Bool
  pub endpoint_path : String
  pub owner : Value
  pub historical_reliability : ℤ
  pub endpoint_name : String
  pub min_price_micro_usdc : Option ℤ
  pub registry_snapshot_sha256 : Option String

abbrev pub weather_intents : List String
weather_intents = "WEATHER_FORECAST" ∷ "WEATHER_CHECK" ∷ "WEATHER_RISK_ASSESSMENT" ∷ []

unfoldable pub texts : Host → Items → List String
texts h nil = []
texts h (cons v vs) = str h v ∷ texts h vs

-- A text is one intent, and what is no list has none.
unfoldable pub intents_of : Host → Value → List String
unfolding texts
intents_of h (text s) = s ∷ []
intents_of h (array vs) = texts h vs
intents_of h v = []

-- `supported`
abbrev pub supported : Fields → Value
supported data_ =
    get_or "supported_intents"
      (get_or "intents"
        (get_or "supported_intents" (array nil) (fields_or (get_or "semantics" null data_) end))
        data_)
      data_

-- What `from_dict` builds once the reliability and the price are read.
abbrev pub capability_from : Host → Fields → ℤ → Option ℤ → Capability
capability_from h data_ reliability price = record {
  miner_id = str h (get_or "id" (get_or "miner_id" (text "") data_) data_);
  slug = str h (get_or "slug" (text "") data_);
  name = str h (get_or "name" (get_or "slug" (text "Unnamed Miner") data_) data_);
  base_url = str h (get_or "base_url" (text "") data_);
  intents = intents_of h (supported data_);
  active = is_active h data_;
  endpoint_path = endpoint_path h data_;
  owner = get_or "owner" null data_;
  historical_reliability = reliability;
  endpoint_name = endpoint_name h data_ (endpoint_path h data_);
  min_price_micro_usdc = price;
  registry_snapshot_sha256 =
      as_text (get_or "registry_snapshot_sha256" (get_or "snapshot_sha256" null data_) data_);
}

-- `from_dict`
unfoldable pub from_dict : Host → Decimals → Fields → Result RecordError Capability
unfolding protocol_reliability min_price_micro_usdc intents_of is_active endpoint_path endpoint_name
from_dict h decimal data_ = do
  reliability ← protocol_reliability h data_
  price ← min_price_micro_usdc h decimal data_
  ok (capability_from h data_ reliability price)

abbrev pub any_of : List String → List String → Bool
any_of [] known = false
any_of (s ∷ ss) known = one_of s known || any_of ss known

-- `supports_weather`
unfoldable pub supports_weather : Capability → Bool
supports_weather c = any_of c.intents weather_intents

-- Whether the loop appends the capability.
unfoldable pub is_listed : List String → List String → List String → Capability → Bool
unfolding supports_weather
is_listed own_slugs own_ids seen c =
    c.active
    && supports_weather c
    && not (one_of c.slug own_slugs || one_of c.miner_id own_ids)
    && not (c.slug == "" || c.miner_id == "" || one_of c.slug seen)

-- The loop of `discover_weather_miners`, from the slugs that are seen on.
unfoldable pub discover_from :
    Host
    → Decimals
    → List String
    → List String
    → List String
    → List Fields
    → Result RecordError (List Capability)
unfolding from_dict is_listed
discover_from h decimal own_slugs own_ids seen [] = ok []
discover_from h decimal own_slugs own_ids seen (r ∷ rs) = do
  c ← from_dict h decimal r
  let listed = is_listed own_slugs own_ids seen c
  rest ← discover_from h decimal own_slugs own_ids (if listed then c.slug ∷ seen else seen) rs
  ok (if listed then c ∷ rest else rest)

-- `discover_weather_miners`
unfoldable pub discover_weather_miners :
    Host → Decimals → List String → List String → List Fields → Result RecordError (List Capability)
unfolding discover_from
discover_weather_miners h decimal own_slugs own_ids records =
    discover_from h decimal own_slugs own_ids [] records

abbrev pub objects : Items → List Fields
objects nil = []
objects (cons (object fs) vs) = fs ∷ objects vs
objects (cons v vs) = objects vs

abbrev list_of : Value → Option Items
list_of (array vs) = some vs
list_of v = none

abbrev pub first_list : List String → Fields → Result RecordError (List Fields)
first_list [] fs = err no_records
first_list (k ∷ ks) fs = elim (list_of (get_or k null fs)) [
  | none ↦ first_list ks fs
  | some vs ↦ ok (objects vs)
]

-- `integration_records`
unfoldable pub integration_records : Value → Result RecordError (List Fields)
integration_records (array vs) = ok (objects vs)
integration_records (object fs) =
    first_list ("integrations" ∷ "miners" ∷ "results" ∷ "data" ∷ []) fs
integration_records v = err no_records
