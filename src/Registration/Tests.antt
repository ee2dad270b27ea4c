-- ===== src/Registration/Tests.antt =====
-- A registration draft and what follows it.
use oathcast.Prelude.{String, ◌∷◌, ◌≡◌, some, [], none, refl}
use oathcast.Json.{Host}
use oathcast.Registration.Declaration.{
  Declaration, from_yaml, next_generation, declaration, decimal_usdc_to_micro, first_of_each,
  output_mapping_fingerprint, price_below_floor, duplicate_intents,
}
use oathcast.Json.TestHost.{test_host}
use oathcast.Prelude.Int.{pos}
use oathcast.Prelude.Exec.{ok, err}

-- A host whose digests are 64 zeros.
abbrev zeros : String
zeros = "0000000000000000000000000000000000000000000000000000000000000000"

abbrev host : Host
host = record test_host { sha256 = λ s. zeros }

abbrev draft : Declaration
draft = record {
  miner_slug = "m";
  generation = pos 1;
  supported_intents = "WEATHER_CHECK" ∷ "WEATHER_CHECK" ∷ [];
  min_price_micro_usdc = pos 10000;
  yaml_sha256 = "";
  yaml_uri = none;
  miner_id = none;
  fee_address = some "0xAb00000000000000000000000000000000000001";
  output_mapping_sha256 = none;
  chain = "eip155:84532";
  source_authority = "local_draft";
  confirmation_status = "draft";
  schema_profile = "unconfirmed_hackathon_1";
  evidence_uri = none;
}

abbrev declared : Declaration
declared = record draft { supported_intents = "WEATHER_CHECK" ∷ []; yaml_sha256 = zeros }

-- A repeated intent counts once, and the digest is the file's.
read : from_yaml host "name: m" none draft ≡ ok declared
unfolding from_yaml declaration first_of_each output_mapping_fingerprint
read = refl

-- A generation that was submitted is followed by a draft.
followed :
    next_generation host
      (λ d. record d { min_price_micro_usdc = pos 20000 })
      (record declared { confirmation_status = "submitted" })
    ≡ ok (record declared { generation = pos 2; min_price_micro_usdc = pos 20000 })
unfolding next_generation declaration
followed = refl

cheap :
    declaration host (record declared { min_price_micro_usdc = pos 9999 }) ≡ err price_below_floor
unfolding declaration
cheap = refl

repeated : declaration host (record draft { yaml_sha256 = zeros }) ≡ err duplicate_intents
unfolding declaration
repeated = refl

-- "0.0125" is 125 / 10⁴.
priced :
    decimal_usdc_to_micro
      (λ s. some (record { coefficient = pos 125; shift = 0; places = 4 }))
      "0.0125"
    ≡ ok (pos 12500)
unfolding decimal_usdc_to_micro
priced = refl
