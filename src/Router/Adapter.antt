-- ===== src/Router/Adapter.antt =====
-- `GenericMinerAdapter` of src/oathcast/miner_adapters.py, the adapter of a Miner whose schema is not known.
use oathcast.Prelude.{ℕ, Option, none, some, is_some, String}
use oathcast.Json.{Host}
use oathcast.Probability.Extract.{extract_probability}
use oathcast.Router.Reply.{Raw, Adapted, body_of}
use oathcast.Prelude.Exec.{Result, err, ok}

abbrev generic_of : Option ℕ → Adapted
generic_of p = record {
  probability = p;
  probability_comparable = is_some p;
  validity_reason = elim p [ none ↦ some "response has no valid probability" | some n ↦ none ];
  parser_version = "probability_extractor_v1";
}

abbrev ended : Option (Option ℕ) → Result String Adapted
ended none = err "RecursionError"
ended (some p) = ok (generic_of p)

-- `parse_response`
unfoldable pub generic_response : Host → Raw → Result String Adapted
generic_response h raw = ended (extract_probability h (body_of raw) none)
