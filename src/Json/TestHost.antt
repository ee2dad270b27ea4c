-- ===== src/Json/TestHost.antt =====
-- A host for tests and examples: the "digest" of a text is the text itself.
use oathcast.Prelude.{none, true}
use oathcast.Json.{Host}

abbrev pub test_host : Host
test_host = record {
  sha256 = λ s. s;
  float_repr = λ r. "0.5";
  repr = λ v. "?";
  lower = λ s. s;
  strip = λ s. s;
  is_digit = λ s. true;
  parse_int = λ s. none;
  parse_float = λ s. none;
  parse_iso = λ s. none;
  b64_json = λ s. none;
  json_loads = λ s. none;
  recursion_limit = 9;
}
