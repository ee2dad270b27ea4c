-- ===== src/Registration/Declaration.antt =====
-- `decimal_usdc_to_micro` and `MinerRegistrationDeclaration` of src/oathcast/registration.py, with values
-- of the annotated types. The bytes of the YAML file are a text.
use oathcast.Prelude.Checked.{◌>>◌, guard}
use oathcast.Prelude.{
  String, ℕ, Option, List, ◌∷◌, Bool, some, [], ◌==◌, false, true, leb, eqb, not, if◌then◌else◌,
  ◌+◌, ◌||◌, one_of, ◌&&◌, length, suc, none, no_duplicates,
}
use oathcast.Discovery.Prices.{Decimal, Decimals, micros_of}
use oathcast.Json.{Host, Fields, object}
use oathcast.Prelude.Int.{ℤ, pos, ltb_ℤ, leb_ℤ, negsuc}
use oathcast.Prelude.Exec.{Result, err, ok}
use oathcast.Json.Dumps.{dumps}
use oathcast.Sidecar.Text.{hash_pattern, codes, every}
use oathcast.Discovery.Miner.{weather_intents}
use Prim.Native.Nat.{zero}

-- The ValueErrors, without their messages.
pub data RegistrationError : Type 0 where
  price_not_finite price_negative price_too_fine slug_required generation_not_positive :
      RegistrationError
  intents_required unsupported_intents duplicate_intents price_below_floor : RegistrationError
  malformed_digest malformed_address unsupported_status chain_required : RegistrationError
  authority_required : RegistrationError

abbrev micros_or_error : Decimal → Result RegistrationError ℤ
micros_or_error d = elim (micros_of d.coefficient d.shift d.places) [
  | none ↦ err price_too_fine
  | some n ↦ ok n
]

abbrev finite_micros : Option Decimal → Result RegistrationError ℤ
finite_micros none = err price_not_finite
finite_micros (some d) =
    if ltb_ℤ d.coefficient (pos 0) then err price_negative else micros_or_error d

-- `decimal_usdc_to_micro`
unfoldable pub decimal_usdc_to_micro : Decimals → String → Result RegistrationError ℤ
decimal_usdc_to_micro decimal value = finite_micros (decimal value)

-- `output_mapping_fingerprint`
unfoldable pub output_mapping_fingerprint : Host → Option Fields → Option String
output_mapping_fingerprint h none = none
output_mapping_fingerprint h (some mapping) = some (h.sha256 (dumps h (object mapping)))

-- `MinerRegistrationDeclaration`
pub record Declaration : Type 0 where
  pub miner_slug : String
  pub generation : ℤ
  pub supported_intents : List String
  pub min_price_micro_usdc : ℤ
  pub yaml_sha256 : String
  pub yaml_uri : Option String
  pub miner_id : Option String
  pub fee_address : Option String
  pub output_mapping_sha256 : Option String
  pub chain : String
  pub source_authority : String
  pub confirmation_status : String
  pub schema_profile : String
  pub evidence_uri : Option String

abbrev registration_statuses : List String
registration_statuses =
    "draft" ∷ "portal_validated" ∷ "submitted" ∷ "registered" ∷ "superseded" ∷ []

-- `not text.strip()`
abbrev pub is_blank : Host → String → Bool
is_blank h s = h.strip s == ""

abbrev pub any_blank : Host → List String → Bool
any_blank h [] = false
any_blank h (s ∷ ss) = is_blank h s || any_blank h ss

abbrev pub subset : List String → List String → Bool
subset [] known = true
subset (s ∷ ss) known = one_of s known && subset ss known

abbrev is_empty : List String → Bool
is_empty [] = true
is_empty (s ∷ ss) = false

-- [0-9a-fA-F]
abbrev is_hex_digit : ℕ → Bool
is_hex_digit c = leb 48 c && leb c 57 || leb 65 c && leb c 70 || leb 97 c && leb c 102

-- ^0x[0-9a-fA-F]{40}$
abbrev pub evm_address_pattern : List ℕ → Bool
evm_address_pattern (z ∷ x ∷ cs) =
    eqb z 48 && eqb x 120 && eqb (length cs) 40 && every is_hex_digit cs
evm_address_pattern _ = false

abbrev zero_evm_address : String
zero_evm_address = "0x0000000000000000000000000000000000000000"

abbrev pub digest_or_none : Option String → Bool
digest_or_none none = true
digest_or_none (some s) = hash_pattern (codes s)

abbrev pub address_or_none : Host → Option String → Bool
address_or_none h none = true
address_or_none h (some s) = evm_address_pattern (codes s) && not (h.lower s == zero_evm_address)

-- `__post_init__`
unfoldable pub declaration : Host → Declaration → Result RegistrationError Declaration
declaration h d = do
  guard (not (is_blank h d.miner_slug)) slug_required
  guard (leb_ℤ (pos 1) d.generation) generation_not_positive
  guard (not (is_empty d.supported_intents || any_blank h d.supported_intents)) intents_required
  guard (subset d.supported_intents weather_intents) unsupported_intents
  guard (no_duplicates d.supported_intents) duplicate_intents
  guard (leb_ℤ (pos 10000) d.min_price_micro_usdc) price_below_floor
  guard (hash_pattern (codes d.yaml_sha256)) malformed_digest
  guard (digest_or_none d.output_mapping_sha256) malformed_digest
  guard (address_or_none h d.fee_address) malformed_address
  guard (one_of d.confirmation_status registration_statuses) unsupported_status
  guard (not (is_blank h d.chain)) chain_required
  guard (not (is_blank h d.source_authority)) authority_required
  ok d

abbrev without_text : String → List String → List String
without_text s [] = []
without_text s (t ∷ ts) = let rest = without_text s ts in if t == s then rest else t ∷ rest

-- `tuple(dict.fromkeys(…))`
unfoldable pub first_of_each : List String → List String
first_of_each [] = []
first_of_each (s ∷ ss) = s ∷ without_text s (first_of_each ss)

-- `from_yaml`: the arguments but for the intents, the digest and the mapping are those of `d`.
unfoldable pub from_yaml :
    Host → String → Option Fields → Declaration → Result RegistrationError Declaration
unfolding declaration first_of_each output_mapping_fingerprint
from_yaml h raw output_mapping d = declaration h (record d {
  supported_intents = first_of_each d.supported_intents;
  yaml_sha256 = h.sha256 raw;
  output_mapping_sha256 = output_mapping_fingerprint h output_mapping;
})

-- `n + 1`
abbrev pub next : ℤ → ℤ
next (pos n) = pos (n + 1)
next (negsuc zero) = pos 0
next (negsuc (suc n)) = negsuc n

-- `next_generation`; the changes are a function on declarations.
unfoldable pub next_generation :
    Host → (Declaration → Declaration) → Declaration → Result RegistrationError Declaration
unfolding declaration
next_generation h changes d =
    declaration h
      (record (changes d) { confirmation_status = "draft"; generation = next d.generation })
