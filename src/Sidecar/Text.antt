-- ===== src/Sidecar/Text.antt =====
-- The errors of src/oathcast/application_payment.py, its patterns as tests on code points, `_safe_text`
-- and `_safe_hash`.
use Prim.Native.Char.{code}
use Prim.Native.String.{◌++◌ as ◌<>◌}
use oathcast.Prelude.{
  ℕ, String, Bool, true, false, not, ◌&&◌, ◌||◌, Option, none, some, List, [], ◌∷◌, ltb, leb, eqb,
  length, if◌then◌else◌,
}
use oathcast.Prelude.Exec.{Result, ok, err}
use oathcast.Json.{Value, text}

-- The subclasses of ApplicationPaymentError, with their messages.
pub data PaymentError : Type 0 where
  boundary_unavailable authorization_error preflight_rejected outcome_unknown policy_conflict
        consent_required :
      String → PaymentError

-- What a client of the boundary raises: an ApplicationPaymentError, or an exception that it lets through.
pub data ClientFault : Type 0 where
  payment : PaymentError → ClientFault
  other : String → ClientFault

abbrev pub codes : String → List ℕ
codes String.[] = []
codes (String.◌∷◌ c s) = code c ∷ codes s

abbrev pub every : (ℕ → Bool) → List ℕ → Bool
every p [] = true
every p (c ∷ cs) = p c && every p cs

abbrev between : ℕ → ℕ → ℕ → Bool
between low high c = leb low c && leb c high

-- [0-9]
abbrev pub is_digit : ℕ → Bool
is_digit c = between 48 57 c

-- [A-Za-z0-9]
abbrev is_alphanumeric : ℕ → Bool
is_alphanumeric c = is_digit c || between 65 90 c || between 97 122 c

-- [0-9a-f]
abbrev is_hexadecimal : ℕ → Bool
is_hexadecimal c = is_digit c || between 97 102 c

-- [A-Za-z0-9._:@/-]
abbrev is_id_code : ℕ → Bool
is_id_code c =
    is_alphanumeric c || eqb c 46 || eqb c 95 || eqb c 58 || eqb c 64 || eqb c 47 || eqb c 45

abbrev pub hash_pattern : List ℕ → Bool
hash_pattern cs = eqb (length cs) 64 && every is_hexadecimal cs

abbrev pub id_pattern : List ℕ → Bool
id_pattern [] = false
id_pattern (c ∷ cs) = is_alphanumeric c && leb (length cs) 127 && every is_id_code cs

-- [A-Za-z0-9_-]{1,64}
abbrev pub miner_id_pattern : List ℕ → Bool
miner_id_pattern cs =
    leb 1 (length cs)
    && leb (length cs) 64
    && every (λ c. is_alphanumeric c || eqb c 95 || eqb c 45) cs

-- [A-Za-z0-9_~-]{1,128}
abbrev pub endpoint_pattern : List ℕ → Bool
endpoint_pattern cs =
    leb 1 (length cs)
    && leb (length cs) 128
    && every (λ c. is_alphanumeric c || eqb c 95 || eqb c 126 || eqb c 45) cs

-- [A-Za-z0-9_.~-]+
abbrev pub parameter_pattern : List ℕ → Bool
parameter_pattern cs =
    leb 1 (length cs)
    && every (λ c. is_alphanumeric c || eqb c 95 || eqb c 46 || eqb c 126 || eqb c 45) cs

abbrev is_control : ℕ → Bool
is_control c = ltb c 32 || eqb c 127

-- What `_safe_text` asks of a text's code points.
unfoldable pub fits : ℕ → List ℕ → Bool
fits maximum cs = not (eqb (length cs) 0) && leb (length cs) maximum

abbrev pub matches : Option (List ℕ → Bool) → List ℕ → Bool
matches none cs = true
matches (some pattern) cs = pattern cs

-- `_safe_text`
unfoldable pub safe_text : String → ℕ → Option (List ℕ → Bool) → Value → Result PaymentError String
unfolding fits
safe_text name maximum pattern (text s) =
    if not (fits maximum (codes s))
    then err (policy_conflict (name <> " is invalid"))
    else if not (every (λ c. not (is_control c)) (codes s))
    then err (policy_conflict (name <> " contains a control character"))
    else if not (matches pattern (codes s))
    then err (policy_conflict (name <> " is invalid"))
    else ok s
safe_text name maximum pattern v = err (policy_conflict (name <> " is invalid"))

-- `_safe_hash`
unfoldable pub safe_hash : String → Value → Result PaymentError String
unfolding safe_text
safe_hash name v = safe_text name 64 (some hash_pattern) v
