-- ===== src/Discovery/Prices.antt =====
-- The prices of src/oathcast/discovery.py. A finite decimal.Decimal is a coefficient times a power of ten;
-- its products are exact, as they are for up to 28 digits.
use oathcast.Prelude.{
  String, Option, ℕ, some, none, if◌then◌else◌, ◌||◌, not, ◌&&◌, eqb, ◌*◌, ◌^◌, ◌%◌, ◌/◌,
}
use oathcast.Prelude.Int.{ℤ, pos, negsuc}
use oathcast.Json.{Host, Value, Fields, object, boolean, contains, number, get_or, text, null, str}
use oathcast.Prelude.Exec.{Result, err, ok}
use oathcast.Discovery.Records.{RecordError, price_malformed, has_code}

-- `coefficient * 10 ** shift / 10 ** places`
pub record Decimal : Type 0 where
  pub coefficient : ℤ
  pub shift : ℕ
  pub places : ℕ

-- `Decimal(text)`, where it is a finite number
abbrev pub Decimals : Type 0
Decimals = String → Option Decimal

-- `int(scaled)`, if the price is not negative and a whole number of micro-USDC
abbrev pub micros_of : ℤ → ℕ → ℕ → Option ℤ
micros_of (pos n) shift places =
    if eqb ((n * 10 ^ shift * 1000000) % 10 ^ places) 0
    then some (pos ((n * 10 ^ shift * 1000000) / 10 ^ places))
    else none
micros_of (negsuc n) shift places = none

abbrev decimal_micros : Option Decimal → Option ℤ
decimal_micros none = none
decimal_micros (some d) = micros_of d.coefficient d.shift d.places

-- `_price_to_micro_usdc`
unfoldable pub price_to_micro_usdc : Host → Decimals → Value → Option ℤ
price_to_micro_usdc h decimal null = none
price_to_micro_usdc h decimal (boolean b) = none
price_to_micro_usdc h decimal (number n) = none
price_to_micro_usdc h decimal (text s) =
    if not (has_code 46 s) && not (has_code 101 (h.lower s))
    then none
    else decimal_micros (decimal s)
price_to_micro_usdc h decimal v = decimal_micros (decimal (str h v))

abbrev int_or_error : Option ℤ → Result RecordError (Option ℤ)
int_or_error none = err price_malformed
int_or_error (some n) = ok (some n)

abbrev natural : ℤ → Option ℤ
natural (pos n) = some (pos n)
natural (negsuc n) = none

-- `_explicit_micro_usdc`. A text of digits that are no decimals makes `int` raise.
unfoldable pub explicit_micro_usdc : Host → Value → Result RecordError (Option ℤ)
explicit_micro_usdc h (number n) = ok (natural n)
explicit_micro_usdc h (text s) =
    if h.is_digit (h.strip s) then int_or_error (h.parse_int (h.strip s)) else ok none
explicit_micro_usdc h v = ok none

abbrev pub fields_or : Value → Fields → Fields
fields_or (object fs) d = fs
fields_or v d = d

-- Where the prices stand: the record, or its "on_chain" part if the record has none.
abbrev pub price_data : Fields → Fields
price_data data_ =
    if contains "min_price_micro_usdc" data_ || contains "min_price_usdc" data_
    then data_
    else fields_or (get_or "on_chain" null data_) data_

abbrev usdc : Host → Decimals → Value → Result RecordError (Option ℤ)
usdc h decimal (number n) = ok (natural n)
usdc h decimal v = ok (price_to_micro_usdc h decimal v)

-- `_min_price_micro_usdc`
unfoldable pub min_price_micro_usdc : Host → Decimals → Fields → Result RecordError (Option ℤ)
unfolding explicit_micro_usdc price_to_micro_usdc
min_price_micro_usdc h decimal data_ =
    if contains "min_price_micro_usdc" (price_data data_)
    then explicit_micro_usdc h (get_or "min_price_micro_usdc" null (price_data data_))
    else usdc h decimal (get_or "min_price_usdc" null (price_data data_))
