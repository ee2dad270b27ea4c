-- ===== src/Discovery/Eligible.antt =====
-- What `discover_weather_miners` of src/oathcast/discovery.py lists.
use oathcast.Prelude.{
  List, Option, String, ◌∷◌, ◌≡◌, All, true, one_of, false, some, ◌≢◌, arith, [], eq_iff, Bool,
  Bool-cases, if◌then◌else◌, ◌&&◌, inl, inr, none, refl,
}
use oathcast.Discovery.Miner.{
  Capability, from_dict, is_listed, supports_weather, discover_from, discover_weather_miners,
}
use oathcast.Prelude.Int.{pos, ℤ, ◌≤ℤ◌, leb_ℤ}
use oathcast.Discovery.Records.{protocol_reliability, unit_or_error}
use oathcast.Prelude.Exec.{Sure, Sure-ok, ok}
use oathcast.Json.{Host, Fields}
use oathcast.Discovery.Prices.{Decimals, min_price_micro_usdc}
use oathcast.Prelude.Checked.{Sure-bind}
use oathcast.Prelude.Distinct.{Distinct, unseen-drop}

-- An active weather Miner with names of its own, which are none of the participant's, and with a
-- reliability between 0 and 1.
pub record IsEligible (own_slugs own_ids : List String) (c : Capability) : Type 0 where
  pub active : c.active ≡ true
  pub weather : supports_weather c ≡ true
  pub named : (c.slug ≢ "") × (c.miner_id ≢ "")
  pub foreign : (one_of c.slug own_slugs ≡ false) × (one_of c.miner_id own_ids ≡ false)
  pub reliable : (pos 0 ≤ℤ c.historical_reliability) × (c.historical_reliability ≤ℤ pos 1000000)

pub record IsListing (own_slugs own_ids seen : List String) (cs : List Capability) : Type 0 where
  pub eligible : All (IsEligible own_slugs own_ids) cs
  pub new : All (λ d. one_of d.slug seen ≡ false) cs
  pub distinct : Distinct (λ c. c.slug) cs

abbrev Reliable : Capability → Type 0
Reliable c = (pos 0 ≤ℤ c.historical_reliability) × (c.historical_reliability ≤ℤ pos 1000000)

unit_or_error-unit :
    (o : Option ℤ) → Sure (λ r. (pos 0 ≤ℤ r) × (r ≤ℤ pos 1000000)) (unit_or_error o)
unit_or_error-unit none = tt
unit_or_error-unit (some r) = elim (Bool-cases (leb_ℤ (pos 0) r && leb_ℤ r (pos 1000000))) [
  | inl e ↦ rw e (ground (arith, e))
  | inr e ↦ rw e tt
]

protocol_reliability-unit :
    (h : Host) (r : Fields)
    → Sure (λ x. (pos 0 ≤ℤ x) × (x ≤ℤ pos 1000000)) (protocol_reliability h r)
unfolding protocol_reliability
protocol_reliability-unit h r = search unit_or_error-unit

from_dict-Reliable :
    (h : Host) (decimal : Decimals) (r : Fields) → Sure Reliable (from_dict h decimal r)
unfolding from_dict
from_dict-Reliable h decimal r = Sure-bind Reliable (protocol_reliability h r) _ (λ x e.
    Sure-bind Reliable (min_price_micro_usdc h decimal r) _ (λ price e'.
      Sure-ok (λ x. (pos 0 ≤ℤ x) × (x ≤ℤ pos 1000000)) _ x e (protocol_reliability-unit h r)))

is_listed-IsEligible :
    (own_slugs own_ids seen : List String) (c : Capability)
    → Reliable c
    → is_listed own_slugs own_ids seen c ≡ true
    → IsEligible own_slugs own_ids c × (one_of c.slug seen ≡ false)
unfolding is_listed
is_listed-IsEligible own_slugs own_ids seen c reliable e = (
  record {
    active = ground (arith, e);
    weather = ground (arith, e);
    named = (ground (arith, e, eq_iff c.slug ""), ground (arith, e, eq_iff c.miner_id ""));
    foreign = (ground (arith, e), ground (arith, e));
    reliable = reliable;
  },
  ground (arith, e),
)

module _ (h : Host) (decimal : Decimals) (own_slugs own_ids : List String) where
  extended-IsListing :
      (seen : List String) (c : Capability) (rest : List Capability)
      → Reliable c
      → (listed : Bool) → is_listed own_slugs own_ids seen c ≡ listed
      → IsListing own_slugs own_ids (if listed then c.slug ∷ seen else seen) rest
      → IsListing own_slugs own_ids seen (if listed then c ∷ rest else rest)
  unfolding Distinct
  extended-IsListing seen c rest reliable false e l = l
  extended-IsListing seen c rest reliable true e l =
      let (eligible, new) = is_listed-IsEligible own_slugs own_ids seen c reliable e in
      let (unseen, others) = unseen-drop (λ c. c.slug) c.slug seen rest l.new in
      record {
        eligible = (eligible, l.eligible);
        new = (new, unseen);
        distinct = (others, l.distinct);
      }

  discover_from-IsListing :
      (seen : List String) (rs : List Fields)
      → Sure (IsListing own_slugs own_ids seen) (discover_from h decimal own_slugs own_ids seen rs)
  unfolding discover_from Distinct
  discover_from-IsListing seen [] = record { eligible = tt; new = tt; distinct = tt }
  discover_from-IsListing seen (r ∷ rs) =
      Sure-bind (IsListing own_slugs own_ids seen) (from_dict h decimal r) _ (λ c e.
        let listed = is_listed own_slugs own_ids seen c in
        let next = if listed then c.slug ∷ seen else seen in
        Sure-bind (IsListing own_slugs own_ids seen)
          (discover_from h decimal own_slugs own_ids next rs) _
          (λ rest e'.
            extended-IsListing seen c rest (Sure-ok Reliable _ c e (from_dict-Reliable h decimal r))
              listed refl
              (Sure-ok (IsListing own_slugs own_ids next) _ rest e'
                (discover_from-IsListing next rs))))

  -- The Miners that `discover_weather_miners` returns are active weather Miners with a slug and an id of
  -- their own, none of which is the participant's, with reliabilities between 0 and 1, and no two of
  -- them have the same slug.
  pub discover_weather_miners-IsListing :
      (records : List Fields) (cs : List Capability)
      → discover_weather_miners h decimal own_slugs own_ids records ≡ ok cs
      → All (IsEligible own_slugs own_ids) cs × Distinct (λ c. c.slug) cs
  unfolding discover_weather_miners
  discover_weather_miners-IsListing records cs e =
      let l =
        Sure-ok (IsListing own_slugs own_ids []) _ cs e (discover_from-IsListing [] records) in
      (l.eligible, l.distinct)
