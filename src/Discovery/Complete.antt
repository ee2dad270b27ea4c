-- ===== src/Discovery/Complete.antt =====
-- That `discover_weather_miners` of src/oathcast/discovery.py misses no Miner.
use oathcast.Prelude.{
  String, List, Bool, one_of, false, ◌≡◌, ◌||◌, if◌then◌else◌, ◌∷◌, not, true, ◌==◌, arith,
  Bool-cases, eq_iff, inl, ◌++◌, [], inr, eq_refl, refl,
}
use oathcast.Discovery.Miner.{
  is_listed, Capability, discover_from, discover_weather_miners, from_dict,
}
use oathcast.Json.{Host, Fields}
use oathcast.Discovery.Prices.{Decimals}
use oathcast.Discovery.Eligible.{IsEligible}
use oathcast.Prelude.Exec.{ok, Sure, Sure-ok}
use oathcast.Prelude.Checked.{Sure-bind}

abbrev pub has_slug : String → List Capability → Bool
has_slug s [] = false
has_slug s (c ∷ cs) = s == c.slug || has_slug s cs

IsEligible-is_listed :
    (own_slugs own_ids seen : List String) (c : Capability)
    → IsEligible own_slugs own_ids c
    → is_listed own_slugs own_ids seen c ≡ not (one_of c.slug seen)
unfolding is_listed
IsEligible-is_listed own_slugs own_ids seen c eligible = ground (
  arith,
  eligible.active,
  eligible.weather,
  eligible.named,
  eligible.foreign,
  eq_iff c.slug "",
  eq_iff c.miner_id "",
)

-- A slug that is seen or listed later is seen or listed from here on.
abbrev Present : String → List String → List Capability → Type 0
Present s seen cs = (one_of s seen || has_slug s cs) ≡ true

extended-Present :
    (s : String) (seen : List String) (c : Capability) (rest : List Capability) (listed : Bool)
    → Present s (if listed then c.slug ∷ seen else seen) rest
    → Present s seen (if listed then c ∷ rest else rest)
extended-Present s seen c rest true p = ground (arith, p)
extended-Present s seen c rest false p = p

eligible-Present :
    (own_slugs own_ids seen : List String) (c : Capability) (rest : List Capability)
    → IsEligible own_slugs own_ids c
    → Present c.slug seen (if is_listed own_slugs own_ids seen c then c ∷ rest else rest)
eligible-Present own_slugs own_ids seen c rest eligible =
    rw (IsEligible-is_listed own_slugs own_ids seen c eligible)
      (elim (Bool-cases (one_of c.slug seen)) [
        | inl e ↦ rw e refl
        | inr e ↦ rw (e, eq_refl c.slug) refl
      ])

module _ (h : Host) (decimal : Decimals) (own_slugs own_ids : List String) where
  discover_from-Present :
      (seen : List String) (before after : List Fields) (r : Fields) (c : Capability)
      → from_dict h decimal r ≡ ok c
      → IsEligible own_slugs own_ids c
      → Sure
          (Present c.slug seen)
          (discover_from h decimal own_slugs own_ids seen (before ++ r ∷ after))
  unfolding discover_from
  discover_from-Present seen [] after r c read eligible = rw read (
      Sure-bind (Present c.slug seen)
        (discover_from h decimal own_slugs own_ids
          (if is_listed own_slugs own_ids seen c then c.slug ∷ seen else seen) after)
        _ (λ rest e. eligible-Present own_slugs own_ids seen c rest eligible))
  discover_from-Present seen (x ∷ before) after r c read eligible =
      Sure-bind (Present c.slug seen) (from_dict h decimal x) _ (λ d e.
        let listed = is_listed own_slugs own_ids seen d in
        let next = if listed then d.slug ∷ seen else seen in
        Sure-bind (Present c.slug seen)
          (discover_from h decimal own_slugs own_ids next (before ++ r ∷ after)) _
          (λ rest e'. extended-Present c.slug seen d rest listed (
            Sure-ok (Present c.slug next) _ rest e'
              (discover_from-Present next before after r c read eligible))))

  -- When `discover_weather_miners` returns, no eligible Miner is missing: the slug of every record that
  -- reads as an active weather Miner with a slug, an id and a reliability between 0 and 1, which is none
  -- of the participant's, is among the slugs of the Miners returned.
  pub discover_weather_miners_complete :
      (before after : List Fields) (r : Fields) (c : Capability) (cs : List Capability)
      → from_dict h decimal r ≡ ok c
      → IsEligible own_slugs own_ids c
      → discover_weather_miners h decimal own_slugs own_ids (before ++ r ∷ after) ≡ ok cs
      → has_slug c.slug cs ≡ true
  unfolding discover_weather_miners
  discover_weather_miners_complete before after r c cs read eligible e =
      Sure-ok (Present c.slug []) _ cs e (discover_from-Present [] before after r c read eligible)
