-- ===== src/Registration/Generations.antt =====
-- What a declaration of src/oathcast/registration.py has been checked for, and its next generation.
use oathcast.Registration.Declaration.{
  Declaration, declaration, next_generation, next, subset, RegistrationError,
}
use oathcast.Json.{Host}
use oathcast.Prelude.Int.{pos, leb_ℤ, ◌≤ℤ◌}
use oathcast.Prelude.{◌≡◌, true, no_duplicates, leb→le, refl}
use oathcast.Prelude.Exec.{Sure, Result, ok, err}
use oathcast.Prelude.Checked.{Sure-guard}
use oathcast.Discovery.Miner.{weather_intents}
use oathcast.Sidecar.Text.{hash_pattern, codes}

pub record IsDeclared (d : Declaration) : Type 0 where
  pub generation : pos 1 ≤ℤ d.generation
  pub intents : subset d.supported_intents weather_intents ≡ true
  pub different : no_duplicates d.supported_intents ≡ true
  pub price : pos 10000 ≤ℤ d.min_price_micro_usdc
  pub digest : hash_pattern (codes d.yaml_sha256) ≡ true

abbrev Checked : Declaration → Declaration → Type 0
Checked d d' = (d' ≡ d) × IsDeclared d

checked :
    (d : Declaration)
    → leb_ℤ (pos 1) d.generation ≡ true
    → subset d.supported_intents weather_intents ≡ true
    → no_duplicates d.supported_intents ≡ true
    → leb_ℤ (pos 10000) d.min_price_micro_usdc ≡ true
    → hash_pattern (codes d.yaml_sha256) ≡ true
    → Checked d d
checked d generation intents different price digest = (
  refl,
  record {
    generation = leb→le _ _ generation;
    intents = intents;
    different = different;
    price = leb→le _ _ price;
    digest = digest;
  },
)

declaration-Checked : (h : Host) (d : Declaration) → Sure (Checked d) (declaration h d)
unfolding declaration
declaration-Checked h d = search (Sure-guard (Checked d), checked) depth 30

-- A declaration that is made stands for weather Intents, each of them once, at the price floor or above
-- it, with a digest of its YAML file.
pub declaration-IsDeclared : (h : Host) (d : Declaration) → Sure IsDeclared (declaration h d)
declaration-IsDeclared h d = weaken (declaration h d) (declaration-Checked h d)
  where
    weaken : (r : Result RegistrationError Declaration) → Sure (Checked d) r → Sure IsDeclared r
    weaken (ok d') c = rw c.0 c.1
    weaken (err e) c = tt

abbrev Next : Declaration → Declaration → Type 0
Next d d' = (d'.confirmation_status ≡ "draft") × (d'.generation ≡ next d.generation) × IsDeclared d'

-- Whatever else is changed, the next generation is a draft with the next number.
pub next_generation-Next :
    (h : Host) (changes : Declaration → Declaration) (d : Declaration)
    → Sure (Next d) (next_generation h changes d)
unfolding next_generation
next_generation-Next h changes d = weaken (declaration h n) (declaration-Checked h n)
  where
    n : Declaration
    n = record (changes d) { confirmation_status = "draft"; generation = next d.generation }

    weaken : (r : Result RegistrationError Declaration) → Sure (Checked n) r → Sure (Next d) r
    weaken (ok d') c = rw c.0 (refl, refl, c.1)
    weaken (err e) c = tt
