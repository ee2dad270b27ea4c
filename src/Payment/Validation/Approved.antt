-- ===== src/Payment/Validation/Approved.antt =====
-- The option that `validate_for_request` of src/oathcast/payment.py returns, beside the limits of the policy.
use oathcast.Prelude.{
  ◌≤◌, String, ℕ, Option, ◌≡◌, some, ◌⊎◌, arith, none, false, leb→le, eq_iff, leb, inr, inl, true,
  ◌==◌, refl, Bool, List, is_some, ◌∷◌, ◌<◌, both, Bool-cases, ap, ltb, [], sym, ltb→lt,
}
use oathcast.Json.{
  Host, Fields, str, Value, object, get_or, text, null, boolean, number, real, array,
}
use oathcast.Payment.Challenge.{
  ◌>>=◌, ◌>>◌, Policy, resource_url_of, amount_of, pay_to_value, amount_value,
  minimum_usdc_microunits, ChallengeError, guard, accepts, amount_over_cap, version,
  validate_deadline, wrong_recipient, unsupported_version, cap_below_floor, deadline_epoch_seconds,
  check_deadline, first_present, deadline_keys, base_sepolia_usdc,
}
use oathcast.Payment.Validation.{
  nonempty_text, check_option, require_amount, require_recipient, check_resource, first_candidate,
  validate_for_request, allows_version, check_candidate, is_candidate, is_text, text_of,
}
use oathcast.Prelude.Exec.{ok, Result, err}
use oathcast.Prelude.Moment.{Moment}

module _ (h : Host) (payload : Fields) (url : String) (policy : Policy) where
  -- A whole amount of at least the floor and at most the caller's cap.
  abbrev pub AmountFits : Fields → Type 0
  AmountFits option =
      (n : ℕ) × (amount_of h (amount_value option) ≡ ok (some n))
      × (minimum_usdc_microunits ≤ n)
      × (n ≤ policy.max_amount_micro_usdc)

  abbrev pub RecipientFits : Fields → Type 0
  RecipientFits option =
      (p : String) × (nonempty_text (pay_to_value option) ≡ some p)
      × (h.lower p ≡ h.lower policy.expected_pay_to)

  abbrev pub ResourceFits : Fields → Type 0
  ResourceFits option =
      (resource_url_of option payload ≡ some url)
      ⊎ ((resource_url_of option payload ≡ none) × (policy.require_resource ≡ false))

  -- The checks as they fall on the amount, the recipient and the resource of the option.
  checked :
      Fields
      → Result ChallengeError (Option ℕ)
      → Option String
      → Option String
      → Result ChallengeError Fields
  checked option found recipient resource = do
    f ← found
    amount ← require_amount f
    guard (leb amount policy.max_amount_micro_usdc) amount_over_cap
    pay_to ← require_recipient recipient
    guard (h.lower pay_to == h.lower policy.expected_pay_to) wrong_recipient
    check_resource policy.require_resource url resource
    ok option

  Fits : Fields → Fields → Result ChallengeError (Option ℕ) → Option String → Option String → Type 0
  Fits option o found recipient resource =
      (o ≡ option)
      × ((n : ℕ) × (found ≡ ok (some n))
          × (minimum_usdc_microunits ≤ n)
          × (n ≤ policy.max_amount_micro_usdc))
      × ((p : String) × (recipient ≡ some p) × (h.lower p ≡ h.lower policy.expected_pay_to))
      × ((resource ≡ some url) ⊎ ((resource ≡ none) × (policy.require_resource ≡ false)))

  checked-Fits :
      (option o : Fields) (found : Result ChallengeError (Option ℕ))
      (recipient resource : Option String)
      → checked option found recipient resource ≡ ok o
      → Fits option o found recipient resource
  unfolding checked Fits
  checked-Fits option o (err e) recipient resource q = cc
  checked-Fits option o (ok none) recipient resource q = cc
  checked-Fits option o (ok (some n)) none resource q = ground arith
  checked-Fits option o (ok (some n)) (some p) none q = (
    ground arith,
    (n, refl, ground arith, ground arith),
    (p, refl, ground (arith, eq_iff (h.lower p) (h.lower policy.expected_pay_to))),
    inr (refl, ground arith),
  )
  checked-Fits option o (ok (some n)) (some p) (some r) q = (
    ground arith,
    (n, refl, ground arith, ground arith),
    (p, refl, ground (arith, eq_iff (h.lower p) (h.lower policy.expected_pay_to))),
    inl (ground (arith, eq_iff r url)),
  )

-- An exact payment in USDC on the one network.
pub record IsSupported (h : Host) (option : Fields) : Type 0 where
  pub scheme : h.lower (str h (get_or "scheme" (text "") option)) ≡ "exact"
  pub network : get_or "network" null option ≡ text "eip155:84532"
  pub asset :
      h.lower (str h (get_or "asset" (text "") option))
      ≡ h.lower "0x036CbD53842c5426634e7929541eC2318f3dCF7e"

-- The value stands in the list.
abbrev pub Offers : List Value → Value → Type 0
Offers [] v = ⊥
Offers (w ∷ vs) v = (w ≡ v) ⊎ Offers vs v

-- The challenge expires after the time, or has no readable deadline and needs none.
abbrev pub IsTimely : Host → Fields → Moment → Bool → Type 0
IsTimely h payload now required =
    ((deadline_epoch_seconds h payload ≡ none) × (required ≡ false))
    ⊎ ((deadline : ℕ) × (deadline_epoch_seconds h payload ≡ some deadline)
        × (now.aware ≡ true)
        × (now.micros < deadline))

is_text_lem : (s : String) (v : Value) → is_text s v ≡ true → v ≡ text s
is_text_lem s (text t) e = ap text ((eq_iff t s).0 e)
is_text_lem s (boolean b) e = ground (arith, e)
is_text_lem s null e = ground (arith, e)
is_text_lem s (number n) e = ground (arith, e)
is_text_lem s (real r) e = ground (arith, e)
is_text_lem s (array vs) e = ground (arith, e)
is_text_lem s (object fs) e = ground (arith, e)

is_candidate-IsSupported :
    (h : Host) (option : Fields) → is_candidate h option ≡ true → IsSupported h option
unfolding is_candidate
is_candidate-IsSupported h option e =
    let (r, c) = both _ _ e in
    let (a, b) = both _ _ r in
    record {
      scheme = (eq_iff (text_of "scheme" option h) "exact").0 a;
      network = is_text_lem _ _ b;
      asset = (eq_iff (text_of "asset" option h) (h.lower base_sepolia_usdc)).0 c;
    }

later :
    (h : Host) (v : Value) (vs : List Value) (option : Fields)
    → Offers vs (object option) × IsSupported h option
    → Offers (v ∷ vs) (object option) × IsSupported h option
later h v vs option (there, fine) = (inr there, fine)

first_candidate-Offers :
    (h : Host) (vs : List Value) (option : Fields)
    → first_candidate h vs ≡ some option
    → Offers vs (object option) × IsSupported h option
unfolding first_candidate
first_candidate-Offers h [] option e = cc
first_candidate-Offers h (object fs ∷ vs) option e = elim (Bool-cases (is_candidate h fs)) [
  | inl picked ↦
      let same : fs ≡ option = cc (rw picked at e) in
      (inl (ap object same), rw (sym same) (is_candidate-IsSupported h fs picked))
  | inr skipped ↦
      let (there, fine) = first_candidate-Offers h vs option (rw skipped at e) in (inr there, fine)
]
first_candidate-Offers h (null ∷ vs) option e =
    later h null vs option (first_candidate-Offers h vs option e)
first_candidate-Offers h (boolean b ∷ vs) option e =
    later h (boolean b) vs option (first_candidate-Offers h vs option e)
first_candidate-Offers h (number n ∷ vs) option e =
    later h (number n) vs option (first_candidate-Offers h vs option e)
first_candidate-Offers h (real r ∷ vs) option e =
    later h (real r) vs option (first_candidate-Offers h vs option e)
first_candidate-Offers h (text s ∷ vs) option e =
    later h (text s) vs option (first_candidate-Offers h vs option e)
first_candidate-Offers h (array xs ∷ vs) option e =
    later h (array xs) vs option (first_candidate-Offers h vs option e)

check_deadline-timely :
    (required present : Bool) (deadline : Option ℕ) (now : Moment) (t : Option String)
    → check_deadline required present deadline now ≡ ok t
    → ((deadline ≡ none) × (required ≡ false))
      ⊎ ((d : ℕ) × (deadline ≡ some d) × (now.aware ≡ true) × (now.micros < d))
check_deadline-timely true true none now t e = cc
check_deadline-timely true false none now t e = cc
check_deadline-timely false true none now t e = inl (refl, refl)
check_deadline-timely false false none now t e = inl (refl, refl)
check_deadline-timely required present (some d) now t e = elim (Bool-cases now.aware) [
  | inr naive ↦ cc (rw naive at e)
  | inl aware ↦ elim (Bool-cases (ltb now.micros d)) [
    | inr late ↦ cc (rw (aware, late) at e)
    | inl early ↦ inr (d, refl, aware, ltb→lt now.micros d early)
  ]
]

validate_deadline-IsTimely :
    (h : Host) (payload : Fields) (now : Moment) (required : Bool) (t : Option String)
    → validate_deadline h payload now required ≡ ok t
    → IsTimely h payload now required
unfolding validate_deadline
validate_deadline-IsTimely h payload now required t e =
    check_deadline-timely required (is_some (first_present deadline_keys payload))
      (deadline_epoch_seconds h payload) now t e

-- The limits on the option that may be signed.
pub record IsApproved (h : Host) (payload : Fields) (url : String) (policy : Policy) (now : Moment)
    (option : Fields) : Type 0 where
  pub first : first_candidate h (accepts payload) ≡ some option
  pub versioned : allows_version policy.allowed_versions (version h payload) ≡ true
  pub floor : minimum_usdc_microunits ≤ policy.max_amount_micro_usdc
  pub offered : Offers (accepts payload) (object option)
  pub supported : IsSupported h option
  pub timely : IsTimely h payload now policy.require_deadline
  pub amount : AmountFits h payload url policy option
  pub recipient : RecipientFits h payload url policy option
  pub resource : ResourceFits h payload url policy option

module _ (h : Host) (payload : Fields) (url : String) (policy : Policy) (now : Moment) where
  validated_lem :
      (option : Fields) (versioned floor : Bool) (deadline : Result ChallengeError (Option String))
      (candidate : Option Fields)
      → (guard versioned unsupported_version
          >> (guard floor cap_below_floor
              >> (deadline >> check_candidate h payload url policy candidate)))
        ≡ ok option
      → (versioned ≡ true)
        × (floor ≡ true)
        × ((t : Option String) × (deadline ≡ ok t))
        × (candidate ≡ some option)
        × AmountFits h payload url policy option
        × RecipientFits h payload url policy option
        × ResourceFits h payload url policy option
  unfolding checked Fits check_option
  validated_lem option true true (ok t) (some c) q =
      let (same, amount, recipient, resource) =
        checked-Fits h payload url policy c option (amount_of h (amount_value c))
          (nonempty_text (pay_to_value c)) (resource_url_of c payload) q in
      (refl, refl, (t, refl), rw same refl, rw same amount, rw same recipient, rw same resource)
  validated_lem option true true (ok t) none q = cc
  validated_lem option true true (err e) candidate q = cc
  validated_lem option true false deadline candidate q = cc
  validated_lem option false floor deadline candidate q = cc

  pub validate-IsApproved :
      (option : Fields)
      → validate_for_request h payload url policy now ≡ ok option
      → IsApproved h payload url policy now option
  unfolding validate_for_request
  validate-IsApproved option q =
      let (v, f, t, c, amount, recipient, resource) =
        validated_lem option (allows_version policy.allowed_versions (version h payload))
          (leb minimum_usdc_microunits policy.max_amount_micro_usdc)
          (validate_deadline h payload now policy.require_deadline)
          (first_candidate h (accepts payload)) q in
      let (offered, supported) = first_candidate-Offers h (accepts payload) option c in
      record {
        first = c;
        offered = offered;
        supported = supported;
        versioned = v;
        floor = leb→le _ _ f;
        timely = validate_deadline-IsTimely h payload now policy.require_deadline t.0 t.1;
        amount = amount;
        recipient = recipient;
        resource = resource;
      }
