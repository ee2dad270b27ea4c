-- ===== src/Payment/Client/AtMostOnce.antt =====
-- The branches of `_request` of src/oathcast/payment.py, and the paid requests that leave for a URL.
use oathcast.Prelude.Exec.{Result, ok}
use oathcast.Payment.Client.World.{
  Config, Readings, World, HttpResult, on_journal, transport_raised, unpaid,
}
use oathcast.Payment.Client.Once.{
  Keeps, keeps_rules, IsOnce, paid_count, one_if_paid, Once, perform-IsOnce, Keeps-bind-checked_by,
  Keeps-raise, Keeps-then, Keeps-bind, result-IsOnce,
}
use oathcast.Payment.Journal.Methods.{Limits, assert_available}
use oathcast.Prelude.{
  ◌∷◌, String, Option, ◌≡◌, some, List, none, inl, inr, arith, ℕ, ◌⊎◌, refl, [], ◌≤◌,
}
use oathcast.Payment.Client.Request.{
  record_sent, require_header, get_unpaid, validate_signing_policy,
}
use oathcast.Payment.Journal.History.{perform, Call}
use oathcast.Payment.Client.Pay.{pay, pay_if_signer, answer_challenge, answer_unpaid, request}
use oathcast.Payment.Authorization.{Authorization}
use oathcast.Payment.Challenge.{Challenge}
use oathcast.Payment.Journal.Table.{Journal, blocking_count, blocking_total}
use oathcast.Payment.Validation.{from_challenge}
use oathcast.Json.{Host, Fields}
use oathcast.Payment.Client.Stages.{
  reserve-Keeps, read_clock-Keeps, returned-Keeps, sign_or_abort-Keeps, response_or_error-Keeps,
  send-Keeps,
}

from_challenge-request_url :
    (h : Host) (challenge : Challenge) (url : String) (option : Fields) (a : Authorization)
    → from_challenge h challenge url option ≡ ok a
    → a.request_url ≡ url
unfolding from_challenge
from_challenge-request_url h challenge url option a e = ground arith

assert_available-state :
    (url : String) (limits : Limits) (n : ℕ) (j : Journal) → (assert_available url limits n j).1 ≡ j
unfolding assert_available
assert_available-state url limits n j = ground arith

unpaid-Once : (url u : String) (w : World) → Once u w → Once u (record_sent (unpaid url) w)
unfolding paid_count one_if_paid
unpaid-Once url u w (inl e) = inl (omega arith)
unpaid-Once url u w (inr (e, s)) = inr (omega arith, s)

module _ (c : Config) (r : Readings) where
  pay-Keeps :
      (url : String) (headers : List (String × String)) (challenge : Challenge)
      (signer : Authorization → Result String String)
      → Keeps c.limits (pay c r url headers challenge signer)
  unfolding pay
  pay-Keeps url headers challenge signer = Keeps-bind-checked_by c.limits _ _ (λ option _.
      Keeps-bind-checked_by c.limits _ _ (λ a made.
        Keeps-then c.limits _ _ (reserve-Keeps c r a r.reserved) (
          Keeps-bind c.limits _ _ (sign_or_abort-Keeps c r signer a) (λ proof.
            send-Keeps c r url headers challenge a proof
              (from_challenge-request_url c.host challenge url option a made)))))

  pay_if_signer-Keeps :
      (url : String) (headers : List (String × String)) (challenge : Challenge)
      (o : Option (Authorization → Result String String))
      → Keeps c.limits (pay_if_signer c r url headers challenge o)
  pay_if_signer-Keeps url headers challenge none = Keeps-raise c.limits _
  pay_if_signer-Keeps url headers challenge (some signer) = pay-Keeps url headers challenge signer

  require_header-Keeps : (o : Option String) → Keeps c.limits (require_header o)
  require_header-Keeps none = search keeps_rules
  require_header-Keeps (some s) = search keeps_rules

  answer_challenge-Keeps :
      (url : String) (headers : List (String × String)) (first : HttpResult)
      → Keeps c.limits (answer_challenge c r url headers first)
  unfolding answer_challenge
  answer_challenge-Keeps url headers first =
      search (keeps_rules, require_header-Keeps, pay_if_signer-Keeps)

  answer_unpaid-Keeps :
      (url : String) (first : HttpResult) → Keeps c.limits (answer_unpaid c r url first)
  unfolding answer_unpaid
  answer_unpaid-Keeps url first =
      search (keeps_rules, read_clock-Keeps c r, response_or_error-Keeps c r)

  get_unpaid-Keeps :
      (url : String) (headers : List (String × String)) → Keeps c.limits (get_unpaid c url headers)
  unfolding get_unpaid
  get_unpaid-Keeps url headers = record {
    at = λ w h.
        (returned-Keeps c r transport_raised (c.transport url headers)).at
          (record_sent (unpaid url) w)
          (record { sound = h.sound; once = λ u. unpaid-Once url u w (h.once u) });
  }

  available-Keeps : (url : String) → Keeps c.limits (on_journal (assert_available url c.limits 0))
  available-Keeps url = record {
    at = λ w h.
        result-IsOnce c.limits w.sent (assert_available url c.limits 0 w.journal)
          (rw (assert_available-state url c.limits 0 w.journal) h);
  }

  signing_policy-Keeps : (url : String) → Keeps c.limits (validate_signing_policy c url)
  unfolding validate_signing_policy
  signing_policy-Keeps url = search (keeps_rules, available-Keeps) depth 9

  -- One request, whatever it returns or raises.
  pub request-Keeps :
      (url : String) (headers : List (String × String)) → Keeps c.limits (request c r url headers)
  unfolding request
  request-Keeps url headers = search (
    keeps_rules, signing_policy-Keeps, get_unpaid-Keeps, answer_challenge-Keeps,
    answer_unpaid-Keeps,
  )

-- What may happen to the journal and the wire: a request of a client, or a call of the journal by another
-- process.
pub data Event : Type 0 where
  visit : Config → Readings → String → List (String × String) → Event
  other : Host → Call → Event

-- The clients share the journal and its limits; a request that raises has still had its effects.
unfoldable pub happen : Limits → List Event → World → World
unfolding request perform
happen limits [] w = w
happen limits ((visit c r url headers) ∷ es) w =
    happen limits es (request (record c { limits = limits }) r url headers w).1
happen limits ((other h c) ∷ es) w =
    happen limits es (record { journal = (perform h limits c w.journal).1; sent = w.sent })

happen-IsOnce :
    (limits : Limits) (es : List Event) (w : World)
    → IsOnce limits w
    → IsOnce limits (happen limits es w)
unfolding happen
happen-IsOnce limits [] w h = h
happen-IsOnce limits ((visit c r url headers) ∷ es) w h =
    happen-IsOnce limits es _ ((request-Keeps (record c { limits = limits }) r url headers).at w h)
happen-IsOnce limits ((other host c) ∷ es) w h =
    happen-IsOnce limits es _ (perform-IsOnce limits host c w h)

abbrev pub fresh_world : World
fresh_world = record { journal = []; sent = [] }

fresh_world-IsOnce : (limits : Limits) → IsOnce limits fresh_world
unfolding paid_count blocking_count blocking_total
fresh_world-IsOnce limits = record {
  sound = record { keyed = tt; count = omega arith; total = omega arith };
  once = λ url. inl refl;
}

-- From an empty journal on, whatever requests are made by clients that share their limits, with any
-- signers, transports and verifiers, and whatever other processes do to the journal between them, at most
-- one paid request leaves for each URL.
pub paid_at_most_once :
    (limits : Limits) (es : List Event) (url : String)
    → paid_count url (happen limits es fresh_world).sent ≤ 1
paid_at_most_once limits es url =
    at_most ((happen-IsOnce limits es fresh_world (fresh_world-IsOnce limits)).once url)
  where
    at_most : {n : ℕ} {P : Type 0} → (n ≡ 0) ⊎ ((n ≡ 1) × P) → n ≤ 1
    at_most (inl e) = omega arith
    at_most (inr (e, p)) = omega arith
