-- ===== src/Payment/Client/Stages.antt =====
-- The stages of the paid half of `_request` of src/oathcast/payment.py under the rules of Client/Once.antt.
use oathcast.Prelude.Exec.{◌>>=◌, Result, ok, err, continue}
use oathcast.Payment.Client.World.{
  Config, Readings, World, ClientError, HttpResult, Cause, PaymentResponse, on_journal,
  no_settlement_header, not_verified, verification_failed, transport_raised, try_except,
  request_failed, paid, rescue, Sent, Client, journal_result,
}
use oathcast.Payment.Client.Once.{
  Keeps, keeps_rules, IsOnce, Keeps-if, paid_count, Keeps-perform, continued, one_if_paid, Once,
  rescued, perform-IsOnce,
}
use oathcast.Payment.Journal.Methods.{
  Limits, mark_unknown, mark_settled, abort_reservation, reserve, mark_submitted, Error,
}
use oathcast.Prelude.{
  String, Option, Bool, ◌≡◌, some, List, none, true, false, inl, Bool-cases, inr, ◌==◌, eq_iff,
  arith, ℕ, ◌⊎◌, refl,
}
use oathcast.Payment.Client.Request.{
  read_clock, response_or_error, Context, returned, iso, get_paid, record_sent,
}
use oathcast.Payment.Journal.History.{
  perform, unknown_call, settled_call, abort_call, reserve_call, submitted_call,
}
use oathcast.Payment.Client.Pay.{
  lose, settle, conclude, sign_or_abort, judged, verdict, signed_by, exchange, send,
}
use oathcast.Prelude.Moment.{Moment}
use oathcast.Payment.Authorization.{Authorization}
use oathcast.Clock.{format_timestamp}
use oathcast.Payment.Journal.Lifecycle.{IsSpent, status_of, transition-ok}
use oathcast.Payment.Challenge.{Challenge}
use oathcast.Payment.Journal.Table.{Journal, reserved, submitted, Status}

-- The journal's row of the URL has just been marked submitted, and no proof has left yet.
record IsReady (limits : Limits) (url : String) (w : World) : Type 0 where
  kept : IsOnce limits w
  fresh : paid_count url w.sent ≡ 0
  spent : IsSpent (status_of url w.journal)

paid-Once :
    {limits : Limits} (url proof : String) (w : World)
    → IsReady limits url w
    → (u : String) → Once u (record_sent (paid url proof) w)
unfolding paid_count one_if_paid
paid-Once url proof w h u = elim (Bool-cases (url == u)) [
  | inl same ↦ inr (
    rw (same, rw ((eq_iff url u).0 same) at h.fresh) (omega arith),
    rw ((eq_iff url u).0 same) at h.spent,
  )
  | inr other ↦
      rw other
        (elim (h.kept.once u) [ inl e ↦ inl (omega arith) | inr (e, s) ↦ inr (omega arith, s) ])
]

-- Blocked is not reserved.
reserved-fresh :
    {a : Option Status} {n : ℕ} → a ≡ some reserved → (n ≡ 0) ⊎ ((n ≡ 1) × IsSpent a) → n ≡ 0
reserved-fresh e (inl z) = z
reserved-fresh e (inr (z, s)) = absurd (rw e at s)

module _ (c : Config) (r : Readings) where
  pub returned-Keeps :
      {A : Type 0} (f : String → ClientError) (p : Result String A) → Keeps c.limits (returned f p)
  returned-Keeps f (ok a) = record { at = λ w h. h }
  returned-Keeps f (err s) = record { at = λ w h. h }

  pub iso-Keeps : (o : Option String) → Keeps c.limits (iso o)
  iso-Keeps none = record { at = λ w h. h }
  iso-Keeps (some t) = record { at = λ w h. h }

  pub read_clock-Keeps : (m : Moment) → Keeps c.limits (read_clock m)
  unfolding read_clock
  read_clock-Keeps m = iso-Keeps (format_timestamp m)

  pub response_or_error-Keeps :
      (a : HttpResult) (x : Context) → Keeps c.limits (response_or_error c.host a x)
  unfolding response_or_error
  response_or_error-Keeps a x = search keeps_rules

  pub mark_unknown-Keeps :
      (url message : String) (now : Moment)
      → Keeps c.limits (on_journal (mark_unknown url message now))
  unfolding perform
  mark_unknown-Keeps url message now = Keeps-perform c.limits c.host (unknown_call url message now)

  pub mark_settled-Keeps :
      (url : String) (evidence : Option String) (now : Moment)
      → Keeps c.limits (on_journal (mark_settled url evidence now))
  unfolding perform
  mark_settled-Keeps url evidence now =
      Keeps-perform c.limits c.host (settled_call url evidence now)

  pub abort-Keeps :
      (url message : String) (now : Moment)
      → Keeps c.limits (on_journal (abort_reservation url message now))
  unfolding perform
  abort-Keeps url message now = Keeps-perform c.limits c.host (abort_call url message now)

  pub reserve-Keeps :
      (a : Authorization) (now : Moment)
      → Keeps c.limits (on_journal (reserve c.host a c.limits now))
  unfolding perform
  reserve-Keeps a now = Keeps-perform c.limits c.host (reserve_call a now)

  lose-Keeps : (url message : String) (cause : Cause) → Keeps c.limits (lose c r url message cause)
  unfolding lose
  lose-Keeps url message cause = search (keeps_rules, mark_unknown-Keeps)

  settle-Keeps : (url : String) (p : PaymentResponse) → Keeps c.limits (settle c r url p)
  unfolding settle
  settle-Keeps url p = search (keeps_rules, mark_settled-Keeps)

  judged-Keeps :
      (url : String) (p : PaymentResponse) (o : Option (Result String Bool))
      → Keeps c.limits (judged c r url p o)
  judged-Keeps url p (some (ok true)) = settle-Keeps url p
  judged-Keeps url p (some (ok false)) = lose-Keeps url _ not_verified
  judged-Keeps url p (some (err s)) = lose-Keeps url _ verification_failed
  judged-Keeps url p none = lose-Keeps url _ not_verified

  conclude-Keeps :
      (url : String) (a : Authorization) (p : PaymentResponse)
      → Keeps c.limits (conclude c r url a p)
  unfolding conclude
  conclude-Keeps url a p =
      Keeps-if c.limits _ _ _ (lose-Keeps url _ no_settlement_header)
        (judged-Keeps url p (verdict c.verifier p a))

  signed_by-Keeps : (s : Result String String) → Keeps c.limits (signed_by s)
  signed_by-Keeps (ok proof) = search keeps_rules
  signed_by-Keeps (err s) = search keeps_rules

  pub sign_or_abort-Keeps :
      (signer : Authorization → Result String String) (a : Authorization)
      → Keeps c.limits (sign_or_abort c r signer a)
  unfolding sign_or_abort
  sign_or_abort-Keeps signer a = search (keeps_rules, signed_by-Keeps, abort-Keeps)

  -- The one place where a proof leaves.
  get_paid-IsOnce :
      (url : String) (headers : List (String × String)) (proof : String) (w : World)
      → IsReady c.limits url w
      → IsOnce c.limits (get_paid c url headers proof w).1
  unfolding get_paid
  get_paid-IsOnce url headers proof w h =
      (returned-Keeps transport_raised (c.transport url _)).at (record_sent (paid url proof) w)
        (record { sound = h.kept.sound; once = paid-Once url proof w h })

  exchange-IsOnce :
      (url : String) (headers : List (String × String)) (challenge : Challenge) (a : Authorization)
      (proof : String) (w : World)
      → IsReady c.limits url w
      → IsOnce c.limits (exchange c r url headers challenge a proof w).1
  unfolding exchange
  exchange-IsOnce url headers challenge a proof w h =
      continued c.limits (get_paid c url headers proof w).0 (get_paid c url headers proof w).1 _
        (λ answer _. search (keeps_rules, read_clock-Keeps, response_or_error-Keeps))
        (get_paid-IsOnce url headers proof w h)

  marked-IsOnce :
      (a : Authorization) (w : World)
      → IsOnce c.limits w
      → IsOnce c.limits
          (record { journal = (mark_submitted a r.submitted w.journal).1; sent = w.sent })
  unfolding perform
  marked-IsOnce a w h = perform-IsOnce c.limits c.host (submitted_call a r.submitted) w h

  -- A row that could be marked submitted was only reserved, so no proof for its URL has left.
  submitted-IsReady :
      (a : Authorization) (w : World)
      → IsOnce c.limits w
      → (mark_submitted a r.submitted w.journal).0 ≡ ok tt
      → IsReady c.limits a.request_url
          (record { journal = (mark_submitted a r.submitted w.journal).1; sent = w.sent })
  unfolding perform mark_submitted
  submitted-IsReady a w h e =
      let (before, after) =
        transition-ok a.request_url reserved submitted none none r.submitted w.journal h.sound.keyed
          e in
      record {
        kept = marked-IsOnce a w h;
        fresh = reserved-fresh before (h.once a.request_url);
        spent = rw after tt;
      }

  sent_on :
      (url : String) (headers : List (String × String)) (challenge : Challenge) (a : Authorization)
      (proof : String) (w : World)
      → IsReady c.limits url w
      → IsOnce c.limits
          ((try_except
                (exchange c r url headers challenge a proof)
                (λ e. lose c r url (c.str_exception e) request_failed)
              >>= conclude c r url a)
            w).1
  sent_on url headers challenge a proof w h =
      let handler = λ (e : ClientError). lose c r url (c.str_exception e) request_failed in
      let (x, w') = exchange c r url headers challenge a proof w in
      continued c.limits (rescue handler (x, w')).0 (rescue handler (x, w')).1 (conclude c r url a)
        (λ p _. conclude-Keeps url a p)
        (rescued c.limits (x, w') handler (λ e. lose-Keeps url _ request_failed)
          (exchange-IsOnce url headers challenge a proof w h))

  after_mark :
      (sent : List Sent) (p : Result Error (Unit {0}) × Journal) (k : Client PaymentResponse)
      → IsOnce c.limits (record { journal = p.1; sent = sent })
      → (p.0 ≡ ok tt → IsOnce c.limits (k (record { journal = p.1; sent = sent })).1)
      → IsOnce c.limits (continue (journal_result sent p).0 (λ _. k) (journal_result sent p).1).1
  after_mark sent (ok _, j) k h f = f refl
  after_mark sent (err e, j) k h f = h

  pub send-Keeps :
      (url : String) (headers : List (String × String)) (challenge : Challenge) (a : Authorization)
      (proof : String)
      → a.request_url ≡ url
      → Keeps c.limits (send c r url headers challenge a proof)
  unfolding send
  send-Keeps url headers challenge a proof e = record {
    at = λ w h.
        after_mark w.sent (mark_submitted a r.submitted w.journal) _ (marked-IsOnce a w h)
          (λ q. sent_on url headers challenge a proof _ (rw (← e) (submitted-IsReady a w h q)));
  }
