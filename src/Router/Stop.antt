-- ===== src/Router/Stop.antt =====
-- A payment error ends `CrossMinerRouter.decide` of src/oathcast/application.py.
use oathcast.Prelude.Exec.{ok, err, Exec, ◌>>=◌, pure, continue, continue-ok}
use oathcast.Router.Paying.{CallFault, payment}
use oathcast.Router.Reply.{Reply, Router, reply, handled, attempt, call_client}
use oathcast.Router.Decide.{decide, replies_of, is_called, unit_threshold}
use oathcast.Forecast.{Question}
use oathcast.Prelude.{
  String, List, Bool, ◌≡◌, ◌∷◌, true, refl, ◌++◌, ap, Bool-cases, inr, sym, inl, [], false, ◌∙◌, ℕ,
  some, ◌==◌,
}
use oathcast.Sidecar.Text.{PaymentError}
use oathcast.Prelude.Int.{ℤ}
use mathlib.Core.Path.{subst}
use oathcast.Discovery.Miner.{Capability}

module _ {S : Type 0} (c : Router S) (q : Question) (id : String) where
  -- The error of the call leaves `_reply` as it is.
  reply-payment :
      (cap : Capability) (e : PaymentError) (s s' : S)
      → call_client c cap q id s ≡ (err (payment e), s')
      → reply c cap q id s ≡ (err (payment e), s')
  unfolding reply attempt handled
  reply-payment cap e s s' h = rw h refl

  with_rest : (r : Reply) (rest : Exec S CallFault (List Reply)) → Exec S CallFault (List Reply)
  with_rest r rest = do rs ← rest; pure (r ∷ rs)

  with_rest-err :
      (r : Reply) (rest : Exec S CallFault (List Reply)) (s t : S) (e : CallFault)
      → rest s ≡ (err e, t)
      → with_rest r rest s ≡ (err e, t)
  unfolding with_rest
  with_rest-err r rest s t e h = rw h refl

  replies_of-skipped :
      (disable_owned : Bool) (cap : Capability) (caps : List Capability) (s : S)
      → is_called c disable_owned cap ≡ false
      → replies_of c disable_owned q id (cap ∷ caps) s ≡ replies_of c disable_owned q id caps s
  unfolding replies_of
  replies_of-skipped disable_owned cap caps s h = rw h refl

  replies_of-asked :
      (disable_owned : Bool) (cap : Capability) (caps : List Capability) (s : S)
      → is_called c disable_owned cap ≡ true
      → replies_of c disable_owned q id (cap ∷ caps) s
        ≡ continue
            (reply c cap q id s).0
            (λ r. with_rest r (replies_of c disable_owned q id caps))
            (reply c cap q id s).1
  unfolding replies_of with_rest
  replies_of-asked disable_owned cap caps s h = rw h refl

  with_rest-ok :
      (r : Reply) (rest : Exec S CallFault (List Reply)) (s t : S) (rs : List Reply)
      → with_rest r rest s ≡ (ok rs, t)
      → (rs' : List Reply) × (rest s ≡ (ok rs', t))
  unfolding with_rest
  with_rest-ok r rest s t rs h =
      let (rs', first, last) = continue-ok (rest s) (λ rs'. pure (r ∷ rs')) rs t h in
      (rs', λ i. (first i, (last i).1))

  replies_of-payment :
      (disable_owned : Bool) (before after : List Capability) (cap : Capability) (rs : List Reply)
      (e : PaymentError) (s s' s'' : S)
      → replies_of c disable_owned q id before s ≡ (ok rs, s')
      → is_called c disable_owned cap ≡ true
      → call_client c cap q id s' ≡ (err (payment e), s'')
      → replies_of c disable_owned q id (before ++ cap ∷ after) s ≡ (err (payment e), s'')
  unfolding replies_of
  replies_of-payment disable_owned [] after cap rs e s s' s'' h called raised =
      let here : s ≡ s' = ap (λ p. p.1) h in
      rw (called, here, reply-payment cap e s' s'' raised) refl
  replies_of-payment disable_owned (b ∷ before) after cap rs e s s' s'' h called raised =
      elim (Bool-cases (is_called c disable_owned b)) [
        | inr skipped ↦
            replies_of-skipped disable_owned b (before ++ cap ∷ after) s skipped
            ∙ replies_of-payment disable_owned before after cap rs e s s' s''
                (sym (replies_of-skipped disable_owned b before s skipped) ∙ h) called raised
        | inl asked ↦
            let (r, replied, rested) =
              continue-ok (reply c b q id s)
                (λ r. with_rest r (replies_of c disable_owned q id before)) rs s'
                (sym (replies_of-asked disable_owned b before s asked) ∙ h) in
            let (rs', earlier) =
              with_rest-ok r (replies_of c disable_owned q id before) (reply c b q id s).1 s' rs
                rested in
            let later =
              with_rest-err r (replies_of c disable_owned q id (before ++ cap ∷ after))
                (reply c b q id s).1 s'' (payment e)
                (replies_of-payment disable_owned before after cap rs' e (reply c b q id s).1 s' s''
                  earlier called raised) in
            replies_of-asked disable_owned b (before ++ cap ∷ after) s asked ∙ rw replied later
      ]

-- Once a call of a Miner raises a payment error, `decide` raises that error, whatever the Miners before
-- answered: no Miner after it is called, no reply is made of it, and no decision is taken.
pub decide-payment :
    {S : Type 0} (c : Router S) (q : Question) (disable_owned : Bool) (id uuid : String)
    (threshold : ℤ) (n : ℕ) (before after : List Capability) (cap : Capability) (rs : List Reply)
    (e : PaymentError) (s s' s'' : S)
    → unit_threshold threshold ≡ some n
    → (id == "") ≡ false
    → c.capabilities ≡ before ++ cap ∷ after
    → replies_of c disable_owned q id before s ≡ (ok rs, s')
    → is_called c disable_owned cap ≡ true
    → call_client c cap q id s' ≡ (err (payment e), s'')
    → decide c q disable_owned (some id) threshold uuid s ≡ (err (payment e), s'')
unfolding decide
decide-payment c q disable_owned id uuid threshold n before after cap rs e s s' s'' t named caps h
      called raised =
    let stopped =
      subst (λ caps. replies_of c disable_owned q id caps s ≡ (err (payment e), s'')) (sym caps)
        (replies_of-payment c q id disable_owned before after cap rs e s s' s'' h called raised) in
    rw (decide, t, named, stopped) refl
