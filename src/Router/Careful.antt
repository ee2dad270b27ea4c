-- ===== src/Router/Careful.antt =====
-- What a decision of `CrossMinerRouter.decide` of src/oathcast/application.py rests on, and which errors end
-- it.
use Prim.Native.String.{◌++◌ as ◌<>◌}
use oathcast.Prelude.Exec.{◌>>=◌, Result, ok, err, Yields, Yields-continue, gets, pure}
use oathcast.Router.Paying.{CallFault}
use oathcast.Router.Reply.{Reply, Router, or_text}
use oathcast.Router.Decide.{
  Decision, decide, conclude, replies_of, is_empty, valid_replies, external_valid, weighted,
  aggregate_of, summed, unit_threshold, decision_of,
}
use oathcast.Router.Aggregate.{Between, weighted-Between}
use oathcast.Forecast.{Question}
use oathcast.Prelude.{
  Bool, ◌≡◌, ◌&&◌, String, Option, false, ℕ, Option-cases, true, List, some, inl, not, arith, ◌≤◌,
  inr, leb, Bool-cases, ◌*◌, refl,
}
use oathcast.Prelude.Int.{ℤ, pos, negsuc}

-- A decision that a router may act on.
pub record IsSupported {S : Type 0} (c : Router S) (q : Question) (d : Decision) : Type 0 where
  pub question : d.question ≡ q
  pub answered : is_empty (valid_replies d.replies) ≡ false
  pub external : c.require_external ≡ true → is_empty (external_valid d.replies) ≡ false
  pub reported : d.used_external_miner ≡ not (is_empty (external_valid d.replies))
  pub aggregate : Between (valid_replies d.replies) d.aggregate_x10000
  pub likely : d.event_likely ≡ leb d.decision_threshold (100 * d.aggregate_x10000)
  pub threshold : d.decision_threshold ≤ 1000000

external_lem : (a b : Bool) → (a && b) ≡ false → a ≡ true → b ≡ false
external_lem true b h e = h
external_lem false b h e = ground (arith, e)

module _ {S : Type 0} (c : Router S) (q : Question) where
  Supported : Decision → S → Type 0
  Supported d s = IsSupported c q d

  concluded :
      (request_id : String) (n : ℕ) (replies : List Reply) (s : S) (r : Result CallFault (ℕ × ℕ))
      → weighted c.capabilities (0, 0) (valid_replies replies) ≡ r
      → n ≤ 1000000
      → (c.require_external && is_empty (external_valid replies)) ≡ false
      → is_empty (valid_replies replies) ≡ false
      → Yields Supported (
          (summed r >>= (λ sums.
              gets c.clock
              >>= (λ at. pure (decision_of q request_id n replies (aggregate_of sums) at))))
            s)
  unfolding Supported
  concluded request_id n replies s (err e) w le external answered = tt
  concluded request_id n replies s (ok sums) w le external answered = record {
    question = refl;
    answered = answered;
    external = external_lem c.require_external (is_empty (external_valid replies)) external;
    reported = refl;
    aggregate = weighted-Between c.capabilities (valid_replies replies) sums answered w;
    likely = refl;
    threshold = le;
  }

  conclude-Supported :
      (request_id : String) (n : ℕ) (replies : List Reply) (s : S)
      → n ≤ 1000000
      → Yields Supported (conclude c q request_id n replies s)
  unfolding conclude
  conclude-Supported request_id n replies s le =
      elim (Bool-cases (c.require_external && is_empty (external_valid replies))) [
        | inl missing ↦ rw missing tt
        | inr external ↦ elim (Bool-cases (is_empty (valid_replies replies))) [
          | inl none_valid ↦ rw (external, none_valid) tt
          | inr answered ↦
              rw (external, answered)
                (concluded request_id n replies s
                  (weighted c.capabilities (0, 0) (valid_replies replies)) refl le external
                  answered)
        ]
      ]

  unit_threshold-le : (t : ℤ) (n : ℕ) → unit_threshold t ≡ some n → n ≤ 1000000
  unit_threshold-le (pos m) n e = ground (arith, e)
  unit_threshold-le (negsuc m) n e = cc

  -- A decision that `decide` returns is of the question; it rests on at least one valid reply, and, where
  -- the policy asks for it, on one of a Miner that is not the Application's own, and it says whether there
  -- is one. Its aggregate lies where the valid probabilities lie: it is no less than any whole number of
  -- ten-thousandths that they all reach and no more than any that none exceeds. The event is called
  -- likely exactly if the aggregate reaches the threshold that the decision records, which is between
  -- zero and one.
  pub decide-IsSupported :
      (disable_owned : Bool) (request_id : Option String) (threshold : ℤ) (uuid : String) (s : S)
      → Yields (λ d _. IsSupported c q d) (decide c q disable_owned request_id threshold uuid s)
  unfolding decide Supported
  decide-IsSupported disable_owned request_id threshold uuid s =
      elim (Option-cases (unit_threshold threshold)) [
        | inl out ↦ rw (decide, out) tt
        | inr (n, e) ↦
            let id = or_text request_id ("app-" <> uuid) in
            rw (decide, e)
              (Yields-continue {E = CallFault} {A = List Reply} Supported
                (replies_of c disable_owned q id c.capabilities s) (conclude c q id n)
                (λ replies h.
                  conclude-Supported id n replies
                    (replies_of c disable_owned q id c.capabilities s).1
                    (unit_threshold-le threshold n e)))
      ]
