-- ===== src/Workflow/Frozen.antt =====
-- `decide` of src/oathcast/workflow.py: what it leaves in the case store, and a case that is already decided.
use oathcast.Prelude.Exec.{
  Result, ok, err, continue, Yields, Yields-ok, Yields-continue, ◌>>=◌, Result-cases, pure,
  Yields-map,
}
use oathcast.Cases.Store.{Error, Store, of_event, Driver}
use oathcast.Cases.Seal.{seal_decision, seal_row, names_event}
use oathcast.Cases.Read.{CaseView, get_case, view}
use oathcast.Cases.Sealed.{Holds, Returned, seal_row-Holds}
use oathcast.Router.Decide.{decide as route, Decision, decision_dict}
use oathcast.Router.Careful.{IsSupported, decide-IsSupported}
use oathcast.Workflow.Steps.{
  Workflow, Work, WorkflowError, call_error, from_store, on_outside, from_outside, open_case, seal,
  decide, at_instant,
}
use oathcast.Json.{Host, Fields, object, get_or, null}
use oathcast.Forecast.{Question}
use oathcast.Prelude.{String, ◌≡◌, Option, Bool, inl, Bool-cases, sym, refl, inr}
use oathcast.Json.Dumps.{dumps}
use oathcast.Router.Paying.{CallFault}
use oathcast.Prelude.Int.{ℤ}
use oathcast.Prelude.Keyed.{find}
use oathcast.Prelude.Moment.{Moment}
use mathlib.Core.Path.{subst}

-- Whatever reading the case back comes to, it changes nothing.
Returned-read :
    (P : Store → Type 0) (h : Host) (id : String) (p : Result Error (Unit {0}) × Store)
    → Returned P p
    → Returned P (continue p.0 (λ _. get_case h id) p.1)
unfolding get_case
Returned-read P h id (err e, s) r = tt
Returned-read P h id (ok u, s) r = elim (Result-cases (view h id s (find (of_event id) s.cases))) [
  | inl (v, e) ↦ rw e r
  | inr (x, e) ↦ rw e tt
]

seal_decision-Holds :
    (h : Host) (d : Driver) (id : String) (payload : Fields) (at : Option Moment)
    (now later : Moment) (s : Store)
    → Returned (Holds id (dumps h (object payload))) (seal_decision h d id payload at now later s)
unfolding seal_decision
seal_decision-Holds h d id payload at now later s =
    elim (Bool-cases (names_event id (get_or "event_id" null payload))) [
      | inr other ↦ rw other tt
      | inl named ↦ rw named (
          Returned-read (Holds id (dumps h (object payload))) h id
            (seal_row h d id payload at now later s) (seal_row-Holds h d id payload at now later s))
    ]

-- The stored decision of an event is the one that was returned.
pub record IsFrozen {S : Type 0} (f : Workflow S) (q : Question) (d : Decision) (w : Work S)
    : Type 0 where
  pub supported : IsSupported f.router q d
  pub stored :
      Holds q.event_id (dumps f.router.host (object (decision_dict f.router.host d))) w.store

module _ {S : Type 0} (f : Workflow S) (q : Question) where
  Stored : Decision → Decision → Work S → Type 0
  Stored d d' w =
      (d' ≡ d)
      × Holds q.event_id (dumps f.router.host (object (decision_dict f.router.host d))) w.store

  seal-Stored : (d : Decision) (w : Work S) → Yields (Stored d) (seal f q d w)
  unfolding seal Stored
  seal-Stored d w =
      kept
        (seal_decision f.router.host f.driver q.event_id (decision_dict f.router.host d)
          (at_instant d) (f.clock w.outside) (f.clock w.outside) w.store)
        (seal_decision-Holds f.router.host f.driver q.event_id (decision_dict f.router.host d)
          (at_instant d) (f.clock w.outside) (f.clock w.outside) w.store)
    where
      kept :
          (p : Result Error (Option CaseView) × Store)
          → Returned
              (Holds q.event_id (dumps f.router.host (object (decision_dict f.router.host d))))
              p
          → Yields
              (Stored d)
              (continue (from_store w.outside p).0 (λ _. pure d) (from_store w.outside p).1)
      kept (ok v, s) h = (refl, h)
      kept (err e, s) h = tt

  routed :
      (t : Store) (p : Result CallFault Decision × S)
      → Yields (λ d _. IsSupported f.router q d) p
      → Yields (λ d _. IsSupported f.router q d) (from_outside call_error t p)
  routed t (ok d, s) y = y
  routed t (err e, s) y = tt

  -- A decision that the workflow returns is supported as the router promises, and the case store then
  -- holds exactly that decision for the event.
  pub decide-IsFrozen :
      (disable_owned : Bool) (request_id : Option String) (threshold : ℤ) (uuid : String)
      (w : Work S)
      → Yields (IsFrozen f q) (decide f q disable_owned request_id threshold uuid w)
  unfolding decide Stored
  decide-IsFrozen disable_owned request_id threshold uuid w =
      Yields-continue {E = WorkflowError} {A = Unit {0}} (IsFrozen f q) (open_case f q w)
        (λ _.
          on_outside call_error (route f.router q disable_owned request_id threshold uuid)
          >>= seal f q)
        (λ u opened.
          let w' = (open_case f q w).1 in
          let asked =
            on_outside call_error (route f.router q disable_owned request_id threshold uuid) w' in
          Yields-continue {E = WorkflowError} {A = Decision} (IsFrozen f q) asked (seal f q) (λ d h.
            let supported : IsSupported f.router q d =
              Yields-ok (λ d _. IsSupported f.router q d) asked d asked.1 h
                (routed w'.store
                  (route f.router q disable_owned request_id threshold uuid w'.outside)
                  (decide-IsSupported f.router q disable_owned request_id threshold uuid
                    w'.outside)) in
            Yields-map (Stored d) (IsFrozen f q) (seal f q d asked.1)
              (λ d' v s. frozen d d' v supported s) (seal-Stored d asked.1)))
    where
      frozen :
          (d d' : Decision) (v : Work S)
          → IsSupported f.router q d
          → Stored d d' v
          → IsFrozen f q d' v
      frozen d d' v supported (same, held) =
          subst (λ x. IsFrozen f q x v) (sym same) (record { supported = supported; stored = held })
