-- ===== src/Demand/Recorded.antt =====
-- Where the event of `DemandLedger.record` of src/oathcast/demand.py stands after it returned.
use oathcast.Json.{Host, Value, object, null, boolean, number, real, text, array}
use oathcast.Demand.Event.{
  Observed, Event, create, Error, present, different_evidence, event_dict, not_an_object,
}
use oathcast.Prelude.Moment.{Moment}
use oathcast.Demand.Ledger.{
  Table, Row, of_demand, accept_replay, row_of, is_replay, append_at, append, record_demand,
}
use oathcast.Prelude.{
  ◌≡◌, Option, some, ◌⊎◌, Bool-cases, inl, inr, none, not, ◌==◌, Option-cases, eq_refl, refl, ap,
  ◌∙◌, sym, Bool, true, false,
}
use oathcast.Prelude.Exec.{
  ok, Yields, raise_if, Yields-raise_if, Result, commit_or_rollback, Yields-map, ◌>>◌, pure, err,
  raise, Yields-continue,
}
use oathcast.Prelude.Keyed.{find, find-insert_or_ignore_new}
use oathcast.Json.Dumps.{dumps}

-- The event of the observation stands in the ledger, under its id: as the row that was added for it, or
-- as the row that was there.
abbrev pub Recorded : Host → Observed → Moment → Table → Table → Event → Type 0
Recorded h o now t t' e =
    (create h o now ≡ ok e)
    × ((r : Row) × (find (of_demand e.demand_id) t' ≡ some r)
        × ((r ≡ row_of h e) ⊎ (find (of_demand e.demand_id) t ≡ some r)))

abbrev Stored : Host → Event → Table → Event → Table → Type 0
Stored h e t e' t' =
    (e' ≡ e)
    × ((r : Row) × (find (of_demand e.demand_id) t' ≡ some r)
        × ((r ≡ row_of h e) ⊎ (find (of_demand e.demand_id) t ≡ some r)))

module _ (h : Host) (e : Event) (t : Table) where
  Kept : Event → Table → Type 0
  Kept e' t' = (e' ≡ e) × (t' ≡ t)

  refused :
      Yields Kept (
        (raise_if (not (present e.payment_attempt_id)) different_evidence >> raise not_an_object) t)
  refused = Yields-raise_if Kept _ _ t (raise not_an_object) (λ _. tt)

  accept_replay-Kept : (o : Option Value) → Yields Kept (accept_replay h e o t)
  unfolding Kept
  accept_replay-Kept none = tt
  accept_replay-Kept (some (object stored)) =
      Yields-raise_if Kept (not (is_replay h e stored)) different_evidence t (pure e)
        (λ _. (refl, refl))
  accept_replay-Kept (some null) = refused
  accept_replay-Kept (some (boolean b)) = refused
  accept_replay-Kept (some (number n)) = refused
  accept_replay-Kept (some (real r)) = refused
  accept_replay-Kept (some (text s)) = refused
  accept_replay-Kept (some (array vs)) = refused

  append_at-Kept : (r : Row) → Yields Kept (append_at h e (some r) t)
  unfolding Kept
  append_at-Kept r = elim (Bool-cases (r.event_json == dumps h (object (event_dict e)))) [
    | inl same ↦ rw same (refl, refl)
    | inr differs ↦ rw differs (accept_replay-Kept (h.json_loads r.event_json))
  ]

  committed-Yields :
      (P : Event → Table → Type 0) (p : Result Error Event × Table)
      → Yields P p
      → Yields P (commit_or_rollback t p)
  committed-Yields P (ok a, s) y = y
  committed-Yields P (err x, s) y = tt

  append-Stored : Yields (Stored h e t) (append h e t)
  unfolding append row_of Kept
  append-Stored = elim (Option-cases (find (of_demand e.demand_id) t)) [
    | inl absent ↦ rw absent (
      refl,
      (
        row_of h e,
        find-insert_or_ignore_new (of_demand e.demand_id) (row_of h e) t absent
            (eq_refl e.demand_id),
        inl refl,
      ),
    )
    | inr (r, found) ↦ rw found (
        committed-Yields (Stored h e t) (append_at h e (some r) t) (
          Yields-map Kept (Stored h e t) (append_at h e (some r) t)
            (λ e' t' k. (k.0, (r, rw k.1 found, inr found))) (append_at-Kept r)))
  ]

-- When `record` returns an event, the event is the one that the observation makes, and its row stands in
-- the ledger.
pub record_demand-Recorded :
    (h : Host) (o : Observed) (now : Moment) (t : Table)
    → Yields (λ e t'. Recorded h o now t t' e) (record_demand h o now t)
unfolding record_demand
record_demand-Recorded h o now t =
    Yields-continue (λ e t'. Recorded h o now t t' e) (create h o now, t) (append h)
      (λ e p.
        Yields-map (Stored h e t) (λ e' t'. Recorded h o now t t' e') (append h e t)
          (λ e' t' k. (ap (λ x. x.0) p ∙ ap ok (sym k.0), rw k.0 k.1)) (append-Stored h e t))

-- The same, for a client that may have no ledger and then leaves it alone.
abbrev pub InLedger : Bool → Host → Observed → Moment → Table → Table → Type 0
InLedger true h o now t t' = (e : Event) × Recorded h o now t t' e
InLedger false h o now t t' = t' ≡ t
