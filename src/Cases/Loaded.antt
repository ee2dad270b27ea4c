-- ===== src/Cases/Loaded.antt =====
-- What `get` of src/oathcast/cases.py reads of a case that holds a decision.
use oathcast.Prelude.Exec.{ok, Sure, Sure-ok, Result-cases}
use oathcast.Prelude.Checked.{Sure-bind}
use oathcast.Cases.Store.{CaseRow, Store, ReplyRow, DecisionRow, ObservationRow, ResolutionRow}
use oathcast.Cases.Read.{CaseView, Loaded, case_json, load, load_all, view}
use oathcast.Json.{Host, Value}
use oathcast.Prelude.{String, ◌≡◌, Option, List, ◌∷◌, some, Option-cases, refl, inl, inr}

module _ (h : Host) (row : CaseRow) (json : String) (v : Value) where
  -- The second of the JSON columns is the decision.
  abbrev pub Shows : Loaded CaseRow → Type 0
  Shows l = (l.row ≡ row) × ((q : Value) × (vs : List Value) × (l.values ≡ q ∷ v ∷ vs))

  abbrev pub ShowsCase : Option CaseView → Type 0
  ShowsCase o = (c : CaseView) × (o ≡ some c) × Shows c.case_row

  Values : List Value → Type 0
  Values values = (q : Value) × (vs : List Value) × (values ≡ q ∷ v ∷ vs)

  load_all-Values :
      (first : String) (rest : List String)
      → h.json_loads json ≡ some v
      → Sure Values (load_all h (first ∷ json ∷ rest))
  unfolding load_all Values
  load_all-Values first rest loads = elim (Option-cases (h.json_loads first)) [
    | inl e ↦ rw e tt
    | inr (q, e) ↦ elim (Result-cases (load_all h rest)) [
      | inl (vs, r) ↦ rw (e, loads, r) (q, vs, refl)
      | inr (x, r) ↦ rw (e, loads, r) tt
    ]
  ]

  load-Shows :
      row.decision_json ≡ some json → h.json_loads json ≡ some v → Sure Shows (load h case_json row)
  unfolding load Values
  load-Shows set loads =
      Sure-bind Shows (load_all h (case_json row))
        (λ values. ok (record { row = row; values = values }))
        (λ values made.
          let read : Values values =
            Sure-ok Values (load_all h (case_json row)) values made
              (rw set (load_all-Values row.question_json _ loads)) in
          (refl, read))

  pub view-ShowsCase :
      (id : String) (s : Store)
      → row.decision_json ≡ some json
      → h.json_loads json ≡ some v
      → Sure ShowsCase (view h id s (some row))
  unfolding view
  view-ShowsCase id s set loads = search (Sure-bind ShowsCase, shown) depth 14
    where
      shown :
          (l : Loaded CaseRow) (a : List (Loaded ReplyRow)) (b : List (Loaded DecisionRow))
          (c : List (Loaded ObservationRow)) (d : List (Loaded ResolutionRow))
          → load h case_json row ≡ ok l
          → ShowsCase (
              some (record {
                case_row = l;
                miner_replies = a;
                decisions = b;
                observations = c;
                resolutions = d;
              }))
      shown l a b c d e = (_, refl, Sure-ok Shows (load h case_json row) l e (load-Shows set loads))
