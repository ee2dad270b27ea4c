-- ===== src/Cases/Read.antt =====
-- `get` of src/oathcast/cases.py: the row of a case with its JSON columns read, and the rows of the
-- event's replies, decisions, observations and resolutions in the order of their times.
use Prim.Native.Nat.{Ordering}
use Prim.Native.String.{compare}
use oathcast.Prelude.{
  String, ◌==◌, Bool, true, false, Option, none, some, List, [], ◌∷◌, if◌then◌else◌, ◌&&◌, not,
  ◌||◌,
}
use oathcast.Prelude.Exec.{Result, ok, err}
use oathcast.Prelude.Checked.{◌>>=◌}
use oathcast.Json.{Host, Value}
use oathcast.Cases.Store.{
  Error, unreadable_row, CaseRow, ReplyRow, DecisionRow, ObservationRow, ResolutionRow, Store,
  Cases, of_event,
}
use oathcast.Prelude.Keyed.{find}

-- A row with the values of its JSON columns.
pub record Loaded (R : Type 0) : Type 0 where
  pub row : R
  pub values : List Value

pub record CaseView : Type 0 where
  pub case_row : Loaded CaseRow
  pub miner_replies : List (Loaded ReplyRow)
  pub decisions : List (Loaded DecisionRow)
  pub observations : List (Loaded ObservationRow)
  pub resolutions : List (Loaded ResolutionRow)

-- `json.loads` of some texts
abbrev readable : Option Value → Result Error Value
readable none = err unreadable_row
readable (some v) = ok v

unfoldable pub load_all : Host → List String → Result Error (List Value)
load_all h [] = ok []
load_all h (s ∷ ss) = do v ← readable (h.json_loads s); vs ← load_all h ss; ok (v ∷ vs)

-- A text column before another; NULL is before all texts.
before : Option String → Option String → Bool
before none none = false
before none (some t) = true
before (some s) none = false
before (some s) (some t) = elim (compare s t) [ Ordering.lt ↦ true | _ ↦ false ]

module _ {R : Type 0} where
  unfoldable pub load : Host → (R → List String) → R → Result Error (Loaded R)
  unfolding load_all
  load h json r = do vs ← load_all h (json r); ok (record { row = r; values = vs })

  load_rows : Host → (R → List String) → List R → Result Error (List (Loaded R))
  unfolding load
  load_rows h json [] = ok []
  load_rows h json (r ∷ rs) = do l ← load h json r; ls ← load_rows h json rs; ok (l ∷ ls)

  -- ORDER BY a time and an id
  sorts_before : (R → Option String) → (R → String) → R → R → Bool
  unfolding before
  sorts_before at id r s =
      before (at r) (at s) || (not (before (at s) (at r)) && before (some (id r)) (some (id s)))

  insert_sorted : (R → R → Bool) → R → List R → List R
  insert_sorted lt r [] = r ∷ []
  insert_sorted lt r (s ∷ rs) =
      let rest = insert_sorted lt r rs in if lt r s then r ∷ s ∷ rs else s ∷ rest

  sort : (R → R → Bool) → List R → List R
  unfolding insert_sorted
  sort lt [] = []
  sort lt (r ∷ rs) = insert_sorted lt r (sort lt rs)

  where_event : (R → String) → String → List R → List R
  where_event event id [] = []
  where_event event id (r ∷ rs) =
      let rest = where_event event id rs in if event r == id then r ∷ rest else rest

  -- SELECT * … WHERE event_id = ? ORDER BY …, with the JSON columns read
  children :
      Host
      → (R → List String)
      → (R → Option String)
      → (R → String)
      → (R → String)
      → String
      → List R
      → Result Error (List (Loaded R))
  unfolding load_rows sort sorts_before where_event
  children h json at key event id rs =
      load_rows h json (sort (sorts_before at key) (where_event event id rs))

abbrev optional : Option String → List String → List String
optional none ss = ss
optional (some s) ss = s ∷ ss

abbrev pub case_json : CaseRow → List String
case_json r = r.question_json ∷ optional r.decision_json (optional r.ground_truth_json [])

abbrev reply_json : ReplyRow → List String
reply_json r = r.raw_response_json ∷ optional r.protocol_receipt_json []

abbrev decision_json : DecisionRow → List String
decision_json r = r.decision_json ∷ r.reply_ids_json ∷ r.policy_json ∷ []

-- `_record` and `_children`
unfoldable pub view : Host → String → Store → Option CaseRow → Result Error (Option CaseView)
unfolding children load
view h id s none = ok none
view h id s (some r) = do
  case_row ← load h case_json r
  replies ←
      children h reply_json (λ x. x.received_at) (λ x. x.reply_id) (λ x. x.event_id) id s.replies
  decisions ←
      children h decision_json (λ x. some x.decided_at) (λ x. x.decision_id) (λ x. x.event_id) id
        s.decisions
  observations ←
      children h (λ x. x.observation_json ∷ []) (λ x. some x.observed_at) (λ x. x.observation_id)
        (λ x. x.event_id) id s.observations
  resolutions ←
      children h (λ x. x.resolution_json ∷ []) (λ x. some x.resolved_at) (λ x. x.resolution_id)
        (λ x. x.event_id) id s.resolutions
  ok (
      some (record {
        case_row = case_row;
        miner_replies = replies;
        decisions = decisions;
        observations = observations;
        resolutions = resolutions;
      }))

-- `get`
unfoldable pub get_case : Host → String → Cases (Option CaseView)
unfolding view
get_case h id s = (view h id s (find (of_event id) s.cases), s)
