-- ===== src/Cases/Resolve.antt =====
-- `record_observation` and `resolve` of src/oathcast/cases.py.
use oathcast.Prelude.{
  String, ◌==◌, Bool, true, false, not, ◌&&◌, Option, none, some, [], ◌∷◌, is_some,
}
use oathcast.Prelude.Keyed.{find, insert_or_ignore, update}
use oathcast.Prelude.Exec.{pure, raise, gets, modify, raise_if, transaction, ◌>>=◌, ◌>>◌, lift}
use oathcast.Clock.{iso_utc}
use oathcast.Json.{Host, Value, Fields, object, text, null, get_or, of_pairs}
use oathcast.Json.Dumps.{dumps, sha256_json}
use oathcast.GroundTruth.{Observation, observation_dict, precipitation_micrometres}
use oathcast.Cases.Store.{
  observation_event_mismatch, different_evidence, truth_event_mismatch, observation_id_mismatch,
  no_case, not_sealed, observation_not_retained, Driver, CaseRow, ObservationRow, ResolutionRow,
  Store, Cases, of_event, required, text_param,
}
use oathcast.Cases.Read.{CaseView, get_case}
use oathcast.Cases.Replies.{require_case}
use oathcast.Cases.Seal.{names_event}

unfoldable pub observation_row : Host → String → Observation → ObservationRow
observation_row h event_id o = record {
  observation_id = o.observation_id;
  event_id = event_id;
  observation_json = dumps h (object (observation_dict o));
  observation_sha256 = sha256_json h (object (observation_dict o));
  source = o.source;
  window_start = iso_utc o.window_start;
  window_end = iso_utc o.window_end;
  precipitation_micrometres = precipitation_micrometres o;
  observed_at = iso_utc o.observed_at;
}

abbrev pub of_observation : String → ObservationRow → Bool
of_observation id r = r.observation_id == id

abbrev pub add_observation : ObservationRow → Store → Store
add_observation r s = record s {
  observations = insert_or_ignore (of_observation r.observation_id) r s.observations;
}

abbrev differs : ObservationRow → Option ObservationRow → Bool
differs new none = false
differs new (some r) = not (r.observation_json == new.observation_json)

-- `_insert_observation_in_transaction`
unfoldable pub insert_observation : Host → String → Observation → Cases (Unit {0})
unfolding observation_row
insert_observation h event_id o = do
  raise_if (not (o.event_id == event_id)) observation_event_mismatch
  existing ← gets (λ s. find (of_observation o.observation_id) s.observations)
  raise_if (differs (observation_row h event_id o) existing) different_evidence
  modify (add_observation (observation_row h event_id o))

-- The transaction of `record_observation`.
unfoldable pub observe_row : Host → String → Observation → Cases (Unit {0})
unfolding insert_observation
observe_row h event_id o = transaction (do require_case event_id; insert_observation h event_id o)

-- `record_observation`
unfoldable pub record_observation : Host → String → Observation → Cases (Option CaseView)
unfolding observe_row
record_observation h event_id o = do observe_row h event_id o; get_case h event_id

-- WHERE event_id = ? AND ground_truth_json IS NULL
abbrev pub unresolved : String → CaseRow → Bool
unresolved id r = of_event id r && not (is_some r.ground_truth_json)

abbrev pub resolved_row : String → Option String → CaseRow → CaseRow
resolved_row truth_json at r = record r { ground_truth_json = some truth_json; resolved_at = at }

abbrev pub resolve_case : String → String → Option String → Store → Store
resolve_case event_id truth_json at s = record s {
  cases = update (unresolved event_id) (resolved_row truth_json at) s.cases;
}

abbrev of_resolution : String → ResolutionRow → Bool
of_resolution id r = r.resolution_id == id

abbrev resolution_row : Host → String → Fields → String → Option String → String → ResolutionRow
resolution_row h event_id payload version observation_id at = record {
  resolution_id = sha256_json h (
      object (
        of_pairs (
          ("event_id", text event_id)
          ∷ ("resolution", object payload)
          ∷ ("observation_id", get_or "observation_id" null payload)
          ∷ ("resolver_version", text version)
          ∷ [])));
  event_id = event_id;
  resolution_json = dumps h (object payload);
  resolution_sha256 = sha256_json h (object payload);
  observation_id = observation_id;
  resolver_version = version;
  resolved_at = at;
}

-- INSERT OR IGNORE INTO resolutions, whose `resolved_at` is NOT NULL: the row is then left out.
abbrev pub add_resolution :
    Host → String → Fields → String → Option String → Option String → Store → Store
add_resolution h event_id payload version observation_id none s = s
add_resolution h event_id payload version observation_id (some at) s =
    let r = resolution_row h event_id payload version observation_id at in
    record s { resolutions = insert_or_ignore (of_resolution r.resolution_id) r s.resolutions }

abbrev is_resolved : Value → Bool
is_resolved (text s) = s == "resolved"
is_resolved _ = false

abbrev names_text : String → Value → Bool
names_text id (text s) = s == id
names_text id _ = false

abbrev pub retain : Host → String → Fields → Option Observation → Cases (Unit {0})
retain h event_id payload none =
    raise_if (is_resolved (get_or "status" null payload)) observation_not_retained
retain h event_id payload (some o) = do
  raise_if (not (names_text o.observation_id (get_or "observation_id" null payload)))
      observation_id_mismatch
  insert_observation h event_id o

-- The first resolution stays on the case.
abbrev pub keep_first : String → String → Option String → Bool → Cases (Unit {0})
keep_first event_id truth_json at true = pure tt
keep_first event_id truth_json at false = modify (resolve_case event_id truth_json at)

-- The part of `resolve` for a sealed case whose ground truth was as given.
unfoldable pub resolve_sealed :
    Host → Driver → String → Fields → Option Observation → String → CaseRow → Cases (Unit {0})
unfolding insert_observation
resolve_sealed h d event_id payload observation version row = do
  retain h event_id payload observation
  at_value ← lift (required "resolved_at" payload)
  at ← lift (text_param d at_value)
  keep_first event_id (dumps h (object payload)) at (is_some row.ground_truth_json)
  id ← lift (text_param d (get_or "observation_id" null payload))
  modify (add_resolution h event_id payload version id at)

abbrev pub resolve_found :
    Host
    → Driver
    → String
    → Fields
    → Option Observation
    → String
    → Option CaseRow
    → Cases (Unit {0})
resolve_found h d event_id payload observation version none = raise no_case
resolve_found h d event_id payload observation version (some row) = do
  raise_if (not (is_some row.decision_json)) not_sealed
  resolve_sealed h d event_id payload observation version row

-- The transaction of `resolve`.
unfoldable pub resolve_row :
    Host → Driver → String → Fields → Option Observation → String → Cases (Unit {0})
unfolding resolve_sealed
resolve_row h d event_id payload observation version = transaction (do
  row ← gets (λ s. find (of_event event_id) s.cases)
  resolve_found h d event_id payload observation version row)

-- `resolve`
unfoldable pub resolve :
    Host → Driver → String → Fields → Option Observation → String → Cases (Option CaseView)
unfolding resolve_row
resolve h d event_id payload observation version = do
  raise_if (not (names_event event_id (get_or "event_id" null payload))) truth_event_mismatch
  resolve_row h d event_id payload observation version
  get_case h event_id
