-- ===== src/Demand/Ledger.antt =====
-- `DemandLedger` of src/oathcast/demand.py. A row keeps its columns as the event that they are of.
use oathcast.Prelude.{
  ℕ, String, ◌==◌, Bool, true, false, not, ◌&&◌, Option, none, some, List, [], ◌∷◌, eqb,
  if◌then◌else◌, length, ◌+◌,
}
use oathcast.Prelude.Int.{ℤ, pos, negsuc}
use oathcast.Prelude.Keyed.{find, insert_or_ignore}
use oathcast.Prelude.Moment.{Moment}
use oathcast.Prelude.Exec.{
  Result, ok, err, Exec, pure, raise, gets, modify, raise_if, transaction, ◌>>=◌, ◌>>◌, lift,
}
use oathcast.Json.{Host, Value, Fields, null, text, object, get_or}
use oathcast.Json.Numbers.{to_float}
use oathcast.Json.Dumps.{dumps, sha256_json}
use oathcast.Demand.Event.{
  Error, malformed_evidence, not_an_object, different_evidence, Observed, Event, create,
  stable_fields, event_dict, present, hash_mismatch,
}

pub record Row : Type 0 where
  pub event : Event
  pub event_json : String
  pub event_sha256 : String

abbrev pub Table : Type 0
Table = List Row

abbrev pub of_demand : String → Row → Bool
of_demand id r = r.event.demand_id == id

-- A number or a truth value, in millionths.
abbrev numeric : Host → Value → Option ℤ
numeric h (text s) = none
numeric h v = to_float h v

abbrev int_eq : ℤ → ℤ → Bool
int_eq (pos a) (pos b) = eqb a b
int_eq (negsuc a) (negsuc b) = eqb a b
int_eq (pos a) (negsuc b) = false
int_eq (negsuc a) (pos b) = false

abbrev opt_int_eq : Option ℤ → Option ℤ → Bool
opt_int_eq (some a) (some b) = int_eq a b
opt_int_eq (some a) none = false
opt_int_eq none b = false

-- `==` of a stored value with one of an event, which is no float, list or dict.
unfoldable pub same_value : Host → Value → Value → Bool
same_value h null null = true
same_value h (text s) (text t) = s == t
same_value h stored new = opt_int_eq (numeric h stored) (numeric h new)

unfoldable pub all_same : Host → Fields → List (String × Value) → Bool
unfolding same_value
all_same h stored [] = true
all_same h stored ((k, v) ∷ r) = same_value h (get_or k null stored) v && all_same h stored r

-- A replay may have a new time, but a payment attempt has one demand.
unfoldable pub is_replay : Host → Event → Fields → Bool
unfolding all_same
is_replay h e stored = present e.payment_attempt_id && all_same h stored (stable_fields e)

unfoldable pub row_of : Host → Event → Row
row_of h e = record {
  event = e;
  event_json = dumps h (object (event_dict e));
  event_sha256 = sha256_json h (object (event_dict e));
}

-- The stored event of the same id, read.
abbrev pub accept_replay : Host → Event → Option Value → Exec Table Error Event
accept_replay h e none = raise malformed_evidence
accept_replay h e (some (object stored)) = do
  raise_if (not (is_replay h e stored)) different_evidence
  pure e
accept_replay h e (some v) = do
  raise_if (not (present e.payment_attempt_id)) different_evidence
  raise not_an_object

abbrev pub append_at : Host → Event → Option Row → Exec Table Error Event
append_at h e none = do modify (insert_or_ignore (of_demand e.demand_id) (row_of h e)); pure e
append_at h e (some r) =
    if r.event_json == dumps h (object (event_dict e))
    then pure e
    else accept_replay h e (h.json_loads r.event_json)

-- `append`
unfoldable pub append : Host → Event → Exec Table Error Event
append h e = transaction (do existing ← gets (find (of_demand e.demand_id)); append_at h e existing)

-- `record`
unfoldable pub record_demand : Host → Observed → Moment → Exec Table Error Event
unfolding append
record_demand h o now = do e ← lift (create h o now); append h e

abbrev pub one_if_candidate : Row → ℕ
one_if_candidate r = if r.event.local_candidate then 1 else 0

-- SELECT COUNT(*) … WHERE local_candidate = 1
unfoldable pub candidate_count : Table → ℕ
candidate_count [] = 0
candidate_count (r ∷ rs) = one_if_candidate r + candidate_count rs

pub record Summary : Type 0 where
  pub total_events : ℕ
  pub local_candidate_events : ℕ

-- `summary`
unfoldable pub summary : Exec Table Error Summary
unfolding candidate_count
summary = do
  total ← gets length
  candidates ← gets candidate_count
  pure (record { total_events = total; local_candidate_events = candidates })

-- The loop of `integrity_check` over the rows, after SQLite's own check.
unfoldable pub verify_rows : Host → Table → Result Error (Unit {0})
verify_rows h [] = ok tt
verify_rows h (r ∷ rs) =
    let rest = verify_rows h rs in
    if not (h.sha256 r.event_json == r.event_sha256) then err hash_mismatch else rest
