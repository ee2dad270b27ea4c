-- ===== src/Cases/History.antt =====
-- Any sequence of calls of the case store of src/oathcast/cases.py, of which some may raise.
use oathcast.Prelude.{String, Option, List, [], ◌∷◌}
use oathcast.Prelude.Moment.{Moment}
use oathcast.Json.{Host, Value, Fields}
use oathcast.Forecast.{Question}
use oathcast.GroundTruth.{Observation}
use oathcast.Cases.Store.{Driver, Store}
use oathcast.Cases.Create.{create, bind_application_request}
use oathcast.Cases.Replies.{record_reply}
use oathcast.Cases.Seal.{seal_decision}
use oathcast.Cases.Resolve.{record_observation, resolve}
use oathcast.Cases.Later.{Later, Later-refl, Later-trans, IsOrdered}
use oathcast.Cases.Keeps.{Grows}
use oathcast.Cases.Lifecycle.{
  create-Keeps, bind-Keeps, record_reply-Keeps, seal_decision-Keeps, record_observation-Keeps,
  resolve-Keeps,
}

pub data Call : Type 0 where
  create_call : Question → Option Moment → Moment → Call
  bind_call : String → String → String → String → Option Moment → Moment → Call
  reply_call : String → Value → Call
  seal_call : String → Fields → Option Moment → Moment → Moment → Call
  observation_call : String → Observation → Call
  resolve_call : String → Fields → Option Observation → String → Call

-- The store that a call leaves, whether it returns or raises.
unfoldable pub perform : Host → Driver → Call → Store → Store
perform h d (create_call q at now) s = (create h q at now s).1
perform h d (bind_call principal key request event at now) s =
    (bind_application_request principal key request event at now s).1
perform h d (reply_call event reply) s = (record_reply h d event reply s).1
perform h d (seal_call event payload at now later) s =
    (seal_decision h d event payload at now later s).1
perform h d (observation_call event o) s = (record_observation h event o s).1
perform h d (resolve_call event payload o version) s = (resolve h d event payload o version s).1

unfoldable pub replay : Host → Driver → List Call → Store → Store
replay h d [] s = s
replay h d (c ∷ cs) s = replay h d cs (perform h d c s)

abbrev pub Always : Store → Type 0
Always s = Unit

pub always : (s s' : Store) → Always s → Later s s' → Always s'
always s s' a l = tt

module _ (h : Host) (d : Driver) where
  pub perform-Grows : (c : Call) (s : Store) → IsOrdered s → Grows s (perform h d c s)
  unfolding perform
  perform-Grows (create_call q at now) s o = (create-Keeps Always always h q at now).at s o tt
  perform-Grows (bind_call principal key request event at now) s o =
      (bind-Keeps Always always principal key request event at now).at s o tt
  perform-Grows (reply_call event reply) s o =
      (record_reply-Keeps Always always h d event reply).at s o tt
  perform-Grows (seal_call event payload at now later) s o =
      (seal_decision-Keeps Always always h d event payload at now later).at s o tt
  perform-Grows (observation_call event ob) s o =
      (record_observation-Keeps Always always h event ob).at s o tt
  perform-Grows (resolve_call event payload ob version) s o =
      (resolve-Keeps Always always h d event payload ob version).at s o tt

  -- From a store in which every case with a ground truth has a decision, any sequence of calls, of
  -- which some may raise, keeps that so; every case stays, with its question, and with the decision
  -- and the first ground truth that it has; and bindings, replies, decisions, observations and
  -- resolutions are only added.
  pub replay-Grows :
      (cs : List Call) (s : Store)
      → IsOrdered s
      → Later s (replay h d cs s) × IsOrdered (replay h d cs s)
  unfolding replay
  replay-Grows [] s o = (Later-refl s, o)
  replay-Grows (c ∷ cs) s o =
      let (l, o') = perform-Grows c s o in
      let (l', o'') = replay-Grows cs (perform h d c s) o' in
      (Later-trans s (perform h d c s) (replay h d cs (perform h d c s)) l l', o'')
