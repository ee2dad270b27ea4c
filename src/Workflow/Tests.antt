-- ===== src/Workflow/Tests.antt =====
-- A decision through the workflow, and again, and the theorems applied there.
use oathcast.Prelude.Int.{pos}
use oathcast.Prelude.Exec.{ok, err, Yields, Result}
use oathcast.Json.{null, text, of_pairs}
use oathcast.Cases.Store.{Driver}
use oathcast.Cases.Sealed.{Holds}
use oathcast.Router.Sample.{question, capability, router}
use oathcast.Router.Decide.{decide as route, replies_of, weighted, capability_of}
use oathcast.Clock.{format_timestamp}
use oathcast.Cases.Create.{new_case}
use oathcast.Json.Dumps.{dumps, sha256_json}
use oathcast.Forecast.{question_dict}
use oathcast.Router.Decide.{decision_dict}
use oathcast.Cases.Replies.{probability_x10000, insert_reply}
use oathcast.Router.Reply.{reply_dict}
use oathcast.Json.Numbers.{to_float, truthy}
use oathcast.Cases.Store.{reply_id_of, protocol_projection_fields}
use oathcast.Workflow.Steps.{Workflow, Work, decide, WorkflowError, open_case, seal}
use oathcast.Workflow.Frozen.{IsFrozen, decide-IsFrozen}
use oathcast.Workflow.Closed.{Refused, decide-Refused}
use oathcast.Prelude.{ℕ, some, false, none, ◌∷◌, [], refl, ◌+◌, true, Option, ◌≡◌}
use oathcast.Router.Decide.{Decision}
use oathcast.Payment.Client.Pay.{conclude}
use oathcast.Router.Reply.{reply, attempt, handled, answered_reply, project_reply, valid}
use oathcast.Router.Adapter.{generic_response}
use oathcast.Probability.Extract.{
  extract_probability, extract, by_keys, normalize_probability_value, content,
}
use oathcast.Json.Numbers.{round_div}
use oathcast.Cases.Create.{create, create_row, create_at}
use oathcast.Cases.Read.{get_case, view, load, load_all}
use oathcast.Cases.Seal.{
  seal_decision, seal_row, seal_new, seal_evidence, mark_sealed, project_replies,
}

abbrev driver : Driver
driver = record {
  text_column = λ v. elim v [ text s ↦ some (some s) | null ↦ some none | _ ↦ none ];
  real_column = λ v. some v;
}

abbrev workflow : Workflow ℕ
workflow = record {
  router = router (capability "own" ∷ capability "other" ∷ []);
  driver = driver;
  observe = λ q n. (ok none, n);
  clock = λ n. record { micros = 36000000000 + n; aware = true };
}

abbrev fresh : Work ℕ
fresh = record {
  store = record {
    cases = [];
    bindings = [];
    replies = [];
    decisions = [];
    observations = [];
    resolutions = [];
  };
  outside = 0;
}

-- The case of the question, with a decision.
abbrev decided : Work ℕ
decided = record {
  store = record fresh.store {
    cases =
        record {
          event_id = "rain";
          question_json = "{}";
          question_sha256 = "";
          contract_version = "forecast_contract_v1";
          created_at = "";
          decision_json = some "{}";
          decision_sealed_at = some "";
          frozen_at = some "";
          ground_truth_json = none;
          resolved_at = none;
        }
        ∷ [];
  };
  outside = 7;
}

held : Holds "rain" "{}" decided.store
held = record { row = _; present = refl; decision = refl }

decide-IsFrozen_example :
    Yields
      (IsFrozen workflow question)
      (decide workflow question false (some "r1") (pos 500000) "u" fresh)
decide-IsFrozen_example = decide-IsFrozen workflow question false (some "r1") (pos 500000) "u" fresh

decide-Refused_example :
    Refused workflow question decided
      (decide workflow question false (some "r1") (pos 500000) "u" decided)
decide-Refused_example =
    decide-Refused workflow question false (some "r1") (pos 500000) "u" decided "{}" (of_pairs [])
      held refl

-- The aggregate, and the calls that were made.
abbrev outcome : Result WorkflowError Decision × Work ℕ → Option (ℕ × ℕ)
outcome (ok d, w) = some (d.aggregate_x10000, w.outside)
outcome (err e, w) = none

-- The whole path from an empty store: two calls of Miners, and a decision.
ran : outcome (decide workflow question false (some "r1") (pos 500000) "u" fresh) ≡ some (6000, 2)
unfolding decide route open_case seal replies_of conclude weighted capability_of reply attempt
    handled answered_reply project_reply valid generic_response extract_probability extract by_keys
    normalize_probability_value content round_div create create_row create_at get_case view load
    load_all seal_decision seal_row seal_new seal_evidence mark_sealed project_replies
    format_timestamp new_case dumps question_dict decision_dict probability_x10000 reply_dict
    to_float insert_reply truthy reply_id_of sha256_json protocol_projection_fields
ran = refl
