-- ===== src/Receipts/Tests.antt =====
-- A receipt store with room for two receipts: its methods run, and the theorems applied there.
use Prim.Native.String.{◌++◌ as ◌<>◌}
use oathcast.Prelude.{String, none, some, [], ◌∷◌, ◌≡◌, refl, ◌*◌, length, false, arith, ◌⊎◌, inl}
use oathcast.Prelude.Int.{pos}
use oathcast.Prelude.Exec.{ok, err}
use oathcast.Json.{Host, Fields, object, text, field, end, of_pairs}
use oathcast.Json.TestHost.{test_host}
use oathcast.Receipts.Store.{
  Error, Row, Caps, Candidate, select, save, check_receipt, get_receipt, stored_receipt, rows_full,
  save_candidate, assert_capacity, add_new,
}
use oathcast.Receipts.Capacity.{Report, capacity}
use oathcast.Receipts.Chain.{Anchor, chain_head, chain_rows, chain_start, chain_step, link}
use oathcast.Receipts.History.{IsKeyed, IsSound, save_all, save_all-IsSound}
use oathcast.Receipts.Evidence.{save-again}
use oathcast.Receipts.Full.{capacity-refuses}
use oathcast.Receipts.Prefix.{chain_head-prefix}
use oathcast.Receipts.Audit.{chain_head-clean}
use oathcast.Receipts.Tamper.{Collision, SameEvidence, chain_head-commits}
use oathcast.Json.Dumps.{dumps}
use oathcast.Receipts.Book.{Run, answers_of, book, save_all-Run}
use oathcast.Receipts.Roundtrip.{get_receipt-roundtrip}

abbrev receipt : String → Fields
receipt id =
    of_pairs
      (("question", object (field "event_id" (text id) end)) ∷ ("created_at", text "noon") ∷ [])

-- Digests of 64 characters, and a store that holds one receipt's text.
abbrev host : Host
host = record test_host {
  sha256 = λ s. "0123456789abcdef0123456789abcdef0123456789abcdef0123456789abcdef";
  json_loads = λ s. some (object (receipt "e1"));
}

abbrev caps : Caps
caps = record { max_rows = some 1; max_bytes = some 1000; used_bytes = λ t. 100 * length t }

abbrev row : String → Row
row id = record {
  event_id = id;
  question_json = "{\"event_id\":\"" <> id <> "\"}";
  receipt_json = "{\"created_at\":\"noon\",\"question\":{\"event_id\":\"" <> id <> "\"}}";
  created_at = "noon";
}

abbrev candidate : String → Candidate
candidate id = record { row = row id; bytes = 73 }

check_first : check_receipt host (receipt "e1") ≡ ok (candidate "e1")
unfolding check_receipt dumps
check_first = refl

check_second : check_receipt host (receipt "e2") ≡ ok (candidate "e2")
unfolding check_receipt dumps
check_second = refl

-- The first receipt is stored; the second finds the store full; the first is replayed.
first_save : save host caps (receipt "e1") [] ≡ (ok (receipt "e1"), row "e1" ∷ [])
unfolding save save_candidate add_new assert_capacity check_receipt dumps select stored_receipt
first_save = refl

second_save : save host caps (receipt "e2") (row "e1" ∷ []) ≡ (err rows_full, row "e1" ∷ [])
unfolding save save_candidate add_new assert_capacity check_receipt dumps select stored_receipt
second_save = refl

empty-IsSound : IsSound caps []
unfolding IsKeyed
empty-IsSound = record { keyed = tt; rows = omega arith; bytes = omega arith }

save_all-IsSound_example : IsSound caps (save_all host caps (receipt "e1" ∷ receipt "e2" ∷ []) [])
save_all-IsSound_example =
    save_all-IsSound host caps (receipt "e1" ∷ receipt "e2" ∷ []) [] empty-IsSound

save-again_example :
    save host caps (receipt "e1") (save_all host caps (receipt "e2" ∷ []) (row "e1" ∷ []))
    ≡ (ok (receipt "e1"), save_all host caps (receipt "e2" ∷ []) (row "e1" ∷ []))
save-again_example =
    save-again host caps caps caps (receipt "e1") (receipt "e1") (receipt "e2" ∷ []) []
      (row "e1" ∷ []) first_save

nothing : select "e1" [] ≡ none
unfolding select
nothing = refl

get_receipt-roundtrip_example :
    (receipt "e1" ≡ receipt "e1")
    × ((get_receipt host "e1" (save_all host caps (receipt "e2" ∷ []) (row "e1" ∷ []))).0
        ≡ ok (some (receipt "e1")))
get_receipt-roundtrip_example =
    get_receipt-roundtrip host caps caps (receipt "e1") (field "event_id" (text "e1") end)
      (receipt "e1") (receipt "e1") "e1" (receipt "e2" ∷ []) [] (row "e1" ∷ []) refl refl refl
      (inl refl) nothing first_save

abbrev report : Report
report = record {
  rows = 1;
  max_rows = some 1;
  used_bytes = 100;
  max_bytes = some 1000;
  accepting_new_receipts = false;
  rows_remaining = some 0;
  bytes_remaining = some 900;
}

capacity_now : (capacity caps (row "e1" ∷ [])).0 ≡ ok report
unfolding capacity
capacity_now = refl

absent : select "e2" (row "e1" ∷ []) ≡ none
unfolding select
absent = refl

capacity-refuses_example :
    (e : Error) × (save host caps (receipt "e2") (row "e1" ∷ []) ≡ (err e, row "e1" ∷ []))
capacity-refuses_example =
    capacity-refuses host caps (receipt "e2") (candidate "e2") (row "e1" ∷ []) report capacity_now
      refl check_second absent

chain_head-prefix_example :
    (chain_head host (some (pos 1)) (save_all host caps (receipt "e2" ∷ []) (row "e1" ∷ []))).0
    ≡ (chain_head host none (row "e1" ∷ [])).0
chain_head-prefix_example = chain_head-prefix host caps (receipt "e2" ∷ []) (row "e1" ∷ [])

abbrev anchor : Anchor
anchor = record {
  head_sha256 = host.sha256 "";
  receipt_count = 1;
  self_reported_digest_mismatches = [];
  first_receipt_created_at = some "noon";
  last_receipt_created_at = some "noon";
}

chain_now : (chain_head host none (row "e1" ∷ [])).0 ≡ ok anchor
unfolding chain_head chain_rows chain_start chain_step link stored_receipt
chain_now = refl

chain_head-commits_example : SameEvidence host (row "e1" ∷ []) (row "e1" ∷ []) ⊎ Collision host
chain_head-commits_example =
    chain_head-commits host (λ s. refl) (row "e1" ∷ []) (row "e1" ∷ []) anchor anchor refl chain_now
      chain_now refl

present : select "e1" (row "e1" ∷ []) ≡ some (row "e1")
unfolding select
present = refl

chain_head-clean_example : (f : Fields) × ((get_receipt host "e1" (row "e1" ∷ [])).0 ≡ ok (some f))
chain_head-clean_example =
    chain_head-clean host (row "e1" ∷ []) anchor "e1" (row "e1") chain_now refl present

save_all-Run_example :
    Run host
      (receipt "e2" ∷ receipt "e1" ∷ [])
      (answers_of host caps (receipt "e2" ∷ receipt "e1" ∷ []) (row "e1" ∷ []))
      (book (row "e1" ∷ []))
      (book (save_all host caps (receipt "e2" ∷ receipt "e1" ∷ []) (row "e1" ∷ [])))
save_all-Run_example = save_all-Run host caps (receipt "e2" ∷ receipt "e1" ∷ []) (row "e1" ∷ [])
