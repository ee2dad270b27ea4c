-- ===== src/Leaderboard/Board.antt =====
-- `Leaderboard`, `parse_leaderboards`, `parse_leaderboard` and `renderer_target` of
-- src/oathcast/leaderboard.py.
use oathcast.Prelude.Checked.{◌>>=◌, ◌>>◌, guard}
use oathcast.Prelude.{
  String, List, Option, ℕ, ◌∷◌, Bool, none, if◌then◌else◌, ltb, some, [], true, ◌||◌, ◌==◌, not,
  one_of, eqb, ◌&&◌, no_duplicates,
}
use oathcast.Leaderboard.Entry.{
  not_an_object, is_active_entry, Entry, parse_entries, LeaderboardError, is_trimmed, no_intents,
  missing_intents, malformed_request, has_any, intent_required, negative_epoch, malformed_intent,
  duplicate_request, legacy_payload, coerce_int,
}
use oathcast.Prelude.Int.{ℤ, pos, negsuc}
use oathcast.Json.{Value, Host, Fields, object, field, end, get_or, null}
use oathcast.Prelude.Exec.{Result, ok, err}

-- `Leaderboard`
pub record Leaderboard : Type 0 where
  pub entries : List Entry
  pub epoch : ℕ
  pub intent : String

-- `active_entries`
unfoldable pub active : List Entry → List Entry
unfolding is_active_entry
active [] = []
active (e ∷ es) = let rest = active es in if is_active_entry e then e ∷ rest else rest

-- `(a.score, -a.rank) < (b.score, -b.rank)`
abbrev pub trails : Entry → Entry → Bool
trails a b = ltb a.score b.score || eqb a.score b.score && ltb b.rank a.rank

-- max(…), the first of equals
unfoldable pub best_of : Entry → List Entry → Entry
best_of e [] = e
best_of e (d ∷ ds) = best_of (if trails e d then d else e) ds

abbrev pub best : List Entry → Option Entry
best [] = none
best (e ∷ es) = some (best_of e es)

-- `leader`
unfoldable pub leader : Leaderboard → Option Entry
unfolding active best_of
leader b = best (active b.entries)

abbrev score_of : Option Entry → Option ℕ
score_of none = none
score_of (some e) = some e.score

-- `target_score`
unfoldable pub target_score : Leaderboard → Option ℕ
unfolding leader
target_score b = score_of (leader b)

abbrev pub natural_epoch : ℤ → Result LeaderboardError ℕ
natural_epoch (pos n) = ok n
natural_epoch (negsuc n) = err negative_epoch

abbrev pub intents_object : Value → Result LeaderboardError Fields
intents_object (object fs) = ok fs
intents_object v = err no_intents

abbrev legacy_root_fields : List String
legacy_root_fields = "entries" ∷ "epoch_start" ∷ "epoch_end" ∷ "intent_id" ∷ []

abbrev pub Boards : Type 0
Boards = List (String × Leaderboard)

-- The loop over the intents.
unfoldable pub parse_intents : Host → ℕ → Fields → Result LeaderboardError Boards
unfolding parse_entries
parse_intents h epoch end = ok []
parse_intents h epoch (field intent raw fs) = do
  guard (is_trimmed h intent) malformed_intent
  entries ← parse_entries h raw
  rest ← parse_intents h epoch fs
  ok ((intent, record { entries = entries; epoch = epoch; intent = intent }) ∷ rest)

unfoldable pub board_of : String → Boards → Option Leaderboard
board_of intent [] = none
board_of intent ((k, b) ∷ bs) = if k == intent then some b else board_of intent bs

abbrev pub all_trimmed : Host → List String → Bool
all_trimmed h [] = true
all_trimmed h (s ∷ ss) = is_trimmed h s && all_trimmed h ss

abbrev pub found_board : Option Leaderboard → Result LeaderboardError Leaderboard
found_board none = err missing_intents
found_board (some b) = ok b

-- `{name: parsed[name] for name in names}`, after the check that none is missing
unfoldable pub selected : Boards → List String → Result LeaderboardError Boards
unfolding board_of
selected parsed [] = ok []
selected parsed (s ∷ ss) = do
  b ← found_board (board_of s parsed)
  rest ← selected parsed ss
  ok ((s, b) ∷ rest)

abbrev pub requested : Host → Boards → Option (List String) → Result LeaderboardError Boards
requested h parsed none = ok parsed
requested h parsed (some names) = do
  guard (all_trimmed h names) malformed_request
  guard (no_duplicates names) duplicate_request
  selected parsed names

abbrev pub payload_object : Value → Result LeaderboardError Fields
payload_object (object fs) = ok fs
payload_object v = err not_an_object

-- `parse_leaderboards`
unfoldable pub parse_leaderboards :
    Host → Value → Option (List String) → Result LeaderboardError Boards
unfolding parse_intents selected
parse_leaderboards h payload names = do
  fs ← payload_object payload
  guard (not (has_any legacy_root_fields fs)) legacy_payload
  n ← coerce_int (get_or "epoch" null fs)
  epoch ← natural_epoch n
  raw ← intents_object (get_or "intents" null fs)
  parsed ← parse_intents h epoch raw
  requested h parsed names

-- `parse_leaderboard`
unfoldable pub parse_leaderboard :
    Host → Value → Option String → Result LeaderboardError Leaderboard
unfolding parse_leaderboards board_of
parse_leaderboard h payload none = err intent_required
parse_leaderboard h payload (some intent) = do
  boards ← parse_leaderboards h payload (some (intent ∷ []))
  found_board (board_of intent boards)

abbrev pub larger : Option ℕ → Option ℕ → Option ℕ
larger none b = b
larger (some a) none = some a
larger (some a) (some b) = if ltb a b then some b else some a

-- `renderer_target`
unfoldable pub renderer_target : Boards → List String → Option ℕ
unfolding target_score
renderer_target [] declared = none
renderer_target ((name, b) ∷ bs) declared =
    let rest = renderer_target bs declared in
    if one_of name declared then larger (target_score b) rest else rest
