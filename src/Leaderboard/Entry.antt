-- ===== src/Leaderboard/Entry.antt =====
-- `LeaderboardEntry` and `_parse_entries` of src/oathcast/leaderboard.py. A score is a number of millionths.
use oathcast.Prelude.Checked.{◌>>=◌, ◌>>◌, guard}
use oathcast.Prelude.{
  String, Bool, List, ℕ, ◌==◌, not, ◌∷◌, ◌&&◌, [], false, if◌then◌else◌, eqb, leb, ◌*◌, ◌||◌,
  one_of,
}
use oathcast.Json.{
  Host, Value, Fields, Items, text, number, get_or, object, array, contains, null, cons, nil, real,
}
use oathcast.Prelude.Int.{ℤ, pos, negsuc}
use oathcast.Prelude.Exec.{Result, ok, err}

-- The LeaderboardErrors, without their messages.
pub data LeaderboardError : Type 0 where
  not_an_object legacy_payload not_an_integer negative_epoch no_intents malformed_intent :
      LeaderboardError
  entries_not_a_list entry_not_an_object legacy_entry malformed_slug duplicate_slug :
      LeaderboardError
  malformed_status rank_not_positive malformed_score score_out_of_range : LeaderboardError
  malformed_request duplicate_request missing_intents intent_required : LeaderboardError

-- `LeaderboardEntry`
pub record Entry : Type 0 where
  pub slug : String
  pub activation_status : String
  pub score : ℕ
  pub rank : ℕ

-- `is_active`
unfoldable pub is_active_entry : Entry → Bool
is_active_entry e = e.activation_status == "active"

-- `not isinstance(s, str) or not s or s.strip() != s`, of a text
abbrev pub is_trimmed : Host → String → Bool
is_trimmed h s = not (s == "") && h.strip s == s

abbrev pub trimmed_text : Host → LeaderboardError → Value → Result LeaderboardError String
trimmed_text h e (text s) = if is_trimmed h s then ok s else err e
trimmed_text h e v = err e

-- `_coerce_int`
abbrev pub coerce_int : Value → Result LeaderboardError ℤ
coerce_int (number n) = ok n
coerce_int v = err not_an_integer

abbrev pub positive : ℤ → Result LeaderboardError ℕ
positive (pos n) = if eqb n 0 then err rank_not_positive else ok n
positive (negsuc n) = err rank_not_positive

abbrev pub in_range : ℤ → Result LeaderboardError ℕ
in_range (pos n) = if leb n 1000000 then ok n else err score_out_of_range
in_range (negsuc n) = err score_out_of_range

-- `_coerce_score`
unfoldable pub coerce_score : Value → Result LeaderboardError ℕ
coerce_score (number (pos n)) = in_range (pos (1000000 * n))
coerce_score (number (negsuc n)) = in_range (negsuc n)
coerce_score (real r) = in_range r
coerce_score v = err malformed_score

abbrev legacy_entry_fields : List String
legacy_entry_fields =
    "avg_score" ∷ "position" ∷ "best_rank" ∷ "epochs_participated" ∷ "total_requests_served" ∷ []

abbrev pub has_any : List String → Fields → Bool
has_any [] fs = false
has_any (k ∷ ks) fs = contains k fs || has_any ks fs

-- One round of the loop of `_parse_entries`.
unfoldable pub parse_entry : Host → List String → Fields → Result LeaderboardError Entry
unfolding coerce_score
parse_entry h seen raw = do
  guard (not (has_any legacy_entry_fields raw)) legacy_entry
  slug ← trimmed_text h malformed_slug (get_or "miner_slug" null raw)
  guard (not (one_of slug seen)) duplicate_slug
  status ← trimmed_text h malformed_status (get_or "activation_status" null raw)
  value ← coerce_int (get_or "rank" null raw)
  rank ← positive value
  score ← coerce_score (get_or "score" null raw)
  ok (record { slug = slug; activation_status = status; score = score; rank = rank })

abbrev pub entry_object : Value → Result LeaderboardError Fields
entry_object (object fs) = ok fs
entry_object v = err entry_not_an_object

-- The loop, from the slugs that are seen on.
unfoldable pub parse_all : Host → List String → Items → Result LeaderboardError (List Entry)
unfolding parse_entry
parse_all h seen nil = ok []
parse_all h seen (cons v vs) = do
  raw ← entry_object v
  entry ← parse_entry h seen raw
  rest ← parse_all h (entry.slug ∷ seen) vs
  ok (entry ∷ rest)

-- sorted(entries, key=lambda entry: entry.rank), which keeps the order of equal ranks
unfoldable pub insert_by_rank : Entry → List Entry → List Entry
insert_by_rank e [] = e ∷ []
insert_by_rank e (d ∷ ds) =
    let later = insert_by_rank e ds in if leb e.rank d.rank then e ∷ d ∷ ds else d ∷ later

unfoldable pub sort_by_rank : List Entry → List Entry
unfolding insert_by_rank
sort_by_rank [] = []
sort_by_rank (e ∷ es) = insert_by_rank e (sort_by_rank es)

abbrev pub entry_items : Value → Result LeaderboardError Items
entry_items (array vs) = ok vs
entry_items v = err entries_not_a_list

-- `_parse_entries`
unfoldable pub parse_entries : Host → Value → Result LeaderboardError (List Entry)
unfolding parse_all sort_by_rank
parse_entries h raw = do
  vs ← entry_items raw
  entries ← parse_all h [] vs
  ok (sort_by_rank entries)
