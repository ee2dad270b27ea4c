-- ===== src/Leaderboard/Tests.antt =====
use oathcast.Prelude.{String, ◌≡◌, ℕ, ◌∷◌, [], some, refl}
use oathcast.Json.{Value, object, of_pairs, text, number, real, array, cons, nil}
use oathcast.Leaderboard.Board.{
  Leaderboard, parse_leaderboard, leader, renderer_target, parse_leaderboards, active, target_score,
  parse_intents, best_of, selected, board_of,
}
use oathcast.Leaderboard.Entry.{
  parse_entry, Entry, parse_entries, is_active_entry, parse_all, coerce_score, sort_by_rank,
  rank_not_positive, insert_by_rank,
}
use oathcast.Json.TestHost.{test_host}
use oathcast.Leaderboard.Ranked.{IsRanked}
use oathcast.Leaderboard.Leader.{Leads, parse_leaderboard-IsRanked}
use oathcast.Prelude.Int.{pos}
use oathcast.Prelude.Exec.{err, ok}  -- A leaderboard of two Miners, and the theorem applied there.

abbrev entry : String → String → ℕ → ℕ → Value
entry slug status rank score = object (
    of_pairs (
      ("miner_slug", text slug)
      ∷ ("activation_status", text status)
      ∷ ("rank", number (pos rank))
      ∷ ("score", real (pos score))
      ∷ []))

abbrev payload : Value
payload = object (
    of_pairs (
      ("epoch", number (pos 178))
      ∷ (
        "intents",
        object (
            of_pairs (
              (
                "WEATHER_CHECK",
                array (
                    cons (entry "b" "active" 7 400000) (
                      cons (entry "a" "inactive" 2 900000)
                        (cons (entry "c" "active" 4 600000) nil))),
              )
              ∷ [])),
      )
      ∷ []))

abbrev ranked : String → String → ℕ → ℕ → Entry
ranked slug status rank score = record {
  slug = slug;
  activation_status = status;
  score = score;
  rank = rank;
}

abbrev board : Leaderboard
board = record {
  entries =
      ranked "a" "inactive" 2 900000
      ∷ ranked "c" "active" 4 600000
      ∷ ranked "b" "active" 7 400000
      ∷ [];
  epoch = 178;
  intent = "WEATHER_CHECK";
}

parsed : parse_leaderboard test_host payload (some "WEATHER_CHECK") ≡ ok board
unfolding parse_leaderboard parse_leaderboards parse_intents parse_entries parse_all parse_entry
    coerce_score sort_by_rank insert_by_rank selected board_of
parsed = refl

-- The leader is active, whatever the inactive one's rank is.
leads : leader board ≡ some (ranked "c" "active" 4 600000)
unfolding leader active best_of is_active_entry
leads = refl

target : renderer_target (("WEATHER_CHECK", board) ∷ []) ("WEATHER_CHECK" ∷ []) ≡ some 600000
unfolding renderer_target target_score leader active best_of is_active_entry
target = refl

unranked :
    parse_entry test_host [] (
      of_pairs (
        ("miner_slug", text "a")
        ∷ ("activation_status", text "active")
        ∷ ("rank", number (pos 0))
        ∷ []))
    ≡ err rank_not_positive
unfolding parse_entry
unranked = refl

parse_leaderboard-IsRanked_example :
    (board.intent ≡ "WEATHER_CHECK") × IsRanked board.entries × Leads (leader board) board.entries
parse_leaderboard-IsRanked_example =
    parse_leaderboard-IsRanked test_host payload "WEATHER_CHECK" board parsed
