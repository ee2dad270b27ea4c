-- ===== src/Json/Tests.antt =====
-- Runs of `json.dumps`.
use oathcast.Prelude.{◌≡◌, refl, true, [], ◌∷◌}
use oathcast.Prelude.Int.{pos, negsuc}
use oathcast.Json.{null, boolean, number, text, array, object, nil, cons, of_pairs}
use oathcast.Json.Dumps.{dumps}
use oathcast.Json.TestHost.{test_host}

dumps_sorts_keys :
    dumps test_host (
      object (
        of_pairs (
          ("b", number (pos 1203))
          ∷ ("a", array (cons null (cons (number (negsuc 0)) nil)))
          ∷ ("c", boolean true)
          ∷ [])))
    ≡ "{\"a\":[null,-1],\"b\":1203,\"c\":true}"
unfolding dumps
dumps_sorts_keys = refl

dumps_escapes : dumps test_host (text "é\"\\/\n😀") ≡ "\"\\u00e9\\\"\\\\/\\n\\ud83d\\ude00\""
unfolding dumps
dumps_escapes = refl
