-- ===== src/Receipts/Prefix.antt =====
-- The chain of src/oathcast/receipts.py over a prefix of the store.
use oathcast.Prelude.{List, ◌≡◌, refl, length, take-append, some, none}
use oathcast.Prelude.Int.{pos}
use oathcast.Json.{Host, Fields}
use oathcast.Receipts.Store.{Table, Caps}
use oathcast.Receipts.Chain.{chain_head}
use oathcast.Receipts.History.{save_all, save_all-Extends}

-- The chain over the first N rows, N the number of rows when the head was published, gives that head
-- whatever is saved later.
pub chain_head-prefix :
    (h : Host) (caps : Caps) (rs : List Fields) (t : Table)
    → (chain_head h (some (pos (length t))) (save_all h caps rs t)).0 ≡ (chain_head h none t).0
unfolding chain_head
chain_head-prefix h caps rs t =
    let grown = save_all-Extends h caps rs t in rw (grown.1, take-append t grown.0) refl
