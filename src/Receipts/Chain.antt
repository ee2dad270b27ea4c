-- ===== src/Receipts/Chain.antt =====
-- The hash chain over the receipts, `chain_head` of src/oathcast/receipts.py, which is published to
-- commit to the first rows of the store.
use Prim.Native.String.{◌++◌ as ◌<>◌}
use oathcast.Prelude.{ℕ, suc, String, Option, none, some, List, [], ◌∷◌, ◌++◌, take, if◌then◌else◌}
use oathcast.Prelude.Int.{ℤ, pos, negsuc}
use oathcast.Prelude.Exec.{Result, ok, err, Exec, lift, gets, ◌>>=◌}
use oathcast.Json.{Host, Fields, get}
use oathcast.Receipts.Store.{
  Table, Row, Error, negative_limit, stored_receipt, receipt_digest, mismatched,
}

-- `RECEIPT_CHAIN_DOMAIN`
abbrev pub receipt_chain_domain : String
receipt_chain_domain = "oathcast-receipt-chain-v1"

pub record Anchor : Type 0 where
  pub head_sha256 : String
  pub receipt_count : ℕ
  pub self_reported_digest_mismatches : List String
  pub first_receipt_created_at : Option String
  pub last_receipt_created_at : Option String

unfoldable pub chain_start : Host → Anchor
chain_start h = record {
  head_sha256 = h.sha256 receipt_chain_domain;
  receipt_count = 0;
  self_reported_digest_mismatches = [];
  first_receipt_created_at = none;
  last_receipt_created_at = none;
}

abbrev or_else : Option String → String → Option String
or_else none s = some s
or_else (some f) s = some f

-- The next digest: of the last one, the event and the recomputed digest of its receipt.
unfoldable pub link : Host → String → String → Fields → String
link h digest event_id receipt = h.sha256 (digest <> event_id <> receipt_digest h receipt)

-- One turn of the loop.
unfoldable pub chain_step : Host → Row → Fields → Anchor → Anchor
chain_step h r receipt a = record {
  head_sha256 = link h a.head_sha256 r.event_id receipt;
  receipt_count = suc a.receipt_count;
  self_reported_digest_mismatches =
      if mismatched h receipt (get "receipt_sha256" receipt)
      then a.self_reported_digest_mismatches ++ r.event_id ∷ []
      else a.self_reported_digest_mismatches;
  first_receipt_created_at = or_else a.first_receipt_created_at r.created_at;
  last_receipt_created_at = some r.created_at;
}

-- The loop over the rows, which an unreadable row ends with an error.
unfoldable pub chain_rows : Host → Table → Anchor → Result Error Anchor
chain_rows h [] a = ok a
chain_rows h (r ∷ rs) a = elim (stored_receipt h r) [
  | err e ↦ err e
  | ok receipt ↦ chain_rows h rs (chain_step h r receipt a)
]

-- LIMIT n
abbrev limited : Option ℤ → Table → Result Error Table
limited none t = ok t
limited (some (pos n)) t = ok (take n t)
limited (some (negsuc n)) t = err negative_limit

abbrev chain_of : Host → Result Error Table → Result Error Anchor
chain_of h (err e) = err e
chain_of h (ok t) = chain_rows h t (chain_start h)

-- `chain_head`
unfoldable pub chain_head : Host → Option ℤ → Exec Table Error Anchor
chain_head h limit = do rows ← gets (limited limit); lift (chain_of h rows)
