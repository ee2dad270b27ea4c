-- ===== src/Receipts/Audit.antt =====
-- The mismatches that the chain of src/oathcast/receipts.py reports, beside the single receipts.
use mathlib.Core.Path.{subst}
use oathcast.Prelude.{
  String, ◌==◌, Bool, true, false, Option, none, some, List, [], ◌∷◌, ◌++◌, ◌≡◌, inl, inr, refl,
  ◌∙◌, ap, arith, Bool-cases, if◌then◌else◌, All,
}
use oathcast.Prelude.Exec.{Result, ok, err, Result-cases}
use oathcast.Json.{Host, Fields, get}
use oathcast.Receipts.Store.{Table, Row, Error, select, stored_receipt, mismatched, get_receipt}
use oathcast.Receipts.Chain.{Anchor, chain_head, chain_rows, chain_step, chain_start}

-- A row that reads back with no mismatch.
record IsClean (h : Host) (r : Row) : Type 0 where
  receipt : Fields
  readable : stored_receipt h r ≡ ok receipt
  matches : mismatched h receipt (get "receipt_sha256" receipt) ≡ false

-- Nothing was added to a list that is empty afterwards.
unmarked :
    (b : Bool) (ids : List String) (id : String)
    → (if b then ids ++ id ∷ [] else ids) ≡ []
    → (b ≡ false) × (ids ≡ [])
unmarked false ids id e = (refl, e)
unmarked true [] id e = ground (arith, e)
unmarked true (i ∷ ids) id e = ground (arith, e)

abbrev marks : Result Error Anchor → List String
marks (ok a) = a.self_reported_digest_mismatches
marks (err e) = []

module _ (h : Host) where
  abbrev CleanRow : Option Row → Type 0
  CleanRow none = Unit
  CleanRow (some r) = IsClean h r

  rows-IsClean :
      (t : Table) (a z : Anchor)
      → chain_rows h t a ≡ ok z
      → z.self_reported_digest_mismatches ≡ []
      → (a.self_reported_digest_mismatches ≡ []) × All (IsClean h) t
  unfolding chain_rows chain_step
  rows-IsClean [] a z e none_left = (ap marks e ∙ none_left, tt)
  rows-IsClean (r ∷ t) a z e none_left = elim (Result-cases (stored_receipt h r)) [
    | inr (x, p) ↦ ground (arith, e, p)
    | inl (f, p) ↦
        let (left, clean) =
          rows-IsClean t (chain_step h r f a) z (rw (p, chain_rows) at e) none_left in
        let (matches, before) =
          unmarked (mismatched h f (get "receipt_sha256" f)) a.self_reported_digest_mismatches
            r.event_id left in
        (before, (record { receipt = f; readable = p; matches = matches }, clean))
  ]

  selected-IsClean :
      (id : String) (r : Row) (t : Table) → select id t ≡ some r → All (IsClean h) t → IsClean h r
  unfolding select
  selected-IsClean id r [] e clean = ground (arith, e)
  selected-IsClean id r (s ∷ t) e clean = elim (Bool-cases (s.event_id == id)) [
    | inl same ↦ subst CleanRow (rw same at e) clean.0
    | inr differs ↦ selected-IsClean id r t (rw differs at e) clean.1
  ]

  -- If the chain over the whole store is computed and reports no mismatch, then `get` returns a receipt
  -- for every event that has a row, and reports no tampering.
  pub chain_head-clean :
      (t : Table) (z : Anchor) (id : String) (r : Row)
      → (chain_head h none t).0 ≡ ok z
      → z.self_reported_digest_mismatches ≡ []
      → select id t ≡ some r
      → (f : Fields) × ((get_receipt h id t).0 ≡ ok (some f))
  unfolding chain_head get_receipt
  chain_head-clean t z id r e none_left found =
      let clean = selected-IsClean id r t found (rows-IsClean t (chain_start h) z e none_left).1 in
      (clean.receipt, rw (found, clean.readable, clean.matches) refl)
