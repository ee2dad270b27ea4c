-- ===== src/Receipts/Tamper.antt =====
-- The chains of src/oathcast/receipts.py of two stores, and what they commit to.
use Prim.Native.String.{count, ◌++◌ as ◌<>◌}
use text.Mathlib.TextLemmas.{append_inj, length-append}
use oathcast.Prelude.{
  String, ◌==◌, none, [], ◌∷◌, ◌≡◌, ◌≢◌, ◌⊎◌, inl, inr, sym, ◌∙◌, ap, length, arith, Bool-cases,
  eq_iff, false≢true,
}
use oathcast.Prelude.Exec.{Result, ok, err, Result-cases}
use oathcast.Json.{Host, Fields, object, without}
use oathcast.Json.Dumps.{dumps}
use oathcast.Receipts.Store.{Table, Row, Error, stored_receipt, receipt_digest}
use oathcast.Receipts.Chain.{Anchor, chain_head, chain_rows, chain_step, chain_start, link}

-- Two texts with one digest.
pub record Collision (h : Host) : Type 0 where
  pub left : String
  pub right : String
  pub distinct : left ≢ right
  pub same : h.sha256 left ≡ h.sha256 right

-- What the chain commits to: of each row the event, and the canonical text of its receipt.
unfoldable pub SameEvidence : Host → Table → Table → Type 0
SameEvidence h [] [] = Unit
SameEvidence h [] (s ∷ u) = ⊥
SameEvidence h (r ∷ t) [] = ⊥
SameEvidence h (r ∷ t) (s ∷ u) =
    (r.event_id ≡ s.event_id)
    × ((a : Fields) × (b : Fields) × (stored_receipt h r ≡ ok a)
        × (stored_receipt h s ≡ ok b)
        × (dumps h (object (without "receipt_sha256" a))
            ≡ dumps h (object (without "receipt_sha256" b))))
    × SameEvidence h t u

abbrev head : Result Error Anchor → String
head (ok a) = a.head_sha256
head (err e) = ""

module _ (h : Host) where
  -- Equal digests are digests of equal texts, or a collision.
  preimage : (a b : String) → h.sha256 a ≡ h.sha256 b → (a ≡ b) ⊎ Collision h
  preimage a b e = elim (Bool-cases (a == b)) [
    | inl same ↦ inl ((eq_iff a b).0 same)
    | inr differs ↦ inr (record {
      left = a;
      right = b;
      distinct = λ p. false≢true (sym differs ∙ (eq_iff a b).1 p);
      same = e;
    })
  ]

  module _ (wide : (s : String) → count (h.sha256 s) ≡ 64) where
    -- The three parts of a link's text are read off it.
    parts :
        (d d' id id' x x' : String)
        → count d ≡ count d'
        → count x ≡ count x'
        → d <> id <> x ≡ d' <> id' <> x'
        → (d ≡ d') × (id ≡ id') × (x ≡ x')
    parts d d' id id' x x' w v e =
        let (p, q) = append_inj e w in
        let (a, b) =
          append_inj q (omega (arith, v, ap count q, length-append id x, length-append id' x')) in
        (p, a, b)

    -- If two links agree then so do what they were made of, or there is a collision.
    unlinked :
        (d d' : String) (r s : Row) (a b : Fields)
        → count d ≡ 64
        → count d' ≡ 64
        → link h d r.event_id a ≡ link h d' s.event_id b
        → ((d ≡ d')
            × (r.event_id ≡ s.event_id)
            × (dumps h (object (without "receipt_sha256" a))
                ≡ dumps h (object (without "receipt_sha256" b))))
          ⊎ Collision h
    unfolding link receipt_digest
    unlinked d d' r s a b w w' e =
        elim (preimage (d <> r.event_id <> receipt_digest h a)
          (d' <> s.event_id <> receipt_digest h b) e) [
            | inr c ↦ inr c
            | inl same ↦
                let (p, q, x) =
                  parts d d' r.event_id s.event_id (receipt_digest h a) (receipt_digest h b)
                    (w ∙ sym w') (wide _ ∙ sym (wide _)) same in
                elim (preimage (dumps h (object (without "receipt_sha256" a)))
                  (dumps h (object (without "receipt_sha256" b))) x) [
                    | inr c ↦ inr c
                    | inl texts ↦ inl (p, q, texts)
                  ]
          ]

    readable :
        (r : Row) (t : Table) (a z : Anchor)
        → chain_rows h (r ∷ t) a ≡ ok z
        → (f : Fields) × (stored_receipt h r ≡ ok f) × (chain_rows h t (chain_step h r f a) ≡ ok z)
    unfolding chain_rows
    readable r t a z e = elim (Result-cases (stored_receipt h r)) [
      | inl (f, p) ↦ (f, p, (rw (p, chain_rows) at e))
      | inr (x, p) ↦ ground (arith, e, p)
    ]

    chained :
        (t u : Table) (a a' z z' : Anchor)
        → length t ≡ length u
        → count a.head_sha256 ≡ 64
        → count a'.head_sha256 ≡ 64
        → chain_rows h t a ≡ ok z
        → chain_rows h u a' ≡ ok z'
        → z.head_sha256 ≡ z'.head_sha256
        → ((a.head_sha256 ≡ a'.head_sha256) × SameEvidence h t u) ⊎ Collision h
    unfolding SameEvidence chain_step chain_rows link
    chained [] [] a a' z z' n w w' e e' heads = inl (ap head e ∙ heads ∙ sym (ap head e'), tt)
    chained [] (s ∷ u) a a' z z' n w w' e e' heads = ground arith
    chained (r ∷ t) [] a a' z z' n w w' e e' heads = ground arith
    chained (r ∷ t) (s ∷ u) a a' z z' n w w' e e' heads =
        let (f, p, rest) = readable r t a z e in
        let (g, q, rest') = readable s u a' z' e' in
        elim (chained t u (chain_step h r f a) (chain_step h s g a') z z' (omega (arith, n))
          (wide _) (wide _) rest rest' heads) [
            | inr c ↦ inr c
            | inl (head, same) ↦ elim (unlinked a.head_sha256 a'.head_sha256 r s f g w w' head) [
              | inr c ↦ inr c
              | inl (d, id, texts) ↦ inl (d, (id, (f, g, p, q, texts), same))
            ]
          ]

    -- Two stores whose published chains have the same head over the same number of rows, with a digest
    -- of 64 characters, have row by row the same events and the same receipts' canonical texts, or
    -- else two different texts with one digest.
    pub chain_head-commits :
        (t u : Table) (z z' : Anchor)
        → length t ≡ length u
        → (chain_head h none t).0 ≡ ok z
        → (chain_head h none u).0 ≡ ok z'
        → z.head_sha256 ≡ z'.head_sha256
        → SameEvidence h t u ⊎ Collision h
    unfolding chain_head chain_start
    chain_head-commits t u z z' n e e' heads =
        elim (chained t u (chain_start h) (chain_start h) z z' n (wide _) (wide _) e e' heads) [
          | inl same ↦ inl same.1
          | inr c ↦ inr c
        ]
