-- ===== src/Leaderboard/Leader.antt =====
-- The leaderboard that `parse_leaderboard` of src/oathcast/leaderboard.py returns, and its leader.
use oathcast.Leaderboard.Entry.{
  Entry, coerce_score, parse_entry, parse_all, parse_entries, in_range, positive, entry_object,
  entry_items, is_trimmed, malformed_intent, malformed_request, duplicate_request, is_active_entry,
}
use oathcast.Leaderboard.Board.{
  Leaderboard, parse_intents, board_of, selected, Boards, found_board, best_of, best, leader,
  parse_leaderboards, parse_leaderboard, trails, active, requested, all_trimmed,
}
use oathcast.Prelude.{
  String, List, All, ◌≡◌, ◌≤◌, one_of, ℕ, ◌∷◌, false, Bool-cases, eqb, leb, ◌*◌, ◌==◌, inl, arith,
  [], inr, leb→le, ◌∙◌, eq_iff, refl, not, true, Option, some, none, if◌then◌else◌, no_duplicates,
  ap, ◌⊎◌,
}
use oathcast.Prelude.Int.{ℤ, pos, negsuc}
use oathcast.Prelude.Exec.{Sure, Sure-ok, ok}
use oathcast.Json.{
  Value, Host, Fields, Items, number, cons, field, nil, real, end, boolean, get_or, text, null,
  array, object,
}
use oathcast.Leaderboard.Ranked.{InRange, IsRanked, sort-IsRanked}
use oathcast.Prelude.Checked.{Sure-guard, Sure-bind}
use oathcast.Prelude.Distinct.{Distinct, unseen-drop}

positive-ge : (n : ℤ) → Sure (λ r. 1 ≤ r) (positive n)
positive-ge (pos n) = elim (Bool-cases (eqb n 0)) [
  | inl h ↦ rw h tt
  | inr h ↦ rw h (ground (arith, h))
]
positive-ge (negsuc n) = tt

in_range-le : (n : ℤ) → Sure (λ s. s ≤ 1000000) (in_range n)
in_range-le (pos n) = elim (Bool-cases (leb n 1000000)) [
  | inl h ↦ rw h (leb→le n 1000000 h)
  | inr h ↦ rw h tt
]
in_range-le (negsuc n) = tt

coerce_score-le : (v : Value) → Sure (λ s. s ≤ 1000000) (coerce_score v)
unfolding coerce_score
coerce_score-le (number (pos n)) = in_range-le (pos (1000000 * n))
coerce_score-le (number (negsuc n)) = tt
coerce_score-le (real r) = in_range-le r
coerce_score-le null = tt
coerce_score-le (boolean b) = tt
coerce_score-le (text s) = tt
coerce_score-le (array vs) = tt
coerce_score-le (object fs) = tt

abbrev IsNew : List String → Entry → Type 0
IsNew seen e = InRange e × (one_of e.slug seen ≡ false)

entry-IsNew :
    (seen : List String) (raw : Fields) (slug status : String) (n : ℤ) (rank score : ℕ)
    → not (one_of slug seen) ≡ true
    → positive n ≡ ok rank
    → coerce_score (get_or "score" null raw) ≡ ok score
    → IsNew seen (record { slug = slug; activation_status = status; score = score; rank = rank })
entry-IsNew seen raw slug status n rank score unseen e e' = (
  (
    Sure-ok (λ r. 1 ≤ r) _ rank e (positive-ge n),
    Sure-ok (λ s. s ≤ 1000000) _ score e' (coerce_score-le (get_or "score" null raw)),
  ),
  ground (arith, unseen),
)

parse_entry-IsNew :
    (h : Host) (seen : List String) (raw : Fields) → Sure (IsNew seen) (parse_entry h seen raw)
unfolding parse_entry
parse_entry-IsNew h seen raw =
    search (Sure-bind (IsNew seen), Sure-guard (IsNew seen), entry-IsNew) depth 24

record IsParsed (seen : List String) (es : List Entry) : Type 0 where
  in_range : All InRange es
  new : All (λ d. one_of d.slug seen ≡ false) es
  distinct : Distinct (λ e. e.slug) es

parse_all-IsParsed :
    (h : Host) (seen : List String) (vs : Items) → Sure (IsParsed seen) (parse_all h seen vs)
unfolding parse_all Distinct
parse_all-IsParsed h seen nil = record { in_range = tt; new = tt; distinct = tt }
parse_all-IsParsed h seen (cons v vs) = Sure-bind (IsParsed seen) (entry_object v) _ (λ raw e1.
    Sure-bind (IsParsed seen) (parse_entry h seen raw) _ (λ entry e2.
      Sure-bind (IsParsed seen) (parse_all h (entry.slug ∷ seen) vs) _ (λ rest e3.
        let (ranged, unseen) = Sure-ok (IsNew seen) _ entry e2 (parse_entry-IsNew h seen raw) in
        let later =
          Sure-ok (IsParsed (entry.slug ∷ seen)) _ rest e3
            (parse_all-IsParsed h (entry.slug ∷ seen) vs) in
        let (new, others) = unseen-drop (λ e. e.slug) entry.slug seen rest later.new in
        record {
          in_range = (ranged, later.in_range);
          new = (unseen, new);
          distinct = (others, later.distinct);
        })))

parse_entries-IsRanked : (h : Host) (raw : Value) → Sure IsRanked (parse_entries h raw)
unfolding parse_entries
parse_entries-IsRanked h raw = Sure-bind IsRanked (entry_items raw) _ (λ vs e1.
    Sure-bind IsRanked (parse_all h [] vs) _ (λ es e2.
      let parsed = Sure-ok (IsParsed []) _ es e2 (parse_all-IsParsed h [] vs) in
      sort-IsRanked es parsed.in_range parsed.distinct))

-- A board under its own name.
abbrev Filed : String × Leaderboard → Type 0
Filed p = (p.1.intent ≡ p.0) × IsRanked p.1.entries

parse_intents-Filed :
    (h : Host) (epoch : ℕ) (fs : Fields) → Sure (All Filed) (parse_intents h epoch fs)
unfolding parse_intents
parse_intents-Filed h epoch end = tt
parse_intents-Filed h epoch (field intent raw fs) =
    Sure-guard (All Filed) (is_trimmed h intent) malformed_intent _ (λ trimmed.
      Sure-bind (All Filed) (parse_entries h raw) _ (λ es e1.
        Sure-bind (All Filed) (parse_intents h epoch fs) _ (λ rest e2. (
          (refl, Sure-ok IsRanked _ es e1 (parse_entries-IsRanked h raw)),
          Sure-ok (All Filed) _ rest e2 (parse_intents-Filed h epoch fs),
        ))))

board_of-Filed :
    (s : String) (bs : Boards)
    → All Filed bs
    → Sure (λ b. Filed (s, b)) (found_board (board_of s bs))
unfolding board_of
board_of-Filed s [] a = tt
board_of-Filed s ((k, b) ∷ bs) a = elim (Bool-cases (k == s)) [
  | inl e ↦ rw e (a.0.0 ∙ (eq_iff k s).0 e, a.0.1)
  | inr e ↦ rw e (board_of-Filed s bs a.1)
]

selected-Filed :
    (parsed : Boards) (names : List String)
    → All Filed parsed
    → Sure (All Filed) (selected parsed names)
unfolding selected
selected-Filed parsed [] a = tt
selected-Filed parsed (s ∷ ss) a =
    Sure-bind (All Filed) (found_board (board_of s parsed)) _ (λ b e1.
      Sure-bind (All Filed) (selected parsed ss) _ (λ rest e2. (
        Sure-ok (λ b. Filed (s, b)) _ b e1 (board_of-Filed s parsed a),
        Sure-ok (All Filed) _ rest e2 (selected-Filed parsed ss a),
      )))

abbrev winner : Entry → Entry → Entry
winner e d = if trails e d then d else e

winner-ge : (e d : Entry) → (e.score ≤ (winner e d).score) × (d.score ≤ (winner e d).score)
winner-ge e d = elim (Bool-cases (trails e d)) [
  | inl h ↦ rw h (ground (arith, h))
  | inr h ↦ rw h (ground (arith, h))
]

best_of-ge : (e : Entry) (es : List Entry) → e.score ≤ (best_of e es).score
unfolding best_of
best_of-ge e [] = omega arith
best_of-ge e (d ∷ ds) = omega (arith, best_of-ge (winner e d) ds, winner-ge e d)

best_of-AtLeast : (e : Entry) (es : List Entry) → All (λ d. d.score ≤ (best_of e es).score) es
unfolding best_of
best_of-AtLeast e [] = tt
best_of-AtLeast e (d ∷ ds) =
    (omega (arith, best_of-ge (winner e d) ds, winner-ge e d), best_of-AtLeast (winner e d) ds)

-- The entry stands in the list.
abbrev pub StandsIn : Entry → List Entry → Type 0
StandsIn e [] = ⊥
StandsIn e (d ∷ ds) = (e ≡ d) ⊎ StandsIn e ds

winner-StandsIn : (e d : Entry) → (winner e d ≡ e) ⊎ (winner e d ≡ d)
winner-StandsIn e d = elim (Bool-cases (trails e d)) [
  | inl h ↦ rw h (inr refl)
  | inr h ↦ rw h (inl refl)
]

best_of-StandsIn : (e : Entry) (es : List Entry) → StandsIn (best_of e es) (e ∷ es)
unfolding best_of
best_of-StandsIn e [] = inl refl
best_of-StandsIn e (d ∷ ds) = elim (best_of-StandsIn (winner e d) ds) [
  | inr later ↦ inr (inr later)
  | inl at ↦ elim (winner-StandsIn e d) [
    | inl first ↦ inl (at ∙ first)
    | inr second ↦ inr (inl (at ∙ second))
  ]
]

abbrev pub IsActive : Entry → Type 0
IsActive e = e.activation_status ≡ "active"

-- The leader is one of the entries, active, with a score that no active entry exceeds; it is missing
-- only if no entry is active.
abbrev pub Leads : Option Entry → List Entry → Type 0
Leads none es = All (λ d. ¬ IsActive d) es
Leads (some e) es = StandsIn e es × IsActive e × All (λ d. (¬ IsActive d) ⊎ (d.score ≤ e.score)) es

active-none : (es : List Entry) → active es ≡ [] → All (λ d. ¬ IsActive d) es
unfolding active is_active_entry
active-none [] p = tt
active-none (e ∷ es) p = elim (Bool-cases (e.activation_status == "active")) [
  | inl h ↦ cc (rw h at p)
  | inr h ↦
      ((λ a. ground (arith, h, a, eq_iff e.activation_status "active")), active-none es (rw h at p))
]

active-StandsIn :
    (e : Entry) (es : List Entry) → StandsIn e (active es) → StandsIn e es × IsActive e
unfolding active is_active_entry
active-StandsIn e [] m = absurd m
active-StandsIn e (d ∷ es) m = elim (Bool-cases (d.activation_status == "active")) [
  | inr h ↦ let (there, fine) = active-StandsIn e es (rw h at m) in (inr there, fine)
  | inl h ↦ elim (rw h at m) [
    | inl same ↦
        (inl same, ap (λ x. x.activation_status) same ∙ (eq_iff d.activation_status "active").0 h)
    | inr later ↦ let (there, fine) = active-StandsIn e es later in (inr there, fine)
  ]
]

active-AtLeast :
    (n : ℕ) (es : List Entry)
    → All (λ d. d.score ≤ n) (active es)
    → All (λ d. (¬ IsActive d) ⊎ (d.score ≤ n)) es
unfolding active is_active_entry
active-AtLeast n [] a = tt
active-AtLeast n (e ∷ es) a = elim (Bool-cases (e.activation_status == "active")) [
  | inl h ↦ let (x, xs) = (rw h at a) in (inr x, active-AtLeast n es xs)
  | inr h ↦ (
    inl (λ p. ground (arith, h, p, eq_iff e.activation_status "active")),
    active-AtLeast n es (rw h at a),
  )
]

leader-Leads : (b : Leaderboard) → Leads (leader b) b.entries
unfolding leader
leader-Leads b = go (active b.entries) refl
  where
    go : (es : List Entry) → active b.entries ≡ es → Leads (best es) b.entries
    go [] p = active-none b.entries p
    go (e ∷ es) p =
        let (there, fine) =
          active-StandsIn (best_of e es) b.entries (rw p (best_of-StandsIn e es)) in
        (
          there,
          fine,
          active-AtLeast (best_of e es).score b.entries
              (rw p (best_of-ge e es, best_of-AtLeast e es)),
        )

requested-Filed :
    (h : Host) (parsed : Boards) (names : Option (List String))
    → All Filed parsed
    → Sure (All Filed) (requested h parsed names)
requested-Filed h parsed none a = a
requested-Filed h parsed (some names) a =
    Sure-guard (All Filed) (all_trimmed h names) malformed_request _ (λ trimmed.
      Sure-guard (All Filed) (no_duplicates names) duplicate_request (selected parsed names)
        (λ different. selected-Filed parsed names a))

parsed-Filed :
    (h : Host) (epoch : ℕ) (raw : Fields) (parsed : Boards) (names : Option (List String))
    → parse_intents h epoch raw ≡ ok parsed
    → Sure (All Filed) (requested h parsed names)
parsed-Filed h epoch raw parsed names e =
    requested-Filed h parsed names
      (Sure-ok (All Filed) _ parsed e (parse_intents-Filed h epoch raw))

parse_leaderboards-Filed :
    (h : Host) (payload : Value) (names : Option (List String))
    → Sure (All Filed) (parse_leaderboards h payload names)
unfolding parse_leaderboards
parse_leaderboards-Filed h payload names =
    search (Sure-bind (All Filed), Sure-guard (All Filed), parsed-Filed) depth 24

parse_leaderboard-Filed :
    (h : Host) (payload : Value) (intent : String)
    → Sure (λ b. Filed (intent, b)) (parse_leaderboard h payload (some intent))
unfolding parse_leaderboard
parse_leaderboard-Filed h payload intent =
    Sure-bind (λ b. Filed (intent, b)) (parse_leaderboards h payload (some (intent ∷ []))) _
      (λ boards e.
        board_of-Filed intent boards (
          Sure-ok (All Filed) _ boards e (parse_leaderboards-Filed h payload (some (intent ∷ [])))))

-- The leaderboard that `parse_leaderboard` returns for an intent is that intent's, its entries stand by
-- rank with positive ranks, scores between 0 and 1 and no slug twice, and its leader is one of them,
-- active, with a score that no active entry exceeds, and is missing only if no entry is active.
pub parse_leaderboard-IsRanked :
    (h : Host) (payload : Value) (intent : String) (b : Leaderboard)
    → parse_leaderboard h payload (some intent) ≡ ok b
    → (b.intent ≡ intent) × IsRanked b.entries × Leads (leader b) b.entries
parse_leaderboard-IsRanked h payload intent b e =
    let (named, ranked) =
      Sure-ok (λ b. Filed (intent, b)) _ b e (parse_leaderboard-Filed h payload intent) in
    (named, ranked, leader-Leads b)
