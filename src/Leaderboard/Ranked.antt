-- ===== src/Leaderboard/Ranked.antt =====
-- What a leaderboard of src/oathcast/leaderboard.py has been checked for, its order, and its leader.
use oathcast.Leaderboard.Entry.{Entry, insert_by_rank, sort_by_rank}
use oathcast.Prelude.{
  ℕ, ◌≤◌, List, ◌∷◌, All, ◌==◌, Bool-cases, arith, [], ◌≡◌, leb, false, inl, inr, leb→le, eq_iff,
}
use oathcast.Prelude.Distinct.{Distinct}

abbrev pub InRange : Entry → Type 0
InRange e = (1 ≤ e.rank) × (e.score ≤ 1000000)

-- By rank, ascending.
unfoldable pub Ascending : List Entry → Type 0
Ascending [] = Unit
Ascending (e ∷ es) = All (λ d. e.rank ≤ d.rank) es × Ascending es

pub record IsRanked (es : List Entry) : Type 0 where
  pub in_range : All InRange es
  pub ascending : Ascending es
  pub distinct : Distinct (λ e. e.slug) es

All-insert :
    (P : Entry → Type 0) (e : Entry) (es : List Entry)
    → P e
    → All P es
    → All P (insert_by_rank e es)
unfolding insert_by_rank
All-insert P e [] p a = (p, tt)
All-insert P e (d ∷ ds) p a = elim (Bool-cases (leb e.rank d.rank)) [
  | inl h ↦ rw h (p, a)
  | inr h ↦ rw h (a.0, All-insert P e ds p a.1)
]

below : (m n : ℕ) (ds : List Entry) → m ≤ n → All (λ d. n ≤ d.rank) ds → All (λ d. m ≤ d.rank) ds
below m n [] h a = tt
below m n (d ∷ ds) h a = (omega (arith, h, a.0), below m n ds h a.1)

insert-Ascending : (e : Entry) (es : List Entry) → Ascending es → Ascending (insert_by_rank e es)
unfolding insert_by_rank Ascending
insert-Ascending e [] a = (tt, tt)
insert-Ascending e (d ∷ ds) a = elim (Bool-cases (leb e.rank d.rank)) [
  | inl h ↦ rw h ((leb→le e.rank d.rank h, below e.rank d.rank ds (leb→le e.rank d.rank h) a.0), a)
  | inr h ↦
      rw h
        (All-insert (λ x. d.rank ≤ x.rank) e ds (ground (arith, h)) a.0, insert-Ascending e ds a.1)
]

insert-Distinct :
    (e : Entry) (es : List Entry)
    → All (λ d. (d.slug == e.slug) ≡ false) es
    → Distinct (λ e. e.slug) es
    → Distinct (λ e. e.slug) (insert_by_rank e es)
unfolding insert_by_rank Distinct
insert-Distinct e [] n u = (tt, tt)
insert-Distinct e (d ∷ ds) n u = elim (Bool-cases (leb e.rank d.rank)) [
  | inl h ↦ rw h (n, u)
  | inr h ↦ rw h (
    All-insert (λ x. (x.slug == d.slug) ≡ false) e ds
        (ground (arith, n.0, eq_iff e.slug d.slug, eq_iff d.slug e.slug)) u.0,
    insert-Distinct e ds n.1 u.1,
  )
]

All-sort : (P : Entry → Type 0) (es : List Entry) → All P es → All P (sort_by_rank es)
unfolding sort_by_rank
All-sort P [] a = tt
All-sort P (e ∷ es) a = All-insert P e (sort_by_rank es) a.0 (All-sort P es a.1)

pub sort-IsRanked :
    (es : List Entry) → All InRange es → Distinct (λ e. e.slug) es → IsRanked (sort_by_rank es)
unfolding sort_by_rank Distinct Ascending
sort-IsRanked [] a u = record { in_range = tt; ascending = tt; distinct = tt }
sort-IsRanked (e ∷ es) a u =
    let r = sort-IsRanked es a.1 u.1 in
    record {
      in_range = All-insert InRange e (sort_by_rank es) a.0 r.in_range;
      ascending = insert-Ascending e (sort_by_rank es) r.ascending;
      distinct =
          insert-Distinct e (sort_by_rank es) (All-sort (λ d. (d.slug == e.slug) ≡ false) es u.0)
            r.distinct;
    }
