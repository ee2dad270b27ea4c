-- ===== src/Prelude/Keyed.antt =====
-- A table with a primary key, in the order of insertion: the row that a test picks, and INSERT OR
-- IGNORE, which adds a row unless one with its key is there.
use mathlib.Core.Path.{◌≡◌, refl, sym, ◌∙◌}
use mathlib.Core.Logic.{inl, inr}
use mathlib.Core.Bool.{Bool, true}
use mathlib.Core.Option.{Option, none, some}
use mathlib.Core.List.{List, [], ◌∷◌, ◌++◌}
use native.Mathlib.Omega.{arith}
use oathcast.Prelude.Tests.{if◌then◌else◌, is_some, Bool-cases}
use oathcast.Prelude.{◌⊎◌, Option-cases}

module _ {R : Type 0} where
  -- SELECT … WHERE …
  abbrev pub find : (R → Bool) → List R → Option R
  find p [] = none
  find p (r ∷ rs) = if p r then some r else find p rs

  -- INSERT OR IGNORE, `p` the test for the row's key
  abbrev pub insert_or_ignore : (R → Bool) → R → List R → List R
  insert_or_ignore p r rs = if is_some (find p rs) then rs else rs ++ r ∷ []

  -- UPDATE … WHERE …
  abbrev pub update : (R → Bool) → (R → R) → List R → List R
  update p f [] = []
  update p f (r ∷ rs) = (if p r then f r else r) ∷ update p f rs

  -- The later table has the earlier one's rows, then others.
  abbrev pub Extends : List R → List R → Type 0
  Extends rs rs' = (new : List R) × (rs' ≡ rs ++ new)

  pub append_nil : (rs : List R) → rs ≡ rs ++ []
  append_nil [] = refl
  append_nil (r ∷ rs) = λ i. r ∷ append_nil rs i

  append_append : (t u v : List R) → (t ++ u) ++ v ≡ t ++ (u ++ v)
  append_append [] u v = refl
  append_append (r ∷ t) u v = λ i. r ∷ append_append t u v i

  pub Extends-refl : (t : List R) → Extends t t
  Extends-refl t = ([], append_nil t)

  pub Extends-trans : (t u v : List R) → Extends t u → Extends u v → Extends t v
  Extends-trans t u v (a, e) (b, f) = (a ++ b, rw (f, e) (append_append t a b))

  pub insert_or_ignore-Extends :
      (p : R → Bool) (r : R) (rs : List R) → Extends rs (insert_or_ignore p r rs)
  insert_or_ignore-Extends p r rs = elim (Bool-cases (is_some (find p rs))) [
    | inl e ↦ rw e (Extends-refl rs)
    | inr e ↦ rw e (r ∷ [], refl)
  ]

  pub find-append_some :
      (p : R → Bool) (r : R) (rs new : List R) → find p rs ≡ some r → find p (rs ++ new) ≡ some r
  find-append_some p r [] new h = ground arith
  find-append_some p r (s ∷ rs) new h = ground (arith, find-append_some p r rs new)

  pub find-append_none :
      (p : R → Bool) (rs new : List R) → find p rs ≡ none → find p (rs ++ new) ≡ find p new
  find-append_none p [] new h = refl
  find-append_none p (s ∷ rs) new h = ground (arith, find-append_none p rs new)

  -- After the insertion the row with the key is the one that was there, or the new one.
  pub find-insert_or_ignore_found :
      (p q : R → Bool) (r s : R) (rs : List R)
      → find q rs ≡ some s
      → find q (insert_or_ignore p r rs) ≡ some s
  find-insert_or_ignore_found p q r s rs h = elim (Bool-cases (is_some (find p rs))) [
    | inl e ↦ rw e h
    | inr e ↦ rw e (find-append_some q s rs (r ∷ []) h)
  ]

  pub find-insert_or_ignore_new :
      (p : R → Bool) (r : R) (rs : List R)
      → find p rs ≡ none
      → p r ≡ true
      → find p (insert_or_ignore p r rs) ≡ some r
  find-insert_or_ignore_new p r rs h e = rw (h, find-append_none p rs (r ∷ []) h, e) refl

  pub find-update :
      (p q : R → Bool) (f : R → R) (rs : List R)
      → ((r : R) → q (f r) ≡ q r)
      → find q (update p f rs)
        ≡ elim (find q rs) [ none ↦ none | some r ↦ some (if p r then f r else r) ]
  find-update p q f [] h = refl
  find-update p q f (r ∷ rs) h = ground (arith, find-update p q f rs h, h r)

  -- The row that is found passes the test.
  pub find-passes : (p : R → Bool) (r : R) (rs : List R) → find p rs ≡ some r → p r ≡ true
  find-passes p r [] h = ground arith
  find-passes p r (s ∷ rs) h = ground (arith, find-passes p r rs)

  -- A row that is found after an insertion was there before, or is the new one.
  pub found-insert_or_ignore :
      (p q : R → Bool) (r s : R) (rs : List R)
      → find q (insert_or_ignore p r rs) ≡ some s
      → (find q rs ≡ some s) ⊎ ((find q rs ≡ none) × (s ≡ r))
  found-insert_or_ignore p q r s rs h = elim (Option-cases (find q rs)) [
    | inl absent ↦ ground (arith, h, absent, find-append_none q rs (r ∷ []))
    | inr (t, e) ↦ inl (e ∙ sym (find-insert_or_ignore_found p q r t rs e) ∙ h)
  ]
