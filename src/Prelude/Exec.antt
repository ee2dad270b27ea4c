-- ===== src/Prelude/Exec.antt =====
-- A Python method that changes a store and may raise. What was written before a raise stays written,
-- so the state comes back beside the error too; `transaction` is the `except: rollback; raise` that
-- the stores put round their SQL.
use mathlib.Core.Path.{◌≡◌, refl, subst}
use oathcast.Prelude.Tests.{if◌then◌else◌}
use mathlib.Core.Bool.{Bool, true, false}
use mathlib.Core.Logic.{◌⊎◌, inl, inr}

pub data Result (E : Type 0) (A : Type 0) : Type 0 where
  ok : A → Result E A
  err : E → Result E A

abbrev pub Exec : Type 0 → Type 0 → Type 0 → Type 0
Exec S E A = S → Result E A × S

module _ {S E A : Type 0} where
  abbrev pub pure : A → Exec S E A
  pure a s = (ok a, s)

  abbrev pub raise : E → Exec S E A
  raise e s = (err e, s)

  abbrev pub lift : Result E A → Exec S E A
  lift r s = (r, s)

  abbrev pub gets : (S → A) → Exec S E A
  gets f s = (ok (f s), s)

  abbrev pub commit_or_rollback : S → Result E A × S → Result E A × S
  commit_or_rollback s (ok a, s') = (ok a, s')
  commit_or_rollback s (err e, s') = (err e, s)

  -- BEGIN IMMEDIATE … commit, with a rollback of all writes when the block raises.
  abbrev pub transaction : Exec S E A → Exec S E A
  transaction m s = commit_or_rollback s (m s)

module _ {S E : Type 0} where
  abbrev pub modify : (S → S) → Exec S E (Unit {0})
  modify f s = (ok tt, f s)

  abbrev pub raise_if : Bool → E → Exec S E (Unit {0})
  raise_if true e s = (err e, s)
  raise_if false e s = (ok tt, s)

module _ {S E A B : Type 0} where
  abbrev pub continue : Result E A → (A → Exec S E B) → Exec S E B
  continue (ok a) f s = f a s
  continue (err e) f s = (err e, s)

  infixl 5 ◌>>=◌ ◌>>◌
  abbrev pub ◌>>=◌ : Exec S E A → (A → Exec S E B) → Exec S E B
  ◌>>=◌ m f s = continue (m s).0 f (m s).1

  abbrev pub ◌>>◌ : Exec S E A → Exec S E B → Exec S E B
  ◌>>◌ m k s = continue (m s).0 (λ _. k) (m s).1

module _ {E A : Type 0} where
  pub Result-cases : (r : Result E A) → ((a : A) × (r ≡ ok a)) ⊎ ((e : E) × (r ≡ err e))
  Result-cases (ok a) = inl (a, refl)
  Result-cases (err e) = inr (e, refl)

  abbrev pub IsOk : Result E A → Type 0
  IsOk (ok a) = Unit
  IsOk (err e) = ⊥

-- A raise leaves the state as it was.
module _ {S E A : Type 0} where
  abbrev pub Unchanged : S → Result E A × S → Type 0
  Unchanged s (ok a, s') = Unit
  Unchanged s (err e, s') = s' ≡ s

-- A validator whose checks raise one after another.
module _ {E A : Type 0} (P : A → Type 0) where
  abbrev pub Sure : Result E A → Type 0
  Sure (ok a) = P a
  Sure (err e) = Unit

  -- What a check lets through has failed its test.
  pub Sure-if :
      (b : Bool) (e : E) (r : Result E A)
      → (b ≡ false → Sure r)
      → Sure (if◌then◌else◌ {A = Result E A} b (err e) r)
  Sure-if true e r f = tt
  Sure-if false e r f = f refl

  pub Sure-ok : (r : Result E A) (a : A) → r ≡ ok a → Sure r → P a
  Sure-ok r a e s = subst Sure e s

-- What holds of a value that a method returns and of the state then.
module _ {S E A : Type 0} (P : A → S → Type 0) where
  abbrev pub Yields : Result E A × S → Type 0
  Yields (ok a, s) = P a s
  Yields (err e, s) = Unit

  pub Yields-ok : (p : Result E A × S) (a : A) (s : S) → p ≡ (ok a, s) → Yields p → P a s
  Yields-ok p a s e y = subst Yields e y

module _ {S E A B : Type 0} (P : B → S → Type 0) where
  pub Yields-continue :
      (p : Result E A × S) (f : A → Exec S E B)
      → ((a : A) → p ≡ (ok a, p.1) → Yields P (f a p.1))
      → Yields P (continue p.0 f p.1)
  Yields-continue (ok a, s) f k = k a refl
  Yields-continue (err e, s) f k = tt

module _ {S E A : Type 0} (P : A → S → Type 0) where
  pub Yields-raise_if :
      (b : Bool) (e : E) (s : S) (m : Exec S E A)
      → (b ≡ false → Yields P (m s))
      → Yields P ((raise_if b e >> m) s)
  Yields-raise_if true e s m k = tt
  Yields-raise_if false e s m k = k refl

module _ {S E A : Type 0} (P Q : A → S → Type 0) where
  pub Yields-map :
      (p : Result E A × S) → ((a : A) (s : S) → P a s → Q a s) → Yields P p → Yields Q p
  Yields-map (ok a, s) f y = f a s y
  Yields-map (err e, s) f y = tt

module _ {S E A B : Type 0} where
  -- A block that returns has gone through its first statement.
  pub continue-ok :
      (p : Result E A × S) (f : A → Exec S E B) (b : B) (t : S)
      → continue p.0 f p.1 ≡ (ok b, t)
      → (a : A) × (p.0 ≡ ok a) × (f a p.1 ≡ (ok b, t))
  continue-ok (ok a, s) f b t e = (a, refl, e)
  continue-ok (err x, s) f b t e = cc
