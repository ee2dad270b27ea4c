-- ===== src/Prelude/Checked.antt =====
-- Functions that return a value or raise, with no state: the do blocks of `Result`.
use mathlib.Core.Path.{◌≡◌, refl}
use mathlib.Core.Bool.{Bool, true, false}
use oathcast.Prelude.Exec.{Result, ok, err, Sure}

module _ {E : Type 0} where
  -- if not test: raise e
  abbrev pub guard : Bool → E → Result E (Unit {0})
  guard true e = ok tt
  guard false e = err e

module _ {E A B : Type 0} where
  infixl 5 ◌>>=◌ ◌>>◌
  abbrev pub ◌>>=◌ : Result E A → (A → Result E B) → Result E B
  ok a >>= f = f a
  err e >>= f = err e

  abbrev pub ◌>>◌ : Result E A → Result E B → Result E B
  ok a >> k = k
  err e >> k = err e

  -- The rest of a block may use that what came before returned.
  pub Sure-bind :
      (P : B → Type 0) (r : Result E A) (f : A → Result E B)
      → ((a : A) → r ≡ ok a → Sure P (f a))
      → Sure P (r >>= f)
  Sure-bind P (ok a) f k = k a refl
  Sure-bind P (err e) f k = tt

  pub Sure-then :
      (P : B → Type 0) (r : Result E A) (k : Result E B)
      → ((a : A) → r ≡ ok a → Sure P k)
      → Sure P (r >> k)
  Sure-then P (ok a) k f = f a refl
  Sure-then P (err e) k f = tt

module _ {E A : Type 0} where
  pub Sure-guard :
      (P : A → Type 0) (b : Bool) (e : E) (k : Result E A)
      → (b ≡ true → Sure P k)
      → Sure P (guard b e >> k)
  Sure-guard P true e k f = f refl
  Sure-guard P false e k f = tt
