-- ===== src/Cases/Keeps.antt =====
-- Rules for actions on the case store that only let it grow, each from a precondition that lasts.
use oathcast.Prelude.{Bool, true, false}
use oathcast.Prelude.Exec.{
  Result, ok, err, pure, raise, lift, gets, modify, raise_if, transaction, commit_or_rollback,
  continue, ◌>>=◌, ◌>>◌,
}
use oathcast.Cases.Store.{Error, Store, Cases}
use oathcast.Cases.Later.{Later, Later-refl, Later-trans, IsOrdered}

abbrev pub Grows : Store → Store → Type 0
Grows s s' = Later s s' × IsOrdered s'

module _ (pre : Store → Type 0) (lasts : (s s' : Store) → pre s → Later s s' → pre s') where
  -- From an ordered store with the precondition an action leads to a later one, ordered too, whether
  -- it returns or raises.
  pub record Keeps {A : Type 0} (m : Cases A) : Type 0 where
    pub at : (s : Store) → IsOrdered s → pre s → Grows s (m s).1

  pub Keeps-pure : {A : Type 0} (a : A) → Keeps (pure a)
  Keeps-pure a = record { at = λ s o _. (Later-refl s, o) }

  pub Keeps-raise : {A : Type 0} (e : Error) → Keeps {A = A} (raise e)
  Keeps-raise e = record { at = λ s o _. (Later-refl s, o) }

  pub Keeps-lift : {A : Type 0} (r : Result Error A) → Keeps (lift r)
  Keeps-lift r = record { at = λ s o _. (Later-refl s, o) }

  pub Keeps-gets : {A : Type 0} (f : Store → A) → Keeps (gets f)
  Keeps-gets f = record { at = λ s o _. (Later-refl s, o) }

  pub Keeps-raise_if : (b : Bool) (e : Error) → Keeps (raise_if b e)
  Keeps-raise_if true e = record { at = λ s o _. (Later-refl s, o) }
  Keeps-raise_if false e = record { at = λ s o _. (Later-refl s, o) }

  pub Keeps-modify :
      (f : Store → Store) → ((s : Store) → IsOrdered s → pre s → Grows s (f s)) → Keeps (modify f)
  Keeps-modify f h = record { at = h }

  rolled_back :
      {A : Type 0} (s s' : Store) (r : Result Error A)
      → IsOrdered s
      → Grows s s'
      → Grows s (commit_or_rollback s (r, s')).1
  rolled_back s s' (ok a) o g = g
  rolled_back s s' (err e) o g = (Later-refl s, o)

  pub Keeps-transaction : {A : Type 0} (m : Cases A) → Keeps m → Keeps (transaction m)
  Keeps-transaction m k = record { at = λ s o p. rolled_back s (m s).1 (m s).0 o (k.at s o p) }

  continued :
      {A B : Type 0} (r : Result Error A) (s t : Store) (f : A → Cases B)
      → ((a : A) → Keeps (f a))
      → pre s
      → Grows s t
      → Grows s (continue r f t).1
  continued (ok a) s t f kf p g =
      let (l, o) = (kf a).at t g.1 (lasts s t p g.0) in (Later-trans s t (f a t).1 g.0 l, o)
  continued (err e) s t f kf p g = g

  pub Keeps-bind :
      {A B : Type 0} (m : Cases A) (f : A → Cases B)
      → Keeps m
      → ((a : A) → Keeps (f a))
      → Keeps (m >>= f)
  Keeps-bind m f km kf = record { at = λ s o p. continued (m s).0 s (m s).1 f kf p (km.at s o p) }

  pub Keeps-then : {A B : Type 0} (m : Cases A) (k : Cases B) → Keeps m → Keeps k → Keeps (m >> k)
  Keeps-then m k km kk = record {
    at = λ s o p. continued (m s).0 s (m s).1 (λ _. k) (λ _. kk) p (km.at s o p);
  }

pub ruleset keeps_rules = (
  Keeps-pure, Keeps-raise, Keeps-lift, Keeps-gets, Keeps-raise_if, Keeps-transaction, Keeps-bind,
  Keeps-then, Keeps-modify,
)
