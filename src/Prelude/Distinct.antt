-- ===== src/Prelude/Distinct.antt =====
-- Lists whose elements have different names.
use Prim.Native.String.{String}
use mathlib.Core.Path.{◌≡◌}
use mathlib.Core.Bool.{false}
use mathlib.Core.List.{List, [], ◌∷◌}
use native.Mathlib.Omega.{arith}
use text.Mathlib.Text.{◌==◌}
use oathcast.Prelude.Tests.{one_of}
use oathcast.Prelude.Lists.{All}

module _ {A : Type 0} (key : A → String) where
  -- No name stands twice.
  unfoldable pub Distinct : List A → Type 0
  Distinct [] = Unit
  Distinct (x ∷ xs) = All (λ y. (key y == key x) ≡ false) xs × Distinct xs

  -- Names that are not among more names are not among fewer.
  pub unseen-drop :
      (s : String) (seen : List String) (xs : List A)
      → All (λ x. one_of (key x) (s ∷ seen) ≡ false) xs
      → All (λ x. one_of (key x) seen ≡ false) xs × All (λ x. (key x == s) ≡ false) xs
  unseen-drop s seen [] a = (tt, tt)
  unseen-drop s seen (x ∷ xs) a =
      let (new, others) = unseen-drop s seen xs a.1 in
      ((ground (arith, a.0), new), (ground (arith, a.0), others))
