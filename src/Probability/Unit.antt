-- ===== src/Probability/Unit.antt =====
-- What `extract_probability` of src/oathcast/probability.py returns is a probability.
use mathlib.Core.Path.{subst}
use oathcast.Json.{Value, Fields, Host, get_or, null, as_object}
use oathcast.Probability.Percent.{whole, unit_of, search_from, Percentage, part_of_one, in_range}
use oathcast.Probability.Extract.{
  normalized, normalize_probability_value, in_text, by_keys, first_in, nested, found_or, keyed_or,
  extract, extract_probability, amount, probability_keys, percent_probability_keys, text_or,
  content,
}
use oathcast.Prelude.{
  String, ℕ, Option, Bool, List, none, some, one_of, Option-cases, ◌∷◌, leb→le, ◌≡◌, ◌≤◌, true, leb,
  inl, both, false, [], if◌then◌else◌, not, inr, ◌*◌, suc, refl, arith, ◌==◌, ◌&&◌,
}
use oathcast.Sidecar.Text.{codes}
use Prim.Native.Nat.{zero}

-- No probability, or one between zero and one.
abbrev pub OptUnit : Option ℕ → Type 0
OptUnit none = Unit
OptUnit (some p) = p ≤ whole

abbrev pub InnerUnit : Option (Option ℕ) → Type 0
InnerUnit none = Unit
InnerUnit (some r) = OptUnit r

OptUnit-if :
    (b : Bool) (x y : Option ℕ) → (b ≡ true → OptUnit x) → OptUnit y → OptUnit (if b then x else y)
OptUnit-if true x y hx hy = hx refl
OptUnit-if false x y hx hy = hy

normalized-OptUnit : (key : String) (p : ℕ) → OptUnit (normalized key p)
normalized-OptUnit key p =
    OptUnit-if (one_of key percent_probability_keys) _ _
      (λ _. OptUnit-if (leb p whole) (some p) none (λ h. leb→le _ _ h) tt)
      (OptUnit-if (not (one_of key probability_keys)) none _ (λ _. tt)
        (OptUnit-if (leb p 1000000) (some (100 * p)) _ (λ h. omega (arith, leb→le p 1000000 h))
          (OptUnit-if (not (key == "probability") && leb p whole) (some p) none
            (λ h. leb→le _ _ (both _ _ h).1) tt)))

normalize-OptUnit : (v : Value) (key : String) → OptUnit (normalize_probability_value v key)
unfolding normalize_probability_value
normalize-OptUnit v key = elim (Option-cases (amount v)) [
  | inl e ↦ rw (normalize_probability_value, e) tt
  | inr (p, e) ↦ rw (normalize_probability_value, e) (normalized-OptUnit key p)
]

first-OptUnit :
    (o rest : Option ℕ)
    → OptUnit o
    → OptUnit rest
    → OptUnit (elim o as (λ _. Option ℕ) [ none ↦ rest | some p ↦ some p ])
first-OptUnit none rest h k = k
first-OptUnit (some p) rest h k = h

by_keys-OptUnit : (fs : Fields) (keys : List String) → OptUnit (by_keys fs keys)
unfolding by_keys
by_keys-OptUnit fs [] = tt
by_keys-OptUnit fs (key ∷ keys) =
    first-OptUnit (normalize_probability_value (get_or key null fs) key) (by_keys fs keys)
      (normalize-OptUnit (get_or key null fs) key) (by_keys-OptUnit fs keys)

unit_of-OptUnit : (p : Percentage) → OptUnit (unit_of p)
unfolding unit_of
unit_of-OptUnit p =
    OptUnit-if (leb (part_of_one p) whole && in_range p) (some (part_of_one p)) none
      (λ h. leb→le (part_of_one p) whole (both (leb (part_of_one p) whole) (in_range p) h).0) tt

in_text-OptUnit : (h : Host) (v : Value) (t : Option String) → OptUnit (in_text h v t)
unfolding in_text
in_text-OptUnit h v t = elim (Option-cases (search_from false (codes (text_or (content h v) t)))) [
  | inl e ↦ rw (in_text, e) tt
  | inr (p, e) ↦ rw (in_text, e) (unit_of-OptUnit p)
]

next-InnerUnit :
    (o rest : Option (Option ℕ))
    → InnerUnit o
    → InnerUnit rest
    → InnerUnit (elim o as (λ _. Option (Option ℕ)) [
      | none ↦ none
      | some none ↦ rest
      | some (some p) ↦ some (some p)
    ])
next-InnerUnit none rest h k = tt
next-InnerUnit (some none) rest h k = k
next-InnerUnit (some (some p)) rest h k = h

first_in-InnerUnit :
    (visit : Value → Option (Option ℕ)) (vs : List Value)
    → ((v : Value) → InnerUnit (visit v))
    → InnerUnit (first_in visit vs)
unfolding first_in
first_in-InnerUnit visit [] f = tt
first_in-InnerUnit visit (v ∷ vs) f =
    next-InnerUnit (visit v) (first_in visit vs) (f v) (first_in-InnerUnit visit vs f)

found_or-InnerUnit :
    (o : Option (Option ℕ)) (r : Option ℕ) → InnerUnit o → OptUnit r → InnerUnit (found_or o r)
found_or-InnerUnit none r h k = tt
found_or-InnerUnit (some none) r h k = k
found_or-InnerUnit (some (some p)) r h k = h

keyed_or-InnerUnit :
    (k : Option ℕ) (o : Option (Option ℕ)) → OptUnit k → InnerUnit o → InnerUnit (keyed_or k o)
keyed_or-InnerUnit none o hk ho = ho
keyed_or-InnerUnit (some p) o hk ho = hk

extract-InnerUnit :
    (fuel : ℕ) (h : Host) (v : Value) (t : Option String) → InnerUnit (extract fuel h v t)
unfolding extract
extract-InnerUnit zero h v t = elim (Option-cases (as_object v)) [
  | inl e ↦ rw (extract, e) (in_text-OptUnit h v t)
  | inr (fs, e) ↦ rw (extract, e) tt
]
extract-InnerUnit (suc fuel) h v t = elim (Option-cases (as_object v)) [
  | inl e ↦ rw (extract, e) (in_text-OptUnit h v t)
  | inr (fs, e) ↦
      let visit : (Value → Option (Option ℕ)) = λ w. extract fuel h w none in
      rw (extract, e)
        (keyed_or-InnerUnit _ _ (by_keys-OptUnit fs _) (
          found_or-InnerUnit _ _
            (first_in-InnerUnit visit (nested fs) (λ w. extract-InnerUnit fuel h w none))
            (in_text-OptUnit h v t)))
]

-- Whatever a Miner answers, a probability that is read off it lies between zero and one, under whatever
-- key and in whatever unit it was found.
pub extract_probability-unit :
    (h : Host) (v : Value) (t : Option String) (p : ℕ)
    → extract_probability h v t ≡ some (some p)
    → p ≤ whole
unfolding extract_probability
extract_probability-unit h v t p e = subst InnerUnit e (extract-InnerUnit h.recursion_limit h v t)
