-- ===== src/Probability/Depth.antt =====
-- How deep `extract_probability` of src/oathcast/probability.py follows a value.
use oathcast.Json.{
  Value, Items, Fields, Host, get_or, null, items, as_object, field, cons, array, object, boolean,
  nil, number, real, end, text,
}
use oathcast.Probability.Extract.{
  in_text, first_in, nested, found_or, keyed_or, extract, nested_keys, choices_of,
}
use oathcast.Prelude.{
  String, ℕ, Option, ◌≡◌, ◌≤◌, some, List, arith, All, suc, Option-cases, none, All-append, ◌∷◌,
  inl, refl, Bool-cases, map, ap, inr, [], ◌==◌, if◌then◌else◌, ltb,
}
use Prim.Native.Nat.{zero}

abbrev deeper : ℕ → ℕ → ℕ
deeper a b = if ltb a b then b else a

deeper-ge : (a b : ℕ) → (a ≤ deeper a b) × (b ≤ deeper a b)
deeper-ge a b = ground arith

-- How deep objects are nested in a value.
unfoldable mutual
  pub depth : Value → ℕ
  depth null = 0
  depth (boolean b) = 0
  depth (number n) = 0
  depth (real r) = 0
  depth (text s) = 0
  depth (array vs) = depth_items vs
  depth (object fs) = suc (depth_fields fs)

  pub depth_items : Items → ℕ
  depth_items nil = 0
  depth_items (cons v vs) = deeper (depth v) (depth_items vs)

  pub depth_fields : Fields → ℕ
  depth_fields end = 0
  depth_fields (field k v fs) = deeper (depth v) (depth_fields fs)

depth-get_or : (key : String) (fs : Fields) → depth (get_or key null fs) ≤ depth_fields fs
unfolding depth
depth-get_or key end = omega arith
depth-get_or key (field k v fs) = elim (Bool-cases (k == key)) [
  | inl e ↦ rw (get_or, e) (deeper-ge (depth v) (depth_fields fs)).0
  | inr e ↦
      rw (get_or, e) (omega (arith, depth-get_or key fs, deeper-ge (depth v) (depth_fields fs)))
]

abbrev pub Shallow : ℕ → Value → Type 0
Shallow n v = depth v ≤ n

items-Shallow : (n : ℕ) (vs : Items) → depth_items vs ≤ n → All (Shallow n) (items vs)
unfolding depth
items-Shallow n nil h = tt
items-Shallow n (cons v vs) h = (
  omega (arith, h, deeper-ge (depth v) (depth_items vs)),
  items-Shallow n vs (omega (arith, h, deeper-ge (depth v) (depth_items vs))),
)

choices_of-Shallow : (n : ℕ) (v : Value) → depth v ≤ n → All (Shallow n) (choices_of v)
unfolding depth
choices_of-Shallow n (array vs) h = items-Shallow n vs h
choices_of-Shallow n null h = tt
choices_of-Shallow n (boolean b) h = tt
choices_of-Shallow n (number m) h = tt
choices_of-Shallow n (real r) h = tt
choices_of-Shallow n (text s) h = tt
choices_of-Shallow n (object fs) h = tt

pub nested-Shallow : (n : ℕ) (fs : Fields) → depth_fields fs ≤ n → All (Shallow n) (nested fs)
nested-Shallow n fs h =
    All-append (Shallow n) (map (λ key. get_or key null fs) nested_keys)
      (choices_of (get_or "choices" null fs))
      (at "data", (at "result", (at "forecast", (at "prediction", (at "output", tt)))))
      (choices_of-Shallow n _ (at "choices"))
  where
    at : (key : String) → depth (get_or key null fs) ≤ n
    at key = omega (arith, depth-get_or key fs, h)

-- A search that ends.
abbrev pub Ends : Option (Option ℕ) → Type 0
Ends o = (r : Option ℕ) × (o ≡ some r)

first_in-step :
    (visit : Value → Option (Option ℕ)) (v : Value) (vs : List Value)
    → Ends (visit v)
    → Ends (first_in visit vs)
    → Ends (first_in visit (v ∷ vs))
unfolding first_in
first_in-step visit v vs (none, e) rest = rw (first_in, e) rest
first_in-step visit v vs (some p, e) rest = rw (first_in, e) (some p, refl)

first_in-Ends :
    (visit : Value → Option (Option ℕ)) (vs : List Value)
    → All (λ v. Ends (visit v)) vs
    → Ends (first_in visit vs)
unfolding first_in
first_in-Ends visit [] h = (none, refl)
first_in-Ends visit (v ∷ vs) h = first_in-step visit v vs h.0 (first_in-Ends visit vs h.1)

All-map-Ends :
    (n : ℕ) (visit : Value → Option (Option ℕ)) (vs : List Value)
    → ((v : Value) → depth v ≤ n → Ends (visit v))
    → All (Shallow n) vs
    → All (λ v. Ends (visit v)) vs
All-map-Ends n visit [] f h = tt
All-map-Ends n visit (v ∷ vs) f h = (f v h.0, All-map-Ends n visit vs f h.1)

found_or-Ends : (o : Option (Option ℕ)) (r : Option ℕ) → Ends o → Ends (found_or o r)
found_or-Ends o r (none, e) = rw e (r, refl)
found_or-Ends o r (some p, e) = rw e (some p, refl)

keyed_or-Ends : (k : Option ℕ) (o : Option (Option ℕ)) → Ends o → Ends (keyed_or k o)
keyed_or-Ends none o h = h
keyed_or-Ends (some p) o h = (some p, refl)

pub depth-as_object :
    (v : Value) (fs : Fields) → as_object v ≡ some fs → depth v ≡ suc (depth_fields fs)
unfolding depth
depth-as_object (object gs) fs e = ap (λ o. elim o [ some hs ↦ suc (depth_fields hs) | none ↦ 0 ]) e
depth-as_object null fs e = cc
depth-as_object (boolean b) fs e = cc
depth-as_object (number m) fs e = cc
depth-as_object (real r) fs e = cc
depth-as_object (text s) fs e = cc
depth-as_object (array vs) fs e = cc

pub extract-Ends :
    (fuel : ℕ) (h : Host) (v : Value) (t : Option String)
    → depth v ≤ fuel
    → Ends (extract fuel h v t)
unfolding extract
extract-Ends zero h v t le = elim (Option-cases (as_object v)) [
  | inl e ↦ rw (extract, e) (in_text h v t, refl)
  | inr (fs, e) ↦ ground (arith, depth-as_object v fs e, le)
]
extract-Ends (suc fuel) h v t le = elim (Option-cases (as_object v)) [
  | inl e ↦ rw (extract, e) (in_text h v t, refl)
  | inr (fs, e) ↦
      let visit : (Value → Option (Option ℕ)) = λ w. extract fuel h w none in
      let inner =
        All-map-Ends fuel visit (nested fs) (λ w shallow. extract-Ends fuel h w none shallow)
          (nested-Shallow fuel fs (omega (arith, depth-as_object v fs e, le))) in
      rw (extract, e)
        (keyed_or-Ends _ _
          (found_or-Ends _ (in_text h v t) (first_in-Ends visit (nested fs) inner)))
]
