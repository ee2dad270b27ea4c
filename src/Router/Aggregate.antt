-- ===== src/Router/Aggregate.antt =====
-- The weighted aggregate of src/oathcast/application.py: it lies where the probabilities lie.
use native.Mathlib.Nat.{
  mul-le-mul, mul-add, div-add-mod', mod-lt, le_of_mul-le-mul_right, lt_of_mul-lt-mul_right,
  eq-or-lt_of_le,
}
use oathcast.Prelude.Exec.{Result, ok, err, Sure, Sure-ok}
use oathcast.Router.Paying.{CallFault}
use oathcast.Router.Reply.{Reply}
use oathcast.Router.Decide.{capability_of, weight_of, weighed, weighted, is_empty, aggregate_of}
use oathcast.Prelude.{
  ℕ, ◌<◌, List, ◌≡◌, ◌*◌, ◌≤◌, arith, Option, All, some, ◌∷◌, none, [], refl, false, ◌/◌, ◌+◌, inr,
  inl, ◌%◌, ap,
}
use oathcast.Json.Numbers.{round_div}
use oathcast.Discovery.Miner.{Capability}

-- Every reply has a probability of at least, or at most, n ten-thousandths.
abbrev pub AtLeast : ℕ → Reply → Type 0
AtLeast n r = (p : ℕ) → r.probability ≡ some p → n * 10000 ≤ p

abbrev pub AtMost : ℕ → Reply → Type 0
AtMost n r = (p : ℕ) → r.probability ≡ some p → p ≤ n * 10000

-- The same of the sums of the loop.
abbrev Low : ℕ → ℕ × ℕ → Type 0
Low n s = n * 10000 * s.1 ≤ s.0

abbrev High : ℕ → ℕ × ℕ → Type 0
High n s = s.0 ≤ n * 10000 * s.1

weight_of-positive : (cap : Capability) → 0 < weight_of cap
weight_of-positive cap = ground arith

self-le : (n : ℕ) → n ≤ n
self-le n = omega arith

weighed-Low :
    (n : ℕ) (cap : Option Capability) (p : Option ℕ) (s : ℕ × ℕ)
    → ((q : ℕ) → p ≡ some q → n * 10000 ≤ q)
    → Low n s
    → Sure (λ s'. Low n s' × (0 < s'.1)) (weighed cap p s)
weighed-Low n none p s h k = tt
weighed-Low n (some cap) none s h k = tt
weighed-Low n (some cap) (some p) (t, w) h k =
    let step : n * 10000 * weight_of cap ≤ p * weight_of cap =
      mul-le-mul (h p refl) (self-le (weight_of cap)) in
    (
      omega (arith, mul-add (n * 10000) w (weight_of cap), step, k),
      omega (arith, weight_of-positive cap),
    )

weighed-High :
    (n : ℕ) (cap : Option Capability) (p : Option ℕ) (s : ℕ × ℕ)
    → ((q : ℕ) → p ≡ some q → q ≤ n * 10000)
    → High n s
    → Sure (λ s'. High n s' × (0 < s'.1)) (weighed cap p s)
weighed-High n none p s h k = tt
weighed-High n (some cap) none s h k = tt
weighed-High n (some cap) (some p) (t, w) h k =
    let step : p * weight_of cap ≤ n * 10000 * weight_of cap =
      mul-le-mul (h p refl) (self-le (weight_of cap)) in
    (
      omega (arith, mul-add (n * 10000) w (weight_of cap), step, k),
      omega (arith, weight_of-positive cap),
    )

-- A property of the sums that every step keeps holds after the loop.
module _ (caps : List Capability) (P : ℕ × ℕ → Type 0) (Fine : Reply → Type 0)
    (step : (r : Reply) (s : ℕ × ℕ)
      → Fine r
      → P s
      → Sure (λ s'. P s' × (0 < s'.1)) (weighed (capability_of r.slug caps) r.probability s)) where
  Positive : ℕ × ℕ → Type 0
  Positive s = P s × (0 < s.1)

  weighted-next :
      (rs : List Reply) (o : Result CallFault (ℕ × ℕ))
      → Sure Positive o
      → ((s : ℕ × ℕ) → Positive s → Sure Positive (weighted caps s rs))
      → Sure Positive
          (elim o as (λ _. Result CallFault (ℕ × ℕ)) [ err e ↦ err e | ok s ↦ weighted caps s rs ])
  weighted-next rs (ok s) p k = k s p
  weighted-next rs (err e) p k = tt

  weighted-more :
      (rs : List Reply) (s : ℕ × ℕ) → All Fine rs → Positive s → Sure Positive (weighted caps s rs)
  unfolding weighted Positive
  weighted-more [] s f p = p
  weighted-more (r ∷ rs) s f p =
      weighted-next rs (weighed (capability_of r.slug caps) r.probability s) (step r s f.0 p.0)
        (λ s' p'. weighted-more rs s' f.1 p')

  weighted-Positive :
      (rs : List Reply) (s : ℕ × ℕ)
      → is_empty rs ≡ false
      → All Fine rs
      → P s
      → Sure Positive (weighted caps s rs)
  unfolding weighted Positive
  weighted-Positive [] s e f p = ground (arith, e)
  weighted-Positive (r ∷ rs) s e f p =
      weighted-next rs (weighed (capability_of r.slug caps) r.probability s) (step r s f.0 p)
        (λ s' p'. weighted-more rs s' f.1 p')

round_div-low : (t d n : ℕ) → 0 < d → n * d ≤ t → n ≤ round_div t d
unfolding round_div
round_div-low t d n positive h =
    let lower : n * d < (t / d + 1) * d = omega (arith, div-add-mod' t d, mod-lt t positive, h) in
    ground (arith, lt_of_mul-lt-mul_right d lower)

round_div-high : (t d n : ℕ) → 0 < d → t ≤ n * d → round_div t d ≤ n
unfolding round_div
round_div-high t d n positive h =
    let upper : t / d * d ≤ n * d = omega (arith, div-add-mod' t d, h) in
    let q : t / d ≤ n = le_of_mul-le-mul_right upper positive in
    elim (eq-or-lt_of_le q) [
      | inr below ↦ ground (arith, below)
      | inl same ↦
          let exact : t % d ≡ 0 = omega (arith, div-add-mod' t d, h, ap (λ q. q * d) same) in
          ground (arith, exact, q, positive)
    ]

Low-aggregate : (s : ℕ × ℕ) (n : ℕ) → Low n s × (0 < s.1) → n ≤ aggregate_of s
Low-aggregate (t, w) n (low, positive) =
    round_div-low t (w * 10000) n (omega (arith, positive)) (omega (arith, low))

High-aggregate : (s : ℕ × ℕ) (n : ℕ) → High n s × (0 < s.1) → aggregate_of s ≤ n
High-aggregate (t, w) n (high, positive) =
    round_div-high t (w * 10000) n (omega (arith, positive)) (omega (arith, high))

-- The aggregate of at least one reply is no less than any whole number of ten-thousandths that all their
-- probabilities reach, and no more than any that none exceeds.
abbrev pub Between : List Reply → ℕ → Type 0
Between rs a = ((n : ℕ) → All (AtLeast n) rs → n ≤ a) × ((n : ℕ) → All (AtMost n) rs → a ≤ n)

pub weighted-Between :
    (caps : List Capability) (rs : List Reply) (s : ℕ × ℕ)
    → is_empty rs ≡ false
    → weighted caps (0, 0) rs ≡ ok s
    → Between rs (aggregate_of s)
unfolding Positive
weighted-Between caps rs s some_valid e = (
  λ n h. Low-aggregate s n (
      Sure-ok (λ s. Low n s × (0 < s.1)) _ s e
        (weighted-Positive caps (Low n) (AtLeast n)
          (λ r s f low. weighed-Low n (capability_of r.slug caps) r.probability s f low) rs (0, 0)
          some_valid h (omega arith))),
  λ n h. High-aggregate s n (
      Sure-ok (λ s. High n s × (0 < s.1)) _ s e
        (weighted-Positive caps (High n) (AtMost n)
          (λ r s f high. weighed-High n (capability_of r.slug caps) r.probability s f high) rs
          (0, 0) some_valid h (omega arith))),
)
