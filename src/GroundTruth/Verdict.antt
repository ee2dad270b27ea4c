-- ===== src/GroundTruth/Verdict.antt =====
-- The result of `resolve_precipitation` of src/oathcast/ground_truth.py, by what the observation says.
use oathcast.Forecast.{Question, Draft, question_of}
use oathcast.GroundTruth.{
  Observation, precipitation_micrometres, is_negative, Reading, observation_of,
}
use oathcast.GroundTruth.Resolve.{issue_of, Truth, distance, resolved_truth, resolve_precipitation}
use oathcast.Json.Numbers.{round_div, round_div_ℤ}
use oathcast.Prelude.{
  if◌then◌else◌, String, ℕ, Option, ◌≡◌, Bool-cases, ◌≢◌, some, ◌*◌, ◌==◌, ◌≤◌, ◌<◌, none, inr, ◌⊎◌,
  arith, false, ◌+◌, eq_iff, inl, ltb, ltb→lt, eqb, refl, true,
}
use oathcast.Prelude.Int.{pos, ℤ, negsuc}
use oathcast.Json.{Host}
use oathcast.GroundTruth.Total.{
  verdict, Accepted, question_of-Accepted, Positive, observation_of-Positive,
  resolve_precipitation_lem,
}
use oathcast.Prelude.Moment.{Moment}
use oathcast.Prelude.Exec.{ok, Sure-ok}

-- The observation is of the question's event: its id, its place to within 100 millionths of a degree, its
-- hours, and made when they were over.
pub record IsAbout (q : Question) (o : Observation) : Type 0 where
  pub event_id : o.event_id ≡ q.event_id
  pub latitude : distance o.latitude q.latitude ≤ 100
  pub longitude : distance o.longitude q.longitude ≤ 100
  pub window_start : o.window_start ≡ q.horizon_start
  pub window_end : o.window_end ≡ q.horizon_end
  pub complete : q.horizon_end ≤ o.observed_at

-- The reasons why it is not.
pub data Mismatch (q : Question) (o : Observation) (issue : String) : Type 0 where
  other_event : issue ≡ "event_id_mismatch" → o.event_id ≢ q.event_id → Mismatch q o issue
  other_latitude :
      issue ≡ "latitude_mismatch" → 100 < distance o.latitude q.latitude → Mismatch q o issue
  other_longitude :
      issue ≡ "longitude_mismatch" → 100 < distance o.longitude q.longitude → Mismatch q o issue
  other_start :
      issue ≡ "window_start_mismatch" → o.window_start ≢ q.horizon_start → Mismatch q o issue
  other_end : issue ≡ "window_end_mismatch" → o.window_end ≢ q.horizon_end → Mismatch q o issue
  early :
      issue ≡ "observation_predates_event_end" → o.observed_at < q.horizon_end → Mismatch q o issue

-- Millionths of a millimetre, rounded to `m` micrometres, of which more than 100 are rain.
pub record IsMeasured (o : Observation) (t : Truth) : Type 0 where
  pub n : ℕ
  pub m : ℕ
  pub measured : o.precipitation_mm ≡ pos n
  pub micrometres : t.precipitation_micrometres ≡ some (pos m)
  pub rounded : (1000 * m ≤ n + 500) × (n ≤ 1000 * m + 500)
  pub outcome : ((t.outcome ≡ some (pos 1)) × (100 < m)) ⊎ ((t.outcome ≡ some (pos 0)) × (m ≤ 100))

pub record IsVerdict (q : Question) (o : Observation) (at : ℕ) (t : Truth) : Type 0 where
  pub event_id : t.event_id ≡ q.event_id
  pub observation_id : t.observation_id ≡ some o.observation_id
  pub resolved_at : t.resolved_at ≡ at
  pub decided :
      ((t.status ≡ "resolved") × (t.issue ≡ none) × IsAbout q o × IsMeasured o t)
      ⊎ ((t.status ≡ "invalid")
          × (t.outcome ≡ none)
          × ((issue : String) × (t.issue ≡ some issue) × Mismatch q o issue))

abbrev Issue : Question → Observation → Option String → Type 0
Issue q o none = IsAbout q o
Issue q o (some issue) = Mismatch q o issue

issue_of-Issue : (q : Question) (o : Observation) → Issue q o (issue_of q o)
unfolding issue_of
issue_of-Issue q o = elim (Bool-cases (o.event_id == q.event_id)) [
  | inr a ↦ rw a (other_event refl (λ e. ground (arith, a, e, eq_iff o.event_id q.event_id)))
  | inl a ↦ elim (Bool-cases (ltb 100 (distance o.latitude q.latitude))) [
    | inl b ↦ rw (a, b) (other_latitude refl (ltb→lt _ _ b))
    | inr b ↦ elim (Bool-cases (ltb 100 (distance o.longitude q.longitude))) [
      | inl c ↦ rw (a, b, c) (other_longitude refl (ltb→lt _ _ c))
      | inr c ↦ elim (Bool-cases (eqb o.window_start q.horizon_start)) [
        | inr d ↦ rw (a, b, c, d) (other_start refl (λ e. ground (arith, d, e)))
        | inl d ↦ elim (Bool-cases (eqb o.window_end q.horizon_end)) [
          | inr f ↦ rw (a, b, c, d, f) (other_end refl (λ e. ground (arith, f, e)))
          | inl f ↦ elim (Bool-cases (ltb o.observed_at q.horizon_end)) [
            | inl g ↦ rw (a, b, c, d, f, g) (early refl (ltb→lt _ _ g))
            | inr g ↦
                rw (a, b, c, d, f, g)
                  (record {
                    event_id = (eq_iff o.event_id q.event_id).0 a;
                    latitude = ground (arith, b);
                    longitude = ground (arith, c);
                    window_start = ground (arith, d);
                    window_end = ground (arith, f);
                    complete = ground (arith, g);
                  })
          ]
        ]
      ]
    ]
  ]
]

round_div-near : (n : ℕ) → (1000 * round_div n 1000 ≤ n + 500) × (n ≤ 1000 * round_div n 1000 + 500)
unfolding round_div
round_div-near n = ground arith

rain :
    (m : ℕ)
    → let outcome = some (if ltb (100 + 0) (m + 0) then pos 1 else pos 0) in
      ((outcome ≡ some (pos 1)) × (100 < m)) ⊎ ((outcome ≡ some (pos 0)) × (m ≤ 100))
rain m = elim (Bool-cases (ltb (100 + 0) (m + 0))) [
  | inl h ↦ rw h (inl (refl, ground (arith, h)))
  | inr h ↦ rw h (inr (refl, ground (arith, h)))
]

threshold_lem : round_div_ℤ (pos 100000) 1000 ≡ pos 100
unfolding round_div_ℤ round_div
threshold_lem = refl

micrometres_lem : (n : ℕ) → round_div_ℤ (pos n) 1000 ≡ pos (round_div n 1000)
unfolding round_div_ℤ
micrometres_lem n = refl

resolved-IsMeasured :
    (q : Question) (o : Observation) (at : ℕ) (mm : ℤ)
    → o.precipitation_mm ≡ mm
    → is_negative mm ≡ false
    → q.threshold_mm ≡ pos 100000
    → IsMeasured o (resolved_truth q o at)
unfolding precipitation_micrometres
resolved-IsMeasured q o at (negsuc n) e p t = ground (arith, p)
resolved-IsMeasured q o at (pos n) e p t = record {
  n = n;
  m = round_div n 1000;
  measured = e;
  micrometres = rw (e, micrometres_lem n) refl;
  rounded = round_div-near n;
  outcome = rw (e, t, threshold_lem, micrometres_lem n) (rain (round_div n 1000));
}

verdict-IsVerdict :
    (q : Question) (o : Observation) (at : ℕ) (found : Option String)
    → Issue q o found
    → is_negative o.precipitation_mm ≡ false
    → q.threshold_mm ≡ pos 100000
    → IsVerdict q o at (verdict q o at found)
verdict-IsVerdict q o at none about p t = record {
  event_id = refl;
  observation_id = refl;
  resolved_at = refl;
  decided = inl (refl, refl, about, resolved-IsMeasured q o at o.precipitation_mm refl p t);
}
verdict-IsVerdict q o at (some issue) mismatch p t = record {
  event_id = refl;
  observation_id = refl;
  resolved_at = refl;
  decided = inr (refl, refl, (issue, refl, mismatch));
}

-- An accepted question and an accepted observation, at a time with a timezone, always resolve. The result
-- is resolved if the observation is of the question's event, with outcome 1 if the precipitation, rounded
-- to micrometres, is above 100 of them, and else 0; otherwise it is invalid, with no outcome and with a
-- reason that holds.
pub resolve_precipitation-IsVerdict :
    (h : Host) (draft : Draft) (reading : Reading) (q : Question) (o : Observation) (now : Moment)
    → question_of h draft ≡ ok q
    → observation_of h reading ≡ ok o
    → now.aware ≡ true
    → (t : Truth) × (resolve_precipitation h q (some o) now ≡ ok t) × IsVerdict q o now.micros t
resolve_precipitation-IsVerdict h draft reading q o now e f aware =
    let a = Sure-ok (Accepted h) (question_of h draft) q e (question_of-Accepted h draft) in
    let p = Sure-ok Positive (observation_of h reading) o f (observation_of-Positive h reading) in
    (
      verdict q o now.micros (issue_of q o),
      resolve_precipitation_lem h draft reading q o now e f aware,
      verdict-IsVerdict q o now.micros (issue_of q o) (issue_of-Issue q o) p a.threshold,
    )
