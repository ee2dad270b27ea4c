-- ===== src/Demand/History.antt =====
-- Sequences of records of src/oathcast/demand.py, and what a row of the ledger stands for.
use oathcast.Prelude.{
  String, ◌==◌, Bool, true, false, not, ◌&&◌, Option, none, some, List, [], ◌∷◌, ◌≡◌, inl, inr,
  refl, arith, All, All-append, Bool-cases, eq_iff, eq_refl, one_of,
}
use oathcast.Prelude.Keyed.{find}
use oathcast.Prelude.Moment.{Moment}
use oathcast.Prelude.Exec.{
  Result, ok, err, Sure, Sure-if, Sure-ok, Exec, raise, Result-cases, commit_or_rollback, raise_if,
  pure, ◌>>◌,
}
use oathcast.Json.{Host, Value, object, null, text, boolean, number, real, array}
use oathcast.Json.Dumps.{dumps, sha256_json}
use oathcast.Demand.Event.{
  different_evidence, not_an_object, event_of, Error, Observed, Event, create, dated,
  is_local_candidate, status_within, event_dict, present,
}
use oathcast.Demand.Ledger.{
  Row, Table, of_demand, row_of, append, append_at, accept_replay, record_demand, verify_rows,
  is_replay,
}

-- What a local candidate is evidence of.
pub record Proven (e : Event) : Type 0 where
  pub transport : e.transport ≡ "telegraph"
  pub routed : e.routed_through_telegraph ≡ true
  pub source : e.source ≡ "application"
  pub genuine : e.is_fixture ≡ false
  pub verified : e.settlement_verification ≡ "verified"
  pub paid : one_of e.payment_status ("settled" ∷ "paid" ∷ []) ≡ true
  pub served : status_within 200 300 e.http_status ≡ true

abbrev pub Backed : Bool → Type 0 → Type 0
Backed true P = P
Backed false P = Unit

abbrev pub BackedEvent : Event → Type 0
BackedEvent e = Backed e.local_candidate (Proven e)

-- A row has the digest of its text, and is backed if it counts as a candidate.
pub record IsSound (h : Host) (r : Row) : Type 0 where
  pub digest : r.event_sha256 ≡ h.sha256 r.event_json
  pub backed : BackedEvent r.event

-- The records of a list of observations, of which some may raise.
unfoldable pub record_all : Host → List (Observed × Moment) → Table → Table
record_all h [] t = t
record_all h ((o, now) ∷ rs) t = record_all h rs (record_demand h o now t).1

module _ (h : Host) where
  backed_by : (b : Bool) (P : Type 0) → (b ≡ true → P) → Backed b P
  backed_by true P f = f refl
  backed_by false P f = tt

  -- The conditions of the predicate, one by one.
  conditions :
      (a b c d e f g v i : Bool)
      → (a && (b && (c && (d && (e && (f && (g && (v && i)))))))) ≡ true
      → (a ≡ true) × (b ≡ true) × (c ≡ true) × (d ≡ true) × (f ≡ true) × (v ≡ true) × (i ≡ true)
  conditions true true true true true true true true true p =
      (refl, refl, refl, refl, refl, refl, refl)
  conditions a b c d e f g v i p = ground (arith, p)

  candidate-Proven :
      (o : Observed) (at : String) → is_local_candidate o ≡ true → Proven (event_of h o at)
  unfolding is_local_candidate
  candidate-Proven o at e =
      let (t, r, s, g, p, v, w) =
        conditions (o.transport == "telegraph") o.routed_through_telegraph
          (o.source == "application") (not o.is_fixture) (present o.application_request_id)
          (one_of o.payment_status ("settled" ∷ "paid" ∷ []))
          (one_of o.payment_evidence ("x402_settlement" ∷ "supported_method_receipt" ∷ []))
          (o.settlement_verification == "verified") (status_within 200 300 o.http_status) e in
      record {
        transport = (eq_iff o.transport "telegraph").0 t;
        routed = r;
        source = (eq_iff o.source "application").0 s;
        genuine = ground (arith, g);
        verified = (eq_iff o.settlement_verification "verified").0 v;
        paid = p;
        served = w;
      }

  dated-Backed : (o : Observed) (at : Option String) → Sure BackedEvent (dated h o at)
  dated-Backed o none = tt
  dated-Backed o (some at) = backed_by (is_local_candidate o) _ (λ e. candidate-Proven o at e)

  create-Backed : (o : Observed) (now : Moment) → Sure BackedEvent (create h o now)
  unfolding create
  create-Backed o now = search (Sure-if BackedEvent, dated-Backed) depth 14

  row_of-IsSound : (e : Event) → BackedEvent e → IsSound h (row_of h e)
  unfolding row_of sha256_json
  row_of-IsSound e b = record { digest = refl; backed = b }

  checked-same :
      (b : Bool) (e : Error) (m : Exec Table Error Event) (t : Table)
      → (m t).1 ≡ t
      → ((raise_if b e >> m) t).1 ≡ t
  checked-same true e m t same = refl
  checked-same false e m t same = same

  accept_replay-same : (e : Event) (v : Option Value) (t : Table) → (accept_replay h e v t).1 ≡ t
  accept_replay-same e none t = refl
  accept_replay-same e (some (object stored)) t =
      checked-same (not (is_replay h e stored)) different_evidence (pure e) t refl
  accept_replay-same e (some null) t =
      checked-same (not (present e.payment_attempt_id)) different_evidence (raise not_an_object) t
        refl
  accept_replay-same e (some (boolean b)) t =
      checked-same (not (present e.payment_attempt_id)) different_evidence (raise not_an_object) t
        refl
  accept_replay-same e (some (number n)) t =
      checked-same (not (present e.payment_attempt_id)) different_evidence (raise not_an_object) t
        refl
  accept_replay-same e (some (real r)) t =
      checked-same (not (present e.payment_attempt_id)) different_evidence (raise not_an_object) t
        refl
  accept_replay-same e (some (text s)) t =
      checked-same (not (present e.payment_attempt_id)) different_evidence (raise not_an_object) t
        refl
  accept_replay-same e (some (array vs)) t =
      checked-same (not (present e.payment_attempt_id)) different_evidence (raise not_an_object) t
        refl

  append_found-same : (e : Event) (r : Row) (t : Table) → (append_at h e (some r) t).1 ≡ t
  append_found-same e r t = elim (Bool-cases (r.event_json == dumps h (object (event_dict e)))) [
    | inl same ↦ rw same refl
    | inr differs ↦ rw differs (accept_replay-same e (h.json_loads r.event_json) t)
  ]

  append_at-All :
      (e : Event) (row : Option Row) (t : Table)
      → find (of_demand e.demand_id) t ≡ row
      → BackedEvent e
      → All (IsSound h) t
      → All (IsSound h) (append_at h e row t).1
  append_at-All e none t absent b s =
      rw absent (All-append (IsSound h) t (row_of h e ∷ []) s (row_of-IsSound e b, tt))
  append_at-All e (some r) t found b s = rw (append_found-same e r t) s

  rolled_back-All :
      (t : Table) (p : Result Error Event × Table)
      → All (IsSound h) t
      → All (IsSound h) p.1
      → All (IsSound h) (commit_or_rollback t p).1
  rolled_back-All t (ok e, t') s s' = s'
  rolled_back-All t (err x, t') s s' = s

  append-All :
      (e : Event) (t : Table) → BackedEvent e → All (IsSound h) t → All (IsSound h) (append h e t).1
  unfolding append
  append-All e t b s =
      rolled_back-All t (append_at h e (find (of_demand e.demand_id) t) t) s
        (append_at-All e (find (of_demand e.demand_id) t) t refl b s)

  record_demand-All :
      (o : Observed) (now : Moment) (t : Table)
      → All (IsSound h) t
      → All (IsSound h) (record_demand h o now t).1
  unfolding record_demand
  record_demand-All o now t s = elim (Result-cases (create h o now)) [
    | inr (x, e) ↦ rw e s
    | inl (event, e) ↦
        rw e (
          append-All event t (Sure-ok BackedEvent (create h o now) event e (create-Backed o now)) s)
  ]

  record_all-All :
      (rs : List (Observed × Moment)) (t : Table)
      → All (IsSound h) t
      → All (IsSound h) (record_all h rs t)
  unfolding record_all
  record_all-All [] t s = s
  record_all-All ((o, now) ∷ rs) t s =
      record_all-All rs (record_demand h o now t).1 (record_demand-All o now t s)

  verify_rows-ok : (t : Table) → All (IsSound h) t → verify_rows h t ≡ ok tt
  unfolding verify_rows
  verify_rows-ok [] s = refl
  verify_rows-ok (r ∷ t) s = rw (s.0.digest, eq_refl (h.sha256 r.event_json)) (verify_rows-ok t s.1)

  -- After any sequence of records into an empty ledger, of which some may raise, every row passes the
  -- check of its digest, and every row that counts as a local candidate is of an application's request
  -- through Telegraph, no fixture, paid, verified and answered with a 2xx status.
  pub record_all-verified :
      (rs : List (Observed × Moment))
      → (verify_rows h (record_all h rs []) ≡ ok tt) × All (IsSound h) (record_all h rs [])
  record_all-verified rs =
      let sound = record_all-All rs [] tt in (verify_rows-ok (record_all h rs []) sound, sound)
