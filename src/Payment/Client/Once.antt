-- ===== src/Payment/Client/Once.antt =====
-- The invariant of the client, "at most one paid request for a URL has left, and if one has, the
-- journal blocks the URL", and a rule for each way to build an action.
use oathcast.Prelude.{
  ℕ, String, if◌then◌else◌, List, ◌≡◌, ◌==◌, ◌∷◌, ◌⊎◌, ◌+◌, Bool, [], inl, inr, true, refl, false,
}
use oathcast.Prelude.Exec.{Result, ok, err, ◌>>=◌, ◌>>◌, pure, raise, continue, raise_if}
use oathcast.Json.{Host}
use oathcast.Payment.Client.World.{
  ClientError, Sent, unpaid, paid, World, Client, on_journal, checked_by, try_except, rescue,
  journal_result,
}
use oathcast.Payment.Journal.History.{IsSound, perform, Call, perform-IsSound}
use oathcast.Payment.Journal.Methods.{Limits, Error}
use oathcast.Payment.Journal.Lifecycle.{IsSpent, status_of, Edge-IsSpent, perform-Edge}
use oathcast.Payment.Challenge.{ChallengeError}
use oathcast.Payment.Journal.Table.{Journal}

unfoldable pub one_if_paid : String → Sent → ℕ
one_if_paid url (unpaid u) = 0
one_if_paid url (paid u proof) = if u == url then 1 else 0

-- How many requests for the URL have left with a proof.
unfoldable pub paid_count : String → List Sent → ℕ
paid_count url [] = 0
paid_count url (e ∷ es) = one_if_paid url e + paid_count url es

abbrev pub Once : String → World → Type 0
Once url w =
    (paid_count url w.sent ≡ 0) ⊎ ((paid_count url w.sent ≡ 1) × IsSpent (status_of url w.journal))

pub record IsOnce (limits : Limits) (w : World) : Type 0 where
  pub sound : IsSound limits w.journal
  pub once : (url : String) → Once url w

module _ (limits : Limits) where
  -- An action keeps the invariant, whether it returns or raises.
  pub record Keeps {A : Type 0} (m : Client A) : Type 0 where
    pub at : (w : World) → IsOnce limits w → IsOnce limits (m w).1

  pub Keeps-pure : {A : Type 0} (a : A) → Keeps (pure a)
  Keeps-pure a = record { at = λ w h. h }

  pub Keeps-raise : {A : Type 0} (e : ClientError) → Keeps {A = A} (raise e)
  Keeps-raise e = record { at = λ w h. h }

  pub Keeps-raise_if : (b : Bool) (e : ClientError) → Keeps (raise_if b e)
  Keeps-raise_if true e = record { at = λ w h. h }
  Keeps-raise_if false e = record { at = λ w h. h }

  pub Keeps-checked_by : {A : Type 0} (r : Result ChallengeError A) → Keeps (checked_by r)
  Keeps-checked_by (ok a) = record { at = λ w h. h }
  Keeps-checked_by (err e) = record { at = λ w h. h }

  pub Keeps-if :
      {A : Type 0} (b : Bool) (m n : Client A) → Keeps m → Keeps n → Keeps (if b then m else n)
  Keeps-if true m n km kn = km
  Keeps-if false m n km kn = kn

  pub continued :
      {A B : Type 0} (r : Result ClientError A) (w : World) (f : A → Client B)
      → ((a : A) → r ≡ ok a → Keeps (f a))
      → IsOnce limits w
      → IsOnce limits (continue r f w).1
  continued (ok a) w f kf h = (kf a refl).at w h
  continued (err e) w f kf h = h

  pub Keeps-bind :
      {A B : Type 0} (m : Client A) (f : A → Client B)
      → Keeps m
      → ((a : A) → Keeps (f a))
      → Keeps (m >>= f)
  Keeps-bind m f km kf = record {
    at = λ w h. continued (m w).0 (m w).1 f (λ a _. kf a) (km.at w h);
  }

  pub Keeps-then : {A B : Type 0} (m : Client A) (k : Client B) → Keeps m → Keeps k → Keeps (m >> k)
  Keeps-then m k km kk = record {
    at = λ w h. continued (m w).0 (m w).1 (λ _. k) (λ _ _. kk) (km.at w h);
  }

  -- The rest of the block may use that the check accepted.
  pub Keeps-bind-checked_by :
      {A B : Type 0} (r : Result ChallengeError A) (f : A → Client B)
      → ((a : A) → r ≡ ok a → Keeps (f a))
      → Keeps (checked_by r >>= f)
  Keeps-bind-checked_by (ok a) f kf = kf a refl
  Keeps-bind-checked_by (err e) f kf = record { at = λ w h. h }

  pub rescued :
      {A : Type 0} (p : Result ClientError A × World) (handler : ClientError → Client A)
      → ((e : ClientError) → Keeps (handler e))
      → IsOnce limits p.1
      → IsOnce limits (rescue handler p).1
  rescued (ok a, w) handler k h = h
  rescued (err e, w) handler k h = (k e).at w h

  pub Keeps-try :
      {A : Type 0} (m : Client A) (handler : ClientError → Client A)
      → Keeps m
      → ((e : ClientError) → Keeps (handler e))
      → Keeps (try_except m handler)
  Keeps-try m handler km kh = record { at = λ w h. rescued (m w) handler kh (km.at w h) }

  -- A table that is sound and still blocks what was blocked.
  pub stored-IsOnce :
      (w : World) (j : Journal)
      → IsSound limits j
      → ((url : String) → IsSpent (status_of url w.journal) → IsSpent (status_of url j))
      → IsOnce limits w
      → IsOnce limits (record { journal = j; sent = w.sent })
  stored-IsOnce w j sound spent h = record { sound = sound; once = λ url. still url (h.once url) }
    where
      still : (url : String) → Once url w → Once url (record { journal = j; sent = w.sent })
      still url (inl e) = inl e
      still url (inr (e, s)) = inr (e, spent url s)

  pub perform-IsOnce :
      (host : Host) (c : Call) (w : World)
      → IsOnce limits w
      → IsOnce limits (record { journal = (perform host limits c w.journal).1; sent = w.sent })
  perform-IsOnce host c w h =
      stored-IsOnce w (perform host limits c w.journal).1
        (perform-IsSound host limits c w.journal h.sound)
        (λ url s. Edge-IsSpent (perform-Edge host limits url c w.journal h.sound.keyed) s) h

  pub result-IsOnce :
      (sent : List Sent) (p : Result Error (Unit {0}) × Journal)
      → IsOnce limits (record { journal = p.1; sent = sent })
      → IsOnce limits (journal_result sent p).1
  result-IsOnce sent (ok a, j) h = h
  result-IsOnce sent (err e, j) h = h

  pub Keeps-perform : (host : Host) (c : Call) → Keeps (on_journal (perform host limits c))
  Keeps-perform host c = record {
    at = λ w h. result-IsOnce w.sent (perform host limits c w.journal) (perform-IsOnce host c w h);
  }

pub ruleset keeps_rules = (
  Keeps-pure, Keeps-raise, Keeps-raise_if, Keeps-checked_by, Keeps-if, Keeps-bind, Keeps-then,
  Keeps-try,
)
