-- ===== src/Sidecar/Bounded.antt =====
-- How much `UnixSocketPaymentClient.request` of src/oathcast/application_payment.py keeps of what it
-- reads.
use mathlib.Core.Path.{subst}
use oathcast.Sidecar.Socket.{Received, chunk, broken, Fault, receive, join, size_cap, has_newline}
use oathcast.Prelude.{
  ℕ, Bool, true, false, List, if◌then◌else◌, ◌≡◌, ◌≤◌, ◌+◌, ltb, arith, length, length-append, ◌∷◌,
  [], Bool-cases, inl, inr, refl,
}
use oathcast.Prelude.Exec.{Result, ok, err}

Within : ℕ → ℕ → Result Fault (List (List ℕ)) → Type 0
Within bound total (ok chunks) = total + length (join chunks) ≤ bound
Within bound total (err e) = Unit

kept : Bool → Bool → List ℕ → Result Fault (List (List ℕ)) → Result Fault (List (List ℕ))
kept over line bs more =
    if over
    then err size_cap
    else if line
    then ok (bs ∷ [])
    else elim more [ ok chunks ↦ ok (bs ∷ chunks) | err e ↦ err e ]

kept-Within :
    (bound total : ℕ) (bs : List ℕ) (over line : Bool) (more : Result Fault (List (List ℕ)))
    → over ≡ ltb bound (total + length bs)
    → Within bound (total + length bs) more
    → Within bound total (kept over line bs more)
unfolding Within kept
kept-Within bound total bs true line more e h = tt
kept-Within bound total bs false true more e h = ground (arith, e, length-append bs [])
kept-Within bound total bs false false (ok chunks) e h =
    omega (arith, length-append bs (join chunks), h)
kept-Within bound total bs false false (err f) e h = tt

receive-Within :
    (bound total : ℕ) (answers : List Received)
    → total ≤ bound
    → Within bound total (receive bound total answers)
unfolding receive Within kept
receive-Within bound total [] h = omega (arith, h)
receive-Within bound total (broken ∷ answers) h = tt
receive-Within bound total (chunk [] ∷ answers) h = omega (arith, h)
receive-Within bound total (chunk (b ∷ bs) ∷ answers) h =
    elim (Bool-cases (ltb bound (total + length (b ∷ bs)))) [
      | inl over ↦ rw over tt
      | inr under ↦
          kept-Within bound total (b ∷ bs) (ltb bound (total + length (b ∷ bs)))
            (has_newline (b ∷ bs)) (receive bound (total + length (b ∷ bs)) answers) refl
            (receive-Within bound (total + length (b ∷ bs)) answers (ground (arith, under)))
    ]

-- Whatever the sidecar sends, the bytes that are kept of it never exceed the cap.
pub receive-bounded :
    (bound : ℕ) (answers : List Received) (chunks : List (List ℕ))
    → receive bound 0 answers ≡ ok chunks
    → length (join chunks) ≤ bound
unfolding Within
receive-bounded bound answers chunks e =
    let w : 0 + length (join chunks) ≤ bound =
      subst (Within bound 0) e (receive-Within bound 0 answers (omega arith)) in
    omega (arith, w)
