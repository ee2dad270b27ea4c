-- ===== src/Cases/Frame.antt =====
-- Actions on the case store that write evidence and leave the rows of the cases alone.
use oathcast.Prelude.{Bool, true, false, Option, ◌≡◌, refl, ◌∙◌, List, String}
use oathcast.Prelude.Exec.{
  Result, ok, err, pure, raise, lift, modify, raise_if, continue, ◌>>=◌, ◌>>◌,
}
use oathcast.Json.{
  Host, Value, Fields, Items, object, array, text, null, number, boolean, real, nil, cons,
}
use oathcast.Cases.Store.{Error, Store, Cases, Driver, ReplyRow, DecisionRow}
use oathcast.Cases.Replies.{insert_reply, add_reply}
use oathcast.Cases.Seal.{project_one, project_replies, seal_evidence, add_decision}
use oathcast.Prelude.Int.{ℤ}

pub record Frames {A : Type 0} (m : Cases A) : Type 0 where
  pub at : (s : Store) → (m s).1.cases ≡ s.cases

Frames-pure : {A : Type 0} (a : A) → Frames (pure a)
Frames-pure a = record { at = λ s. refl }

Frames-raise : {A : Type 0} (e : Error) → Frames {A = A} (raise e)
Frames-raise e = record { at = λ s. refl }

Frames-lift : {A : Type 0} (r : Result Error A) → Frames (lift r)
Frames-lift r = record { at = λ s. refl }

Frames-raise_if : (b : Bool) (e : Error) → Frames (raise_if b e)
Frames-raise_if true e = record { at = λ s. refl }
Frames-raise_if false e = record { at = λ s. refl }

framed :
    {A B : Type 0} (r : Result Error A) (s : Store) (f : A → Cases B)
    → ((a : A) → Frames (f a))
    → (continue r f s).1.cases ≡ s.cases
framed (ok a) s f k = (k a).at s
framed (err e) s f k = refl

Frames-bind :
    {A B : Type 0} (m : Cases A) (f : A → Cases B)
    → Frames m
    → ((a : A) → Frames (f a))
    → Frames (m >>= f)
Frames-bind m f km kf = record { at = λ s. framed (m s).0 (m s).1 f kf ∙ km.at s }

Frames-then : {A B : Type 0} (m : Cases A) (k : Cases B) → Frames m → Frames k → Frames (m >> k)
Frames-then m k km kk = record { at = λ s. framed (m s).0 (m s).1 (λ _. k) (λ _. kk) ∙ km.at s }

ruleset frame_rules =
    (Frames-pure, Frames-raise, Frames-lift, Frames-raise_if, Frames-bind, Frames-then)

add_reply-Frames : (r : ReplyRow) → Frames (modify (add_reply r))
add_reply-Frames r = record { at = λ s. refl }

add_decision-Frames : (r : DecisionRow) → Frames (modify (add_decision r))
add_decision-Frames r = record { at = λ s. refl }

insert_reply-Frames :
    (h : Host) (d : Driver) (event : String) (reply : Fields) (at : Value) (p : Option ℤ)
    → Frames (insert_reply h d event reply at p)
unfolding insert_reply
insert_reply-Frames h d event reply at p = search (frame_rules, add_reply-Frames) depth 9

project_one-Frames :
    (h : Host) (d : Driver) (event : String) (payload reply : Fields) (m : Cases (List String))
    → Frames m
    → Frames (project_one h d event payload reply m)
unfolding project_one
project_one-Frames h d event payload reply m k = search (frame_rules, insert_reply-Frames) depth 9

project_replies-Frames :
    (h : Host) (d : Driver) (event : String) (payload : Fields) (vs : Items)
    → Frames (project_replies h d event payload vs)
unfolding project_replies
project_replies-Frames h d event payload nil = search frame_rules
project_replies-Frames h d event payload (cons (object reply) rest) =
    project_one-Frames h d event payload reply (project_replies h d event payload rest)
      (project_replies-Frames h d event payload rest)
project_replies-Frames h d event payload (cons null rest) = search frame_rules
project_replies-Frames h d event payload (cons (boolean b) rest) = search frame_rules
project_replies-Frames h d event payload (cons (number n) rest) = search frame_rules
project_replies-Frames h d event payload (cons (real r) rest) = search frame_rules
project_replies-Frames h d event payload (cons (text s) rest) = search frame_rules
project_replies-Frames h d event payload (cons (array vs) rest) = search frame_rules

pub seal_evidence-Frames :
    (h : Host) (d : Driver) (event : String) (payload : Fields)
    → Frames (seal_evidence h d event payload)
unfolding seal_evidence
seal_evidence-Frames h d event payload =
    search (frame_rules, project_replies-Frames, add_decision-Frames) depth 20
