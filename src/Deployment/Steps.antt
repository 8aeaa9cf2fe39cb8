-- ===== src/Deployment/Steps.antt =====
-- Code that reads and changes the world and may throw.
use sitey.Prelude.{◌≡◌, refl, List, [], ◌∷◌, ◌++◌, Result, ok, err, arith}
use sitey.Text.{Text}
use sitey.Deployment.{World, DeploymentRow, ServiceState, Call}

-- The world afterwards, and a value or what was thrown.
abbrev pub Step : Type 0 → Type 0
Step A = World → World × Result Text A

abbrev pub pure : {A : Type 0} → A → Step A
pure a w = (w, ok a)

abbrev pub throw : {A : Type 0} → Text → Step A
throw e w = (w, err e)

abbrev pub continue : {A B : Type 0} → (A → Step B) → World × Result Text A → World × Result Text B
continue f (w, ok a) = f a w
continue f (w, err e) = (w, err e)

infixl 5 ◌>>=◌
abbrev pub ◌>>=◌ : {A B : Type 0} → Step A → (A → Step B) → Step B
m >>= f = λ w. continue f (m w)

infixl 5 ◌>>◌
abbrev pub ◌>>◌ : {A B : Type 0} → Step A → Step B → Step B
m >> n = m >>= λ a. n

-- onLog
abbrev pub on_log : Text → Step (Unit {0})
on_log line w = (record w { log = w.log ++ line ∷ [] }, ok tt)

-- a call and what it answers
abbrev pub perform : {A : Type 0} → Call → Result Text A → Step A
perform c answer w = (record w { calls = w.calls ++ c ∷ [] }, answer)

-- what the next update of a row is answered
abbrev pub next_answer : List (Result Text Unit) → Result Text Unit
next_answer [] = ok tt
next_answer (answer ∷ answers) = answer

abbrev pub later : List (Result Text Unit) → List (Result Text Unit)
later [] = []
later (answer ∷ answers) = answers

abbrev pub asked : World → World
asked w = record w { update_answers = later w.update_answers }

-- a change of the rows, unless the database has thrown
abbrev pub applied : (World → World) → Result Text Unit → Step (Unit {0})
applied change (ok u) w = (change w, ok tt)
applied change (err e) w = (w, err e)

-- `db.deployment.update` and `db.service.update`
abbrev pub update_deployment : (DeploymentRow → DeploymentRow) → Step (Unit {0})
update_deployment f w =
    applied (λ v. record v { deployment = f v.deployment }) (next_answer w.update_answers) (asked w)

abbrev pub update_service : (ServiceState → ServiceState) → Step (Unit {0})
update_service f w =
    applied (λ v. record v { service = f v.service }) (next_answer w.update_answers) (asked w)

-- If a step and what follows it answer a value, the step does, and the rest goes on from there.
pub continue-ok :
    {A B : Type 0} (f : A → Step B) (p : World × Result Text A) (b : B)
    → (continue f p).1 ≡ ok b
    → (a : A) × (p.1 ≡ ok a) × (continue f p ≡ f a p.0) × ((f a p.0).1 ≡ ok b)
continue-ok f (w, ok a) b h = (a, refl, refl, h)
continue-ok f (w, err e) b h = absurd (ground arith)

-- A change of the rows that is not refused is made.
pub applied-ok :
    (change : World → World) (answer : Result Text Unit) (w : World) (u : Unit)
    → answer ≡ ok u
    → applied change answer w ≡ (change w, ok tt)
applied-ok change (ok u') w u e = refl
applied-ok change (err m) w u e = absurd (ground arith)

pub applied-refused :
    (change : World → World) (answer : Result Text Unit) (w : World) (m : Text)
    → answer ≡ err m
    → applied change answer w ≡ (w, err m)
applied-refused change (ok u) w m e = absurd (ground arith)
applied-refused change (err n) w m e = let same : n ≡ m = ground arith in rw same refl
