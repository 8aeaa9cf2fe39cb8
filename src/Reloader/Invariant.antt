-- ===== src/Reloader/Invariant.antt =====
-- What Caddy holds, and how many rounds of `reload` run.
use sitey.Prelude.{
  ℕ, suc, ◌≤◌, ◌≡◌, refl, Bool, true, false, Option, none, some, List, [], ◌∷◌, ◌++◌, arith,
  Bool-cases, inl, inr, subst, length, leb, if◌then◌else◌, ◌∙◌,
}
use sitey.Text.{Text}
use sitey.Reloader.{
  BuiltCaddyConfig, Phase, starting, building, pushing, Reloader, reload, begin_build, build_done,
  push_done, clear_in_flight,
}
use sitey.Reloader.Steps.{
  World, Round, at_phase, initial, live_version, called, go_on, resolved, Step, change, call,
  begins, builds, pushes, build_throws, push_throws, Reach, here, next,
}

-- What is known of the round that runs: `queued` is whether it will build again.
abbrev pub Covered : Phase → ℕ → Bool → Option BuiltCaddyConfig → ℕ → Type 0
Covered starting asked queued live version = Unit
Covered (building since) asked false live version =
    (live_version live ≤ since) × (since ≤ version) × (asked ≤ since)
Covered (building since) asked true live version = (live_version live ≤ since) × (since ≤ version)
Covered (pushing b) asked false live version =
    (live_version live ≤ b.as_of) × (b.as_of ≤ version) × (asked ≤ b.as_of)
Covered (pushing b) asked true live version = (live_version live ≤ b.as_of) × (b.as_of ≤ version)

-- the management origin that the next push makes valid
abbrev pub NextOrigin : Phase → Option Text → Type 0
NextOrigin (pushing b) origin = origin ≡ b.management_origin
NextOrigin _ origin = Unit

abbrev pub live_origin : Option BuiltCaddyConfig → Option Text
live_origin none = none
live_origin (some b) = b.management_origin

abbrev pub live_caddyfile : Option BuiltCaddyConfig → Option Text
live_caddyfile none = none
live_caddyfile (some b) = some b.caddyfile

-- No round runs and `inFlight` is null, or a single one runs and it is not.
abbrev pub Rounds : List Round → Reloader → Option BuiltCaddyConfig → ℕ → Type 0
Rounds [] r live version = r.in_flight ≡ false
Rounds (one ∷ []) r live version =
    (r.in_flight ≡ true)
    × Covered one.phase one.asked r.reload_queued live version
    × NextOrigin one.phase r.next_management_origin
    × (one.asked ≤ version)
Rounds (one ∷ other ∷ rounds) r live version = ⊥

pub record IsSound (w : World) : Type 0 where
  pub rounds : Rounds w.rounds w.reloader w.live w.version
  pub origin : w.reloader.last_management_origin ≡ live_origin w.live
  pub pushed : w.reloader.last_pushed_caddyfile ≡ live_caddyfile w.live
  pub served : w.served ≤ live_version w.live
  pub past : live_version w.live ≤ w.version

alone :
    (before : List Round) (one : Round) (after : List Round) (r : Reloader)
    (live : Option BuiltCaddyConfig) (version : ℕ)
    → Rounds (before ++ one ∷ after) r live version
    → (before ≡ []) × (after ≡ []) × Rounds (one ∷ []) r live version
alone [] one [] r live version h = (refl, refl, h)
alone [] one (other ∷ after) r live version h = absurd h
alone (other ∷ []) one after r live version h = absurd h
alone (other ∷ more ∷ before) one after r live version h = absurd h

alone_in :
    (w : World) (before : List Round) (one : Round) (after : List Round)
    → IsSound w
    → w.rounds ≡ before ++ one ∷ after
    → (before ≡ []) × (after ≡ []) × Rounds (one ∷ []) w.reloader w.live w.version
alone_in w before one after h e =
    alone before one after w.reloader w.live w.version
      (subst (λ rounds. Rounds rounds w.reloader w.live w.version) e h.rounds)

Covered-change :
    (p : Phase) (asked : ℕ) (q : Bool) (live : Option BuiltCaddyConfig) (version : ℕ)
    → Covered p asked q live version
    → Covered p asked q live (suc version)
Covered-change starting asked q live version h = tt
Covered-change (building since) asked false live version h = (h.0, omega arith, h.2)
Covered-change (building since) asked true live version h = (h.0, omega arith)
Covered-change (pushing b) asked false live version h = (h.0, omega arith, h.2)
Covered-change (pushing b) asked true live version h = (h.0, omega arith)

Rounds-change :
    (rounds : List Round) (r : Reloader) (live : Option BuiltCaddyConfig) (version : ℕ)
    → Rounds rounds r live version
    → Rounds rounds r live (suc version)
Rounds-change [] r live version h = h
Rounds-change (one ∷ []) r live version (flag, covered, origin, past) = (
  flag,
  Covered-change one.phase one.asked r.reload_queued live version covered,
  origin,
  omega arith,
)
Rounds-change (one ∷ other ∷ rounds) r live version h = h

Covered-call :
    (p : Phase) (asked : ℕ) (q : Bool) (live : Option BuiltCaddyConfig) (version : ℕ)
    → Covered p asked q live version
    → Covered p version true live version
Covered-call starting asked q live version h = tt
Covered-call (building since) asked false live version h = (h.0, h.1)
Covered-call (building since) asked true live version h = h
Covered-call (pushing b) asked false live version h = (h.0, h.1)
Covered-call (pushing b) asked true live version h = h

-- Only the guard of `reload` keeps a second round from being started.
Rounds-call :
    (rounds : List Round) (r : Reloader) (live : Option BuiltCaddyConfig) (version : ℕ)
    → Rounds rounds r live version
    → Rounds (called version (reload r).1 rounds) (reload r).0 live version
unfolding reload called
Rounds-call [] r live version h = rw h (refl, tt, tt, omega arith)
Rounds-call (one ∷ []) r live version (flag, covered, origin, past) = rw flag (
  refl,
  Covered-call one.phase one.asked r.reload_queued live version covered,
  origin,
  omega arith,
)
Rounds-call (one ∷ other ∷ rounds) r live version h = absurd h

change-IsSound : (w : World) → IsSound w → IsSound (record w { version = suc w.version })
change-IsSound w h = record {
  rounds = Rounds-change w.rounds w.reloader w.live w.version h.rounds;
  origin = h.origin;
  pushed = h.pushed;
  served = h.served;
  past = omega (arith, h.past);
}

reload_keeps :
    (r : Reloader)
    → ((reload r).0.last_management_origin ≡ r.last_management_origin)
      × ((reload r).0.last_pushed_caddyfile ≡ r.last_pushed_caddyfile)
unfolding reload
reload_keeps r = elim (Bool-cases r.in_flight) [
  | inl e ↦ rw e (refl, refl)
  | inr e ↦ rw e (refl, refl)
]

call-IsSound :
    (w : World)
    → IsSound w
    → IsSound (record w {
      reloader = (reload w.reloader).0;
      rounds = called w.version (reload w.reloader).1 w.rounds;
    })
call-IsSound w h = record {
  rounds = Rounds-call w.rounds w.reloader w.live w.version h.rounds;
  origin = (reload_keeps w.reloader).0 ∙ h.origin;
  pushed = (reload_keeps w.reloader).1 ∙ h.pushed;
  served = h.served;
  past = h.past;
}

begins-Rounds :
    (before after : List Round) (asked : ℕ) (r : Reloader) (live : Option BuiltCaddyConfig)
    (version : ℕ)
    → live_version live ≤ version
    → Rounds (before ++ at_phase starting asked ∷ after) r live version
    → Rounds (before ++ at_phase (building version) asked ∷ after) (begin_build r) live version
unfolding begin_build
begins-Rounds before after asked r live version past h =
    let (front, back, one) = alone before _ after r live version h in
    let (flag, covered, origin, asked_past) = one in
    rw (front, back) (flag, (past, omega arith, asked_past), tt, asked_past)

builds-Covered :
    (since asked : ℕ) (b : BuiltCaddyConfig) (q : Bool) (live : Option BuiltCaddyConfig)
    (version : ℕ)
    → since ≤ b.as_of
    → b.as_of ≤ version
    → Covered (building since) asked q live version
    → Covered (pushing b) asked q live version
builds-Covered since asked b false live version from to h =
    (omega (arith, h.0), to, omega (arith, h.2))
builds-Covered since asked b true live version from to h = (omega (arith, h.0), to)

builds-Rounds :
    (before after : List Round) (asked since : ℕ) (b : BuiltCaddyConfig) (r : Reloader)
    (live : Option BuiltCaddyConfig) (version : ℕ)
    → since ≤ b.as_of
    → b.as_of ≤ version
    → Rounds (before ++ at_phase (building since) asked ∷ after) r live version
    → Rounds (before ++ at_phase (pushing b) asked ∷ after) (build_done b r) live version
unfolding build_done
builds-Rounds before after asked since b r live version from to h =
    let (front, back, one) = alone before _ after r live version h in
    let (flag, covered, origin, past) = one in
    rw (front, back)
      (flag, builds-Covered since asked b r.reload_queued live version from to covered, refl, past)

pushing-past :
    (b : BuiltCaddyConfig) (asked : ℕ) (q : Bool) (live : Option BuiltCaddyConfig) (version : ℕ)
    → Covered (pushing b) asked q live version
    → (live_version live ≤ b.as_of) × (b.as_of ≤ version)
pushing-past b asked false live version h = (h.0, h.1)
pushing-past b asked true live version h = h

throws-Rounds :
    (before after : List Round) (one : Round) (r : Reloader) (live : Option BuiltCaddyConfig)
    (version : ℕ)
    → Rounds (before ++ one ∷ after) r live version
    → Rounds (before ++ after) (clear_in_flight r) live version
unfolding clear_in_flight
throws-Rounds before after one r live version h =
    let (front, back, same) = alone before one after r live version h in rw (front, back) refl

throws-IsSound :
    (w : World) (before after : List Round) (one : Round)
    → IsSound w
    → w.rounds ≡ before ++ one ∷ after
    → IsSound (record w { reloader = clear_in_flight w.reloader; rounds = before ++ after })
unfolding clear_in_flight
throws-IsSound w before after one h e = record {
  rounds =
      throws-Rounds before after one w.reloader w.live w.version
        (subst (λ rounds. Rounds rounds w.reloader w.live w.version) e h.rounds);
  origin = h.origin;
  pushed = h.pushed;
  served = h.served;
  past = h.past;
}

max_below :
    (served asked n : ℕ) → served ≤ n → asked ≤ n → (if leb served asked then asked else served) ≤ n
max_below served asked n h k = ground arith

-- A push makes the build live; if nothing is queued, it covers all callers of the round, whose promise it
-- resolves.
pushes-IsSound :
    (w : World) (before after : List Round) (asked now : ℕ) (b : BuiltCaddyConfig)
    → IsSound w
    → w.rounds ≡ before ++ at_phase (pushing b) asked ∷ after
    → IsSound (record w {
      reloader = (push_done w.version now b w.reloader).0;
      rounds = before ++ (go_on (push_done w.version now b w.reloader).1 asked ++ after);
      live = some b;
      served = resolved (push_done w.version now b w.reloader).1 asked w.served;
    })
unfolding push_done begin_build clear_in_flight
pushes-IsSound w before after asked now b h e =
    let (front, back, one) = alone_in w before _ after h e in
    let (flag, covered, origin, asked_past) = one in
    let past = pushing-past b asked w.reloader.reload_queued w.live w.version covered in
    let served = h.served in
    elim (Bool-cases w.reloader.reload_queued) [
      | inl q ↦
          rw (q, front, back)
            record {
              rounds = (flag, (past.1, omega arith, asked_past), tt, asked_past);
              origin = origin;
              pushed = refl;
              served = omega (arith, served, past.0);
              past = past.1;
            }
      | inr q ↦
          let last = subst (λ k. Covered (pushing b) asked k w.live w.version) q covered in
          rw (q, front, back)
            record {
              rounds = refl;
              origin = origin;
              pushed = refl;
              served = max_below w.served asked b.as_of (omega (arith, served, past.0)) last.2;
              past = past.1;
            }
    ]

Step-IsSound : {w v : World} → Step w v → IsSound w → IsSound v
unfolding begin_build build_done
Step-IsSound {w} change h = change-IsSound w h
Step-IsSound {w} call h = call-IsSound w h
Step-IsSound {w} (begins before after asked e) h = record {
  rounds =
      begins-Rounds before after asked w.reloader w.live w.version h.past
        (subst (λ rounds. Rounds rounds w.reloader w.live w.version) e h.rounds);
  origin = h.origin;
  pushed = h.pushed;
  served = h.served;
  past = h.past;
}
Step-IsSound {w} (builds before after asked since b e from to) h = record {
  rounds =
      builds-Rounds before after asked since b w.reloader w.live w.version from to
        (subst (λ rounds. Rounds rounds w.reloader w.live w.version) e h.rounds);
  origin = h.origin;
  pushed = h.pushed;
  served = h.served;
  past = h.past;
}
Step-IsSound {w} (pushes before after asked now b e) h =
    pushes-IsSound w before after asked now b h e
Step-IsSound {w} (build_throws before after asked since e) h =
    throws-IsSound w before after (at_phase (building since) asked) h e
Step-IsSound {w} (push_throws before after asked b e) h =
    throws-IsSound w before after (at_phase (pushing b) asked) h e

initial-IsSound : IsSound initial
initial-IsSound = record {
  rounds = refl;
  origin = refl;
  pushed = refl;
  served = omega arith;
  past = omega arith;
}

Reach-IsSound : {w : World} → Reach w → IsSound w
Reach-IsSound here = initial-IsSound
Reach-IsSound (next r s) = Step-IsSound s (Reach-IsSound r)

Rounds-count :
    (rounds : List Round) (r : Reloader) (live : Option BuiltCaddyConfig) (version : ℕ)
    → Rounds rounds r live version
    → length rounds ≡ (if r.in_flight then 1 else 0)
Rounds-count [] r live version h = rw h refl
Rounds-count (one ∷ []) r live version h = rw h.0 refl
Rounds-count (one ∷ other ∷ rounds) r live version h = absurd h

-- In every reachable state, however the calls of reload, the changes of the database, the builds, the pushes
-- and the failures of any rounds were interleaved: a single round runs while `inFlight` is set and none while
-- it is null, and Caddy holds a configuration that was built from the database at a version no older than at
-- any call of reload whose promise has been resolved, also when later rounds have failed.
pub Reach-serves_every_call :
    {w : World}
    → Reach w
    → (length w.rounds ≡ (if w.reloader.in_flight then 1 else 0)) × (w.served ≤ live_version w.live)
Reach-serves_every_call {w} r =
    let h = Reach-IsSound r in
    (Rounds-count w.rounds w.reloader w.live w.version h.rounds, h.served)

-- From a reachable state no step replaces what Caddy holds by a configuration built from an older version
-- of the database, whichever of the rounds that run the step belongs to.
pub Step-never_back : {w v : World} → Reach w → Step w v → live_version w.live ≤ live_version v.live
Step-never_back r change = omega arith
Step-never_back r call = omega arith
Step-never_back r (begins before after asked e) = omega arith
Step-never_back r (builds before after asked since b e from to) = omega arith
Step-never_back {w} r (pushes before after asked now b e) =
    let (front, back, one) = alone_in w before _ after (Reach-IsSound r) e in
    let (flag, covered, origin, past) = one in
    (pushing-past b asked w.reloader.reload_queued w.live w.version covered).0
Step-never_back r (build_throws before after asked since e) = omega arith
Step-never_back r (push_throws before after asked b e) = omega arith
