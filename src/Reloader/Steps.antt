-- ===== src/Reloader/Steps.antt =====
-- The reloader among concurrent callers, a changing database and Caddy.
use sitey.Prelude.{ℕ, suc, ◌≤◌, ◌≡◌, Option, none, some, List, [], ◌∷◌, ◌++◌, leb, if◌then◌else◌}
use sitey.Reloader.{
  BuiltCaddyConfig, Phase, starting, building, pushing, Reloader, new_reloader, reload, begin_build,
  build_done, push_done, clear_in_flight,
}

-- A round that runs, with the latest version of the database at which `reload` gave its promise to a caller.
pub record Round : Type 0 where
  pub phase : Phase
  pub asked : ℕ

abbrev pub at_phase : Phase → ℕ → Round
at_phase p asked = record { phase = p; asked = asked }

pub record World : Type 0 where
  pub reloader : Reloader
  -- all rounds that run, however many, the newest first: the promise in `inFlight` is the newest's
  pub rounds : List Round
  -- the version of the database: it grows with every change
  pub version : ℕ
  -- what Caddy has accepted last
  pub live : Option BuiltCaddyConfig
  -- the latest version at which a call of `reload` was made whose promise has been resolved
  pub served : ℕ

abbrev pub initial : World
initial = record { reloader = new_reloader; rounds = []; version = 0; live = none; served = 0 }

abbrev pub live_version : Option BuiltCaddyConfig → ℕ
live_version none = 0
live_version (some b) = b.as_of

-- A call at `version` starts a round, or is given the promise of the newest one.
unfoldable pub called : ℕ → Option Phase → List Round → List Round
called version (some p) rounds = at_phase p version ∷ rounds
called version none [] = []
called version none (r ∷ rounds) = record r { asked = version } ∷ rounds

-- what is left of a round that goes on, or has ended
abbrev pub go_on : Option Phase → ℕ → List Round
go_on none asked = []
go_on (some p) asked = at_phase p asked ∷ []

-- A round that has ended well resolves the promise of its callers.
abbrev pub resolved : Option Phase → ℕ → ℕ → ℕ
resolved none asked served = if leb served asked then asked else served
resolved (some p) asked served = served

-- Any of the rounds that run may be the next to go on. A build reads some version between its start and its
-- end. A push that throws leaves Caddy as it was. A round that throws rejects the promise of its callers.
pub data Step (w : World) : World → Type 0 where
  change : Step w (record w { version = suc w.version })
  call : Step w (record w {
    reloader = (reload w.reloader).0;
    rounds = called w.version (reload w.reloader).1 w.rounds;
  })
  begins :
      (before after : List Round) (asked : ℕ)
      → w.rounds ≡ before ++ at_phase starting asked ∷ after
      → Step w (record w {
        reloader = begin_build w.reloader;
        rounds = before ++ at_phase (building w.version) asked ∷ after;
      })
  builds :
      (before after : List Round) (asked since : ℕ) (b : BuiltCaddyConfig)
      → w.rounds ≡ before ++ at_phase (building since) asked ∷ after
      → since ≤ b.as_of
      → b.as_of ≤ w.version
      → Step w (record w {
        reloader = build_done b w.reloader;
        rounds = before ++ at_phase (pushing b) asked ∷ after;
      })
  pushes :
      (before after : List Round) (asked now : ℕ) (b : BuiltCaddyConfig)
      → w.rounds ≡ before ++ at_phase (pushing b) asked ∷ after
      → Step w (record w {
        reloader = (push_done w.version now b w.reloader).0;
        rounds = before ++ (go_on (push_done w.version now b w.reloader).1 asked ++ after);
        live = some b;
        served = resolved (push_done w.version now b w.reloader).1 asked w.served;
      })
  build_throws :
      (before after : List Round) (asked since : ℕ)
      → w.rounds ≡ before ++ at_phase (building since) asked ∷ after
      → Step w (record w { reloader = clear_in_flight w.reloader; rounds = before ++ after })
  push_throws :
      (before after : List Round) (asked : ℕ) (b : BuiltCaddyConfig)
      → w.rounds ≡ before ++ at_phase (pushing b) asked ∷ after
      → Step w (record w { reloader = clear_in_flight w.reloader; rounds = before ++ after })

pub data Reach : World → Type 0 where
  here : Reach initial
  next : {w v : World} → Reach w → Step w v → Reach v
