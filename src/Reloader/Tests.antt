-- ===== src/Reloader/Tests.antt =====
-- A call of reload that arrives while a build is in flight is served by a second round.
use sitey.Prelude.{ℕ, ◌≡◌, refl, none, some, ◌≤◌, arith, [], ◌∷◌, ◌++◌, length, if◌then◌else◌}
use sitey.Text.{codes}
use sitey.Reloader.{
  BuiltCaddyConfig, reload, begin_build, build_done, push_done, clear_in_flight, building, pushing,
}
use sitey.Reloader.Invariant.{Reach-serves_every_call, Step-never_back}
use sitey.Reloader.Steps.{
  World, initial, at_phase, called, go_on, resolved, live_version, Step, change, call, begins,
  builds, pushes, build_throws, Reach, here, next,
}

runs : Unit {0}
unfolding reload begin_build build_done push_done clear_in_flight called
runs = tt

abbrev config_of_0 : BuiltCaddyConfig
config_of_0 = record { caddyfile = codes "a"; management_origin = none; as_of = 0 }

abbrev config_of_1 : BuiltCaddyConfig
config_of_1 = record {
  caddyfile = codes "b";
  management_origin = some (codes "https://sitey.example");
  as_of = 1;
}

-- the world after a call
abbrev call_of : World → World
call_of w = record w {
  reloader = (reload w.reloader).0;
  rounds = called w.version (reload w.reloader).1 w.rounds;
}

abbrev building_0 : World
building_0 = record (call_of initial) {
  reloader = begin_build (call_of initial).reloader;
  rounds = at_phase (building 0) 0 ∷ [];
}

abbrev changed : World
changed = record building_0 { version = 1 }

-- the second call, after a change that the build in flight does not see
abbrev called_again : World
called_again = call_of changed

abbrev built_0 : World
built_0 = record called_again {
  reloader = build_done config_of_0 called_again.reloader;
  rounds = at_phase (pushing config_of_0) 1 ∷ [];
}

-- the world after the push of its only round
abbrev push_of : ℕ → BuiltCaddyConfig → World → World
push_of now b w = record w {
  reloader = (push_done w.version now b w.reloader).0;
  rounds = go_on (push_done w.version now b w.reloader).1 1 ++ [];
  live = some b;
  served = resolved (push_done w.version now b w.reloader).1 1 w.served;
}

abbrev pushed_0 : World
pushed_0 = push_of 100 config_of_0 built_0

abbrev built_1 : World
built_1 = record pushed_0 {
  reloader = build_done config_of_1 pushed_0.reloader;
  rounds = at_phase (pushing config_of_1) 1 ∷ [];
}

abbrev pushed_1 : World
pushed_1 = push_of 200 config_of_1 built_1

pushed_0-Reach : Reach pushed_0
unfolding runs
pushed_0-Reach =
    next
      (next (next (next (next (next here call) (begins [] [] 0 refl)) change) call)
        (builds [] [] 1 0 config_of_0 refl (omega arith) (omega arith)))
      (pushes [] [] 1 100 config_of_0 refl)

built_1-Reach : Reach built_1
unfolding runs
built_1-Reach = next pushed_0-Reach (builds [] [] 1 1 config_of_1 refl (omega arith) (omega arith))

pushed_1-Step : Step built_1 pushed_1
unfolding runs
pushed_1-Step = pushes [] [] 1 200 config_of_1 refl

pushed_1-Reach : Reach pushed_1
pushed_1-Reach = next built_1-Reach pushed_1-Step

-- both calls have been resolved, the second one by the second push
pushed_1_served : pushed_1.served ≡ 1
unfolding runs
pushed_1_served = refl

-- The next round fails in its build: its caller is rejected, and the two before stay served.
abbrev failed : World
failed = record (call_of pushed_1) {
  reloader = clear_in_flight (begin_build (call_of pushed_1).reloader);
  rounds = [];
}

failed-Reach : Reach failed
unfolding runs
failed-Reach =
    next (next (next pushed_1-Reach call) (begins [] [] 1 refl)) (build_throws [] [] 1 1 refl)

Reach-serves_every_call_example :
    (length failed.rounds ≡ (if failed.reloader.in_flight then 1 else 0))
    × (failed.served ≤ live_version failed.live)
Reach-serves_every_call_example = Reach-serves_every_call failed-Reach

Step-never_back_example : live_version built_1.live ≤ live_version pushed_1.live
Step-never_back_example = Step-never_back built_1-Reach pushed_1-Step
