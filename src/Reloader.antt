-- ===== src/Reloader.antt =====
-- CaddyReloader of server/src/services/caddy.ts, with the build, push and afterPush functions that
-- `caddyReloader` is given there. The body of `reload` is asynchronous: each function below is what runs
-- without interruption between two of its suspensions.
pub mod Steps
pub mod Invariant
mod Tests
use sitey.Prelude.{ℕ, Bool, true, false, Option, none, some, if◌then◌else◌}
use sitey.Text.{Text}

-- What buildCaddyConfig returns. `as_of` is the version of the database that was read; the program has no
-- such number, and the functions below do not look at it.
pub record BuiltCaddyConfig : Type 0 where
  pub caddyfile : Text
  pub management_origin : Option Text
  pub as_of : ℕ

-- Where a running round of `reload`, the function that it gives to `then`, stands: not yet begun, in
-- `await this.buildFn()` since some version of the database, or in `await this.pushFn(caddyfile)`.
pub data Phase : Type 0 where
  starting : Phase
  building : ℕ → Phase
  pushing : BuiltCaddyConfig → Phase

pub record Reloader : Type 0 where
  -- whether `inFlight` is a promise: which rounds run is not told by it, and is another matter (Steps)
  pub in_flight : Bool
  pub reload_queued : Bool
  pub last_pushed_caddyfile : Option Text
  pub last_pushed_at : Option ℕ
  -- `nextManagementOrigin` and `_lastManagementOrigin`
  pub next_management_origin : Option Text
  pub last_management_origin : Option Text

abbrev pub new_reloader : Reloader
new_reloader = record {
  in_flight = false;
  reload_queued = false;
  last_pushed_caddyfile = none;
  last_pushed_at = none;
  next_management_origin = none;
  last_management_origin = none;
}

-- `reload()`, and the round that it starts, if it starts one
unfoldable pub reload : Reloader → Reloader × Option Phase
reload r =
    if r.in_flight
    then (record r { reload_queued = true }, none)
    else (record r { in_flight = true }, some starting)

-- the head of the `do` loop, up to `await this.buildFn()`
unfoldable pub begin_build : Reloader → Reloader
begin_build r = record r { reload_queued = false }

-- the build has ended: `nextManagementOrigin = built.managementOrigin`, up to `await this.pushFn(caddyfile)`
unfoldable pub build_done : BuiltCaddyConfig → Reloader → Reloader
build_done b r = record r { next_management_origin = b.management_origin }

-- the end of a round, by its return or by an exception: `finally { this.inFlight = null }`
unfoldable pub clear_in_flight : Reloader → Reloader
clear_in_flight r = record r { in_flight = false }

-- the push has ended: afterPushFn, the record of the push, and the test of the loop, with how the round goes on
unfoldable pub push_done : ℕ → ℕ → BuiltCaddyConfig → Reloader → Reloader × Option Phase
unfolding begin_build clear_in_flight
push_done version now b r =
    let pushed = record r {
      last_management_origin = r.next_management_origin;
      last_pushed_caddyfile = some b.caddyfile;
      last_pushed_at = some now;
    } in
    if r.reload_queued
    then (begin_build pushed, some (building version))
    else (clear_in_flight pushed, none)
