-- ===== src/Live/Report.antt =====
-- deploymentCheck, runChecks and waitForLive of siteyctl/src/verify.ts.
use sitey.Prelude.{
  ℕ, suc, leb, Bool, true, false, not, ◌&&◌, ◌||◌, Option, none, some, List, [], ◌∷◌, ◌++◌,
  if◌then◌else◌, any, is_empty, Result, ok, err,
}
use mathlib.Core.Option
use sitey.Text.{Text, codes, text_eq, starts_with}
use sitey.Live.{
  Check, CheckState, CheckName, pass, pending, fail, service, deploy, Deployment, LiveInput,
  LiveReport, Probes, is_pass, is_fail, is_pending,
}

unfoldable pub route_url : Text → Text
route_url route = if starts_with route (codes "http://") then route else codes "https://" ++ route

abbrev pub deployment_check : Option Deployment → Check
deployment_check none = record {
  name = deploy;
  target = [];
  state = fail;
  detail = codes "no deployments yet";
}
deployment_check (some d) =
    if text_eq d.status (codes "success")
    then record { name = deploy; target = d.id; state = pass; detail = codes "success" }
    else if text_eq d.status (codes "failed")
    then record {
      name = deploy;
      target = d.id;
      state = fail;
      detail = codes "failed (see siteyctl logs)";
    }
    else record { name = deploy; target = d.id; state = pending; detail = d.status }

abbrev pub service_failure : Text → Check
service_failure detail = record { name = service; target = []; state = fail; detail = detail }

abbrev pub worst_state : List Check → CheckState
worst_state checks =
    if any (λ (c : Check). is_fail c.state) checks
    then fail
    else if any (λ (c : Check). is_pending c.state) checks
    then pending
    else pass

abbrev pub judged : List Check → LiveReport
judged checks = record {
  state = worst_state checks;
  live = is_pass (worst_state checks);
  checks = checks;
}

-- The report, from the service's state, the deployment's check, whether there is no route, and the checks of
-- the routes, which are made only where they are looked at.
unfoldable pub report_of : Bool → Check → Bool → List Check → LiveReport
report_of active deployed no_routes checks =
    if not active
    then record {
      state = fail;
      live = false;
      checks = service_failure (codes "deactivated (siteyctl service activate)") ∷ [];
    }
    else if not (is_pass deployed.state)
    then record { state = deployed.state; live = false; checks = deployed ∷ [] }
    else if no_routes
    then record {
      state = fail;
      live = false;
      checks =
          deployed
          ∷ service_failure (
              codes
                "Deployment succeeded, but no public route can be verified. Add one with siteyctl route add.")
          ∷ [];
    }
    else judged (deployed ∷ checks)

module _ (hostname_of : Text → Text) (probes : Probes) where
  -- the checks of one route; `hostname_of` is the host name of a URL
  unfoldable pub route_checks : LiveInput → Text → List Check
  route_checks input route =
      let url = route_url route in
      let http_check = probes.http_probe url input.deploy_mode input.service_id in
      if starts_with url (codes "https://")
      then probes.tls_probe (hostname_of url) ∷ http_check ∷ []
      else http_check ∷ []

  unfoldable pub all_route_checks : LiveInput → List Text → List Check
  all_route_checks input [] = []
  all_route_checks input (r ∷ routes) = route_checks input r ++ all_route_checks input routes

  -- runChecks, whose three early returns and end are `report_of`
  unfoldable pub run_checks : LiveInput → LiveReport
  run_checks input =
      report_of input.active (deployment_check input.deployment) (is_empty input.routes)
        (all_route_checks input input.routes)

abbrev pub is_hard : CheckName → Bool
is_hard service = true
is_hard deploy = true
is_hard _ = false

unfoldable pub is_hard_failure : LiveReport → Bool
is_hard_failure report = any (λ (c : Check). is_fail c.state && is_hard c.name) report.checks

pub record Waited : Type 0 where
  pub report : LiveReport
  pub timed_out : Bool

-- the answer to a report, `none` to go on; `overdue` is `now() - started >= timeoutMs`
abbrev pub after_report : ℕ → ℕ → Bool → LiveReport → CheckState → Option Waited
after_report fail_after failures overdue report pass =
    some (record { report = report; timed_out = false })
after_report fail_after failures overdue report fail =
    if is_hard_failure report || leb fail_after (suc failures)
    then some (record { report = report; timed_out = false })
    else if overdue
    then some (record { report = report; timed_out = true })
    else none
after_report fail_after failures overdue report pending =
    if overdue then some (record { report = report; timed_out = true }) else none

-- `routeFailures` after a report
abbrev pub count_failure : ℕ → CheckState → ℕ
count_failure failures fail = suc failures
count_failure failures _ = 0

-- Why runChecks(await load(), probes) rejects: `load()` has rejected, or one of the probes that it made.
pub data Rejection : Type 0 where
  load_rejected probe_rejected : Rejection

-- What stands outside in one poll. For the URL of a route, `tls_rejects` is whether `new URL(url)` throws or
-- `probes.tls` rejects, and `http_rejects` whether `probes.http` does, as for a redirect to an invalid address.
-- Where one of them holds, the answer of that probe in `probes` is not looked at.
pub record Poll : Type 0 where
  -- what `load()` answers, `none` if it rejects
  pub load : Option LiveInput
  pub probes : Probes
  pub tls_rejects : Text → Bool
  pub http_rejects : Text → Bool

abbrev pub route_rejects : Poll → Text → Bool
route_rejects poll route =
    (starts_with (route_url route) (codes "https://") && poll.tls_rejects (route_url route))
    || poll.http_rejects (route_url route)

-- whether a probe that runChecks makes rejects: it makes none of a service that is inactive or not deployed
unfoldable pub checks_reject : Poll → LiveInput → Bool
checks_reject poll input =
    input.active
    && is_pass (deployment_check input.deployment).state
    && any (route_rejects poll) input.routes

abbrev pub report_of_load : (Text → Text) → Poll → Option LiveInput → Result Rejection LiveReport
report_of_load hostname_of poll none = err load_rejected
report_of_load hostname_of poll (some input) =
    if checks_reject poll input
    then err probe_rejected
    else ok (run_checks hostname_of poll.probes input)

-- runChecks(await load(), probes) in poll `i`: what stands outside may differ in every poll
unfoldable pub report_of_poll : (Text → Text) → (ℕ → Poll) → ℕ → Result Rejection LiveReport
report_of_poll hostname_of polls i = report_of_load hostname_of (polls i) (polls i).load

-- A rejection leaves the loop, and rejects its promise.
abbrev pub after_poll :
    ℕ → ℕ → Bool → Result Rejection LiveReport → Option (Result Rejection Waited)
after_poll fail_after failures overdue (err e) = some (err e)
after_poll fail_after failures overdue (ok report) =
    Option.map ok (after_report fail_after failures overdue report report.state)

abbrev pub count_poll : ℕ → Result Rejection LiveReport → ℕ
count_poll failures (err e) = failures
count_poll failures (ok report) = count_failure failures report.state

abbrev pub or_wait : {A : Type 0} → Option A → Option A → Option A
or_wait (some w) rest = some w
or_wait none rest = rest

-- The loop of waitForLive: in poll `i` runChecks answers `reports i`, and `overdue i` is whether the time is up
-- when it is looked at. `none`: the fuel has run out.
unfoldable pub wait_loop :
    (ℕ → Result Rejection LiveReport)
    → (ℕ → Bool)
    → ℕ
    → ℕ
    → ℕ
    → ℕ
    → Option (Result Rejection Waited)
wait_loop reports overdue fail_after ℕ.zero i failures = none
wait_loop reports overdue fail_after (suc fuel) i failures =
    let rest =
      wait_loop reports overdue fail_after fuel (suc i) (count_poll failures (reports i)) in
    or_wait (after_poll fail_after failures (overdue i) (reports i)) rest

-- waitForLive over `fuel` polls
unfoldable pub wait_for_live :
    (Text → Text) → (ℕ → Poll) → (ℕ → Bool) → ℕ → ℕ → Option (Result Rejection Waited)
wait_for_live hostname_of polls overdue fail_after fuel =
    wait_loop (report_of_poll hostname_of polls) overdue fail_after fuel 0 0
