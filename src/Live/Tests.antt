-- ===== src/Live/Tests.antt =====
-- A probe that follows one redirect, and a service that goes live in the second poll.
use sitey.Prelude.{
  ℕ, refl, ◌≡◌, ◌↔◌, Option, Result, leb, none, some, true, false, if◌then◌else◌, ok, ◌∷◌, [],
  is_empty, All, err, ◌==◌, ◌&&◌, ◌+◌,
}
use sitey.Text.{Text, codes, text_eq, starts_with}
use sitey.Live.{LiveInput, LiveReport, Probes, tls, pass, fail, http}
use sitey.Live.Probe.{
  Probed, Response, Url, probe_http, probe_loop, hop_outcome, arrive, redirect, is_allowed_scheme,
  redirect_to, judge, is_transient,
}
use sitey.Live.Redirects.{Answered, MayRequest, probe_http-agrees, probe_http-pass}
use sitey.Live.Report.{
  Waited, run_checks, wait_for_live, report_of, route_checks, all_route_checks, route_url,
  wait_loop, report_of_poll, is_hard_failure, Poll, Rejection, load_rejected, checks_reject,
}
use sitey.Live.Verdict.{IsSuccess, IsServed, run_checks_iff}
use sitey.Live.Wait.{WaitEnded, wait_for_live-ends}
use sitey.SiteBlocks.Bodies.{decimal}

runs : Unit {0}
unfolding probe_http probe_loop hop_outcome arrive redirect is_allowed_scheme redirect_to judge
    is_transient decimal run_checks report_of route_checks all_route_checks route_url wait_for_live
    wait_loop report_of_poll is_hard_failure checks_reject
runs = tt

abbrev plain : Url
plain = record { protocol = codes "http:"; hostname = codes "a.com"; href = codes "http://a.com/" }

abbrev secure : Url
secure = record {
  protocol = codes "https:";
  hostname = codes "a.com";
  href = codes "https://a.com/";
}

abbrev elsewhere : Url
elsewhere = record {
  protocol = codes "https:";
  hostname = codes "b.com";
  href = codes "https://b.com/";
}

-- only three URLs are known
abbrev resolve : Text → Url → Option Url
resolve location current =
    if text_eq location (codes "https://a.com/")
    then some secure
    else if text_eq location (codes "https://b.com/")
    then some elsewhere
    else none

abbrev moved : Text → Response
moved location = record {
  status = 308;
  location = some location;
  has_pending_header = false;
  service_header = none;
}

abbrev served : Response
served = record {
  status = 200;
  location = none;
  has_pending_header = false;
  service_header = some (codes "3");
}

-- http is redirected to https, which serves service 3
abbrev upgrade : ℕ → Url → Result Text Response
upgrade hop u =
    if text_eq u.protocol (codes "http:") then ok (moved (codes "https://a.com/")) else ok served

-- the same for the host, and nothing for any other
abbrev upgrade_own : ℕ → Url → Result Text Response
upgrade_own hop u =
    if text_eq u.hostname (codes "a.com") then upgrade hop u else err (codes "refused")

upgrade_agrees : (hop : ℕ) (u : Url) → MayRequest plain u → upgrade hop u ≡ upgrade_own hop u
upgrade_agrees hop u may = let host : u.hostname ≡ codes "a.com" = may.0 in rw host refl

upgraded :
    probe_http resolve (codes "server") (some 3) upgrade plain ≡ some (ok (pass, codes "HTTP 200"))
unfolding runs
upgraded = refl

other_service :
    probe_http resolve (codes "server") (some 4) upgrade secure
    ≡ some (
        ok (
          fail,
          codes
              "HTTP 200, but the response was not served by service-4. Check the route, DNS, and Caddy configuration.",
        ))
unfolding runs
other_service = refl

left_host :
    probe_http resolve (codes "server") none (λ hop u. ok (moved (codes "https://b.com/"))) secure
    ≡ some (ok (fail, codes "HTTP 308 redirects to https://b.com/, which isn't this host"))
unfolding runs
left_host = refl

endless :
    probe_http resolve (codes "server") none (λ hop u. ok (moved (codes "https://a.com/"))) secure
    ≡ some (ok (fail, codes "more than 5 redirects"))
unfolding runs
endless = refl

probe_http-agrees_example :
    (r : Probed) × (probe_http resolve (codes "server") (some 3) upgrade plain ≡ some r)
    × (probe_http resolve (codes "server") (some 3) upgrade_own plain ≡ some r)
probe_http-agrees_example =
    probe_http-agrees resolve (codes "server") (some 3) upgrade upgrade_own plain upgrade_agrees

probe_http-pass_example : Answered resolve (codes "server") (some 3) upgrade plain
probe_http-pass_example =
    probe_http-pass resolve (codes "server") (some 3) upgrade plain (codes "HTTP 200") upgraded

abbrev passing : Probes
passing = record {
  tls_probe = λ host. record { name = tls; target = host; state = pass; detail = [] };
  http_probe = λ url mode id. record { name = http; target = url; state = pass; detail = [] };
}

abbrev with_status : Text → LiveInput
with_status status = record {
  service_id = some 3;
  active = true;
  deploy_mode = codes "server";
  deployment = some (record { id = codes "d1"; status = status });
  routes = codes "a.com" ∷ [];
}

abbrev host_a : Text → Text
host_a url = codes "a.com"

-- still building in the first poll; in the third one `load` would reject
abbrev polls : ℕ → Poll
polls i = record {
  load =
      if i == 0
      then some (with_status (codes "building"))
      else if i == 1
      then some (with_status (codes "success"))
      else none;
  probes = passing;
  tls_rejects = λ url. false;
  http_rejects = λ url. i == 1 && starts_with url (codes "http://");
}

abbrev live_report : LiveReport
live_report = run_checks host_a passing (with_status (codes "success"))

run_checks_iff_example :
    ((run_checks host_a passing (with_status (codes "success"))).live ≡ true) ↔ (
      (true ≡ true)
      × IsSuccess (with_status (codes "success")).deployment
      × (is_empty (with_status (codes "success")).routes ≡ false)
      × All (IsServed host_a passing (with_status (codes "success"))) (codes "a.com" ∷ []))
run_checks_iff_example = run_checks_iff host_a passing (with_status (codes "success"))

second_poll :
    wait_for_live host_a polls (λ i. leb 5 i) 3 6
    ≡ some (ok (record { report = live_report; timed_out = false }))
unfolding runs
second_poll = refl

-- the same wait, whose polls begin with the one in which `load` rejects
rejected_poll :
    wait_for_live host_a (λ i. polls (i + 2)) (λ i. leb 5 i) 3 6 ≡ some (err load_rejected)
unfolding runs
rejected_poll = refl

wait_for_live-ends_example :
    (x : Result Rejection Waited) × (wait_for_live host_a polls (λ i. leb 5 i) 3 6 ≡ some x)
    × WaitEnded host_a polls (λ i. leb 5 i) 3 x
wait_for_live-ends_example = wait_for_live-ends host_a polls (λ i. leb 5 i) 3 5 refl
