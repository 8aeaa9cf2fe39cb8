-- ===== src/Routes/Input.antt =====
-- What resolveRouteInput answers.
use sitey.Prelude.{
  ◌≡◌, List, ok, true, Option-cases, Result-cases, some, inl, arith, find, inr, subst, find-some,
  false, Bool-cases, Option, is_empty,
}
use sitey.Text.{Text, includes, before}
use sitey.Text.Split.{Lacks, before-Lacks}
use sitey.RouteString.{
  resolve_route_host, ParsedRoute, resolve_wildcard, DomainRow, is_hostname, parse_route_string,
  is_wildcard, route_host,
}
use sitey.RouteString.Parse.{parse_route_string-IsWellFormed}
use sitey.RouteString.Resolve.{is_exact, resolve_route_host-Found, is_parent, label-not_empty}
use sitey.Routes.{resolve_parsed, resolve_route_input, parse_route, Resolved, resolved_as, rethrow}
use sitey.Routes.Hosts.{IsLabelled}
use sitey.Routes.Insert.{IsResolved}

-- Under a wildcard row the subdomain that is found is one label.
resolve_route_host-IsLabelled :
    (host : Text) (domains : List DomainRow) (d : DomainRow) (subdomain : Text)
    → is_hostname host ≡ true
    → resolve_route_host host domains ≡ some (d, subdomain)
    → IsLabelled (some d) subdomain
unfolding resolve_route_host resolve_wildcard
resolve_route_host-IsLabelled host domains d subdomain v h wild =
    elim (Option-cases (find (is_exact host) domains)) [
      | inr (d', e) ↦
          let test = find-some (is_exact host) domains d' e in
          let at_d : d' ≡ d = ground arith in
          let plain : is_wildcard d'.hostname ≡ false = ground arith in
          let wild' : is_wildcard d'.hostname ≡ true = rw at_d wild in absurd (ground arith)
      | inl e ↦ elim (Bool-cases (includes host b'.')) [
        | inr plain ↦ absurd (ground arith)
        | inl dotted ↦ elim (Option-cases (find (is_parent host) domains)) [
          | inl e' ↦ absurd (ground arith)
          | inr (d', e') ↦
              let same : ◌≡◌ {A = Option (DomainRow × Text)} (some (d', before b'.' host))
                  (some (d, subdomain)) =
                ground arith in
              let at_s : before b'.' host ≡ subdomain = cc in
              subst (λ t. Lacks b'.' t × (is_empty t ≡ false)) at_s
                (before-Lacks b'.' host, label-not_empty host v dotted)
        ]
      ]
    ]

resolved_as-IsResolved :
    (p : ParsedRoute) (d : DomainRow) (sub : Text)
    → is_hostname p.host ≡ true
    → route_host d.hostname sub ≡ p.host
    → IsLabelled (some d) sub
    → IsResolved (resolved_as p d sub)
unfolding resolved_as
resolved_as-IsResolved p d sub v h l = record { valid = v; stands = h; labelled = l }

resolve_parsed-IsResolved :
    (p : ParsedRoute) (domains : List DomainRow) (resolved : Resolved)
    → is_hostname p.host ≡ true
    → resolve_parsed p (resolve_route_host p.host domains) ≡ ok resolved
    → IsResolved resolved
unfolding resolve_parsed
resolve_parsed-IsResolved p domains resolved v h =
    elim (Option-cases (resolve_route_host p.host domains)) [
      | inl e ↦ absurd (ground arith)
      | inr ((d, sub), e) ↦
          let same : resolved_as p d sub ≡ resolved = ground arith in
          subst IsResolved same (
            resolved_as-IsResolved p d sub v (resolve_route_host-Found p.host domains d sub v e).1
              (resolve_route_host-IsLabelled p.host domains d sub v e))
    ]

-- What resolveRouteInput answers for any text and any domain rows stands for a valid host under the domain row
-- that it names, with one label as the subdomain if that row is a wildcard.
pub resolve_route_input-IsResolved :
    (route : Text) (domains : List DomainRow) (resolved : Resolved)
    → resolve_route_input route domains ≡ ok resolved
    → IsResolved resolved
unfolding resolve_route_input parse_route rethrow
resolve_route_input-IsResolved route domains resolved e =
    elim (Result-cases (parse_route_string route)) [
      | inr (m, k) ↦ absurd (ground arith)
      | inl (p, k) ↦
          resolve_parsed-IsResolved p domains resolved
            (parse_route_string-IsWellFormed route p k).host_valid (rw k at e)
    ]
