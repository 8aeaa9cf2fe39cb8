-- ===== src/RouteString/Tests.antt =====
-- Route strings of server/tests/route-string.test.ts, evaluated.
use sitey.Prelude.{◌≡◌, refl, true, List, [], ◌∷◌, some, none, All, ok, err, ◌⊎◌}
use sitey.Text.{codes, lower, before, from_first, split, join, drop_final_dot, trim, is_lower, Text}
use sitey.RouteString.{
  DomainRow, is_wildcard, resolve_route_host, resolve_wildcard, format_route_string,
  parse_route_string, parse_scheme, parse_rest, finish, scheme, is_scheme_name, is_scheme_char,
  bad_segment?, segments_of, prefix_of, is_hostname, is_dns_label, is_segment, is_segment_char,
  unsupported_scheme, port_included, bad_segment, ParsedRoute,
}
use sitey.RouteString.Parse.{IsWellFormed, parse_route_string-IsWellFormed}
use sitey.RouteString.Resolve.{Found, Covers, resolve_route_host_cases, parse-resolve}
use sitey.RouteString.RoundTrip.{print, parse-format}

parse_http :
    parse_route_string (codes " HTTP://App.Example.com./a//b/ ")
    ≡ ok (record { host = codes "app.example.com"; path_prefix = codes "/a/b"; http_only = true })
unfolding parse_route_string parse_scheme parse_rest finish scheme is_scheme_name bad_segment?
    segments_of prefix_of is_hostname is_dns_label is_segment is_segment_char lower before
    from_first split join drop_final_dot trim is_lower is_scheme_char
parse_http = refl

parse_errors :
    (parse_route_string (codes "ftp://example.com") ≡ err (unsupported_scheme (codes "ftp")))
    × (parse_route_string (codes "example.com:8080") ≡ err port_included)
    × (parse_route_string (codes "example.com/a/../b") ≡ err (bad_segment (codes "..")))
unfolding parse_route_string parse_scheme parse_rest finish scheme is_scheme_name bad_segment?
    segments_of prefix_of is_hostname is_dns_label is_segment is_segment_char lower before
    from_first split join drop_final_dot trim is_lower is_scheme_char
parse_errors = (refl, refl, refl)

abbrev rows : List DomainRow
rows =
    record { id = 1; hostname = codes "example.com" }
    ∷ record { id = 2; hostname = codes "*.example.com" }
    ∷ []

abbrev parsed : ParsedRoute
parsed = record { host = codes "app.example.com"; path_prefix = codes "/a/b"; http_only = true }

resolve_examples :
    (resolve_route_host (codes "app.example.com") rows
      ≡ some (record { id = 2; hostname = codes "*.example.com" }, codes "app"))
    × (resolve_route_host (codes "a.b.example.com") rows ≡ none)
unfolding resolve_route_host resolve_wildcard before from_first is_wildcard
resolve_examples = (refl, refl)

parse_route_string-IsWellFormed_example : IsWellFormed parsed
parse_route_string-IsWellFormed_example =
    parse_route_string-IsWellFormed (codes " HTTP://App.Example.com./a//b/ ") parsed parse_http

parse-format_example : (s : Text) × (print parsed ≡ some s) × (parse_route_string s ≡ ok parsed)
parse-format_example = parse-format parsed parse_route_string-IsWellFormed_example

host_valid : is_hostname (codes "app.example.com") ≡ true
host_valid = parse_route_string-IsWellFormed_example.host_valid

resolve_route_host_cases_example :
    ((d : DomainRow) × (subdomain : Text) × (resolve_route_host (codes "app.example.com") rows
        ≡ some (d, subdomain))
      × Found (codes "app.example.com") rows d subdomain)
    ⊎ ((resolve_route_host (codes "app.example.com") rows ≡ none)
        × All (λ d. ¬ Covers d (codes "app.example.com")) rows)
resolve_route_host_cases_example =
    resolve_route_host_cases (codes "app.example.com") rows host_valid

parse-resolve_example :
    (s : Text) × (format_route_string
        (some (codes "*.example.com"))
        (codes "app")
        (codes "/a/b")
        true
      ≡ some s)
    × (parse_route_string s ≡ ok parsed)
parse-resolve_example =
    parse-resolve (codes " HTTP://App.Example.com./a//b/ ") parsed rows
      (record { id = 2; hostname = codes "*.example.com" }) (codes "app") parse_http
      resolve_examples.0
