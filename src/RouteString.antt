-- ===== src/RouteString.antt =====
-- server/src/lib/routeString.ts: route strings `[http://]host[/pathPrefix]`.
pub mod Hostname
pub mod Parse
pub mod RoundTrip
pub mod Resolve
mod Tests
use sitey.Prelude.{
  ℕ, suc, ◌≡◌, Bool, true, false, not, ◌&&◌, ◌||◌, Option, none, some, List, [], ◌∷◌, ◌++◌, leb,
  ◌==◌, if◌then◌else◌, length, is_empty, all, any, find, keep, Result, ok, err,
}
use sitey.Text.{
  last_is, Text, codes, text_eq, starts_with, includes, trim, to_lower_case, before, from_first,
  slice, split, join, drop_final_dot, is_upper, is_lower, is_digit, lower,
}

-- `RouteStringError`, one constructor for each message, with the values that the message shows.
pub data RouteStringError : Type 0 where
  unsupported_scheme : Text → RouteStringError
  query_or_fragment port_included : RouteStringError
  invalid_hostname bad_segment : Text → RouteStringError

pub record ParsedRoute : Type 0 where
  pub host : Text
  pub path_prefix : Text
  pub http_only : Bool

abbrev slash : ℕ
slash = b'/'

abbrev dot : ℕ
dot = b'.'

-- `[a-z0-9]`
unfoldable pub is_label_end : ℕ → Bool
unfolding is_lower is_digit
is_label_end c = is_lower c || is_digit c

-- `[a-z0-9-]`
unfoldable pub is_label_char : ℕ → Bool
unfolding is_label_end
is_label_char c = is_label_end c || c == b'-'

-- DNS_LABEL: one to 63 characters, with no hyphen at either end
unfoldable pub is_dns_label : Text → Bool
is_dns_label [] = false
is_dns_label (c ∷ s) =
    is_label_end c && all is_label_char s && last_is is_label_end (c ∷ s) && leb (length (c ∷ s)) 63

-- HOSTNAME_REGEX: labels separated by dots
unfoldable pub is_hostname : Text → Bool
is_hostname s = all is_dns_label (split b'.' s)

-- `[A-Za-z0-9._~-]`
unfoldable pub is_segment_char : ℕ → Bool
unfolding is_label_char is_upper
is_segment_char c = is_label_char c || is_upper c || c == b'.' || c == b'_' || c == b'~'

-- PATH_SEGMENT_REGEX, and neither "." nor ".."
unfoldable pub is_segment : Text → Bool
is_segment s =
    not (is_empty s)
    && all is_segment_char s
    && not (text_eq s (codes "."))
    && not (text_eq s (codes ".."))

unfoldable pub is_scheme_char : ℕ → Bool
unfolding is_label_char is_upper
is_scheme_char c = is_label_char c || is_upper c || c == b'+' || c == b'.'

unfoldable pub is_scheme_name : Text → Bool
is_scheme_name [] = false
is_scheme_name (c ∷ s) = (is_lower c || is_upper c) && all is_scheme_char s

-- `/^([a-z][a-z0-9+.-]*):\/\//i`: the name, and what follows. No scheme character is a colon, so
-- the name ends at the first one.
unfoldable pub scheme : Text → Option (Text × Text)
scheme s =
    let name = before b':' s in
    let rest = from_first b':' s in
    if is_scheme_name name && starts_with rest (codes "://")
    then some (name, slice 3 rest)
    else none

-- the loop over the path's segments: the first one that is refused
unfoldable pub bad_segment? : List Text → Option Text
bad_segment? [] = none
bad_segment? (s ∷ ss) = if is_segment s then bad_segment? ss else some s

unfoldable pub prefix_of : List Text → Text
prefix_of [] = []
prefix_of (s ∷ ss) = b'/' ∷ join (b'/' ∷ []) (s ∷ ss)

-- `split("/").filter(Boolean)`
unfoldable pub segments_of : Text → List Text
segments_of path = keep (λ s. not (is_empty s)) (split b'/' path)

unfoldable pub finish : Text → List Text → Bool → Option Text → Result RouteStringError ParsedRoute
finish host segments http_only (some s) = err (bad_segment s)
finish host segments http_only none =
    ok (record { host = host; path_prefix = prefix_of segments; http_only = http_only })

-- parseRouteString after the scheme
unfoldable pub parse_rest : Text → Bool → Result RouteStringError ParsedRoute
parse_rest rest http_only =
    if includes rest b'?' || includes rest b'#'
    then err query_or_fragment
    else let host_part = before b'/' rest in
      let host = drop_final_dot (to_lower_case host_part) in
      let segments = segments_of (from_first b'/' rest) in
      if includes host_part b':'
      then err port_included
      else if not (is_hostname host)
      then err (invalid_hostname host_part)
      else finish host segments http_only (bad_segment? segments)

unfoldable pub parse_scheme : Text → Option (Text × Text) → Result RouteStringError ParsedRoute
parse_scheme s none = parse_rest s false
parse_scheme s (some (written, rest)) =
    let name = to_lower_case written in
    if not (text_eq name (codes "http")) && not (text_eq name (codes "https"))
    then err (unsupported_scheme name)
    else parse_rest rest (text_eq name (codes "http"))

unfoldable pub parse_route_string : Text → Result RouteStringError ParsedRoute
parse_route_string input = parse_scheme (trim input) (scheme (trim input))

pub record DomainRow : Type 0 where
  pub id : ℕ
  pub hostname : Text

unfoldable pub is_wildcard : Text → Bool
is_wildcard hostname = starts_with hostname (codes "*.")

unfoldable pub resolve_wildcard : Text → List DomainRow → Option (DomainRow × Text)
resolve_wildcard host domains =
    if not (includes host b'.')
    then none
    else let label = before b'.' host in
      let rest = slice 1 (from_first b'.' host) in
      elim (find (λ (d : DomainRow). text_eq d.hostname (codes "*." ++ rest)) domains) [
        | some d ↦ some (d, label)
        | none ↦ none
      ]

unfoldable pub resolve_route_host : Text → List DomainRow → Option (DomainRow × Text)
resolve_route_host host domains =
    elim (find (λ (d : DomainRow). not (is_wildcard d.hostname) && text_eq d.hostname host)
      domains) [ some d ↦ some (d, []) | none ↦ resolve_wildcard host domains ]

-- The host of a stored route, inside formatRouteString.
unfoldable pub route_host : Text → Text → Text
route_host hostname subdomain =
    if is_wildcard hostname
    then (if is_empty subdomain then hostname else subdomain ++ (b'.' ∷ slice 2 hostname))
    else hostname

-- `none` for the domainless catch-all
unfoldable pub format_route_string : Option Text → Text → Text → Bool → Option Text
format_route_string none subdomain path_prefix http_only = none
format_route_string (some hostname) subdomain path_prefix http_only =
    some (
      (if http_only then codes "http://" else []) ++ (route_host hostname subdomain ++ path_prefix))
