-- ===== src/RouteString/RoundTrip.antt =====
-- Printing a route and parsing it again.
use sitey.Prelude.{
  ℕ, ◌≡◌, refl, ap, ◌∙◌, Bool, true, false, not, ◌||◌, Option, none, some, List, [], ◌∷◌, ◌++◌, All,
  All-append, All-map, all_iff, any_none, arith, is_empty, keep, keep_of_All, ◌==◌, append-nil, ok,
}
use sitey.Text.{
  Text, codes, includes, before, from_first, trim, is_space, split, join, is_lower, lower,
}
use sitey.Text.Split.{
  Lacks, split-join, split-append, before-append, before_of_Lacks, from_first-append,
  from_first_of_Lacks, join-All,
}
use sitey.Text.Trim.{All-IsTrimmed, trim_of_IsTrimmed}
use sitey.RouteString.{
  ParsedRoute, is_hostname, is_segment, is_segment_char, bad_segment?, prefix_of, segments_of,
  finish, parse_rest, parse_scheme, scheme, parse_route_string, format_route_string, route_host,
  is_scheme_name, is_scheme_char, lower,
}
use sitey.RouteString.Hostname.{
  SegmentChars, hostname-SegmentChars, hostname-lower, hostname-drop_final_dot,
  hostname-not_wildcard,
}
use sitey.RouteString.Parse.{IsWellFormed}

-- The characters of a printed route after its scheme.
abbrev RouteChars : Text → Type 0
RouteChars s = All (λ c. (is_segment_char c || c == b'/') ≡ true) s

module _ (c : ℕ) (e : (is_segment_char c || c == b'/') ≡ true) where
  route_char-Solid : is_space c ≡ false
  unfolding is_segment_char is_space
  route_char-Solid = ground arith

  route_char-ne_query : (c == b'?') ≡ false
  unfolding is_segment_char
  route_char-ne_query = ground arith

  route_char-ne_fragment : (c == b'#') ≡ false
  unfolding is_segment_char
  route_char-ne_fragment = ground arith

  route_char-ne_colon : (c == b':') ≡ false
  unfolding is_segment_char
  route_char-ne_colon = ground arith

segment_char-ne_slash : (c : ℕ) → is_segment_char c ≡ true → (c == b'/') ≡ false
unfolding is_segment_char
segment_char-ne_slash c e = ground arith

segment-SegmentChars : (s : Text) → is_segment s ≡ true → SegmentChars s
segment-SegmentChars s h = (all_iff is_segment_char s).0 (unfold is_segment in ground arith)

segment-not_empty : (s : Text) → is_segment s ≡ true → not (is_empty s) ≡ true
unfolding is_segment
segment-not_empty s h = ground arith

SegmentChars-no_slash : (s : Text) → SegmentChars s → Lacks b'/' s
SegmentChars-no_slash s h = All-map _ _ s segment_char-ne_slash h

SegmentChars-RouteChars : (s : Text) → SegmentChars s → RouteChars s
SegmentChars-RouteChars s h = All-map _ _ s (λ c e. rw e refl) h

abbrev pub Segments : List Text → Type 0
Segments ss = All (λ s. is_segment s ≡ true) ss

prefix_of-RouteChars : (ss : List Text) → Segments ss → RouteChars (prefix_of ss)
unfolding prefix_of
prefix_of-RouteChars [] h = tt
prefix_of-RouteChars (s ∷ ss) h = (
  slash_char,
  join-All _ (b'/' ∷ []) (s ∷ ss) (slash_char, tt)
      (All-map _ _ (s ∷ ss) (λ w e. SegmentChars-RouteChars w (segment-SegmentChars w e)) h),
)
  where
    slash_char : (is_segment_char b'/' || b'/' == b'/') ≡ true
    slash_char = ground arith

segments_of-prefix_of : (ss : List Text) → Segments ss → segments_of (prefix_of ss) ≡ ss
unfolding segments_of prefix_of
segments_of-prefix_of [] h = unfold split in refl
segments_of-prefix_of (s ∷ ss) h =
    ap (keep (λ w. not (is_empty w))) (split-append b'/' [] (join (b'/' ∷ []) (s ∷ ss)) tt)
    ∙ ap (keep (λ w. not (is_empty w))) (
        ap (λ ws. [] ∷ ws)
          (split-join b'/' s ss
            (All-map _ _ (s ∷ ss) (λ w e. SegmentChars-no_slash w (segment-SegmentChars w e)) h)))
    ∙ keep_of_All (λ w. not (is_empty w)) (s ∷ ss) (All-map _ _ (s ∷ ss) segment-not_empty h)

bad_segment?_of_Segments : (ss : List Text) → Segments ss → bad_segment? ss ≡ none
unfolding bad_segment?
bad_segment?_of_Segments [] h = refl
bad_segment?_of_Segments (s ∷ ss) h = rw h.0 (bad_segment?_of_Segments ss h.1)

module _ (host : Text) (ss : List Text) (v : is_hostname host ≡ true) (h : Segments ss) where
  host-no_slash : Lacks b'/' host
  host-no_slash = SegmentChars-no_slash host (hostname-SegmentChars host v)

  printed-RouteChars : RouteChars (host ++ prefix_of ss)
  printed-RouteChars =
      All-append _ host (prefix_of ss) (SegmentChars-RouteChars host (hostname-SegmentChars host v))
        (prefix_of-RouteChars ss h)

before-prefix_of :
    (host : Text) (ss : List Text) → Lacks b'/' host → before b'/' (host ++ prefix_of ss) ≡ host
unfolding prefix_of
before-prefix_of host [] h = rw append-nil (before_of_Lacks b'/' host h)
before-prefix_of host (s ∷ ss) h = before-append b'/' host (join (b'/' ∷ []) (s ∷ ss)) h

from_first-prefix_of :
    (host : Text) (ss : List Text)
    → Lacks b'/' host
    → from_first b'/' (host ++ prefix_of ss) ≡ prefix_of ss
unfolding prefix_of
from_first-prefix_of host [] h = rw append-nil (from_first_of_Lacks b'/' host h)
from_first-prefix_of host (s ∷ ss) h = from_first-append b'/' host (join (b'/' ∷ []) (s ∷ ss)) h

printed-includes : (s : Text) → RouteChars s → (includes s b'?' ≡ false) × (includes s b'#' ≡ false)
printed-includes s h = (
  any_none _ s (All-map _ _ s route_char-ne_query h),
  any_none _ s (All-map _ _ s route_char-ne_fragment h),
)

host-no_colon : (host : Text) → RouteChars host → includes host b':' ≡ false
host-no_colon host h = any_none _ host (All-map _ _ host route_char-ne_colon h)

abbrev route_of : Text → List Text → Bool → ParsedRoute
route_of host ss http_only = record {
  host = host;
  path_prefix = prefix_of ss;
  http_only = http_only;
}

parse_rest-printed :
    (host : Text) (ss : List Text) (b : Bool)
    → is_hostname host ≡ true
    → Segments ss
    → parse_rest (host ++ prefix_of ss) b ≡ ok (route_of host ss b)
unfolding parse_rest finish
parse_rest-printed host ss b v h =
    let (no_query, no_fragment) =
      printed-includes (host ++ prefix_of ss) (printed-RouteChars host ss v h) in
    let no_colon =
      host-no_colon host (SegmentChars-RouteChars host (hostname-SegmentChars host v)) in
    rw
      (
        no_query,
        no_fragment,
        before-prefix_of host ss (host-no_slash host ss v h),
        from_first-prefix_of host ss (host-no_slash host ss v h),
        no_colon,
        hostname-lower host v,
        hostname-drop_final_dot host v,
        v,
        segments_of-prefix_of ss h,
        bad_segment?_of_Segments ss h,
      )
      refl

trim-printed : (s : Text) → RouteChars s → trim s ≡ s
trim-printed s h = trim_of_IsTrimmed s (All-IsTrimmed s (All-map _ _ s route_char-Solid h))

no_scheme : (s : Text) → RouteChars s → scheme s ≡ none
unfolding scheme
no_scheme s h =
    rw (from_first_of_Lacks b':' s (All-map _ _ s route_char-ne_colon h)) (ground (arith))

http_scheme : (s : Text) → scheme (codes "http://" ++ s) ≡ some (codes "http", s)
unfolding scheme is_scheme_name is_scheme_char before from_first is_lower
http_scheme s = refl

printed_http-Solid : (s : Text) → RouteChars s → trim (codes "http://" ++ s) ≡ codes "http://" ++ s
unfolding is_space
printed_http-Solid s h = trim_of_IsTrimmed (codes "http://" ++ s) (
    All-IsTrimmed (codes "http://" ++ s)
      (refl, (refl, (refl, (refl, (refl, (refl, (refl, All-map _ _ s route_char-Solid h))))))))

abbrev scheme_text : Bool → Text
scheme_text true = codes "http://"
scheme_text false = []

parse-printed :
    (host : Text) (ss : List Text) (b : Bool)
    → is_hostname host ≡ true
    → Segments ss
    → parse_route_string (scheme_text b ++ (host ++ prefix_of ss)) ≡ ok (route_of host ss b)
unfolding parse_route_string parse_scheme
parse-printed host ss true v h =
    let chars = printed-RouteChars host ss v h in
    rw (printed_http-Solid (host ++ prefix_of ss) chars, http_scheme (host ++ prefix_of ss))
      (unfold lower in parse_rest-printed host ss true v h)
parse-printed host ss false v h =
    let chars = printed-RouteChars host ss v h in
    rw (trim-printed (host ++ prefix_of ss) chars, no_scheme (host ++ prefix_of ss) chars)
      (parse_rest-printed host ss false v h)

-- The route that is printed for a domain row of its own host.
abbrev pub print : ParsedRoute → Option Text
print r = format_route_string (some r.host) [] r.path_prefix r.http_only

print-eq :
    (host : Text) (p : Text) (b : Bool)
    → is_hostname host ≡ true
    → format_route_string (some host) [] p b ≡ some (scheme_text b ++ (host ++ p))
unfolding format_route_string route_host
print-eq host p true v = rw (hostname-not_wildcard host v)
print-eq host p false v = rw (hostname-not_wildcard host v)

-- A well-formed route, printed by formatRouteString for a domain row of its host, parses back to
-- itself: the host, the path prefix and the HTTP-only mark.
pub parse-format :
    (r : ParsedRoute)
    → IsWellFormed r
    → (s : Text) × (print r ≡ some s) × (parse_route_string s ≡ ok r)
parse-format r w =
    let (ss, h, e) = w.path_valid in
    (
      scheme_text r.http_only ++ (r.host ++ r.path_prefix),
      print-eq r.host r.path_prefix r.http_only w.host_valid,
      reparse ss h e,
    )
  where
    reparse :
        (ss : List Text)
        → Segments ss
        → r.path_prefix ≡ prefix_of ss
        → parse_route_string (scheme_text r.http_only ++ (r.host ++ r.path_prefix)) ≡ ok r
    reparse ss h e = rw e (parse-printed r.host ss r.http_only w.host_valid h)
