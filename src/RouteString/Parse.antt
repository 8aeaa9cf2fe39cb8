-- ===== src/RouteString/Parse.antt =====
-- What a parsed route looks like.
use sitey.Prelude.{
  ◌≡◌, refl, Bool, true, false, Option, none, some, inl, inr, List, [], ◌∷◌, Bool-cases, All, arith,
  ok, subst, sym,
}
use sitey.Text.{Text, codes, to_lower_case, before, from_first, drop_final_dot, trim, text_eq}
use sitey.RouteString.{
  ParsedRoute, is_hostname, is_segment, bad_segment?, prefix_of, segments_of, finish, parse_rest,
  parse_scheme, scheme, parse_route_string,
}

-- A path prefix: "" or "/" and allowed segments joined by "/".
abbrev pub IsPathPrefix : Text → Type 0
IsPathPrefix p = (ss : List Text) × All (λ s. is_segment s ≡ true) ss × (p ≡ prefix_of ss)

pub record IsWellFormed (r : ParsedRoute) : Type 0 where
  pub host_valid : is_hostname r.host ≡ true
  pub path_valid : IsPathPrefix r.path_prefix

bad_segment?-none : (ss : List Text) → bad_segment? ss ≡ none → All (λ s. is_segment s ≡ true) ss
unfolding bad_segment?
bad_segment?-none [] h = tt
bad_segment?-none (s ∷ ss) h = elim (Bool-cases (is_segment s)) [
  | inl e ↦ (e, bad_segment?-none ss (rw e at h))
  | inr e ↦ absurd (ground arith)
]

finish-IsWellFormed :
    (host : Text) (ss : List Text) (b : Bool) (bad : Option Text) (r : ParsedRoute)
    → is_hostname host ≡ true
    → bad ≡ bad_segment? ss
    → finish host ss b bad ≡ ok r
    → IsWellFormed r × (r.http_only ≡ b)
unfolding finish
finish-IsWellFormed host ss b (some s) r v e h = absurd (ground arith)
finish-IsWellFormed host ss b none r v e h =
    let same : ParsedRoute = record { host = host; path_prefix = prefix_of ss; http_only = b } in
    let eq : same ≡ r = ground arith in
    subst (λ q. IsWellFormed q × (q.http_only ≡ b)) eq
      (record { host_valid = v; path_valid = (ss, bad_segment?-none ss (sym e), refl) }, refl)

parse_rest-IsWellFormed :
    (rest : Text) (b : Bool) (r : ParsedRoute)
    → parse_rest rest b ≡ ok r
    → IsWellFormed r × (r.http_only ≡ b)
unfolding parse_rest
parse_rest-IsWellFormed rest b r h =
    let host = drop_final_dot (to_lower_case (before b'/' rest)) in
    let ss = segments_of (from_first b'/' rest) in
    finish-IsWellFormed host ss b (bad_segment? ss) r (ground arith) refl (ground arith)

parse_scheme-IsWellFormed :
    (s : Text) (o : Option (Text × Text)) (r : ParsedRoute)
    → parse_scheme s o ≡ ok r
    → IsWellFormed r
unfolding parse_scheme
parse_scheme-IsWellFormed s none r e = (parse_rest-IsWellFormed s false r e).0
parse_scheme-IsWellFormed s (some (name, rest)) r e =
    (parse_rest-IsWellFormed rest (text_eq (to_lower_case name) (codes "http")) r (ground arith)).0

-- A route string that is accepted gives a valid lower-case hostname (with no port) and a path
-- prefix that is "" or "/" and allowed segments joined by "/".
pub parse_route_string-IsWellFormed :
    (input : Text) (r : ParsedRoute) → parse_route_string input ≡ ok r → IsWellFormed r
unfolding parse_route_string
parse_route_string-IsWellFormed input r h =
    parse_scheme-IsWellFormed (trim input) (scheme (trim input)) r h
