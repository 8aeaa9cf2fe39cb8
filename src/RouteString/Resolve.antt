-- ===== src/RouteString/Resolve.antt =====
-- Finding the domain row of a host.
use sitey.Prelude.{
  ℕ, ◌≡◌, ◌≢◌, refl, sym, ap, ◌∙◌, Bool, true, false, not, ◌&&◌, Option, none, some, inl, inr, List,
  [], ◌∷◌, ◌++◌, All, arith, is_empty, ◌==◌, find, find-some, find-none, find-In, In, All-map,
  Bool-cases, Option-cases, ok, subst, ◌⊎◌,
}
use sitey.Text.{Text, codes, includes, before, from_first, text_eq, slice, split}
use sitey.Text.Equal.{text_eq→eq, text_eq_self, starts_with_sound}
use sitey.Text.Split.{Lacks, from_first-append, before-append-from_first}
use sitey.RouteString.{
  ParsedRoute, DomainRow, is_wildcard, is_hostname, is_dns_label, resolve_route_host,
  resolve_wildcard, route_host, parse_route_string, format_route_string,
}
use sitey.RouteString.Hostname.{hostname-not_wildcard}
use sitey.RouteString.Parse.{parse_route_string-IsWellFormed}
use sitey.RouteString.RoundTrip.{parse-format}

pub from_first-cons :
    (c : ℕ) (s : Text) → includes s c ≡ true → from_first c s ≡ c ∷ slice 1 (from_first c s)
unfolding from_first
from_first-cons c [] h = absurd (ground arith)
from_first-cons c (d ∷ s) h = elim (Bool-cases (d == c)) [
  | inl e ↦ rw e (ground arith)
  | inr e ↦ rw e (from_first-cons c s (rw e at h))
]

-- A valid hostname does not begin with a dot.
pub label-not_empty :
    (host : Text)
    → is_hostname host ≡ true
    → includes host b'.' ≡ true
    → is_empty (before b'.' host) ≡ false
unfolding is_hostname split before
label-not_empty [] v h = absurd (ground arith)
label-not_empty (c ∷ s) v h = elim (Bool-cases (c == b'.')) [
  | inl e ↦ absurd (unfold is_dns_label in ground arith)
  | inr e ↦ rw e refl
]

pub wildcard-is_wildcard : (rest : Text) → is_wildcard (codes "*." ++ rest) ≡ true
unfolding is_wildcard
wildcard-is_wildcard [] = refl
wildcard-is_wildcard (c ∷ rest) = refl

abbrev pub is_exact : Text → DomainRow → Bool
is_exact host d = not (is_wildcard d.hostname) && text_eq d.hostname host

abbrev pub parent_of : Text → Text
parent_of host = slice 1 (from_first b'.' host)

abbrev pub is_parent : Text → DomainRow → Bool
is_parent host d = text_eq d.hostname (codes "*." ++ parent_of host)

abbrev pub Found : Text → List DomainRow → DomainRow → Text → Type 0
Found host domains d subdomain = In d domains × (route_host d.hostname subdomain ≡ host)

exact-Found :
    (host : Text) (domains : List DomainRow) (d : DomainRow)
    → find (is_exact host) domains ≡ some d
    → Found host domains d []
unfolding route_host
exact-Found host domains d h =
    let test = find-some (is_exact host) domains d h in
    let same = text_eq→eq d.hostname host (ground arith) in
    let plain : is_wildcard d.hostname ≡ false = ground arith in
    (find-In (is_exact host) domains d h, rw plain same)

parent-Found :
    (host : Text) (domains : List DomainRow) (d : DomainRow)
    → is_hostname host ≡ true
    → includes host b'.' ≡ true
    → find (is_parent host) domains ≡ some d
    → Found host domains d (before b'.' host)
unfolding route_host
parent-Found host domains d v dotted h =
    let same =
      text_eq→eq d.hostname (codes "*." ++ parent_of host)
        (find-some (is_parent host) domains d h) in
    (
      find-In (is_parent host) domains d h,
      rw (same, wildcard-is_wildcard (parent_of host), label-not_empty host v dotted)
          (ap (λ t. before b'.' host ++ t) (sym (from_first-cons b'.' host dotted))
            ∙ before-append-from_first b'.' host),
    )

-- The host that resolveRouteHost is given is the host of the domain row and subdomain that it returns, as
-- formatRouteString and the Caddy configuration put them together, and the row is one of those given.
pub resolve_route_host-Found :
    (host : Text) (domains : List DomainRow) (d : DomainRow) (subdomain : Text)
    → is_hostname host ≡ true
    → resolve_route_host host domains ≡ some (d, subdomain)
    → Found host domains d subdomain
unfolding resolve_route_host resolve_wildcard
resolve_route_host-Found host domains d subdomain v h =
    elim (Option-cases (find (is_exact host) domains)) [
      | inl e ↦ elim (Bool-cases (includes host b'.')) [
        | inl dotted ↦ elim (Option-cases (find (is_parent host) domains)) [
          | inl e' ↦ absurd (ground arith)
          | inr (d', e') ↦
              let same : ◌≡◌ {A = Option (DomainRow × Text)} (some (d', before b'.' host))
                  (some (d, subdomain)) =
                ground arith in
              let at_d : d' ≡ d = cc in
              let at_s : before b'.' host ≡ subdomain = cc in
              subst (λ t. Found host domains d t) at_s
                (subst (λ x. Found host domains x (before b'.' host)) at_d
                  (parent-Found host domains d' v dotted e'))
        ]
        | inr plain ↦ absurd (ground arith)
      ]
      | inr (d', e) ↦
          let at_d : d' ≡ d = ground arith in
          let at_s : [] ≡ subdomain = ground arith in
          subst (λ t. Found host domains d t) at_s
            (subst (λ x. Found host domains x []) at_d (exact-Found host domains d' e))
    ]

includes-append : (w s : Text) → includes (w ++ b'.' ∷ s) b'.' ≡ true
includes-append [] s = refl
includes-append (c ∷ w) s = ground (arith, includes-append w s)

-- The domain row covers the host: the host is the row's own, or one label below a wildcard row.
abbrev pub Covers : DomainRow → Text → Type 0
Covers d host =
    (subdomain : Text) × Lacks b'.' subdomain
    × (is_empty subdomain ≡ false)
    × (route_host d.hostname subdomain ≡ host)

not_exact :
    (host : Text) (d : DomainRow)
    → is_wildcard d.hostname ≡ false
    → is_exact host d ≡ false
    → d.hostname ≢ host
not_exact host d plain h e =
    let yes_eq : text_eq d.hostname host ≡ true = rw e (text_eq_self host) in absurd (ground arith)

pub below_parent :
    (host r sub : Text) (d : DomainRow)
    → d.hostname ≡ codes "*." ++ r
    → Lacks b'.' sub
    → sub ++ b'.' ∷ r ≡ host
    → (includes host b'.' ≡ true) × (is_parent host d ≡ true)
below_parent host r sub d named lacks e = (
  rw (← e) (includes-append sub r),
  rw (named, ← e, from_first-append b'.' sub r lacks) (text_eq_self (codes "*." ++ r)),
)

not_covered :
    (host : Text) (d : DomainRow)
    → is_exact host d ≡ false
    → (includes host b'.' ≡ true → is_parent host d ≡ false)
    → ¬ Covers d host
unfolding route_host
not_covered host d h k (sub, lacks, named, e) = elim (Bool-cases (is_wildcard d.hostname)) [
  | inr plain ↦ not_exact host d plain h (rw plain at e)
  | inl wild ↦
      let (r, form) = starts_with_sound d.hostname (codes "*.") (unfold is_wildcard in wild) in
      let (dotted, parent) = below_parent host r sub d form lacks (rw (wild, named, form) at e) in
      cc (k dotted)
]

All-zip :
    (P Q R : DomainRow → Type 0) (xs : List DomainRow)
    → ((d : DomainRow) → P d → Q d → R d)
    → All P xs
    → All Q xs
    → All R xs
All-zip P Q R [] f h k = tt
All-zip P Q R (x ∷ xs) f h k = (f x h.0 k.0, All-zip P Q R xs f h.1 k.1)

no_parent :
    (host : Text) (domains : List DomainRow)
    → resolve_wildcard host domains ≡ none
    → All (λ d. includes host b'.' ≡ true → is_parent host d ≡ false) domains
unfolding resolve_wildcard
no_parent host domains h = elim (Bool-cases (includes host b'.')) [
  | inr plain ↦ All-trivial domains plain
  | inl dotted ↦ elim (Option-cases (find (is_parent host) domains)) [
    | inl e ↦ All-map _ _ domains (λ d k _. k) (find-none (is_parent host) domains e)
    | inr (d, e) ↦ absurd (ground arith)
  ]
]
  where
    All-trivial :
        (ds : List DomainRow)
        → includes host b'.' ≡ false
        → All (λ d. includes host b'.' ≡ true → is_parent host d ≡ false) ds
    All-trivial [] plain = tt
    All-trivial (d ∷ ds) plain = ((λ k. absurd (ground arith)), All-trivial ds plain)

-- Where resolveRouteHost finds nothing, no domain row covers the host, be it by its own name or as a
-- wildcard one label above.
resolve_route_host-none :
    (host : Text) (domains : List DomainRow)
    → resolve_route_host host domains ≡ none
    → All (λ d. ¬ Covers d host) domains
unfolding resolve_route_host
resolve_route_host-none host domains h = elim (Option-cases (find (is_exact host) domains)) [
  | inr (d, e) ↦ absurd (ground arith)
  | inl e ↦
      All-zip _ _ _ domains (not_covered host) (find-none (is_exact host) domains e)
        (no_parent host domains (ground arith))
]

-- For a valid host, resolveRouteHost finds one of the rows given, with the subdomain that makes its host the one
-- asked for, as formatRouteString and the Caddy configuration put them together; or it finds nothing, and then
-- no row covers the host, be it by its own name or as a wildcard one label above.
pub resolve_route_host_cases :
    (host : Text) (domains : List DomainRow)
    → is_hostname host ≡ true
    → ((d : DomainRow) × (subdomain : Text) × (resolve_route_host host domains
          ≡ some (d, subdomain))
        × Found host domains d subdomain)
      ⊎ ((resolve_route_host host domains ≡ none) × All (λ d. ¬ Covers d host) domains)
resolve_route_host_cases host domains v = elim (Option-cases (resolve_route_host host domains)) [
  | inl e ↦ inr (e, resolve_route_host-none host domains e)
  | inr ((d, subdomain), e) ↦
      inl (d, subdomain, e, resolve_route_host-Found host domains d subdomain v e)
]

format-congr :
    (h h' sub sub' p : Text) (b : Bool)
    → route_host h sub ≡ route_host h' sub'
    → format_route_string (some h) sub p b ≡ format_route_string (some h') sub' p b
unfolding format_route_string
format-congr h h' sub sub' p b e = rw e

route_host-own : (host : Text) → is_hostname host ≡ true → route_host host [] ≡ host
unfolding route_host
route_host-own host v = rw (hostname-not_wildcard host v)

-- The route that resolveRouteInput builds for an accepted route string, printed for the domain row and
-- subdomain that were found, parses back to the route that was asked for.
pub parse-resolve :
    (input : Text) (r : ParsedRoute) (domains : List DomainRow) (d : DomainRow) (subdomain : Text)
    → parse_route_string input ≡ ok r
    → resolve_route_host r.host domains ≡ some (d, subdomain)
    → (s : Text) × (format_route_string (some d.hostname) subdomain r.path_prefix r.http_only
        ≡ some s)
      × (parse_route_string s ≡ ok r)
parse-resolve input r domains d subdomain parsed found =
    let w = parse_route_string-IsWellFormed input r parsed in
    let (s, printed, reparsed) = parse-format r w in
    (
      s,
      format-congr d.hostname r.host subdomain [] r.path_prefix r.http_only (
            (resolve_route_host-Found r.host domains d subdomain w.host_valid found).1
            ∙ sym (route_host-own r.host w.host_valid))
          ∙ printed,
      reparsed,
    )
