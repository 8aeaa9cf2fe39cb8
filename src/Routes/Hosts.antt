-- ===== src/Routes/Hosts.antt =====
-- The host a row stands for, and the query of routesForHost.
use sitey.Prelude.{
  ◌≡◌, ◌≢◌, ◌↔◌, refl, sym, ap, ◌∙◌, true, false, Option, none, some, List, [], ◌∷◌, ◌++◌, All,
  Pairwise, is_empty, arith, Bool-cases, inl, inr, In, All-In, subst, In-keep, keep-In,
}
use sitey.Text.{Text, codes, text_eq, includes, before, from_first, slice}
use sitey.Text.Equal.{text_eq→eq, text_eq_self, starts_with_sound}
use sitey.Text.Split.{Lacks, before-append, before-append-from_first}
use sitey.RouteString.{DomainRow, is_wildcard, is_hostname, route_host}
use sitey.RouteString.Hostname.{hostname-not_wildcard}
use sitey.RouteString.Resolve.{from_first-cons, below_parent, wildcard-is_wildcard}
use sitey.Routes.{ServiceRoute, at_domain, at_host, routes_for_host}

-- The host under which Caddy serves the row, `none` for the domainless catch-all.
abbrev pub effective_host : Option DomainRow → Text → Option Text
effective_host none subdomain = none
effective_host (some d) subdomain = some (route_host d.hostname subdomain)

abbrev pub effective : ServiceRoute → Option Text
effective r = effective_host r.domain r.subdomain

-- Under a wildcard domain the subdomain is one label.
abbrev pub IsLabelled : Option DomainRow → Text → Type 0
IsLabelled none subdomain = Unit
IsLabelled (some d) subdomain =
    is_wildcard d.hostname ≡ true → Lacks b'.' subdomain × (is_empty subdomain ≡ false)

abbrev pub SameScheme : Option Text → ServiceRoute → ServiceRoute → Type 0
SameScheme none r q = Unit
SameScheme (some host) r q = r.http_only ≡ q.http_only

-- Two rows with one host have different paths, and the same HTTP-only setting unless they have no domain.
abbrev pub Apart : ServiceRoute → ServiceRoute → Type 0
Apart r q =
    effective r ≡ effective q → (r.path_prefix ≢ q.path_prefix) × SameScheme (effective r) r q

pub record IsConsistent (rows : List ServiceRoute) : Type 0 where
  pub labelled : All (λ r. IsLabelled r.domain r.subdomain) rows
  pub apart : Pairwise Apart rows

wildcard-host :
    (host sub : Text) (d : DomainRow)
    → is_wildcard d.hostname ≡ true
    → is_empty sub ≡ false
    → includes host b'.' ≡ true
    → d.hostname ≡ codes "*." ++ slice 1 (from_first b'.' host)
    → sub ≡ before b'.' host
    → route_host d.hostname sub ≡ host
unfolding route_host
wildcard-host host sub d wild full dotted named labelled =
    rw (wild, full, labelled, named)
      (ap (λ t. before b'.' host ++ t) (sym (from_first-cons b'.' host dotted))
        ∙ before-append-from_first b'.' host)

plain-host :
    (host sub : Text) (d : DomainRow)
    → is_hostname host ≡ true
    → d.hostname ≡ host
    → route_host d.hostname sub ≡ host
unfolding route_host
plain-host host sub d v e = rw (e, hostname-not_wildcard host v) refl

pub at_domain_sound :
    (host sub : Text) (d : DomainRow)
    → is_hostname host ≡ true
    → IsLabelled (some d) sub
    → at_domain host sub (some d) ≡ true
    → route_host d.hostname sub ≡ host
unfolding at_domain
at_domain_sound host sub d v l h = elim (Bool-cases (text_eq d.hostname host)) [
  | inl e ↦ plain-host host sub d v (text_eq→eq d.hostname host e)
  | inr e ↦
      let named =
        text_eq→eq d.hostname (codes "*." ++ slice 1 (from_first b'.' host)) (ground arith) in
      let wild : is_wildcard d.hostname ≡ true =
        rw named (wildcard-is_wildcard (slice 1 (from_first b'.' host))) in
      wildcard-host host sub d wild (l wild).1 (ground arith) named
        (text_eq→eq sub (before b'.' host) (ground arith))
]

below-parent :
    (host sub r : Text) (d : DomainRow)
    → d.hostname ≡ codes "*." ++ r
    → Lacks b'.' sub
    → sub ++ b'.' ∷ r ≡ host
    → at_domain host sub (some d) ≡ true
unfolding at_domain
below-parent host sub r d named lacks e =
    let (dotted, parent) = below_parent host r sub d named lacks e in
    let label : text_eq sub (before b'.' host) ≡ true =
      rw (← e, before-append b'.' sub r lacks) (text_eq_self sub) in
    ground arith

pub at_domain_complete :
    (host sub : Text) (d : DomainRow)
    → IsLabelled (some d) sub
    → route_host d.hostname sub ≡ host
    → at_domain host sub (some d) ≡ true
unfolding at_domain route_host
at_domain_complete host sub d l e = elim (Bool-cases (is_wildcard d.hostname)) [
  | inr plain ↦ let e' : d.hostname ≡ host = rw plain at e in rw (e', text_eq_self host) refl
  | inl wild ↦
      let (r, form) = starts_with_sound d.hostname (codes "*.") (unfold is_wildcard in wild) in
      let full = (l wild).1 in
      below-parent host sub r d form (l wild).0 (rw (wild, full, form) at e)
]

-- For a valid host name the query of routesForHost selects a row of a consistent table exactly if the row is
-- served under that host, be it by an exact domain row or by a wildcard one and a label.
pub at_host_iff :
    (host : Text) (r : ServiceRoute)
    → is_hostname host ≡ true
    → IsLabelled r.domain r.subdomain
    → (at_host host r ≡ true) ↔ (effective r ≡ some host)
unfolding at_host at_domain
at_host_iff host r v l = by_domain r.domain r.subdomain l
  where
    by_domain :
        (d : Option DomainRow) (sub : Text)
        → IsLabelled d sub
        → (at_domain host sub d ≡ true) ↔ (effective_host d sub ≡ some host)
    by_domain none sub k = ((λ h. ground arith), (λ h. ground arith))
    by_domain (some d) sub k = (
      (λ h. ap some (at_domain_sound host sub d v k h)),
      (λ h. at_domain_complete host sub d k (ground arith)),
    )

Apart-related :
    (r : ServiceRoute) (rows : List ServiceRoute) (q : ServiceRoute)
    → All (Apart r) rows
    → In q rows
    → effective r ≡ effective q
    → (r.path_prefix ≢ q.path_prefix) × SameScheme (effective r) r q
Apart-related r rows q h i e = All-In (Apart r) rows q h i e

-- In a consistent table no two rows have the same host and path.
pub Apart-unique :
    (rows : List ServiceRoute) (r q : ServiceRoute)
    → Pairwise Apart rows
    → In r rows
    → In q rows
    → effective r ≡ effective q
    → r.path_prefix ≡ q.path_prefix
    → r ≡ q
Apart-unique [] r q h i j e p = absurd i.lower
Apart-unique (x ∷ rows) r q h (inl i) (inl j) e p = i ∙ sym j
Apart-unique (x ∷ rows) r q h (inl i) (inr j) e p =
    let at_r : All (Apart r) rows = subst (λ k. All (Apart k) rows) (sym i) h.0 in
    absurd ((Apart-related r rows q at_r j e).0 p)
Apart-unique (x ∷ rows) r q h (inr i) (inl j) e p =
    let at_q : All (Apart q) rows = subst (λ k. All (Apart k) rows) (sym j) h.0 in
    absurd ((Apart-related q rows r at_q i (sym e)).0 (sym p))
Apart-unique (x ∷ rows) r q h (inr i) (inr j) e p = Apart-unique rows r q h.1 i j e p

SameScheme-at :
    (host : Text) (e : Option Text) (r q : ServiceRoute)
    → e ≡ some host
    → SameScheme e r q
    → r.http_only ≡ q.http_only
SameScheme-at host none r q e h = absurd (ground arith)
SameScheme-at host (some t) r q e h = h

-- In a consistent table the rows of one host have one HTTP-only setting.
pub Apart-scheme :
    (host : Text) (rows : List ServiceRoute) (r q : ServiceRoute)
    → Pairwise Apart rows
    → In r rows
    → In q rows
    → effective r ≡ some host
    → effective q ≡ some host
    → r.http_only ≡ q.http_only
Apart-scheme host [] r q h i j e f = absurd i.lower
Apart-scheme host (x ∷ rows) r q h (inl i) (inl j) e f = ap (λ k. k.http_only) (i ∙ sym j)
Apart-scheme host (x ∷ rows) r q h (inl i) (inr j) e f =
    let at_r : All (Apart r) rows = subst (λ k. All (Apart k) rows) (sym i) h.0 in
    SameScheme-at host (effective r) r q e (Apart-related r rows q at_r j (e ∙ sym f)).1
Apart-scheme host (x ∷ rows) r q h (inr i) (inl j) e f =
    let at_q : All (Apart q) rows = subst (λ k. All (Apart k) rows) (sym j) h.0 in
    sym (SameScheme-at host (effective q) q r f (Apart-related q rows r at_q i (f ∙ sym e)).1)
Apart-scheme host (x ∷ rows) r q h (inr i) (inr j) e f = Apart-scheme host rows r q h.1 i j e f

-- In a consistent table the query of routesForHost selects the rows with that host.
pub row_listed :
    (host : Text) (rows : List ServiceRoute) (r : ServiceRoute)
    → is_hostname host ≡ true
    → IsConsistent rows
    → In r rows
    → effective r ≡ some host
    → In r (routes_for_host host rows)
unfolding routes_for_host
row_listed host rows r v c i e =
    keep-In (at_host host) rows r i (
      (at_host_iff host r v (All-In (λ r. IsLabelled r.domain r.subdomain) rows r c.labelled i)).1
        e)

pub listed_row :
    (host : Text) (rows : List ServiceRoute) (r : ServiceRoute)
    → is_hostname host ≡ true
    → IsConsistent rows
    → In r (routes_for_host host rows)
    → In r rows × (effective r ≡ some host)
unfolding routes_for_host
listed_row host rows r v c i =
    let (k, t) = In-keep (at_host host) rows r i in
    (
      k,
      (at_host_iff host r v (All-In (λ r. IsLabelled r.domain r.subdomain) rows r c.labelled k)).0
          t,
    )
