-- ===== src/Routes/Remove.antt =====
-- insertDomainlessRoute, and removeRoute of server/src/routers/services.ts.
use sitey.Prelude.{
  ℕ, ◌≡◌, ◌≢◌, sym, ◌∙◌, Bool, true, not, Option, none, some, List, [], ◌∷◌, ◌++◌, arith,
  Bool-cases, Option-cases, inl, inr, ◌&&◌, ok, In, find, ◌==◌, subst, any, All-In, All-append,
  In-keep, find-exists, find-none, Pairwise-append, keep, All-of_In, find-In, find-some,
}
use sitey.Text.{Text, text_eq}
use sitey.Text.Equal.{text_eq_self, text_eq→eq}
use sitey.RouteString.{DomainRow, ParsedRoute, is_hostname}
use sitey.Routes.{
  ServiceRoute, insert_domainless_route, is_domainless, remove_route, claim_route, delete_route,
  existing_or, Removed, create_route, has_no_domain, Service, Inserted, domainless_row, same_key,
  is_owned_at, routes_for_host,
}
use sitey.Routes.Hosts.{
  effective, Apart, IsConsistent, effective_host, IsLabelled, SameScheme, Apart-unique, row_listed,
  listed_row,
}

is_domainless-row :
    (path : Text) (r : ServiceRoute)
    → effective r ≡ none
    → r.path_prefix ≡ path
    → is_domainless path r ≡ true
unfolding is_domainless
is_domainless-row path r e p = by_domain r.domain e
  where
    by_domain :
        (d : Option DomainRow)
        → effective_host d r.subdomain ≡ none
        → has_no_domain d && text_eq r.path_prefix path ≡ true
    by_domain none h = rw p (text_eq_self path)
    by_domain (some d) h = absurd (ground arith)

Apart-domainless :
    (id : Text) (service : Service) (path : Text) (http_only : Bool) (rows : List ServiceRoute)
    (r : ServiceRoute)
    → find (is_domainless path) rows ≡ none
    → In r rows
    → Apart r (domainless_row id service path http_only)
unfolding domainless_row
Apart-domainless id service path http_only rows r f i e = (
  (λ p.
      let t = is_domainless-row path r e p in
      let u = All-In _ rows r (find-none (is_domainless path) rows f) i in cc),
  subst (λ h. SameScheme h r (domainless_row id service path http_only)) (sym e) tt,
)

-- A call of insertDomainlessRoute that succeeds on a consistent table leaves a consistent table: of the rows
-- without a domain no two have the same path.
pub insert_domainless_route-IsConsistent :
    (id : Text) (service : Service) (path : Text) (http_only : Bool) (rows : List ServiceRoute)
    (a : Inserted)
    → IsConsistent rows
    → insert_domainless_route id service path http_only rows ≡ ok a
    → IsConsistent a.rows
unfolding insert_domainless_route claim_route existing_or create_route domainless_row
insert_domainless_route-IsConsistent id service path http_only rows a c e =
    elim (Option-cases (find (is_domainless path) rows)) [
      | inr (r, f) ↦ elim (Bool-cases (r.service.id == service.id)) [
        | inr o ↦ absurd (ground arith)
        | inl o ↦ let same : rows ≡ a.rows = ground arith in subst IsConsistent same c
      ]
      | inl f ↦ elim (Bool-cases (any (same_key (domainless_row id service path http_only)) rows)) [
        | inl k ↦ absurd (ground arith)
        | inr k ↦
            let same : rows ++ domainless_row id service path http_only ∷ [] ≡ a.rows =
              ground arith in
            subst IsConsistent same (appended f)
      ]
    ]
  where
    appended :
        find (is_domainless path) rows ≡ none
        → IsConsistent (rows ++ domainless_row id service path http_only ∷ [])
    appended f = record {
      labelled = All-append (λ r. IsLabelled r.domain r.subdomain) rows _ c.labelled (tt, tt);
      apart =
          Pairwise-append Apart rows _ c.apart
            (All-of_In _ rows (λ r i. Apart-domainless id service path http_only rows r f i));
    }

owned_at :
    (service_id : ℕ) (path : Text) (r : ServiceRoute)
    → r.service.id ≡ service_id
    → r.path_prefix ≡ path
    → is_owned_at service_id path r ≡ true
unfolding is_owned_at
owned_at service_id path r o p =
    let t : text_eq r.path_prefix path ≡ true = rw p (text_eq_self path) in ground arith

owned-path :
    (service_id : ℕ) (path : Text) (r : ServiceRoute)
    → is_owned_at service_id path r ≡ true
    → r.path_prefix ≡ path
unfolding is_owned_at
owned-path service_id path r h = text_eq→eq r.path_prefix path (ground arith)

-- After removeRoute has answered for a host and path on a consistent table, with no change of the table by others
-- between its query and its deletion, no row of the service is left under that host and path.
pub remove_route-gone :
    (service_id : ℕ) (parsed : ParsedRoute) (rows : List ServiceRoute) (a : Removed)
    (r : ServiceRoute)
    → is_hostname parsed.host ≡ true
    → IsConsistent rows
    → remove_route service_id parsed rows ≡ ok a
    → In r a.rows
    → effective r ≡ some parsed.host
    → r.path_prefix ≡ parsed.path_prefix
    → r.service.id ≢ service_id
unfolding remove_route delete_route
remove_route-gone service_id parsed rows a r v c e i host path owner =
    elim (Option-cases
      (find (is_owned_at service_id parsed.path_prefix) (routes_for_host parsed.host rows))) [
        | inl f ↦
            let kept : rows ≡ a.rows = ground arith in
            let i' : In r rows = subst (In r) (sym kept) i in
            let (q, g, _, _) =
              find-exists (is_owned_at service_id parsed.path_prefix)
                (routes_for_host parsed.host rows) r (row_listed parsed.host rows r v c i' host)
                (owned_at service_id parsed.path_prefix r owner path) in
            cc
        | inr (q, f) ↦ elim (Bool-cases q.protected) [
          | inl k ↦ absurd (ground arith)
          | inr k ↦
              let left : keep (λ p. not (text_eq p.id q.id)) rows ≡ a.rows = ground arith in
              let (i', t) = In-keep _ rows r (subst (In r) (sym left) i) in
              let (j, host') =
                listed_row parsed.host rows q v c
                  (find-In (is_owned_at service_id parsed.path_prefix) _ q f) in
              let path' =
                owned-path service_id parsed.path_prefix q
                  (find-some (is_owned_at service_id parsed.path_prefix) _ q f) in
              let same = Apart-unique rows r q c.apart i' j (host ∙ sym host') (path ∙ sym path') in
              let u : text_eq r.id q.id ≡ true = rw same (text_eq_self q.id) in ground arith
        ]
      ]
