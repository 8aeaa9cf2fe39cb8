-- ===== src/Routes/Ownership.antt =====
-- What insertResolvedRoute promises its callers: one owner for each host and path.
use sitey.Prelude.{
  ◌≡◌, ◌≢◌, refl, sym, ap, ◌∙◌, Bool, true, false, Option, none, some, List, All, arith, In, err,
  any, find, ok, ◌==◌, any_none, All-of_In, find-exists, Result, any-true, All-In,
}
use sitey.Text.{Text, text_eq}
use sitey.Text.Equal.{text_eq_self, text_eq→eq}
use sitey.RouteString.{DomainRow}
use sitey.Routes.{
  ServiceRoute, Resolved, Service, insert_resolved_route, Inserted, claim_route, already_routed,
  assert_compatible_host, just_routed, existing_or, routes_for_host, differs, same_domain, same_key,
  RouteError, resolved_row,
}
use sitey.Routes.Hosts.{effective, IsConsistent, Apart-unique, Apart-scheme}
use sitey.Routes.Insert.{
  IsResolved, Outcome, Routed, claims, mixed, Outcome-IsConsistent, insert_resolved_route-Outcome,
  found, listed, Outcome-Routed, taken, mixes, exists, raced, created,
}

-- A call of insertResolvedRoute that succeeds on a consistent table leaves a consistent table: no two rows
-- have the same effective host and path, whether they hang on an exact domain row or on a wildcard one, and
-- the rows of one host have one HTTP-only setting. It answers a row of the table afterwards, which belongs to
-- the caller's service and has the host, the path and the HTTP-only setting that were asked for, and it
-- removes no row. The input is one that resolveRouteInput may answer.
pub insert_resolved_route-IsConsistent :
    (id : Text) (service : Service) (resolved : Resolved) (rows : List ServiceRoute) (a : Inserted)
    → IsResolved resolved
    → IsConsistent rows
    → insert_resolved_route id service resolved rows ≡ ok a
    → IsConsistent a.rows × Routed service resolved rows a
insert_resolved_route-IsConsistent id service resolved rows a w c e =
    let outcome = insert_resolved_route-Outcome id service resolved rows in
    (
      Outcome-IsConsistent id service resolved rows w c _ a outcome e,
      Outcome-Routed id service resolved rows w c _ a outcome e,
    )

-- the row that claims a host and path is the one that the call looks at
find-claimed :
    (id : Text) (service : Service) (resolved : Resolved) (rows : List ServiceRoute)
    (r : ServiceRoute)
    → IsResolved resolved
    → IsConsistent rows
    → In r rows
    → effective r ≡ some resolved.host
    → r.path_prefix ≡ resolved.path_prefix
    → find (claims resolved) (routes_for_host resolved.host rows) ≡ some r
find-claimed id service resolved rows r w c i host path =
    let t : text_eq r.path_prefix resolved.path_prefix ≡ true =
      rw path (text_eq_self resolved.path_prefix) in
    let (q, f, j, u) =
      find-exists (claims resolved) (routes_for_host resolved.host rows) r
        (listed id service resolved rows w c r i host) t in
    let (k, host') = found id service resolved rows w c q j in
    let same : q ≡ r =
      Apart-unique rows q r c.apart k i (host' ∙ sym host)
        (text_eq→eq q.path_prefix resolved.path_prefix u ∙ sym path) in
    f ∙ ap some same

-- On a consistent table, a host and path that a row of another service has is refused, and the error names
-- that service, whatever the HTTP-only setting that was asked for.
pub insert_resolved_route-taken :
    (id : Text) (service : Service) (resolved : Resolved) (rows : List ServiceRoute)
    (r : ServiceRoute)
    → IsResolved resolved
    → IsConsistent rows
    → In r rows
    → effective r ≡ some resolved.host
    → r.path_prefix ≡ resolved.path_prefix
    → r.service.id ≢ service.id
    → insert_resolved_route id service resolved rows ≡ err (already_routed resolved.route r.service)
unfolding insert_resolved_route claim_route
insert_resolved_route-taken id service resolved rows r w c i host path other =
    let other' : (r.service.id == service.id) ≡ false = ground arith in
    rw (find-claimed id service resolved rows r w c i host path, other') refl

differs_self : (b : Bool) → differs b b ≡ false
differs_self true = refl
differs_self false = refl

-- on a consistent table the setting of one row of the host is that of all
none_mixed :
    (id : Text) (service : Service) (resolved : Resolved) (rows : List ServiceRoute)
    (r : ServiceRoute)
    → IsResolved resolved
    → IsConsistent rows
    → In r rows
    → effective r ≡ some resolved.host
    → r.http_only ≡ resolved.http_only
    → any (mixed resolved) (routes_for_host resolved.host rows) ≡ false
none_mixed id service resolved rows r w c i host scheme = any_none (mixed resolved) _ (
    All-of_In _ _ (λ q j.
      let (k, host') = found id service resolved rows w c q j in
      let same : q.http_only ≡ resolved.http_only =
        Apart-scheme resolved.host rows q r c.apart k i host' host ∙ scheme in
      rw same (differs_self resolved.http_only)))

-- On a consistent table, the row that a service has for the host, path and HTTP-only setting that it asks for
-- is answered again as existing, and the table stays as it was.
pub insert_resolved_route-retry :
    (id : Text) (service : Service) (resolved : Resolved) (rows : List ServiceRoute)
    (r : ServiceRoute)
    → IsResolved resolved
    → IsConsistent rows
    → In r rows
    → effective r ≡ some resolved.host
    → r.path_prefix ≡ resolved.path_prefix
    → r.http_only ≡ resolved.http_only
    → r.service.id ≡ service.id
    → insert_resolved_route id service resolved rows
      ≡ ok (record { route = r; already_existed = true; rows = rows })
unfolding insert_resolved_route claim_route assert_compatible_host existing_or
insert_resolved_route-retry id service resolved rows r w c i host path scheme owner =
    let owner' : (r.service.id == service.id) ≡ true = ground arith in
    rw
      (
        find-claimed id service resolved rows r w c i host path,
        owner',
        none_mixed id service resolved rows r w c i host scheme,
      )
      refl

-- The domain rows that the table refers to and the one that was resolved are rows of one table: those with
-- the same id are the same.
abbrev pub SameDomains : DomainRow → List ServiceRoute → Type 0
SameDomains d rows =
    All (λ (r : ServiceRoute). (e : DomainRow) → r.domain ≡ some e → e.id ≡ d.id → e ≡ d) rows

Outcome-raced :
    (id : Text) (service : Service) (resolved : Resolved) (rows : List ServiceRoute)
    (result : Result RouteError Inserted)
    → Outcome id service resolved rows result
    → result ≡ err (just_routed resolved.route)
    → (find (claims resolved) (routes_for_host resolved.host rows) ≡ none)
      × (any (same_key (resolved_row id service resolved)) rows ≡ true)
Outcome-raced id service resolved rows _ (taken r f o) e = absurd (ground arith)
Outcome-raced id service resolved rows _ (mixes m) e = absurd (ground arith)
Outcome-raced id service resolved rows _ (exists r f o m) e = absurd (ground arith)
Outcome-raced id service resolved rows _ (raced f k) e = (f, k)
Outcome-raced id service resolved rows _ (created f m) e = absurd (ground arith)

same_domain-some :
    (d : DomainRow) (o : Option DomainRow)
    → same_domain (some d) o ≡ true
    → (e : DomainRow) × (o ≡ some e) × (e.id ≡ d.id)
same_domain-some d none h = absurd (ground arith)
same_domain-some d (some e) h = (e, refl, ground arith)

same_key-row :
    (id : Text) (service : Service) (resolved : Resolved) (r : ServiceRoute)
    → same_key (resolved_row id service resolved) r ≡ true
    → (same_domain (some resolved.domain) r.domain ≡ true)
      × (r.subdomain ≡ resolved.subdomain)
      × (r.path_prefix ≡ resolved.path_prefix)
unfolding same_key resolved_row
same_key-row id service resolved r h = (
  ground arith,
  text_eq→eq r.subdomain resolved.subdomain (ground arith),
  text_eq→eq r.path_prefix resolved.path_prefix (ground arith),
)

-- Within the transaction, on a consistent table, the call never reports a concurrent request: a row that the
-- unique index would refuse has been found before.
insert_resolved_route-not_raced :
    (id : Text) (service : Service) (resolved : Resolved) (rows : List ServiceRoute)
    → IsResolved resolved
    → IsConsistent rows
    → SameDomains resolved.domain rows
    → insert_resolved_route id service resolved rows ≢ err (just_routed resolved.route)
insert_resolved_route-not_raced id service resolved rows w c s e =
    let (f, k) =
      Outcome-raced id service resolved rows _
        (insert_resolved_route-Outcome id service resolved rows) e in
    let (r, i, t) = any-true (same_key (resolved_row id service resolved)) rows k in
    let (domain, sub, path) = same_key-row id service resolved r t in
    let (d, at_d, same_id) = same_domain-some resolved.domain r.domain domain in
    let same = All-In _ rows r s i d at_d same_id in
    let host : effective r ≡ some resolved.host = rw (at_d, same, sub) (ap some w.stands) in
    let f' = find-claimed id service resolved rows r w c i host path in cc
