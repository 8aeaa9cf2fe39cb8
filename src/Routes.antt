-- ===== src/Routes.antt =====
-- server/src/services/routes.ts over the rows of the ServiceRoute table, and the part of removeRoute
-- (server/src/routers/services.ts) that finds and deletes a row.
pub mod Hosts
pub mod Insert
pub mod Ownership
pub mod Input
pub mod Remove
mod Tests
use sitey.Prelude.{
  ℕ, Bool, true, false, not, ◌&&◌, ◌||◌, Option, none, some, List, [], ◌∷◌, ◌++◌, ◌==◌,
  if◌then◌else◌, is_empty, any, find, keep, Result, ok, err, ◌>>=◌,
}
use sitey.Text.{
  Text, codes, text_eq, includes, before, from_first, slice, trim, to_lower_case, starts_with,
  last_is, drop_last,
}
use sitey.RouteString.{
  RouteStringError, ParsedRoute, DomainRow, parse_route_string, resolve_route_host,
  format_route_string,
}

pub record Service : Type 0 where
  pub id : ℕ
  pub name : Text

-- A row of ServiceRoute with the domain and the service that it refers to, as the queries include them.
pub record ServiceRoute : Type 0 where
  pub id : Text
  pub service : Service
  pub domain : Option DomainRow
  pub subdomain : Text
  pub path_prefix : Text
  pub http_only : Bool
  pub protected : Bool

-- The errors, with the values that stand in their messages.
pub data RouteError : Type 0 where
  bad_route : RouteStringError → RouteError
  no_domain : Text → RouteError
  loopback_is_http_only reserved_host : Text → RouteError
  mixed_http_only : RouteError
  already_routed : Option Text → Service → RouteError
  just_routed : Option Text → RouteError
  route_is_protected : RouteError

unfoldable pub rethrow : Result RouteStringError ParsedRoute → Result RouteError ParsedRoute
rethrow (ok r) = ok r
rethrow (err e) = err (bad_route e)

-- parseRoute
unfoldable pub parse_route : Text → Result RouteError ParsedRoute
parse_route input = rethrow (parse_route_string input)

-- What resolveRouteInput returns. `route` is formatRouteString's answer, which the source takes for a text.
pub record Resolved : Type 0 where
  pub host : Text
  pub path_prefix : Text
  pub http_only : Bool
  pub domain : DomainRow
  pub subdomain : Text
  pub route : Option Text

unfoldable pub resolved_as : ParsedRoute → DomainRow → Text → Resolved
resolved_as p d subdomain = record {
  host = p.host;
  path_prefix = p.path_prefix;
  http_only = p.http_only;
  domain = d;
  subdomain = subdomain;
  route = format_route_string (some d.hostname) subdomain p.path_prefix p.http_only;
}

unfoldable pub resolve_parsed : ParsedRoute → Option (DomainRow × Text) → Result RouteError Resolved
resolve_parsed p none = err (no_domain p.host)
resolve_parsed p (some (d, subdomain)) = ok (resolved_as p d subdomain)

unfoldable pub resolve_route_input : Text → List DomainRow → Result RouteError Resolved
resolve_route_input route domains =
    parse_route route >>= λ parsed. resolve_parsed parsed (resolve_route_host parsed.host domains)

-- the condition on the joined domain in the query of routesForHost
unfoldable pub at_domain : Text → Text → Option DomainRow → Bool
at_domain host subdomain none = false
at_domain host subdomain (some d) =
    text_eq d.hostname host
    || (includes host b'.'
        && text_eq d.hostname (codes "*." ++ slice 1 (from_first b'.' host))
        && text_eq subdomain (before b'.' host))

unfoldable pub at_host : Text → ServiceRoute → Bool
at_host host r = at_domain host r.subdomain r.domain

unfoldable pub routes_for_host : Text → List ServiceRoute → List ServiceRoute
routes_for_host host rows = keep (at_host host) rows

unfoldable pub unbracket : Text → Text
unbracket s =
    let opened = if starts_with s (codes "[") then slice 1 s else s in
    if last_is (λ c. c == b']') opened then drop_last opened else opened

-- isLoopbackHost of server/src/services/siteUrl.ts
unfoldable pub is_loopback_host : Text → Bool
is_loopback_host hostname =
    let normalized = unbracket (to_lower_case (trim hostname)) in
    text_eq normalized (codes "localhost")
    || text_eq normalized (codes "127.0.0.1")
    || text_eq normalized (codes "::1")

-- assertRouteAllowed, given the host name of the management site
unfoldable pub assert_route_allowed : Text → Text → Text → Bool → Result RouteError Unit
assert_route_allowed management_host host path_prefix http_only =
    if is_loopback_host host && not http_only
    then err (loopback_is_http_only host)
    else if text_eq host (to_lower_case management_host) && (is_empty path_prefix || http_only)
    then err (reserved_host host)
    else ok tt

abbrev pub differs : Bool → Bool → Bool
differs true b = not b
differs false b = b

unfoldable pub assert_compatible_host : List ServiceRoute → Bool → Result RouteError Unit
assert_compatible_host routes http_only =
    if any (λ (r : ServiceRoute). differs r.http_only http_only) routes
    then err mixed_http_only
    else ok tt

unfoldable pub claim_route :
    Option ServiceRoute → ℕ → Option Text → Result RouteError (Option ServiceRoute)
claim_route none service_id label = ok none
claim_route (some r) service_id label =
    if r.service.id == service_id then ok (some r) else err (already_routed label r.service)

-- A route, `alreadyExisted`, and the table afterwards.
pub record Inserted : Type 0 where
  pub route : ServiceRoute
  pub already_existed : Bool
  pub rows : List ServiceRoute

abbrev pub same_domain : Option DomainRow → Option DomainRow → Bool
same_domain (some d) (some e) = e.id == d.id
same_domain _ _ = false

-- `@@unique([domainId, subdomain, pathPrefix])`, in which NULLs are distinct
unfoldable pub same_key : ServiceRoute → ServiceRoute → Bool
same_key new r =
    same_domain new.domain r.domain
    && text_eq r.subdomain new.subdomain
    && text_eq r.path_prefix new.path_prefix

-- `store.serviceRoute.create`, of the row that it is to write
unfoldable pub create_route :
    Option Text → ServiceRoute → List ServiceRoute → Result RouteError Inserted
create_route label new rows =
    if any (same_key new) rows
    then err (just_routed label)
    else ok (record { route = new; already_existed = false; rows = rows ++ new ∷ [] })

unfoldable pub existing_or :
    Option ServiceRoute
    → Option Text
    → ServiceRoute
    → List ServiceRoute
    → Result RouteError Inserted
existing_or (some r) label new rows = ok (record { route = r; already_existed = true; rows = rows })
existing_or none label new rows = create_route label new rows

-- the row that insertResolvedRoute creates, under the id that the database gives it
unfoldable pub resolved_row : Text → Service → Resolved → ServiceRoute
resolved_row id service resolved = record {
  id = id;
  service = service;
  domain = some resolved.domain;
  subdomain = resolved.subdomain;
  path_prefix = resolved.path_prefix;
  http_only = resolved.http_only;
  protected = false;
}

unfoldable pub insert_resolved_route :
    Text → Service → Resolved → List ServiceRoute → Result RouteError Inserted
insert_resolved_route id service resolved rows =
    let routes = routes_for_host resolved.host rows in
    claim_route (find (λ (r : ServiceRoute). text_eq r.path_prefix resolved.path_prefix) routes)
      service.id resolved.route
    >>= λ existing. assert_compatible_host routes resolved.http_only >>= λ _.
        existing_or existing resolved.route (resolved_row id service resolved) rows

abbrev pub has_no_domain : Option DomainRow → Bool
has_no_domain none = true
has_no_domain (some d) = false

unfoldable pub is_domainless : Text → ServiceRoute → Bool
is_domainless path_prefix r = has_no_domain r.domain && text_eq r.path_prefix path_prefix

unfoldable pub domainless_row : Text → Service → Text → Bool → ServiceRoute
domainless_row id service path_prefix http_only = record {
  id = id;
  service = service;
  domain = none;
  subdomain = [];
  path_prefix = path_prefix;
  http_only = http_only;
  protected = false;
}

unfoldable pub insert_domainless_route :
    Text → Service → Text → Bool → List ServiceRoute → Result RouteError Inserted
insert_domainless_route id service path_prefix http_only rows =
    claim_route (find (is_domainless path_prefix) rows) service.id
      (some (if is_empty path_prefix then codes "/" else path_prefix))
    >>= λ existing. existing_or existing none (domainless_row id service path_prefix http_only) rows

-- What removeRoute answers with a host: the table afterwards, and `alreadyAbsent`.
pub record Removed : Type 0 where
  pub already_absent : Bool
  pub rows : List ServiceRoute

unfoldable pub delete_route : Option ServiceRoute → List ServiceRoute → Result RouteError Removed
delete_route none rows = ok (record { already_absent = true; rows = rows })
delete_route (some r) rows =
    if r.protected
    then err route_is_protected
    else ok (record { already_absent = false; rows = keep (λ q. not (text_eq q.id r.id)) rows })

unfoldable pub is_owned_at : ℕ → Text → ServiceRoute → Bool
is_owned_at service_id path_prefix r =
    r.service.id == service_id && text_eq r.path_prefix path_prefix

-- removeRoute for a host: the row is found and then deleted, with nothing else in between here
unfoldable pub remove_route : ℕ → ParsedRoute → List ServiceRoute → Result RouteError Removed
remove_route service_id parsed rows =
    delete_route
      (find (is_owned_at service_id parsed.path_prefix) (routes_for_host parsed.host rows)) rows
