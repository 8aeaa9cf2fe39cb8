-- ===== src/Routes/Tests.antt =====
-- A wildcard row and an exact row that stand for one host.
use sitey.Prelude.{refl, arith, inl, ◌≢◌, [], ◌∷◌, ◌≡◌, err, false, ok, some, true, ◌++◌}
use sitey.Text.{
  Text, codes, from_first, before, split, is_lower, is_digit, is_upper, trim, is_space,
  drop_final_dot, lower, join,
}
use sitey.RouteString.{
  DomainRow, ParsedRoute, is_hostname, is_dns_label, is_label_char, is_label_end, is_wildcard,
  route_host, parse_route_string, parse_scheme, scheme, is_scheme_name, is_scheme_char, parse_rest,
  finish, bad_segment?, is_segment, is_segment_char, segments_of, prefix_of, resolve_route_host,
  resolve_wildcard, format_route_string,
}
use sitey.Routes.{
  Inserted, Service, ServiceRoute, insert_domainless_route, insert_resolved_route, remove_route,
  resolve_route_input, Resolved, claim_route, domainless_row, resolved_row, assert_compatible_host,
  already_routed, existing_or, create_route, same_key, routes_for_host, at_host, at_domain,
  is_domainless, is_owned_at, delete_route, resolve_parsed, resolved_as, parse_route, rethrow,
}
use sitey.Routes.Hosts.{IsConsistent, effective}
use sitey.Routes.Input.{resolve_route_input-IsResolved}
use sitey.Routes.Insert.{IsResolved, Routed}
use sitey.Routes.Ownership.{
  insert_resolved_route-IsConsistent, insert_resolved_route-retry, insert_resolved_route-taken,
}
use sitey.Routes.Remove.{insert_domainless_route-IsConsistent, remove_route-gone}

runs : Unit {0}
unfolding insert_resolved_route claim_route assert_compatible_host existing_or create_route
    resolved_row same_key routes_for_host at_host at_domain from_first before is_hostname
    is_dns_label is_label_char is_label_end split is_lower is_digit is_wildcard route_host
    insert_domainless_route domainless_row is_domainless remove_route is_owned_at delete_route
    resolve_route_input resolve_parsed resolved_as parse_route rethrow parse_route_string
    parse_scheme scheme is_scheme_name is_scheme_char is_upper parse_rest trim is_space
    drop_final_dot lower finish bad_segment? is_segment is_segment_char segments_of prefix_of join
    resolve_route_host resolve_wildcard format_route_string
runs = tt

abbrev wildcard : DomainRow
wildcard = record { id = 1; hostname = codes "*.example.com" }

abbrev exact : DomainRow
exact = record { id = 2; hostname = codes "app.example.com" }

abbrev blog : Service
blog = record { id = 7; name = codes "blog" }

abbrev shop : Service
shop = record { id = 8; name = codes "shop" }

-- app.example.com/blog under the wildcard row
abbrev held : ServiceRoute
held = record {
  id = codes "r1";
  service = blog;
  domain = some wildcard;
  subdomain = codes "app";
  path_prefix = codes "/blog";
  http_only = false;
  protected = false;
}

abbrev asked : Text → Resolved
asked path = record {
  host = codes "app.example.com";
  path_prefix = path;
  http_only = false;
  domain = exact;
  subdomain = [];
  route = some (codes "app.example.com" ++ path);
}

asked-IsResolved : (path : Text) → IsResolved (asked path)
unfolding runs
asked-IsResolved path = record { valid = refl; stands = refl; labelled = λ h. ground arith }

held-IsConsistent : IsConsistent (held ∷ [])
unfolding runs
held-IsConsistent = record { labelled = ((λ _. ((ground arith), refl)), tt); apart = (tt, tt) }

held_host : effective held ≡ some (codes "app.example.com")
unfolding runs
held_host = refl

abbrev root_added : Inserted
root_added = record {
  route = resolved_row (codes "r2") shop (asked []);
  already_existed = false;
  rows = held ∷ resolved_row (codes "r2") shop (asked []) ∷ [];
}

root_inserted : insert_resolved_route (codes "r2") shop (asked []) (held ∷ []) ≡ ok root_added
unfolding runs
root_inserted = refl

insert_resolved_route-IsConsistent_example :
    IsConsistent root_added.rows × Routed shop (asked []) (held ∷ []) root_added
insert_resolved_route-IsConsistent_example =
    insert_resolved_route-IsConsistent (codes "r2") shop (asked []) (held ∷ []) root_added
      (asked-IsResolved []) held-IsConsistent root_inserted

shop_is_other : held.service.id ≢ shop.id
shop_is_other = ground arith

insert_resolved_route-taken_example :
    insert_resolved_route (codes "r2") shop (asked (codes "/blog")) (held ∷ [])
    ≡ err (already_routed (some (codes "app.example.com/blog")) blog)
insert_resolved_route-taken_example =
    insert_resolved_route-taken (codes "r2") shop (asked (codes "/blog")) (held ∷ []) held
      (asked-IsResolved (codes "/blog")) held-IsConsistent (inl refl) held_host refl shop_is_other

insert_resolved_route-retry_example :
    insert_resolved_route (codes "r2") blog (asked (codes "/blog")) (held ∷ [])
    ≡ ok (record { route = held; already_existed = true; rows = held ∷ [] })
insert_resolved_route-retry_example =
    insert_resolved_route-retry (codes "r2") blog (asked (codes "/blog")) (held ∷ []) held
      (asked-IsResolved (codes "/blog")) held-IsConsistent (inl refl) held_host refl refl refl

app_resolves :
    resolve_route_input (codes "App.example.com/") (wildcard ∷ exact ∷ []) ≡ ok (asked [])
unfolding runs
app_resolves = refl

resolve_route_input-IsResolved_example : IsResolved (asked [])
resolve_route_input-IsResolved_example =
    resolve_route_input-IsResolved (codes "App.example.com/") (wildcard ∷ exact ∷ []) (asked [])
      app_resolves

abbrev path_added : Inserted
path_added = record {
  route = domainless_row (codes "r3") shop (codes "/shop") true;
  already_existed = false;
  rows = held ∷ domainless_row (codes "r3") shop (codes "/shop") true ∷ [];
}

path_inserted :
    insert_domainless_route (codes "r3") shop (codes "/shop") true (held ∷ []) ≡ ok path_added
unfolding runs
path_inserted = refl

insert_domainless_route-IsConsistent_example : IsConsistent path_added.rows
insert_domainless_route-IsConsistent_example =
    insert_domainless_route-IsConsistent (codes "r3") shop (codes "/shop") true (held ∷ [])
      path_added held-IsConsistent path_inserted

abbrev root_of_app : ParsedRoute
root_of_app = record { host = codes "app.example.com"; path_prefix = []; http_only = true }

-- the row of another path stays
root_removed :
    remove_route 8 root_of_app root_added.rows
    ≡ ok (record { already_absent = false; rows = held ∷ [] })
unfolding runs
root_removed = refl

app_valid : is_hostname root_of_app.host ≡ true
unfolding runs
app_valid = refl

abbrev blog_of_app : ParsedRoute
blog_of_app = record {
  host = codes "app.example.com";
  path_prefix = codes "/blog";
  http_only = true;
}

blog_absent :
    remove_route 8 blog_of_app (held ∷ []) ≡ ok (record { already_absent = true; rows = held ∷ [] })
unfolding runs
blog_absent = refl

remove_route-gone_example : held.service.id ≢ 8
remove_route-gone_example =
    remove_route-gone 8 blog_of_app (held ∷ []) (record { already_absent = true; rows = held ∷ [] })
      held app_valid held-IsConsistent blog_absent (inl refl) held_host refl
