-- ===== src/SiteBlocks/Sites.antt =====
-- The hosts that buildCaddyConfig of server/src/services/caddy.ts collects from the domain rows.
use sitey.Prelude.{
  Bool, true, false, not, ◌&&◌, ◌||◌, Option, none, some, List, [], ◌∷◌, ◌++◌, if◌then◌else◌,
  is_empty, any,
}
use sitey.Text.{Text, codes, text_eq, slice, drop_final_dot, to_lower_case, trim}
use sitey.RouteString.{is_wildcard}
use sitey.SiteBlocks.{resolve_route_hostname}
use sitey.SiteBlocks.Bodies.{CaddyServiceRoute}

-- A row of Domain with the answer of toServiceRoutes for its routes.
pub record CaddyDomain : Type 0 where
  pub hostname : Text
  pub lets_encrypt_email : Text
  pub status : Text
  pub sitey_subdomains_enabled : Bool
  pub routes : List CaddyServiceRoute

-- An entry of the map `hosts`, with its key.
pub record Site : Type 0 where
  pub host : Text
  pub routes : List CaddyServiceRoute
  pub email : Text
  pub fallback : Bool
  pub exact : Bool
  pub probe : Bool

abbrev pub is_fallback : CaddyDomain → Bool
is_fallback d = not (text_eq d.status (codes "active"))

-- `add` on an entry that is there
unfoldable pub update_site : CaddyDomain → List CaddyServiceRoute → Site → Site
update_site d routes current = record {
  host = current.host;
  routes = current.routes ++ routes;
  email = if is_wildcard d.hostname then current.email else d.lets_encrypt_email;
  fallback = if is_wildcard d.hostname then current.fallback else is_fallback d;
  exact = current.exact || not (is_wildcard d.hostname);
  probe = current.probe && is_wildcard d.hostname && is_empty routes;
}

-- `add`; the map keeps the order in which its keys came
unfoldable pub add_site : CaddyDomain → Text → List CaddyServiceRoute → Bool → List Site → List Site
add_site d host routes probe [] =
    record {
      host = host;
      routes = routes;
      email = d.lets_encrypt_email;
      fallback = is_fallback d;
      exact = not (is_wildcard d.hostname);
      probe = probe;
    }
    ∷ []
add_site d host routes probe (s ∷ sites) =
    let rest = add_site d host routes probe sites in
    if text_eq s.host host then update_site d routes s ∷ sites else s ∷ rest

-- `hosts.has(host)`
abbrev pub has_site : Text → List Site → Bool
has_site host sites = any (λ (s : Site). text_eq s.host host) sites

abbrev pub add_route : CaddyDomain → Option Text → CaddyServiceRoute → List Site → List Site
add_route d none route sites = sites
add_route d (some host) route sites = add_site d host (route ∷ []) false sites

-- the loop over the routes of a wildcard domain
unfoldable pub add_wildcard_routes : CaddyDomain → List CaddyServiceRoute → List Site → List Site
add_wildcard_routes d [] sites = sites
add_wildcard_routes d (r ∷ routes) sites =
    add_wildcard_routes d routes
      (add_route d (resolve_route_hostname d.hostname r.subdomain) r sites)

unfoldable pub sanitize_dns_name : Text → Text
sanitize_dns_name name = drop_final_dot (to_lower_case (trim name))

-- getWildcardStatusProbeHostname
unfoldable pub probe_hostname : Text → Option Text
probe_hostname wildcard_hostname =
    let normalized = sanitize_dns_name wildcard_hostname in
    if is_wildcard normalized then some (codes "sitey-dns-check." ++ slice 2 normalized) else none

abbrev pub add_probe : CaddyDomain → Option Text → List Site → List Site
add_probe d none sites = sites
add_probe d (some host) sites = if has_site host sites then sites else add_site d host [] true sites

unfoldable pub add_panel : CaddyDomain → List Site → List Site
add_panel d sites =
    let panel_host = codes "sitey." ++ slice 2 d.hostname in
    if d.sitey_subdomains_enabled && not (has_site panel_host sites)
    then add_site d panel_host [] false sites
    else sites

-- the body of the loop over the domains
unfoldable pub add_domain : CaddyDomain → List Site → List Site
add_domain d sites =
    if is_wildcard d.hostname
    then add_panel d
        (add_probe d (probe_hostname d.hostname) (add_wildcard_routes d d.routes sites))
    else add_site d d.hostname d.routes false sites

unfoldable pub add_domains : List CaddyDomain → List Site → List Site
add_domains [] sites = sites
add_domains (d ∷ domains) sites = add_domains domains (add_domain d sites)
