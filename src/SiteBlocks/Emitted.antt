-- ===== src/SiteBlocks/Emitted.antt =====
-- toServiceRoutes, and the site blocks that buildCaddyConfig of server/src/services/caddy.ts emits for the
-- hosts it has collected.
use sitey.Prelude.{
  ℕ, ltb, ◌≡◌, Bool, true, false, not, ◌&&◌, Option, none, some, List, [], ◌∷◌, ◌++◌, if◌then◌else◌,
  is_empty, any, In, inl, inr, Bool-cases, Result, ok, ◌>>=◌, sym, ap, ◌∙◌,
}
use sitey.Text.{Text, codes, text_eq}
use sitey.SiteBlocks.{RenderedSiteBlock, append_site_block, tls_email_for}
use sitey.SiteBlocks.Bodies.{CaddyServiceRoute, site_block_body}
use sitey.SiteBlocks.Sites.{Site}
use sitey.StaticRouting.Lexer.{FragmentError}

-- A row of Service, with the count of its successful deployments that the query answers.
pub record ServiceRow : Type 0 where
  pub id : ℕ
  pub deploy_mode : Text
  pub status : Text
  pub output_dir : Text
  pub container_name : Option Text
  pub container_port : ℕ
  pub static_routing_mode : Text
  pub static_caddy_config : Text
  pub active : Bool
  pub deployments : ℕ

pub record RouteRow : Type 0 where
  pub subdomain : Text
  pub path_prefix : Text
  pub http_only : Bool
  pub service : Option ServiceRow

-- `s.containerName ? runningContainers.has(s.containerName) : false`
abbrev pub is_running_container : List Text → Option Text → Bool
is_running_container running none = false
is_running_container running (some name) = not (is_empty name) && any (λ n. text_eq n name) running

unfoldable pub service_route : List Text → RouteRow → ServiceRow → CaddyServiceRoute
service_route running route s = record {
  subdomain = route.subdomain;
  path_prefix = route.path_prefix;
  http_only = route.http_only;
  service = record {
    id = s.id;
    deploy_mode = s.deploy_mode;
    status = s.status;
    has_successful_deployment = ltb 0 s.deployments;
    output_dir = s.output_dir;
    container_name = s.container_name;
    container_running = is_running_container running s.container_name;
    container_port = s.container_port;
    static_routing_mode = some s.static_routing_mode;
    static_caddy_config = some s.static_caddy_config;
  };
}

-- the body of the loop of toServiceRoutes
abbrev pub push_route :
    List Text → RouteRow → Option ServiceRow → List CaddyServiceRoute → List CaddyServiceRoute
push_route running route none rest = rest
push_route running route (some s) rest =
    if s.active then service_route running route s ∷ rest else rest

unfoldable pub to_service_routes : List Text → List RouteRow → List CaddyServiceRoute
to_service_routes running [] = []
to_service_routes running (r ∷ rows) =
    push_route running r r.service (to_service_routes running rows)

-- appendProbeSiteBlock
unfoldable pub append_probe_site_block :
    List RenderedSiteBlock → Text → Text → List RenderedSiteBlock
append_probe_site_block blocks hostname email =
    let probe : RenderedSiteBlock = record {
      labels = hostname ∷ [];
      body_lines = codes "    respond 204" ∷ [];
      tls_email = tls_email_for email;
    } in
    blocks ++ probe ∷ []

unfoldable pub emit_site :
    List Text → List RenderedSiteBlock → Site → Result FragmentError (List RenderedSiteBlock)
emit_site admin blocks s =
    if s.probe && is_empty s.routes && not s.exact
    then ok (append_probe_site_block blocks s.host s.email)
    else (site_block_body admin s.routes >>= λ body_lines. ok (
        append_site_block blocks s.host s.email body_lines s.fallback
          (any (λ (r : CaddyServiceRoute). r.http_only) s.routes)))

abbrev pub is_management : Option Text → Text → Bool
is_management none host = false
is_management (some named) host = text_eq host named

-- the loop over `hosts`, given `siteyNamedDomain` and the lines of appendAdminHandlers
unfoldable pub emit_sites :
    Option Text
    → List Text
    → List RenderedSiteBlock
    → List Site
    → Result FragmentError (List RenderedSiteBlock)
emit_sites named admin blocks [] = ok blocks
emit_sites named admin blocks (s ∷ sites) =
    if is_management named s.host
    then emit_sites named admin blocks sites
    else (emit_site admin blocks s >>= λ blocks'. emit_sites named admin blocks' sites)

push_route-keeps :
    (running : List Text) (row : RouteRow) (s : Option ServiceRow) (rest : List CaddyServiceRoute)
    (r : CaddyServiceRoute)
    → In r rest
    → In r (push_route running row s rest)
push_route-keeps running row none rest r i = i
push_route-keeps running row (some s) rest r i = elim (Bool-cases s.active) [
  | inl e ↦ rw e (inr i)
  | inr e ↦ rw e i
]

-- Every route whose service is active is rendered: toServiceRoutes answers it, with its host, path and
-- HTTP-only setting and its service's id.
to_service_routes-In :
    (running : List Text) (rows : List RouteRow) (row : RouteRow) (s : ServiceRow)
    → In row rows
    → row.service ≡ some s
    → s.active ≡ true
    → In (service_route running row s) (to_service_routes running rows)
unfolding to_service_routes service_route
to_service_routes-In running [] row s i at_s act = absurd i.lower
to_service_routes-In running (q ∷ rows) row s (inl e) at_s act =
    let at_q : q.service ≡ some s = ap (λ x. x.service) (sym e) ∙ at_s in
    let first : In (service_route running row s)
        (push_route running q (some s) (to_service_routes running rows)) =
      rw act (inl (ap (λ x. service_route running x s) e)) in
    rw at_q first
to_service_routes-In running (q ∷ rows) row s (inr i) at_s act =
    push_route-keeps running q q.service _ _ (to_service_routes-In running rows row s i at_s act)
