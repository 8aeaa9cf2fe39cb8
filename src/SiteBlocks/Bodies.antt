-- ===== src/SiteBlocks/Bodies.antt =====
-- appendRouteHandler, buildSiteBlockBodyLines and toServiceRoutes of server/src/services/caddy.ts.
use sitey.Prelude.{
  ℕ, suc, ◌+◌, ◌/◌, ◌%◌, Bool, false, not, ◌&&◌, ◌||◌, Option, none, some, List, [], ◌∷◌, ◌++◌, map,
  if◌then◌else◌, is_empty, any, Result, ok, ltb, ◌>>=◌,
}
use sitey.Text.{Text, codes, text_eq, join}
use sitey.StaticRouting.Lexer.{FragmentError}
use sitey.StaticRouting.Serving.{static_serving_lines, given}

-- A number as the template literals write it: its last digit and what stands before, for as many digits as
-- `fuel`. The number itself is fuel enough.
abbrev pub digits : ℕ → ℕ → Text
digits ℕ.zero n = (48 + n) ∷ []
digits (suc fuel) n =
    let front = digits fuel (n / 10) in
    if ltb n 10 then (48 + n) ∷ [] else front ++ (48 + n % 10) ∷ []

unfoldable pub decimal : ℕ → Text
decimal n = digits n n

pub record CaddyService : Type 0 where
  pub id : ℕ
  pub deploy_mode : Text
  pub status : Text
  pub has_successful_deployment : Bool
  pub output_dir : Text
  pub container_name : Option Text
  pub container_running : Bool
  pub container_port : ℕ
  pub static_routing_mode : Option Text
  pub static_caddy_config : Option Text

-- A route of a service; those without one are passed over before.
pub record CaddyServiceRoute : Type 0 where
  pub subdomain : Text
  pub path_prefix : Text
  pub http_only : Bool
  pub service : CaddyService

-- appendLogServiceId, before `indent`
abbrev pub tag_lines : Text → ℕ → List Text
tag_lines indent id =
    (indent ++ (codes "log_append service_id " ++ decimal id))
    ∷ (indent ++ (codes "header >X-Sitey-Service " ++ decimal id))
    ∷ []

-- `tagInner` and `tagOuter`: both lines, with a newline between them, as one element of `lines`
unfoldable pub tag : Text → ℕ → Text
tag indent id = join (0xa ∷ []) (tag_lines indent id)

unfoldable pub is_static : CaddyService → Bool
is_static svc = text_eq svc.deploy_mode (codes "static")

unfoldable pub static_ready : CaddyService → Bool
static_ready svc =
    is_static svc
    && (text_eq svc.status (codes "running")
        || ((text_eq svc.status (codes "building") || text_eq svc.status (codes "queued"))
            && svc.has_successful_deployment))

-- `!!svc.containerName`
abbrev pub is_named : Option Text → Bool
is_named none = false
is_named (some name) = not (is_empty name)

unfoldable pub server_ready : CaddyService → Bool
server_ready svc = not (is_static svc) && is_named svc.container_name && svc.container_running

unfoldable pub static_dir : CaddyService → Text
static_dir svc =
    let base = codes "/srv/services/" ++ (decimal svc.id ++ codes "/repo") in
    if is_empty svc.output_dir then base else base ++ (b'/' ∷ svc.output_dir)

abbrev pub outer_indent : Text
outer_indent = codes "    "

abbrev pub inner_indent : Text
inner_indent = codes "        "

abbrev pub pending_lines : Text → List Text
pending_lines indent =
    (indent ++ codes "header X-Sitey-Pending 1")
    ∷ (indent ++ codes "root * /srv/web")
    ∷ (indent ++ codes "rewrite * /pending.html")
    ∷ (indent ++ codes "file_server")
    ∷ []

-- What serves the route's requests, after the tag: the pending page, the files or the container.
unfoldable pub serving_lines : Text → CaddyService → Result FragmentError (List Text)
serving_lines indent svc =
    if not (static_ready svc) && not (server_ready svc)
    then ok (pending_lines indent)
    else if is_static svc
    then (static_serving_lines svc.static_routing_mode svc.static_caddy_config indent >>= λ lines.
        ok ((indent ++ (codes "root * \"" ++ (static_dir svc ++ codes "\""))) ∷ lines))
    else ok (
        (indent
          ++ (codes "reverse_proxy "
              ++ (given svc.container_name [] ++ (b':' ∷ decimal svc.container_port))))
        ∷ [])

-- The two blocks of a route under a path: the redirection of the path itself, and what is below it.
unfoldable pub prefixed : Text → ℕ → List Text → List Text
prefixed path id lines =
    (codes "    handle " ++ (path ++ codes " {"))
    ∷ tag inner_indent id
    ∷ (inner_indent ++ (codes "redir * " ++ (path ++ codes "/ 308")))
    ∷ codes "    }"
    ∷ (codes "    handle_path " ++ (path ++ codes "/* {"))
    ∷ tag inner_indent id
    ∷ (lines ++ codes "    }" ∷ [])

-- appendRouteBody: each of its cases with a path is `prefixed`, and each without one is not.
unfoldable pub route_body : CaddyServiceRoute → Result FragmentError (List Text)
route_body route =
    if is_empty route.path_prefix
    then (serving_lines outer_indent route.service >>= λ lines.
        ok (tag outer_indent route.service.id ∷ lines))
    else serving_lines inner_indent route.service >>= λ lines.
        ok (prefixed route.path_prefix route.service.id lines)

-- appendRouteHandler
unfoldable pub route_handler : CaddyServiceRoute → Result FragmentError (List Text)
route_handler route = route_body route >>= λ rendered.
    if is_empty route.path_prefix
    then ok
        (codes "    handle {" ∷ (map (λ line. outer_indent ++ line) rendered ++ codes "    }" ∷ []))
    else ok rendered

unfoldable pub route_handlers : List CaddyServiceRoute → Result FragmentError (List Text)
route_handlers [] = ok []
route_handlers (r ∷ routes) =
    route_handler r >>= λ lines. route_handlers routes >>= λ rest. ok (lines ++ rest)

abbrev pub unmatched_lines : List Text
unmatched_lines =
    (codes "    handle {" ∷ tag_lines inner_indent 0)
    ++ (codes "        error 404"
        ∷ codes "    }"
        ∷ codes "    handle_errors {"
        ∷ (tag_lines inner_indent 0
            ++ (codes "        root * /srv/web"
                ∷ codes "        rewrite * /404.html"
                ∷ codes "        templates"
                ∷ codes "        file_server"
                ∷ codes "    }"
                ∷ [])))

-- appendAdminHandlers, with the environment's SITEY_API_INTERNAL and SITEY_WEB_INTERNAL
unfoldable pub admin_handlers : Text → Text → ℕ → List Text
admin_handlers api_internal web_internal admin_service_id =
    (codes "    handle /api/* {" ∷ tag_lines inner_indent admin_service_id)
    ++ ((inner_indent ++ (codes "reverse_proxy " ++ api_internal))
        ∷ codes "    }"
        ∷ codes "    handle {"
        ∷ (tag_lines inner_indent admin_service_id
            ++ ((if is_empty web_internal
                  then codes "        root * /srv/web"
                    ∷ codes "        try_files {path} /index.html"
                    ∷ codes "        file_server"
                    ∷ []
                  else (inner_indent ++ (codes "reverse_proxy " ++ web_internal)) ∷ [])
                ++ codes "    }" ∷ [])))

-- the answer to what no route matches, unless a route has no path
unfoldable pub fallback_lines : List CaddyServiceRoute → List Text
fallback_lines routes =
    if any (λ (r : CaddyServiceRoute). is_empty r.path_prefix) routes then [] else unmatched_lines

-- buildSiteBlockBodyLines, given the lines of appendAdminHandlers
unfoldable pub site_block_body :
    List Text → List CaddyServiceRoute → Result FragmentError (List Text)
site_block_body admin [] = ok (codes "    import requests_log" ∷ admin)
site_block_body admin (r ∷ routes) = route_handlers (r ∷ routes) >>= λ lines.
    ok (codes "    import requests_log" ∷ (lines ++ fallback_lines (r ∷ routes)))
