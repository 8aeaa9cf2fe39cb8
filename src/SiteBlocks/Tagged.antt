-- ===== src/SiteBlocks/Tagged.antt =====
-- What the body of a site block holds for each of its routes.
use sitey.Prelude.{
  ◌≡◌, refl, List, [], ◌∷◌, ◌++◌, Bool-cases, inl, inr, ok, if◌then◌else◌, is_empty, not, true,
  false, map, ◌&&◌,
}
use sitey.Text.{Text, codes}
use sitey.SiteBlocks.Bodies.{
  CaddyServiceRoute, route_handler, route_handlers, serving_lines, site_block_body, CaddyService,
  route_body, prefixed, outer_indent, static_ready, tag, inner_indent, server_ready, pending_lines,
  is_static, static_dir, decimal, fallback_lines,
}
use sitey.StaticRouting.Serving.{static_serving_lines-total, given}

-- the tag of the route's service, as it is indented for the route
abbrev pub tag_of : CaddyServiceRoute → Text
tag_of route =
    if is_empty route.path_prefix
    then outer_indent ++ tag outer_indent route.service.id
    else tag inner_indent route.service.id

-- A block: its first line opens it, and the second is the tag.
abbrev pub block : Text → Text → List Text → List Text
block opener tag_line inside = opener ∷ tag_line ∷ (inside ++ codes "    }" ∷ [])

-- What a route's lines are: one block, or under a path two, and each begins with the route's tag.
pub data RouteLines (route : CaddyServiceRoute) : List Text → Type 0 where
  at_root :
      is_empty route.path_prefix ≡ true
      → (inside : List Text) → RouteLines route (block (codes "    handle {") (tag_of route) inside)
  under_path :
      is_empty route.path_prefix ≡ false
      → (redirection inside : List Text)
      → RouteLines route (
          block
            (codes "    handle " ++ (route.path_prefix ++ codes " {"))
            (tag_of route)
            redirection
          ++ block
              (codes "    handle_path " ++ (route.path_prefix ++ codes "/* {"))
              (tag_of route)
              inside)

-- the lines of the routes, one after the other in their order
abbrev pub RoutesLines : List CaddyServiceRoute → List Text → Type 0
RoutesLines [] lines = lines ≡ []
RoutesLines (r ∷ routes) lines =
    (one : List Text) × (rest : List Text) × (lines ≡ one ++ rest)
    × RouteLines r one
    × RoutesLines routes rest

-- what follows the routes in a site block
abbrev pub after_routes : List Text → List CaddyServiceRoute → List Text
after_routes admin [] = admin
after_routes admin (r ∷ routes) = fallback_lines (r ∷ routes)

serving_lines-total :
    (indent : Text) (svc : CaddyService)
    → (lines : List Text) × (serving_lines indent svc ≡ ok lines)
unfolding serving_lines
serving_lines-total indent svc =
    elim (Bool-cases (not (static_ready svc) && not (server_ready svc))) [
      | inl e ↦ (pending_lines indent, rw e refl)
      | inr e ↦ elim (Bool-cases (is_static svc)) [
        | inl k ↦
            let (lines, same) =
              static_serving_lines-total svc.static_routing_mode svc.static_caddy_config indent in
            (
              (indent ++ (codes "root * \"" ++ (static_dir svc ++ codes "\""))) ∷ lines,
              rw (e, k, same) refl,
            )
        | inr k ↦ (
          (indent
                ++ (codes "reverse_proxy "
                    ++ (given svc.container_name [] ++ (b':' ∷ decimal svc.container_port))))
              ∷ [],
          rw (e, k) refl,
        )
      ]
    ]

route_handler-RouteLines :
    (route : CaddyServiceRoute)
    → (lines : List Text) × (route_handler route ≡ ok lines) × RouteLines route lines
unfolding route_handler route_body prefixed
route_handler-RouteLines route = elim (Bool-cases (is_empty route.path_prefix)) [
  | inl e ↦
      let (lines, same) = serving_lines-total outer_indent route.service in
      let inside = map (λ line. outer_indent ++ line) lines in
      (block (codes "    handle {") (tag_of route) inside, rw (e, same) refl, at_root e inside)
  | inr e ↦
      let (lines, same) = serving_lines-total inner_indent route.service in
      let redirection =
        (inner_indent ++ (codes "redir * " ++ (route.path_prefix ++ codes "/ 308"))) ∷ [] in
      (
        block (codes "    handle " ++ (route.path_prefix ++ codes " {")) (tag_of route) redirection
            ++ block (codes "    handle_path " ++ (route.path_prefix ++ codes "/* {"))
                (tag_of route) lines,
        rw (e, same) refl,
        under_path e redirection lines,
      )
]

route_handlers-RoutesLines :
    (routes : List CaddyServiceRoute)
    → (lines : List Text) × (route_handlers routes ≡ ok lines) × RoutesLines routes lines
unfolding route_handlers
route_handlers-RoutesLines [] = ([], refl, refl)
route_handlers-RoutesLines (r ∷ routes) =
    let (first, e, i) = route_handler-RouteLines r in
    let (rest, k, h) = route_handlers-RoutesLines routes in
    let laid : RoutesLines (r ∷ routes) (first ++ rest) = (first, rest, refl, i, h) in
    (first ++ rest, rw (e, k) refl, laid)

-- For any routes, whatever their services' states and stored fragments, the body of the site block is
-- rendered. It holds the lines of the routes one after the other: one `handle` block for a route without a
-- path, and for a route with one a `handle` block for the path itself and a `handle_path` block for all below it. The
-- first line in each of these blocks is the tag that attributes the requests to the route's service.
pub site_block_body-tagged :
    (admin : List Text) (routes : List CaddyServiceRoute)
    → (lines : List Text) × (site_block_body admin routes
        ≡ ok (codes "    import requests_log" ∷ (lines ++ after_routes admin routes)))
      × RoutesLines routes lines
unfolding site_block_body
site_block_body-tagged admin [] = ([], refl, refl)
site_block_body-tagged admin (r ∷ routes) =
    let (lines, e, h) = route_handlers-RoutesLines (r ∷ routes) in (lines, rw e refl, h)
