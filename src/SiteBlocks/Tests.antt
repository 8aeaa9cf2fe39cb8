-- ===== src/SiteBlocks/Tests.antt =====
-- Two hosts with one body, and a site with a pending static service.
use sitey.Prelude.{
  ◌++◌, refl, [], ◌∷◌, none, some, true, false, ok, List, Pairwise, ◌↔◌, ◌≡◌, is_empty, inr, inl,
}
use sitey.Text.{codes, Text, trim, is_space, lower, is_upper, split, is_lower, is_digit}
use sitey.RouteString.{
  is_wildcard, is_hostname, route_host, is_dns_label, is_label_char, is_label_end,
}
use sitey.SiteBlocks.{
  RenderedSiteBlock, merge_rendered_site_blocks, resolve_route_hostname, merge_loop, add_block,
  same_signature,
}
use sitey.SiteBlocks.Bodies.{CaddyServiceRoute, site_block_body}
use sitey.SiteBlocks.Collected.{IsCollected, add_domains-IsCollected}
use sitey.SiteBlocks.Hosts.{resolve_route_hostname-route_host}
use sitey.SiteBlocks.Merge.{Serves, merge_rendered_site_blocks-Serves, Unlike}
use sitey.SiteBlocks.Sites.{CaddyDomain, add_domains}
use sitey.SiteBlocks.Tagged.{RoutesLines, after_routes, site_block_body-tagged}
use sitey.StaticRouting.Serving.{static_serving_lines, static_serving_lines-total}

runs : Unit {0}
unfolding merge_rendered_site_blocks merge_loop add_block same_signature resolve_route_hostname
    route_host is_wildcard trim is_space lower is_upper is_hostname is_dns_label is_label_char
    is_label_end split is_lower is_digit
runs = tt

abbrev body : List Text
body = codes "    respond 204" ∷ []

abbrev first_host : RenderedSiteBlock
first_host = record { labels = codes "a.example.com" ∷ []; body_lines = body; tls_email = none }

abbrev second_host : RenderedSiteBlock
second_host = record { labels = codes "b.example.com" ∷ []; body_lines = body; tls_email = none }

two_merged :
    merge_rendered_site_blocks (first_host ∷ second_host ∷ [])
    ≡ record first_host { labels = codes "a.example.com" ∷ codes "b.example.com" ∷ [] } ∷ []
unfolding runs
two_merged = refl

merge_rendered_site_blocks-Serves_example :
    (Serves
        (merge_rendered_site_blocks (first_host ∷ second_host ∷ []))
        (codes "b.example.com")
        body
        []
      ↔ Serves (first_host ∷ second_host ∷ []) (codes "b.example.com") body [])
    × Pairwise Unlike (merge_rendered_site_blocks (first_host ∷ second_host ∷ []))
merge_rendered_site_blocks-Serves_example =
    merge_rendered_site_blocks-Serves (first_host ∷ second_host ∷ []) (codes "b.example.com") body
      []

app_is_label :
    is_wildcard (codes "*.example.com") ≡ true
    → (is_hostname (codes "app") ≡ true) × (is_empty (codes "app") ≡ false)
unfolding runs
app_is_label wild = (refl, refl)

resolve_route_hostname-route_host_example :
    resolve_route_hostname (codes "*.example.com") (codes "app")
    ≡ some (route_host (codes "*.example.com") (codes "app"))
resolve_route_hostname-route_host_example =
    resolve_route_hostname-route_host (codes "*.example.com") (codes "app") app_is_label

abbrev pending : CaddyServiceRoute
pending = record {
  subdomain = [];
  path_prefix = codes "/docs";
  http_only = false;
  service = record {
    id = 12;
    deploy_mode = codes "static";
    status = codes "building";
    has_successful_deployment = false;
    output_dir = [];
    container_name = none;
    container_running = false;
    container_port = 0;
    static_routing_mode = some (codes "caddy");
    static_caddy_config = some (codes "}");
  };
}

site_block_body-tagged_example :
    (lines : List Text) × (site_block_body [] (pending ∷ [])
      ≡ ok (codes "    import requests_log" ∷ (lines ++ after_routes [] (pending ∷ []))))
    × RoutesLines (pending ∷ []) lines
site_block_body-tagged_example = site_block_body-tagged [] (pending ∷ [])

static_serving_lines-total_example :
    (lines : List Text) × (static_serving_lines
        (some (codes "caddy"))
        (some (codes "}"))
        (codes "    ")
      ≡ ok lines)
static_serving_lines-total_example =
    static_serving_lines-total (some (codes "caddy")) (some (codes "}")) (codes "    ")

abbrev app_exact : CaddyDomain
app_exact = record {
  hostname = codes "app.example.com";
  lets_encrypt_email = [];
  status = codes "active";
  sitey_subdomains_enabled = false;
  routes = [];
}

abbrev below_app : CaddyServiceRoute
below_app = record pending { subdomain = codes "app" }

abbrev all_wildcard : CaddyDomain
all_wildcard = record {
  hostname = codes "*.example.com";
  lets_encrypt_email = [];
  status = codes "active";
  sitey_subdomains_enabled = true;
  routes = below_app ∷ [];
}

below_app_host :
    resolve_route_hostname all_wildcard.hostname below_app.subdomain
    ≡ some (codes "app.example.com")
unfolding runs
below_app_host = refl

add_domains-IsCollected_example :
    IsCollected (codes "app.example.com") below_app (add_domains (app_exact ∷ all_wildcard ∷ []) [])
add_domains-IsCollected_example =
    add_domains-IsCollected (app_exact ∷ all_wildcard ∷ []) [] all_wildcard
      (codes "app.example.com") below_app (inr (inl refl)) (inl refl) below_app_host
