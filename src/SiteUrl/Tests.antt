-- ===== src/SiteUrl/Tests.antt =====
-- The saved address is a loopback one, so the panel is under the wildcard domain.
use sitey.Prelude.{◌≡◌, refl, true, false, Option, none, some, [], ◌∷◌, if◌then◌else◌}
use sitey.Text.{
  Text, codes, text_eq, trim, is_space, lower, is_upper, is_lower, is_digit, before, from_first,
  drop_last,
}
use sitey.RouteString.{is_wildcard}
use sitey.Routes.{is_loopback_host, unbracket}
use sitey.SiteUrl.{
  PanelDomain, ParsedUrl, choose, resolve_public_site_url, normalize_given, normalize_site_url,
  wildcard_public_site_url, is_usable_public_url, is_absolute_url, is_url_scheme_char,
  drop_final_slash,
}
use sitey.SiteUrl.Choice.{first_usable, choose-first, resolve_public_site_url-public}

runs : Unit {0}
unfolding resolve_public_site_url choose normalize_given normalize_site_url wildcard_public_site_url
    is_usable_public_url is_absolute_url is_url_scheme_char drop_final_slash is_loopback_host
    unbracket trim is_space lower is_upper is_lower is_digit before from_first is_wildcard drop_last
runs = tt

-- a parser that knows two addresses
abbrev parse_two : Text → Option ParsedUrl
parse_two s =
    if text_eq s (codes "http://localhost:3000")
    then some (record {
      protocol = codes "http:";
      hostname = codes "localhost";
      origin = codes "http://localhost:3000/";
    })
    else if text_eq s (codes "https://sitey.example.com")
    then some (record {
      protocol = codes "https:";
      hostname = codes "sitey.example.com";
      origin = codes "https://sitey.example.com/";
    })
    else none

abbrev example_domain : PanelDomain
example_domain = record { hostname = codes "*.example.com"; sitey_subdomains_enabled = true }

panel_chosen :
    (resolve_public_site_url parse_two
      (some (codes "http://localhost:3000"))
      (example_domain ∷ [])
      none).effective_url
    ≡ some (codes "https://sitey.example.com")
unfolding runs
panel_chosen = refl

resolve_public_site_url-public_example :
    (p : ParsedUrl) × (parse_two (codes "https://sitey.example.com") ≡ some p)
    × (is_loopback_host p.hostname ≡ false)
resolve_public_site_url-public_example =
    resolve_public_site_url-public parse_two (some (codes "http://localhost:3000"))
      (example_domain ∷ []) none (codes "https://sitey.example.com") panel_chosen

choose-first_example :
    ((choose parse_two none (some (codes "https://sitey.example.com")) none).effective_url
      ≡ first_usable parse_two (none ∷ some (codes "https://sitey.example.com") ∷ none ∷ []))
    × ((choose parse_two none (some (codes "https://sitey.example.com")) none).configured_url
        ≡ none)
    × ((choose parse_two none (some (codes "https://sitey.example.com")) none).wildcard_url
        ≡ some (codes "https://sitey.example.com"))
    × ((choose parse_two none (some (codes "https://sitey.example.com")) none).env_url ≡ none)
choose-first_example = choose-first parse_two none (some (codes "https://sitey.example.com")) none
