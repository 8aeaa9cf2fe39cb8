-- ===== src/SiteBlocks/Hosts.antt =====
-- The host that Caddy serves a row under is the host that the routes are compared by.
use sitey.Prelude.{
  ℕ, ◌≡◌, refl, true, false, some, All-map, arith, Bool-cases, inl, inr, ◌||◌, is_empty, ◌==◌,
}
use sitey.Text.{Text, is_space, trim}
use sitey.Text.Trim.{trim_of_IsTrimmed, All-IsTrimmed}
use sitey.RouteString.{is_hostname, is_label_char, route_host, is_wildcard}
use sitey.RouteString.Hostname.{hostname-HostChars, hostname-lower}
use sitey.SiteBlocks.{resolve_route_hostname}

host_char-Solid : (c : ℕ) → (is_label_char c || c == b'.') ≡ true → is_space c ≡ false
unfolding is_label_char is_space
host_char-Solid c e = ground arith

hostname-trim : (s : Text) → is_hostname s ≡ true → trim s ≡ s
hostname-trim s h =
    trim_of_IsTrimmed s (All-IsTrimmed s (All-map _ _ s host_char-Solid (hostname-HostChars s h)))

-- For a row whose subdomain is one valid label, or whose domain is no wildcard, resolveRouteHostname answers
-- the host that formatRouteString prints and by which routesForHost finds the row.
pub resolve_route_hostname-route_host :
    (hostname subdomain : Text)
    → (is_wildcard hostname ≡ true → (is_hostname subdomain ≡ true) × (is_empty subdomain ≡ false))
    → resolve_route_hostname hostname subdomain ≡ some (route_host hostname subdomain)
unfolding resolve_route_hostname route_host
resolve_route_hostname-route_host hostname subdomain l = elim (Bool-cases (is_wildcard hostname)) [
  | inr plain ↦ rw plain refl
  | inl wild ↦
      let (v, full) = l wild in
      rw (wild, hostname-trim subdomain v, hostname-lower subdomain v, full) refl
]
