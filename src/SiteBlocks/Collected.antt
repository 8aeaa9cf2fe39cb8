-- ===== src/SiteBlocks/Collected.antt =====
-- Every route is collected under its host, and every host once.
use sitey.Prelude.{
  ◌≡◌, refl, Bool, true, false, some, none, List, [], ◌∷◌, ◌++◌, arith, Bool-cases, inl, inr, ◌⊎◌,
  Option, In, subst, In-append_left, ◌&&◌, In-append_right, not,
}
use sitey.Text.{Text, codes, slice, text_eq}
use sitey.Text.Equal.{text_eq→eq}
use sitey.RouteString.{is_wildcard}
use sitey.SiteBlocks.{resolve_route_hostname}
use sitey.SiteBlocks.Bodies.{CaddyServiceRoute}
use sitey.SiteBlocks.Sites.{
  CaddyDomain, Site, add_domain, add_domains, add_panel, add_site, add_wildcard_routes, add_probe,
  add_route, update_site, has_site, probe_hostname,
}

-- The route is among those of the host.
abbrev pub IsCollected : Text → CaddyServiceRoute → List Site → Type 0
IsCollected host r [] = ⊥
IsCollected host r (s ∷ sites) = ((s.host ≡ host) × In r s.routes) ⊎ IsCollected host r sites

add_site-keeps :
    (d : CaddyDomain) (h : Text) (rs : List CaddyServiceRoute) (p : Bool) (sites : List Site)
    (host : Text) (r : CaddyServiceRoute)
    → IsCollected host r sites
    → IsCollected host r (add_site d h rs p sites)
unfolding add_site update_site
add_site-keeps d h rs p [] host r c = inr c
add_site-keeps d h rs p (s ∷ sites) host r (inl (e, i)) = elim (Bool-cases (text_eq s.host h)) [
  | inl k ↦ rw k (inl (e, In-append_left s.routes rs r i))
  | inr k ↦ rw k (inl (e, i))
]
add_site-keeps d h rs p (s ∷ sites) host r (inr c) = elim (Bool-cases (text_eq s.host h)) [
  | inl k ↦ rw k (inr c)
  | inr k ↦ rw k (inr (add_site-keeps d h rs p sites host r c))
]

add_site-adds :
    (d : CaddyDomain) (h : Text) (rs : List CaddyServiceRoute) (p : Bool) (sites : List Site)
    (r : CaddyServiceRoute)
    → In r rs
    → IsCollected h r (add_site d h rs p sites)
unfolding add_site update_site
add_site-adds d h rs p [] r i = inl (refl, i)
add_site-adds d h rs p (s ∷ sites) r i = elim (Bool-cases (text_eq s.host h)) [
  | inl k ↦ rw k (inl (text_eq→eq s.host h k, In-append_right s.routes rs r i))
  | inr k ↦ rw k (inr (add_site-adds d h rs p sites r i))
]

add_route-keeps :
    (d : CaddyDomain) (at : Option Text) (q : CaddyServiceRoute) (sites : List Site) (host : Text)
    (r : CaddyServiceRoute)
    → IsCollected host r sites
    → IsCollected host r (add_route d at q sites)
add_route-keeps d none q sites host r c = c
add_route-keeps d (some h) q sites host r c = add_site-keeps d h (q ∷ []) false sites host r c

add_wildcard_routes-keeps :
    (d : CaddyDomain) (rs : List CaddyServiceRoute) (sites : List Site) (host : Text)
    (r : CaddyServiceRoute)
    → IsCollected host r sites
    → IsCollected host r (add_wildcard_routes d rs sites)
unfolding add_wildcard_routes
add_wildcard_routes-keeps d [] sites host r c = c
add_wildcard_routes-keeps d (q ∷ rs) sites host r c =
    add_wildcard_routes-keeps d rs _ host r
      (add_route-keeps d (resolve_route_hostname d.hostname q.subdomain) q sites host r c)

add_wildcard_routes-adds :
    (d : CaddyDomain) (rs : List CaddyServiceRoute) (sites : List Site) (host : Text)
    (r : CaddyServiceRoute)
    → In r rs
    → resolve_route_hostname d.hostname r.subdomain ≡ some host
    → IsCollected host r (add_wildcard_routes d rs sites)
unfolding add_wildcard_routes
add_wildcard_routes-adds d [] sites host r i e = absurd i.lower
add_wildcard_routes-adds d (q ∷ rs) sites host r (inl k) e =
    let e' : resolve_route_hostname d.hostname q.subdomain ≡ some host = rw (← k) e in
    let first : IsCollected host r (add_route d (some host) q sites) =
      add_site-adds d host (q ∷ []) false sites r (inl k) in
    add_wildcard_routes-keeps d rs _ host r (rw e' first)
add_wildcard_routes-adds d (q ∷ rs) sites host r (inr i) e =
    add_wildcard_routes-adds d rs
      (add_route d (resolve_route_hostname d.hostname q.subdomain) q sites) host r i e

add_probe-keeps :
    (d : CaddyDomain) (at : Option Text) (sites : List Site) (host : Text) (r : CaddyServiceRoute)
    → IsCollected host r sites
    → IsCollected host r (add_probe d at sites)
add_probe-keeps d none sites host r c = c
add_probe-keeps d (some h) sites host r c = elim (Bool-cases (has_site h sites)) [
  | inl e ↦ rw e c
  | inr e ↦ rw e (add_site-keeps d h [] true sites host r c)
]

add_panel-keeps :
    (d : CaddyDomain) (sites : List Site) (host : Text) (r : CaddyServiceRoute)
    → IsCollected host r sites
    → IsCollected host r (add_panel d sites)
unfolding add_panel
add_panel-keeps d sites host r c =
    let panel_host = codes "sitey." ++ slice 2 d.hostname in
    elim (Bool-cases (d.sitey_subdomains_enabled && not (has_site panel_host sites))) [
      | inl e ↦ rw e (add_site-keeps d panel_host [] false sites host r c)
      | inr e ↦ rw e c
    ]

add_domain-keeps :
    (d : CaddyDomain) (sites : List Site) (host : Text) (r : CaddyServiceRoute)
    → IsCollected host r sites
    → IsCollected host r (add_domain d sites)
unfolding add_domain
add_domain-keeps d sites host r c = elim (Bool-cases (is_wildcard d.hostname)) [
  | inl e ↦ rw e (
      add_panel-keeps d _ host r (
        add_probe-keeps d (probe_hostname d.hostname) _ host r
          (add_wildcard_routes-keeps d d.routes sites host r c)))
  | inr e ↦ rw e (add_site-keeps d d.hostname d.routes false sites host r c)
]

exact-host :
    (hostname subdomain host : Text)
    → is_wildcard hostname ≡ false
    → resolve_route_hostname hostname subdomain ≡ some host
    → hostname ≡ host
unfolding resolve_route_hostname
exact-host hostname subdomain host e h = ground arith

add_domain-adds :
    (d : CaddyDomain) (sites : List Site) (host : Text) (r : CaddyServiceRoute)
    → In r d.routes
    → resolve_route_hostname d.hostname r.subdomain ≡ some host
    → IsCollected host r (add_domain d sites)
unfolding add_domain
add_domain-adds d sites host r i h = elim (Bool-cases (is_wildcard d.hostname)) [
  | inl e ↦ rw e (
      add_panel-keeps d _ host r (
        add_probe-keeps d (probe_hostname d.hostname) _ host r
          (add_wildcard_routes-adds d d.routes sites host r i h)))
  | inr e ↦
      let same = exact-host d.hostname r.subdomain host e h in
      rw e (
        subst (λ t. IsCollected t r (add_site d d.hostname d.routes false sites)) same
          (add_site-adds d d.hostname d.routes false sites r i))
]

add_domains-keeps :
    (domains : List CaddyDomain) (sites : List Site) (host : Text) (r : CaddyServiceRoute)
    → IsCollected host r sites
    → IsCollected host r (add_domains domains sites)
unfolding add_domains
add_domains-keeps [] sites host r c = c
add_domains-keeps (d ∷ domains) sites host r c =
    add_domains-keeps domains (add_domain d sites) host r (add_domain-keeps d sites host r c)

-- Every route of every domain that resolveRouteHostname gives a host is among the routes of that host's
-- site block, whatever the other domains are and in whichever order they come: the settings of an exact
-- domain discard no route of a wildcard one, nor the other way round.
pub add_domains-IsCollected :
    (domains : List CaddyDomain) (sites : List Site) (d : CaddyDomain) (host : Text)
    (r : CaddyServiceRoute)
    → In d domains
    → In r d.routes
    → resolve_route_hostname d.hostname r.subdomain ≡ some host
    → IsCollected host r (add_domains domains sites)
unfolding add_domains
add_domains-IsCollected [] sites d host r i j h = absurd i.lower
add_domains-IsCollected (k ∷ domains) sites d host r (inl e) j h =
    add_domains-keeps domains (add_domain k sites) host r
      (subst (λ x. IsCollected host r (add_domain x sites)) e (add_domain-adds d sites host r j h))
add_domains-IsCollected (k ∷ domains) sites d host r (inr i) j h =
    add_domains-IsCollected domains (add_domain k sites) d host r i j h
