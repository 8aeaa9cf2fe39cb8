-- ===== src/SiteUrl/Choice.antt =====
-- The order of the sources, and what the chosen address is.
use sitey.Prelude.{
  ◌≡◌, refl, true, false, Option, none, some, List, Bool-cases, inl, inr, arith, ◌∷◌, [],
  if◌then◌else◌, sym, ◌∙◌,
}
use sitey.Text.{Text}
use sitey.Routes.{is_loopback_host}
use sitey.SiteUrl.{
  ParsedUrl, choose, is_public, is_usable_public_url, resolve_public_site_url, PanelDomain,
  normalize_given, wildcard_public_site_url,
}

module _ (parse_url : Text → Option ParsedUrl) where
  -- The first of the saved address, the panel's under a wildcard domain and the environment's that is usable,
  -- `none` if there is none.
  abbrev pub first_usable : List (Option Text) → Option Text
  first_usable [] = none
  first_usable (u ∷ us) =
      let rest = first_usable us in if is_usable_public_url parse_url u then u else rest

  -- The address in use is the first usable one in the order saved, wildcard, environment, and there is none
  -- exactly when the source says so; the three addresses are answered as they were found.
  pub choose-first :
      (configured wild from_env : Option Text)
      → ((choose parse_url configured wild from_env).effective_url
          ≡ first_usable (configured ∷ wild ∷ from_env ∷ []))
        × ((choose parse_url configured wild from_env).configured_url ≡ configured)
        × ((choose parse_url configured wild from_env).wildcard_url ≡ wild)
        × ((choose parse_url configured wild from_env).env_url ≡ from_env)
  unfolding choose
  choose-first configured wild from_env =
      elim (Bool-cases (is_usable_public_url parse_url configured)) [
        | inl e ↦ rw e (refl, refl, refl, refl)
        | inr e ↦ elim (Bool-cases (is_usable_public_url parse_url wild)) [
          | inl k ↦ rw (e, k) (refl, refl, refl, refl)
          | inr k ↦ elim (Bool-cases (is_usable_public_url parse_url from_env)) [
            | inl j ↦ rw (e, k, j) (refl, refl, refl, refl)
            | inr j ↦ rw (e, k, j) (refl, refl, refl, refl)
          ]
        ]
      ]

  first_usable-usable :
      (us : List (Option Text)) (u : Text)
      → first_usable us ≡ some u
      → is_usable_public_url parse_url (some u) ≡ true
  first_usable-usable [] u h = absurd (ground arith)
  first_usable-usable (v ∷ us) u h = elim (Bool-cases (is_usable_public_url parse_url v)) [
    | inl e ↦ let same : v ≡ some u = rw e at h in rw (← same) e
    | inr e ↦ first_usable-usable us u (rw e at h)
  ]

  usable-public :
      (u : Text)
      → is_usable_public_url parse_url (some u) ≡ true
      → is_public parse_url (parse_url u) ≡ true
  unfolding is_usable_public_url
  usable-public u h = ground arith

  public-host :
      (url : Option ParsedUrl)
      → is_public parse_url url ≡ true
      → (p : ParsedUrl) × (url ≡ some p) × (is_loopback_host p.hostname ≡ false)
  public-host none h = absurd (ground arith)
  public-host (some p) h = (p, refl, ground arith)

  -- Whatever is saved, whichever domains there are and whatever the environment says, the address in use is
  -- one that parses, and its host is not a loopback one.
  pub resolve_public_site_url-public :
      (saved : Option Text) (domains : List PanelDomain) (site_url : Option Text) (u : Text)
      → (resolve_public_site_url parse_url saved domains site_url).effective_url ≡ some u
      → (p : ParsedUrl) × (parse_url u ≡ some p) × (is_loopback_host p.hostname ≡ false)
  unfolding resolve_public_site_url
  resolve_public_site_url-public saved domains site_url u h =
      let chosen =
        (choose-first (normalize_given parse_url saved) (wildcard_public_site_url parse_url domains)
          (normalize_given parse_url site_url)).0 in
      public-host (parse_url u) (
        usable-public u (
          first_usable-usable
            (normalize_given parse_url saved
              ∷ wildcard_public_site_url parse_url domains
              ∷ normalize_given parse_url site_url
              ∷ [])
            u (sym chosen ∙ h)))
