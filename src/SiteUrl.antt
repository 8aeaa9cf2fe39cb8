-- ===== src/SiteUrl.antt =====
-- server/src/services/siteUrl.ts: which address the control panel has. The platform's URL parser is an
-- argument, `parse_url`: what `new URL(text)` holds, or `none` if it throws.
pub mod Choice
mod Tests
use sitey.Prelude.{
  Bool, true, false, not, ◌&&◌, ◌||◌, Option, none, some, List, [], ◌∷◌, ◌++◌, ◌==◌, if◌then◌else◌,
  is_empty, all, find,
}
use sitey.Text.{
  Text, codes, text_eq, trim, before, from_first, slice, starts_with, ends_with, is_lower, is_upper,
  is_digit, drop_last, last_is,
}
use sitey.RouteString.{is_wildcard}
use sitey.Routes.{is_loopback_host}

-- What the source reads of a parsed URL; `origin` is its text once path, query and fragment are empty.
pub record ParsedUrl : Type 0 where
  pub protocol : Text
  pub hostname : Text
  pub origin : Text

pub data PublicSiteUrlSource : Type 0 where
  config wildcard env no_source : PublicSiteUrlSource

pub record PublicSiteUrlResolution : Type 0 where
  pub configured_url : Option Text
  pub wildcard_url : Option Text
  pub env_url : Option Text
  pub effective_url : Option Text
  pub source : PublicSiteUrlSource

unfoldable pub is_url_scheme_char : Bool → Text → Bool
is_url_scheme_char first [] = not first
is_url_scheme_char true (c ∷ s) = (is_lower c || is_upper c) && is_url_scheme_char false s
is_url_scheme_char false (c ∷ s) =
    (is_lower c || is_upper c || is_digit c || c == b'+' || c == b'-' || c == b'.')
    && is_url_scheme_char false s

-- ABSOLUTE_URL_REGEX, whose scheme ends at the first colon
unfoldable pub is_absolute_url : Text → Bool
is_absolute_url s =
    is_url_scheme_char true (before b':' s) && starts_with (from_first b':' s) (codes "://")

unfoldable pub drop_final_slash : Text → Text
drop_final_slash s = if last_is (λ c. c == b'/') s then drop_last s else s

abbrev pub web_origin : Option ParsedUrl → Option Text
web_origin none = none
web_origin (some url) =
    if text_eq url.protocol (codes "http:") || text_eq url.protocol (codes "https:")
    then some (drop_final_slash url.origin)
    else none

-- A row of Domain.
pub record PanelDomain : Type 0 where
  pub hostname : Text
  pub sitey_subdomains_enabled : Bool

module _ (parse_url : Text → Option ParsedUrl) where
  unfoldable pub normalize_site_url : Text → Option Text
  normalize_site_url raw =
      let trimmed = trim raw in
      if is_empty trimmed
      then none
      else web_origin
          (parse_url (if is_absolute_url trimmed then trimmed else codes "https://" ++ trimmed))

  -- `if (!row?.value) return null` and `if (!raw) return null`
  unfoldable pub normalize_given : Option Text → Option Text
  normalize_given none = none
  normalize_given (some value) = if is_empty value then none else normalize_site_url value

  abbrev pub panel_url : Option PanelDomain → Option Text
  panel_url none = none
  panel_url (some d) = normalize_site_url (codes "https://sitey." ++ slice 2 d.hostname)

  -- getWildcardPublicSiteUrl, over the domains in the order of their creation
  unfoldable pub wildcard_public_site_url : List PanelDomain → Option Text
  wildcard_public_site_url domains =
      panel_url
        (find (λ (d : PanelDomain). is_wildcard d.hostname && d.sitey_subdomains_enabled) domains)

  abbrev pub is_public : Option ParsedUrl → Bool
  is_public none = false
  is_public (some url) = not (is_loopback_host url.hostname)

  unfoldable pub is_usable_public_url : Option Text → Bool
  is_usable_public_url none = false
  is_usable_public_url (some url) = not (is_empty url) && is_public (parse_url url)

  unfoldable pub choose : Option Text → Option Text → Option Text → PublicSiteUrlResolution
  choose configured wild from_env =
      let given : Option Text → PublicSiteUrlSource → PublicSiteUrlResolution = λ url source.
        record {
          configured_url = configured;
          wildcard_url = wild;
          env_url = from_env;
          effective_url = url;
          source = source;
        } in
      if is_usable_public_url configured
      then given configured config
      else if is_usable_public_url wild
      then given wild wildcard
      else if is_usable_public_url from_env
      then given from_env env
      else given none no_source

  -- resolvePublicSiteUrl, of the saved value, the domains and the environment's SITEY_URL
  unfoldable pub resolve_public_site_url :
      Option Text → List PanelDomain → Option Text → PublicSiteUrlResolution
  resolve_public_site_url saved domains site_url =
      choose (normalize_given saved) (wildcard_public_site_url domains) (normalize_given site_url)
