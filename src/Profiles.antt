-- ===== src/Profiles.antt =====
-- The choice of a server profile in siteyctl/src/profiles.ts. The platform's URL parser is an argument.
pub mod Choice
mod Tests
use sitey.Prelude.{
  ℕ, Bool, true, false, not, ◌&&◌, ◌||◌, ◌==◌, leb, Option, none, some, List, [], ◌∷◌, ◌++◌, map,
  if◌then◌else◌, is_empty, all, any, length, Result, ok, err,
}
use sitey.Text.{
  Text, codes, text_eq, trim, before, from_first, starts_with, is_lower, is_upper, is_digit,
}
use sitey.Routes.{unbracket}
use sitey.SiteUrl.{is_absolute_url}

pub record Profile : Type 0 where
  pub url : Text
  pub token : Text

abbrev pub Servers : Type 0
Servers = List (Text × Profile)

-- ProfileError, with what its message names
pub data ProfileError : Type 0 where
  bad_name : Text → ProfileError
  bad_url not_https : Text → ProfileError
  https_required : Text → ProfileError
  no_server_named : Text → Bool → List Text → ProfileError
  none_configured : ProfileError
  several_configured : List Text → ProfileError

unfoldable pub is_name_start : ℕ → Bool
is_name_start c = is_lower c || is_upper c || is_digit c

unfoldable pub is_name_rest : ℕ → Bool
is_name_rest c = is_lower c || is_upper c || is_digit c || c == b'.' || c == b'_' || c == b'-'

-- PROFILE_NAME_REGEX
unfoldable pub is_profile_name : Text → Bool
is_profile_name [] = false
is_profile_name (c ∷ s) = is_name_start c && all is_name_rest s && leb (length s) 63

-- validateProfileName
unfoldable pub validate_profile_name : Text → Result ProfileError Unit
validate_profile_name name = if is_profile_name name then ok tt else err (bad_name name)

-- isLoopback
unfoldable pub is_loopback : Text → Bool
is_loopback hostname =
    let h = unbracket hostname in
    text_eq h (codes "localhost") || text_eq h (codes "127.0.0.1") || text_eq h (codes "::1")

-- What the source reads of a parsed URL.
pub record ServerUrl : Type 0 where
  pub protocol : Text
  pub hostname : Text
  pub host : Text
  pub origin : Text

abbrev pub check_server_url : Text → Option ServerUrl → Result ProfileError Text
check_server_url input none = err (bad_url input)
check_server_url input (some url) =
    if text_eq url.protocol (codes "http:") && not (is_loopback url.hostname)
    then err (https_required url.host)
    else if not (text_eq url.protocol (codes "https:"))
        && not (text_eq url.protocol (codes "http:"))
    then err (not_https input)
    else ok url.origin

-- normalizeServerUrl
unfoldable pub normalize_server_url : (Text → Option ServerUrl) → Text → Result ProfileError Text
normalize_server_url parse_url input =
    let trimmed = trim input in
    check_server_url input
      (parse_url (if is_absolute_url trimmed then trimmed else codes "https://" ++ trimmed))

-- A selected profile; `none` is a member that every object inherits, such as `constructor`.
pub record Selected : Type 0 where
  pub name : Text
  pub profile : Option Profile

abbrev pub local_server_name : Text
local_server_name = codes "(local)"

abbrev pub profile_of : Servers → Text → Option Profile
profile_of [] name = none
profile_of ((n, p) ∷ servers) name =
    let rest = profile_of servers name in if text_eq n name then some p else rest

abbrev pub names_of : Servers → List Text
names_of servers = map (λ (s : Text × Profile). s.0) servers

-- `flag || envServer`: an empty text is no choice
abbrev pub chosen_name : Option Text → Option Text → Option Text
chosen_name (some (c ∷ s)) env_server = some (c ∷ s)
chosen_name _ (some (c ∷ s)) = some (c ∷ s)
chosen_name _ _ = none

abbrev pub is_given : Option Text → Bool
is_given none = false
is_given (some s) = not (is_empty s)

unfoldable pub select_named :
    (Text → Bool) → Servers → Bool → Text → Option Profile → Result ProfileError Selected
select_named is_inherited servers by_flag name (some p) =
    ok (record { name = name; profile = some p })
select_named is_inherited servers by_flag name none =
    if is_inherited name
    then ok (record { name = name; profile = none })
    else err (no_server_named name by_flag (names_of servers))

unfoldable pub select_only : Servers → Option Profile → Result ProfileError Selected
select_only [] none = err none_configured
select_only [] (some p) = ok (record { name = local_server_name; profile = some p })
select_only ((n, p) ∷ []) local = ok (record { name = n; profile = some p })
select_only (s ∷ t ∷ servers) local = err (several_configured (names_of (s ∷ t ∷ servers)))

abbrev pub select_chosen :
    (Text → Bool) → Servers → Bool → Option Profile → Option Text → Result ProfileError Selected
select_chosen is_inherited servers by_flag local none = select_only servers local
select_chosen is_inherited servers by_flag local (some name) =
    select_named is_inherited servers by_flag name (profile_of servers name)

-- selectProfile, given which names every object of the platform has
unfoldable pub select_profile :
    (Text → Bool)
    → Servers
    → Option Text
    → Option Text
    → Option Profile
    → Result ProfileError Selected
select_profile is_inherited servers flag env_server local =
    select_chosen is_inherited servers (is_given flag) local (chosen_name flag env_server)
