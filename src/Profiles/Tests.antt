-- ===== src/Profiles/Tests.antt =====
-- One server named by the environment, and its address.
use sitey.Prelude.{refl, ◌≡◌, Bool, Option, none, ok, some, ◌∷◌, [], if◌then◌else◌}
use sitey.Text.{
  codes, Text, text_eq, trim, is_space, before, from_first, is_lower, is_upper, is_digit, drop_last,
}
use sitey.Profiles.{
  Profile, Servers, normalize_server_url, select_profile, select_named, ServerUrl, select_only,
  is_loopback, is_profile_name, is_name_start, is_name_rest,
}
use sitey.Routes.{unbracket}
use sitey.SiteUrl.{is_absolute_url, is_url_scheme_char}

runs : Unit {0}
unfolding select_profile select_named select_only normalize_server_url is_loopback unbracket trim
    is_space is_absolute_url is_url_scheme_char before from_first is_lower is_upper is_digit
    drop_last is_profile_name is_name_start is_name_rest
runs = tt

abbrev main_profile : Profile
main_profile = record { url = codes "https://sitey.example.com"; token = codes "t" }

abbrev servers : Servers
servers = (codes "main", main_profile) ∷ (codes "other", main_profile) ∷ []

-- a name that every JavaScript object has
abbrev only_constructor : Text → Bool
only_constructor name = text_eq name (codes "constructor")

-- an unknown name of that kind is taken for a server without an address
constructor_selected :
    select_profile only_constructor servers (some (codes "constructor")) none none
    ≡ ok (record { name = codes "constructor"; profile = none })
unfolding runs
constructor_selected = refl

abbrev parse_one : Text → Option ServerUrl
parse_one text =
    if text_eq text (codes "https://sitey.example.com")
    then some (record {
      protocol = codes "https:";
      hostname = codes "sitey.example.com";
      host = codes "sitey.example.com";
      origin = codes "https://sitey.example.com";
    })
    else none

address_normalized :
    normalize_server_url parse_one (codes " sitey.example.com ")
    ≡ ok (codes "https://sitey.example.com")
unfolding runs
address_normalized = refl
