-- ===== src/Profiles/Choice.antt =====
-- Which profile is used.
use sitey.Prelude.{
  ◌≡◌, refl, true, false, Option, none, some, [], ◌∷◌, ok, Bool-cases, inl, inr, ◌⊎◌, arith,
  if◌then◌else◌, ◌++◌,
}
use sitey.Text.{Text, codes, text_eq, trim}
use sitey.Text.Equal.{text_eq→eq}
use sitey.Profiles.{
  Profile, Servers, normalize_server_url, profile_of, ServerUrl, local_server_name, is_loopback,
  check_server_url,
}
use sitey.SiteUrl.{is_absolute_url}

-- Why a profile is used: it was named and is configured; it is the only one and none was named; or none is
-- configured nor named, and it is the one of the machine itself.
pub data Chosen (servers : Servers) (chosen : Option Text) (local : Option Profile) (name : Text)
    (p : Profile) : Type 0 where
  named : chosen ≡ some name → profile_of servers name ≡ some p → Chosen servers chosen local name p
  only : chosen ≡ none → servers ≡ (name, p) ∷ [] → Chosen servers chosen local name p
  machine :
      chosen ≡ none
      → servers ≡ []
      → name ≡ local_server_name
      → local ≡ some p
      → Chosen servers chosen local name p

-- the address that was given, as a URL
abbrev pub server_text : Text → Text
server_text input =
    if is_absolute_url (trim input) then trim input else codes "https://" ++ trim input

-- The address that login stores, which normalizeServerUrl answers, is the origin of the URL that was given, with
-- https:// before it if it was not absolute, and that URL has https, or http and a loopback host.
normalize_server_url-https :
    (parse_url : Text → Option ServerUrl) (input origin : Text)
    → normalize_server_url parse_url input ≡ ok origin
    → (u : ServerUrl) × (parse_url (server_text input) ≡ some u)
      × (origin ≡ u.origin)
      × ((u.protocol ≡ codes "https:")
          ⊎ ((u.protocol ≡ codes "http:") × (is_loopback u.hostname ≡ true)))
unfolding normalize_server_url
normalize_server_url-https parse_url input origin h =
    by_url (server_text input) (parse_url (server_text input)) refl h
  where
    by_url :
        (text : Text) (url : Option ServerUrl)
        → parse_url text ≡ url
        → check_server_url input url ≡ ok origin
        → (u : ServerUrl) × (parse_url text ≡ some u)
          × (origin ≡ u.origin)
          × ((u.protocol ≡ codes "https:")
              ⊎ ((u.protocol ≡ codes "http:") × (is_loopback u.hostname ≡ true)))
    by_url text none e k = absurd (ground arith)
    by_url text (some u) e k = elim (Bool-cases (text_eq u.protocol (codes "https:"))) [
      | inl s ↦
          let same = text_eq→eq u.protocol (codes "https:") s in
          let t : text_eq u.protocol (codes "http:") ≡ false = rw same refl in
          (u, e, ground arith, inl same)
      | inr s ↦ elim (Bool-cases (text_eq u.protocol (codes "http:"))) [
        | inr t ↦ absurd (ground arith)
        | inl t ↦ (u, e, ground arith, inr (text_eq→eq u.protocol (codes "http:") t, ground arith))
      ]
    ]
