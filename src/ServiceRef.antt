-- ===== src/ServiceRef.antt =====
-- server/src/lib/serviceRef.ts: names of services, and references to them.
pub mod RoundTrip
mod Tests
use sitey.Prelude.{
  ℕ, ◌+◌, ◌-◌, ◌*◌, Bool, true, false, not, ◌&&◌, ◌||◌, ◌==◌, leb, List, [], ◌∷◌, ◌++◌,
  if◌then◌else◌, is_empty, all, length,
}
use sitey.Text.{Text, codes, starts_with, slice, trim, is_digit, is_lower}
use sitey.SiteBlocks.Bodies.{decimal}

-- `/^\d+$/`
unfoldable pub is_number : Text → Bool
is_number s = not (is_empty s) && all is_digit s

abbrev pub first_is_digit : Text → Bool
first_is_digit [] = false
first_is_digit (c ∷ s) = is_digit c

-- isIdLikeServiceName; "service-" has 8 characters
unfoldable pub is_id_like : Text → Bool
is_id_like name =
    is_number name || (starts_with name (codes "service-") && first_is_digit (slice 8 name))

unfoldable pub is_service_char : ℕ → Bool
is_service_char c = is_lower c || is_digit c || c == b'-'

-- what serviceNameSchema accepts
unfoldable pub is_service_name : Text → Bool
is_service_name name =
    not (is_empty name) && leb (length name) 40 && all is_service_char name && not (is_id_like name)

pub data ServiceRef : Type 0 where
  by_id : ℕ → ServiceRef
  by_name : Text → ServiceRef

-- `Number(match[1])` of decimal digits, exact below 2^53
unfoldable pub number_from : ℕ → Text → ℕ
number_from n [] = n
number_from n (c ∷ s) = number_from (n * 10 + (c - 48)) s

unfoldable pub bare_ref : Text → Text
bare_ref s = if starts_with s (codes "service-") then slice 8 s else s

unfoldable pub parse_service_ref : Text → ServiceRef
parse_service_ref ref =
    let trimmed = trim ref in
    if is_number (bare_ref trimmed)
    then by_id (number_from 0 (bare_ref trimmed))
    else by_name trimmed

unfoldable pub format_service_ref : ℕ → Text
format_service_ref id = codes "service-" ++ decimal id
