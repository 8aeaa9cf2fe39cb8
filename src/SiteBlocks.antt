-- ===== src/SiteBlocks.antt =====
-- The rendering of site blocks in server/src/services/caddy.ts.
pub mod Merge
pub mod Hosts
pub mod Bodies
pub mod Tagged
pub mod Sites
pub mod Collected
pub mod Emitted
mod Tests
use sitey.Prelude.{
  ℕ, suc, ◌+◌, Bool, true, false, not, ◌&&◌, ◌||◌, Option, none, some, List, [], ◌∷◌, ◌++◌, map,
  ◌==◌, if◌then◌else◌, is_empty, any, Result, ok, err,
}
use sitey.Text.{Text, codes, text_eq, trim, to_lower_case, slice, join}
use sitey.RouteString.{is_wildcard}

-- resolveRouteHostname
unfoldable pub resolve_route_hostname : Text → Text → Option Text
resolve_route_hostname domain_hostname route_subdomain =
    let label = to_lower_case (trim route_subdomain) in
    if not (is_wildcard domain_hostname)
    then some domain_hostname
    else if is_empty label
    then none
    else some (label ++ b'.' ∷ slice 2 domain_hostname)

pub record RenderedSiteBlock : Type 0 where
  pub labels : List Text
  pub body_lines : List Text
  pub tls_email : Option Text

abbrev pub texts_eq : List Text → List Text → Bool
texts_eq [] [] = true
texts_eq [] (t ∷ ts) = false
texts_eq (s ∷ ss) [] = false
texts_eq (s ∷ ss) (t ∷ ts) = text_eq s t && texts_eq ss ts

-- `block.tlsEmail ?? ""`
abbrev pub email_of : Option Text → Text
email_of none = []
email_of (some email) = email

-- The signatures are equal: JSON.stringify writes different texts and lists differently.
unfoldable pub same_signature : RenderedSiteBlock → RenderedSiteBlock → Bool
same_signature m b =
    text_eq (email_of m.tls_email) (email_of b.tls_email) && texts_eq m.body_lines b.body_lines

-- The loop's body: no two blocks of `merged` have the same signature, so the one that
-- `indexBySignature` knows is the first with it.
unfoldable pub add_block : List RenderedSiteBlock → RenderedSiteBlock → List RenderedSiteBlock
add_block [] b = b ∷ []
add_block (m ∷ merged) b =
    let rest = add_block merged b in
    if same_signature m b then record m { labels = m.labels ++ b.labels } ∷ merged else m ∷ rest

unfoldable pub merge_loop : List RenderedSiteBlock → List RenderedSiteBlock → List RenderedSiteBlock
merge_loop merged [] = merged
merge_loop merged (b ∷ blocks) = merge_loop (add_block merged b) blocks

unfoldable pub merge_rendered_site_blocks : List RenderedSiteBlock → List RenderedSiteBlock
merge_rendered_site_blocks blocks = merge_loop [] blocks

-- `email?.trim() || undefined`
unfoldable pub tls_email_for : Text → Option Text
tls_email_for email = if is_empty (trim email) then none else some (trim email)

-- appendSiteBlock, given the lines of buildSiteBlockBodyLines
unfoldable pub append_site_block :
    List RenderedSiteBlock → Text → Text → List Text → Bool → Bool → List RenderedSiteBlock
append_site_block blocks hostname email body_lines http_fallback http_only =
    let plain : RenderedSiteBlock = record {
      labels = (codes "http://" ++ hostname) ∷ [];
      body_lines = body_lines;
      tls_email = none;
    } in
    let main : RenderedSiteBlock = record {
      labels = hostname ∷ [];
      body_lines = body_lines;
      tls_email = tls_email_for email;
    } in
    if http_only
    then blocks ++ plain ∷ []
    else if http_fallback
    then blocks ++ plain ∷ main ∷ []
    else blocks ++ main ∷ []

-- appendRenderedSiteBlock
unfoldable pub append_rendered_site_block : List Text → RenderedSiteBlock → List Text
append_rendered_site_block lines block =
    lines
    ++ (join (codes ", ") block.labels ++ codes " {")
      ∷ (tls_directive (email_of block.tls_email) ++ (block.body_lines ++ codes "}" ∷ [] ∷ []))
  where
    tls_directive : Text → List Text
    tls_directive email =
        if is_empty (trim email) then [] else (codes "    tls " ++ trim email) ∷ []
