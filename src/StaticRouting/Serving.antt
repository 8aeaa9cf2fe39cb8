-- ===== src/StaticRouting/Serving.antt =====
-- `indentFragment` and `staticServingLines` of server/src/services/staticRouting.ts.
use sitey.Prelude.{
  refl, ℕ, suc, ◌&&◌, ◌||◌, Option, none, some, List, [], ◌∷◌, ◌++◌, ◌==◌, if◌then◌else◌, is_empty,
  any, Result, ok, err, ◌≡◌, Bool-cases, Result-cases, inl, inr,
}
use sitey.Text.{Text, codes, text_eq, trim, trim_start, trim_end, split}
use sitey.StaticRouting.Check.{check_caddy_fragment}
use sitey.StaticRouting.Depth.{check_caddy_fragment-depth}
use sitey.StaticRouting.Lexer.{FragmentError, Lexed, lex}

-- `replace(/\r\n/g, "\n")`
unfoldable pub unix_lines : Text → Text
unix_lines [] = []
unix_lines (c ∷ []) = c ∷ []
unix_lines (c ∷ d ∷ s) =
    let rest = unix_lines (d ∷ s) in if c == 0xd && d == 0xa then rest else c ∷ rest

unfoldable pub indent_line : List ℕ → Text → ℕ → Text → Text
indent_line continuation_lines indent i line =
    if any (λ n. n == i) continuation_lines || is_empty (trim line)
    then line
    else indent ++ trim_start line

unfoldable pub indent_lines : List ℕ → Text → ℕ → List Text → List Text
indent_lines continuation_lines indent i [] = []
indent_lines continuation_lines indent i (line ∷ lines) =
    indent_line continuation_lines indent i line
    ∷ indent_lines continuation_lines indent (suc i) lines

abbrev pub indent_lexed :
    Result FragmentError Lexed → Text → Text → Result FragmentError (List Text)
indent_lexed (err e) input indent = err e
indent_lexed (ok lexed) input indent =
    ok (indent_lines lexed.continuation_lines indent 0 (split 0xa (trim_end (unix_lines input))))

unfoldable pub indent_fragment : Text → Text → Result FragmentError (List Text)
indent_fragment input indent = indent_lexed (lex input) input indent

-- the lines of a stored fragment that no longer passes
abbrev pub ignored_fragment : Text → List Text
ignored_fragment indent =
    (indent ++ codes "respond \"Invalid custom Caddy config for this service\" 500") ∷ []

abbrev pub custom_lines : Result FragmentError Text → Text → Text → Result FragmentError (List Text)
custom_lines (err e) fragment indent = ok (ignored_fragment indent)
custom_lines (ok checked) fragment indent = indent_fragment fragment indent

-- `value ?? fallback`
abbrev pub given : Option Text → Text → Text
given none fallback = fallback
given (some value) fallback = value

abbrev pub multi_page_lines : Text → List Text
multi_page_lines i =
    (i ++ codes "@sitey_page file {path} {path}/index.html {path}.html")
    ∷ (i ++ codes "handle @sitey_page {")
    ∷ (i ++ codes "    rewrite * {file_match.relative}")
    ∷ (i ++ codes "    file_server")
    ∷ (i ++ codes "}")
    ∷ (i ++ codes "handle {")
    ∷ (i ++ codes "    @sitey_404 file /404.html")
    ∷ (i ++ codes "    handle @sitey_404 {")
    ∷ (i ++ codes "        rewrite * /404.html")
    ∷ (i ++ codes "        file_server {")
    ∷ (i ++ codes "            status 404")
    ∷ (i ++ codes "        }")
    ∷ (i ++ codes "    }")
    ∷ (i ++ codes "    handle {")
    ∷ (i ++ codes "        respond 404")
    ∷ (i ++ codes "    }")
    ∷ (i ++ codes "}")
    ∷ []

abbrev pub spa_lines : Text → List Text
spa_lines i = (i ++ codes "try_files {path} /index.html") ∷ (i ++ codes "file_server") ∷ []

-- The last result is that of `indentFragment`, whose error `staticServingLines` would throw.
unfoldable pub static_serving_lines :
    Option Text → Option Text → Text → Result FragmentError (List Text)
static_serving_lines routing_mode caddy_config i =
    let mode = given routing_mode (codes "spa") in
    if text_eq mode (codes "multi-page")
    then ok (multi_page_lines i)
    else if text_eq mode (codes "caddy")
    then (let fragment = given caddy_config [] in
        custom_lines (check_caddy_fragment fragment) fragment i)
    else ok (spa_lines i)

custom_lines-total :
    (fragment i : Text)
    → (lines : List Text) × (custom_lines (check_caddy_fragment fragment) fragment i ≡ ok lines)
unfolding indent_fragment
custom_lines-total fragment i = elim (Result-cases (check_caddy_fragment fragment)) [
  | inr (e, k) ↦ (ignored_fragment i, rw k refl)
  | inl (output, k) ↦
      let (_, lexed, lexes, _) = check_caddy_fragment-depth fragment output k in
      (
        indent_lines lexed.continuation_lines i 0 (split 0xa (trim_end (unix_lines fragment))),
        rw (k, lexes) refl,
      )
]

-- For every mode and every stored fragment the lines are returned: an error of the lexer in indentFragment
-- is never thrown, as checkCaddyFragment has lexed the same fragment before.
pub static_serving_lines-total :
    (routing_mode caddy_config : Option Text) (i : Text)
    → (lines : List Text) × (static_serving_lines routing_mode caddy_config i ≡ ok lines)
unfolding static_serving_lines
static_serving_lines-total routing_mode caddy_config i =
    elim (Bool-cases (text_eq (given routing_mode (codes "spa")) (codes "multi-page"))) [
      | inl e ↦ (multi_page_lines i, rw e refl)
      | inr e ↦ elim (Bool-cases (text_eq (given routing_mode (codes "spa")) (codes "caddy"))) [
        | inr k ↦ (spa_lines i, rw (e, k) refl)
        | inl k ↦
            let (lines, same) = custom_lines-total (given caddy_config []) i in
            (lines, rw (e, k) same)
      ]
    ]
