-- ===== src/StaticRouting/Check.antt =====
-- `checkCaddyFragment` of server/src/services/staticRouting.ts after the lexer.
use sitey.Prelude.{
  ℕ, suc, Bool, true, false, not, ◌&&◌, ◌||◌, Option, none, some, List, [], ◌∷◌, ◌++◌, map, ◌==◌,
  ltb, length, if◌then◌else◌, is_empty, any, all, find, keep, Result, ok, err, ◌>>=◌,
}
use sitey.Text.{Text, codes, text_eq, starts_with, trim, slice, is_lower, is_upper, is_digit}
use sitey.StaticRouting.Lexer.{
  Token, FragmentError, lex, browse_template, closing_brace_not_alone, empty_config,
  forbidden_placeholder, never_closed, quoted_brace, quoted_directive, bad_matcher,
  opening_brace_not_last, unmatched_brace, opening_brace_alone, site_block, not_allowed,
  forbidden_subdirective,
}

abbrev pub member : List Text → Text → Bool
member names s = any (text_eq s) names

abbrev pub allowed_directives : List Text
allowed_directives = map codes (
    "abort" ∷ "basic_auth" ∷ "basicauth" ∷ "encode" ∷ "error" ∷ "file_server" ∷ "handle"
    ∷ "handle_path" ∷ "header" ∷ "method" ∷ "redir" ∷ "request_body" ∷ "request_header" ∷ "respond"
    ∷ "rewrite" ∷ "route" ∷ "try_files" ∷ "uri" ∷ [])

abbrev pub container_directives : List Text
container_directives = map codes ("handle" ∷ "handle_path" ∷ "route" ∷ [])

abbrev pub forbidden_subdirectives : List Text
forbidden_subdirectives = map codes ("root" ∷ "fs" ∷ "import" ∷ [])

-- The line of the first place where `pattern` stands: `input.slice(0, index).split("\n").length`
unfoldable pub line_of : Text → ℕ → Text → Option ℕ
line_of pattern line [] = if is_empty pattern then some line else none
line_of pattern line (c ∷ s) =
    let rest = line_of pattern (if c == 0xa then suc line else line) s in
    if starts_with (c ∷ s) pattern then some line else rest

abbrev pub forbidden_placeholders : List Text
forbidden_placeholders = map codes ("{$" ∷ "{env." ∷ "{file." ∷ [])

abbrev pub refuse_at : Option ℕ → Result FragmentError Unit
refuse_at none = ok tt
refuse_at (some line) = err (forbidden_placeholder line)

unfoldable pub check_placeholders : List Text → Text → Result FragmentError Unit
check_placeholders [] input = ok tt
check_placeholders (p ∷ ps) input =
    refuse_at (line_of p 1 input) >>= λ _. check_placeholders ps input

-- the last token of the line ends where this one begins
abbrev pub continues : List Token → Token → Bool
continues line t = last_ends line
  where
    last_ends : List Token → Bool
    last_ends [] = false
    last_ends (u ∷ []) = u.end_line == t.line
    last_ends (u ∷ v ∷ us) = last_ends (v ∷ us)

unfoldable pub add_token : List (List Token) → Token → List (List Token)
add_token [] t = (t ∷ []) ∷ []
add_token (l ∷ []) t = if continues l t then (l ++ t ∷ []) ∷ [] else l ∷ (t ∷ []) ∷ []
add_token (l ∷ m ∷ ls) t = l ∷ add_token (m ∷ ls) t

unfoldable pub group_lines : List (List Token) → List Token → List (List Token)
group_lines lines [] = lines
group_lines lines (t ∷ ts) = group_lines (add_token lines t) ts

-- An open block.
pub record Block : Type 0 where
  pub directive : Text
  pub container : Bool
  pub line : ℕ

unfoldable pub is_open : Token → Bool
is_open t = not t.quoted && text_eq t.text (codes "{")

unfoldable pub is_close : Token → Bool
is_close t = not t.quoted && text_eq t.text (codes "}")

unfoldable pub is_quoted_brace : Token → Bool
is_quoted_brace t = t.quoted && (text_eq t.text (codes "{") || text_eq t.text (codes "}"))

abbrev pub in_directives : List Block → Bool
in_directives [] = true
in_directives (b ∷ stack) = b.container

-- `/^@[A-Za-z0-9_-]+$/`, after the `@`
unfoldable pub is_matcher_char : ℕ → Bool
is_matcher_char c = is_lower c || is_upper c || is_digit c || c == b'_' || c == b'-'

-- `/^[a-z0-9.:[\]*-]+$/i`, with the two letters that the flag adds nothing to without `u`
unfoldable pub is_site_char : ℕ → Bool
is_site_char c =
    is_lower c
    || is_upper c
    || is_digit c
    || c == b'.'
    || c == b':'
    || c == b'['
    || c == b']'
    || c == b'*'
    || c == b'-'

unfoldable pub check_name : List Block → Token → List Token → Bool → Result FragmentError Unit
check_name stack first rest opens =
    let name = first.text in
    if in_directives stack
    then (if first.quoted
        then err (quoted_directive first.line)
        else if starts_with name (codes "@")
        then (if not (is_empty (slice 1 name)) && all is_matcher_char (slice 1 name)
            then ok tt
            else err (bad_matcher first.line name))
        else if not (member allowed_directives name)
        then (if not (is_empty name) && all is_site_char name && not (is_empty rest) && opens
            then err (site_block first.line name)
            else err (not_allowed first.line name))
        else ok tt)
    else if not first.quoted && member forbidden_subdirectives name
    then err (forbidden_subdirective first.line name)
    else ok tt

abbrev pub parent_is : List Block → Text → Bool
parent_is [] name = false
parent_is (b ∷ stack) name = text_eq b.directive name

-- the tokens after the first `browse`
abbrev pub after_browse : List Token → List Token
after_browse [] = []
after_browse (t ∷ ts) = if text_eq t.text (codes "browse") then ts else after_browse ts

unfoldable pub is_brace : Token → Bool
is_brace t = is_open t || is_close t

unfoldable pub has_template : List Block → Token → List Token → Bool
has_template stack first rest =
    if in_directives stack && text_eq first.text (codes "file_server")
    then not (is_empty (keep (λ t. not (is_brace t)) (after_browse (first ∷ rest))))
    else parent_is stack (codes "file_server")
      && text_eq first.text (codes "browse")
      && not (is_empty (keep (λ t. not (is_brace t)) rest))

unfoldable pub push_block : List Block → Token → Bool → List Block
push_block stack first opens =
    if opens
    then record {
      directive = first.text;
      container = in_directives stack && member container_directives first.text;
      line = first.line;
    }
      ∷ stack
    else stack

-- `opens.length && lineTokens.at(-1) !== opens[0]`: of one opening brace, the line's last token is it or none
unfoldable pub check_braces : Token → List Token → Result FragmentError Bool
check_braces first rest =
    let opens = length (keep is_open (first ∷ rest)) in
    if any is_close (first ∷ rest)
    then err (closing_brace_not_alone first.line)
    else if ltb 1 opens || (ltb 0 opens && not (last_open (first ∷ rest)))
    then err (opening_brace_not_last first.line)
    else if ltb 0 opens && is_empty rest
    then err (opening_brace_alone first.line)
    else ok (ltb 0 opens)
  where
    last_open : List Token → Bool
    last_open [] = false
    last_open (t ∷ []) = is_open t
    last_open (t ∷ u ∷ ts) = last_open (u ∷ ts)

unfoldable pub close_block : List Block → Token → List Token → Result FragmentError (List Block)
close_block stack first (t ∷ rest) = err (closing_brace_not_alone first.line)
close_block [] first [] = err (unmatched_brace first.line)
close_block (b ∷ stack) first [] = ok stack

unfoldable pub open_line : List Block → Token → List Token → Result FragmentError (List Block)
open_line stack first rest = check_braces first rest >>= λ opens.
    check_name stack first rest opens >>= λ _.
    if has_template stack first rest
    then err (browse_template first.line)
    else ok (push_block stack first opens)

abbrev pub refuse_brace : Option Token → Result FragmentError Unit
refuse_brace none = ok tt
refuse_brace (some t) = err (quoted_brace t.line)

-- the body of the loop over the lines; no line is empty
unfoldable pub check_line : List Block → List Token → Result FragmentError (List Block)
check_line stack [] = ok stack
check_line stack (first ∷ rest) = refuse_brace (find is_quoted_brace (first ∷ rest)) >>= λ _.
    if is_close first then close_block stack first rest else open_line stack first rest

unfoldable pub check_lines : List Block → List (List Token) → Result FragmentError (List Block)
check_lines stack [] = ok stack
check_lines stack (l ∷ ls) = check_line stack l >>= λ stack'. check_lines stack' ls

abbrev pub refuse_open : List Block → Text → Result FragmentError Text
refuse_open [] input = ok input
refuse_open (b ∷ stack) input = err (never_closed b.line b.directive)

unfoldable pub check_caddy_fragment : Text → Result FragmentError Text
check_caddy_fragment input =
    if is_empty (trim input)
    then err empty_config
    else check_placeholders forbidden_placeholders input >>= λ _. lex input >>= λ lexed.
        check_lines [] (group_lines [] lexed.tokens) >>= λ stack. refuse_open stack input
