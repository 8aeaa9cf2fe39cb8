-- ===== src/StaticRouting/Tests.antt =====
-- Fragments that are accepted and refused.
use sitey.Prelude.{◌≡◌, refl, ok, err, All, some, []}
use sitey.Text.{Text, codes, trim, is_space, is_lower, is_upper, is_digit}
use sitey.StaticRouting.Check.{
  check_caddy_fragment, check_placeholders, group_lines, line_of, add_token, check_lines,
  check_line, open_line, close_block, check_braces, check_name, has_template, push_block, is_open,
  is_close, is_quoted_brace, is_brace, is_matcher_char, is_site_char,
}
use sitey.StaticRouting.Depth.{depth_from, check_caddy_fragment-depth}
use sitey.StaticRouting.Lexer.{
  Lexed, lex, forbidden_subdirective, unmatched_brace, lex_loop, lex_step, lex_end, quote_step,
  plain_step, quoted_step, start_step, word_step, count_line, end_token,
}
use sitey.StaticRouting.Names.{KeepsRoot, check_caddy_fragment-KeepsRoot}

runs : Unit {0}
unfolding check_caddy_fragment trim is_space check_placeholders line_of lex lex_loop lex_step
    lex_end quote_step plain_step quoted_step start_step word_step count_line end_token group_lines
    add_token check_lines check_line open_line close_block check_braces check_name has_template
    push_block is_open is_close is_quoted_brace is_brace is_matcher_char is_site_char is_lower
    is_upper is_digit
runs = tt

abbrev spa : Text
spa = codes "handle /a {\n  try_files {path} /index.html # x\n}\nfile_server"

spa_accepted : check_caddy_fragment spa ≡ ok spa
unfolding runs
spa_accepted = refl

check_caddy_fragment-depth_example :
    (spa ≡ spa)
    × (lexed : Lexed) × (lex spa ≡ ok lexed)
    × (depth_from (some 0) lexed.tokens ≡ some 0)
check_caddy_fragment-depth_example = check_caddy_fragment-depth spa spa spa_accepted

check_caddy_fragment-KeepsRoot_example :
    (lexed : Lexed) × (lex spa ≡ ok lexed) × All KeepsRoot (group_lines [] lexed.tokens)
check_caddy_fragment-KeepsRoot_example = check_caddy_fragment-KeepsRoot spa spa spa_accepted

escape_refused :
    check_caddy_fragment (codes "file_server\n}\nrespond 200") ≡ err (unmatched_brace 2)
unfolding runs
escape_refused = refl

root_refused :
    check_caddy_fragment (codes "file_server {\n root /etc\n}")
    ≡ err (forbidden_subdirective 2 (codes "root"))
unfolding runs
root_refused = refl

abbrev quoted_root : Text
quoted_root = codes "file_server {\n \"root\" /etc\n}"

-- the same name in quotes is accepted
quoted_root_accepted : check_caddy_fragment quoted_root ≡ ok quoted_root
unfolding runs
quoted_root_accepted = refl
