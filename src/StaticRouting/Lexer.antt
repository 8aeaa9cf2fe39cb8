-- ===== src/StaticRouting/Lexer.antt =====
-- `lex` of server/src/services/staticRouting.ts: the body of its loop is `lex_step`, its variables a record.
use sitey.Prelude.{
  ℕ, suc, Bool, true, false, not, ◌&&◌, ◌||◌, Option, none, some, List, [], ◌∷◌, ◌++◌, ◌==◌,
  if◌then◌else◌, Result, ok, err, ◌>>=◌,
}
use sitey.Text.{Text, is_space}

pub record Token : Type 0 where
  pub text : Text
  pub quoted : Bool
  pub line : ℕ
  pub end_line : ℕ

-- CaddyFragmentError, with the line and what else its message names
pub data FragmentError : Type 0 where
  empty_config : FragmentError
  forbidden_placeholder space_after_quote heredoc backslash quote_in_token unterminated_quote :
      ℕ → FragmentError
  quoted_brace closing_brace_not_alone unmatched_brace opening_brace_not_last opening_brace_alone
        quoted_directive browse_template :
      ℕ → FragmentError
  bad_matcher site_block not_allowed forbidden_subdirective never_closed : ℕ → Text → FragmentError

-- The local variables of `lex`. `skip` is that `i` has been advanced past the next character, and
-- `in_comment` that the loop over a comment has not met its newline.
pub record Lexed : Type 0 where
  pub tokens : List Token
  pub continuation_lines : List ℕ
  pub line : ℕ
  pub text : Text
  pub in_token : Bool
  pub quote : Option ℕ
  pub quote_line : ℕ
  pub token_line : ℕ
  pub skip : Bool
  pub in_comment : Bool

abbrev pub lex_start : Lexed
lex_start = record {
  tokens = [];
  continuation_lines = [];
  line = 1;
  text = [];
  in_token = false;
  quote = none;
  quote_line = 0;
  token_line = 1;
  skip = false;
  in_comment = false;
}

unfoldable pub end_token : Bool → Lexed → Lexed
end_token quoted st = record st {
  tokens =
      if st.in_token
      then st.tokens
        ++ record { text = st.text; quoted = quoted; line = st.token_line; end_line = st.line } ∷ []
      else st.tokens;
  text = [];
  in_token = false;
}

abbrev pub next_is : ℕ → Option ℕ → Bool
next_is c none = false
next_is c (some d) = d == c

abbrev pub next_ends_token : Option ℕ → Bool
next_ends_token none = true
next_ends_token (some d) = is_space d

-- a newline inside quotes
unfoldable pub count_line : ℕ → Lexed → Lexed
count_line c st =
    if c == 0xa
    then record st {
      line = suc st.line;
      continuation_lines = st.continuation_lines ++ st.line ∷ [];
    }
    else st

unfoldable pub quoted_step : ℕ → Lexed → ℕ → Option ℕ → Result FragmentError Lexed
quoted_step q before c next =
    let st = count_line c before in
    if q == b'"' && c == b'\\' && next_is b'"' next
    then ok (record st { text = st.text ++ b'"' ∷ []; skip = true })
    else if c == q
    then (if next_ends_token next
        then ok (end_token true (record st { quote = none }))
        else err (space_after_quote st.line))
    else ok (record st { text = st.text ++ c ∷ [] })

unfoldable pub word_step : Lexed → ℕ → Result FragmentError Lexed
word_step st c =
    if c == b'\\'
    then err (backslash st.line)
    else if c == b'"' || c == b'`'
    then err (quote_in_token st.line)
    else ok (record st { text = st.text ++ c ∷ [] })

unfoldable pub start_step : Lexed → ℕ → Option ℕ → Result FragmentError Lexed
start_step st c next =
    if c == b'#'
    then ok (record st { in_comment = true })
    else if c == b'"' || c == b'`'
    then ok
        (record st { quote = some c; quote_line = st.line; in_token = true; token_line = st.line })
    else if c == b'<' && next_is b'<' next
    then err (heredoc st.line)
    else word_step (record st { token_line = st.line; in_token = true }) c

unfoldable pub plain_step : Lexed → ℕ → Option ℕ → Result FragmentError Lexed
plain_step before c next =
    let st = record before { in_comment = false } in
    if c == 0xa
    then ok (record (end_token false st) { line = suc st.line })
    else if c == b' ' || c == 9 || c == 0xd
    then ok (end_token false st)
    else if st.in_token
    then word_step st c
    else start_step st c next

unfoldable pub quote_step : Option ℕ → Lexed → ℕ → Option ℕ → Result FragmentError Lexed
quote_step (some q) st c next = quoted_step q st c next
quote_step none st c next = plain_step st c next

unfoldable pub lex_step : Lexed → ℕ → Option ℕ → Result FragmentError Lexed
lex_step st c next =
    if st.skip
    then ok (record st { skip = false })
    else if st.in_comment && not (c == 0xa)
    then ok st
    else quote_step st.quote st c next

abbrev pub head? : Text → Option ℕ
head? [] = none
head? (c ∷ s) = some c

unfoldable pub lex_loop : Lexed → Text → Result FragmentError Lexed
lex_loop st [] = ok st
lex_loop st (c ∷ s) = lex_step st c (head? s) >>= λ st'. lex_loop st' s

unfoldable pub lex_end : Option ℕ → Lexed → Result FragmentError Lexed
lex_end (some q) st = err (unterminated_quote st.quote_line)
lex_end none st = ok (end_token false st)

unfoldable pub lex : Text → Result FragmentError Lexed
lex input = lex_loop lex_start input >>= λ st. lex_end st.quote st
