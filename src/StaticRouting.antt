-- ===== src/StaticRouting.antt =====
-- server/src/services/staticRouting.ts: how a custom Caddy fragment is checked, and the serving directives.
pub mod Lexer
pub mod Check
pub mod Depth
pub mod Names
pub mod Serving
mod Tests
use sitey.Prelude.{
  ℕ, suc, ◌+◌, Bool, true, false, not, ◌&&◌, ◌||◌, Option, none, some, List, [], ◌∷◌, ◌++◌, ◌==◌,
  ltb, length, if◌then◌else◌, is_empty, any, all, find, keep, Result, ok, err, ◌>>=◌,
}
use sitey.Text.{Text, codes, text_eq, starts_with, trim}
use sitey.StaticRouting.Lexer.{Token, FragmentError, Lexed, lex}
