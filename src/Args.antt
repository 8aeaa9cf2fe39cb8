-- ===== src/Args.antt =====
-- siteyctl/src/args.ts: from the words of a command line to an invocation. The platform's `parseArgs` is an
-- argument of the functions that use it.
pub mod Spec
pub mod Required
mod Tests
use sitey.Prelude.{
  ℕ, suc, ◌+◌, ◌-◌, ltb, Bool, true, false, not, ◌&&◌, ◌||◌, ◌==◌, Option, none, some, List, [],
  ◌∷◌, ◌++◌, map, if◌then◌else◌, is_empty, any, find, keep, length, take, drop, Result, ok, err,
  ◌>>=◌,
}
use sitey.Text.{Text, codes, text_eq, starts_with, last_is, drop_last, slice, join}
use sitey.Args.Spec.{
  OptionSpec, Options, OptionType, text, boolean, optional_text, CommandSpec, commands,
  global_options,
}

-- UsageError, with what its message names
pub data UsageError : Type 0 where
  missing_command : UsageError
  needs_subcommand : Text → List Text → UsageError
  unknown_command : Text → UsageError
  bad_options : Text → CommandSpec → UsageError
  missing_arguments : List Text → CommandSpec → UsageError
  unexpected_argument : Text → CommandSpec → UsageError

-- the value of an option: a text, a flag, or the texts of one that may be repeated
pub data Value : Type 0 where
  one : Text → Value
  given : Bool → Value
  many : List Text → Value

-- What `parseArgs` answers.
pub record Parsed : Type 0 where
  pub values : List (Text × Value)
  pub positionals : List Text

pub record Run : Type 0 where
  pub command : CommandSpec
  pub args : List (Text × Option Text)
  pub options : List (Text × Value)
  pub server : Option Value
  pub json : Bool

pub data Invocation : Type 0 where
  help : Option CommandSpec → Invocation
  run : Run → Invocation

unfoldable pub is_option : Text → Bool
is_option token = starts_with token (codes "-") && not (text_eq token (codes "-"))

-- the loop of wordIndexes from index `i`; `skip` is that the index was advanced past a server's name
unfoldable pub word_loop : Bool → ℕ → List Text → List ℕ
word_loop skip i [] = []
word_loop true i (t ∷ ts) = word_loop false (suc i) ts
word_loop false i (t ∷ ts) =
    let server = word_loop true (suc i) ts in
    let rest = word_loop false (suc i) ts in
    if text_eq t (codes "--")
    then []
    else if text_eq t (codes "--server")
    then server
    else if is_option t
    then rest
    else i ∷ rest

unfoldable pub word_indexes : List Text → List ℕ
word_indexes argv = word_loop false 0 argv

abbrev pub token_at : List Text → ℕ → Text
token_at [] i = []
token_at (t ∷ ts) ℕ.zero = t
token_at (t ∷ ts) (suc i) = token_at ts i

unfoldable pub command_named : Text → Option CommandSpec
command_named name = find (λ (c : CommandSpec). text_eq c.name name) commands

abbrev pub FoundCommand : Type 0
FoundCommand = CommandSpec × List ℕ

abbrev pub consuming : List ℕ → Option CommandSpec → Option FoundCommand
consuming consumed none = none
consuming consumed (some c) = some (c, consumed)

abbrev pub or_else_found : Option FoundCommand → Option FoundCommand → Option FoundCommand
or_else_found (some f) other = some f
or_else_found none other = other

unfoldable pub find_from : List Text → List ℕ → Option FoundCommand
find_from argv [] = none
find_from argv (i ∷ []) = consuming (i ∷ []) (command_named (token_at argv i))
find_from argv (i ∷ j ∷ words) =
    let first = token_at argv i in
    let one_word = consuming (i ∷ []) (command_named first) in
    if j == suc i
    then or_else_found (consuming (i ∷ j ∷ []) (command_named (first ++ b' ' ∷ token_at argv j)))
        one_word
    else one_word

-- findCommand
unfoldable pub find_command : List Text → Option FoundCommand
find_command argv = find_from argv (word_indexes argv)

-- the error for a word that names no command, with groupHint
unfoldable pub unknown : Text → Text → UsageError
unknown word shown =
    let names =
      map (λ (c : CommandSpec). c.name)
        (keep (λ (c : CommandSpec). starts_with c.name (word ++ b' ' ∷ [])) commands) in
    if is_empty names then unknown_command shown else needs_subcommand word names

abbrev pub option_named : Options → Text → Option OptionSpec
option_named [] name = none
option_named ((n, o) ∷ options) name =
    let rest = option_named options name in if text_eq n name then some o else rest

abbrev pub default_of : OptionSpec → Text
default_of o = elim o.default_value [ some d ↦ d | none ↦ [] ]

-- the default value of the option that a token alone names, if it is one with an optional value
abbrev pub optional_default : Option OptionSpec → Option Text
optional_default none = none
optional_default (some o) = elim o.type [ optional_text ↦ some (default_of o) | _ ↦ none ]

abbrev pub option_name : Text → Text
option_name token = if starts_with token (codes "--") then slice 2 token else []

abbrev pub with_value : Text → Text → Text
with_value name value = codes "--" ++ (name ++ b'=' ∷ value)

-- the loop of expandOptionalValues; `skip` is that the index was advanced past a value
unfoldable pub expand_loop : Options → Bool → List Text → List Text
expand_loop options skip [] = []
expand_loop options true (t ∷ ts) = expand_loop options false ts
expand_loop options false (t ∷ ts) =
    let skipped = expand_loop options true ts in
    let rest = expand_loop options false ts in
    expand_token t (optional_default (option_named options (option_name t))) ts skipped rest
  where
    expand_token : Text → Option Text → List Text → List Text → List Text → List Text
    expand_token t none next skipped rest = t ∷ rest
    expand_token t (some default) [] skipped rest = with_value (option_name t) default ∷ rest
    expand_token t (some default) (value ∷ next) skipped rest =
        if is_option value
        then with_value (option_name t) default ∷ rest
        else with_value (option_name t) value ∷ skipped

unfoldable pub expand_optional_values : Options → List Text → List Text
expand_optional_values options tokens = expand_loop options false tokens

-- `argv.filter((_, i) => !consumed.includes(i))`, from index `i`
unfoldable pub without_indexes : List ℕ → ℕ → List Text → List Text
without_indexes consumed i [] = []
without_indexes consumed i (t ∷ ts) =
    let rest = without_indexes consumed (suc i) ts in
    if any (λ j. j == i) consumed then rest else t ∷ rest

abbrev pub is_optional : Text → Bool
is_optional a = last_is (λ c. c == b'?') a

-- `a.replace(/\?$/, "")`
abbrev pub argument_name : Text → Text
argument_name a = if is_optional a then drop_last a else a

unfoldable pub bind_args : List Text → List Text → List (Text × Option Text)
bind_args [] positionals = []
bind_args (a ∷ args) [] = (argument_name a, none) ∷ bind_args args []
bind_args (a ∷ args) (p ∷ positionals) = (argument_name a, some p) ∷ bind_args args positionals

abbrev pub value_of : List (Text × Value) → Text → Option Value
value_of [] name = none
value_of ((n, v) ∷ values) name =
    let rest = value_of values name in if text_eq n name then some v else rest

-- `Boolean(value)`
abbrev pub is_truthy : Option Value → Bool
is_truthy none = false
is_truthy (some (one s)) = not (is_empty s)
is_truthy (some (given b)) = b
is_truthy (some (many ss)) = true

abbrev pub is_own_option : Text × Value → Bool
is_own_option (n, v) =
    not (text_eq n (codes "server"))
    && not (text_eq n (codes "json"))
    && not (text_eq n (codes "help"))

abbrev pub required_args : List Text → List Text
required_args args = keep (λ a. not (is_optional a)) args

-- the invocation that is run
unfoldable pub run_of : CommandSpec → Parsed → Run
run_of command parsed = record {
  command = command;
  args = bind_args command.args parsed.positionals;
  options = keep is_own_option parsed.values;
  server = value_of parsed.values (codes "server");
  json = is_truthy (value_of parsed.values (codes "json"));
}

-- parseInvocation after `parseArgs`
unfoldable pub invoke : CommandSpec → Parsed → Result UsageError Invocation
invoke command parsed =
    let required = length (required_args command.args) in
    let count = length parsed.positionals in
    if is_truthy (value_of parsed.values (codes "help"))
    then ok (help (some command))
    else if ltb count required
    then err
        (missing_arguments (drop count (take required (map argument_name command.args))) command)
    else if ltb (length command.args) count
    then err (unexpected_argument (token_at parsed.positionals (length command.args)) command)
    else ok (run (run_of command parsed))

module _ (parse_args : Options → List Text → Result Text Parsed) where
  abbrev pub invoke_parsed : CommandSpec → Result Text Parsed → Result UsageError Invocation
  invoke_parsed command (err message) = err (bad_options message command)
  invoke_parsed command (ok parsed) = invoke command parsed

  -- a command's own options win over the global ones of the same name
  unfoldable pub run_command : List Text → FoundCommand → Result UsageError Invocation
  run_command argv (command, consumed) =
      let options = command.options ++ global_options in
      invoke_parsed command
        (parse_args options (expand_optional_values options (without_indexes consumed 0 argv)))

  abbrev pub missing_or_unknown : List Text → List ℕ → Result UsageError Invocation
  missing_or_unknown argv (i ∷ words) = err (unknown (token_at argv i) (token_at argv i))
  missing_or_unknown argv [] =
      if any (λ t. text_eq t (codes "--help") || text_eq t (codes "-h")) argv
      then ok (help none)
      else err missing_command

  abbrev pub help_on : List Text → Option FoundCommand → Result UsageError Invocation
  help_on [] found = ok (help none)
  help_on (t ∷ rest) (some (command, consumed)) = ok (help (some command))
  help_on (t ∷ rest) none = err (unknown t (join (codes " ") (t ∷ rest)))

  abbrev pub run_found : List Text → Option FoundCommand → Result UsageError Invocation
  run_found argv none = missing_or_unknown argv (word_indexes argv)
  run_found argv (some found) = run_command argv found

  unfoldable pub parse_invocation : List Text → Result UsageError Invocation
  parse_invocation [] = ok (help none)
  parse_invocation (t ∷ rest) =
      if text_eq t (codes "help")
      then help_on rest (find_command rest)
      else run_found (t ∷ rest) (find_command (t ∷ rest))
