-- ===== src/EnvFile.antt =====
-- server/src/lib/envFile.ts, and its reader parseEnvString of server/src/services/deployment.ts.
pub mod Lookup
pub mod Lines
pub mod Assignment
pub mod Edit
pub mod Proto
mod Tests
use sitey.Prelude.{
  ℕ, Bool, true, false, not, ◌&&◌, ◌||◌, Option, none, some, List, [], ◌∷◌, ◌++◌, ◌==◌,
  if◌then◌else◌, all, is_empty, keep, any, length, Result, ok, err, ◌>>=◌, map,
}
use sitey.Text.{
  Text, codes, text_eq, starts_with, includes, is_space, trim, trim_start, before, from_first,
  slice, split, join, last_is, inner, is_upper, is_lower, is_digit,
}

pub data EnvFileError : Type 0 where
  invalid_name : Text → EnvFileError
  line_break : EnvFileError

-- `[A-Za-z_]`
unfoldable pub is_name_start : ℕ → Bool
unfolding is_upper is_lower
is_name_start c = is_upper c || is_lower c || c == b'_'

-- `[A-Za-z0-9_]`
unfoldable pub is_name_char : ℕ → Bool
unfolding is_name_start is_digit
is_name_char c = is_name_start c || is_digit c

-- ENV_NAME_REGEX
unfoldable pub is_env_name : Text → Bool
is_env_name [] = false
is_env_name (c ∷ s) = is_name_start c && all is_name_char s

-- The first character is white space.
abbrev pub starts_with_space : Text → Bool
starts_with_space [] = false
starts_with_space (c ∷ s) = is_space c

-- `s.replace(/^export\s+/, "")`
unfoldable pub strip_export : Text → Text
strip_export s =
    let rest = slice 6 s in
    if starts_with s (codes "export") && starts_with_space rest then trim_start rest else s

abbrev pub none_if_empty : Text → Option Text
none_if_empty [] = none
none_if_empty (c ∷ s) = some (c ∷ s)

unfoldable pub key_of_trimmed : Text → Option Text
key_of_trimmed trimmed =
    if is_empty trimmed || starts_with trimmed (codes "#")
    then none
    else if includes trimmed b'='
    then none_if_empty (trim (strip_export (before b'=' trimmed)))
    else none

unfoldable pub env_line_key : Text → Option Text
env_line_key line = key_of_trimmed (trim line)

-- The variable that the line assigns is `name`: `envLineKey(line) === name`.
unfoldable pub assigns : Text → Text → Bool
assigns name line = elim (env_line_key line) [ none ↦ false | some key ↦ text_eq key name ]

-- `[...new Set(names)]`: the first occurrence of each stays.
unfoldable pub distinct : List Text → List Text → List Text
distinct seen [] = []
distinct seen (s ∷ ss) = elim (any (λ t. text_eq t s) seen) [
  | true ↦ distinct seen ss
  | false ↦ s ∷ distinct (s ∷ seen) ss
]

unfoldable pub line_keys : List Text → List Text
line_keys [] = []
line_keys (line ∷ ls) =
    let rest = line_keys ls in elim (env_line_key line) [ none ↦ rest | some key ↦ key ∷ rest ]

unfoldable pub env_var_names : Text → List Text
env_var_names raw = distinct [] (line_keys (split b'\n' raw))

-- The text begins and ends with the character.
unfoldable pub quoted_by : ℕ → Text → Bool
quoted_by q s = starts_with s (q ∷ []) && last_is (λ c. c == q) s

unfoldable pub unquote_env_value : Text → Text
unquote_env_value val = if quoted_by b'"' val || quoted_by b'\'' val then inner val else val

unfoldable pub needs_quotes : Text → Bool
needs_quotes value =
    not (text_eq value (trim value)) || not (text_eq (unquote_env_value value) value)

unfoldable pub encode_value : Text → Result EnvFileError Text
encode_value value =
    if includes value b'\r' || includes value b'\n'
    then err line_break
    else if needs_quotes value
    then ok (b'\'' ∷ (value ++ b'\'' ∷ []))
    else ok value

unfoldable pub lines : Text → List Text
lines [] = []
lines (c ∷ raw) = split b'\n' (c ∷ raw)

-- the loop of setEnvVar: the lines, and whether the assignment was placed
unfoldable pub replace_loop : Text → Text → Bool → List Text → List Text × Bool
replace_loop name assignment replaced [] = ([], replaced)
replace_loop name assignment replaced (line ∷ ls) =
    let assigned = assigns name line in
    let (out, done) = replace_loop name assignment (replaced || assigned) ls in
    (if assigned then (if replaced then out else assignment ∷ out) else line ∷ out, done)

-- `while (out.length && out[out.length - 1].trim() === "") out.pop()`
unfoldable pub drop_blank_end : List Text → List Text
drop_blank_end [] = []
drop_blank_end (line ∷ ls) =
    let rest = drop_blank_end ls in
    if is_empty rest && is_empty (trim line) then [] else line ∷ rest

unfoldable pub place : Text → List Text × Bool → List Text
place assignment (out, true) = out
place assignment (out, false) = drop_blank_end out ++ assignment ∷ []

unfoldable pub set_env_var : Text → Text → Text → Result EnvFileError Text
set_env_var raw name value = if not (is_env_name name) then err (invalid_name name) else do
  encoded ← encode_value value
  let assignment = name ++ b'=' ∷ encoded
  ok (join (b'\n' ∷ []) (place assignment (replace_loop name assignment false (lines raw))))

pub record Unset : Type 0 where
  pub env_vars : Text
  pub removed : Bool

unfoldable pub unset_env_var : Text → Text → Result EnvFileError Unset
unset_env_var raw name =
    if not (is_env_name name)
    then err (invalid_name name)
    else let every = lines raw in
      let kept = keep (λ line. not (assigns name line)) every in
      ok (record { env_vars = join (b'\n' ∷ []) kept; removed = not (length kept == length every) })

abbrev pub Vars : Type 0
Vars = List (Text × Text)

-- Writing a property of a plain object, whose `__proto__` cannot be made a text: that write is dropped.
unfoldable pub put : Text → Text → Vars → Vars
put key v [] = if text_eq key (codes "__proto__") then [] else (key, v) ∷ []
put key v ((k, w) ∷ vars) = if text_eq k key then (k, v) ∷ vars else (k, w) ∷ put key v vars

unfoldable pub line_value : Text → Text
line_value line = unquote_env_value (trim (slice 1 (from_first b'=' (trim line))))

-- the loop of parseEnvString
unfoldable pub parse_lines : Vars → List Text → Vars
parse_lines vars [] = vars
parse_lines vars (line ∷ ls) =
    parse_lines
      (elim (env_line_key line) [ none ↦ vars | some key ↦ put key (line_value line) vars ]) ls

unfoldable pub parse_env_string : Text → Vars
parse_env_string raw = parse_lines [] (split b'\n' raw)
