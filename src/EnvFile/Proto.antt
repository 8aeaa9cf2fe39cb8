-- ===== src/EnvFile/Proto.antt =====
-- The variable name that the reader cannot hold, and when an edit succeeds.
use sitey.Prelude.{
  ◌≡◌, refl, true, false, Option, none, some, List, [], ◌∷◌, arith, Bool-cases, inl, inr, Result,
  ok, err, ◌↔◌,
}
use sitey.Text.{Text, codes, text_eq, split, includes}
use sitey.Text.Equal.{text_eq_iff}
use sitey.EnvFile.{
  EnvFileError, Vars, put, env_line_key, line_value, parse_lines, parse_env_string, is_env_name,
  set_env_var, encode_value, is_name_start, is_name_char,
}
use sitey.EnvFile.Lookup.{lookup}

abbrev proto : Text
proto = codes "__proto__"

put-proto :
    (k v : Text) (vars : Vars) → lookup proto vars ≡ none → lookup proto (put k v vars) ≡ none
unfolding lookup put
put-proto k v [] h = elim (Bool-cases (text_eq k proto)) [
  | inl e ↦ rw e refl
  | inr e ↦ rw e (rw e refl)
]
put-proto k v ((j, w) ∷ vars) h =
    ground (arith, put-proto k v vars, text_eq_iff k proto, text_eq_iff j k, text_eq_iff j proto)

parse_lines-proto :
    (vars : Vars) (ls : List Text)
    → lookup proto vars ≡ none
    → lookup proto (parse_lines vars ls) ≡ none
unfolding parse_lines
parse_lines-proto vars [] h = h
parse_lines-proto vars (line ∷ ls) h =
    parse_lines-proto
      (elim (env_line_key line) [ none ↦ vars | some key ↦ put key (line_value line) vars ]) ls
      (step (env_line_key line))
  where
    step :
        (o : Option Text)
        → lookup proto (elim o [ none ↦ vars | some key ↦ put key (line_value line) vars ]) ≡ none
    step none = h
    step (some key) = put-proto key (line_value line) vars h

-- Whatever the file says, the reader returns no variable `__proto__`, a name that setEnvVar accepts.
lookup-proto :
    (raw : Text)
    → (lookup (codes "__proto__") (parse_env_string raw) ≡ none)
      × (is_env_name (codes "__proto__") ≡ true)
unfolding parse_env_string is_env_name is_name_start is_name_char
lookup-proto raw = (parse_lines-proto [] (split b'\n' raw) (unfold lookup in refl), refl)

-- setEnvVar succeeds exactly for a valid name and a value without line breaks.
set_env_var_iff :
    (raw name value : Text)
    → ((edited : Text) × (set_env_var raw name value ≡ ok edited)) ↔ (
        (is_env_name name ≡ true) × (includes value b'\r' ≡ false) × (includes value b'\n' ≡ false))
unfolding set_env_var encode_value
set_env_var_iff raw name value =
    (λ p. forward p.0 p.1, λ p. backward (set_env_var raw name value) refl p.0 p.1 p.2)
  where
    forward :
        (edited : Text)
        → set_env_var raw name value ≡ ok edited
        → (is_env_name name ≡ true)
          × (includes value b'\r' ≡ false)
          × (includes value b'\n' ≡ false)
    forward edited h = ground arith

    backward :
        (r : Result EnvFileError Text)
        → set_env_var raw name value ≡ r
        → is_env_name name ≡ true
        → includes value b'\r' ≡ false
        → includes value b'\n' ≡ false
        → (edited : Text) × (r ≡ ok edited)
    backward (ok edited) e v c n = (edited, refl)
    backward (err x) e v c n = absurd (ground arith)
