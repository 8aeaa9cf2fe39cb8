-- ===== src/EnvFile/Tests.antt =====
-- Cases of server/tests/env-file.test.ts, evaluated, and instances of the theorems.
use sitey.Prelude.{◌≡◌, ◌≢◌, refl, true, some, none, ok, arith, ◌∷◌, [], any, sym}
use sitey.Text.{codes, before, from_first, split, join, drop_last, trim, Text}
use sitey.Text.Equal.{text_eq_iff}
use sitey.EnvFile.{
  env_line_key, key_of_trimmed, strip_export, set_env_var, unset_env_var, is_env_name, is_name_char,
  is_name_start, encode_value, needs_quotes, unquote_env_value, quoted_by, lines, replace_loop,
  drop_blank_end, place, assigns, put, line_value, parse_lines, parse_env_string, env_var_names,
  line_keys, distinct,
}
use sitey.EnvFile.Edit.{lookup-set_env_var, lookup-unset_env_var}
use sitey.EnvFile.Lookup.{lookup}

runs : Unit {0}
unfolding env_line_key key_of_trimmed strip_export set_env_var unset_env_var is_env_name
    is_name_char is_name_start encode_value needs_quotes unquote_env_value quoted_by lines
    replace_loop drop_blank_end place assigns put line_value parse_lines parse_env_string
    env_var_names line_keys distinct before from_first split join drop_last trim
runs = tt

abbrev file : Text
file = codes "# x\nexport A=1\nB='two'\nA=3\n\n"

abbrev edited : Text
edited = codes "# x\nexport A=1\nB=' 2'\nA=3\n\n"

set_b : set_env_var file (codes "B") (codes " 2") ≡ ok edited
unfolding runs
set_b = refl

append_c :
    set_env_var file (codes "C") (codes "9") ≡ ok (codes "# x\nexport A=1\nB='two'\nA=3\nC=9")
unfolding runs
append_c = refl

set_a : set_env_var file (codes "A") (codes "z") ≡ ok (codes "# x\nA=z\nB='two'\n\n")
unfolding runs
set_a = refl

names : env_var_names file ≡ codes "A" ∷ codes "B" ∷ []
unfolding runs
names = refl

unset_a :
    unset_env_var file (codes "A")
    ≡ ok (record { env_vars = codes "# x\nB='two'\n\n"; removed = true })
unfolding runs
unset_a = refl

lookup-set_env_var_example : lookup (codes "B") (parse_env_string edited) ≡ some (codes " 2")
lookup-set_env_var_example =
    lookup-set_env_var file (codes "B") (codes " 2") edited (codes "B") refl set_b

a_not_b : codes "B" ≢ codes "A"
a_not_b = λ e. absurd (ground (arith, text_eq_iff (codes "B") (codes "A")))

lookup-unset_env_var_example :
    (lookup (codes "A") (parse_env_string (codes "# x\nB='two'\n\n")) ≡ none)
    × (lookup (codes "B") (parse_env_string (codes "# x\nB='two'\n\n"))
        ≡ lookup (codes "B") (parse_env_string file))
    × (true ≡ any (assigns (codes "A")) (lines file))
lookup-unset_env_var_example =
    lookup-unset_env_var file (codes "A") (codes "B")
      (record { env_vars = codes "# x\nB='two'\n\n"; removed = true }) refl refl
      (λ e. a_not_b (sym e)) unset_a
