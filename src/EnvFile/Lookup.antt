-- ===== src/EnvFile/Lookup.antt =====
-- What parseEnvString reads: the last assignment of a variable wins.
use sitey.Prelude.{
  ◌≡◌, refl, sym, ap, ◌∙◌, false, Option, none, some, List, [], ◌∷◌, ◌++◌, arith, Bool-cases, All,
  inl, inr, if◌then◌else◌,
}
use sitey.Text.{Text, codes, text_eq}
use sitey.Text.Equal.{text_eq_iff}
use sitey.EnvFile.{Vars, put, env_line_key, line_value, parse_lines, assigns}

unfoldable pub lookup : Text → Vars → Option Text
lookup key [] = none
lookup key ((k, v) ∷ vars) = if text_eq k key then some v else lookup key vars

abbrev pub or_else : Option Text → Option Text → Option Text
or_else none o = o
or_else (some v) o = some v

-- The value that the lines give to a variable: that of the last line which assigns it.
unfoldable pub value_in : Text → List Text → Option Text
value_in key [] = none
value_in key (line ∷ ls) =
    or_else (value_in key ls) (if assigns key line then some (line_value line) else none)

-- No line assigns the variable.
abbrev pub Unassigned : Text → List Text → Type 0
Unassigned key ls = All (λ line. assigns key line ≡ false) ls

abbrev pub IsOrdinary : Text → Type 0
IsOrdinary key = text_eq key (codes "__proto__") ≡ false

lookup-put :
    (key k v : Text) (vars : Vars)
    → IsOrdinary key
    → lookup key (put k v vars) ≡ (if text_eq k key then some v else lookup key vars)
unfolding lookup put
lookup-put key k v [] o = elim (Bool-cases (text_eq k (codes "__proto__"))) [
  | inr e ↦ rw e refl
  | inl e ↦ rw e (
      ground (
        arith,
        text_eq_iff k (codes "__proto__"),
        text_eq_iff k key,
        text_eq_iff key (codes "__proto__"),
      ))
]
lookup-put key k v ((j, w) ∷ vars) o =
    ground (arith, lookup-put key k v vars o, text_eq_iff k key, text_eq_iff j k, text_eq_iff j key)

pub or_else-none : (o : Option Text) → or_else o none ≡ o
or_else-none none = refl
or_else-none (some v) = refl

pub or_else_assoc : (a b c : Option Text) → or_else (or_else a b) c ≡ or_else a (or_else b c)
or_else_assoc none b c = refl
or_else_assoc (some v) b c = refl

pub assigns_of_none : (key line : Text) → env_line_key line ≡ none → assigns key line ≡ false
unfolding assigns
assigns_of_none key line e = ground arith

pub assigns_of_some :
    (key line k : Text) → env_line_key line ≡ some k → assigns key line ≡ text_eq k key
unfolding assigns
assigns_of_some key line k e = ground arith

lookup-step :
    (key line : Text) (vars : Vars) (o : Option Text)
    → IsOrdinary key
    → env_line_key line ≡ o
    → lookup key (elim o [ none ↦ vars | some k ↦ put k (line_value line) vars ])
      ≡ or_else (if assigns key line then some (line_value line) else none) (lookup key vars)
lookup-step key line vars none ord e = rw (assigns_of_none key line e) refl
lookup-step key line vars (some k) ord e =
    rw (assigns_of_some key line k e, lookup-put key k (line_value line) vars ord) (ground arith)

pub lookup-parse_lines :
    (key : Text) (vars : Vars) (ls : List Text)
    → IsOrdinary key
    → lookup key (parse_lines vars ls) ≡ or_else (value_in key ls) (lookup key vars)
unfolding parse_lines value_in
lookup-parse_lines key vars [] o = refl
lookup-parse_lines key vars (line ∷ ls) o =
    lookup-parse_lines key
      (elim (env_line_key line) [ none ↦ vars | some k ↦ put k (line_value line) vars ]) ls o
    ∙ ap (or_else (value_in key ls)) (lookup-step key line vars (env_line_key line) o refl)
    ∙ sym (
        or_else_assoc (value_in key ls) (if assigns key line then some (line_value line) else none)
          (lookup key vars))

pub value_in-append :
    (key : Text) (ls ms : List Text)
    → value_in key (ls ++ ms) ≡ or_else (value_in key ms) (value_in key ls)
unfolding value_in
value_in-append key [] ms = ground arith
value_in-append key (line ∷ ls) ms = rw (value_in-append key ls ms) (
    or_else_assoc (value_in key ms) (value_in key ls)
      (if assigns key line then some (line_value line) else none))

pub value_in_of_Unassigned :
    (key : Text) (ls : List Text) → Unassigned key ls → value_in key ls ≡ none
unfolding value_in
value_in_of_Unassigned key [] h = refl
value_in_of_Unassigned key (line ∷ ls) h = rw (h.0, value_in_of_Unassigned key ls h.1) refl
