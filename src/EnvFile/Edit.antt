-- ===== src/EnvFile/Edit.antt =====
-- What parseEnvString reads after an edit by setEnvVar or unsetEnvVar.
use sitey.Prelude.{
  ◌≡◌, ◌≢◌, refl, sym, ap, ◌∙◌, Bool, true, false, not, ◌&&◌, Option, none, some, List, [], ◌∷◌,
  arith, Bool-cases, All, All-append, inl, inr, if◌then◌else◌, is_empty, ◌==◌, Result, ok, err,
  keep, All-keep, any, length, suc, ◌≤◌, subst,
}
use sitey.Text.{Text, split, join, trim, text_eq}
use sitey.Text.Equal.{text_eq_iff, text_eq→eq}
use sitey.Text.Split.{Lacks, split-join, split-Lacks}
use sitey.EnvFile.{
  EnvFileError, Unset, is_env_name, env_line_key, key_of_trimmed, encode_value, assigns, lines,
  replace_loop, drop_blank_end, place, set_env_var, unset_env_var, parse_env_string,
}
use sitey.EnvFile.Assignment.{
  IsEncoded, encode_value-IsEncoded, assignment_of, assignment-assigns, assignment-value,
  assignment-one_line,
}
use sitey.EnvFile.Lines.{value_in-place, value_in-place_other}
use sitey.EnvFile.Lookup.{
  lookup, value_in, or_else-none, IsOrdinary, lookup-parse_lines, value_in_of_Unassigned,
  Unassigned,
}

abbrev OneLine : List Text → Type 0
OneLine ls = All (Lacks b'\n') ls

lines-OneLine : (raw : Text) → OneLine (lines raw)
unfolding lines
lines-OneLine [] = tt
lines-OneLine (c ∷ raw) = split-Lacks b'\n' (c ∷ raw)

replace_loop-OneLine :
    (name assignment : Text) (replaced : Bool) (ls : List Text)
    → Lacks b'\n' assignment
    → OneLine ls
    → OneLine (replace_loop name assignment replaced ls).0
unfolding replace_loop
replace_loop-OneLine name assignment replaced [] one h = tt
replace_loop-OneLine name assignment true (line ∷ ls) one h =
    elim (Bool-cases (assigns name line)) [
      | inl e ↦ rw e (replace_loop-OneLine name assignment true ls one h.1)
      | inr e ↦ rw e (h.0, replace_loop-OneLine name assignment true ls one h.1)
    ]
replace_loop-OneLine name assignment false (line ∷ ls) one h =
    elim (Bool-cases (assigns name line)) [
      | inl e ↦ rw e (one, replace_loop-OneLine name assignment true ls one h.1)
      | inr e ↦ rw e (h.0, replace_loop-OneLine name assignment false ls one h.1)
    ]

drop_or_keep :
    (b : Bool) (line : Text) (ls : List Text)
    → Lacks b'\n' line
    → OneLine ls
    → OneLine (if b then [] else line ∷ ls)
drop_or_keep true line ls one h = tt
drop_or_keep false line ls one h = (one, h)

drop_blank_end-OneLine : (ls : List Text) → OneLine ls → OneLine (drop_blank_end ls)
unfolding drop_blank_end
drop_blank_end-OneLine [] h = tt
drop_blank_end-OneLine (line ∷ ls) h =
    drop_or_keep (is_empty (drop_blank_end ls) && is_empty (trim line)) line (drop_blank_end ls) h.0
      (drop_blank_end-OneLine ls h.1)

place-OneLine :
    (assignment : Text) (r : List Text × Bool)
    → Lacks b'\n' assignment
    → OneLine r.0
    → OneLine (place assignment r)
unfolding place
place-OneLine assignment (out, true) one h = h
place-OneLine assignment (out, false) one h =
    All-append _ (drop_blank_end out) (assignment ∷ []) (drop_blank_end-OneLine out h) (one, tt)

-- The empty line that `"".split("\n")` gives assigns nothing.
value_in-empty_line : (key : Text) → value_in key ([] ∷ []) ≡ none
unfolding value_in assigns env_line_key key_of_trimmed trim
value_in-empty_line key = refl

value_in-lines : (key raw : Text) → value_in key (split b'\n' raw) ≡ value_in key (lines raw)
unfolding lines
value_in-lines key [] = unfold split value_in in value_in-empty_line key
value_in-lines key (c ∷ raw) = refl

value_in-join :
    (key : Text) (ls : List Text)
    → OneLine ls
    → value_in key (split b'\n' (join (b'\n' ∷ []) ls)) ≡ value_in key ls
value_in-join key [] h = unfold split join value_in in value_in-empty_line key
value_in-join key (l ∷ ls) h = ap (value_in key) (split-join b'\n' l ls h)

lookup-parse :
    (key raw : Text)
    → IsOrdinary key
    → lookup key (parse_env_string raw) ≡ value_in key (split b'\n' raw)
unfolding parse_env_string lookup
lookup-parse key raw o =
    lookup-parse_lines key [] (split b'\n' raw) o ∙ or_else-none (value_in key (split b'\n' raw))

lookup-join :
    (key : Text) (ls : List Text)
    → IsOrdinary key
    → OneLine ls
    → lookup key (parse_env_string (join (b'\n' ∷ []) ls)) ≡ value_in key ls
lookup-join key ls o h = lookup-parse key (join (b'\n' ∷ []) ls) o ∙ value_in-join key ls h

lookup-raw :
    (key raw : Text) → IsOrdinary key → lookup key (parse_env_string raw) ≡ value_in key (lines raw)
lookup-raw key raw o = lookup-parse key raw o ∙ value_in-lines key raw

-- The edit of setEnvVar, taken apart.
pub record Edited (raw name value edited : Text) : Type 0 where
  pub name_valid : is_env_name name ≡ true
  pub encoded : Text
  pub encodes : IsEncoded encoded value
  pub result :
      edited
      ≡ join (b'\n' ∷ []) (
          place
            (assignment_of name encoded)
            (replace_loop name (assignment_of name encoded) false (lines raw)))

set_env_var-Edited :
    (raw name value edited : Text)
    → set_env_var raw name value ≡ ok edited
    → Edited raw name value edited
unfolding set_env_var
set_env_var-Edited raw name value edited h = go (encode_value value) refl
  where
    go : (r : Result EnvFileError Text) → encode_value value ≡ r → Edited raw name value edited
    go (err x) e = absurd (ground arith)
    go (ok t) e = record {
      name_valid = ground arith;
      encoded = t;
      encodes = encode_value-IsEncoded value t e;
      result = ground arith;
    }

pub edited-OneLine :
    (raw name value encoded : Text)
    → is_env_name name ≡ true
    → IsEncoded encoded value
    → OneLine (
        place
          (assignment_of name encoded)
          (replace_loop name (assignment_of name encoded) false (lines raw)))
edited-OneLine raw name value encoded v w =
    let one = assignment-one_line name encoded value v w in
    place-OneLine (assignment_of name encoded)
      (replace_loop name (assignment_of name encoded) false (lines raw)) one
      (replace_loop-OneLine name (assignment_of name encoded) false (lines raw) one
        (lines-OneLine raw))

-- the variable that was set
lookup-set_env_var_same :
    (raw name value edited : Text)
    → IsOrdinary name
    → set_env_var raw name value ≡ ok edited
    → lookup name (parse_env_string edited) ≡ some value
lookup-set_env_var_same raw name value edited o h =
    let d = set_env_var-Edited raw name value edited h in
    let v = d.name_valid in
    let w = d.encodes in
    rw d.result (
      lookup-join name _ o (edited-OneLine raw name value d.encoded v w)
      ∙ value_in-place name (assignment_of name d.encoded) (lines raw)
          (assignment-assigns name d.encoded value v w)
      ∙ ap some (assignment-value name d.encoded value v w))

other_name :
    (name key line : Text) → name ≢ key → assigns name line ≡ true → assigns key line ≡ false
unfolding assigns
other_name name key line ne h = go (env_line_key line) refl
  where
    go : (o : Option Text) → env_line_key line ≡ o → assigns key line ≡ false
    go none e = ground arith
    go (some k) e = ground (arith, text_eq_iff k name, text_eq_iff k key)

-- every other variable
lookup-set_env_var_other :
    (raw name value edited key : Text)
    → IsOrdinary key
    → name ≢ key
    → set_env_var raw name value ≡ ok edited
    → lookup key (parse_env_string edited) ≡ lookup key (parse_env_string raw)
lookup-set_env_var_other raw name value edited key o ne h =
    let d = set_env_var-Edited raw name value edited h in
    let v = d.name_valid in
    let w = d.encodes in
    rw d.result (
      lookup-join key _ o (edited-OneLine raw name value d.encoded v w)
      ∙ value_in-place_other name (assignment_of name d.encoded) key (lines raw)
          (assignment-assigns name d.encoded value v w) (λ line. other_name name key line ne)
      ∙ sym (lookup-raw key raw o))

-- After setEnvVar, for every file, value and variable except `__proto__`, the reader finds exactly the value that
-- was set for the variable that was set, and for every other variable what it found before.
pub lookup-set_env_var :
    (raw name value edited key : Text)
    → IsOrdinary key
    → set_env_var raw name value ≡ ok edited
    → lookup key (parse_env_string edited)
      ≡ (if text_eq name key then some value else lookup key (parse_env_string raw))
lookup-set_env_var raw name value edited key o h = elim (Bool-cases (text_eq name key)) [
  | inl e ↦
      let same : name ≡ key = text_eq→eq name key e in
      rw e (
        subst (λ k. lookup k (parse_env_string edited) ≡ some value) same
          (lookup-set_env_var_same raw name value edited (rw same o) h))
  | inr e ↦ rw e (
      lookup-set_env_var_other raw name value edited key o
        (λ same. absurd (ground (arith, text_eq_iff name key))) h)
]

kept-Unassigned :
    (name : Text) (ls : List Text) → Unassigned name (keep (λ line. not (assigns name line)) ls)
kept-Unassigned name [] = tt
kept-Unassigned name (line ∷ ls) = elim (Bool-cases (assigns name line)) [
  | inl e ↦ rw e (kept-Unassigned name ls)
  | inr e ↦ rw e (e, kept-Unassigned name ls)
]

kept-other :
    (name key : Text) (ls : List Text)
    → name ≢ key
    → value_in key (keep (λ line. not (assigns name line)) ls) ≡ value_in key ls
unfolding value_in
kept-other name key [] ne = refl
kept-other name key (line ∷ ls) ne = elim (Bool-cases (assigns name line)) [
  | inl e ↦
      rw (e, kept-other name key ls ne, other_name name key line ne e)
        (sym (or_else-none (value_in key ls)))
  | inr e ↦ rw (e, kept-other name key ls ne) refl
]

kept-le : (p : Text → Bool) (ls : List Text) → length (keep p ls) ≤ length ls
kept-le p [] = omega arith
kept-le p (l ∷ ls) = ground (arith, kept-le p ls)

kept-length :
    (name : Text) (ls : List Text)
    → not (length (keep (λ line. not (assigns name line)) ls) == length ls) ≡ any (assigns name) ls
kept-length name [] = refl
kept-length name (line ∷ ls) = elim (Bool-cases (assigns name line)) [
  | inl e ↦ rw e (ground (arith, kept-le (λ l. not (assigns name l)) ls))
  | inr e ↦ rw e (shorter (kept-length name ls))
]
  where
    shorter :
        not (length (keep (λ l. not (assigns name l)) ls) == length ls) ≡ any (assigns name) ls
        → not (suc (length (keep (λ l. not (assigns name l)) ls)) == suc (length ls))
          ≡ any (assigns name) ls
    shorter ih = ground (arith, ih)

unset-result :
    (raw name : Text) (u : Unset)
    → unset_env_var raw name ≡ ok u
    → (u.env_vars ≡ join (b'\n' ∷ []) (keep (λ line. not (assigns name line)) (lines raw)))
      × (u.removed ≡ any (assigns name) (lines raw))
unfolding unset_env_var
unset-result raw name u h = (ground arith, ground (arith, kept-length name (lines raw)))

kept-OneLine : (name raw : Text) → OneLine (keep (λ line. not (assigns name line)) (lines raw))
kept-OneLine name raw =
    All-keep (Lacks b'\n') (λ line. not (assigns name line)) (lines raw) (lines-OneLine raw)

-- After unsetEnvVar the variable is not set, every other variable keeps its value, and `removed` says
-- whether some line assigned the variable before.
pub lookup-unset_env_var :
    (raw name key : Text) (u : Unset)
    → IsOrdinary name
    → IsOrdinary key
    → name ≢ key
    → unset_env_var raw name ≡ ok u
    → (lookup name (parse_env_string u.env_vars) ≡ none)
      × (lookup key (parse_env_string u.env_vars) ≡ lookup key (parse_env_string raw))
      × (u.removed ≡ any (assigns name) (lines raw))
lookup-unset_env_var raw name key u o k ne h =
    let (result, removed) = unset-result raw name u h in
    let one = kept-OneLine name raw in
    (
      rw result (
          lookup-join name _ o one
          ∙ value_in_of_Unassigned name _ (kept-Unassigned name (lines raw))),
      rw result (
          lookup-join key _ k one
          ∙ kept-other name key (lines raw) ne
          ∙ sym (lookup-raw key raw k)),
      removed,
    )
