-- ===== src/EnvFile/Lines.antt =====
-- The loops of setEnvVar and unsetEnvVar, and the values that their lines give.
use sitey.Prelude.{
  ◌≡◌, ◌&&◌, refl, sym, ◌∙◌, Bool, true, false, none, some, List, [], ◌∷◌, arith, Bool-cases, inl,
  inr, if◌then◌else◌, is_empty,
}
use sitey.Text.{Text, trim}
use sitey.EnvFile.{
  env_line_key, line_value, assigns, replace_loop, drop_blank_end, key_of_trimmed, place,
}
use sitey.EnvFile.Lookup.{
  value_in, Unassigned, value_in_of_Unassigned, value_in-append, assigns_of_none, or_else-none,
}

module _ (name assignment : Text) (own : assigns name assignment ≡ true) where
  -- Once the assignment is placed, no later line assigns the variable.
  replaced-Unassigned : (ls : List Text) → Unassigned name (replace_loop name assignment true ls).0
  unfolding replace_loop
  replaced-Unassigned [] = tt
  replaced-Unassigned (line ∷ ls) = elim (Bool-cases (assigns name line)) [
    | inl e ↦ rw e (replaced-Unassigned ls)
    | inr e ↦ rw e (e, replaced-Unassigned ls)
  ]

  replaced-true : (ls : List Text) → (replace_loop name assignment true ls).1 ≡ true
  unfolding replace_loop
  replaced-true [] = refl
  replaced-true (line ∷ ls) = ground (arith, replaced-true ls)

  replaced-value_in :
      (ls : List Text)
      → (replace_loop name assignment false ls).1 ≡ true
      → value_in name (replace_loop name assignment false ls).0 ≡ some (line_value assignment)
  unfolding replace_loop value_in
  replaced-value_in [] h = absurd (ground arith)
  replaced-value_in (line ∷ ls) h = elim (Bool-cases (assigns name line)) [
    | inl e ↦
        rw
          (
            e,
            value_in_of_Unassigned name (replace_loop name assignment true ls).0
                (replaced-Unassigned ls),
            own,
          )
          refl
    | inr e ↦ rw (e, replaced-value_in ls (rw e at h))
  ]

  -- The lines that assign another variable stay in place.
  replace_loop-other :
      (key : Text) (replaced : Bool) (ls : List Text)
      → ((line : Text) → assigns name line ≡ true → assigns key line ≡ false)
      → value_in key (replace_loop name assignment replaced ls).0 ≡ value_in key ls
  unfolding replace_loop value_in
  replace_loop-other key replaced [] other = refl
  replace_loop-other key true (line ∷ ls) other = elim (Bool-cases (assigns name line)) [
    | inl e ↦
        rw (e, replace_loop-other key true ls other, other line e)
          (sym (or_else-none (value_in key ls)))
    | inr e ↦ rw (e, replace_loop-other key true ls other) refl
  ]
  replace_loop-other key false (line ∷ ls) other = elim (Bool-cases (assigns name line)) [
    | inl e ↦ rw (e, replace_loop-other key true ls other, other line e, other assignment own) refl
    | inr e ↦ rw (e, replace_loop-other key false ls other) refl
  ]

blank-key : (line : Text) → is_empty (trim line) ≡ true → env_line_key line ≡ none
unfolding env_line_key key_of_trimmed
blank-key line h = rw h refl

blank-assigns : (key line : Text) → is_empty (trim line) ≡ true → assigns key line ≡ false
blank-assigns key line h = assigns_of_none key line (blank-key line h)

unless_blank :
    (key line : Text) (rest : List Text)
    → value_in key (if is_empty rest && is_empty (trim line) then [] else line ∷ rest)
      ≡ value_in key (line ∷ rest)
unless_blank key line (l ∷ rest) = refl
unless_blank key line [] = elim (Bool-cases (is_empty (trim line))) [
  | inl e ↦ rw e (unfold value_in in rw (blank-assigns key line e) refl)
  | inr e ↦ rw e refl
]

value_in-tail :
    (key line : Text) (ls ms : List Text)
    → value_in key ls ≡ value_in key ms
    → value_in key (line ∷ ls) ≡ value_in key (line ∷ ms)
unfolding value_in
value_in-tail key line ls ms e = rw e refl

-- Blank lines at the end assign nothing.
pub value_in-drop_blank_end :
    (key : Text) (ls : List Text) → value_in key (drop_blank_end ls) ≡ value_in key ls
unfolding drop_blank_end
value_in-drop_blank_end key [] = refl
value_in-drop_blank_end key (line ∷ ls) =
    unless_blank key line (drop_blank_end ls)
    ∙ value_in-tail key line (drop_blank_end ls) ls (value_in-drop_blank_end key ls)

place-value :
    (name assignment : Text) (r : List Text × Bool)
    → assigns name assignment ≡ true
    → (r.1 ≡ true → value_in name r.0 ≡ some (line_value assignment))
    → value_in name (place assignment r) ≡ some (line_value assignment)
unfolding place
place-value name assignment (out, true) own h = h refl
place-value name assignment (out, false) own h =
    value_in-append name (drop_blank_end out) (assignment ∷ []) ∙ (unfold value_in in rw own refl)

-- After setEnvVar's loop the variable has the value of the assignment.
pub value_in-place :
    (name assignment : Text) (ls : List Text)
    → assigns name assignment ≡ true
    → value_in name (place assignment (replace_loop name assignment false ls))
      ≡ some (line_value assignment)
value_in-place name assignment ls own =
    place-value name assignment (replace_loop name assignment false ls) own
      (replaced-value_in name assignment own ls)

pub value_in-place_other :
    (name assignment key : Text) (ls : List Text)
    → assigns name assignment ≡ true
    → ((line : Text) → assigns name line ≡ true → assigns key line ≡ false)
    → value_in key (place assignment (replace_loop name assignment false ls)) ≡ value_in key ls
value_in-place_other name assignment key ls own other =
    placed (replace_loop name assignment false ls)
    ∙ replace_loop-other name assignment own key false ls other
  where
    placed : (r : List Text × Bool) → value_in key (place assignment r) ≡ value_in key r.0
    placed (out, true) = unfold place in refl
    placed (out, false) =
        unfold place in
        value_in-append key (drop_blank_end out) (assignment ∷ [])
        ∙ (unfold value_in in rw (other assignment own) (value_in-drop_blank_end key out))
