-- ===== src/EnvFile/Assignment.antt =====
-- The line that setEnvVar writes, and what the reader makes of it.
use sitey.Prelude.{
  ℕ, ◌≡◌, refl, sym, ap, ◌∙◌, true, false, ◌||◌, none, some, [], ◌∷◌, ◌++◌, arith, Bool-cases, All,
  All-map, All-append, all_iff, any-false, inl, inr, if◌then◌else◌, is_empty, ◌==◌, ok, subst,
}
use sitey.Text.{Text, codes, trim, includes, is_space, starts_with, slice}
use sitey.Text.Ends.{last_is-append, LastIs-append, LastIs-of_cons, All-slice, drop_last-append}
use sitey.Text.Equal.{text_eq→eq, text_eq_self}
use sitey.Text.Split.{Lacks, before-append, from_first-append}
use sitey.Text.Trim.{Solid, HeadIs, LastIs, trim_of_IsTrimmed, trim-IsTrimmed, All-IsTrimmed}
use sitey.EnvFile.{
  is_env_name, is_name_char, is_name_start, env_line_key, key_of_trimmed, line_value, strip_export,
  starts_with_space, encode_value, needs_quotes, unquote_env_value, quoted_by, assigns,
  none_if_empty,
}
use sitey.EnvFile.Lookup.{assigns_of_some}

module _ (c : ℕ) (h : is_name_char c ≡ true) where
  name_char-Solid : is_space c ≡ false
  unfolding is_name_char is_space
  name_char-Solid = ground arith

  name_char-ne_equals : (c == b'=') ≡ false
  unfolding is_name_char
  name_char-ne_equals = ground arith

  name_char-ne_newline : (c == b'\n') ≡ false
  unfolding is_name_char
  name_char-ne_newline = ground arith

name_start-name_char : (c : ℕ) → is_name_start c ≡ true → is_name_char c ≡ true
unfolding is_name_char is_name_start
name_start-name_char c h = ground arith

pub env_name-chars : (name : Text) → is_env_name name ≡ true → All (λ c. is_name_char c ≡ true) name
unfolding is_env_name
env_name-chars [] h = tt
env_name-chars (c ∷ s) h =
    (name_start-name_char c (ground arith), (all_iff is_name_char s).0 (ground arith))

starts_with_space_of_Solid : (s : Text) → All Solid s → starts_with_space s ≡ false
starts_with_space_of_Solid [] h = refl
starts_with_space_of_Solid (c ∷ s) h = h.0

module _ (name : Text) (v : is_env_name name ≡ true) where
  env_name-Solid : All Solid name
  env_name-Solid = All-map _ _ name name_char-Solid (env_name-chars name v)

  env_name-Lacks_equals : Lacks b'=' name
  env_name-Lacks_equals = All-map _ _ name name_char-ne_equals (env_name-chars name v)

  env_name-strip_export : strip_export name ≡ name
  unfolding strip_export
  env_name-strip_export =
      rw (starts_with_space_of_Solid (slice 6 name) (All-slice Solid 6 name env_name-Solid))
        (ground arith)

  env_name-trim : trim name ≡ name
  env_name-trim = trim_of_IsTrimmed name (All-IsTrimmed name env_name-Solid)

-- An encoded value: trimmed, on one line, and read back as the value.
pub record IsEncoded (encoded value : Text) : Type 0 where
  pub last_solid : LastIs Solid encoded
  pub one_line : Lacks b'\n' encoded
  pub reads_back : unquote_env_value (trim encoded) ≡ value

includes-Lacks : (s : Text) (c : ℕ) → includes s c ≡ false → Lacks c s
includes-Lacks s c h = any-false (λ d. d == c) s h

plain-IsEncoded :
    (value : Text) → needs_quotes value ≡ false → Lacks b'\n' value → IsEncoded value value
plain-IsEncoded value h one =
    let trimmed : value ≡ trim value =
      text_eq→eq value (trim value) (unfold needs_quotes in ground arith) in
    let unquoted : unquote_env_value value ≡ value =
      text_eq→eq _ value (unfold needs_quotes in ground arith) in
    record {
      last_solid = rw trimmed at_trim;
      one_line = one;
      reads_back = ap unquote_env_value (sym trimmed) ∙ unquoted;
    }
  where
    at_trim : LastIs Solid (trim value)
    at_trim = (trim-IsTrimmed value).1

quote_text : Text → Text
quote_text value = b'\'' ∷ (value ++ b'\'' ∷ [])

quoted-last : (value : Text) → LastIs Solid (quote_text value)
unfolding quote_text is_space
quoted-last value = LastIs-append Solid (b'\'' ∷ value) b'\'' [] refl

quoted-IsTrimmed : (value : Text) → trim (quote_text value) ≡ quote_text value
quoted-IsTrimmed value =
    trim_of_IsTrimmed (quote_text value) (unfold quote_text is_space in refl, quoted-last value)

quoted_at_both : (value : Text) → quoted_by b'\'' (quote_text value) ≡ true
unfolding quote_text quoted_by
quoted_at_both value = last_is-append (λ c. c == b'\'') (b'\'' ∷ value) (b'\'' ∷ []) refl

quoted-unquote : (value : Text) → unquote_env_value (quote_text value) ≡ value
unfolding unquote_env_value
quoted-unquote value =
    let plain : quoted_by b'"' (quote_text value) ≡ false = unfold quote_text quoted_by in refl in
    rw (plain, quoted_at_both value) (unfold quote_text in drop_last-append value b'\'')

quoted-IsEncoded : (value : Text) → Lacks b'\n' value → IsEncoded (quote_text value) value
quoted-IsEncoded value one = record {
  last_solid = quoted-last value;
  one_line = unfold quote_text in (refl, All-append _ value (b'\'' ∷ []) one (refl, tt));
  reads_back = ap unquote_env_value (quoted-IsTrimmed value) ∙ quoted-unquote value;
}

pub encode_value-IsEncoded :
    (value encoded : Text) → encode_value value ≡ ok encoded → IsEncoded encoded value
unfolding encode_value
encode_value-IsEncoded value encoded h = elim (Bool-cases (includes value b'\n')) [
  | inl e ↦ absurd (ground arith)
  | inr e ↦ elim (Bool-cases (needs_quotes value)) [
    | inl q ↦
        let same : quote_text value ≡ encoded = unfold quote_text in ground arith in
        subst (λ t. IsEncoded t value) same (quoted-IsEncoded value (includes-Lacks value b'\n' e))
    | inr q ↦
        let same : value ≡ encoded = ground arith in
        subst (λ t. IsEncoded t value) same (plain-IsEncoded value q (includes-Lacks value b'\n' e))
  ]
]

abbrev pub assignment_of : Text → Text → Text
assignment_of name encoded = name ++ b'=' ∷ encoded

includes-middle : (w s : Text) (c : ℕ) → includes (w ++ c ∷ s) c ≡ true
includes-middle [] s c = ground arith
includes-middle (d ∷ w) s c = ground (arith, includes-middle w s c)

module _ (name encoded value : Text) (v : is_env_name name ≡ true)
    (w : IsEncoded encoded value) where
  assignment-trim : trim (assignment_of name encoded) ≡ assignment_of name encoded
  assignment-trim = trim_of_IsTrimmed (assignment_of name encoded) (
    head name v,
    LastIs-append Solid name b'=' encoded
        (LastIs-of_cons Solid b'=' encoded (unfold is_space in refl) w.last_solid),
  )
    where
      head : (n : Text) → is_env_name n ≡ true → HeadIs Solid (assignment_of n encoded)
      head [] e = absurd (unfold is_env_name in ground arith)
      head (c ∷ s) e = (env_name-Solid (c ∷ s) e).0

  assignment-key : env_line_key (assignment_of name encoded) ≡ some name
  unfolding env_line_key key_of_trimmed
  assignment-key =
      rw
        (
          assignment-trim,
          includes-middle name encoded b'=',
          before-append b'=' name encoded (env_name-Lacks_equals name v),
          env_name-strip_export name v,
          env_name-trim name v,
        )
        (at_head name v)
    where
      at_head :
          (n : Text)
          → is_env_name n ≡ true
          → (if is_empty (assignment_of n encoded)
                || starts_with (assignment_of n encoded) (codes "#")
              then none
              else none_if_empty n)
            ≡ some n
      at_head [] e = absurd (unfold is_env_name in ground arith)
      at_head (c ∷ s) e = unfold is_env_name is_name_start in ground arith

  pub assignment-assigns : assigns name (assignment_of name encoded) ≡ true
  assignment-assigns =
      assigns_of_some name (assignment_of name encoded) name assignment-key ∙ text_eq_self name

  pub assignment-value : line_value (assignment_of name encoded) ≡ value
  unfolding line_value
  assignment-value =
      rw (assignment-trim, from_first-append b'=' name encoded (env_name-Lacks_equals name v))
        w.reads_back

  pub assignment-one_line : Lacks b'\n' (assignment_of name encoded)
  assignment-one_line =
      All-append _ name (b'=' ∷ encoded)
        (All-map _ _ name name_char-ne_newline (env_name-chars name v)) (refl, w.one_line)
