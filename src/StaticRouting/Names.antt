-- ===== src/StaticRouting/Names.antt =====
-- An accepted fragment does not move the service's file root by an unquoted name.
use sitey.Prelude.{
  ◌≡◌, refl, List, [], ◌∷◌, Bool, true, false, Bool-cases, inl, inr, arith, ok, All, all_iff,
  any-true, bind-ok, not, All-In, find, is_empty, All-map,
}
use sitey.Text.{Text, starts_with, codes, text_eq, trim}
use sitey.Text.Equal.{text_eq→eq, starts_with_sound}
use sitey.StaticRouting.Check.{
  check_line, check_caddy_fragment, check_lines, check_name, is_close, member, open_line, Block,
  allowed_directives, forbidden_subdirectives, in_directives, group_lines, refuse_brace,
  is_quoted_brace, check_braces, check_placeholders, forbidden_placeholders,
}
use sitey.StaticRouting.Lexer.{Token, Lexed, lex}

-- The line does not begin with one of `root`, `fs` and `import`, unless in quotes.
abbrev pub KeepsRoot : List Token → Type 0
KeepsRoot [] = Unit
KeepsRoot (first ∷ rest) = first.quoted ≡ false → member forbidden_subdirectives first.text ≡ false

allowed_disjoint : All (λ n. member forbidden_subdirectives n ≡ false) allowed_directives
allowed_disjoint =
    All-map _ _ allowed_directives not_true
      ((all_iff (λ n. not (member forbidden_subdirectives n)) allowed_directives).0 refl)
  where
    not_true :
        (n : Text)
        → not (member forbidden_subdirectives n) ≡ true
        → member forbidden_subdirectives n ≡ false
    not_true n h = ground arith

allowed-not_forbidden :
    (name : Text)
    → member allowed_directives name ≡ true
    → member forbidden_subdirectives name ≡ false
allowed-not_forbidden name h =
    let (a, i, t) = any-true (text_eq name) allowed_directives h in
    let e = text_eq→eq name a t in
    rw e (
      All-In (λ n. member forbidden_subdirectives n ≡ false) allowed_directives a allowed_disjoint
        i)

matcher-not_forbidden :
    (name : Text)
    → starts_with name (codes "@") ≡ true
    → member forbidden_subdirectives name ≡ false
matcher-not_forbidden name h = let (r, e) = starts_with_sound name (codes "@") h in rw e refl

check_name-KeepsRoot :
    (stack : List Block) (first : Token) (rest : List Token) (opens : Bool)
    → check_name stack first rest opens ≡ ok tt
    → KeepsRoot (first ∷ rest)
unfolding check_name
check_name-KeepsRoot stack first rest opens h plain = elim (Bool-cases (in_directives stack)) [
  | inr e ↦ elim (Bool-cases (member forbidden_subdirectives first.text)) [
    | inl k ↦ absurd (ground arith)
    | inr k ↦ k
  ]
  | inl e ↦ elim (Bool-cases (starts_with first.text (codes "@"))) [
    | inl k ↦ matcher-not_forbidden first.text k
    | inr k ↦ elim (Bool-cases (member allowed_directives first.text)) [
      | inl a ↦ allowed-not_forbidden first.text a
      | inr a ↦ absurd (ground arith)
    ]
  ]
]

closing-KeepsRoot :
    (first : Token) (rest : List Token) → is_close first ≡ true → KeepsRoot (first ∷ rest)
unfolding is_close
closing-KeepsRoot first rest h plain =
    let e = text_eq→eq first.text (codes "}") (ground arith) in rw e refl

check_line-KeepsRoot :
    (stack stack' : List Block) (l : List Token) → check_line stack l ≡ ok stack' → KeepsRoot l
unfolding check_line open_line
check_line-KeepsRoot stack stack' [] h = tt
check_line-KeepsRoot stack stack' (first ∷ rest) h =
    let (_, _, h1) = bind-ok (refuse_brace (find is_quoted_brace (first ∷ rest))) _ stack' h in
    elim (Bool-cases (is_close first)) [
      | inl c ↦ closing-KeepsRoot first rest c
      | inr c ↦
          let h2 : open_line stack first rest ≡ ok stack' = rw c at h1 in
          let (opens, _, h3) = bind-ok (check_braces first rest) _ stack' h2 in
          let (u, named, _) = bind-ok (check_name stack first rest opens) _ stack' h3 in
          check_name-KeepsRoot stack first rest opens named
    ]

check_lines-KeepsRoot :
    (stack stack' : List Block) (ls : List (List Token))
    → check_lines stack ls ≡ ok stack'
    → All KeepsRoot ls
unfolding check_lines
check_lines-KeepsRoot stack stack' [] h = tt
check_lines-KeepsRoot stack stack' (l ∷ ls) h =
    let (mid, first, h') = bind-ok (check_line stack l) _ stack' h in
    (check_line-KeepsRoot stack mid l first, check_lines-KeepsRoot mid stack' ls h')

-- No line of an accepted fragment, at its top level or in any block, begins with an unquoted `root`, `fs` or
-- `import`.
pub check_caddy_fragment-KeepsRoot :
    (input output : Text)
    → check_caddy_fragment input ≡ ok output
    → (lexed : Lexed) × (lex input ≡ ok lexed) × All KeepsRoot (group_lines [] lexed.tokens)
unfolding check_caddy_fragment
check_caddy_fragment-KeepsRoot input output h = elim (Bool-cases (is_empty (trim input))) [
  | inl e ↦ absurd (ground arith)
  | inr e ↦
      let (_, _, h1) =
        bind-ok (check_placeholders forbidden_placeholders input) _ output (rw e at h) in
      let (lexed, lexes, h2) = bind-ok (lex input) _ output h1 in
      let (stack, checks, _) = bind-ok (check_lines [] (group_lines [] lexed.tokens)) _ output h2 in
      (lexed, lexes, check_lines-KeepsRoot [] stack (group_lines [] lexed.tokens) checks)
]
