-- ===== src/Args/Required.antt =====
-- What an invocation that is run has got.
use sitey.Prelude.{
  ℕ, suc, ◌≤◌, ◌≡◌, refl, ◌∙◌, Bool, true, false, not, ◌&&◌, ◌||◌, Option, none, some, List, [],
  ◌∷◌, In, find-In, All, All-In, all, all_iff, length, ltb, Bool-cases, Option-cases, inl, inr,
  arith, ok, err, Result, find, ◌==◌, ◌++◌, subst, ◌≢◌, any,
}
use sitey.Text.{Text, text_eq, codes}
use sitey.Args.{
  Run, run, parse_invocation, argument_name, bind_args, command_named, find_from, invoke,
  is_optional, Parsed, consuming, required_args, token_at, run_command, find_command, FoundCommand,
  is_truthy, run_of, help_on, run_found, value_of, invoke_parsed, word_indexes, missing_or_unknown,
}
use sitey.Args.Spec.{CommandSpec, commands, Options}

abbrev optional_last : List Text → Bool
optional_last [] = true
optional_last (a ∷ args) = (not (is_optional a) || all is_optional args) && optional_last args

-- Every argument has its name, and every one that is not optional has a value.
abbrev pub BindsRequired : List Text → List (Text × Option Text) → Type 0
BindsRequired [] [] = Unit
BindsRequired [] (v ∷ vs) = ⊥
BindsRequired (a ∷ args) [] = ⊥
BindsRequired (a ∷ args) ((name, value) ∷ vs) =
    (name ≡ argument_name a)
    × (is_optional a ≡ false → (p : Text) × (value ≡ some p))
    × BindsRequired args vs

required-none : (args : List Text) → all is_optional args ≡ true → length (required_args args) ≡ 0
required-none [] h = refl
required-none (a ∷ args) h =
    let e : is_optional a ≡ true = ground arith in rw e (required-none args (ground arith))

required-cons :
    (a : Text) (args : List Text)
    → is_optional a ≡ false
    → length (required_args (a ∷ args)) ≡ suc (length (required_args args))
required-cons a args e = rw e refl

required-skip :
    (a : Text) (args : List Text)
    → is_optional a ≡ true
    → length (required_args (a ∷ args)) ≡ length (required_args args)
required-skip a args e = rw e refl

bind_args-BindsRequired :
    (args positionals : List Text)
    → optional_last args ≡ true
    → length (required_args args) ≤ length positionals
    → BindsRequired args (bind_args args positionals)
unfolding bind_args
bind_args-BindsRequired [] positionals l h = tt
bind_args-BindsRequired (a ∷ args) [] l h = elim (Bool-cases (is_optional a)) [
  | inr e ↦ absurd (omega (arith, required-cons a args e))
  | inl e ↦ (
    refl,
    (λ k. absurd (ground arith)),
    bind_args-BindsRequired args [] (ground arith) (omega (arith, required-skip a args e)),
  )
]
bind_args-BindsRequired (a ∷ args) (p ∷ positionals) l h = (
  refl,
  (λ k. (p, refl)),
  bind_args-BindsRequired args positionals (ground arith) (elim (Bool-cases (is_optional a)) [
    | inr e ↦ omega (arith, required-cons a args e)
    | inl e ↦ omega (arith, required-none args (ground arith))
  ]),
)

commands-optional_last : All (λ (c : CommandSpec). optional_last c.args ≡ true) commands
unfolding commands
commands-optional_last = (all_iff (λ (c : CommandSpec). optional_last c.args) commands).0 refl

consuming-In :
    (consumed : List ℕ) (name : Text) (c : CommandSpec) (is : List ℕ)
    → consuming consumed (command_named name) ≡ some (c, is)
    → In c commands
unfolding command_named
consuming-In consumed name c is h =
    by_found (find (λ (c : CommandSpec). text_eq c.name name) commands) refl h
  where
    by_found :
        (f : Option CommandSpec)
        → find (λ (c : CommandSpec). text_eq c.name name) commands ≡ f
        → consuming consumed f ≡ some (c, is)
        → In c commands
    by_found none e k = absurd (ground arith)
    by_found (some d) e k =
        let same : d ≡ c = ground arith in
        subst (λ x. In x commands) same
          (find-In (λ (c : CommandSpec). text_eq c.name name) commands d e)

find_from-In :
    (argv : List Text) (words : List ℕ) (c : CommandSpec) (is : List ℕ)
    → find_from argv words ≡ some (c, is)
    → In c commands
unfolding find_from
find_from-In argv [] c is h = absurd (ground arith)
find_from-In argv (i ∷ []) c is h = consuming-In (i ∷ []) (token_at argv i) c is h
find_from-In argv (i ∷ j ∷ words) c is h =
    let first = token_at argv i in
    elim (Bool-cases (j == suc i)) [
      | inr e ↦ consuming-In (i ∷ []) first c is (rw e at h)
      | inl e ↦
          elim (Option-cases
            (consuming (i ∷ j ∷ []) (command_named (first ++ b' ' ∷ token_at argv j)))) [
              | inl k ↦ consuming-In (i ∷ []) first c is (rw (e, k) at h)
              | inr (f, k) ↦ consuming-In (i ∷ j ∷ []) (first ++ b' ' ∷ token_at argv j) c is (
                  let h' : ◌≡◌ {A = Option FoundCommand} (some f) (some (c, is)) = rw (e, k) at h in
                  k ∙ h')
            ]
    ]

run_of-BindsRequired :
    (command : CommandSpec) (parsed : Parsed)
    → In command commands
    → length (required_args command.args) ≤ length parsed.positionals
    → In (run_of command parsed).command commands
      × BindsRequired (run_of command parsed).command.args (run_of command parsed).args
unfolding run_of
run_of-BindsRequired command parsed i enough = (
  i,
  bind_args-BindsRequired command.args parsed.positionals
      (All-In (λ (c : CommandSpec). optional_last c.args ≡ true) commands command
        commands-optional_last i)
      enough,
)

invoke-run :
    (command : CommandSpec) (parsed : Parsed) (r : Run)
    → In command commands
    → invoke command parsed ≡ ok (run r)
    → In r.command commands × BindsRequired r.command.args r.args
unfolding invoke
invoke-run command parsed r i h =
    elim (Bool-cases (is_truthy (value_of parsed.values (codes "help")))) [
      | inl e ↦ absurd (ground arith)
      | inr e ↦
          elim (Bool-cases
            (ltb (length parsed.positionals) (length (required_args command.args)))) [
              | inl k ↦ absurd (ground arith)
              | inr k ↦ elim (Bool-cases (ltb (length command.args) (length parsed.positionals))) [
                | inl m ↦ absurd (ground arith)
                | inr m ↦
                    let same : run_of command parsed ≡ r = ground arith in
                    subst (λ (q : Run). In q.command commands × BindsRequired q.command.args q.args)
                      same (run_of-BindsRequired command parsed i (ground arith))
              ]
            ]
    ]

missing-not_run :
    (parse_args : Options → List Text → Result Text Parsed) (argv : List Text) (words : List ℕ)
    (r : Run)
    → missing_or_unknown parse_args argv words ≢ ok (run r)
missing-not_run parse_args argv [] r h =
    elim (Bool-cases (any (λ t. text_eq t (codes "--help") || text_eq t (codes "-h")) argv)) [
      | inl e ↦ absurd (ground arith)
      | inr e ↦ absurd (ground arith)
    ]
missing-not_run parse_args argv (i ∷ words) r h = ground arith

help_on-not_run :
    (parse_args : Options → List Text → Result Text Parsed) (rest : List Text)
    (found : Option FoundCommand) (r : Run)
    → help_on parse_args rest found ≢ ok (run r)
help_on-not_run parse_args [] found r h = ground arith
help_on-not_run parse_args (t ∷ rest) none r h = ground arith
help_on-not_run parse_args (t ∷ rest) (some (c, is)) r h = ground arith

module _ (parse_args : Options → List Text → Result Text Parsed) where
  -- An invocation that is run is of a command of the table, whose every argument that is not optional has a
  -- value, whatever the platform's parser makes of the options.
  pub parse_invocation-BindsRequired :
      (argv : List Text) (r : Run)
      → parse_invocation parse_args argv ≡ ok (run r)
      → In r.command commands × BindsRequired r.command.args r.args
  unfolding parse_invocation run_command find_command
  parse_invocation-BindsRequired [] r h = absurd (ground arith)
  parse_invocation-BindsRequired (t ∷ rest) r h = elim (Bool-cases (text_eq t (codes "help"))) [
    | inl e ↦ absurd (help_on-not_run parse_args rest _ r (rw e at h))
    | inr e ↦ by_found (find_command (t ∷ rest)) refl (rw e at h)
  ]
    where
      by_found :
          (found : Option FoundCommand)
          → find_command (t ∷ rest) ≡ found
          → run_found parse_args (t ∷ rest) found ≡ ok (run r)
          → In r.command commands × BindsRequired r.command.args r.args
      by_found none f k =
          absurd (missing-not_run parse_args (t ∷ rest) (word_indexes (t ∷ rest)) r k)
      by_found (some (command, is)) f k = by_parsed (parse_args _ _) k
        where
          by_parsed :
              (parsed : Result Text Parsed)
              → invoke_parsed parse_args command parsed ≡ ok (run r)
              → In r.command commands × BindsRequired r.command.args r.args
          by_parsed (err message) j = absurd (ground arith)
          by_parsed (ok parsed) j =
              invoke-run command parsed r
                (find_from-In (t ∷ rest) (word_indexes (t ∷ rest)) command is f) j
