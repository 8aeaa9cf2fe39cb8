-- ===== src/StaticRouting/Depth.antt =====
-- An accepted fragment stays inside the block it is placed in.
use sitey.Prelude.{
  ℕ, suc, ◌≡◌, refl, Option, none, some, List, [], ◌∷◌, ◌++◌, Bool, true, false, Bool-cases, inl,
  inr, arith, ok, any, if◌then◌else◌, length, sym, ◌+◌, ap, append-nil, bind-ok, keep, ◌∙◌, find,
  append_assoc, is_empty,
}
use sitey.Text.{Text, codes, trim}
use sitey.Text.Equal.{text_eq→eq}
use sitey.StaticRouting.Check.{
  check_line, Block, add_token, check_braces, check_caddy_fragment, check_lines, close_block,
  group_lines, is_close, open_line, push_block, continues, is_open, check_name, refuse_brace,
  is_quoted_brace, has_template, refuse_open, check_placeholders, forbidden_placeholders,
}
use sitey.StaticRouting.Lexer.{Token, Lexed, lex}

abbrev pub outer : ℕ → Option ℕ
outer ℕ.zero = none
outer (suc n) = some n

-- The number of open blocks after a token, `none` when it closes the block that was there before.
abbrev pub brace_step : ℕ → Token → Option ℕ
brace_step n t = if is_open t then some (suc n) else if is_close t then outer n else some n

abbrev pub depth_from : Option ℕ → List Token → Option ℕ
depth_from none ts = none
depth_from (some n) [] = some n
depth_from (some n) (t ∷ ts) = depth_from (brace_step n t) ts

depth_from-append :
    (n : Option ℕ) (xs ys : List Token) → depth_from n (xs ++ ys) ≡ depth_from (depth_from n xs) ys
depth_from-append none [] [] = refl
depth_from-append none [] (y ∷ ys) = refl
depth_from-append none (x ∷ xs) [] = refl
depth_from-append none (x ∷ xs) (y ∷ ys) = refl
depth_from-append (some n) [] ys = refl
depth_from-append (some n) (x ∷ xs) ys = depth_from-append (brace_step n x) xs ys

is_close-not_open : (t : Token) → is_close t ≡ true → is_open t ≡ false
unfolding is_close is_open
is_close-not_open t h =
    let e = text_eq→eq t.text (codes "}") (ground arith) in
    let plain : t.quoted ≡ false = ground arith in rw (e, plain) refl

brace_step-open : (n : ℕ) (t : Token) → is_open t ≡ true → brace_step n t ≡ some (suc n)
brace_step-open n t e = rw e refl

brace_step-close :
    (n : ℕ) (t : Token) → is_open t ≡ false → is_close t ≡ true → brace_step n t ≡ outer n
brace_step-close n t e k = rw (e, k) refl

brace_step-plain :
    (n : ℕ) (t : Token) → is_open t ≡ false → is_close t ≡ false → brace_step n t ≡ some n
brace_step-plain n t e k = rw (e, k) refl

abbrev opens_of : List Token → ℕ
opens_of l = length (keep is_open l)

opens_of-cons :
    (t : Token) (l : List Token) → is_open t ≡ true → opens_of (t ∷ l) ≡ suc (opens_of l)
opens_of-cons t l e = rw e refl

opens_of-plain : (t : Token) (l : List Token) → is_open t ≡ false → opens_of (t ∷ l) ≡ opens_of l
opens_of-plain t l e = rw e refl

depth_from-opens :
    (n : ℕ) (l : List Token)
    → any is_close l ≡ false
    → depth_from (some n) l ≡ some (n + opens_of l)
depth_from-opens n [] h = ap some (omega arith)
depth_from-opens n (t ∷ l) h = elim (Bool-cases (is_open t)) [
  | inl e ↦
      ap (λ s. depth_from s l) (brace_step-open n t e)
      ∙ depth_from-opens (suc n) l (ground arith)
      ∙ ap some (omega (arith, opens_of-cons t l e))
  | inr e ↦
      ap (λ s. depth_from s l) (brace_step-plain n t e (ground arith))
      ∙ depth_from-opens n l (ground arith)
      ∙ ap some (omega (arith, opens_of-plain t l e))
]

abbrev one_if : Bool → ℕ
one_if true = 1
one_if false = 0

check_braces-ok :
    (first : Token) (rest : List Token) (opens : Bool)
    → check_braces first rest ≡ ok opens
    → (any is_close (first ∷ rest) ≡ false) × (opens_of (first ∷ rest) ≡ one_if opens)
unfolding check_braces
check_braces-ok first rest opens h = elim (Bool-cases (any is_close (first ∷ rest))) [
  | inl e ↦ absurd (ground arith)
  | inr e ↦ (e, ground arith)
]

push_block-length :
    (stack : List Block) (first : Token) (opens : Bool)
    → length (push_block stack first opens) ≡ length stack + one_if opens
unfolding push_block
push_block-length stack first true = omega arith
push_block-length stack first false = omega arith

open_line-depth :
    (stack stack' : List Block) (first : Token) (rest : List Token)
    → open_line stack first rest ≡ ok stack'
    → depth_from (some (length stack)) (first ∷ rest) ≡ some (length stack')
unfolding open_line
open_line-depth stack stack' first rest h =
    let (opens, braces, h') = bind-ok (check_braces first rest) _ stack' h in
    let (_, _, h'') = bind-ok (check_name stack first rest opens) _ stack' h' in
    let (none_close, count) = check_braces-ok first rest opens braces in
    let same : push_block stack first opens ≡ stack' =
      elim (Bool-cases (has_template stack first rest)) [
        | inl e ↦ absurd (ground arith)
        | inr e ↦ ground arith
      ] in
    depth_from-opens (length stack) (first ∷ rest) none_close
    ∙ ap some (rw (count, ← same) (sym (push_block-length stack first opens)))

close_block-depth :
    (stack stack' : List Block) (first : Token) (rest : List Token)
    → is_close first ≡ true
    → close_block stack first rest ≡ ok stack'
    → depth_from (some (length stack)) (first ∷ rest) ≡ some (length stack')
unfolding close_block
close_block-depth stack stack' first (t ∷ rest) c h = absurd (ground arith)
close_block-depth [] stack' first [] c h = absurd (ground arith)
close_block-depth (b ∷ stack) stack' first [] c h =
    let same : stack ≡ stack' = ground arith in
    ap (λ n. depth_from n [])
      (brace_step-close (length (b ∷ stack)) first (is_close-not_open first c) c)
    ∙ ap (λ k. some (length k)) same

check_line-depth :
    (stack stack' : List Block) (l : List Token)
    → check_line stack l ≡ ok stack'
    → depth_from (some (length stack)) l ≡ some (length stack')
unfolding check_line
check_line-depth stack stack' [] h =
    let same : stack ≡ stack' = ground arith in ap (λ s. some (length s)) same
check_line-depth stack stack' (first ∷ rest) h =
    let (_, _, h') = bind-ok (refuse_brace (find is_quoted_brace (first ∷ rest))) _ stack' h in
    elim (Bool-cases (is_close first)) [
      | inl c ↦ close_block-depth stack stack' first rest c (rw c at h')
      | inr c ↦ open_line-depth stack stack' first rest (rw c at h')
    ]

abbrev pub concat : List (List Token) → List Token
concat [] = []
concat (l ∷ ls) = l ++ concat ls

check_lines-depth :
    (stack stack' : List Block) (ls : List (List Token))
    → check_lines stack ls ≡ ok stack'
    → depth_from (some (length stack)) (concat ls) ≡ some (length stack')
unfolding check_lines
check_lines-depth stack stack' [] h =
    let same : stack ≡ stack' = ground arith in ap (λ s. some (length s)) same
check_lines-depth stack stack' (l ∷ ls) h =
    let (mid, first, h') = bind-ok (check_line stack l) _ stack' h in
    depth_from-append (some (length stack)) l (concat ls)
    ∙ ap (λ n. depth_from n (concat ls)) (check_line-depth stack mid l first)
    ∙ check_lines-depth mid stack' ls h'

add_token-concat :
    (ls : List (List Token)) (t : Token) → concat (add_token ls t) ≡ concat ls ++ t ∷ []
unfolding add_token
add_token-concat [] t = refl
add_token-concat (l ∷ []) t = elim (Bool-cases (continues l t)) [
  | inl e ↦ rw e (append-nil (l ++ t ∷ []) ∙ ap (λ k. k ++ t ∷ []) (sym (append-nil l)))
  | inr e ↦ rw e (ap (λ k. k ++ t ∷ []) (sym (append-nil l)))
]
add_token-concat (l ∷ m ∷ ls) t =
    ap (λ k. l ++ k) (add_token-concat (m ∷ ls) t) ∙ sym (append_assoc l (concat (m ∷ ls)) (t ∷ []))

-- Grouping the tokens into lines loses none and keeps their order.
pub concat-group_lines :
    (ls : List (List Token)) (ts : List Token) → concat (group_lines ls ts) ≡ concat ls ++ ts
unfolding group_lines
concat-group_lines ls [] = sym (append-nil (concat ls))
concat-group_lines ls (t ∷ ts) =
    concat-group_lines (add_token ls t) ts
    ∙ ap (λ k. k ++ ts) (add_token-concat ls t)
    ∙ append_assoc (concat ls) (t ∷ []) ts

refuse_open-ok :
    (stack : List Block) (input output : Text)
    → refuse_open stack input ≡ ok output
    → (stack ≡ []) × (output ≡ input)
refuse_open-ok [] input output h = (refl, ground arith)
refuse_open-ok (b ∷ stack) input output h = absurd (ground arith)

-- The tokens of an accepted fragment never close a block that the fragment has not opened, and at its end
-- every block is closed, braces in quotes aside: the fragment cannot leave the handle block it is placed in.
-- The fragment is answered unchanged.
pub check_caddy_fragment-depth :
    (input output : Text)
    → check_caddy_fragment input ≡ ok output
    → (output ≡ input)
      × (lexed : Lexed) × (lex input ≡ ok lexed)
      × (depth_from (some 0) lexed.tokens ≡ some 0)
unfolding check_caddy_fragment
check_caddy_fragment-depth input output h = elim (Bool-cases (is_empty (trim input))) [
  | inl e ↦ absurd (ground arith)
  | inr e ↦
      let (_, _, h1) =
        bind-ok (check_placeholders forbidden_placeholders input) _ output (rw e at h) in
      let (lexed, lexes, h2) = bind-ok (lex input) _ output h1 in
      let (stack, checks, h3) =
        bind-ok (check_lines [] (group_lines [] lexed.tokens)) _ output h2 in
      let (closed, same) = refuse_open-ok stack input output h3 in
      (
        same,
        lexed,
        lexes,
        ap (depth_from (some 0)) (sym (concat-group_lines [] lexed.tokens))
            ∙ check_lines-depth [] stack (group_lines [] lexed.tokens) checks
            ∙ ap (λ k. some (length k)) closed,
      )
]
