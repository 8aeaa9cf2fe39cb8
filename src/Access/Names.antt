-- ===== src/Access/Names.antt =====
-- The API key of the machine's own siteyctl, among concurrent calls.
use sitey.Prelude.{
  ℕ, ◌+◌, ◌≤◌, ◌≡◌, refl, ap, Bool, false, not, Option, none, some, List, [], ◌∷◌, ◌++◌, keep,
  keep-append, length, length-append, Bool-cases, inl, inr, arith, ok, err, find, ◌∙◌, subst, All,
}
use sitey.Text.{Text, text_eq}
use sitey.Access.{
  User, Token, Transport, is_api_token, api_token, check_api_token, insert_api_token,
  revoke_api_token, write_local_cli_token, authenticate_token, accept_token, is_token_name,
  local_cli_token_name, token_type, is_expired, bad_token_name, reserved_name,
}

-- a call of createApiToken that has passed its checks and has not inserted its key yet
pub record Creating : Type 0 where
  pub user : User
  pub name : Text

pub record World : Type 0 where
  pub tokens : List Token
  pub creating : List Creating

-- What changes the API keys. Between the checks of createApiToken and its insertion any other steps may come,
-- those of other calls of createApiToken too.
pub data TokenStep (hash_token : Text → Text) (w : World) : World → Type 0 where
  checks :
      (found : Option User) (user : User) (name : Text)
      → check_api_token found name w.tokens ≡ ok user
      → TokenStep hash_token w
          (record w { creating = record { user = user; name = name } ∷ w.creating })
  inserts :
      (before after : List Creating) (new : Creating) (id token_hash : Text)
      → w.creating ≡ before ++ new ∷ after
      → TokenStep hash_token w (record w {
        tokens = insert_api_token id new.user token_hash new.name w.tokens;
        creating = before ++ after;
      })
  revokes :
      (name : Text) → TokenStep hash_token w (record w { tokens = revoke_api_token name w.tokens })
  writes :
      (id : Text) (user : User) (token_hash : Text)
      → TokenStep hash_token w
          (record w { tokens = write_local_cli_token id user token_hash w.tokens })
  authenticates :
      (raw : Text) (transport : Transport) (now : ℕ)
      → TokenStep hash_token w
          (record w { tokens = (authenticate_token hash_token raw transport now w.tokens).1 })

pub data TokenHistory (hash_token : Text → Text) : World → Type 0 where
  start : TokenHistory hash_token (record { tokens = []; creating = [] })
  next :
      {w v : World}
      → TokenHistory hash_token w
      → TokenStep hash_token w v
      → TokenHistory hash_token v

-- At most one key is that of the machine's own siteyctl.
abbrev pub HasOneLocal : List Token → Type 0
HasOneLocal tokens = length (keep (is_api_token local_cli_token_name) tokens) ≤ 1

-- No call of createApiToken is about to insert a key of that name.
abbrev pub IsOrdinary : Creating → Type 0
IsOrdinary new = text_eq new.name local_cli_token_name ≡ false

-- Of fewer rows no more are picked.
keep-shorter :
    (p q : Token → Bool) (tokens : List Token)
    → length (keep p (keep q tokens)) ≤ length (keep p tokens)
keep-shorter p q [] = omega arith
keep-shorter p q (t ∷ tokens) =
    let rest = keep-shorter p q tokens in
    elim (Bool-cases (q t)) [
      | inl e ↦ elim (Bool-cases (p t)) [
        | inl k ↦ rw (e, k) (omega (arith, rest))
        | inr k ↦ rw (e, k) rest
      ]
      | inr e ↦ elim (Bool-cases (p t)) [
        | inl k ↦ rw (e, k) (omega (arith, rest))
        | inr k ↦ rw (e, k) rest
      ]
    ]

keep-HasOneLocal :
    (q : Token → Bool) (tokens : List Token) → HasOneLocal tokens → HasOneLocal (keep q tokens)
keep-HasOneLocal q tokens one =
    omega (arith, keep-shorter (is_api_token local_cli_token_name) q tokens, one)

-- how many keys of the name there are after a key is added
insert_count :
    (name : Text) (tokens : List Token) (new : Token)
    → length (keep (is_api_token name) (tokens ++ new ∷ []))
      ≡ length (keep (is_api_token name) tokens) + length (keep (is_api_token name) (new ∷ []))
insert_count name tokens new =
    ap length (keep-append (is_api_token name) tokens (new ∷ []))
    ∙ length-append (keep (is_api_token name) tokens) (keep (is_api_token name) (new ∷ []))

insert-HasOneLocal :
    (id : Text) (user : User) (token_hash name : Text) (tokens : List Token)
    → text_eq name local_cli_token_name ≡ false
    → HasOneLocal tokens
    → HasOneLocal (insert_api_token id user token_hash name tokens)
unfolding insert_api_token
insert-HasOneLocal id user token_hash name tokens other one =
    let new = api_token id user token_hash name in
    let zero_more : length (keep (is_api_token local_cli_token_name) (new ∷ [])) ≡ 0 =
      rw other refl in
    omega (arith, insert_count local_cli_token_name tokens new, one, zero_more)

revoke-none :
    (name : Text) (tokens : List Token)
    → length (keep (is_api_token name) (keep (λ t. not (is_api_token name t)) tokens)) ≡ 0
revoke-none name [] = refl
revoke-none name (t ∷ tokens) = elim (Bool-cases (is_api_token name t)) [
  | inl e ↦ rw e (revoke-none name tokens)
  | inr e ↦ rw (e, e) (revoke-none name tokens)
]

write-HasOneLocal :
    (id : Text) (user : User) (token_hash : Text) (tokens : List Token)
    → HasOneLocal (write_local_cli_token id user token_hash tokens)
unfolding write_local_cli_token insert_api_token revoke_api_token
write-HasOneLocal id user token_hash tokens =
    let left = keep (λ t. not (is_api_token local_cli_token_name t)) tokens in
    let new = api_token id user token_hash local_cli_token_name in
    let one_more : length (keep (is_api_token local_cli_token_name) (new ∷ [])) ≤ 1 =
      shorter_one (is_api_token local_cli_token_name) new in
    omega (
      arith,
      insert_count local_cli_token_name left new,
      revoke-none local_cli_token_name tokens,
      one_more,
    )
  where
    shorter_one : (p : Token → Bool) (t : Token) → length (keep p (t ∷ [])) ≤ 1
    shorter_one p t = elim (Bool-cases (p t)) [
      | inl e ↦ rw e (omega arith)
      | inr e ↦ rw e (omega arith)
    ]

accept-HasOneLocal :
    (transport : Transport) (now : ℕ) (tokens : List Token) (o : Option Token)
    → HasOneLocal tokens
    → HasOneLocal (accept_token transport now tokens o).1
accept-HasOneLocal transport now tokens none one = one
accept-HasOneLocal transport now tokens (some t) one =
    elim (Bool-cases (text_eq t.type (token_type transport))) [
      | inr e ↦ rw e one
      | inl e ↦ elim (Bool-cases (is_expired now t.expires_at)) [
        | inl k ↦ rw (e, k) (keep-HasOneLocal (λ (q : Token). not (text_eq q.id t.id)) tokens one)
        | inr k ↦ rw (e, k) one
      ]
    ]

check-ordinary :
    (found : Option User) (user : User) (name : Text) (tokens : List Token)
    → check_api_token found name tokens ≡ ok user
    → text_eq name local_cli_token_name ≡ false
unfolding check_api_token
check-ordinary found user name tokens h = elim (Bool-cases (is_token_name name)) [
  | inr e ↦ let h' : err bad_token_name ≡ ok user = rw e at h in absurd (ground arith)
  | inl e ↦ elim (Bool-cases (text_eq name local_cli_token_name)) [
    | inl k ↦ let h' : err reserved_name ≡ ok user = rw (e, k) at h in absurd (ground arith)
    | inr k ↦ k
  ]
]

pub record IsSound (w : World) : Type 0 where
  pub one_local : HasOneLocal w.tokens
  pub ordinary : All IsOrdinary w.creating

one_of :
    (before after : List Creating) (new : Creating)
    → All IsOrdinary (before ++ new ∷ after)
    → IsOrdinary new × All IsOrdinary (before ++ after)
one_of [] after new h = (h.0, h.1)
one_of (c ∷ before) after new h =
    let (one, rest) = one_of before after new h.1 in (one, (h.0, rest))

TokenStep-IsSound :
    (hash_token : Text → Text) (w v : World) → TokenStep hash_token w v → IsSound w → IsSound v
unfolding revoke_api_token authenticate_token
TokenStep-IsSound hash_token w v (checks found user name e) h = record {
  one_local = h.one_local;
  ordinary = (check-ordinary found user name w.tokens e, h.ordinary);
}
TokenStep-IsSound hash_token w v (inserts before after new id token_hash e) h =
    let (one, rest) = one_of before after new (subst (All IsOrdinary) e h.ordinary) in
    record {
      one_local = insert-HasOneLocal id new.user token_hash new.name w.tokens one h.one_local;
      ordinary = rest;
    }
TokenStep-IsSound hash_token w v (revokes name) h = record {
  one_local = keep-HasOneLocal _ w.tokens h.one_local;
  ordinary = h.ordinary;
}
TokenStep-IsSound hash_token w v (writes id user token_hash) h = record {
  one_local = write-HasOneLocal id user token_hash w.tokens;
  ordinary = h.ordinary;
}
TokenStep-IsSound hash_token w v (authenticates raw transport now) h = record {
  one_local =
      accept-HasOneLocal transport now w.tokens
        (find (λ (t : Token). text_eq t.token_hash (hash_token raw)) w.tokens) h.one_local;
  ordinary = h.ordinary;
}

TokenHistory-IsSound :
    {hash_token : Text → Text} {w : World} → TokenHistory hash_token w → IsSound w
TokenHistory-IsSound start = record { one_local = omega arith; ordinary = tt }
TokenHistory-IsSound (next history step) =
    TokenStep-IsSound _ _ _ step (TokenHistory-IsSound history)

-- However keys are created, revoked, written for the machine's own siteyctl, and used, from an empty table on,
-- with the checks and the insertion of each call of createApiToken apart and interleaved with all else: the
-- machine's own siteyctl has at most one key, and no call is about to insert another of its name.
pub TokenHistory-HasOneLocal :
    {hash_token : Text → Text} {w : World}
    → TokenHistory hash_token w
    → HasOneLocal w.tokens × All IsOrdinary w.creating
TokenHistory-HasOneLocal history = let h = TokenHistory-IsSound history in (h.one_local, h.ordinary)
