-- ===== src/Access/Login.antt =====
-- Who a request is taken for.
use sitey.Prelude.{
  ℕ, ◌≡◌, refl, ap, subst, false, Option, none, some, List, find, In, find-In, find-some,
  Option-cases, Bool-cases, inl, inr, arith, ok,
}
use sitey.Text.{Text, text_eq}
use sitey.Text.Equal.{text_eq→eq}
use sitey.Access.{
  User, Token, Transport, cookie, bearer, token_type, read_bearer_token, is_expired, accept_token,
  authenticate_token, create_context, settled_procedure, by_headers, given_text,
}

-- A token of the table stands for the user: it has the hash of the text that was sent, the type of its transport, and
-- it has not expired.
pub record Authenticates (hash_token : Text → Text) (raw : Text) (transport : Transport) (now : ℕ)
    (tokens : List Token) (user : User) : Type 0 where
  pub token : Token
  pub stored : In token tokens
  pub hashed : token.token_hash ≡ hash_token raw
  pub typed : token.type ≡ token_type transport
  pub current : is_expired now token.expires_at ≡ false
  pub of_user : token.user ≡ user

module _ (hash_token : Text → Text) where
  authenticate_token-Authenticates :
      (raw : Text) (transport : Transport) (now : ℕ) (tokens : List Token) (user : User)
      → (authenticate_token hash_token raw transport now tokens).0 ≡ some user
      → Authenticates hash_token raw transport now tokens user
  unfolding authenticate_token
  authenticate_token-Authenticates raw transport now tokens user h =
      found (find (λ (t : Token). text_eq t.token_hash (hash_token raw)) tokens) refl h
    where
      found :
          (o : Option Token)
          → find (λ (t : Token). text_eq t.token_hash (hash_token raw)) tokens ≡ o
          → (accept_token transport now tokens o).0 ≡ some user
          → Authenticates hash_token raw transport now tokens user
      found none e h = absurd (ground arith)
      found (some t) e h = elim (Bool-cases (text_eq t.type (token_type transport))) [
        | inr k ↦ let h' : none ≡ some user = rw k at h in absurd (ground arith)
        | inl k ↦ elim (Bool-cases (is_expired now t.expires_at)) [
          | inl x ↦ let h' : none ≡ some user = rw (k, x) at h in absurd (ground arith)
          | inr x ↦
              let h' : some t.user ≡ some user = rw (k, x) at h in
              record {
                token = t;
                stored = find-In (λ (q : Token). text_eq q.token_hash (hash_token raw)) tokens t e;
                hashed =
                    text_eq→eq t.token_hash (hash_token raw)
                      (find-some (λ (q : Token). text_eq q.token_hash (hash_token raw)) tokens t e);
                typed = text_eq→eq t.type (token_type transport) k;
                current = x;
                of_user = ground arith;
              }
        ]
      ]

  -- Why a request is taken for a user: by the token of its authorization header, or, only if it has none, by that
  -- of its session cookie.
  pub data LoggedIn (authorization session : Option Text) (now : ℕ) (tokens : List Token)
      (user : User) : Type 0 where
    by_bearer :
        (header raw : Text)
        → given_text hash_token authorization ≡ some header
        → read_bearer_token header ≡ some raw
        → Authenticates hash_token raw bearer now tokens user
        → LoggedIn authorization session now tokens user
    by_cookie :
        (raw : Text)
        → given_text hash_token authorization ≡ none
        → given_text hash_token session ≡ some raw
        → Authenticates hash_token raw cookie now tokens user
        → LoggedIn authorization session now tokens user

  create_context-LoggedIn :
      (authorization session : Option Text) (now : ℕ) (tokens : List Token) (user : User)
      → (create_context hash_token authorization session now tokens).0 ≡ some user
      → LoggedIn authorization session now tokens user
  unfolding create_context
  create_context-LoggedIn authorization session now tokens user h =
      by_case (given_text hash_token authorization) refl (given_text hash_token session) refl h
    where
      by_case :
          (a : Option Text)
          → given_text hash_token authorization ≡ a
          → (s : Option Text) → given_text hash_token session ≡ s
          → (by_headers hash_token a s now tokens).0 ≡ some user
          → LoggedIn authorization session now tokens user
      by_case none e none k h = absurd (ground arith)
      by_case none e (some raw) k h =
          by_cookie raw e k (authenticate_token-Authenticates raw cookie now tokens user h)
      by_case (some header) e s k h = elim (Option-cases (read_bearer_token header)) [
        | inl r ↦ let h' : none ≡ some user = rw r at h in absurd (ground arith)
        | inr (raw, r) ↦
            let h' : (authenticate_token hash_token raw bearer now tokens).0 ≡ some user =
              rw r at h in
            by_bearer header raw e r
              (authenticate_token-Authenticates raw bearer now tokens user h')
      ]

  settled-user :
      (o : Option User) (user : User)
      → settled_procedure o ≡ ok user
      → (o ≡ some user) × (user.must_change_password ≡ false)
  settled-user none user h = absurd (ground arith)
  settled-user (some u) user h = elim (Bool-cases u.must_change_password) [
    | inl e ↦ absurd (ground arith)
    | inr e ↦
        let same : u ≡ user = ground arith in
        (ap some same, subst (λ v. v.must_change_password ≡ false) same e)
  ]

  -- A procedure for settled users runs only for a user who need not change the password and who is known by the
  -- API key of the authorization header, or, if the request has no such header, by the session of its cookie:
  -- a session is never taken as a bearer token nor a key as a cookie, an expired token is never taken, and a
  -- header without a valid key never falls back to the cookie.
  pub settled_procedure-LoggedIn :
      (authorization session : Option Text) (now : ℕ) (tokens : List Token) (user : User)
      → settled_procedure (create_context hash_token authorization session now tokens).0 ≡ ok user
      → LoggedIn authorization session now tokens user × (user.must_change_password ≡ false)
  settled_procedure-LoggedIn authorization session now tokens user h =
      let (known, settled) = settled-user _ user h in
      (create_context-LoggedIn authorization session now tokens user known, settled)
