-- ===== src/Access.antt =====
-- server/src/services/apiTokens.ts, server/src/context.ts and the checks of server/src/trpc.ts. The table of tokens is
-- a list of its rows; the hash of a token, new random tokens and the ids of new rows are given.
pub mod Login
pub mod Names
mod Tests
use sitey.Prelude.{
  ℕ, ltb, leb, Bool, true, false, not, ◌&&◌, ◌||◌, ◌==◌, Option, none, some, List, [], ◌∷◌, ◌++◌,
  find, keep, any, all, is_empty, length, if◌then◌else◌, Result, ok, err,
}
use sitey.Text.{
  Text, codes, text_eq, starts_with, slice, trim, is_space, to_lower_case, is_lower, is_upper,
  is_digit,
}

pub record User : Type 0 where
  pub sub : Text
  pub email : Text
  pub must_change_password : Bool

-- a row of Token, with its user
pub record Token : Type 0 where
  pub id : Text
  pub user : User
  pub token_hash : Text
  pub type : Text
  pub name : Option Text
  pub expires_at : Option ℕ

pub data Transport : Type 0 where
  cookie bearer : Transport

-- TOKEN_TYPE_BY_TRANSPORT
abbrev pub token_type : Transport → Text
token_type cookie = codes "session"
token_type bearer = codes "apikey"

abbrev pub is_blank_start : Text → Bool
is_blank_start [] = false
is_blank_start (c ∷ s) = is_space c

-- the word after `Bearer`: blanks before it, blanks after it, and none within
abbrev pub bearer_word : Text → Option Text
bearer_word rest =
    let word = trim rest in
    if is_blank_start rest && not (is_empty word) && all (λ c. not (is_space c)) word
    then some word
    else none

-- readBearerToken
unfoldable pub read_bearer_token : Text → Option Text
read_bearer_token header =
    if starts_with (to_lower_case header) (codes "bearer")
    then bearer_word (slice 6 header)
    else none

-- What a request to authenticate answers, and the tokens afterwards: an expired one is removed.
abbrev pub Authentication : Type 0
Authentication = Option User × List Token

-- `token.expiresAt && token.expiresAt < now`
abbrev pub is_expired : ℕ → Option ℕ → Bool
is_expired now none = false
is_expired now (some at) = ltb at now

abbrev pub remove_token : Text → List Token → List Token
remove_token id tokens = keep (λ (t : Token). not (text_eq t.id id)) tokens

abbrev pub accept_token : Transport → ℕ → List Token → Option Token → Authentication
accept_token transport now tokens none = (none, tokens)
accept_token transport now tokens (some t) =
    if not (text_eq t.type (token_type transport))
    then (none, tokens)
    else if is_expired now t.expires_at
    then (none, remove_token t.id tokens)
    else (some t.user, tokens)

module _ (hash_token : Text → Text) where
  -- authenticateToken
  unfoldable pub authenticate_token : Text → Transport → ℕ → List Token → Authentication
  authenticate_token raw transport now tokens =
      accept_token transport now tokens
        (find (λ (t : Token). text_eq t.token_hash (hash_token raw)) tokens)

  abbrev pub authenticate_some : Option Text → Transport → ℕ → List Token → Authentication
  authenticate_some none transport now tokens = (none, tokens)
  authenticate_some (some raw) transport now tokens = authenticate_token raw transport now tokens

  -- an empty header or cookie counts as none
  abbrev pub given_text : Option Text → Option Text
  given_text (some (c ∷ s)) = some (c ∷ s)
  given_text _ = none

  abbrev pub by_headers : Option Text → Option Text → ℕ → List Token → Authentication
  by_headers (some authorization) session now tokens =
      authenticate_some (read_bearer_token authorization) bearer now tokens
  by_headers none session now tokens = authenticate_some session cookie now tokens

  -- createContext: the user of a request with these headers
  unfoldable pub create_context : Option Text → Option Text → ℕ → List Token → Authentication
  create_context authorization session now tokens =
      by_headers (given_text authorization) (given_text session) now tokens

pub data AccessError : Type 0 where
  unauthorized : AccessError
  password_change_needed : AccessError

-- protectedProcedure
abbrev pub protected_procedure : Option User → Result AccessError User
protected_procedure none = err unauthorized
protected_procedure (some user) = ok user

-- settledProcedure
abbrev pub settled_procedure : Option User → Result AccessError User
settled_procedure none = err unauthorized
settled_procedure (some user) =
    if user.must_change_password then err password_change_needed else ok user

pub data ApiTokenError : Type 0 where
  bad_token_name : ApiTokenError
  reserved_name : ApiTokenError
  no_user : ApiTokenError
  name_taken : Text → ApiTokenError

abbrev pub is_token_char : ℕ → Bool
is_token_char c = is_lower c || is_upper c || is_digit c || c == b'.' || c == b'_' || c == b'-'

-- TOKEN_NAME_REGEX
unfoldable pub is_token_name : Text → Bool
is_token_name name = not (is_empty name) && leb (length name) 64 && all is_token_char name

abbrev pub local_cli_token_name : Text
local_cli_token_name = codes "local-cli"

abbrev pub name_is : Text → Option Text → Bool
name_is name none = false
name_is name (some n) = text_eq n name

-- `where: { type: "apikey", name }`
abbrev pub is_api_token : Text → Token → Bool
is_api_token name t = text_eq t.type (codes "apikey") && name_is name t.name

-- the row of a new API key of the user with this name
abbrev pub api_token : Text → User → Text → Text → Token
api_token id user token_hash name = record {
  id = id;
  user = user;
  token_hash = token_hash;
  type = codes "apikey";
  name = some name;
  expires_at = none;
}

-- insertApiToken
unfoldable pub insert_api_token : Text → User → Text → Text → List Token → List Token
insert_api_token id user token_hash name tokens = tokens ++ api_token id user token_hash name ∷ []

-- createApiToken from the answer of findTokenUser on
abbrev pub check_existing : Option User → Text → List Token → Result ApiTokenError User
check_existing none name tokens = err no_user
check_existing (some user) name tokens =
    if any (is_api_token name) tokens then err (name_taken name) else ok user

-- createApiToken up to its call of insertApiToken, given the user that findTokenUser answers: the user whose
-- key is to be inserted. Other calls may change the table before it is: the two are not in a transaction.
unfoldable pub check_api_token : Option User → Text → List Token → Result ApiTokenError User
check_api_token user name tokens =
    if not (is_token_name name)
    then err bad_token_name
    else if text_eq name local_cli_token_name
    then err reserved_name
    else check_existing user name tokens

-- revokeApiToken
unfoldable pub revoke_api_token : Text → List Token → List Token
revoke_api_token name tokens = keep (λ t. not (is_api_token name t)) tokens

-- the transaction of writeLocalCliToken
unfoldable pub write_local_cli_token : Text → User → Text → List Token → List Token
unfolding revoke_api_token insert_api_token
write_local_cli_token id user token_hash tokens =
    insert_api_token id user token_hash local_cli_token_name
      (revoke_api_token local_cli_token_name tokens)
