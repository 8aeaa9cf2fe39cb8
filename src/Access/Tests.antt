-- ===== src/Access/Tests.antt =====
-- A request with a key and one with a session, and a key that is written twice.
use sitey.Prelude.{refl, ◌≡◌, ok, none, some, [], ◌∷◌, List, false, length, keep, All}
use sitey.Text.{Text, codes, lower, is_space, trim, is_lower, is_upper, is_digit}
use sitey.Access.{
  User, Token, create_context, settled_procedure, api_token, check_api_token, insert_api_token,
  is_api_token, write_local_cli_token, authenticate_token, read_bearer_token, is_token_name,
  revoke_api_token,
}
use sitey.Access.Login.{LoggedIn, settled_procedure-LoggedIn}
use sitey.Access.Names.{
  Creating, TokenHistory, start, next, checks, inserts, writes, HasOneLocal, IsOrdinary,
  TokenHistory-HasOneLocal,
}

runs : Unit {0}
unfolding create_context authenticate_token read_bearer_token check_api_token insert_api_token
    is_token_name write_local_cli_token revoke_api_token lower is_space trim is_lower is_upper
    is_digit
runs = tt

-- stands for the hash
abbrev marked : Text → Text
marked t = b'#' ∷ t

abbrev ann : User
ann = record { sub = codes "u1"; email = codes "ann@example.com"; must_change_password = false }

abbrev session : Token
session = record {
  id = codes "t1";
  user = ann;
  token_hash = codes "#s";
  type = codes "session";
  name = none;
  expires_at = some 100;
}

abbrev tokens : List Token
tokens = session ∷ api_token (codes "t2") ann (codes "#k") (codes "ci") ∷ []

key_accepted :
    settled_procedure (create_context marked (some (codes "bearer  k ")) none 5 tokens).0 ≡ ok ann
unfolding runs
key_accepted = refl

-- a session is no key, and the cookie beside it is not looked at
session_refused :
    (create_context marked (some (codes "Bearer s")) (some (codes "s")) 5 tokens).0 ≡ none
unfolding runs
session_refused = refl

expired_removed :
    create_context marked none (some (codes "s")) 101 tokens
    ≡ (none, api_token (codes "t2") ann (codes "#k") (codes "ci") ∷ [])
unfolding runs
expired_removed = refl

settled_procedure-LoggedIn_example :
    LoggedIn marked (some (codes "bearer  k ")) none 5 tokens ann
    × (ann.must_change_password ≡ false)
settled_procedure-LoggedIn_example =
    settled_procedure-LoggedIn marked (some (codes "bearer  k ")) none 5 tokens ann key_accepted

abbrev written : List Token
written =
    write_local_cli_token (codes "t2") ann (codes "#b")
      (write_local_cli_token (codes "t1") ann (codes "#a") [])

-- a call that creates a key, past its checks
abbrev creating_ci : Creating
creating_ci = record { user = ann; name = codes "ci" }

checked : check_api_token (some ann) (codes "ci") written ≡ ok ann
unfolding runs
checked = refl

-- Two calls with one name, each checked before the other has inserted its key: both keys are inserted.
abbrev raced : List Token
raced =
    insert_api_token (codes "t4") ann (codes "#d") (codes "ci")
      (insert_api_token (codes "t3") ann (codes "#c") (codes "ci") written)

history : TokenHistory marked (record { tokens = raced; creating = [] })
history =
    next
      (next
        (next
          (next
            (next (next start (writes (codes "t1") ann (codes "#a")))
              (writes (codes "t2") ann (codes "#b")))
            (checks (some ann) ann (codes "ci") checked))
          (checks (some ann) ann (codes "ci") checked))
        (inserts [] (creating_ci ∷ []) creating_ci (codes "t3") (codes "#c") refl))
      (inserts [] [] creating_ci (codes "t4") (codes "#d") refl)

two_of_one_name : length (keep (is_api_token (codes "ci")) raced) ≡ 2
unfolding runs
two_of_one_name = refl

TokenHistory-HasOneLocal_example : HasOneLocal raced × All IsOrdinary []
TokenHistory-HasOneLocal_example = TokenHistory-HasOneLocal history
