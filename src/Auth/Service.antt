-- ===== src/Auth/Service.antt =====
-- backend/app/auth/service.py, and the guard of the routes in backend/app/auth/dependencies.py. Parameters,
-- since they are libraries: `hash_password` (argon2, with its salt), `verify_password`, `hash_token`
-- (SHA-256) and `netloc` of a URL. A new token is an argument of the operation that draws it. A time is a
-- number of microseconds.
pub mod Guard
pub mod Sessions
use fetcharr.Base.{
  ℕ, ◌+◌, ◌*◌, leb, String, Bool, false, not, ◌&&◌, Option, none, some, List, [], ◌∷◌, ◌++◌, keep,
  map, str_eq, Text, text_eq, if◌then◌else◌,
}
use fetcharr.Library.Naming.{is_space}
use fetcharr.Auth.Limiter.{Attempts, hit}

pub record Account : Type 0 where
  pub username : Text
  pub password_hash : String
  pub api_key_hash : Option String
  pub last_login_at : Option ℕ

pub record AuthSession : Type 0 where
  pub id : String
  pub created_at : ℕ
  pub expires_at : ℕ
  pub ip : Option String
  pub user_agent : Option String

-- The tables, and the limiter's memory.
pub record AuthState : Type 0 where
  pub account : Option Account
  pub sessions : List AuthSession
  pub limiter : Attempts

pub data AuthError : Type 0 where
  setup_already_complete invalid_credentials wrong_password : AuthError
  rate_limited : ℕ → AuthError

pub data Answer (A : Type 0) : Type 0 where
  answered : A → Answer A
  refused : AuthError → Answer A

abbrev pub session_lifetime : ℕ
session_lifetime = 30 * (24 * (3600 * 1000000))

abbrev pub slide_interval : ℕ
slide_interval = 3600 * 1000000

-- `_new_session`
unfoldable pub new_session :
    (now : ℕ) (token : String) (ip user_agent : Option String) → AuthSession
new_session now token ip user_agent = record {
  id = token;
  created_at = now;
  expires_at = now + session_lifetime;
  ip = ip;
  user_agent = user_agent;
}

unfoldable pub find_session : String → List AuthSession → Option AuthSession
find_session id [] = none
find_session id (s ∷ rest) =
    let later = find_session id rest in if str_eq s.id id then some s else later

-- `update(Account)`: the one row, if it is there
unfoldable pub update_account : (Account → Account) → AuthState → AuthState
update_account f s = record s { account = elim s.account [ none ↦ none | some a ↦ some (f a) ] }

-- `username`
unfoldable pub username : AuthState → Option Text
username s = elim s.account [ none ↦ none | some a ↦ some a.username ]

-- `logout`
unfoldable pub logout : Option String → AuthState → AuthState
logout none s = s
logout (some id) s = record s { sessions = keep (λ x. not (str_eq x.id id)) s.sessions }

-- `valid_session`
unfoldable pub valid_session : (now : ℕ) → String → AuthState → Option AuthSession
valid_session now id s = elim (find_session id s.sessions) [
  | none ↦ none
  | some x ↦ if leb x.expires_at now then none else some x
]

unfoldable pub slid : ℕ → String → AuthSession → AuthSession
slid now id x = if str_eq x.id id then record x { expires_at = now + session_lifetime } else x

-- `slide_session`
unfoldable pub slide_session : (now : ℕ) → String → AuthState → AuthState
unfolding slid
slide_session now id s = record s { sessions = map (slid now id) s.sessions }

-- `text.strip()`
unfoldable pub strip_left : Text → Text
strip_left [] = []
strip_left (c ∷ s) = let rest = strip_left s in if is_space c then rest else c ∷ s

unfoldable pub push_stripped : ℕ → Text → Text
push_stripped c [] = if is_space c then [] else c ∷ []
push_stripped c (d ∷ s) = c ∷ d ∷ s

unfoldable pub strip_right : Text → Text
strip_right [] = []
strip_right (c ∷ s) = push_stripped c (strip_right s)

unfoldable pub strip_space : Text → Text
unfolding strip_left strip_right push_stripped
strip_space s = strip_right (strip_left s)

module _ (hash_password : ℕ → String → String) (verify_password : String → String → Bool) where
  -- `setup`
  unfoldable pub setup :
      (now salt : ℕ) (token : String) (name : Text) (password : String)
      (ip user_agent : Option String)
      → AuthState
      → Answer String × AuthState
  setup now salt token name password ip user_agent s = elim s.account [
    | some a ↦ (refused setup_already_complete, s)
    | none ↦ (
      answered token,
      record s {
        account = some (record {
          username = name;
          password_hash = hash_password salt password;
          api_key_hash = none;
          last_login_at = some now;
        });
        sessions = s.sessions ++ new_session now token ip user_agent ∷ [];
      },
    )
  ]

  -- The test of the credentials in `login`.
  unfoldable pub credentials_match : Text → String → Option Account → Bool
  credentials_match name password none = false
  credentials_match name password (some a) =
      text_eq (strip_space name) a.username && verify_password a.password_hash password

  -- `login` once the limiter has let it through
  unfoldable pub log_in :
      (now : ℕ) (token : String) (name : Text) (password : String) (ip user_agent : Option String)
      → AuthState
      → Answer (Text × String) × AuthState
  log_in now token name password ip user_agent s = elim s.account [
    | none ↦ (refused invalid_credentials, s)
    | some a ↦
        if credentials_match name password (some a)
        then (
          answered (a.username, token),
          record s {
            account = some (record a { last_login_at = some now });
            sessions = s.sessions ++ new_session now token ip user_agent ∷ [];
          },
        )
        else (refused invalid_credentials, s)
  ]

  -- `client_ip or "unknown"`
  client_of : Option String → String
  client_of none = "unknown"
  client_of (some ip) = if str_eq ip "" then "unknown" else ip

  -- `login`: the limiter counts on its own clock.
  unfoldable pub login :
      (now clock : ℕ) (token : String) (name : Text) (password : String)
      (ip user_agent : Option String)
      → AuthState
      → Answer (Text × String) × AuthState
  unfolding client_of
  login now clock token name password ip user_agent s =
      let (retry_after, limiter) = hit (client_of ip) clock s.limiter in
      elim retry_after [
        | some seconds ↦ (refused (rate_limited seconds), record s { limiter = limiter })
        | none ↦ log_in now token name password ip user_agent (record s { limiter = limiter })
      ]

  unfoldable pub kept_session : Option String → AuthSession → Bool
  kept_session none x = false
  kept_session (some id) x = str_eq x.id id

  -- `change_password`
  unfoldable pub change_password :
      (salt : ℕ) (current new : String) → Option String → AuthState → Answer (Unit {0}) × AuthState
  unfolding kept_session
  change_password salt current new kept s = elim s.account [
    | none ↦ (refused wrong_password, s)
    | some a ↦
        if verify_password a.password_hash current
        then (
          answered tt,
          record s {
            account = some (record a { password_hash = hash_password salt new });
            sessions = keep (kept_session kept) s.sessions;
          },
        )
        else (refused wrong_password, s)
  ]

  -- `reset_password`
  unfoldable pub reset_password : (salt : ℕ) → String → AuthState → AuthState
  reset_password salt password s =
      record (update_account (λ a. record a { password_hash = hash_password salt password }) s) {
        sessions = [];
      }

module _ (hash_token : String → String) where
  -- `regenerate_api_key`
  unfoldable pub regenerate_api_key : (token : String) → AuthState → AuthState
  regenerate_api_key token s =
      update_account (λ a. record a { api_key_hash = some (hash_token token) }) s

  -- `token_matches`
  unfoldable pub token_matches : String → Option String → Bool
  token_matches token none = false
  token_matches token (some hash) = str_eq (hash_token token) hash

  -- `api_key_valid`
  unfoldable pub api_key_valid : String → AuthState → Bool
  api_key_valid key s = elim s.account [ none ↦ false | some a ↦ token_matches key a.api_key_hash ]
