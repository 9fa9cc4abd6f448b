-- ===== src/Auth/Tests.antt =====
-- The limiter run on a burst of attempts, and its property at them.
use fetcharr.Base.{ℕ, String, ◌≡◌, none, List, [], ◌∷◌, arith}
use fetcharr.Base.{String, refl, true, some, codes, str_eq, cat}
use fetcharr.Auth.Service.{
  AuthSession, AuthState, find_session, valid_session, username, setup, refused,
  setup_already_complete,
}
use fetcharr.Auth.Service.Guard.{
  Request, let_in, require_auth, Allowed, require_auth-Allowed, origin_ok, changes_state,
  needs_slide, same_site, by_session, by_cookie,
}
use fetcharr.Auth.Service.Sessions.{
  perform, perform_all, Call, login_call, change_call, slide_call, signs_out, accepts, keeps,
  never_draws, draws, signs_out-perform_all, setup-perform_all,
}
use fetcharr.Auth.Limiter.History.{IsRising, answers, allowed, answers-allowed}

-- Six attempts within a minute, and one a minute after the first, all from one address.
abbrev burst : List (String × ℕ)
burst =
    ("ip", 1000000)
    ∷ ("ip", 2000000)
    ∷ ("ip", 3000000)
    ∷ ("ip", 4000000)
    ∷ ("ip", 5000000)
    ∷ ("ip", 6000000)
    ∷ ("ip", 61000001)
    ∷ []

burst-IsRising : IsRising 0 burst
burst-IsRising = (
  omega arith,
  (omega arith, (omega arith, (omega arith, (omega arith, (omega arith, (omega arith, tt)))))),
)

answers-allowed_example : answers burst (λ _. none) ≡ allowed burst (λ _. [])
answers-allowed_example = answers-allowed burst burst-IsRising

-- A hash that keeps its text, and an account with a session.
abbrev shown : ℕ → String → String
shown salt password = password

abbrev token_hash : String → String
token_hash token = cat ("#" ∷ token ∷ [])

abbrev session : AuthSession
session = record { id = "s1"; created_at = 0; expires_at = 100; ip = none; user_agent = none }

abbrev state : AuthState
state = record {
  account = some (record {
    username = codes "ann";
    password_hash = "old";
    api_key_hash = none;
    last_login_at = none;
  });
  sessions = session ∷ [];
  limiter = λ _. none;
}

abbrev change : Call shown str_eq token_hash
change = change_call 0 "old" "new" none

abbrev later : List (Call shown str_eq token_hash)
later = login_call 5 5 "s2" (codes "ann") "new" none ∷ slide_call 6 "s1" ∷ []

changes : signs_out shown str_eq token_hash "s1" change state ≡ true
unfolding signs_out accepts keeps
changes = refl

other_id : never_draws shown str_eq token_hash "s1" later ≡ true
unfolding never_draws draws
other_id = refl

signs_out-perform_all_example :
    valid_session 10 "s1"
      (perform_all shown str_eq token_hash later (perform shown str_eq token_hash change state))
    ≡ none
signs_out-perform_all_example =
    signs_out-perform_all shown str_eq token_hash "s1" change later state 10 changes other_id

known : username state ≡ some (codes "ann")
unfolding username
known = refl

setup-perform_all_example :
    (username (perform_all shown str_eq token_hash later state) ≡ some (codes "ann"))
    × (setup shown str_eq 9 0 "s3"
          (codes "eve")
          "x"
          none
          none
          (perform_all shown str_eq token_hash later state)
        ≡ (refused setup_already_complete, perform_all shown str_eq token_hash later state))
setup-perform_all_example =
    setup-perform_all shown str_eq token_hash (codes "ann") (codes "eve") later state 9 0 "s3" "x"
      known

abbrev request : Request
request = record {
  method = "POST";
  origin = some "host";
  referer = none;
  host = some "host";
  api_key = none;
  cookie = some "s1";
}

let_in_by_session : (require_auth token_hash (λ url. url) 50 request state).0 ≡ let_in (some "s1")
unfolding require_auth valid_session find_session origin_ok changes_state needs_slide same_site
    by_session by_cookie
let_in_by_session = refl

require_auth-Allowed_example : Allowed token_hash (λ url. url) 50 request state (some "s1")
require_auth-Allowed_example =
    require_auth-Allowed token_hash (λ url. url) 50 request state (some "s1") let_in_by_session
