-- ===== src/Auth/Service/Sessions.antt =====
-- What ends a session and what the account's calls keep: backend/app/auth/service.py.
use fetcharr.Base.{
  ℕ, ◌≡◌, refl, String, Bool, true, false, not, ◌&&◌, Option, none, some, List, [], ◌∷◌, ◌++◌, keep,
  map, str_eq, eq_iff, arith, Text, if◌then◌else◌,
}
use fetcharr.Auth.Service.{
  Account, AuthSession, AuthState, refused, setup_already_complete, new_session, find_session,
  update_account, username, logout, valid_session, slid, slide_session, setup, log_in, login,
  kept_session, change_password, reset_password, regenerate_api_key,
}

find_session-keep :
    (id : String) (p : AuthSession → Bool) (xs : List AuthSession)
    → find_session id xs ≡ none
    → find_session id (keep p xs) ≡ none
unfolding find_session
find_session-keep id p [] h = refl
find_session-keep id p (x ∷ xs) h = ground (arith, h, find_session-keep id p xs)

find_session-append :
    (id : String) (xs : List AuthSession) (y : AuthSession)
    → find_session id xs ≡ none
    → str_eq y.id id ≡ false
    → find_session id (xs ++ y ∷ []) ≡ none
unfolding find_session
find_session-append id [] y h new = ground (arith, new)
find_session-append id (x ∷ xs) y h new = ground (arith, h, find_session-append id xs y)

find_session-slid :
    (now : ℕ) (other id : String) (xs : List AuthSession)
    → find_session id xs ≡ none
    → find_session id (map (slid now other) xs) ≡ none
unfolding find_session slid
find_session-slid now other id [] h = refl
find_session-slid now other id (x ∷ xs) h = ground (arith, h, find_session-slid now other id xs)

-- The sessions that another id's deletion leaves, and those that keeping one leaves.
find_session-logout :
    (id : String) (xs : List AuthSession)
    → find_session id (keep (λ x. not (str_eq x.id id)) xs) ≡ none
unfolding find_session
find_session-logout id [] = refl
find_session-logout id (x ∷ xs) = ground (arith, find_session-logout id xs)

find_session-none :
    (id : String) (xs : List AuthSession) → find_session id (keep (λ x. false) xs) ≡ none
unfolding find_session
find_session-none id [] = refl
find_session-none id (x ∷ xs) = find_session-none id xs

find_session-kept :
    (id kept : String) (xs : List AuthSession)
    → find_session id (keep (λ x. str_eq x.id kept) xs)
      ≡ (if str_eq id kept then find_session id xs else none)
unfolding find_session
find_session-kept id kept [] = ground arith
find_session-kept id kept (x ∷ xs) =
    ground (arith, find_session-kept id kept xs, eq_iff x.id kept, eq_iff x.id id, eq_iff id kept)

module _ (hash_password : ℕ → String → String) (verify_password : String → String → Bool)
    (hash_token : String → String) where
  -- The calls of the service that change its state.
  pub data Call : Type 0 where
    setup_call : (now salt : ℕ) (token : String) (username : Text) (password : String) → Call
    login_call :
        (now clock : ℕ) (token : String) (username : Text) (password : String) (ip : Option String)
        → Call
    logout_call : Option String → Call
    change_call : (salt : ℕ) (current new : String) (kept : Option String) → Call
    reset_call : (salt : ℕ) (password : String) → Call
    key_call : (token : String) → Call
    slide_call : (now : ℕ) (id : String) → Call

  pub perform : Call → AuthState → AuthState
  perform (setup_call now salt token username password) s =
      (setup hash_password verify_password now salt token username password none none s).1
  perform (login_call now clock token username password ip) s =
      (login hash_password verify_password now clock token username password ip none s).1
  perform (logout_call id) s = logout id s
  perform (change_call salt current new kept) s =
      (change_password hash_password verify_password salt current new kept s).1
  perform (reset_call salt password) s =
      reset_password hash_password verify_password salt password s
  perform (key_call token) s = regenerate_api_key hash_token token s
  perform (slide_call now id) s = slide_session now id s

  pub perform_all : List Call → AuthState → AuthState
  perform_all [] s = s
  perform_all (call ∷ calls) s = perform_all calls (perform call s)

  -- The call draws this id for a new session.
  unfoldable pub draws : String → Call → Bool
  draws id (setup_call now salt token username password) = str_eq token id
  draws id (login_call now clock token username password ip) = str_eq token id
  draws id _ = false

  unfoldable pub never_draws : String → List Call → Bool
  never_draws id [] = true
  never_draws id (call ∷ calls) = not (draws id call) && never_draws id calls

  perform-absent :
      (id : String) (call : Call) (s : AuthState)
      → draws id call ≡ false
      → find_session id s.sessions ≡ none
      → find_session id (perform call s).sessions ≡ none
  unfolding perform draws setup login log_in logout change_password reset_password
      regenerate_api_key slide_session update_account new_session find_session
  perform-absent id (setup_call now salt token username password) s h absent =
      ground (arith, h, find_session-append id s.sessions (new_session now token none none) absent)
  perform-absent id (login_call now clock token username password ip) s h absent =
      ground (arith, h, find_session-append id s.sessions (new_session now token ip none) absent)
  perform-absent id (logout_call none) s h absent = absent
  perform-absent id (logout_call (some other)) s h absent = find_session-keep id _ s.sessions absent
  perform-absent id (change_call salt current new kept) s h absent = ground (
    arith,
    absent,
    find_session-keep id (kept_session hash_password verify_password kept) s.sessions absent,
  )
  perform-absent id (reset_call salt password) s h absent = refl
  perform-absent id (key_call token) s h absent = absent
  perform-absent id (slide_call now other) s h absent =
      find_session-slid now other id s.sessions absent

  absent-perform_all :
      (id : String) (calls : List Call) (s : AuthState)
      → never_draws id calls ≡ true
      → find_session id s.sessions ≡ none
      → find_session id (perform_all calls s).sessions ≡ none
  unfolding perform_all never_draws
  absent-perform_all id [] s h absent = absent
  absent-perform_all id (call ∷ calls) s h absent =
      absent-perform_all id calls (perform call s) (ground (arith, h))
        (perform-absent id call s (ground (arith, h)) absent)

  unfoldable pub accepts : Option Account → String → Bool
  accepts none current = false
  accepts (some a) current = verify_password a.password_hash current

  unfoldable pub keeps : Option String → String → Bool
  keeps none id = false
  keeps (some kept) id = str_eq id kept

  -- A call that signs a session out: its logout, a change of the password that is accepted and does
  -- not keep it, or a reset.
  unfoldable pub signs_out : String → Call → AuthState → Bool
  signs_out id (logout_call (some other)) s = str_eq other id
  signs_out id (change_call salt current new kept) s =
      accepts s.account current && not (keeps kept id)
  signs_out id (reset_call salt password) s = true
  signs_out id _ s = false

  change_password-absent :
      (salt : ℕ) (current new : String) (kept : Option String) (id : String) (s : AuthState)
      → (accepts s.account current && not (keeps kept id)) ≡ true
      → find_session id
          (change_password hash_password verify_password salt current new kept s).1.sessions
        ≡ none
  unfolding change_password accepts keeps kept_session
  change_password-absent salt current new none id s h =
      ground (arith, h, find_session-none id s.sessions)
  change_password-absent salt current new (some kept) id s h =
      ground (arith, h, find_session-kept id kept s.sessions)

  signs_out-absent :
      (id : String) (call : Call) (s : AuthState)
      → signs_out id call s ≡ true
      → find_session id (perform call s).sessions ≡ none
  unfolding signs_out perform logout reset_password find_session
  signs_out-absent id (logout_call (some other)) s h =
      ground (arith, eq_iff other id, find_session-logout id s.sessions, h)
  signs_out-absent id (logout_call none) s h = absurd (ground (arith, h))
  signs_out-absent id (change_call salt current new kept) s h =
      change_password-absent salt current new kept id s h
  signs_out-absent id (reset_call salt password) s h = refl
  signs_out-absent id (setup_call now salt token username password) s h = absurd (ground (arith, h))
  signs_out-absent id (login_call now clock token username password ip) s h =
      absurd (ground (arith, h))
  signs_out-absent id (key_call token) s h = absurd (ground (arith, h))
  signs_out-absent id (slide_call now other) s h = absurd (ground (arith, h))

  -- A session that was signed out is never valid again, whatever is called next, as long as its id is
  -- not drawn anew.
  pub signs_out-perform_all :
      (id : String) (call : Call) (calls : List Call) (s : AuthState) (now : ℕ)
      → signs_out id call s ≡ true
      → never_draws id calls ≡ true
      → valid_session now id (perform_all calls (perform call s)) ≡ none
  unfolding valid_session
  signs_out-perform_all id call calls s now out never =
      ground
        (arith, absent-perform_all id calls (perform call s) never (signs_out-absent id call s out))

  perform-username :
      (name : Text) (call : Call) (s : AuthState)
      → username s ≡ some name
      → username (perform call s) ≡ some name
  unfolding username perform setup login log_in logout change_password reset_password
      regenerate_api_key slide_session update_account
  perform-username name (setup_call now salt token user password) s h = ground (arith, h)
  perform-username name (login_call now clock token user password ip) s h = ground (arith, h)
  perform-username name (logout_call none) s h = h
  perform-username name (logout_call (some id)) s h = h
  perform-username name (change_call salt current new kept) s h = ground (arith, h)
  perform-username name (reset_call salt password) s h = ground (arith, h)
  perform-username name (key_call token) s h = ground (arith, h)
  perform-username name (slide_call now other) s h = h

  username-perform_all :
      (name : Text) (calls : List Call) (s : AuthState)
      → username s ≡ some name
      → username (perform_all calls s) ≡ some name
  unfolding perform_all
  username-perform_all name [] s h = h
  username-perform_all name (call ∷ calls) s h =
      username-perform_all name calls (perform call s) (perform-username name call s h)

  -- Once there is an account, it stays with its name whatever is called, and a setup is refused and
  -- changes nothing.
  pub setup-perform_all :
      (name user : Text) (calls : List Call) (s : AuthState) (now salt : ℕ)
      (token password : String)
      → username s ≡ some name
      → (username (perform_all calls s) ≡ some name)
        × (setup hash_password verify_password now salt token user password none none
              (perform_all calls s)
            ≡ (refused setup_already_complete, perform_all calls s))
  unfolding setup username
  setup-perform_all name user calls s now salt token password h =
      let kept = username-perform_all name calls s h in (kept, ground (arith, kept))
