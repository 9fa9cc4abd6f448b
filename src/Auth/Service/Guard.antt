-- ===== src/Auth/Service/Guard.antt =====
-- The guard of the routes: backend/app/auth/dependencies.py. `netloc`, the host of a URL, is a parameter.
use fetcharr.Base.{
  ℕ, ◌<◌, ◌+◌, ◌-◌, ltb, leb, ◌≡◌, sym, ap, ◌∙◌, inl, inr, String, Bool, true, false, not, ◌||◌,
  Option, none, some, [], ◌∷◌, str_eq, any as any_of, arith, if◌then◌else◌, Option-cases,
  Bool-cases,
}
use fetcharr.Auth.Service.{
  AuthSession, AuthState, session_lifetime, slide_interval, find_session, valid_session,
  slide_session, api_key_valid,
}

-- What the guard reads of a request: its headers and the session's cookie.
pub record Request : Type 0 where
  pub method : String
  pub origin : Option String
  pub referer : Option String
  pub host : Option String
  pub api_key : Option String
  pub cookie : Option String

-- With the API key there is no session.
pub data Verdict : Type 0 where
  let_in : Option String → Verdict
  unauthorized wrong_origin : Verdict

-- A text that is there and is not empty.
abbrev pub nonempty_text : Option String → Option String
nonempty_text none = none
nonempty_text (some text) = if str_eq text "" then none else some text

abbrev pub first_of : Option String → Option String → Option String
first_of none other = nonempty_text other
first_of (some text) other = some text

unfoldable pub changes_state : String → Bool
changes_state method = any_of (str_eq method) ("POST" ∷ "PUT" ∷ "PATCH" ∷ "DELETE" ∷ [])

-- `needs_slide`
unfoldable pub needs_slide : (now expires_at : ℕ) → Bool
needs_slide now expires_at = ltb expires_at (now + session_lifetime - slide_interval)

module _ (hash_token : String → String) (netloc : String → String) where
  -- The source and the host agree.
  unfoldable pub same_site : Option String → Option String → Bool
  same_site none host = false
  same_site (some source) none = false
  same_site (some source) (some host) = str_eq (netloc source) host

  -- `_verify_origin`: whether it lets the request pass
  unfoldable pub origin_ok : Request → Bool
  unfolding same_site changes_state
  origin_ok r =
      not (changes_state r.method)
      || same_site (first_of (nonempty_text r.origin) r.referer) (nonempty_text r.host)

  -- `require_auth` with a session's cookie
  unfoldable pub by_session : (now : ℕ) → String → Request → AuthState → Verdict × AuthState
  unfolding origin_ok
  by_session now id r s = elim (valid_session now id s) [
    | none ↦ (unauthorized, s)
    | some x ↦
        if origin_ok r
        then (
          let_in (some id),
          (if needs_slide now x.expires_at then slide_session now id s else s),
        )
        else (wrong_origin, s)
  ]

  unfoldable pub by_cookie : (now : ℕ) → Option String → Request → AuthState → Verdict × AuthState
  unfolding by_session
  by_cookie now none r s = (unauthorized, s)
  by_cookie now (some id) r s = by_session now id r s

  -- `require_auth`
  unfoldable pub require_auth : (now : ℕ) → Request → AuthState → Verdict × AuthState
  unfolding by_cookie
  require_auth now r s = elim r.api_key [
    | some key ↦ ((if api_key_valid hash_token key s then let_in none else unauthorized), s)
    | none ↦ by_cookie now (nonempty_text r.cookie) r s
  ]

  -- What a request is let in by: the API key that is stored, or a session that is there and has not
  -- expired, from the same site where the request changes state.
  pub Allowed : (now : ℕ) → Request → AuthState → Option String → Type 0
  Allowed now r s none =
      (key : String) × (r.api_key ≡ some key) × (api_key_valid hash_token key s ≡ true)
  Allowed now r s (some id) =
      (x : AuthSession) × (r.api_key ≡ none)
      × (r.cookie ≡ some id)
      × (find_session id s.sessions ≡ some x)
      × (now < x.expires_at)
      × (origin_ok r ≡ true)

  by_session-found :
      (now : ℕ) (id : String) (r : Request) (s : AuthState) (w : Option String)
      → (by_session now id r s).0 ≡ let_in w
      → (w ≡ some id)
        × ((x : AuthSession) × (find_session id s.sessions ≡ some x)
            × (now < x.expires_at)
            × (origin_ok r ≡ true))
  unfolding by_session valid_session
  by_session-found now id r s w h = elim (Option-cases (find_session id s.sessions)) [
    | inl e ↦ absurd (ground (arith, h, e))
    | inr (x, e) ↦ elim (Bool-cases (leb x.expires_at now)) [
      | inl old ↦ absurd (ground (arith, h, e, old))
      | inr new ↦ elim (Bool-cases (origin_ok r)) [
        | inl ok ↦ (ground (arith, h, e, new, ok), (x, e, ground (arith, new), ok))
        | inr bad ↦ absurd (ground (arith, h, e, new, bad))
      ]
    ]
  ]

  nonempty_text-some : (o : Option String) (t : String) → nonempty_text o ≡ some t → o ≡ some t
  nonempty_text-some none t h = absurd (ground (arith, h))
  nonempty_text-some (some u) t h = ground (arith, h)

  by_key :
      (now : ℕ) (r : Request) (s : AuthState) (w : Option String) (key : String)
      → r.api_key ≡ some key
      → (require_auth now r s).0 ≡ let_in w
      → (w ≡ none) × (api_key_valid hash_token key s ≡ true)
  unfolding require_auth
  by_key now r s w key e h = elim (Bool-cases (api_key_valid hash_token key s)) [
    | inl ok ↦ (ground (arith, e, h, ok), ok)
    | inr bad ↦ absurd (ground (arith, e, h, bad))
  ]

  by_cookie-found :
      (now : ℕ) (r : Request) (s : AuthState) (w : Option String)
      → r.api_key ≡ none
      → (require_auth now r s).0 ≡ let_in w
      → (id : String) × (r.cookie ≡ some id) × ((by_session now id r s).0 ≡ let_in w)
  unfolding require_auth by_cookie
  by_cookie-found now r s w e h = elim (Option-cases (nonempty_text r.cookie)) [
    | inl c ↦ absurd (ground (arith, e, h, c))
    | inr (id, c) ↦ (id, nonempty_text-some r.cookie id c, ground (arith, e, h, c))
  ]

  -- A request is let in by the stored API key alone, or by a session that is there and has not expired,
  -- and then only from the same site where it changes state.
  pub require_auth-Allowed :
      (now : ℕ) (r : Request) (s : AuthState) (w : Option String)
      → (require_auth now r s).0 ≡ let_in w
      → Allowed now r s w
  unfolding Allowed
  require_auth-Allowed now r s none h = elim (Option-cases r.api_key) [
    | inl e ↦
        let (id, c, found) = by_cookie-found now r s none e h in
        absurd (ground (arith, (by_session-found now id r s none found).0))
    | inr (key, e) ↦ (key, e, (by_key now r s none key e h).1)
  ]
  require_auth-Allowed now r s (some id) h = elim (Option-cases r.api_key) [
    | inl e ↦
        let (id', c, found) = by_cookie-found now r s (some id) e h in
        let (same, (x, at, new, ok)) = by_session-found now id' r s (some id) found in
        let one : id' ≡ id = ground (arith, same) in
        (
          x,
          e,
          c ∙ ap (λ i. some i) one,
          ap (λ i. find_session i s.sessions) (sym one) ∙ at,
          new,
          ok,
        )
    | inr (key, e) ↦ absurd (ground (arith, (by_key now r s (some id) key e h).0))
  ]
