-- ===== src/Auth/Limiter.antt =====
-- backend/app/auth/utils.py, `LoginRateLimiter`. A time is a number of microseconds of the monotonic
-- clock. The dict of deques is a function; a deque has its oldest attempt first.
pub mod History
use Prim.Native.Nat.{max}
use fetcharr.Base.{
  ℕ, ◌+◌, ◌-◌, ◌*◌, ◌/◌, String, Bool, false, Option, none, some, List, [], ◌∷◌, ◌++◌, length, leb,
  str_eq, or_else, if◌then◌else◌,
}

abbrev pub login_attempts : ℕ
login_attempts = 5

abbrev pub second : ℕ
second = 1000000

abbrev pub window : ℕ
window = 60 * second

abbrev pub Attempts : Type 0
Attempts = String → Option (List ℕ)

-- `t <= now - WINDOW_SECONDS`
abbrev pub is_old : ℕ → ℕ → Bool
is_old now t = leb (t + window) now

-- `a[-1] <= cutoff`. Of an empty deque the code would take the last element and raise; none is stored.
unfoldable pub is_stale : ℕ → List ℕ → Bool
is_stale now [] = false
is_stale now (t ∷ []) = is_old now t
is_stale now (t ∷ u ∷ rest) = is_stale now (u ∷ rest)

unfoldable pub sweep : ℕ → Option (List ℕ) → Option (List ℕ)
sweep now none = none
sweep now (some deque) = if is_stale now deque then none else some deque

-- `del self._attempts[stale]` for each stale key
unfoldable pub purge : ℕ → Attempts → Attempts
purge now attempts key = sweep now (attempts key)

-- `while attempts and attempts[0] <= cutoff: attempts.popleft()`
unfoldable pub pop_old : ℕ → List ℕ → List ℕ
pop_old now [] = []
pop_old now (t ∷ rest) = let more = pop_old now rest in if is_old now t then more else t ∷ rest

abbrev pub put : String → List ℕ → Attempts → Attempts
put key deque attempts other = if str_eq key other then some deque else attempts other

-- `max(1, math.ceil(attempts[0] - cutoff))`
unfoldable pub retry_after : ℕ → List ℕ → ℕ
retry_after now [] = 1
retry_after now (t ∷ rest) = max 1 ((t + window - now + (second - 1)) / second)

-- `hit`: the answer is `none` for an attempt that is allowed, else the seconds to wait.
unfoldable pub hit : String → ℕ → Attempts → Option ℕ × Attempts
hit key now attempts =
    let purged = purge now attempts in
    let deque = pop_old now (or_else (purged key) []) in
    if leb login_attempts (length deque)
    then (some (retry_after now deque), put key deque purged)
    else (none, put key (deque ++ now ∷ []) purged)
