-- ===== src/RateLimit/Window.antt =====
-- RateLimiter of windows_os_api/core/security/rate_limit.py. A reading of `time.monotonic()` is a
-- natural number of nanoseconds.
pub mod Bound
mod Tests
use win_os_layer.Common.{
  ℕ, ◌-◌, String, Bool, true, false, List, [], ◌∷◌, ◌++◌, ltb, leb, if◌then◌else◌, get_or, length,
}
use win_os_layer.Common.Dict.{Dict, lookup, insert}

-- `window = 60.0`, in nanoseconds.
abbrev pub window : ℕ
window = 60_000_000_000

pub record RateLimiter : Type 0 where
  pub limit : ℕ
  pub hits : Dict (List ℕ)

pub new : ℕ → RateLimiter
new limit = record { limit = limit; hits = [] }

-- `now - t > window`
pub expired : ℕ → ℕ → Bool
expired now t = ltb window (now - t)

-- The loop `while q and now - q[0] > window: q.popleft()`.
unfoldable pub prune : ℕ → List ℕ → List ℕ
unfolding expired
prune now [] = []
prune now (t ∷ q) = let rest = prune now q in if expired now t then rest else t ∷ q

-- `self._hits[key]` of a `defaultdict(deque)`.
abbrev pub hits_of : RateLimiter → String → List ℕ
hits_of r key = get_or [] (lookup key r.hits)

pub allow : RateLimiter → String → ℕ → RateLimiter × Bool
allow r key now =
    let q = prune now (hits_of r key) in
    if leb r.limit (length q)
    then (record r { hits = insert key q r.hits }, false)
    else (record r { hits = insert key (q ++ now ∷ []) r.hits }, true)

pub remaining : RateLimiter → String → ℕ → RateLimiter × ℕ
remaining r key now =
    let q = prune now (hits_of r key) in
    (record r { hits = insert key q r.hits }, r.limit - length q)
