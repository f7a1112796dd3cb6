-- ===== src/Api/Limiter.antt =====
-- ConcurrencyLimiter of internal/api/middleware.go: `sem` is a buffered channel, of which only the
-- number of values in it matters. Handlers run concurrently, so that a server is a sequence of
-- arrivals and ends, in any order.
pub mod Reachable
use distri_max.Prelude.{ℕ, suc, ◌-◌, ◌≡◌, Option, none, some, eqb, ltb, if◌then◌else◌}

pub record ConcurrencyLimiter : Type 0 where
  pub capacity : ℕ
  pub held : ℕ

-- A negative limit becomes 50, as 0 does.
unfoldable pub new_concurrency_limiter : ℕ → ConcurrencyLimiter
new_concurrency_limiter limit = record { capacity = if eqb limit 0 then 50 else limit; held = 0 }

-- A send on `sem` that does not block: none is the default case, 429.
unfoldable pub acquire : ConcurrencyLimiter → Option ConcurrencyLimiter
acquire c = if ltb c.held c.capacity then some (record c { held = suc c.held }) else none

-- The deferred receive.
unfoldable pub release : ConcurrencyLimiter → ConcurrencyLimiter
release c = record c { held = c.held - 1 }

-- The limiter, and how many calls of the next handler have not returned.
pub record Server : Type 0 where
  pub limiter : ConcurrencyLimiter
  pub in_flight : ℕ

pub data Step (s : Server) : Server → Type 0 where
  admit :
      (c : ConcurrencyLimiter)
      → acquire s.limiter ≡ some c
      → Step s (record { limiter = c; in_flight = suc s.in_flight })
  refuse : acquire s.limiter ≡ none → Step s s
  -- The next handler returns, or panics.
  leave :
      (n : ℕ) → s.in_flight ≡ suc n → Step s (record { limiter = release s.limiter; in_flight = n })

pub data Reaches (limit : ℕ) : Server → Type 0 where
  start : Reaches limit (record { limiter = new_concurrency_limiter limit; in_flight = 0 })
  next : {s s' : Server} → Reaches limit s → Step s s' → Reaches limit s'
