-- ===== src/Api/Limiter/Reachable.antt =====
-- The limiter of a server in any state that it can get into.
use distri_max.Prelude.{ℕ, zero, suc, ◌∙◌, ◌≤◌, ◌≡◌, ◌↔◌, refl, none, some, arith}
use distri_max.Api.Limiter.{
  ConcurrencyLimiter, new_concurrency_limiter, acquire, release, Server, Step, admit, refuse, leave,
  Reaches, start, next,
}

-- The channel holds one value for each download in flight, and has the capacity of the start.
record IsGated (limit : ℕ) (s : Server) : Type 0 where
  capacity : s.limiter.capacity ≡ (new_concurrency_limiter limit).capacity
  held : s.limiter.held ≡ s.in_flight
  bounded : s.in_flight ≤ s.limiter.capacity

admit-IsGated :
    (limit : ℕ) (s : Server) (c : ConcurrencyLimiter)
    → IsGated limit s
    → acquire s.limiter ≡ some c
    → IsGated limit (record { limiter = c; in_flight = suc s.in_flight })
unfolding acquire
admit-IsGated limit s c g e = record {
  capacity = ground (arith, g.capacity, g.held, g.bounded);
  held = ground (arith, g.capacity, g.held, g.bounded);
  bounded = ground (arith, g.capacity, g.held, g.bounded);
}

Step-IsGated : (limit : ℕ) (s s' : Server) → IsGated limit s → Step s s' → IsGated limit s'
unfolding release
Step-IsGated limit s _ g (admit c e) = admit-IsGated limit s c g e
Step-IsGated limit s _ g (refuse e) = g
Step-IsGated limit s _ g (leave n e) = record {
  capacity = g.capacity;
  held = (let h = g.held in omega arith);
  bounded = (let h = g.bounded in omega arith);
}

reaches-IsGated : (limit : ℕ) (s : Server) → Reaches limit s → IsGated limit s
unfolding new_concurrency_limiter
reaches-IsGated limit _ start = record { capacity = refl; held = refl; bounded = omega arith }
reaches-IsGated limit s' (next {s} r t) = Step-IsGated limit s s' (reaches-IsGated limit s r) t

-- The places that a server has.
abbrev pub places : ℕ → ℕ
places zero = 50
places (suc n) = suc n

capacity_of_new : (limit : ℕ) → (new_concurrency_limiter limit).capacity ≡ places limit
unfolding new_concurrency_limiter
capacity_of_new zero = refl
capacity_of_new (suc n) = ground arith

-- However downloads arrive and end, never more than the limit are in flight, or than 50 if the limit is
-- 0, and one is refused exactly when that many are.
pub limiter-bounded :
    (limit : ℕ) (s : Server)
    → Reaches limit s
    → (s.in_flight ≤ places limit) × ((acquire s.limiter ≡ none) ↔ (s.in_flight ≡ places limit))
unfolding acquire
limiter-bounded limit s r =
    let g = reaches-IsGated limit s r in
    let c = g.capacity ∙ capacity_of_new limit in
    let h = g.held in let b = g.bounded in (omega arith, ground arith)
