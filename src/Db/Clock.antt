-- ===== src/Db/Clock.antt =====
-- Go's time arithmetic as internal/db uses it: a `time.Duration` is an int64 number of nanoseconds,
-- here as its 64-bit pattern, and a product of durations wraps.
use distri_max.Prelude.{ℕ, ◌+◌, ◌-◌, ◌*◌, ◌%◌, ◌^◌, ◌≤◌, ◌≡◌, arith, ltb, if◌then◌else◌}
use distri_max.Db.Schema.{Time}

-- 24 * time.Hour
abbrev pub day : ℕ
day = 86400000000000

-- time.Duration(n) * 24 * time.Hour
unfoldable pub days_duration : ℕ → ℕ
days_duration n = (n * day) % 2 ^ 64

-- -time.Duration(n) * 24 * time.Hour
unfoldable pub days_back : ℕ → ℕ
days_back n = ((2 ^ 64 - n % 2 ^ 64) * day) % 2 ^ 64

-- -time.Duration(n) * time.Hour
unfoldable pub hours_back : ℕ → ℕ
hours_back n = ((2 ^ 64 - n % 2 ^ 64) * 3600000000000) % 2 ^ 64

-- t.Add(d); from 2 ^ 63 on the pattern is a negative duration.
unfoldable pub add_duration : Time → ℕ → Time
add_duration t d = if ltb d (2 ^ 63) then t + d else t + d - 2 ^ 64

-- The number of days up to which the duration does not wrap.
abbrev pub max_days : ℕ
max_days = 106751

pub add_days : (t : Time) (n : ℕ) → n ≤ max_days → add_duration t (days_duration n) ≡ t + n * day
unfolding add_duration days_duration
add_days t n h = ground arith
