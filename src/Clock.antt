-- ===== src/Clock.antt =====
-- Package time, as the program uses it. An instant is the number of nanoseconds since Go's zero
-- time (January 1, year 1, UTC): a clock that reads the present is more than 2^63 of them away, so
-- no addition of a duration reaches the zero time. A duration is an `int64` of nanoseconds.
use nft_auth_whitelist.Prelude.{ℕ, suc, ◌+◌, ◌-◌, ◌*◌, ◌/◌, ◌≤◌, ◌<◌, ◌≡◌, Bool, arith, ltb, ◌==◌}
use nft_auth_whitelist.Prelude.Int.{ℤ, pos, negsuc, ◌*ℤ◌}

abbrev pub Time : Type 0
Time = ℕ

abbrev pub Duration : Type 0
Duration = ℤ

abbrev pub second : ℕ
second = 1000000000

abbrev pub minute : ℕ
minute = 60000000000

-- `t.Add(d)`
abbrev pub add : Time → Duration → Time
add t (pos n) = t + n
add t (negsuc n) = t - suc n

-- `t.Truncate(time.Second)`, rounding down since the zero time.
abbrev pub truncate : Time → Time
truncate t = t / second * second

-- `t.After(u)`, `t.Before(u)`
abbrev pub after : Time → Time → Bool
after t u = ltb u t

abbrev pub before : Time → Time → Bool
before t u = ltb t u

-- `t.IsZero()`
abbrev pub is_zero : Time → Bool
is_zero t = t == 0

-- `time.Duration(n) * time.Second`, for an `int` n.
unfoldable pub seconds : ℤ → Duration
seconds n = n *ℤ pos second

pub truncate-le : (t : ℕ) → truncate t ≤ t
truncate-le t = omega arith

pub lt-truncate : (t : ℕ) → t < truncate t + second
lt-truncate t = omega arith

pub truncate-truncate : (t : ℕ) → truncate (truncate t) ≡ truncate t
truncate-truncate t = omega arith

pub truncate_mono : (t u : ℕ) → t ≤ u → truncate t ≤ truncate u
truncate_mono t u h = omega arith
