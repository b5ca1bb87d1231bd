-- ===== src/RateLimit/Defs.antt =====
-- The limiter. A counter is an int that would need 2^63 failures to wrap, and is a natural number.
use nft_auth_whitelist.Prelude.{
  ℕ, suc, ◌+◌, Option, none, some, [], Bool, false, not, ◌||◌, leb, if◌then◌else◌,
}
use nft_auth_whitelist.Prelude.Int.{ℤ, pos, leb_ℤ, ltb_ℤ}
use nft_auth_whitelist.Text.{Text}
use nft_auth_whitelist.Dict.{Dict, find, put}
use nft_auth_whitelist.Dict.{MapOrder, drop_loop}
use nft_auth_whitelist.Clock.{Time, minute}

-- config.RateLimit
pub record Limit : Type 0 where
  pub enabled : Bool
  pub max_failures_per_minute : ℤ

pub record Bucket : Type 0 where
  pub window_start : Time
  pub count : ℕ

pub record Limiter : Type 0 where
  pub enabled : Bool
  pub max : ℤ
  pub buckets : Dict Bucket

unfoldable pub new : Limit → Limiter
new rl = record { enabled = rl.enabled; max = rl.max_failures_per_minute; buckets = [] }

-- `now.Sub(b.windowStart) >= time.Minute`, false for a window that starts after now.
unfoldable pub is_over : Time → Bucket → Bool
is_over now b = leb (b.window_start + minute) now

abbrev pub fresh_bucket : Time → Bucket
fresh_bucket now = record { window_start = now; count = 0 }

-- The bucket that the failure is counted in.
unfoldable pub bucket_for : Option Bucket → Time → Bucket
unfolding is_over
bucket_for none now = fresh_bucket now
bucket_for (some b) now = if is_over now b then fresh_bucket now else b

abbrev counted : Bucket → Bucket
counted b = record b { count = suc b.count }

module _ (ord : MapOrder Bucket) where
  unfoldable pub cleanup_expired_locked : Limiter → Time → Limiter
  unfolding is_over
  cleanup_expired_locked f now = record f {
    buckets = (drop_loop (is_over now) (ord.order 0 f.buckets) f.buckets []).0;
  }

  -- Whether the peer is blocked, and the limiter afterwards.
  unfoldable pub blocked : Limiter → Text → Time → Bool × Limiter
  unfolding cleanup_expired_locked bucket_for
  blocked f peer now =
      let f' = cleanup_expired_locked f now in
      let b = counted (bucket_for (find peer f'.buckets) now) in
      if not f.enabled || leb_ℤ f.max (pos 0)
      then (false, f)
      else (ltb_ℤ f.max (pos b.count), record f' { buckets = put peer b f'.buckets })
