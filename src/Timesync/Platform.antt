-- ===== src/Timesync/Platform.antt =====
-- pkg/timesync/platform.go: `PlatformSync`, which compares the agent's time with the platform's.
-- The zero `time.Time` is the first instant of the year 1, here by its Unix milliseconds.
pub mod Health
use metrika_agent.Prelude.{ℕ, ◌≡◌, Bool, true, false, ◌||◌, not, ◌==◌, ◌&&◌, if◌then◌else◌}
use metrika_agent.Prelude.Int.{ℤ, pos, negsuc, pos_part, neg_part, ltb_ℤ, ◌-ℤ◌}
use metrika_agent.Buf.Expiry.{nanos, saturate}
use metrika_agent.Timesync.Duration.{abs, sub}

-- 20 s and 5 s
abbrev pub max_delta : ℤ
max_delta = pos 20_000_000_000

abbrev pub subsequent_max : ℤ
subsequent_max = pos 5_000_000_000

abbrev pub zero_time : ℤ
zero_time = negsuc 62_135_596_799_999

-- The timestamps in Unix milliseconds, the deltas in nanoseconds.
pub record PlatformSync : Type 0 where
  pub first_timestamp : ℤ
  pub first_delta : ℤ
  pub prev_timestamp : ℤ
  pub prev_delta : ℤ
  pub current_timestamp : ℤ
  pub current_delta : ℤ

pub new_platform_sync : PlatformSync
new_platform_sync = record {
  first_timestamp = zero_time;
  first_delta = pos 0;
  prev_timestamp = zero_time;
  prev_delta = pos 0;
  current_timestamp = zero_time;
  current_delta = pos 0;
}

abbrev pub is_zero_time : ℤ → Bool
is_zero_time t = (pos_part t == pos_part zero_time) && (neg_part t == neg_part zero_time)

-- `abs(Now().Sub(ts))`, `now` in nanoseconds and `ts` in milliseconds.
abbrev pub delta : ℤ → ℤ → ℤ
delta now ts = abs (saturate (now -ℤ nanos ts))

pub register : ℤ → ℤ → PlatformSync → PlatformSync
register now ts p =
    let d = delta now ts in
    if is_zero_time p.first_timestamp
    then record {
      first_timestamp = ts;
      first_delta = d;
      prev_timestamp = ts;
      prev_delta = d;
      current_timestamp = ts;
      current_delta = d;
    }
    else record p {
      prev_timestamp = p.current_timestamp;
      prev_delta = p.current_delta;
      current_timestamp = ts;
      current_delta = d;
    }

pub healthy : PlatformSync → Bool
healthy p = not (
    ltb_ℤ subsequent_max (abs (sub p.current_delta p.prev_delta))
    || ltb_ℤ max_delta p.current_delta)

pub last_deltas : PlatformSync → ℤ × ℤ
last_deltas p = (p.prev_delta, p.current_delta)

pub clear : PlatformSync → PlatformSync
clear p = record p { first_timestamp = zero_time }

unfoldable pub register_and_check : ℤ → ℤ → PlatformSync → Bool × PlatformSync
register_and_check now ts p = let r = register now ts p in (healthy r, r)
