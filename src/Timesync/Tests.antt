-- ===== src/Timesync/Tests.antt =====
-- A clock whose server answers, with an offset of 4 s, after one failed query.
use Prim.Native.String.{String}
use metrika_agent.Prelude.{ℕ, zero, suc, ◌≡◌, refl, true, false, none}
use metrika_agent.Prelude.Int.{ℤ, pos}
use metrika_agent.Prelude.Outcome.{Yields}
use metrika_agent.Prelude.Error.{Result, ok, err, failure}
use metrika_agent.Timesync.Platform.{PlatformSync, register}
use metrika_agent.Timesync.Ntp.{TimeSync, query_ntp, on_tick, track, now}
use metrika_agent.Timesync.Ntp.Queried.{Queried, query_ntp-Queried}
use metrika_agent.Timesync.Ntp.Adjusted.{Ticked, on_tick-Ticked}
use metrika_agent.Timesync.Ntp.Tracked.{Tracked, track-Tracked}
use metrika_agent.Timesync.Restart.{
  Restart, at, querying, storing, waiting, Steps, none_more, then, tick, enter, answer, running,
}
use metrika_agent.Timesync.Restart.Stuck.{
  Single, running-Single, caught_never_starts, starter_of, lock_held,
}

abbrev server : String → ℕ → Result ℤ × ℕ
server host zero = (ok (pos 4_000_000_000), zero)
server host (suc n) = (err (failure "timeout"), n)

-- The last timestamp of the platform was 1 s away.
abbrev synced : PlatformSync
synced = record {
  first_timestamp = pos 10_000;
  first_delta = pos 1_000_000_000;
  prev_timestamp = pos 10_000;
  prev_delta = pos 1_000_000_000;
  current_timestamp = pos 10_000;
  current_delta = pos 1_000_000_000;
}

abbrev clock : TimeSync
clock = record {
  host = "pool.ntp.org";
  ticking = true;
  stopped = false;
  delta = pos 0;
  interval = pos 120_000_000_000;
  should_adjust = false;
  retries = pos 3;
  emitch = none;
  drops = 0;
  platform = synced;
}

query_ntp-Queried_example : Yields (Queried server clock 1) (query_ntp server clock 1)
query_ntp-Queried_example = query_ntp-Queried server 2 clock 1 refl

on_tick-Ticked_example :
    Yields
      (Ticked server clock 1)
      (on_tick server (λ fields. ok fields) (λ e. "timeout") (pos 50_000_000_000) none clock 1)
on_tick-Ticked_example =
    on_tick-Ticked server (λ fields. ok fields) (λ e. "timeout") (pos 50_000_000_000) 2 none clock 1
      refl

track-Tracked_example :
    Yields
      (Tracked server clock 1 (register (now (pos 50_000_000_000) clock) (pos 20_000) synced))
      (track server (pos 50_000_000_000) (pos 20_000) clock 1)
track-Tracked_example =
    track-Tracked server clock 1 2 (pos 50_000_000_000) (pos 20_000) refl refl refl

-- A second `Start` is called in the middle of a tick.
abbrev caught : Restart
caught = at querying waiting true true true

caught-Steps : Steps running caught
caught-Steps = then tick (then enter none_more)

running-Single_example : Single caught
running-Single_example = running-Single caught caught-Steps

caught_never_starts_example :
    (starter_of (at storing waiting true true true) ≡ waiting)
    × (lock_held (at storing waiting true true true) ≡ true)
caught_never_starts_example =
    caught_never_starts true (at storing waiting true true true) (then answer none_more)
