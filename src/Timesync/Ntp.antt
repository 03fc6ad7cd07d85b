-- ===== src/Timesync/Ntp.antt =====
-- pkg/timesync/timesync.go: `TimeSync`, the agent's clock, corrected by the offset that an NTP
-- server gives, and the platform's timestamps tracked with it (`TrackTimestamps`).
-- `query` is the field `queryNTP` (the package beevik/ntp) over a world `W`; `describe` is
-- `Error()` of an error.
pub mod Queried
pub mod Adjusted
pub mod Tracked
use Prim.Native.String.{String}
use metrika_agent.Prelude.{
  ℕ, zero, suc, ◌+◌, ◌*◌, ◌/◌, Bool, true, false, ◌||◌, Option, none, some, List, [], ◌∷◌,
  if◌then◌else◌,
}
use metrika_agent.Prelude.Int.{ℤ, pos, negsuc, ltb_ℤ, ◌+ℤ◌}
use metrika_agent.Prelude.Outcome.{Outcome, done, panic, ◌>>=◌}
use metrika_agent.Prelude.Error.{Error, Result, ok, err}
use metrika_agent.Model.{Val, Fields, Message}
use metrika_agent.Model.Events.{new_with_ctx}
use metrika_agent.Emit
use metrika_agent.Emit.{Chan, event_message}
use metrika_agent.Timesync.Platform.{PlatformSync, new_platform_sync, register_and_check, clear}

-- `ticking`: the ticker is there (`ticker != nil`); `stopped`: its context is cancelled; `drops`:
-- messages that a full channel has refused.
pub record TimeSync : Type 0 where
  pub host : String
  pub ticking : Bool
  pub stopped : Bool
  pub delta : ℤ
  pub interval : ℤ
  pub should_adjust : Bool
  pub retries : ℤ
  pub emitch : Option (Chan Message)
  pub drops : ℕ
  pub platform : PlatformSync

abbrev pub default_sync_interval : ℤ
default_sync_interval = pos 120_000_000_000

abbrev pub default_retry_count : ℤ
default_retry_count = pos 3

pub new_time_sync : String → ℤ → TimeSync
new_time_sync host retries = record {
  host = host;
  ticking = false;
  stopped = false;
  delta = pos 0;
  interval = pos 0;
  should_adjust = false;
  retries = if ltb_ℤ (pos 0) retries then retries else default_retry_count;
  emitch = none;
  drops = 0;
  platform = new_platform_sync;
}

pub set_sync_interval : ℤ → TimeSync → TimeSync
set_sync_interval interval t = record t { interval = interval }

-- A ticker that was never made is a nil pointer.
pub stop : TimeSync → Outcome TimeSync
stop t = if t.ticking then done (record t { stopped = true }) else panic

-- The state that `Start` leaves; the goroutine's rounds are `on_tick` below. `NewTicker` panics at
-- an interval that is not positive.
pub start : Option (Chan Message) → TimeSync → Outcome TimeSync
start emitch t =
    let timed =
      if ltb_ℤ (pos 0) t.interval || ltb_ℤ t.interval (pos 0)
      then t
      else record t { interval = default_sync_interval } in
    (if timed.ticking then stop timed else done timed) >>= λ s.
    if ltb_ℤ (pos 0) s.interval
    then done (record s { ticking = true; stopped = false; emitch = emitch })
    else panic

-- `now`, with `clock` for `time.Now()`.
pub now : ℤ → TimeSync → ℤ
now clock t = if t.should_adjust then clock +ℤ t.delta else clock

-- 3 s and -500 ms
pub set_adjust_bool : TimeSync → TimeSync
set_adjust_bool t = record t {
  should_adjust = ltb_ℤ (pos 3_000_000_000) t.delta || ltb_ℤ t.delta (negsuc 499_999_999);
}

-- Nanoseconds as milliseconds: `UnixMilli`.
abbrev pub millis : ℤ → ℤ
millis (pos n) = pos (n / 1_000_000)
millis (negsuc n) = negsuc (n / 1_000_000)

pub emit_message : Message → TimeSync → TimeSync
emit_message x t =
    let (ch, n) = Emit.emit x t.emitch in record t { emitch = ch; drops = t.drops + n }

-- The context that the code merges `ctx` into, `ntp_server` and `offset_millis`, is not the one
-- that it makes the event from.
pub emit_event_with_ctx :
    (Fields → Result Fields) → ℤ → Option Fields → String → TimeSync → Option Error × TimeSync
emit_event_with_ctx new_struct clock ctx name t =
    elim (new_with_ctx new_struct ctx name (millis (now clock t))) [
      | err e ↦ (some e, t)
      | ok ev ↦ (none, emit_message (event_message ev) t)
    ]

pub emit_event : (Fields → Result Fields) → ℤ → String → TimeSync → Option Error × TimeSync
emit_event new_struct clock name t = emit_event_with_ctx new_struct clock none name t

abbrev pub tries : ℤ → ℕ
tries (pos n) = n
tries (negsuc n) = 0

module _ {W : Type 0} (query : String → W → Result ℤ × W) where
  -- At most `n` queries, up to the first that succeeds, and the last answer; `last` is the one
  -- before them.
  unfoldable pub query_loop : ℕ → String → Option (Result ℤ) → W → Option (Result ℤ) × W
  query_loop zero host last w = (last, w)
  query_loop (suc n) host last w =
      let r = query host w in
      elim r.0 [
        | ok offset ↦ (some (ok offset), r.1)
        | err e ↦ query_loop n host (some (err e)) r.1
      ]

  abbrev pub store : TimeSync → Result ℤ → W → Outcome (Option Error × TimeSync × W)
  store t (ok offset) v = done (none, record t { delta = offset }, v)
  store t (err e) v = done (some e, t, v)

  -- With no query at all the nil response is dereferenced.
  unfoldable pub query_ntp : TimeSync → W → Outcome (Option Error × TimeSync × W)
  query_ntp t w =
      let r = query_loop (tries t.retries) t.host none w in
      elim r.0 [ none ↦ panic | some answer ↦ store t answer r.1 ]

  -- The ticker is reset, which panics without a ticker or at an interval that is not positive.
  unfoldable pub sync_now : TimeSync → W → Outcome (Option Error × TimeSync × W)
  sync_now t w =
      if t.ticking then (if ltb_ℤ (pos 0) t.interval then query_ntp t w else panic) else panic

  -- What follows `SyncNow`: an error is only logged.
  abbrev pub cleared : Option Error → TimeSync → W → Outcome (TimeSync × W)
  cleared none t w = done (record t { platform = clear t.platform }, w)
  cleared (some e) t w = done (t, w)

  -- One timestamp in the loop of `TrackTimestamps`, on the default instance.
  unfoldable pub track : ℤ → ℤ → TimeSync → W → Outcome (TimeSync × W)
  track clock timestamp t w =
      let checked = register_and_check (now clock t) timestamp t.platform in
      let s = record t { platform = checked.1 } in
      if checked.0 then done (s, w) else (sync_now s w >>= λ r. cleared r.0 r.1 r.2)

  module _ (new_struct : Fields → Result Fields) (describe : Error → String) where
    -- One tick in the goroutine of `Start` after the query, which returned `failed`. The goroutine
    -- keeps the error of the last query.
    abbrev pub tick :
        ℤ → Option Error → Option Error → TimeSync → W → Outcome (Option Error × TimeSync × W)
    tick clock lasterr (some e) t w =
        let ctx = some (("error", Val.text (describe e)) ∷ []) in
        done (some e, (emit_event_with_ctx new_struct clock ctx "agent.clock.nosync" t).1, w)
    tick clock none none t w = done (none, set_adjust_bool t, w)
    tick clock (some e) none t w =
        done (none, set_adjust_bool (emit_event new_struct clock "agent.clock.sync" t).1, w)

    unfoldable pub on_tick : ℤ → Option Error → TimeSync → W → Outcome (Option Error × TimeSync × W)
    on_tick clock lasterr t w = query_ntp t w >>= λ r. tick clock lasterr r.0 r.1 r.2
