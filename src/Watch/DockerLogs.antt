-- ===== src/Watch/DockerLogs.antt =====
-- internal/pkg/watch/docker_logs.go: the watch of the log of the node's container. Docker's stream,
-- the chain and the JSON parser are the record `LogNode`, over a state `W`; `T` is the state of the
-- clock. The goroutine of `StartUnsafe` is taken round by round.
pub mod Framed
pub mod Sized
mod Tests
use Prim.Native.String.{String}
use text.Mathlib.Text.{◌==◌ as str_eq}
use metrika_agent.Prelude.{
  ℕ, zero, suc, ◌+◌, ◌*◌, ◌^◌, Bool, true, false, not, ◌||◌, Option, none, some, List, [], ◌∷◌,
  length, ltb, if◌then◌else◌,
}
use metrika_agent.Prelude.Int.{ℤ, pos}
use metrika_agent.Prelude.Outcome.{Outcome, done, out_of_fuel, ◌>>=◌}
use metrika_agent.Prelude.Error.{Error, Result, ok, err}
use metrika_agent.Model.{Fields, Event}
use metrika_agent.Watch.{
  Watch, Chain, start_unsafe, stop, emit_agent_node_event, emit_node_log_events,
}
use metrika_agent.Watch.Container.{or_default}

abbrev pub max_line_bytes : ℕ
max_line_bytes = 1_048_576

-- What a `Read` gives: bytes, at most as many as were asked for; an end of the stream (`io.EOF` or
-- `io.ErrUnexpectedEOF`); any other error.
pub data Read : Type 0 where
  bytes : List ℕ → Read
  at_end : Read
  broken : Read

-- `read` and `close` are methods of the stream (`close` also cancels its context); `repair` is
-- `repairLogStream`, by the error of `DockerLogs`; `wait` is a sleep; `stop_closed`: whether another
-- goroutine has called `Stop`.
pub record LogNode (W T : Type 0) : Type 0 where
  pub read : ℕ → W → Read × W
  pub close : W → W
  pub repair : W → Option Error × W
  pub wait : W → W
  pub stop_closed : W → Bool
  pub log_watch_enabled : W → Bool
  pub chain : W → Chain
  pub clock : T → ℤ × T
  pub new_struct : Fields → Result Fields
  pub parse_json : List ℕ → Result Fields

pub record DockerLogWatchConf : Type 0 where
  pub container_name : String
  pub events : List (String × (Fields → ℤ → Result (Option Event)))
  pub retry_intv : ℤ
  pub pending_start_interval : ℤ

-- The configuration that the constructor settles on.
pub new_docker_log_watch : DockerLogWatchConf → DockerLogWatchConf
new_docker_log_watch conf = record conf {
  retry_intv = or_default conf.retry_intv (pos 3_000_000_000);
  pending_start_interval = or_default conf.pending_start_interval (pos 1_000_000_000);
}

-- `missing`: `lastErr` is not nil; of the buffer its length and capacity; `returned`: the goroutine
-- has returned.
pub record LogWatch (W T : Type 0) : Type 0 where
  pub watch : Watch
  pub missing : Bool
  pub buf_len : ℕ
  pub buf_cap : ℕ
  pub returned : Bool
  pub node : W
  pub time : T

-- `binary.BigEndian.Uint32(hdr[4:])`.
unfoldable pub count_of : List ℕ → ℕ
count_of (_ ∷ _ ∷ _ ∷ _ ∷ a ∷ b ∷ c ∷ d ∷ _) = a * 16_777_216 + b * 65_536 + c * 256 + d
count_of _ = 0

module _ {W T : Type 0} (env : LogNode W T) (conf : DockerLogWatchConf) where
  unfoldable pub resize : ℕ → LogWatch W T → LogWatch W T
  resize count s =
      if ltb s.buf_cap count
      then (if ltb count max_line_bytes then record s { buf_len = count; buf_cap = count } else s)
      else record s { buf_len = count }

  abbrev pub tell : String → LogWatch W T → LogWatch W T
  tell name s =
      let (now, t) = env.clock s.time in
      record s {
        watch = emit_agent_node_event env.new_struct (env.chain s.node) now name s.watch;
        time = t;
      }

  -- The retries of `newEventStream`, with whether it was stopped.
  unfoldable pub tries : ℕ → LogWatch W T → Outcome (Bool × LogWatch W T)
  tries zero s = out_of_fuel
  tries (suc fuel) s =
      let r = env.repair (env.wait s.node) in
      let again = tries fuel (record s { node = r.1 }) in
      let tried : Outcome (Bool × LogWatch W T) = elim r.0 [
        | some e ↦ again
        | none ↦ done (false, record s { node = r.1 })
      ] in
      if s.watch.stop_closed || env.stop_closed s.node then done (true, s) else tried

  unfoldable pub new_event_stream : ℕ → LogWatch W T → Outcome (Bool × LogWatch W T)
  new_event_stream fuel s = if env.log_watch_enabled s.node then tries fuel s else done (true, s)

  -- `w.Stop()`: nothing, if another goroutine has called it.
  unfoldable pub stop_log : LogWatch W T → Outcome (LogWatch W T)
  stop_log s =
      if env.stop_closed s.node
      then done s
      else (stop s.watch >>= λ w. done (record s { watch = w }))

  abbrev pub after_stream : Bool × LogWatch W T → Outcome (LogWatch W T)
  after_stream (false, s) = done s
  after_stream (true, s) = stop_log s >>= λ r. done (record r { returned = true })

  -- The end of the stream.
  unfoldable pub lost : ℕ → LogWatch W T → Outcome (LogWatch W T)
  lost fuel s =
      let told = tell "agent.node.log.missing" s in
      new_event_stream fuel (record told { node = env.close told.node }) >>= after_stream

  -- The log is found again.
  abbrev pub found : LogWatch W T → LogWatch W T
  found s = if s.missing then record (tell "agent.node.log.found" s) { missing = false } else s

  -- The events of a line.
  abbrev pub emit_line : Result Fields → LogWatch W T → LogWatch W T
  emit_line (err e) s = s
  emit_line (ok body) s =
      let (w, t) = emit_node_log_events env.clock conf.events body s.watch s.time in
      record s { watch = w; time = t }

  abbrev pub on_data : ℕ → LogWatch W T → Read × W → Outcome (LogWatch W T)
  on_data fuel s (broken, w) = done (record s { missing = true; node = w })
  on_data fuel s (at_end, w) = lost fuel (record s { missing = true; node = w })
  on_data fuel s (bytes line, w) =
      if ltb (length line) s.buf_len
      then done (record s { node = w })
      else done (emit_line (env.parse_json line) (found (record s { node = w })))

  -- The read of the data, after the header.
  unfoldable pub read_data : ℕ → LogWatch W T → Outcome (LogWatch W T)
  read_data fuel s = on_data fuel s (env.read s.buf_len s.node)

  abbrev pub on_header : ℕ → LogWatch W T → Read × W → Outcome (LogWatch W T)
  on_header fuel s (broken, w) = done (record s { missing = true; node = w })
  on_header fuel s (at_end, w) = lost fuel (record s { missing = true; node = env.wait w })
  on_header fuel s (bytes hdr, w) =
      if ltb (length hdr) 8
      then done (record s { node = w })
      else read_data fuel (resize (count_of hdr) (record s { node = w }))

  unfoldable pub log_round : ℕ → LogWatch W T → Outcome (LogWatch W T)
  log_round fuel s =
      let read_on = on_header fuel s (env.read 8 s.node) in
      if s.watch.stop_closed || env.stop_closed s.node
      then done (record s { returned = true; node = env.close s.node })
      else read_on

  -- So many rounds of the goroutine, or fewer if it returns.
  unfoldable pub log_rounds : ℕ → ℕ → LogWatch W T → Outcome (LogWatch W T)
  log_rounds fuel zero s = done s
  log_rounds fuel (suc n) s =
      log_round fuel s >>= λ r. if r.returned then done r else log_rounds fuel n r

  abbrev pub goroutine : ℕ → ℕ → LogWatch W T → Outcome (LogWatch W T)
  goroutine fuel n s = if s.returned then done s else log_rounds fuel n s

  -- `StartUnsafe`, and so many rounds of its goroutine.
  unfoldable pub start_logs : ℕ → ℕ → Watch → W → T → Outcome (LogWatch W T)
  start_logs fuel n watch w t =
      let s : LogWatch W T = record {
        watch = start_unsafe watch;
        missing = true;
        buf_len = 1024;
        buf_cap = 1024;
        returned = false;
        node = w;
        time = t;
      } in
      if str_eq conf.container_name ""
      then done (record s { returned = true })
      else (new_event_stream fuel s >>= after_stream >>= goroutine fuel n)

-- What `PendingStart` waits for. A tick carries what the chain says then: the node's role, and
-- whether its log is to be watched.
pub data Wake : Type 0 where
  stop_key : Wake
  tick : String → Bool → Wake

-- How it ends; `registers`: with the call of `RegisterAndStart`.
pub data Pending : Type 0 where
  waiting stopped registers disabled : Pending

pub pending_start : List Wake → Pending
pending_start [] = waiting
pending_start (stop_key ∷ wakes) = stopped
pending_start (tick role enabled ∷ wakes) =
    let rest = pending_start wakes in
    if str_eq role "" then rest else if enabled then registers else disabled
