-- ===== src/Watch.antt =====
-- internal/pkg/watch/watch.go: the base of every watcher. Methods that take the mutex are one step.
-- Logging is left out; `parseJSON` is `json.Unmarshal`, a parameter where it is used.
pub mod Life
pub mod Registry
pub mod Families
pub mod Container
pub mod DockerLogs
pub mod Influx
pub mod Systemd
pub mod Journal
pub mod Http
mod Tests
use Prim.Native.String.{String}
use text.Mathlib.Text.{◌==◌ as str_eq}
use metrika_agent.Prelude.{
  ℕ, ◌+◌, Bool, true, false, Option, none, some, List, [], ◌∷◌, ◌++◌, if◌then◌else◌,
}
use metrika_agent.Prelude.Int.{ℤ}
use metrika_agent.Prelude.Outcome.{Outcome, done, panic, ◌>>=◌}
use metrika_agent.Prelude.Error.{Result, ok, err}
use metrika_agent.Model.{Val, Fields, Event, Body, Message}
use metrika_agent.Model.Events.{new_with_ctx}
use metrika_agent.Emit.{Chan, offer, event_message}

-- `stop_closed`: `StopKey` is closed; `once`: `startOnce` has been used; `drops`: the counter of
-- messages that a full channel has refused.
pub record Watch : Type 0 where
  pub running : Bool
  pub stop_closed : Bool
  pub once : Bool
  pub listeners : List (Chan Message)
  pub drops : ℕ

pub new_watch : Watch
new_watch = record { running = false; stop_closed = false; once = false; listeners = []; drops = 0 }

pub start_unsafe : Watch → Watch
start_unsafe w = record w { running = true }

-- `Start`: `StartUnsafe` at the first call only.
pub start : Watch → Watch
start w = if w.once then w else record (start_unsafe w) { once = true }

-- Closing a closed channel panics.
pub stop : Watch → Outcome Watch
stop w =
    let stopped = record w { running = false; stop_closed = true } in
    if w.running then (if w.stop_closed then panic else done stopped) else done w

pub subscribe : Chan Message → Watch → Watch
subscribe c w = record w { listeners = w.listeners ++ c ∷ [] }

-- The loop of `Emit`.
unfoldable pub emit_all : {A : Type 0} → A → List (Chan A) → List (Chan A) × ℕ
emit_all x [] = ([], 0)
emit_all x (c ∷ chans) =
    let (d, dropped) = offer x c in let (rest, n) = emit_all x chans in (d ∷ rest, dropped + n)

pub emit : Message → Watch → Watch
emit x w =
    let (chans, n) = emit_all x w.listeners in record w { listeners = chans; drops = w.drops + n }

-- What a chain tells of its node.
pub record Chain : Type 0 where
  pub node_id : String
  pub node_role : String
  pub node_version : String
  pub network : String

-- A key is set only if its value is not empty.
abbrev pub set_if_any : String → String → Fields → Fields
set_if_any key value ctx = if str_eq value "" then ctx else ctx ++ (key, Val.text value) ∷ []

pub node_ctx : Chain → Fields
node_ctx c = set_if_any "network" c.network (
    set_if_any "node_version" c.node_version
      (set_if_any "node_type" c.node_role (set_if_any "node_id" c.node_id [])))

-- An event that cannot be made is only logged. `now` is in milliseconds.
pub emit_agent_node_event : (Fields → Result Fields) → Chain → ℤ → String → Watch → Watch
emit_agent_node_event new_struct chain now name w =
    elim (new_with_ctx new_struct (some (node_ctx chain)) name now) [
      | err e ↦ w
      | ok ev ↦ emit (record { name = name; value = Body.event ev }) w
    ]

-- The loop of `emitNodeLogEvents` over a map of constructors in some order; `clock` is
-- `timesync.Now`, read once for each. A nil event is `none`.
module _ {T : Type 0} (clock : T → ℤ × T) where
  unfoldable pub emit_node_log_events :
      List (String × (Fields → ℤ → Result (Option Event))) → Fields → Watch → T → Watch × T
  emit_node_log_events [] body w t = (w, t)
  emit_node_log_events (e ∷ evs) body w t =
      let (now, t') = clock t in
      elim (e.1 body now) [
        | err reason ↦ emit_node_log_events evs body w t'
        | ok none ↦ emit_node_log_events evs body w t'
        | ok (some ev) ↦ emit_node_log_events evs body (emit (event_message ev) w) t'
      ]
