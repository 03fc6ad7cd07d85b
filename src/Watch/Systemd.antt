-- ===== src/Watch/Systemd.antt =====
-- internal/pkg/watch/systemd_service.go: the watch of the node's systemd service. Discovery, the
-- journal, the chain and the clock are the record `SystemdUnit`, over a state `W`; the goroutine of
-- `StartUnsafe` is taken input by input of its `select`.
pub mod Spaced
mod Tests
use Prim.Native.String.{String}
use text.Mathlib.Text.{◌==◌ as str_eq}
use metrika_agent.Prelude.{
  ℕ, zero, suc, ◌==◌, Bool, true, false, Option, none, some, List, [], ◌∷◌, ◌++◌, if◌then◌else◌,
}
use metrika_agent.Prelude.Int.{ℤ, pos, ltb_ℤ, ◌-ℤ◌}
use metrika_agent.Prelude.Error.{Error, Result, ok, err, failure}
use metrika_agent.Model.{Fields}
use metrika_agent.Global.{
  AgentState, discovery_state, set_discovery_state, node_discovery_error, node_discovery_success,
}
use metrika_agent.Watch.{Watch, Chain, start_unsafe, emit_agent_node_event}
use metrika_agent.Watch.Container.{or_default}

-- `detect` gives the state of the unit (none for a nil unit). `open_journal` is JournalReaderFunc,
-- `reconfigure` is ReconfigureBySystemdUnit with the reader, and closes it; `clock` is `time.Now`,
-- `sync_now` is the agent's clock, in milliseconds.
pub record SystemdUnit (W : Type 0) : Type 0 where
  pub detect : W → Result (Option String) × W
  pub open_journal : W → Option Error × W
  pub reconfigure : W → Option Error × W
  pub clock : W → ℤ × W
  pub sync_now : W → ℤ
  pub chain : W → Chain
  pub close_bus : W → W
  pub new_struct : Fields → Result Fields

pub record SystemdServiceWatchConf : Type 0 where
  pub status_intv : ℤ
  pub node_up_event_freq : ℤ
  pub node_down_event_freq : ℤ
  pub has_discoverer : Bool

unfoldable pub new_systemd_service_watch : SystemdServiceWatchConf → Result SystemdServiceWatchConf
new_systemd_service_watch conf =
    if conf.has_discoverer
    then ok (record conf {
      node_down_event_freq = or_default conf.node_down_event_freq (pos 5_000_000_000);
      node_up_event_freq = or_default conf.node_up_event_freq (pos 30_000_000_000);
      status_intv = or_default conf.status_intv (pos 5_000_000_000);
    })
    else err (failure "missing required arguments (regex,discoverer), nothing to watch")

-- `last_down` and `last_up` are the times of the last events: none for the zero time, which is
-- longer ago than any frequency. `downs` and `ups` are the history of these times, the last first.
pub record ServiceWatch (W : Type 0) : Type 0 where
  pub watch : Watch
  pub agent : AgentState
  pub last_down : Option ℤ
  pub last_up : Option ℤ
  pub downs : List ℤ
  pub ups : List ℤ
  pub returned : Bool
  pub unit : W

pub data Input : Type 0 where
  stop status_tick : Input

-- `time.Since(last) > freq`, at the time `now`.
abbrev pub is_due_at : ℤ → Option ℤ → ℤ → Bool
is_due_at now none freq = true
is_due_at now (some last) freq = ltb_ℤ freq (now -ℤ last)

module _ {W : Type 0} (env : SystemdUnit W) (conf : SystemdServiceWatchConf) where
  abbrev pub tell : String → ServiceWatch W → ServiceWatch W
  tell name s = record s {
    watch =
        emit_agent_node_event env.new_struct (env.chain s.unit) (env.sync_now s.unit) name s.watch;
  }

  abbrev pub down_at : ℤ → ServiceWatch W → ServiceWatch W
  down_at now s = record s { last_down = some now; downs = now ∷ s.downs }

  abbrev pub up_at : ℤ → ServiceWatch W → ServiceWatch W
  up_at now s = record s { last_up = some now; ups = now ∷ s.ups }

  -- The clock is read for the test, and again for the time of the event.
  unfoldable pub emit_node_down : ServiceWatch W → ServiceWatch W
  emit_node_down s =
      let (now, w) = env.clock s.unit in
      let (later, v) = env.clock w in
      if is_due_at now s.last_down conf.node_down_event_freq
      then down_at later (record (tell "agent.node.down" (record s { unit = w })) { unit = v })
      else record s { unit = w }

  unfoldable pub emit_node_up : ServiceWatch W → ServiceWatch W
  emit_node_up s =
      let (now, w) = env.clock s.unit in
      let (later, v) = env.clock w in
      if is_due_at now s.last_up conf.node_up_event_freq
      then up_at later (record (tell "agent.node.up" (record s { unit = w })) { unit = v })
      else record s { unit = w }

  abbrev pub discovered : ℕ → ServiceWatch W → ServiceWatch W
  discovered st s = record s { agent = set_discovery_state st s.agent }

  abbrev pub is_down : ServiceWatch W → ServiceWatch W
  is_down s = discovered node_discovery_error (emit_node_down s)

  abbrev pub is_up : ServiceWatch W → ServiceWatch W
  is_up s = discovered node_discovery_success (emit_node_up s)

  -- After a reconfiguration: an error leaves the discovery as it was.
  abbrev pub reconfigured : Option Error × W → ServiceWatch W → ServiceWatch W
  reconfigured (some e, w) s = record s { unit = w }
  reconfigured (none, w) s = is_up (record s { unit = w })

  abbrev pub journal_opened : Option Error × W → ServiceWatch W → ServiceWatch W
  journal_opened (some e, w) s = record s { unit = w }
  journal_opened (none, w) s = reconfigured (env.reconfigure w) s

  abbrev pub on_running : ServiceWatch W → ServiceWatch W
  on_running s =
      if discovery_state s.agent == node_discovery_error
      then journal_opened (env.open_journal s.unit) s
      else is_up s

  abbrev pub on_detected : Result (Option String) × W → ServiceWatch W → ServiceWatch W
  on_detected (err e, w) s = is_down (record s { unit = w })
  on_detected (ok none, w) s = is_down (record s { unit = w })
  on_detected (ok (some sub_state), w) s =
      if str_eq sub_state "running"
      then on_running (record s { unit = w })
      else is_down (record s { unit = w })

  unfoldable pub on_input : Input → ServiceWatch W → ServiceWatch W
  on_input stop s = record s { returned = true; unit = env.close_bus s.unit }
  on_input status_tick s = on_detected (env.detect s.unit) s

  unfoldable pub inputs : List Input → ServiceWatch W → ServiceWatch W
  inputs [] s = s
  inputs (i ∷ is) s = let r = on_input i s in if r.returned then r else inputs is r

  -- `StartUnsafe`, and its goroutine as far as the inputs go.
  unfoldable pub start_service : List Input → Watch → AgentState → W → ServiceWatch W
  start_service is watch agent w = inputs is (record {
    watch = start_unsafe watch;
    agent = agent;
    last_down = none;
    last_up = none;
    downs = [];
    ups = [];
    returned = false;
    unit = w;
  })
