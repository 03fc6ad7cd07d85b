-- ===== src/Publisher.antt =====
-- internal/pkg/publisher/publisher.go: the platform exporter. It buffers the messages that the
-- watchers emit, and periodically an event that the agent is up. The construction of its transport
-- and its buffer (`NewPlatformPublisher`) is the composition of their constructors.
pub mod Errors
mod Tests
use Prim.Native.String.{String}
use metrika_agent.Prelude.{Bool, true, false, ◌≡◌, Option, none, some, List, [], ◌∷◌, if◌then◌else◌}
use metrika_agent.Prelude.Int.{ℤ}
use metrika_agent.Prelude.Outcome.{Outcome, done, ◌>>=◌}
use metrika_agent.Prelude.Error.{Error}
use metrika_agent.Model.{Val, Fields, Message}
use metrika_agent.Buf.Api.{Buffer}
use metrika_agent.Buf.Queue.{Item, Payload}
use metrika_agent.Buf.Ctrl.{Env, Controller, emit_event, buf_drain, buf_insert_and_early_drain}

-- `once` tells whether the startup event was sent; `protocol` and `version` stand for
-- `blockchain.Protocol()` and `global.Version`.
pub record Publisher (S W : Type 0) : Type 0 where
  pub buf_ctrl : Controller S W
  pub once : Bool
  pub last_err : Option Error
  pub protocol : String
  pub version : String

module _ (B : Buffer) {W : Type 0} (env : Env W) where
  -- The context of agent.up; `uptime` is the printed duration.
  abbrev pub agent_up_ctx : String → Publisher B.State W → Fields
  agent_up_ctx uptime p =
      ("uptime", Val.text uptime)
      ∷ ("protocol", Val.text p.protocol)
      ∷ ("agent_version", Val.text p.version)
      ∷ []

  -- The errors of the event itself are only logged.
  pub force_send_agent_up : String → Publisher B.State W → Outcome (Publisher B.State W)
  force_send_agent_up uptime p =
      let send : Outcome (Publisher B.State W) = do
        (_, c) ← emit_event B env (agent_up_ctx uptime p) "agent.up" p.buf_ctrl
        (e, c') ← buf_drain B env c
        let last : Option Error = elim e [ none ↦ p.last_err | some reason ↦ some reason ]
        done (record p { buf_ctrl = c'; once = true; last_err = last })
      in if p.once then done p else send

  -- One round of the ingestion goroutine of `Start`, on a tick.
  pub on_tick : String → Publisher B.State W → Outcome (Publisher B.State W)
  on_tick uptime p = do
    (_, c) ← emit_event B env (agent_up_ctx uptime p) "agent.up" p.buf_ctrl
    done (record p { buf_ctrl = c })

  -- The item of a message, at the time of `timesync.Now()` in milliseconds.
  abbrev pub message_item : ℤ → Message → Item
  message_item now m = record { priority = 0; timestamp = now; payload = Payload.message m }

  -- The first of a row of errors is kept.
  abbrev pub note_error : Option Error → Option Error → Option Error
  note_error none last = none
  note_error (some e) none = some e
  note_error (some e) (some first) = some first

  pub handle_message : Message → Publisher B.State W → Outcome (Publisher B.State W)
  handle_message m p = do
    let (now, w) = env.sync_now p.buf_ctrl.world
    (e, c) ←
        buf_insert_and_early_drain B env (message_item now m) (record (p.buf_ctrl) { world = w })
    done (record p { buf_ctrl = c; last_err = note_error e p.last_err })
