-- ===== src/Transport.antt =====
-- internal/pkg/transport/transport.go: the GRPC client of the platform. The GRPC library is the
-- record `Grpc`, over a state `W` of its own. Headers, logging and the protocol fields of the
-- platform message are left out: of a request the model keeps the messages.
pub mod Publish
mod Tests
use Prim.Native.String.{String}
use text.Mathlib.Text.{◌==◌ as str_eq}
use metrika_agent.Prelude.{
  ℕ, zero, suc, ◌+◌, Bool, true, false, ◌||◌, not, Option, none, some, List, [], ◌∷◌, ◌++◌, length,
  if◌then◌else◌,
}
use metrika_agent.Prelude.Int.{ℤ, pos, negsuc}
use metrika_agent.Prelude.Outcome.{Outcome, done, panic, ◌>>=◌}
use metrika_agent.Prelude.Error.{Error, failure, wrapped, Result, ok, err}
use metrika_agent.Model.{Message}
use metrika_agent.Global.{AgentState, set_publish_state, platform_state_up, platform_state_down}
use metrika_agent.Buf.Queue.{Item, Payload}

-- `dial` is `grpc.DialContext`, `transmit` the client's `Transmit`, which returns the platform's
-- timestamp, and `close` the connection's `Close`.
pub record Grpc (W : Type 0) : Type 0 where
  pub dial : W → Option Error × W
  pub transmit : List Message → W → Result ℤ × W
  pub close : W → Option Error × W

pub record PlatformGrpcConf : Type 0 where
  pub url : String
  pub uuid : String
  pub api_key : String
  pub connect_timeout : ℤ
  pub transmit_timeout : ℤ

-- `agent_service` and `grpc_conn`: whether the pointer is not nil. The last four fields are what the
-- client changes outside itself: the agent's state, the timestamps sent to `timesync.Refresh`, and
-- two counters.
pub record PlatformGrpc (W : Type 0) : Type 0 where
  pub conf : PlatformGrpcConf
  pub agent_service : Bool
  pub grpc_conn : Bool
  pub net : W
  pub agent : AgentState
  pub refreshed : List ℤ
  pub publish_errors : ℕ
  pub published : ℕ

abbrev default_timeout : ℤ → ℤ → ℤ
default_timeout (pos zero) d = d
default_timeout (pos (suc n)) d = pos (suc n)
default_timeout (negsuc n) d = negsuc n

module _ {W : Type 0} (grpc : Grpc W) where
  -- The service may be given by a test; otherwise it is nil until the first `Publish`.
  pub new_platform_grpc : PlatformGrpcConf → Bool → W → AgentState → Result (PlatformGrpc W)
  new_platform_grpc conf service w agent =
      if str_eq conf.uuid "" || str_eq conf.api_key "" || str_eq conf.url ""
      then err (failure "invalid platform configuration (check uuid, api key or url)")
      else ok (record {
        conf = record conf {
          connect_timeout = default_timeout conf.connect_timeout (pos 3_000_000_000);
          transmit_timeout = default_timeout conf.transmit_timeout (pos 5_000_000_000);
        };
        agent_service = service;
        grpc_conn = false;
        net = w;
        agent = agent;
        refreshed = [];
        publish_errors = 0;
        published = 0;
      })

  pub connect : PlatformGrpc W → Option Error × PlatformGrpc W
  connect t =
      let (e, w) = grpc.dial t.net in
      elim e [
        | some reason ↦ (
          some (wrapped (failure "grpc connect error") reason),
          record t { grpc_conn = false; net = w },
        )
        | none ↦ (none, record t { agent_service = true; grpc_conn = true; net = w })
      ]

  -- `Close` on a nil connection is a nil dereference. Its error is only logged.
  pub grpc_error_handler : PlatformGrpc W → Outcome (PlatformGrpc W)
  grpc_error_handler t =
      if t.grpc_conn
      then done (record t { agent_service = false; net = (grpc.close t.net).1 })
      else panic

  -- The request itself, and the repair of the client after an error.
  pub transmit : List Message → PlatformGrpc W → Outcome (Result ℤ × PlatformGrpc W)
  transmit batch t =
      let (r, w) = grpc.transmit batch t.net in
      let t1 = record t { net = w } in
      elim r [ ok ts ↦ done (ok ts, t1) | err e ↦ grpc_error_handler t1 >>= λ t2. done (err e, t2) ]

  pub publish : List Message → PlatformGrpc W → Outcome (Result ℤ × PlatformGrpc W)
  publish batch t =
      let (e, t1) = connect t in
      let connected : Outcome (Result ℤ × PlatformGrpc W) = elim e [
        | some reason ↦ done (err reason, t1)
        | none ↦ transmit batch t1
      ] in
      if t.agent_service then transmit batch t else connected

  -- The messages of a batch; an item that holds anything else is skipped.
  pub messages : List Item → List Message
  messages [] = []
  messages (x ∷ xs) = elim x.payload [
    | Payload.message m ↦ m ∷ messages xs
    | Payload.other ↦ messages xs
  ]

  abbrev pub refresh : ℤ → List ℤ → List ℤ
  refresh (pos zero) sent = sent
  refresh (pos (suc n)) sent = sent ++ pos (suc n) ∷ []
  refresh (negsuc n) sent = sent ++ negsuc n ∷ []

  -- The goroutine of `PublishFunc`, with the error that it sends to the channel.
  pub publish_job : List Message → PlatformGrpc W → Outcome (Option Error × PlatformGrpc W)
  publish_job batch t = publish batch t >>= λ s. elim s.0 [
    | err e ↦ done (
      some e,
      record (s.1) {
        publish_errors = s.1.publish_errors + 1;
        agent = set_publish_state platform_state_down s.1.agent;
      },
    )
    | ok ts ↦ done (
      none,
      record (s.1) {
        refreshed = refresh ts s.1.refreshed;
        published = s.1.published + length batch;
        agent = set_publish_state platform_state_up s.1.agent;
      },
    )
  ]

  -- `PublishFunc`. With `in_time` the goroutine ends before the timer of `TransmitTimeout`; without,
  -- the call returns an error and the goroutine is still to run: it is the last component.
  pub publish_func :
      Bool
      → List Item
      → PlatformGrpc W
      → Outcome (Option Error × PlatformGrpc W × List (List Message))
  publish_func in_time b t =
      let batch = messages b in
      let finished : Outcome (Option Error × PlatformGrpc W × List (List Message)) = do
        (e, s) ← publish_job batch t
        done (e, s, [])
      in if in_time
        then finished
        else done (some (failure "publish goroutine timeout"), t, batch ∷ [])
