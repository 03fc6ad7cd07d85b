-- ===== src/Watch/Container.antt =====
-- internal/pkg/watch/docker_container.go: the watch of the node's container. Discovery, docker and the
-- chain are the record `Node`, over a state `W`; the goroutine of `StartUnsafe` is taken round by
-- round, by what its `select` receives. The timers are left out but for their ticks.
pub mod Recovered
mod Tests
use Prim.Native.String.{String}
use text.Mathlib.Text.{◌==◌ as str_eq}
use metrika_agent.Prelude.{
  ℕ, zero, suc, Bool, true, false, Option, none, some, List, [], ◌∷◌, ◌++◌, ◌==◌, ◌||◌,
  if◌then◌else◌,
}
use metrika_agent.Prelude.Int.{ℤ, pos, negsuc}
use metrika_agent.Prelude.Outcome.{Outcome, done, out_of_fuel, ◌>>=◌}
use metrika_agent.Prelude.Error.{Error, Result, ok, err, failure}
use metrika_agent.Model.{Fields}
use metrika_agent.Global.{
  AgentState, discovery_state, set_discovery_state, node_discovery_error, node_discovery_success,
}
use metrika_agent.Watch.{Watch, Chain, emit_agent_node_event}

-- `detect` gives the names of the container, or nil; `subscribe` is `DockerEvents`; `wait` is the
-- pause before a try (none before the first); `forget` is `SetDockerContainer(nil)`.
pub record Node (W : Type 0) : Type 0 where
  pub detect : W → Result (Option (List String)) × W
  pub subscribe : String → W → Option Error × W
  pub open_logs : String → W → Option Error × W
  pub reconfigure : List String → W → Option Error × W
  pub wait : W → W
  pub forget : W → W
  pub stop_closed : W → Bool
  pub chain : W → Chain
  pub sync_now : W → ℤ
  pub new_struct : Fields → Result Fields

pub record ContainerWatchConf : Type 0 where
  pub retry_intv : ℤ
  pub node_up_event_freq : ℤ
  pub node_down_event_freq : ℤ
  pub has_discoverer : Bool

abbrev pub or_default : ℤ → ℤ → ℤ
or_default (pos zero) d = d
or_default (pos (suc n)) d = pos (suc n)
or_default (negsuc n) d = negsuc n

-- The constructor, by the configuration that it settles on; `retry` is `defaultRetryIntv`.
unfoldable pub new_container_watch : ℤ → ContainerWatchConf → Result ContainerWatchConf
new_container_watch retry conf =
    if conf.has_discoverer
    then ok (record conf {
      node_down_event_freq = or_default conf.node_down_event_freq (pos 5_000_000_000);
      node_up_event_freq = or_default conf.node_up_event_freq (pos 30_000_000_000);
      retry_intv = or_default conf.retry_intv retry;
    })
    else err (failure "container watch configuration error, missing discoverer?")

-- `told` is the history of the events emitted, by name.
pub record ContainerWatch (W : Type 0) : Type 0 where
  pub watch : Watch
  pub agent : AgentState
  pub told : List String
  pub returned : Bool
  pub node : W

pub data Input : Type 0 where
  message : String → Input
  up_tick down_tick stream_cancelled stream_error stop : Input

-- A status that is none of these is an error.
unfoldable pub parse_docker_event : String → Result String
parse_docker_event status =
    if str_eq status "start"
    then ok "agent.node.up"
    else if str_eq status "restart"
    then ok "agent.node.restart"
    else if str_eq status "die" || str_eq status "stop" || str_eq status "kill"
    then ok "agent.node.down"
    else err (failure "unknown docker event status")

module _ {W : Type 0} (env : Node W) where
  -- A call, and the next one if it returned no error.
  abbrev pub and_then : (Option Error × W) → (W → Option Error × W) → Option Error × W
  and_then (none, w) next = next w
  and_then (some e, w) next = (some e, w)

  abbrev pub repair_at : Result (Option (List String)) → W → Option Error × W
  repair_at (err e) w = (some e, w)
  repair_at (ok none) w =
      (some (failure "got nil container or container with empty names, without an error"), w)
  repair_at (ok (some [])) w =
      (some (failure "got nil container or container with empty names, without an error"), w)
  repair_at (ok (some (name ∷ names))) w =
      and_then (env.subscribe name w)
        (λ v. and_then (env.open_logs name v) (λ u. env.reconfigure (name ∷ names) u))

  unfoldable pub repair_event_stream : W → Option Error × W
  repair_event_stream w = let r = env.detect w in repair_at r.0 r.1

  abbrev pub tell : String → ContainerWatch W → ContainerWatch W
  tell name s = record s {
    watch =
        emit_agent_node_event env.new_struct (env.chain s.node) (env.sync_now s.node) name s.watch;
    told = s.told ++ name ∷ [];
  }

  abbrev pub discovered : ℕ → ContainerWatch W → ContainerWatch W
  discovered st s = record s { agent = set_discovery_state st s.agent }

  -- `newEventStream`: tries, until one succeeds or the stop channel is closed.
  unfoldable pub new_event_stream : ℕ → ContainerWatch W → Outcome (ContainerWatch W)
  new_event_stream zero s = out_of_fuel
  new_event_stream (suc fuel) s =
      let w = env.wait s.node in
      let r = repair_event_stream w in
      let failed =
        tell "agent.node.down"
          (discovered node_discovery_error (record s { node = env.forget r.1 })) in
      let again = new_event_stream fuel failed in
      let tried : Outcome (ContainerWatch W) = elim r.0 [
        | some e ↦ again
        | none ↦ done (tell "agent.node.up" (record s { node = r.1 }))
      ] in
      if env.stop_closed w then done (record s { node = w }) else tried

  -- The stream is made, and the discovery counts as a success whatever has ended the tries.
  unfoldable pub recover : ℕ → ContainerWatch W → Outcome (ContainerWatch W)
  recover fuel s = do r ← new_event_stream fuel s; done (discovered node_discovery_success r)

  -- What is done for the name of an event.
  abbrev pub discovery_of : String → ContainerWatch W → ContainerWatch W
  discovery_of name s =
      if str_eq name "agent.node.up" || str_eq name "agent.node.restart"
      then discovered node_discovery_success s
      else if str_eq name "agent.node.down"
      then discovered node_discovery_error s
      else s

  -- The `select`.
  unfoldable pub on_input : Input → ContainerWatch W → ContainerWatch W
  on_input (message status) s = elim (parse_docker_event status) [
    | err e ↦ s
    | ok name ↦ tell name (discovery_of name s)
  ]
  on_input up_tick s =
      if discovery_state s.agent == node_discovery_success then tell "agent.node.up" s else s
  on_input down_tick s =
      if discovery_state s.agent == node_discovery_error then tell "agent.node.down" s else s
  on_input stream_cancelled s = record s { returned = true }
  on_input stream_error s = discovered node_discovery_error s
  on_input stop s = record s { returned = true }

  -- The head of a round: the stream is made anew if the node is not discovered.
  unfoldable pub head : ℕ → ContainerWatch W → Outcome (ContainerWatch W)
  head fuel s = if discovery_state s.agent == node_discovery_error then recover fuel s else done s

  unfoldable pub round : ℕ → Input → ContainerWatch W → Outcome (ContainerWatch W)
  round fuel input s = do r ← head fuel s; done (on_input input r)

  unfoldable pub rounds : ℕ → List Input → ContainerWatch W → Outcome (ContainerWatch W)
  rounds fuel [] s = done s
  rounds fuel (i ∷ is) s = round fuel i s >>= λ r. if r.returned then done r else rounds fuel is r

  -- `StartUnsafe` and its goroutine, as far as the inputs go.
  unfoldable pub start_container : ℕ → List Input → ContainerWatch W → Outcome (ContainerWatch W)
  start_container fuel inputs s =
      recover fuel (record s { watch = record (s.watch) { running = true } }) >>= λ r.
      rounds fuel inputs r
