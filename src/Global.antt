-- ===== src/Global.antt =====
-- internal/pkg/global/state.go: the agent's runtime state. The fields are read and written
-- atomically, so each operation is one step.
pub mod Updates
use metrika_agent.Prelude.{ℕ}

-- The constants share one `iota`.
abbrev pub platform_state_unknown : ℕ
platform_state_unknown = 0

abbrev pub platform_state_up : ℕ
platform_state_up = 1

abbrev pub platform_state_down : ℕ
platform_state_down = 2

abbrev pub node_discovery_error : ℕ
node_discovery_error = 3

abbrev pub node_discovery_success : ℕ
node_discovery_success = 4

pub record AgentState : Type 0 where
  pub plat_state : ℕ
  pub disc_state : ℕ

abbrev pub publish_state : AgentState → ℕ
publish_state a = a.plat_state

abbrev pub set_publish_state : ℕ → AgentState → AgentState
set_publish_state st a = record a { plat_state = st }

abbrev pub discovery_state : AgentState → ℕ
discovery_state a = a.disc_state

abbrev pub set_discovery_state : ℕ → AgentState → AgentState
set_discovery_state st a = record a { disc_state = st }

abbrev pub reset : AgentState → AgentState
reset a = record { plat_state = platform_state_up; disc_state = node_discovery_error }
