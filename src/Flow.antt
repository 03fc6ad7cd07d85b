-- ===== src/Flow.antt =====
-- flow/flow.go: the chain Flow; its state, and the methods that read and set it. Every method that
-- takes the mutex is one step. Logging is left out. Of `Flow` the run scheme and the systemd
-- service are kept as texts.
pub mod Events
pub mod Metadata
pub mod Configure
use Prim.Native.String.{String}
use text.Mathlib.Text.{◌==◌ as str_eq}
use metrika_agent.Prelude.{
  ℕ, Bool, true, false, not, ◌&&◌, Option, none, some, List, [], ◌∷◌, if◌then◌else◌,
}
use metrika_agent.Prelude.Outcome.{Outcome, done, panic, ◌>>=◌}
use metrika_agent.Prelude.Error.{Error, Result, ok, err, failure}
use metrika_agent.Emit.{Chan, offer}

pub record PefEndpoint : Type 0 where
  pub url : String
  pub filters : List String

pub record FlowConfig : Type 0 where
  pub config_path : String
  pub client : String
  pub container_regex : List String
  pub node_id : String
  pub pef_endpoints : List PefEndpoint
  pub env_file_path : String

-- What is read of a `types.Container`; of a port, its public number.
pub record Container : Type 0 where
  pub command : String
  pub image : String
  pub names : List String
  pub ports : List ℕ

-- The value of an update with the key PEFEndpointsKey, the only one that Flow makes.
pub record ConfigUpdate : Type 0 where
  pub val : List PefEndpoint

-- A nil map or pointer is `none`. `sub_state` is what is read of the systemd unit.
pub record Flow : Type 0 where
  pub config : FlowConfig
  pub render_needed : Bool
  pub container : Option Container
  pub sub_state : Option String
  pub env : Option (List (String × String))
  pub node_role : String
  pub network : String
  pub node_version : String
  pub run_scheme : String
  pub updates : Chan ConfigUpdate

-- `template` is the default template, as it is loaded: of `Default`, which writes it to the file
-- and loads that.
pub new_flow : Result FlowConfig → Bool → Result FlowConfig → Result Flow
new_flow loaded is_not_exist template =
    let made : FlowConfig → Result Flow = λ config. ok (record {
      config = config;
      render_needed = false;
      container = none;
      sub_state = none;
      env = none;
      node_role = "";
      network = "";
      node_version = "";
      run_scheme = "";
      updates = record { cap = 1; held = [] };
    }) in
    elim loaded [
      | ok config ↦ made config
      | err e ↦
          if is_not_exist
          then elim template [ ok config ↦ made config | err e' ↦ err e' ]
          else err e
    ]

abbrev pub empty_config : FlowConfig
empty_config = record {
  config_path = "";
  client = "";
  container_regex = [];
  node_id = "";
  pef_endpoints = [];
  env_file_path = "";
}

-- The configuration is overwritten also when there is an error.
pub reset_config : Result FlowConfig → Flow → Option Error × Flow
reset_config (ok config) d = (none, record d { config = config })
reset_config (err e) d = (some e, record d { config = empty_config })

-- `Fatal` ends the program: a panic.
abbrev pub first_is_set : List PefEndpoint → Outcome Bool
first_is_set [] = panic
first_is_set (first ∷ others) = done (not (str_eq first.url ""))

unfoldable pub is_pef_configured : FlowConfig → Outcome Bool
is_pef_configured config = first_is_set config.pef_endpoints

unfoldable pub is_configured : Flow → Outcome Bool
is_configured d =
    if not (str_eq d.config.client "") && not (str_eq d.config.node_id "")
    then is_pef_configured d.config
    else done false

pub validate_client : Flow → Option Error
validate_client d =
    if str_eq d.config.client "flow-go" then none else some (failure "invalid client specified")

unfoldable pub configure_client : Flow → Flow
configure_client d =
    if str_eq d.config.client ""
    then record d { config = record (d.config) { client = "flow-go" } }
    else d

unfoldable pub log_watch_enabled : Flow → Bool
log_watch_enabled d = str_eq d.node_role "consensus"

unfoldable pub push_config_update : ConfigUpdate → Flow → Flow
push_config_update upd d = record d { updates = (offer upd d.updates).0 }

pub set_run_scheme : String → Flow → Flow
set_run_scheme s d = record d { run_scheme = s }

pub set_docker_container : Option Container → Flow → Flow
set_docker_container c d = record d { container = c }

pub set_systemd_service : Option String → Flow → Flow
set_systemd_service s d = record d { sub_state = s }
