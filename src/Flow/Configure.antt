-- ===== src/Flow/Configure.antt =====
-- flow/flow.go: the discovery of the node's configuration. The files, the HTTP client and the log
-- are the record `Host`, over a state `W`. A list of errors is `utils.AutoConfigError`: [] is nil.
pub mod Ids
pub mod Found
pub mod Done
mod Tests
use Prim.Native.String.{String}
use Prim.Native.String.{◌++◌ as ◌<>◌}
use text.Mathlib.Text.{◌==◌ as str_eq, starts_with}
use metrika_agent.Prelude.{
  ℕ, zero, suc, leb, ◌==◌, Bool, true, false, not, ◌&&◌, Option, none, some, List, [], ◌∷◌, ◌++◌,
  if◌then◌else◌,
}
use metrika_agent.Prelude.Outcome.{Outcome, done, panic, ◌>>=◌}
use metrika_agent.Prelude.Error.{Error, Result, ok, err, failure}
use metrika_agent.Prelude.Text.{split, after, itoa}
use metrika_agent.Flow.{
  Flow, FlowConfig, PefEndpoint, Container, is_pef_configured, configure_client, push_config_update,
}
use metrika_agent.Flow.Metadata.{LogLines, Ended, update_from_logs}

-- `env_file` is `GetEnvFromFile`; `order` is the order in which a map with these keys is walked;
-- `get_status` is a GET, with the status of the answer; `render` writes the configuration's file.
pub record Host (W : Type 0) : Type 0 where
  pub env_file : String → Result (List (String × String))
  pub order : List ℕ → List ℕ
  pub get_status : String → W → Option ℕ × W
  pub render : FlowConfig → W → W
  pub log : LogLines W

abbrev pub lookup : String → List (String × String) → Option String
lookup key [] = none
lookup key (entry ∷ entries) = if str_eq entry.0 key then some entry.1 else lookup key entries

abbrev pub loaded_env : Result (List (String × String)) → Flow → Flow
loaded_env (ok env) d = record d { env = some env }
loaded_env (err e) d = d

abbrev pub set_node_id : String → Flow → Flow
set_node_id id d = record d { config = record (d.config) { node_id = id }; render_needed = true }

abbrev pub on_env_id : Option String → Flow → Option Error × Flow
on_env_id none d = (some (failure "node ID not found"), d)
on_env_id (some id) d = (none, set_node_id id d)

abbrev pub on_env : Option (List (String × String)) → Flow → Option Error × Flow
on_env none d = (some (failure "got nil env when loading from env file"), d)
on_env (some env) d = on_env_id (lookup "FLOW_GO_NODE_ID" env) d

unfoldable pub configure_node_id_from_env_file :
    Result (List (String × String)) → Flow → Option Error × Flow
configure_node_id_from_env_file file d = let e = loaded_env file d in on_env e.env e

-- An ID that is empty is passed over.
abbrev pub given : String → Result String → Result String
given id rest = if str_eq id "" then rest else ok id

abbrev pub next_arg : List String → Result String → Result String
next_arg [] rest = err (failure "potentially invalid docker run command")
next_arg (id ∷ more) rest = given id rest

-- The ID after `=`, or the next argument.
abbrev pub id_of : Option String → List String → Result String → Result String
id_of (some id) args rest = given id rest
id_of none args rest = next_arg args rest

-- The loop over the arguments of the container's command.
unfoldable pub scan_args : List String → Result String
scan_args [] = err (failure "node ID not found")
scan_args (arg ∷ args) =
    let rest = scan_args args in
    if starts_with arg "--nodeid" then id_of (after b'=' arg) args rest else rest

abbrev pub args_of : Container → List String
args_of c = let (first, others) = split b' ' c.command in first ∷ others

abbrev pub on_scan : Result String → Flow → Option Error × Flow
on_scan (err e) d = (some e, d)
on_scan (ok id) d = (none, set_node_id id d)

abbrev pub scan_container : Option Container → Flow → Option Error × Flow
scan_container none d = (some (failure "node ID not found"), d)
scan_container (some c) d = on_scan (scan_args (args_of c)) d

unfoldable pub configure_node_id_from_docker : Flow → Option Error × Flow
configure_node_id_from_docker d =
    if str_eq d.config.node_id "" then scan_container d.container d else (none, d)

abbrev pub on_image_parts : List String → Flow → Option Error × Flow
on_image_parts [] d = (some (failure "could not find node version"), d)
on_image_parts (version ∷ others) d = (none, record d { node_version = version })

abbrev pub version_from : Option Container → Flow → Option Error × Flow
version_from none d = (some (failure "node version: container not configured"), d)
version_from (some c) d = on_image_parts (split b':' c.image).1 d

unfoldable pub update_node_version_from_docker : Flow → Option Error × Flow
update_node_version_from_docker d = version_from d.container d

-- A set of ports.
abbrev pub has_port : ℕ → List ℕ → Bool
has_port p [] = false
has_port p (q ∷ qs) = if p == q then true else has_port p qs

abbrev pub add_public : List ℕ → List ℕ → List ℕ
add_public [] ports = ports
add_public (p ∷ ps) ports =
    if not (p == 3569) && not (p == 9000)
    then add_public ps (if has_port p ports then ports else ports ++ p ∷ [])
    else add_public ps ports

abbrev pub public_ports : Option Container → List ℕ
public_ports none = []
public_ports (some c) = c.ports

unfoldable pub ports_to_try : Option Container → List ℕ
ports_to_try container = add_public (public_ports container) (8080 ∷ 9095 ∷ 9096 ∷ [])

unfoldable pub endpoint_of : ℕ → String
endpoint_of port = "http://127.0.0.1:" <> (itoa port <> "/metrics")

-- The endpoint in the first place, if that has none, or behind the others.
unfoldable pub put_endpoint : String → List String → List PefEndpoint → List PefEndpoint
put_endpoint endpoint filters [] = []
put_endpoint endpoint filters (first ∷ others) =
    if str_eq first.url ""
    then record first { url = endpoint } ∷ others
    else first ∷ others ++ record { url = endpoint; filters = filters } ∷ []

abbrev pub add_endpoint : String → List String → Flow → Flow
add_endpoint endpoint filters d = record d {
  config = record (d.config) {
    pef_endpoints = put_endpoint endpoint filters d.config.pef_endpoints;
  };
  render_needed = true;
}

abbrev pub first_filters : List PefEndpoint → List String
first_filters [] = []
first_filters (first ∷ others) = first.filters

abbrev pub with_errors : Option Error → List Error → List Error
with_errors none errs = errs
with_errors (some e) errs = errs ++ e ∷ []

module _ {W : Type 0} (host : Host W) where
  abbrev pub answers : Option ℕ → Bool
  answers none = false
  answers (some status) = leb status 204

  -- The loop over the ports, with `found`.
  unfoldable pub pef_loop : List ℕ → List String → Bool → Flow → W → Bool × Flow × W
  pef_loop [] filters found d w = (found, d, w)
  pef_loop (port ∷ ports) filters found d w =
      let endpoint = endpoint_of port in
      let (status, v) = host.get_status endpoint w in
      if answers status
      then pef_loop ports filters true (add_endpoint endpoint filters d) v
      else pef_loop ports filters found d v

  abbrev pub after_pef : Bool × Flow × W → Ended W
  after_pef (found, d, w) = (if found then none else some (failure "no PEF endpoints found"), d, w)

  unfoldable pub configure_pef_endpoints : Flow → W → Outcome (Ended W)
  configure_pef_endpoints d w = is_pef_configured d.config >>= λ configured.
      if configured
      then done (none, d, w)
      else done (
          after_pef (
            pef_loop (host.order (ports_to_try d.container)) (first_filters d.config.pef_endpoints)
              false d w))

  -- What a stage of the reconfiguration returns: the errors so far, and the state.
  abbrev pub Stage : Type 0
  Stage = List Error × Flow × W

  -- The file is read as a fall back; the first error stays in the list.
  abbrev pub docker_id : Option Error × Flow → List Error × Flow
  docker_id (none, d) = ([], d)
  docker_id (some e, d) =
      let (e', d') = configure_node_id_from_env_file (host.env_file d.config.env_file_path) d in
      (with_errors e' (e ∷ []), d')

  -- The endpoints, and the update for those who listen.
  abbrev pub pef_stage : List Error → Ended W → Stage
  pef_stage errs (some e, d, w) = (errs ++ e ∷ [], d, w)
  pef_stage errs (none, d, w) =
      (errs, push_config_update (record { val = d.config.pef_endpoints }) d, w)

  abbrev pub log_stage : List Error → Ended W → Stage
  log_stage errs (e, d, w) = (with_errors e errs, d, w)

  abbrev pub logs_if : Bool → ℕ → ℕ → Stage → Outcome Stage
  logs_if false fuel hdr_len s = done s
  logs_if true fuel hdr_len (errs, d, w) =
      update_from_logs host.log fuel hdr_len d w >>= λ r. done (log_stage errs r)

  -- An error of the template is only logged.
  abbrev pub render_stage : Stage → Stage
  render_stage (errs, d, w) =
      if d.render_needed
      then (errs, record d { render_needed = false }, host.render d.config w)
      else (errs, d, w)

  abbrev pub has_names : Option Container → Bool
  has_names none = false
  has_names (some c) = elim c.names [ [] ↦ false | name ∷ names ↦ true ]

  unfoldable pub reconfigure_docker : ℕ → Flow → W → Outcome Stage
  reconfigure_docker fuel d w =
      let (errs, ided) = docker_id (configure_node_id_from_docker (configure_client d)) in
      configure_pef_endpoints (update_node_version_from_docker ided).1 w >>= λ r.
      logs_if (has_names (pef_stage errs r).1.container) fuel 8 (pef_stage errs r) >>= λ s.
      done (render_stage s)

  abbrev pub is_running : Option String → Bool
  is_running none = false
  is_running (some sub_state) = str_eq sub_state "running"

  unfoldable pub reconfigure_systemd : ℕ → Flow → W → Outcome Stage
  reconfigure_systemd fuel d w =
      let (e, ided) = configure_node_id_from_env_file (host.env_file d.config.env_file_path) d in
      configure_pef_endpoints ided w >>= λ r.
      let s = pef_stage (with_errors e []) r in
      logs_if (is_running s.1.sub_state) fuel 0 s >>= λ t. done (render_stage t)

  abbrev pub is_discovered : Flow → Bool
  is_discovered d = not (str_eq d.network "") && not (str_eq d.node_role "")

  unfoldable pub reconfigure_by_docker_container : ℕ → Option Container → Flow → W → Outcome Stage
  reconfigure_by_docker_container fuel container d w =
      if is_discovered d
      then done ([], d, w)
      else reconfigure_docker fuel (record d { container = container }) w

  unfoldable pub reconfigure_by_systemd_unit : ℕ → Option String → Flow → W → Outcome Stage
  reconfigure_by_systemd_unit fuel unit d w =
      if is_discovered d
      then done ([], d, w)
      else reconfigure_systemd fuel (record d { sub_state = unit }) w
