-- ===== src/Flow/Configure/Tests.antt =====
-- A node in a container whose log names its role and network in one line.
use metrika_agent.Prelude.{ℕ, ◌≡◌, refl, Bool, true, false, none, some, List, [], ◌∷◌, ◌++◌, inl}
use metrika_agent.Prelude.Outcome.{panic, Yields}
use metrika_agent.Prelude.Error.{Result, ok, err, failure}
use metrika_agent.Model.{Val, Fields}
use metrika_agent.Flow.{Flow}
use metrika_agent.Flow.Metadata.{LogLines, update_from_logs, recognized}
use metrika_agent.Flow.Metadata.Known.{IsKnown}
use metrika_agent.Flow.Metadata.Searched.{
  Runs, line, ends, Searched, update_from_logs-Searched, update_from_logs-panics,
}
use metrika_agent.Flow.Configure.{Host, scan_args, reconfigure_docker}
use metrika_agent.Flow.Configure.Ids.{with_eq, scan_args-found}
use metrika_agent.Flow.Configure.Done.{Reconfigured, reconfigure_docker-Reconfigured}

abbrev metadata : Fields
metadata = ("node_role", Val.text "Consensus") ∷ ("chain", Val.text "flow-mainnet") ∷ []

abbrev framed : List ℕ
framed = 1 ∷ 0 ∷ 0 ∷ 0 ∷ 0 ∷ 0 ∷ 0 ∷ 2 ∷ 123 ∷ 125 ∷ []

-- The state: whether the line is still to be read.
abbrev read_line : Bool → Result (List ℕ) × Bool
read_line true = (ok framed, false)
read_line false = (err (failure "empty log file"), false)

abbrev log : LogLines Bool
log = record { get_log_line = read_line; time_left = λ w. true; unmarshal = λ b. ok metadata }

abbrev host : Host Bool
host = record {
  env_file = λ path. err (failure "no such file");
  order = λ ports. ports;
  get_status = λ endpoint w. (some 200, w);
  render = λ config w. w;
  log = log;
}

abbrev flow : Flow
flow = record {
  config = record {
    config_path = "/etc/flow.yml";
    client = "";
    container_regex = [];
    node_id = "";
    pef_endpoints = record { url = ""; filters = [] } ∷ [];
    env_file_path = "/etc/flow/env";
  };
  render_needed = false;
  container = some (record {
    command = "flow --nodeid=47a9";
    image = "flow:v0.30";
    names = "/flow" ∷ [];
    ports = [];
  });
  sub_state = none;
  env = none;
  node_role = "";
  network = "";
  node_version = "";
  run_scheme = "";
  updates = record { cap = 1; held = [] };
}

flow-IsKnown : IsKnown flow
unfolding recognized
flow-IsKnown = record { role = refl; net = inl refl }

runs : (w : Bool) → Runs log 8 2 w
runs true = line framed refl refl (ends (failure "empty log file") refl)
runs false = ends (failure "empty log file") refl

update_from_logs-Searched_example : Yields (Searched log flow) (update_from_logs log 2 8 flow true)
update_from_logs-Searched_example =
    update_from_logs-Searched log 2 8 flow true (runs true) flow-IsKnown

abbrev blank : LogLines Bool
blank = record { get_log_line = λ w. (ok [], w); time_left = λ w. true; unmarshal = λ b. ok [] }

update_from_logs-panics_example : update_from_logs blank 3 0 flow true ≡ panic
update_from_logs-panics_example = update_from_logs-panics blank 2 0 flow true true [] refl refl refl

scan_args-found_example :
    (scan_args (("flow" ∷ []) ++ with_eq "47a9" ∷ "--debug" ∷ []) ≡ ok "47a9")
    × (scan_args (("flow" ∷ []) ++ "--nodeid" ∷ "47a9" ∷ "--debug" ∷ []) ≡ ok "47a9")
scan_args-found_example = scan_args-found ("flow" ∷ []) ("--debug" ∷ []) "47a9" (refl, tt) refl

reconfigure_docker-Reconfigured_example :
    Yields (Reconfigured host flow) (reconfigure_docker host 2 flow true)
reconfigure_docker-Reconfigured_example =
    reconfigure_docker-Reconfigured host 2 flow true flow-IsKnown tt runs
