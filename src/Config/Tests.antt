-- ===== src/Config/Tests.antt =====
-- A configuration with an influx watcher, an empty one, and an environment with a bad number.
use Prim.Native.String.{String}
use text.Mathlib.Text.{◌==◌ as str_eq}
use metrika_agent.Prelude.{ℕ, ◌≡◌, refl, true, false, none, some, List, [], ◌∷◌, if◌then◌else◌}
use metrika_agent.Prelude.Int.{pos}
use metrika_agent.Prelude.Error.{ok, err, failure, wrapped}
use metrika_agent.Prelude.Text.{last_char_is, split}
use metrika_agent.Config.{WatchConfig, AgentConfig, Confs, ensure_defaults}
use metrika_agent.Config.Overload.{
  Parsers, overload_from_env, text_env, parsed_env, platform_env, buffer_env, create_log_folders,
}
use metrika_agent.Config.Filled.{DefaultsSet, ensure_defaults-DefaultsSet}

abbrev config : List WatchConfig → AgentConfig
config watchers = record {
  platform = record {
    api_key = "key";
    batch_n = pos 0;
    transport_timeout = pos 0;
    max_publish_interval = pos 0;
    addr = "";
    uri = "";
    retry_count = pos 0;
    enabled = none;
  };
  buffer = record { max_heap_alloc = 0; min_buffer_size = pos 0; ttl = pos 0 };
  runtime = record {
    http_addr = "";
    metrics_enabled = false;
    host_header_validation_enabled = none;
    allowed_hosts = [];
    log = record { lvl = ""; outputs = [] };
    sampling_interval = pos 0;
    watchers = watchers;
    disable_fingerprint_validation = false;
    ntp_server = "";
  };
  discovery = record {
    deactivated = false;
    docker = record { deactivated = false; regex = [] };
    systemd = record { deactivated = false; glob = [] };
  };
}

abbrev influx : WatchConfig
influx = record {
  type = "influx";
  sampling_interval = pos 0;
  listen_addr = "";
  upstream_url = "";
  exporter_activated = true;
}

abbrev confs : List WatchConfig → Confs
confs watchers = record { c = config watchers; agent_conf = none }

ensure_defaults-DefaultsSet_example :
    DefaultsSet (config (influx ∷ [])) (ensure_defaults (confs (influx ∷ []))).c
ensure_defaults-DefaultsSet_example = ensure_defaults-DefaultsSet (config (influx ∷ []))

abbrev parse : Parsers
parse = record {
  bool = λ v. ok (str_eq v "true");
  int = λ v. err (failure "invalid syntax");
  uint = λ v. ok 1;
  duration = λ v. ok (pos 1);
}

abbrev getenv : String → String
getenv name =
    if str_eq name "MA_PLATFORM_ENABLED"
    then "true"
    else if str_eq name "MA_BUFFER_MIN_BUFFER_SIZE"
    then "many"
    else ""

bad_number :
    (overload_from_env parse getenv (confs [])).0
    ≡ some (wrapped (failure "invalid syntax") (failure "buffer_min_buffer_size env parse error"))
unfolding overload_from_env text_env parsed_env platform_env buffer_env
bad_number = refl

slash_refused :
    create_log_folders {W = ℕ} (λ parts w. (none, w)) ("stdout" ∷ "/var/log/" ∷ []) 0
    ≡ (some (failure "invalid log output path ending with '/'"), 0)
unfolding create_log_folders last_char_is split
slash_refused = refl
