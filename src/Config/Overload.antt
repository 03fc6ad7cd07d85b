-- ===== src/Config/Overload.antt =====
-- internal/pkg/global/config.go: `overloadFromEnv`, `createLogFolders` and `LoadAgentConfig`. The
-- environment, the parsers of strconv and time, YAML and the file system are parameters.
pub mod Refused
pub mod Groups
pub mod Fields
use Prim.Native.String.{String}
use text.Mathlib.Text.{◌==◌ as str_eq}
use metrika_agent.Prelude.{
  ℕ, zero, suc, Bool, true, false, Option, none, some, List, [], ◌∷◌, map, if◌then◌else◌,
}
use metrika_agent.Prelude.Int.{ℤ, pos}
use metrika_agent.Prelude.Error.{Error, Result, ok, err, failure, wrapped}
use metrika_agent.Prelude.Text.{split, last_char_is, all_but_last}
use metrika_agent.Config.{
  PlatformConfig, BufferConfig, WatchConfig, RuntimeConfig, DiscoveryConfig, AgentConfig, Confs,
  agent_conf_of, write_agent_conf, ensure_defaults,
}

pub record Parsers : Type 0 where
  pub bool : String → Result Bool
  pub int : String → Result ℤ
  pub uint : String → Result ℕ
  pub duration : String → Result ℤ

abbrev pub words : ℕ → String → List String
words sep s = let (first, others) = split sep s in first ∷ others

abbrev pub on_platform : (PlatformConfig → PlatformConfig) → Confs → Confs
on_platform f s = record s { c = record (s.c) { platform = f s.c.platform } }

abbrev pub on_buffer : (BufferConfig → BufferConfig) → Confs → Confs
on_buffer f s = record s { c = record (s.c) { buffer = f s.c.buffer } }

abbrev pub on_runtime : (RuntimeConfig → RuntimeConfig) → Confs → Confs
on_runtime f s = record s { c = record (s.c) { runtime = f s.c.runtime } }

abbrev pub on_discovery : (DiscoveryConfig → DiscoveryConfig) → Confs → Confs
on_discovery f s = record s { c = record (s.c) { discovery = f s.c.discovery } }

-- `discovery_deactivated` is written to `AgentConf`, whatever the configuration at hand.
abbrev pub put_deactivated : Bool → Confs → Confs
put_deactivated b s =
    let g = agent_conf_of s in
    write_agent_conf (record g { discovery = record (g.discovery) { deactivated = b } }) s

abbrev pub watch_of : String → WatchConfig
watch_of type = record {
  type = type;
  sampling_interval = pos 0;
  listen_addr = "";
  upstream_url = "";
  exporter_activated = false;
}

-- `read_file` tries the files in order; `unmarshal` writes what it reads into a
-- configuration. If no file can be read the content is empty, and that is no error.
unfoldable pub first_content : (String → Option String) → List String → String
first_content read_file [] = ""
first_content read_file (fn ∷ fns) =
    let rest = first_content read_file fns in
    elim (read_file fn) [ some content ↦ content | none ↦ rest ]

-- `mkdir` is `os.MkdirAll` of the folder with these parts.
module _ {W : Type 0} (mkdir : List String → W → Option Error × W) where
  abbrev pub next_folder : (Option Error × W) → (W → Option Error × W) → Option Error × W
  next_folder (some e, w) next = (some e, w)
  next_folder (none, w) next = next w

  unfoldable pub create_log_folders : List String → W → Option Error × W
  create_log_folders [] w = (none, w)
  create_log_folders (path ∷ paths) w =
      let parts = words b'/' path in
      let made = next_folder (mkdir (all_but_last parts) w) (create_log_folders paths) in
      let rest = create_log_folders paths w in
      if last_char_is b'/' path
      then (some (failure "invalid log output path ending with '/'"), w)
      else elim (split b'/' path).1 [ [] ↦ rest | part ∷ others ↦ made ]

abbrev pub and_then : (Option Error × Confs) → (Confs → Option Error × Confs) → Option Error × Confs
and_then (some e, s) next = (some e, s)
and_then (none, s) next = next s

-- A block, and the next one if it has not returned.
infixr 4 ◌>=>◌
abbrev pub ◌>=>◌ :
    (Confs → Option Error × Confs) → (Confs → Option Error × Confs) → Confs → Option Error × Confs
f >=> g = λ s. and_then (f s) g

-- `if err != nil { return errors.Wrapf(err, text) }`, and the assignment.
abbrev pub put_parsed :
    {A : Type 0} → String → (A → Confs → Confs) → Result A → Confs → Option Error × Confs
put_parsed text put (ok a) s = (none, put a s)
put_parsed text put (err e) s = (some (wrapped e (failure text)), s)

module _ (parse : Parsers) (getenv : String → String) where
  -- A block for a variable that is copied: `v = os.Getenv(name); if v != "" { … }`.
  unfoldable pub text_env : String → (String → Confs → Confs) → Confs → Option Error × Confs
  text_env name put s = let v = getenv name in if str_eq v "" then (none, s) else (none, put v s)

  -- A block for a variable that is parsed.
  unfoldable pub parsed_env :
      {A : Type 0}
      → (String → Result A)
      → String
      → String
      → (A → Confs → Confs)
      → Confs
      → Option Error × Confs
  parsed_env parser name text put s =
      let v = getenv name in if str_eq v "" then (none, s) else put_parsed text put (parser v) s

  -- The blocks, in the order of the source.
  unfoldable pub platform_env : Confs → Option Error × Confs
  platform_env =
      text_env "MA_API_KEY" (λ v. on_platform (λ p. record p { api_key = v }))
      >=> text_env "MA_PLATFORM" (λ v. on_platform (λ p. record p { addr = v }))
      >=> parsed_env parse.bool "MA_PLATFORM_ENABLED" "platform_enabled env parse error"
          (λ b. on_platform (λ p. record p { enabled = some b }))
      >=> parsed_env parse.int "MA_PLATFORM_BATCH_N" "platform_batch_n env parse error"
          (λ n. on_platform (λ p. record p { batch_n = n }))
      >=> parsed_env parse.duration "MA_PLATFORM_MAX_PUBLISH_INTERVAL"
          "platform_max_publish_internval env parse error"
          (λ d. on_platform (λ p. record p { max_publish_interval = d }))
      >=> parsed_env parse.duration "MA_PLATFORM_TRANSPORT_TIMEOUT"
          "platform_transport_timeout env parse error"
          (λ d. on_platform (λ p. record p { transport_timeout = d }))
      >=> text_env "MA_PLATFORM_URI" (λ v. on_platform (λ p. record p { uri = v }))

  unfoldable pub buffer_env : Confs → Option Error × Confs
  buffer_env =
      parsed_env parse.uint "MA_BUFFER_MAX_HEAP_ALLOC" "buffer_max_heap_alloc env parse error"
        (λ n. on_buffer (λ b. record b { max_heap_alloc = n }))
      >=> parsed_env parse.int "MA_BUFFER_MIN_BUFFER_SIZE" "buffer_min_buffer_size env parse error"
          (λ n. on_buffer (λ b. record b { min_buffer_size = n }))
      >=> parsed_env parse.duration "MA_BUFFER_TTL" "buffer_ttl env parse error"
          (λ d. on_buffer (λ b. record b { ttl = d }))

  unfoldable pub runtime_env : Confs → Option Error × Confs
  runtime_env =
      text_env "MA_RUNTIME_LOGGING_OUTPUTS"
        (λ v. on_runtime (λ r. record r { log = record (r.log) { outputs = words b',' v } }))
      >=> text_env "MA_RUNTIME_LOGGING_LEVEL"
          (λ v. on_runtime (λ r. record r { log = record (r.log) { lvl = v } }))
      >=> parsed_env parse.bool "MA_RUNTIME_DISABLE_FINGERPRINT_VALIDATION"
          "runtime_disable_fingeprint_validation env parse error"
          (λ b. on_runtime (λ r. record r { disable_fingerprint_validation = b }))
      >=> parsed_env parse.bool "MA_RUNTIME_HOST_HEADER_VALIDATION_ENABLED"
          "runtime_host_header_validation_enabled env parse error"
          (λ b. on_runtime (λ r. record r { host_header_validation_enabled = some b }))
      >=> text_env "MA_RUNTIME_HTTP_ADDR" (λ v. on_runtime (λ r. record r { http_addr = v }))
      >=> text_env "MA_RUNTIME_ALLOWED_HOSTS"
          (λ v. on_runtime (λ r. record r { allowed_hosts = words b',' v }))
      >=> parsed_env parse.duration "MA_RUNTIME_SAMPLING_INTERVAL"
          "runtime_sampling_interval env parse error"
          (λ d. on_runtime (λ r. record r { sampling_interval = d }))
      >=> text_env "MA_RUNTIME_WATCHERS"
          (λ v. on_runtime (λ r. record r { watchers = map watch_of (words b',' v) }))

  unfoldable pub discovery_env : Confs → Option Error × Confs
  discovery_env =
      parsed_env parse.bool "MA_DISCOVERY_DEACTIVATED" "discovery_deactivated env parse error"
        put_deactivated
      >=> text_env "MA_DISCOVERY_SYSTEMD_GLOB" (λ v.
        on_discovery (λ d. record d { systemd = record (d.systemd) { glob = words b' ' v } }))
      >=> text_env "MA_DISCOVERY_DOCKER_REGEX" (λ v.
        on_discovery (λ d. record d { docker = record (d.docker) { regex = words b',' v } }))
      >=> text_env "MA_RUNTIME_NTP_SERVER" (λ v. on_runtime (λ r. record r { ntp_server = v }))

  unfoldable pub overload_from_env : Confs → Option Error × Confs
  overload_from_env = platform_env >=> buffer_env >=> runtime_env >=> discovery_env

  module _ {W : Type 0} (mkdir : List String → W → Option Error × W) where
    abbrev pub after_overload : (Option Error × Confs) → W → Option Error × Confs × W
    after_overload (some e, s) w =
        (some (wrapped e (failure "error while loading config from env")), s, w)
    after_overload (none, s) w =
        let r = ensure_defaults s in
        let (e, v) = create_log_folders mkdir r.c.runtime.log.outputs w in (e, r, v)

    abbrev pub after_yaml : Option Error × AgentConfig → Confs → W → Option Error × Confs × W
    after_yaml (some e, c) s w = (some e, record s { c = c }, w)
    after_yaml (none, c) s w = after_overload (overload_from_env (record s { c = c })) w

    unfoldable pub load_agent_config :
        (String → Option String)
        → (String → AgentConfig → Option Error × AgentConfig)
        → Confs
        → W
        → Option Error × Confs × W
    load_agent_config read_file unmarshal s w =
        let files = "agent.yml" ∷ "configs/agent.yml" ∷ "/etc/metrikad/configs/agent.yml" ∷ [] in
        after_yaml (unmarshal (first_content read_file files) s.c) s w
