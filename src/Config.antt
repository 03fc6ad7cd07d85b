-- ===== src/Config.antt =====
-- internal/pkg/global/config.go: the agent's configuration, its defaults, and its overriding from
-- the environment. A pointer to a Boolean is an option. The watchers are kept by value: the program
-- loads its configuration once, so that no two lists share a watcher.
pub mod Overload
pub mod Defaults
pub mod Filled
mod Tests
use Prim.Native.String.{String}
use text.Mathlib.Text.{◌==◌ as str_eq, starts_with}
use metrika_agent.Prelude.{
  ℕ, zero, suc, ◌*◌, Bool, true, false, Option, none, some, List, [], ◌∷◌, if◌then◌else◌,
}
use metrika_agent.Prelude.Int.{ℤ, pos, negsuc}

pub record PlatformConfig : Type 0 where
  pub api_key : String
  pub batch_n : ℤ
  pub transport_timeout : ℤ
  pub max_publish_interval : ℤ
  pub addr : String
  pub uri : String
  pub retry_count : ℤ
  pub enabled : Option Bool

pub record BufferConfig : Type 0 where
  pub max_heap_alloc : ℕ
  pub min_buffer_size : ℤ
  pub ttl : ℤ

pub record WatchConfig : Type 0 where
  pub type : String
  pub sampling_interval : ℤ
  pub listen_addr : String
  pub upstream_url : String
  pub exporter_activated : Bool

pub record LogConfig : Type 0 where
  pub lvl : String
  pub outputs : List String

-- `Exporters` is only passed on.
pub record RuntimeConfig : Type 0 where
  pub http_addr : String
  pub metrics_enabled : Bool
  pub host_header_validation_enabled : Option Bool
  pub allowed_hosts : List String
  pub log : LogConfig
  pub sampling_interval : ℤ
  pub watchers : List WatchConfig
  pub disable_fingerprint_validation : Bool
  pub ntp_server : String

pub record DiscoverySystemd : Type 0 where
  pub deactivated : Bool
  pub glob : List String

pub record DiscoveryDocker : Type 0 where
  pub deactivated : Bool
  pub regex : List String

pub record DiscoveryConfig : Type 0 where
  pub deactivated : Bool
  pub docker : DiscoveryDocker
  pub systemd : DiscoverySystemd

pub record AgentConfig : Type 0 where
  pub platform : PlatformConfig
  pub buffer : BufferConfig
  pub runtime : RuntimeConfig
  pub discovery : DiscoveryConfig

pub is_prometheus : String → Bool
is_prometheus type = starts_with type "prometheus"

pub is_influx : String → Bool
is_influx type = starts_with type "influx"

pub is_enabled : PlatformConfig → Bool
is_enabled p = elim p.enabled [ none ↦ true | some b ↦ b ]

-- The configuration that a call is given, and `AgentConf` if that is another: `none` means that the
-- call was given a pointer to `AgentConf` itself.
pub record Confs : Type 0 where
  pub c : AgentConfig
  pub agent_conf : Option AgentConfig

abbrev pub agent_conf_of : Confs → AgentConfig
agent_conf_of s = elim s.agent_conf [ none ↦ s.c | some g ↦ g ]

abbrev pub write_agent_conf : AgentConfig → Confs → Confs
write_agent_conf g s = elim s.agent_conf [
  | none ↦ record s { c = g }
  | some old ↦ record s { agent_conf = some g }
]

-- `if x == 0 { x = d }`, for each type.
abbrev pub or_int : ℤ → ℤ → ℤ
or_int (pos zero) d = d
or_int (pos (suc n)) d = pos (suc n)
or_int (negsuc n) d = negsuc n

abbrev pub or_nat : ℕ → ℕ → ℕ
or_nat zero d = d
or_nat (suc n) d = suc n

abbrev pub or_text : String → String → String
or_text s d = if str_eq s "" then d else s

abbrev pub or_bool : Option Bool → Bool → Option Bool
or_bool none d = some d
or_bool (some b) d = some b

abbrev pub or_list : {A : Type 0} → List A → List A → List A
or_list [] d = d
or_list (x ∷ xs) d = x ∷ xs

abbrev pub second : ℕ → ℤ
second n = pos (n * 1_000_000_000)

abbrev pub default_runtime_sampling_interval : ℤ
default_runtime_sampling_interval = second 15

abbrev default_watch : String → WatchConfig
default_watch type = record {
  type = type;
  sampling_interval = pos 0;
  listen_addr = "";
  upstream_url = "";
  exporter_activated = false;
}

abbrev pub default_runtime_watchers : List WatchConfig
default_runtime_watchers =
    default_watch "prometheus.proc.cpu"
    ∷ default_watch "prometheus.proc.net.netstat_linux"
    ∷ default_watch "prometheus.proc.net.arp_linux"
    ∷ default_watch "prometheus.proc.stat_linux"
    ∷ default_watch "prometheus.proc.conntrack_linux"
    ∷ default_watch "prometheus.proc.diskstats"
    ∷ default_watch "prometheus.proc.entropy"
    ∷ default_watch "prometheus.proc.filefd"
    ∷ default_watch "prometheus.proc.filesystem"
    ∷ default_watch "prometheus.proc.loadavg"
    ∷ default_watch "prometheus.proc.meminfo"
    ∷ default_watch "prometheus.proc.netclass"
    ∷ default_watch "prometheus.proc.netdev"
    ∷ default_watch "prometheus.proc.sockstat"
    ∷ default_watch "prometheus.proc.textfile"
    ∷ default_watch "prometheus.time"
    ∷ default_watch "prometheus.uname"
    ∷ default_watch "prometheus.vmstat"
    ∷ []

unfoldable pub interval_of : ℤ → WatchConfig → WatchConfig
interval_of interval w = record w { sampling_interval = or_int w.sampling_interval interval }

-- The address is set whenever it is empty, whatever the upstream URL.
unfoldable pub listen_of : WatchConfig → WatchConfig
listen_of w =
    if str_eq w.type "influx"
    then record w { listen_addr = or_text w.listen_addr "127.0.0.1:8086" }
    else w

abbrev pub each : (WatchConfig → WatchConfig) → List WatchConfig → List WatchConfig
each f [] = []
each f (w ∷ ws) = f w ∷ each f ws

unfoldable pub platform_defaults : PlatformConfig → PlatformConfig
platform_defaults p = record p {
  enabled = or_bool p.enabled true;
  batch_n = or_int p.batch_n (pos 1000);
  max_publish_interval = or_int p.max_publish_interval (second 15);
  transport_timeout = or_int p.transport_timeout (second 10);
  uri = or_text p.uri "/";
}

unfoldable pub buffer_defaults : BufferConfig → BufferConfig
buffer_defaults b = record b {
  max_heap_alloc = or_nat b.max_heap_alloc 52_428_800;
  min_buffer_size = or_int b.min_buffer_size (pos 2500);
  ttl = or_int b.ttl (pos 0);
}

abbrev pub log_defaults : LogConfig → LogConfig
log_defaults l = record {
  lvl = or_text l.lvl "warning";
  outputs = or_list l.outputs ("stdout" ∷ []);
}

-- The watchers that are configured take the sampling interval; the default ones come after that.
unfoldable pub runtime_defaults : RuntimeConfig → RuntimeConfig
runtime_defaults r =
    let interval = or_int r.sampling_interval default_runtime_sampling_interval in
    record r {
      sampling_interval = interval;
      watchers = or_list (each (interval_of interval) r.watchers) default_runtime_watchers;
      log = log_defaults r.log;
      http_addr = or_text r.http_addr "";
      host_header_validation_enabled = or_bool r.host_header_validation_enabled true;
      allowed_hosts = or_list r.allowed_hosts ("127.0.0.1" ∷ []);
    }

abbrev pub fill_listen : AgentConfig → AgentConfig
fill_listen g = record g {
  runtime = record (g.runtime) { watchers = each listen_of g.runtime.watchers };
}

abbrev pub fill_ntp : AgentConfig → AgentConfig
fill_ntp c = record c {
  runtime = record (c.runtime) { ntp_server = or_text c.runtime.ntp_server "pool.ntp.org" };
}

-- The loop over the influx watchers goes over those of `AgentConf`.
unfoldable pub ensure_defaults : Confs → Confs
ensure_defaults s =
    let c = record (s.c) {
      platform = platform_defaults s.c.platform;
      buffer = buffer_defaults s.c.buffer;
      runtime = runtime_defaults s.c.runtime;
    } in
    let filled = record s { c = c } in
    let written = write_agent_conf (fill_listen (agent_conf_of filled)) filled in
    record written { c = fill_ntp written.c }
