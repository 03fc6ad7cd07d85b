-- ===== src/Config/Overload/Fields.antt =====
-- `overloadFromEnv` as a whole: which variable gives which field, and when it returns an error.
use Prim.Native.String.{String}
use metrika_agent.Prelude.{none}
use metrika_agent.Config.{RuntimeConfig, DiscoveryConfig, AgentConfig, Confs, agent_conf_of}
use metrika_agent.Config.Overload.{Parsers, words, put_deactivated}
use metrika_agent.Config.Overload.Refused.{text_or, parsed_or, IsRead}
use metrika_agent.Config.Overload.Groups.{
  platform_after, buffer_after, runtime_after, PlatformReads, BufferReads, RuntimeReads,
}

module _ (parse : Parsers) (getenv : String → String) where
  abbrev deactivated_after : Confs → Confs
  deactivated_after s =
      put_deactivated
        (parsed_or parse getenv parse.bool (λ b. b) "MA_DISCOVERY_DEACTIVATED"
          (agent_conf_of s).discovery.deactivated)
        s

  abbrev patterns_after : DiscoveryConfig → DiscoveryConfig
  patterns_after d = record d {
    systemd = record (d.systemd) {
      glob = text_or parse getenv (words b' ') "MA_DISCOVERY_SYSTEMD_GLOB" d.systemd.glob;
    };
    docker = record (d.docker) {
      regex = text_or parse getenv (words b',') "MA_DISCOVERY_DOCKER_REGEX" d.docker.regex;
    };
  }

  abbrev ntp_after : RuntimeConfig → RuntimeConfig
  ntp_after r = record r {
    ntp_server = text_or parse getenv (λ v. v) "MA_RUNTIME_NTP_SERVER" r.ntp_server;
  }

  -- The configuration with the variables that are set: the others, and all other fields, are as
  -- they were.
  abbrev pub config_after : AgentConfig → AgentConfig
  config_after c = record {
    platform = platform_after parse getenv c.platform;
    buffer = buffer_after parse getenv c.buffer;
    runtime = record (runtime_after parse getenv c.runtime) {
      ntp_server = text_or parse getenv (λ v. v) "MA_RUNTIME_NTP_SERVER" c.runtime.ntp_server;
    };
    discovery = record {
      deactivated =
          parsed_or parse getenv parse.bool (λ b. b) "MA_DISCOVERY_DEACTIVATED"
            c.discovery.deactivated;
      docker = record (c.discovery.docker) {
        regex =
            text_or parse getenv (words b',') "MA_DISCOVERY_DOCKER_REGEX" c.discovery.docker.regex;
      };
      systemd = record (c.discovery.systemd) {
        glob =
            text_or parse getenv (words b' ') "MA_DISCOVERY_SYSTEMD_GLOB" c.discovery.systemd.glob;
      };
    };
  }

  abbrev pub confs_after : AgentConfig → Confs
  confs_after c = record { c = config_after c; agent_conf = none }

  abbrev pub AllRead : Type 0
  AllRead =
      PlatformReads parse getenv
      × (BufferReads parse getenv
          × (RuntimeReads parse getenv × IsRead parse getenv parse.bool "MA_DISCOVERY_DEACTIVATED"))
