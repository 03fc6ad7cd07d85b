-- ===== src/Config/Overload/Groups.antt =====
-- The platform's, the buffer's and the runtime's variables: which gives which field.
use Prim.Native.String.{String}
use mathlib.Core.List.{mem-cons_self, mem-cons_of_mem}
use metrika_agent.Prelude.{refl, some, map}
use metrika_agent.Config.{PlatformConfig, BufferConfig, RuntimeConfig, Confs}
use metrika_agent.Config.Overload.{
  Parsers, words, watch_of, platform_env, buffer_env, runtime_env, on_platform, on_buffer,
  on_runtime,
}
use metrika_agent.Config.Overload.Refused.{
  bool_refused, int_refused, uint_refused, duration_refused, text_or, parsed_or, IsRead, Ends,
  text_step, parsed_step, Ends-then, Ends-last, text_then,
}

module _ (parse : Parsers) (getenv : String → String) where
  abbrev pub platform_after : PlatformConfig → PlatformConfig
  platform_after p = record p {
    api_key = text_or parse getenv (λ v. v) "MA_API_KEY" p.api_key;
    addr = text_or parse getenv (λ v. v) "MA_PLATFORM" p.addr;
    enabled = parsed_or parse getenv parse.bool some "MA_PLATFORM_ENABLED" p.enabled;
    batch_n = parsed_or parse getenv parse.int (λ n. n) "MA_PLATFORM_BATCH_N" p.batch_n;
    max_publish_interval =
        parsed_or parse getenv parse.duration (λ d. d) "MA_PLATFORM_MAX_PUBLISH_INTERVAL"
          p.max_publish_interval;
    transport_timeout =
        parsed_or parse getenv parse.duration (λ d. d) "MA_PLATFORM_TRANSPORT_TIMEOUT"
          p.transport_timeout;
    uri = text_or parse getenv (λ v. v) "MA_PLATFORM_URI" p.uri;
  }

  -- The variables of the platform are not set, or read by their parsers; and so on.
  abbrev pub PlatformReads : Type 0
  PlatformReads =
      IsRead parse getenv parse.bool "MA_PLATFORM_ENABLED"
      × (IsRead parse getenv parse.int "MA_PLATFORM_BATCH_N"
          × (IsRead parse getenv parse.duration "MA_PLATFORM_MAX_PUBLISH_INTERVAL"
              × IsRead parse getenv parse.duration "MA_PLATFORM_TRANSPORT_TIMEOUT"))

  pub platform_env-Ends :
      (s : Confs)
      → Ends parse getenv PlatformReads (on_platform platform_after s) (platform_env parse getenv s)
  unfolding platform_env
  platform_env-Ends s =
      text_then parse getenv _
        (text_step parse getenv (λ v. v) (λ v. on_platform (λ p. record p { api_key = v }))
          (λ s. s.c.platform.api_key) "MA_API_KEY" (λ s. refl) s)
        (text_then parse getenv _
          (text_step parse getenv (λ v. v) (λ v. on_platform (λ p. record p { addr = v }))
            (λ s. s.c.platform.addr) "MA_PLATFORM" (λ s. refl) _)
          (Ends-then parse getenv _
            (parsed_step parse getenv parse.bool some
              (λ b. on_platform (λ p. record p { enabled = b })) (λ s. s.c.platform.enabled)
              "MA_PLATFORM_ENABLED" "platform_enabled env parse error" (λ s. refl)
              (λ e h. bool_refused mem-cons_self h) _)
            (Ends-then parse getenv _
              (parsed_step parse getenv parse.int (λ n. n)
                (λ n. on_platform (λ p. record p { batch_n = n })) (λ s. s.c.platform.batch_n)
                "MA_PLATFORM_BATCH_N" "platform_batch_n env parse error" (λ s. refl)
                (λ e h. int_refused mem-cons_self h) _)
              (Ends-then parse getenv _
                (parsed_step parse getenv parse.duration (λ d. d)
                  (λ d. on_platform (λ p. record p { max_publish_interval = d }))
                  (λ s. s.c.platform.max_publish_interval) "MA_PLATFORM_MAX_PUBLISH_INTERVAL"
                  "platform_max_publish_internval env parse error" (λ s. refl)
                  (λ e h. duration_refused mem-cons_self h) _)
                (Ends-last parse getenv _
                  (parsed_step parse getenv parse.duration (λ d. d)
                    (λ d. on_platform (λ p. record p { transport_timeout = d }))
                    (λ s. s.c.platform.transport_timeout) "MA_PLATFORM_TRANSPORT_TIMEOUT"
                    "platform_transport_timeout env parse error" (λ s. refl)
                    (λ e h. duration_refused (mem-cons_of_mem _ mem-cons_self) h) _)
                  (text_step parse getenv (λ v. v) (λ v. on_platform (λ p. record p { uri = v }))
                    (λ s. s.c.platform.uri) "MA_PLATFORM_URI" (λ s. refl) _))))))

  abbrev pub buffer_after : BufferConfig → BufferConfig
  buffer_after b = record {
    max_heap_alloc =
        parsed_or parse getenv parse.uint (λ n. n) "MA_BUFFER_MAX_HEAP_ALLOC" b.max_heap_alloc;
    min_buffer_size =
        parsed_or parse getenv parse.int (λ n. n) "MA_BUFFER_MIN_BUFFER_SIZE" b.min_buffer_size;
    ttl = parsed_or parse getenv parse.duration (λ d. d) "MA_BUFFER_TTL" b.ttl;
  }

  abbrev pub BufferReads : Type 0
  BufferReads =
      IsRead parse getenv parse.uint "MA_BUFFER_MAX_HEAP_ALLOC"
      × (IsRead parse getenv parse.int "MA_BUFFER_MIN_BUFFER_SIZE"
          × IsRead parse getenv parse.duration "MA_BUFFER_TTL")

  pub buffer_env-Ends :
      (s : Confs)
      → Ends parse getenv BufferReads (on_buffer buffer_after s) (buffer_env parse getenv s)
  unfolding buffer_env
  buffer_env-Ends s =
      Ends-then parse getenv _
        (parsed_step parse getenv parse.uint (λ n. n)
          (λ n. on_buffer (λ b. record b { max_heap_alloc = n })) (λ s. s.c.buffer.max_heap_alloc)
          "MA_BUFFER_MAX_HEAP_ALLOC" "buffer_max_heap_alloc env parse error" (λ s. refl)
          (λ e h. uint_refused mem-cons_self h) _)
        (Ends-then parse getenv _
          (parsed_step parse getenv parse.int (λ n. n)
            (λ n. on_buffer (λ b. record b { min_buffer_size = n }))
            (λ s. s.c.buffer.min_buffer_size) "MA_BUFFER_MIN_BUFFER_SIZE"
            "buffer_min_buffer_size env parse error" (λ s. refl)
            (λ e h. int_refused (mem-cons_of_mem _ mem-cons_self) h) _)
          (parsed_step parse getenv parse.duration (λ d. d)
            (λ d. on_buffer (λ b. record b { ttl = d })) (λ s. s.c.buffer.ttl) "MA_BUFFER_TTL"
            "buffer_ttl env parse error" (λ s. refl)
            (λ e h. duration_refused (mem-cons_of_mem _ (mem-cons_of_mem _ mem-cons_self)) h) _))

  -- All but the NTP server.
  abbrev pub runtime_after : RuntimeConfig → RuntimeConfig
  runtime_after r = record r {
    log = record {
      lvl = text_or parse getenv (λ v. v) "MA_RUNTIME_LOGGING_LEVEL" r.log.lvl;
      outputs = text_or parse getenv (words b',') "MA_RUNTIME_LOGGING_OUTPUTS" r.log.outputs;
    };
    disable_fingerprint_validation =
        parsed_or parse getenv parse.bool (λ b. b) "MA_RUNTIME_DISABLE_FINGERPRINT_VALIDATION"
          r.disable_fingerprint_validation;
    host_header_validation_enabled =
        parsed_or parse getenv parse.bool some "MA_RUNTIME_HOST_HEADER_VALIDATION_ENABLED"
          r.host_header_validation_enabled;
    http_addr = text_or parse getenv (λ v. v) "MA_RUNTIME_HTTP_ADDR" r.http_addr;
    allowed_hosts = text_or parse getenv (words b',') "MA_RUNTIME_ALLOWED_HOSTS" r.allowed_hosts;
    sampling_interval =
        parsed_or parse getenv parse.duration (λ d. d) "MA_RUNTIME_SAMPLING_INTERVAL"
          r.sampling_interval;
    watchers =
        text_or parse getenv (λ v. map watch_of (words b',' v)) "MA_RUNTIME_WATCHERS" r.watchers;
  }

  abbrev pub RuntimeReads : Type 0
  RuntimeReads =
      IsRead parse getenv parse.bool "MA_RUNTIME_DISABLE_FINGERPRINT_VALIDATION"
      × (IsRead parse getenv parse.bool "MA_RUNTIME_HOST_HEADER_VALIDATION_ENABLED"
          × IsRead parse getenv parse.duration "MA_RUNTIME_SAMPLING_INTERVAL")

  pub runtime_env-Ends :
      (s : Confs)
      → Ends parse getenv RuntimeReads (on_runtime runtime_after s) (runtime_env parse getenv s)
  unfolding runtime_env
  runtime_env-Ends s =
      text_then parse getenv _
        (text_step parse getenv (words b',')
          (λ v. on_runtime (λ r. record r { log = record (r.log) { outputs = v } }))
          (λ s. s.c.runtime.log.outputs) "MA_RUNTIME_LOGGING_OUTPUTS" (λ s. refl) _)
        (text_then parse getenv _
          (text_step parse getenv (λ v. v)
            (λ v. on_runtime (λ r. record r { log = record (r.log) { lvl = v } }))
            (λ s. s.c.runtime.log.lvl) "MA_RUNTIME_LOGGING_LEVEL" (λ s. refl) _)
          (Ends-then parse getenv _
            (parsed_step parse getenv parse.bool (λ b. b)
              (λ b. on_runtime (λ r. record r { disable_fingerprint_validation = b }))
              (λ s. s.c.runtime.disable_fingerprint_validation)
              "MA_RUNTIME_DISABLE_FINGERPRINT_VALIDATION"
              "runtime_disable_fingeprint_validation env parse error" (λ s. refl)
              (λ e h. bool_refused (mem-cons_of_mem _ mem-cons_self) h) _)
            (Ends-then parse getenv _
              (parsed_step parse getenv parse.bool (some)
                (λ b. on_runtime (λ r. record r { host_header_validation_enabled = b }))
                (λ s. s.c.runtime.host_header_validation_enabled)
                "MA_RUNTIME_HOST_HEADER_VALIDATION_ENABLED"
                "runtime_host_header_validation_enabled env parse error" (λ s. refl)
                (λ e h. bool_refused (mem-cons_of_mem _ (mem-cons_of_mem _ mem-cons_self)) h) _)
              (text_then parse getenv _
                (text_step parse getenv (λ v. v) (λ v. on_runtime (λ r. record r { http_addr = v }))
                  (λ s. s.c.runtime.http_addr) "MA_RUNTIME_HTTP_ADDR" (λ s. refl) _)
                (text_then parse getenv _
                  (text_step parse getenv (words b',')
                    (λ v. on_runtime (λ r. record r { allowed_hosts = v }))
                    (λ s. s.c.runtime.allowed_hosts) "MA_RUNTIME_ALLOWED_HOSTS" (λ s. refl) _)
                  (Ends-last parse getenv _
                    (parsed_step parse getenv parse.duration (λ d. d)
                      (λ d. on_runtime (λ r. record r { sampling_interval = d }))
                      (λ s. s.c.runtime.sampling_interval) "MA_RUNTIME_SAMPLING_INTERVAL"
                      "runtime_sampling_interval env parse error" (λ s. refl)
                      (λ e h.
                        duration_refused
                          (mem-cons_of_mem _ (mem-cons_of_mem _ (mem-cons_of_mem _ mem-cons_self)))
                          h)
                      _)
                    (text_step parse getenv (λ v. map watch_of (words b',' v))
                      (λ ws. on_runtime (λ r. record r { watchers = ws }))
                      (λ s. s.c.runtime.watchers) "MA_RUNTIME_WATCHERS" (λ s. refl) _)))))))
