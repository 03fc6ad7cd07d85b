-- ===== src/Config/Filled.antt =====
-- What `ensureDefaults` makes of every field.
use Prim.Native.String.{String}
use text.Mathlib.Text.{◌==◌ as str_eq}
use text.Mathlib.TextEquality.{eq_iff}
use metrika_agent.Prelude.{
  ℕ, zero, suc, ◌≡◌, ◌≢◌, ◌⊎◌, inl, inr, refl, sym, Bool, true, false, Option, none, some, List, [],
  ◌∷◌, if◌then◌else◌,
}
use metrika_agent.Prelude.Int.{ℤ, pos, negsuc}
use metrika_agent.Config.{
  WatchConfig, AgentConfig, or_int, or_nat, or_text, or_bool, or_list, interval_of, listen_of, each,
  platform_defaults, buffer_defaults, runtime_defaults, ensure_defaults, default_runtime_watchers,
}
use metrika_agent.Config.Defaults.{default_watchers_lem}

-- A value that is `z` has become `d`, and any other is kept.
abbrev pub Filled : {A : Type 0} → A → A → A → A → Type 0
Filled z d old new = ((old ≡ z) × (new ≡ d)) ⊎ ((old ≢ z) × (new ≡ old))

or_int-Filled : (x d : ℤ) → Filled (pos 0) d x (or_int x d)
or_int-Filled (pos zero) d = inl (refl, refl)
or_int-Filled (pos (suc n)) d = inr (λ e. absurd (cc), refl)
or_int-Filled (negsuc n) d = inr (λ e. absurd (cc), refl)

or_nat-Filled : (x d : ℕ) → Filled 0 d x (or_nat x d)
or_nat-Filled zero d = inl (refl, refl)
or_nat-Filled (suc n) d = inr (λ e. absurd (cc), refl)

text_case : (x d : String) (b : Bool) → str_eq x "" ≡ b → Filled "" d x (if b then d else x)
text_case x d true e = inl ((eq_iff x "").0 e, refl)
text_case x d false e = inr (λ empty. absurd (cc (e, (eq_iff x "").1 empty)), refl)

or_text-Filled : (x d : String) → Filled "" d x (or_text x d)
or_text-Filled x d = text_case x d (str_eq x "") refl

or_bool-Filled : (x : Option Bool) (d : Bool) → Filled none (some d) x (or_bool x d)
or_bool-Filled none d = inl (refl, refl)
or_bool-Filled (some b) d = inr (λ e. absurd (cc), refl)

or_list-Filled : {A : Type 0} (xs d : List A) → Filled [] d xs (or_list xs d)
or_list-Filled [] d = inl (refl, refl)
or_list-Filled (x ∷ xs) d = inr (λ e. absurd (cc), refl)

-- A watcher with the sampling interval `i` if it had none; an influx watcher with an address.
pub record WatchSet (i : ℤ) (old new : WatchConfig) : Type 0 where
  pub same_type : new.type ≡ old.type
  pub same_upstream : new.upstream_url ≡ old.upstream_url
  pub same_exporter : new.exporter_activated ≡ old.exporter_activated
  pub interval : Filled (pos 0) i old.sampling_interval new.sampling_interval
  pub listen :
      ((old.type ≡ "influx") × Filled "" "127.0.0.1:8086" old.listen_addr new.listen_addr)
      ⊎ ((old.type ≢ "influx") × (new.listen_addr ≡ old.listen_addr))

pub data AllSet (i : ℤ) : List WatchConfig → List WatchConfig → Type 0 where
  none_left : AllSet i [] []
  one_set :
      {old new : WatchConfig} {olds news : List WatchConfig}
      → WatchSet i old new
      → AllSet i olds news
      → AllSet i (old ∷ olds) (new ∷ news)

listen_case :
    (i : ℤ) (w : WatchConfig) (b : Bool)
    → str_eq w.type "influx" ≡ b
    → WatchSet i w (
        if b
        then record w {
          sampling_interval = or_int w.sampling_interval i;
          listen_addr = or_text w.listen_addr "127.0.0.1:8086";
        }
        else record w { sampling_interval = or_int w.sampling_interval i })
listen_case i w true e = record {
  same_type = refl;
  same_upstream = refl;
  same_exporter = refl;
  interval = or_int-Filled w.sampling_interval i;
  listen = inl ((eq_iff w.type "influx").0 e, or_text-Filled w.listen_addr "127.0.0.1:8086");
}
listen_case i w false e = record {
  same_type = refl;
  same_upstream = refl;
  same_exporter = refl;
  interval = or_int-Filled w.sampling_interval i;
  listen = inr (λ influx. absurd (cc (e, (eq_iff w.type "influx").1 influx)), refl);
}

watch-WatchSet : (i : ℤ) (w : WatchConfig) → WatchSet i w (listen_of (interval_of i w))
unfolding listen_of interval_of
watch-WatchSet i w = listen_case i w (str_eq w.type "influx") refl

each-AllSet :
    (i : ℤ) (ws : List WatchConfig) → AllSet i ws (each listen_of (each (interval_of i) ws))
each-AllSet i [] = none_left
each-AllSet i (w ∷ ws) = one_set (watch-WatchSet i w) (each-AllSet i ws)

-- The watchers: the default ones, as they are declared, if there were none.
abbrev pub WatchersSet : ℤ → List WatchConfig → List WatchConfig → Type 0
WatchersSet i olds news =
    ((olds ≡ []) × (news ≡ default_runtime_watchers)) ⊎ ((olds ≢ []) × AllSet i olds news)

watchers-WatchersSet :
    (i : ℤ) (ws : List WatchConfig)
    → WatchersSet i ws (each listen_of (or_list (each (interval_of i) ws) default_runtime_watchers))
watchers-WatchersSet i [] = inl (refl, default_watchers_lem)
watchers-WatchersSet i (w ∷ ws) = inr (λ e. absurd (cc), each-AllSet i (w ∷ ws))

-- The fields of the configuration `c` and of `r`, the same with its defaults.
pub record DefaultsSet (c r : AgentConfig) : Type 0 where
  pub api_key : r.platform.api_key ≡ c.platform.api_key
  pub addr : r.platform.addr ≡ c.platform.addr
  pub retry_count : r.platform.retry_count ≡ c.platform.retry_count
  pub enabled : Filled none (some true) c.platform.enabled r.platform.enabled
  pub batch_n : Filled (pos 0) (pos 1000) c.platform.batch_n r.platform.batch_n
  pub max_publish_interval :
      Filled
        (pos 0)
        (pos 15_000_000_000)
        c.platform.max_publish_interval
        r.platform.max_publish_interval
  pub transport_timeout :
      Filled (pos 0) (pos 10_000_000_000) c.platform.transport_timeout r.platform.transport_timeout
  pub uri : Filled "" "/" c.platform.uri r.platform.uri
  pub max_heap_alloc : Filled 0 52_428_800 c.buffer.max_heap_alloc r.buffer.max_heap_alloc
  pub min_buffer_size : Filled (pos 0) (pos 2500) c.buffer.min_buffer_size r.buffer.min_buffer_size
  pub ttl : r.buffer.ttl ≡ c.buffer.ttl
  pub sampling_interval :
      Filled (pos 0) (pos 15_000_000_000) c.runtime.sampling_interval r.runtime.sampling_interval
  pub outputs : Filled [] ("stdout" ∷ []) c.runtime.log.outputs r.runtime.log.outputs
  pub lvl : Filled "" "warning" c.runtime.log.lvl r.runtime.log.lvl
  pub http_addr : r.runtime.http_addr ≡ c.runtime.http_addr
  pub host_header :
      Filled none
        (some true)
        c.runtime.host_header_validation_enabled
        r.runtime.host_header_validation_enabled
  pub allowed_hosts : Filled [] ("127.0.0.1" ∷ []) c.runtime.allowed_hosts r.runtime.allowed_hosts
  pub ntp_server : Filled "" "pool.ntp.org" c.runtime.ntp_server r.runtime.ntp_server
  pub metrics_enabled : r.runtime.metrics_enabled ≡ c.runtime.metrics_enabled
  pub fingerprint :
      r.runtime.disable_fingerprint_validation ≡ c.runtime.disable_fingerprint_validation
  pub watchers : WatchersSet r.runtime.sampling_interval c.runtime.watchers r.runtime.watchers
  pub discovery : r.discovery ≡ c.discovery

zero_kept : (x : ℤ) → or_int x (pos 0) ≡ x
zero_kept (pos zero) = refl
zero_kept (pos (suc n)) = refl
zero_kept (negsuc n) = refl

empty_case : (x : String) (b : Bool) → str_eq x "" ≡ b → (if b then "" else x) ≡ x
empty_case x true e = sym ((eq_iff x "").0 e)
empty_case x false e = refl

-- On `AgentConf`, `ensureDefaults` gives every field that is zero (or empty, or nil) its default,
-- with the time to live and the HTTP address zero by default, and keeps every other: a watcher
-- without a sampling interval takes that of the configuration, an influx watcher without an address
-- the default one; if there are no watchers they are the default ones, just as they are declared,
-- so without a sampling interval.
pub ensure_defaults-DefaultsSet :
    (c : AgentConfig) → DefaultsSet c (ensure_defaults (record { c = c; agent_conf = none })).c
unfolding ensure_defaults platform_defaults buffer_defaults runtime_defaults
ensure_defaults-DefaultsSet c = record {
  api_key = refl;
  addr = refl;
  retry_count = refl;
  enabled = or_bool-Filled c.platform.enabled true;
  batch_n = or_int-Filled c.platform.batch_n _;
  max_publish_interval = or_int-Filled c.platform.max_publish_interval _;
  transport_timeout = or_int-Filled c.platform.transport_timeout _;
  uri = or_text-Filled c.platform.uri "/";
  max_heap_alloc = or_nat-Filled c.buffer.max_heap_alloc _;
  min_buffer_size = or_int-Filled c.buffer.min_buffer_size _;
  ttl = zero_kept c.buffer.ttl;
  sampling_interval = or_int-Filled c.runtime.sampling_interval _;
  outputs = or_list-Filled c.runtime.log.outputs _;
  lvl = or_text-Filled c.runtime.log.lvl "warning";
  http_addr = empty_case c.runtime.http_addr (str_eq c.runtime.http_addr "") refl;
  host_header = or_bool-Filled c.runtime.host_header_validation_enabled true;
  allowed_hosts = or_list-Filled c.runtime.allowed_hosts _;
  ntp_server = or_text-Filled c.runtime.ntp_server "pool.ntp.org";
  metrics_enabled = refl;
  fingerprint = refl;
  watchers = watchers-WatchersSet _ c.runtime.watchers;
  discovery = refl;
}
