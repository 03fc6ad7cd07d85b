-- ===== src/Config/Defaults.antt =====
-- The defaults of the configuration, set once and set twice.
use Prim.Native.String.{String}
use text.Mathlib.Text.{◌==◌ as str_eq}
use metrika_agent.Prelude.{
  ℕ, zero, suc, ◌≡◌, refl, Bool, Option, none, some, List, [], ◌∷◌, Bool-cases, inl, inr,
}
use metrika_agent.Prelude.Int.{ℤ, pos, negsuc}
use metrika_agent.Config.{
  PlatformConfig, BufferConfig, WatchConfig, LogConfig, AgentConfig, Confs, or_int, or_nat, or_text,
  or_bool, or_list, interval_of, listen_of, each, platform_defaults, buffer_defaults, log_defaults,
  runtime_defaults, ensure_defaults, default_runtime_watchers, default_runtime_sampling_interval,
}

or_int_idem : (x d : ℤ) → or_int (or_int x d) d ≡ or_int x d
or_int_idem (pos zero) (pos zero) = refl
or_int_idem (pos zero) (pos (suc n)) = refl
or_int_idem (pos zero) (negsuc n) = refl
or_int_idem (pos (suc n)) d = refl
or_int_idem (negsuc n) d = refl

or_nat_idem : (x d : ℕ) → or_nat (or_nat x d) d ≡ or_nat x d
or_nat_idem zero zero = refl
or_nat_idem zero (suc n) = refl
or_nat_idem (suc n) d = refl

or_text_idem : (x d : String) → or_text (or_text x d) d ≡ or_text x d
or_text_idem x d = elim (Bool-cases (str_eq x "")) [
  | inr set ↦ rw (or_text, set, set) refl
  | inl empty ↦ elim (Bool-cases (str_eq d "")) [
    | inl also ↦ rw (or_text, empty, also) refl
    | inr set ↦ rw (or_text, empty, set) refl
  ]
]

or_bool_idem : (x : Option Bool) (d : Bool) → or_bool (or_bool x d) d ≡ or_bool x d
or_bool_idem none d = refl
or_bool_idem (some b) d = refl

or_list_idem : {A : Type 0} (xs d : List A) → or_list (or_list xs d) d ≡ or_list xs d
or_list_idem [] [] = refl
or_list_idem [] (d ∷ ds) = refl
or_list_idem (x ∷ xs) d = refl

ruleset idem = (or_int_idem, or_nat_idem, or_text_idem, or_bool_idem, or_list_idem)

platform_defaults_idem :
    (p : PlatformConfig) → platform_defaults (platform_defaults p) ≡ platform_defaults p
unfolding platform_defaults
platform_defaults_idem p = simp idem

buffer_defaults_idem : (b : BufferConfig) → buffer_defaults (buffer_defaults b) ≡ buffer_defaults b
unfolding buffer_defaults
buffer_defaults_idem b = simp idem

log_defaults_idem : (l : LogConfig) → log_defaults (log_defaults l) ≡ log_defaults l
log_defaults_idem l = simp idem

-- A watcher with its interval and address.
abbrev settled : ℤ → WatchConfig → WatchConfig
settled i w = listen_of (interval_of i w)

settled_idem : (i : ℤ) (w : WatchConfig) → settled i (settled i w) ≡ settled i w
unfolding listen_of interval_of
settled_idem i w = elim (Bool-cases (str_eq w.type "influx")) [
  | inl influx ↦ rw (settled, influx, influx) (simp idem)
  | inr other ↦ rw (settled, other, other) (simp idem)
]

settled_each :
    (i : ℤ) (ws : List WatchConfig)
    → each listen_of (each (interval_of i) (each listen_of (each (interval_of i) ws)))
      ≡ each listen_of (each (interval_of i) ws)
settled_each i [] = refl
settled_each i (w ∷ ws) = cc (settled_idem i w, settled_each i ws)

abbrev conf : AgentConfig → Confs
conf c = record { c = c; agent_conf = none }

-- On `AgentConf`, with at least one watcher in the configuration, `ensureDefaults` done twice is
-- `ensureDefaults` done once.
pub ensure_defaults_idempotent :
    (c : AgentConfig) (w : WatchConfig) (ws : List WatchConfig)
    → c.runtime.watchers ≡ w ∷ ws
    → ensure_defaults (ensure_defaults (record { c = c; agent_conf = none }))
      ≡ ensure_defaults (record { c = c; agent_conf = none })
unfolding ensure_defaults runtime_defaults
ensure_defaults_idempotent c w ws h =
    simp (h, idem, platform_defaults_idem, buffer_defaults_idem, settled_each i (w ∷ ws))
  where
    i : ℤ
    i = or_int c.runtime.sampling_interval default_runtime_sampling_interval

pub default_watchers_lem : each listen_of default_runtime_watchers ≡ default_runtime_watchers
unfolding listen_of
default_watchers_lem = refl

-- On `AgentConf`, if no watchers are configured, `ensureDefaults` leaves the default watchers just
-- as they are declared, so with a sampling interval of zero.
pub ensure_defaults-default_watchers :
    (c : AgentConfig)
    → c.runtime.watchers ≡ []
    → (ensure_defaults (record { c = c; agent_conf = none })).c.runtime.watchers
      ≡ default_runtime_watchers
unfolding ensure_defaults runtime_defaults
ensure_defaults-default_watchers c h = rw h default_watchers_lem
