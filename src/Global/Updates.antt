-- ===== src/Global/Updates.antt =====
-- internal/pkg/global/agent.go: the stream of configuration updates. The map of the subscriptions
-- has no key but PEFEndpointsKey, so it is what that key has, `none` without an entry. The methods
-- take the mutex, so each is one step; the goroutine of `Run` is taken case by case of its `select`.
pub mod Delivered
mod Tests
use Prim.Native.String.{String}
use text.Mathlib.Text.{◌==◌ as str_eq}
use metrika_agent.Prelude.{
  ℕ, Option, none, some, List, [], ◌∷◌, ◌++◌, get_elem?, set, if◌then◌else◌,
}
use metrika_agent.Prelude.Error.{Error, failure}
use metrika_agent.Emit.{Chan, offer}
use metrika_agent.Flow.{ConfigUpdate}

-- `channels`: the channels that the program has made for updates, of which a subscriber gives its
-- place; it may give one that another has given.
pub record ConfigUpdateStream : Type 0 where
  pub channels : List (Chan ConfigUpdate)
  pub subscriptions : Option (List ℕ)

abbrev pub new_config_update_stream : List (Chan ConfigUpdate) → ConfigUpdateStream
new_config_update_stream chans = record { channels = chans; subscriptions = none }

abbrev pub pef_endpoints_key : String
pef_endpoints_key = "pef_endpoints"

-- The places of the channels that have subscribed.
abbrev pub subscribers : ConfigUpdateStream → List ℕ
subscribers c = elim c.subscriptions [ none ↦ [] | some subs ↦ subs ]

unfoldable pub subscribe : String → ℕ → ConfigUpdateStream → Option Error × ConfigUpdateStream
subscribe key ch c =
    if str_eq key pef_endpoints_key
    then (none, record c { subscriptions = some (subscribers c ++ ch ∷ []) })
    else (some (failure "config update key not supported"), c)

-- What the `select` of the goroutine finds: the context is done, or an update has come.
pub data StreamInput : Type 0 where
  is_done : StreamInput
  updated : ConfigUpdate → StreamInput

-- A nil channel, at a place where there is none, takes nothing.
unfoldable pub send_update : ConfigUpdate → ℕ → List (Chan ConfigUpdate) → List (Chan ConfigUpdate)
send_update upd i chans = elim (get_elem? chans i) [
  | none ↦ chans
  | some ch ↦ set chans i (offer upd ch).0
]

-- The loop over the subscribers.
unfoldable pub forward : ConfigUpdate → List ℕ → List (Chan ConfigUpdate) → List (Chan ConfigUpdate)
forward upd [] chans = chans
forward upd (sub ∷ subs) chans = forward upd subs (send_update upd sub chans)

-- A context that is done has no effect, not even a return.
abbrev pub on_update : StreamInput → ConfigUpdateStream → ConfigUpdateStream
on_update is_done c = c
on_update (updated upd) c = elim c.subscriptions [
  | none ↦ c
  | some subs ↦ record c { channels = forward upd subs c.channels }
]

unfoldable pub run_stream : List StreamInput → ConfigUpdateStream → ConfigUpdateStream
run_stream [] c = c
run_stream (i ∷ inputs) c = run_stream inputs (on_update i c)
