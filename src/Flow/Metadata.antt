-- ===== src/Flow/Metadata.antt =====
-- flow/flow.go: what Flow learns from the log of its node: the node's role and the network.
pub mod Known
pub mod Searched
use Prim.Native.String.{String}
use text.Mathlib.Text.{◌==◌ as str_eq}
use metrika_agent.Prelude.{
  ℕ, zero, suc, ◌==◌, Bool, true, false, ◌&&◌, ◌||◌, Option, none, some, List, [], ◌∷◌, length, ltb,
  if◌then◌else◌,
}
use metrika_agent.Prelude.Outcome.{Outcome, done, panic, out_of_fuel}
use metrika_agent.Prelude.Error.{Error, Result, ok, err, failure}
use metrika_agent.Prelude.Text.{to_lower, contains}
use metrika_agent.Model.{Val, Fields}
use metrika_agent.Model.Events.{field}
use metrika_agent.Flow.{Flow}

-- utils.KnownNetwork
unfoldable pub any_in : String → List String → Bool
any_in s [] = false
any_in s (nw ∷ nws) = if contains s nw then true else any_in s nws

abbrev pub known_networks : List String
known_networks = "mainnet" ∷ "localnet" ∷ "testnet" ∷ "canarynet" ∷ "benchnet" ∷ []

unfoldable pub known_network : String → Bool
known_network s = any_in (to_lower s) known_networks

unfoldable pub recognized : String → Bool
recognized role =
    str_eq role ""
    || str_eq role "access"
    || str_eq role "collection"
    || str_eq role "consensus"
    || str_eq role "execution"
    || str_eq role "verification"

-- The loop over the keys of the network, from the value of the first key.
abbrev pub on_network_value : Option Val → Flow → (Flow → Flow) → Flow
on_network_value (some (Val.text s)) d next =
    if known_network s then record d { network = s } else next d
on_network_value (some (Val.number n)) d next = next d
on_network_value (some Val.opaque) d next = next d
on_network_value none d next = next d

abbrev pub network_log_key_candidates : List String
network_log_key_candidates = "chain" ∷ "chain_id" ∷ []

unfoldable pub network_loop : Fields → List String → Flow → Flow
network_loop m [] d = d
network_loop m (key ∷ keys) d =
    if str_eq d.network "" then on_network_value (field m key) d (network_loop m keys) else d

unfoldable pub update_network_from_json_log : Fields → Flow → Flow
update_network_from_json_log m d = network_loop m network_log_key_candidates d

-- The role, if it is new; `none` when there is nothing to learn.
abbrev pub role_of : Option Val → Flow → Result Flow
role_of none d = ok d
role_of (some (Val.text s)) d =
    if str_eq d.node_role ""
    then (let role = to_lower s in
        if recognized role
        then ok (record d { node_role = role })
        else err (failure "unsupported node role detected"))
    else ok d
role_of (some (Val.number n)) d =
    if str_eq d.node_role "" then err (failure "type assertion failed for node role") else ok d
role_of (some Val.opaque) d =
    if str_eq d.node_role "" then err (failure "type assertion failed for node role") else ok d

abbrev pub with_network : Fields → Result Flow → Result Flow
with_network m (err e) = err e
with_network m (ok d) = ok (update_network_from_json_log m d)

-- After the JSON of the line has been read. An error leaves the state as it was.
unfoldable pub update_metadata : Fields → Flow → Result Flow
update_metadata m d = with_network m (role_of (field m "node_role") d)

-- What the scanner of the log gives: a line, or an error (`ErrEmptyLogFile` at the end).
-- `time_left` is the test of the loop, that less than five seconds have gone by.
pub record LogLines (W : Type 0) : Type 0 where
  pub get_log_line : W → Result (List ℕ) × W
  pub time_left : W → Bool
  pub unmarshal : List ℕ → Result Fields

-- How a search in the log ends: with the state, and with an error or none.
abbrev pub Ended : Type 0 → Type 0
Ended W = Option Error × Flow × W

-- After the loop.
abbrev pub found_all : Flow → Option Error
found_all d =
    if str_eq d.network "" || str_eq d.node_role ""
    then some (failure "could not discover node role or network")
    else none

-- `got[n:]`; out of range it panics.
abbrev pub slice_from : ℕ → List ℕ → Option (List ℕ)
slice_from zero bs = some bs
slice_from (suc n) [] = none
slice_from (suc n) (b ∷ bs) = slice_from n bs

module _ {W : Type 0} (log : LogLines W) where
  -- The rest of a round, with what is done when the loop goes on and when it ends.
  abbrev pub on_fields : Result Flow → W → Flow → (Flow → Outcome (Ended W)) → Outcome (Ended W)
  on_fields (err e) w d next = done (some e, d, w)
  on_fields (ok d') w d next = next d'

  abbrev pub on_json : Result Fields → W → Flow → (Flow → Outcome (Ended W)) → Outcome (Ended W)
  on_json (err e) w d next = done (some e, d, w)
  on_json (ok m) w d next = on_fields (update_metadata m d) w d next

  -- `got` after the header. The first byte is read without a test on the length.
  abbrev pub on_text :
      Option (List ℕ)
      → W
      → Flow
      → (Flow → Outcome (Ended W))
      → (Flow → Outcome (Ended W))
      → Outcome (Ended W)
  on_text none w d next skip = panic
  on_text (some []) w d next skip = panic
  on_text (some (b ∷ bs)) w d next skip =
      if b == 123 then on_json (log.unmarshal (b ∷ bs)) w d next else skip d

  abbrev pub on_line :
      Result (List ℕ) × W
      → ℕ
      → Flow
      → (W → Flow → Outcome (Ended W))
      → (W → Flow → Outcome (Ended W))
      → Outcome (Ended W)
  on_line (err e, w) hdr_len d next skip = done (some e, d, w)
  on_line (ok got, w) hdr_len d next skip =
      if ltb 0 hdr_len && ltb (length got) hdr_len
      then done (some (failure "empty log line"), d, w)
      else on_text (slice_from hdr_len got) w d (next w) (skip w)

  unfoldable pub update_from_logs : ℕ → ℕ → Flow → W → Outcome (Ended W)
  update_from_logs zero hdr_len d w = out_of_fuel
  update_from_logs (suc fuel) hdr_len d w =
      let again : W → Flow → Outcome (Ended W) = λ v e. update_from_logs fuel hdr_len e v in
      let next : W → Flow → Outcome (Ended W) = λ v e.
        let more = again v e in
        if str_eq e.network "" || str_eq e.node_role "" then more else done (found_all e, e, v) in
      let read = on_line (log.get_log_line w) hdr_len d next again in
      if log.time_left w then read else done (found_all d, d, w)
