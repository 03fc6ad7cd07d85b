-- ===== src/Global/Updates/Tests.antt =====
-- Three subscriptions: of a channel with no room left, and twice of another. Then a channel with
-- room for one update that two watches share.
use Prim.Native.String.{String}
use metrika_agent.Prelude.{ℕ, ◌≡◌, refl, ◌∷◌, [], some, List, get_elem?, arith}
use metrika_agent.Emit.{Chan, offer}
use metrika_agent.Flow.{ConfigUpdate}
use metrika_agent.Global.Updates.{
  ConfigUpdateStream, StreamInput, is_done, updated, subscribe, run_stream, forward, send_update,
  new_config_update_stream, pef_endpoints_key,
}
use metrika_agent.Global.Updates.Delivered.{run_stream-Delivered}

abbrev update_to : String → ConfigUpdate
update_to url = record { val = record { url = url; filters = [] } ∷ [] }

abbrev full_chan : Chan ConfigUpdate
full_chan = record { cap = 1; held = update_to "http://a" ∷ [] }

abbrev free_chan : Chan ConfigUpdate
free_chan = record { cap = 4; held = [] }

abbrev subscribed : ℕ → ConfigUpdateStream → ConfigUpdateStream
subscribed i c = (subscribe pef_endpoints_key i c).1

abbrev three : ConfigUpdateStream
three =
    subscribed 1
      (subscribed 0 (subscribed 1 (new_config_update_stream (full_chan ∷ free_chan ∷ []))))

abbrev two_updates : List StreamInput
two_updates = updated (update_to "http://b") ∷ is_done ∷ updated (update_to "http://c") ∷ []

run_stream-Delivered_example :
    get_elem? (run_stream two_updates three).channels 1
    ≡ some (record {
      cap = 4;
      held =
          update_to "http://b"
          ∷ update_to "http://b"
          ∷ update_to "http://c"
          ∷ update_to "http://c"
          ∷ [];
    })
unfolding subscribe
run_stream-Delivered_example = run_stream-Delivered two_updates three 1 free_chan refl (omega arith)

abbrev shared : ConfigUpdateStream
shared = subscribed 0 (subscribed 0 (new_config_update_stream (record { cap = 1; held = [] } ∷ [])))

shared_once :
    (run_stream (updated (update_to "http://b") ∷ []) shared).channels
    ≡ record { cap = 1; held = update_to "http://b" ∷ [] } ∷ []
unfolding subscribe run_stream forward send_update offer
shared_once = refl
