-- ===== src/Model/Events/Tests.antt =====
-- An event with one key of its context left out, and one whose key is missing.
use metrika_agent.Prelude.{◌≡◌, refl, some, [], ◌∷◌}
use metrika_agent.Prelude.Int.{pos}
use metrika_agent.Prelude.Error.{ok}
use metrika_agent.Model.{Val, Fields, Event}
use metrika_agent.Model.Events.{
  field, set_field, keep, filter_keys, keys_of, new_with_filtered_ctx, new_with_ctx,
}

abbrev ctx : Fields
ctx = ("error", Val.text "timeout") ∷ ("uptime", Val.number (pos 4)) ∷ []

abbrev event : Fields → Event
event values = record { name = "agent.up"; timestamp = pos 9; values = some values }

abbrev only_uptime : Fields
only_uptime = ("uptime", Val.number (pos 4)) ∷ []

made_filtered :
    new_with_filtered_ctx
      (λ fields. ok fields)
      (some ctx)
      "agent.up"
      (pos 9)
      ("uptime" ∷ "node" ∷ [])
    ≡ ok (event only_uptime)
unfolding new_with_filtered_ctx filter_keys keep field set_field
made_filtered = refl

made_whole : new_with_ctx (λ fields. ok fields) (some ctx) "agent.up" (pos 9) ≡ ok (event ctx)
unfolding new_with_ctx keys_of new_with_filtered_ctx filter_keys keep field set_field
made_whole = refl
