-- ===== src/Flow/Events/Tests.antt =====
-- A line about a vote.
use mathlib.Core.List.Perm
use metrika_agent.Prelude.{ℕ, ◌+◌, [], ◌∷◌}
use metrika_agent.Prelude.Int.{pos}
use metrika_agent.Prelude.Error.{ok}
use metrika_agent.Model.{Val, Fields}
use metrika_agent.Watch.{new_watch, emit_node_log_events}
use metrika_agent.Flow.Events.{all_kinds, events_from_context}
use metrika_agent.Flow.Events.Told.{Told, emit_node_log_events-Told}

abbrev line : Fields
line =
    ("level", Val.text "info")
    ∷ ("voter", Val.text "47a9")
    ∷ ("view", Val.number (pos 4))
    ∷ ("message", Val.text "block vote received, forwarding block vote to hotstuff vote aggregator")
    ∷ []

emit_node_log_events-Told_example :
    Told
      (λ fields. ok fields)
      line
      new_watch
      (emit_node_log_events
        (λ (t : ℕ). (pos t, t + 1))
        (events_from_context (λ fields. ok fields) all_kinds)
        line
        new_watch
        5).0
emit_node_log_events-Told_example =
    emit_node_log_events-Told (λ fields. ok fields) (λ (t : ℕ). (pos t, t + 1)) all_kinds line
      new_watch 5 (Perm.refl all_kinds)
