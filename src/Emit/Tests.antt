-- ===== src/Emit/Tests.antt =====
-- An emission to a channel with room, a full one and a nil one.
use metrika_agent.Prelude.{ℕ, Option, none, some, List, [], ◌∷◌, arith}
use metrika_agent.Emit.{Chan}
use metrika_agent.Emit.Sent.{InBounds}

abbrev chan : ℕ → List ℕ → Option (Chan ℕ)
chan cap held = some (record { cap = cap; held = held })

abbrev chans : List (Option (Chan ℕ))
chans = chan 2 (4 ∷ []) ∷ chan 1 (4 ∷ []) ∷ none ∷ []

chans-InBounds : InBounds chans
chans-InBounds = (omega arith, (omega arith, tt))
