-- ===== src/Emit.antt =====
-- internal/pkg/emit/emit.go: events are sent to channels without blocking. A channel is its
-- capacity and what it holds; a send succeeds while there is room. (A receiver that waits at an
-- unbuffered channel is not modelled; the agent's channels are buffered.)
pub mod Sent
mod Tests
use metrika_agent.Prelude.{
  ℕ, suc, ◌+◌, Bool, true, false, Option, none, some, List, [], ◌∷◌, ◌++◌, length, ltb,
  if◌then◌else◌,
}
use metrika_agent.Model.{Event, Body, Message}

pub record Chan (A : Type 0) : Type 0 where
  pub cap : ℕ
  pub held : List A

module _ {A : Type 0} where
  abbrev pub has_room : Chan A → Bool
  has_room c = ltb (length c.held) c.cap

  -- `select { case c <- x: default: }`, with the number of messages dropped.
  unfoldable pub offer : A → Chan A → Chan A × ℕ
  offer x c = if has_room c then (record c { held = c.held ++ x ∷ [] }, 0) else (c, 1)

  -- The simple emitter. A nil channel takes nothing, and nothing is counted.
  pub emit : A → Option (Chan A) → Option (Chan A) × ℕ
  emit x none = (none, 0)
  emit x (some c) = let (d, dropped) = offer x c in (some d, dropped)

  -- The multi emitter, channel by channel.
  pub multi_emit : A → List (Option (Chan A)) → List (Option (Chan A)) × ℕ
  multi_emit x [] = ([], 0)
  multi_emit x (none ∷ chans) = let (rest, n) = multi_emit x chans in (none ∷ rest, n)
  multi_emit x (some c ∷ chans) =
      let (d, dropped) = offer x c in
      let (rest, n) = multi_emit x chans in (some d ∷ rest, dropped + n)

-- `Ev` with the simple emitter: the event as a message.
abbrev pub event_message : Event → Message
event_message ev = record { name = ev.name; value = Body.event ev }

pub ev : Event → Option (Chan Message) → Option (Chan Message) × ℕ
ev e ch = emit (event_message e) ch
