-- ===== src/Emit/Sent.antt =====
-- What an emission leaves in the channels.
use metrika_agent.Prelude.{
  ℕ, ◌+◌, ◌≤◌, ◌≡◌, refl, Option, none, some, List, [], ◌∷◌, ◌++◌, length, arith, map,
  if◌then◌else◌, length-append,
}
use metrika_agent.Emit.{Chan, has_room, offer, multi_emit}

module _ {A : Type 0} where
  -- What a channel is after a message was offered to it: it has it as its last if there was room,
  -- and is as it was if there was none, or if it is nil.
  abbrev pub after : A → Option (Chan A) → Option (Chan A)
  after x none = none
  after x (some c) = if has_room c then some (record c { held = c.held ++ x ∷ [] }) else some c

  -- How many of the channels are not nil and have no room.
  abbrev pub full : List (Option (Chan A)) → ℕ
  full [] = 0
  full (none ∷ chans) = full chans
  full (some c ∷ chans) = (if has_room c then 0 else 1) + full chans

  -- No channel holds more than its capacity.
  abbrev pub InBounds : List (Option (Chan A)) → Type 0
  InBounds [] = Unit
  InBounds (none ∷ chans) = InBounds chans
  InBounds (some c ∷ chans) = (length c.held ≤ c.cap) × InBounds chans

  -- The multi emitter treats every channel by itself: those with room get the message as their
  -- last, those without room and the nil ones stay as they are and stop no other, and the number of
  -- drops is that of the channels without room.
  pub multi_emit_lem :
      (x : A) (chans : List (Option (Chan A)))
      → multi_emit x chans ≡ (map (after x) chans, full chans)
  unfolding multi_emit offer
  multi_emit_lem x [] = refl
  multi_emit_lem x (none ∷ chans) = ground (arith, multi_emit_lem x chans)
  multi_emit_lem x (some c ∷ chans) = ground (arith, multi_emit_lem x chans)

  -- If no channel holds more than its capacity, none does after an emission of the multi emitter.
  pub multi_emit-InBounds :
      (x : A) (chans : List (Option (Chan A))) → InBounds chans → InBounds (multi_emit x chans).0
  unfolding multi_emit offer
  multi_emit-InBounds x [] h = tt
  multi_emit-InBounds x (none ∷ chans) h = multi_emit-InBounds x chans h
  multi_emit-InBounds x (some c ∷ chans) h =
      let rest = multi_emit-InBounds x chans h.1 in ground (arith, length-append c.held (x ∷ []))
