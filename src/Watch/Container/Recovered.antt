-- ===== src/Watch/Container/Recovered.antt =====
-- How the stream of docker events is made anew, and what the ticks then tell.
use Prim.Native.String.{String}
use mathlib.Core.List.{append_assoc, append-nil}
use metrika_agent.Prelude.{
  ℕ, suc, ◌≡◌, ◌⊎◌, refl, sym, ◌∙◌, true, false, none, some, List, [], ◌∷◌, ◌++◌, ◌==◌, arith,
}
use metrika_agent.Prelude.Outcome.{Yields, yields, Yields-bind, Yields-weaken, Yields-branch}
use metrika_agent.Prelude.Error.{Error}
use metrika_agent.Global.{discovery_state, node_discovery_error, node_discovery_success}
use metrika_agent.Watch.Container.{
  Node, ContainerWatch, repair_event_stream, new_event_stream, recover, down_tick, on_input, head,
  tell, discovered,
}

module _ {W : Type 0} (env : Node W) where
  -- The tries come to an end: the stop channel is found closed, or a stream is made.
  pub data Settles : W → Type 0 where
    closed : {w : W} → env.stop_closed (env.wait w) ≡ true → Settles w
    repaired :
        {w : W}
        → env.stop_closed (env.wait w) ≡ false
        → (repair_event_stream env (env.wait w)).0 ≡ none
        → Settles w
    failing :
        {w : W} {e : Error}
        → env.stop_closed (env.wait w) ≡ false
        → (repair_event_stream env (env.wait w)).0 ≡ some e
        → Settles (env.forget (repair_event_stream env (env.wait w)).1)
        → Settles w

  abbrev pub tries : {w : W} → Settles w → ℕ
  tries (closed c) = 1
  tries (repaired c r) = 1
  tries (failing c r t) = suc (tries t)

  -- The events of the failed tries, and of the one that succeeded if there was one.
  abbrev pub news : {w : W} → Settles w → List String
  news (closed c) = []
  news (repaired c r) = "agent.node.up" ∷ []
  news (failing c r t) = "agent.node.down" ∷ news t

  new_event_stream-told :
      (w : W) (t : Settles w) (s : ContainerWatch W)
      → Yields
          (λ r. (r.told ≡ s.told ++ news t) × (r.returned ≡ s.returned))
          (new_event_stream env (tries t) (record s { node = w }))
  unfolding new_event_stream
  new_event_stream-told w (closed c) s = rw c (yields (sym (append-nil s.told), refl))
  new_event_stream-told w (repaired c r) s = rw (c, r) (yields (refl, refl))
  new_event_stream-told w (failing c r t) s =
      rw (c, r)
        (Yields-weaken
          (new_event_stream-told _ t (
            tell env "agent.node.down"
              (discovered env node_discovery_error (record s { node = _ }))))
          λ q h. (h.0 ∙ append_assoc s.told ("agent.node.down" ∷ []) (news t), h.1))

  -- If the tries to make the stream of docker events come to an end, the search for it ends in as
  -- many rounds, without a panic. An event that the node is down was emitted for each failed try,
  -- in order, and one that it is up after the try that succeeded, if the stop channel did not end
  -- the tries; and in either case the discovery counts as a success.
  pub recover-told :
      (s : ContainerWatch W) (t : Settles s.node)
      → Yields
          (λ r.
            (r.told ≡ s.told ++ news t)
            × (discovery_state r.agent ≡ node_discovery_success)
            × (r.returned ≡ s.returned))
          (recover env (tries t) s)
  unfolding recover
  recover-told s t = Yields-bind (new_event_stream-told s.node t s) λ r h. yields (h.0, refl, h.1)

  -- If the discovery is an error or a success when a round of the goroutine begins, and the tries
  -- to make the stream anew come to an end, then the discovery is a success at the `select`, and
  -- the tick for a node that is down does nothing.
  pub down_tick_idle :
      (s : ContainerWatch W) (t : Settles s.node)
      → (discovery_state s.agent ≡ node_discovery_error)
        ⊎ (discovery_state s.agent ≡ node_discovery_success)
      → Yields
          (λ r. (discovery_state r.agent ≡ node_discovery_success) × (on_input env down_tick r ≡ r))
          (head env (tries t) s)
  unfolding head on_input
  down_tick_idle s t known =
      Yields-branch (discovery_state s.agent == node_discovery_error)
        (λ bad. Yields-weaken (recover-told s t) λ r h. (h.1, ground (arith, h.1)))
        (λ not_bad. yields (ground (arith, known), ground (arith, known)))
