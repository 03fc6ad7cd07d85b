-- ===== src/Watch/Systemd/Spaced.antt =====
-- How often the watch of the service tells that the node is down or up.
use Prim.Native.String.{String}
use text.Mathlib.Text.{◌==◌ as str_eq}
use metrika_agent.Prelude.{
  ℕ, ◌==◌, ◌≡◌, refl, true, Option, none, some, List, [], ◌∷◌, arith, if-branches,
}
use metrika_agent.Prelude.Int.{ℤ, ltb_ℤ, ◌-ℤ◌, ◌≤ℤ◌, -ℤ_parts}
use metrika_agent.Prelude.Error.{Error, Result, ok, err}
use metrika_agent.Global.{AgentState, discovery_state, node_discovery_error}
use metrika_agent.Watch.{Watch}
use metrika_agent.Watch.Systemd.{
  SystemdUnit, SystemdServiceWatchConf, ServiceWatch, Input, stop, status_tick, is_due_at,
  emit_node_down, emit_node_up, discovered, is_down, is_up, reconfigured, journal_opened,
  on_running, on_detected, on_input, inputs, start_service,
}

-- Each time is later than the one before it by more than `freq`; the last comes first.
abbrev pub Apart : ℤ → List ℤ → Type 0
Apart freq [] = Unit {0}
Apart freq (t ∷ []) = Unit {0}
Apart freq (t ∷ u ∷ us) = (ltb_ℤ freq (t -ℤ u) ≡ true) × Apart freq (u ∷ us)

abbrev pub IsLast : Option ℤ → List ℤ → Type 0
IsLast none [] = Unit {0}
IsLast none (u ∷ us) = ⊥
IsLast (some t) [] = ⊥
IsLast (some t) (u ∷ us) = t ≡ u

apart_after :
    (freq now later : ℤ) (last : Option ℤ) (times : List ℤ)
    → IsLast last times
    → Apart freq times
    → (is_due_at now last freq) ≡ true
    → now ≤ℤ later
    → Apart freq (later ∷ times)
apart_after freq now later none [] l a due le = tt
apart_after freq now later none (u ∷ us) l a due le = absurd l
apart_after freq now later (some t) [] l a due le = absurd l
apart_after freq now later (some t) (u ∷ us) l a due le =
    (ground (arith, -ℤ_parts now t, -ℤ_parts later u, l), a)

module _ {W : Type 0} (env : SystemdUnit W) (conf : SystemdServiceWatchConf) where
  -- Of two readings of the clock, one after the other, the second is not earlier.
  abbrev pub GoesOn : Type 0
  GoesOn = (w : W) → (env.clock w).0 ≤ℤ (env.clock (env.clock w).1).0

  pub record Paced (s : ServiceWatch W) : Type 0 where
    pub last_down : IsLast s.last_down s.downs
    pub last_up : IsLast s.last_up s.ups
    pub downs_apart : Apart conf.node_down_event_freq s.downs
    pub ups_apart : Apart conf.node_up_event_freq s.ups

  -- Nothing of the history is changed.
  with_unit : (s : ServiceWatch W) (w : W) → Paced s → Paced (record s { unit = w })
  with_unit s w p = record {
    last_down = p.last_down;
    last_up = p.last_up;
    downs_apart = p.downs_apart;
    ups_apart = p.ups_apart;
  }

  with_state : (s : ServiceWatch W) (st : ℕ) → Paced s → Paced (discovered env conf st s)
  with_state s st p = record {
    last_down = p.last_down;
    last_up = p.last_up;
    downs_apart = p.downs_apart;
    ups_apart = p.ups_apart;
  }

  module _ (goes_on : GoesOn) where
    emit_node_down-Paced : (s : ServiceWatch W) → Paced s → Paced (emit_node_down env conf s)
    unfolding emit_node_down
    emit_node_down-Paced s p =
        if-branches Paced (is_due_at (env.clock s.unit).0 s.last_down conf.node_down_event_freq)
          (λ due. record {
            last_down = refl;
            last_up = p.last_up;
            downs_apart =
                apart_after conf.node_down_event_freq (env.clock s.unit).0 _ s.last_down s.downs
                  p.last_down p.downs_apart due (goes_on s.unit);
            ups_apart = p.ups_apart;
          })
          (λ _. with_unit s _ p)

    emit_node_up-Paced : (s : ServiceWatch W) → Paced s → Paced (emit_node_up env conf s)
    unfolding emit_node_up
    emit_node_up-Paced s p =
        if-branches Paced (is_due_at (env.clock s.unit).0 s.last_up conf.node_up_event_freq)
          (λ due. record {
            last_down = p.last_down;
            last_up = refl;
            downs_apart = p.downs_apart;
            ups_apart =
                apart_after conf.node_up_event_freq (env.clock s.unit).0 _ s.last_up s.ups p.last_up
                  p.ups_apart due (goes_on s.unit);
          })
          (λ _. with_unit s _ p)

    is_down-Paced : (s : ServiceWatch W) → Paced s → Paced (is_down env conf s)
    is_down-Paced s p = with_state _ _ (emit_node_down-Paced s p)

    is_up-Paced : (s : ServiceWatch W) → Paced s → Paced (is_up env conf s)
    is_up-Paced s p = with_state _ _ (emit_node_up-Paced s p)

    reconfigured-Paced :
        (r : Option Error × W) (s : ServiceWatch W) → Paced s → Paced (reconfigured env conf r s)
    reconfigured-Paced (some e, w) s p = with_unit s w p
    reconfigured-Paced (none, w) s p = is_up-Paced _ (with_unit s w p)

    journal_opened-Paced :
        (r : Option Error × W) (s : ServiceWatch W) → Paced s → Paced (journal_opened env conf r s)
    journal_opened-Paced (some e, w) s p = with_unit s w p
    journal_opened-Paced (none, w) s p = reconfigured-Paced (env.reconfigure w) s p

    on_running-Paced : (s : ServiceWatch W) → Paced s → Paced (on_running env conf s)
    on_running-Paced s p =
        if-branches Paced (discovery_state s.agent == node_discovery_error)
          (λ _. journal_opened-Paced (env.open_journal s.unit) s p) (λ _. is_up-Paced s p)

    on_detected-Paced :
        (r : Result (Option String) × W) (s : ServiceWatch W)
        → Paced s
        → Paced (on_detected env conf r s)
    on_detected-Paced (err e, w) s p = is_down-Paced _ (with_unit s w p)
    on_detected-Paced (ok none, w) s p = is_down-Paced _ (with_unit s w p)
    on_detected-Paced (ok (some sub_state), w) s p =
        if-branches Paced (str_eq sub_state "running") (λ _. on_running-Paced _ (with_unit s w p))
          (λ _. is_down-Paced _ (with_unit s w p))

    on_input-Paced : (i : Input) (s : ServiceWatch W) → Paced s → Paced (on_input env conf i s)
    unfolding on_input
    on_input-Paced stop s p = record {
      last_down = p.last_down;
      last_up = p.last_up;
      downs_apart = p.downs_apart;
      ups_apart = p.ups_apart;
    }
    on_input-Paced status_tick s p = on_detected-Paced (env.detect s.unit) s p

    inputs-Paced : (is : List Input) (s : ServiceWatch W) → Paced s → Paced (inputs env conf is s)
    unfolding inputs
    inputs-Paced [] s p = p
    inputs-Paced (i ∷ is) s p =
        let next = on_input-Paced i s p in
        if-branches Paced (on_input env conf i s).returned (λ _. next)
          (λ _. inputs-Paced is (on_input env conf i s) next)

    -- If the second of two readings of the clock is never earlier than the first, then whatever the
    -- inputs of the systemd service watch and whatever discovery, journal and reconfiguration
    -- return, the times of its events that the node is down are apart by more than their frequency,
    -- and so are those of its events that the node is up.
    pub start_service-Paced :
        (is : List Input) (watch : Watch) (agent : AgentState) (w : W)
        → Paced (start_service env conf is watch agent w)
    unfolding start_service
    start_service-Paced is watch agent w =
        inputs-Paced is _
          (record { last_down = tt; last_up = tt; downs_apart = tt; ups_apart = tt })
