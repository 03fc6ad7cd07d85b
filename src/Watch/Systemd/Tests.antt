-- ===== src/Watch/Systemd/Tests.antt =====
-- A service that is not running.
use metrika_agent.Prelude.{ℕ, ◌+◌, ◌*◌, ◌≡◌, refl, true, none, some, List, [], ◌∷◌, arith}
use metrika_agent.Prelude.Int.{pos, ◌-ℤ◌}
use metrika_agent.Prelude.Error.{ok}
use metrika_agent.Watch.{new_watch}
use metrika_agent.Watch.Systemd.{
  SystemdUnit, SystemdServiceWatchConf, Input, status_tick, stop, start_service, inputs, on_input,
  emit_node_down,
}
use metrika_agent.Watch.Systemd.Spaced.{Paced, start_service-Paced}

-- The state is the time in seconds; a reading of the clock takes two.
abbrev env : SystemdUnit ℕ
env = record {
  detect = λ w. (ok (some "dead"), w);
  open_journal = λ w. (none, w);
  reconfigure = λ w. (none, w);
  clock = λ w. (pos (w * 1_000_000_000), w + 2);
  sync_now = λ w. pos w;
  chain = λ w. record {
    node_id = "1";
    node_role = "consensus";
    node_version = "v1";
    network = "mainnet";
  };
  close_bus = λ w. w;
  new_struct = λ fields. ok fields;
}

abbrev conf : SystemdServiceWatchConf
conf = record {
  status_intv = pos 1;
  node_up_event_freq = pos 5_000_000_000;
  node_down_event_freq = pos 5_000_000_000;
  has_discoverer = true;
}

abbrev ticks : List Input
ticks = status_tick ∷ status_tick ∷ status_tick ∷ status_tick ∷ stop ∷ []

start_service-Paced_example :
    Paced env conf
      (start_service env conf ticks new_watch (record { plat_state = 0; disc_state = 0 }) 0)
start_service-Paced_example =
    start_service-Paced env conf (λ w. omega arith) ticks new_watch
      (record { plat_state = 0; disc_state = 0 }) 0

two_events :
    (start_service env conf ticks new_watch (record { plat_state = 0; disc_state = 0 }) 0).downs
    ≡ pos 10_000_000_000 ∷ pos 2_000_000_000 ∷ []
unfolding start_service inputs on_input emit_node_down ◌-ℤ◌
two_events = refl
