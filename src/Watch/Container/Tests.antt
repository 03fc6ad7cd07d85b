-- ===== src/Watch/Container/Tests.antt =====
-- A container that is found at the second try.
use Prim.Native.String.{String}
use metrika_agent.Prelude.{ℕ, zero, suc, ◌≡◌, refl, true, false, Option, none, some, List, [], ◌∷◌}
use metrika_agent.Prelude.Int.{pos}
use metrika_agent.Prelude.Outcome.{Yields}
use metrika_agent.Prelude.Error.{Result, ok, err, failure}
use metrika_agent.Global.{discovery_state, node_discovery_success}
use metrika_agent.Watch.Container.{
  Node, ContainerWatch, repair_event_stream, recover, parse_docker_event,
}
use metrika_agent.Watch.Container.Recovered.{Settles, repaired, failing, tries, news, recover-told}

-- The state counts the tries that are still to fail.
abbrev detect : ℕ → Result (Option (List String)) × ℕ
detect zero = (ok (some ("node" ∷ [])), zero)
detect (suc n) = (err (failure "not found"), n)

abbrev env : Node ℕ
env = record {
  detect = detect;
  subscribe = λ c w. (none, w);
  open_logs = λ c w. (none, w);
  reconfigure = λ c w. (none, w);
  wait = λ w. w;
  forget = λ w. w;
  stop_closed = λ w. false;
  chain =
      λ w. record { node_id = "1"; node_role = "access"; node_version = "v1"; network = "mainnet" };
  sync_now = λ w. pos 9;
  new_struct = λ fields. ok fields;
}

abbrev lost : ContainerWatch ℕ
lost = record {
  watch = record { running = true; stop_closed = false; once = true; listeners = []; drops = 0 };
  agent = record { plat_state = 1; disc_state = 3 };
  told = [];
  returned = false;
  node = 1;
}

settles : Settles env 1
unfolding repair_event_stream
settles = failing refl refl (repaired refl refl)

recover-told_example :
    Yields
      (λ r.
        (r.told ≡ news env settles)
        × (discovery_state r.agent ≡ node_discovery_success)
        × (r.returned ≡ false))
      (recover env (tries env settles) lost)
recover-told_example = recover-told env lost settles

unknown_status : parse_docker_event "attach" ≡ err (failure "unknown docker event status")
unfolding parse_docker_event
unknown_status = refl
