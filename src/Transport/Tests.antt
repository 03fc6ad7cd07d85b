-- ===== src/Transport/Tests.antt =====
-- The client of the platform over a network on which every call succeeds.
use metrika_agent.Prelude.{ℕ, ◌+◌, ◌≡◌, true, false, none, List, [], ◌∷◌}
use metrika_agent.Prelude.Int.{pos}
use metrika_agent.Prelude.Outcome.{Yields}
use metrika_agent.Prelude.Error.{ok}
use metrika_agent.Model.{Body, Message}
use metrika_agent.Buf.Queue.{Item, Payload}
use metrika_agent.Transport.{Grpc, PlatformGrpc, publish, publish_func}
use metrika_agent.Transport.Publish.{
  Published, Reported, Carried, IsConnected, net_at, publish-Published, publish_func-Reported,
}

-- The network counts the calls.
abbrev network : Grpc ℕ
network = record {
  dial = λ n. (none, n + 1);
  transmit = λ batch n. (ok (pos 7), n + 1);
  close = λ n. (none, n + 1);
}

abbrev client : PlatformGrpc ℕ
client = record {
  conf = record {
    url = "platform:443";
    uuid = "agent";
    api_key = "key";
    connect_timeout = pos 3_000_000_000;
    transmit_timeout = pos 5_000_000_000;
  };
  agent_service = false;
  grpc_conn = false;
  net = 0;
  agent = record { plat_state = 0; disc_state = 0 };
  refreshed = [];
  publish_errors = 0;
  published = 0;
}

client-IsConnected : IsConnected network client
client-IsConnected e = absurd (cc)

abbrev family : Message
family = record { name = "up"; value = Body.metric_family "up" }

abbrev batch : List Item
batch = record { priority = 0; timestamp = pos 5; payload = Payload.message family } ∷ []

publish-Published_example :
    Yields
      (Published network (family ∷ []) (net_at network client) client)
      (publish network (family ∷ []) client)
publish-Published_example = publish-Published network (family ∷ []) client client-IsConnected

publish_func-Reported_example :
    Yields
      (λ s.
        (ms : List Message) × Carried network batch ms
        × Reported network ms client (s.0, s.1)
        × (s.2 ≡ []))
      (publish_func network true batch client)
publish_func-Reported_example = publish_func-Reported network batch client client-IsConnected
