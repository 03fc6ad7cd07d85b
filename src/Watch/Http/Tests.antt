-- ===== src/Watch/Http/Tests.antt =====
-- A watch of the second endpoint, and updates with two endpoints, with none and with one.
use Prim.Native.String.{String}
use metrika_agent.Prelude.{ℕ, zero, suc, ◌≡◌, refl, true, ◌+◌, none, [], ◌∷◌}
use metrika_agent.Prelude.Outcome.{done, panic}
use metrika_agent.Prelude.Error.{ok}
use metrika_agent.Emit.{offer}
use metrika_agent.Flow.{PefEndpoint}
use metrika_agent.Watch.{new_watch, start_unsafe, emit_all}
use metrika_agent.Watch.Http.{
  HttpNode, HttpWatch, HttpInput, url_update, interval, stop_key, new_http_watch, on_url_update,
  on_interval, http_inputs, start_http,
}
use metrika_agent.Watch.Http.Followed.{Follows, start_http-Follows}

-- The state counts the responses; the second is an error of the server.
abbrev status_at : ℕ → ℕ
status_at (suc zero) = 500
status_at n = 200

abbrev http_node : HttpNode ℕ
http_node = record {
  new_request = λ url. none;
  send = λ url headers w. (ok (status_at w), w);
  read_all = λ w. (ok "metric 1", w);
  close_body = λ w. (none, w + 1);
}

abbrev endpoint : String → PefEndpoint
endpoint url = record { url = url; filters = [] }

abbrev second : HttpWatch ℕ
second = record (new_http_watch (record { url = "http://a"; url_index = 1; headers = [] }) 0) {
  readers = record { cap = 10; held = [] } ∷ [];
}

abbrev two_endpoints : HttpInput
two_endpoints = url_update (record { val = endpoint "http://a" ∷ endpoint "http://b" ∷ [] })

abbrev no_endpoints : HttpInput
no_endpoints = url_update (record { val = [] })

abbrev one_endpoint : HttpInput
one_endpoint = url_update (record { val = endpoint "http://c" ∷ [] })

start_http-Follows_example :
    Follows http_node 1 "http://a"
      (two_endpoints ∷ no_endpoints ∷ interval ∷ stop_key ∷ [])
      (start_http http_node (two_endpoints ∷ no_endpoints ∷ interval ∷ stop_key ∷ []) second)
start_http-Follows_example =
    start_http-Follows http_node (two_endpoints ∷ no_endpoints ∷ interval ∷ stop_key ∷ []) second
      refl

one_endpoint-panics : start_http http_node (interval ∷ one_endpoint ∷ []) second ≡ panic
unfolding start_http http_inputs on_interval on_url_update start_unsafe new_watch emit_all
one_endpoint-panics = refl

-- Of three responses the second is not emitted.
two_bodies :
    start_http http_node (interval ∷ interval ∷ interval ∷ []) second
    ≡ done (record second {
      watch = start_unsafe new_watch;
      readers = record { cap = 10; held = "metric 1" ∷ "metric 1" ∷ [] } ∷ [];
      client = true;
      node = 3;
    })
unfolding start_http http_inputs on_interval start_unsafe new_watch emit_all offer
two_bodies = refl
