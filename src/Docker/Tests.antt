-- ===== src/Docker/Tests.antt =====
-- A daemon that cannot be reached, one that can, and identifiers that match by equality.
use Prim.Native.String.{String}
use text.Mathlib.Text.{◌==◌}
use metrika_agent.Prelude.{ℕ, zero, suc, ◌≡◌, refl, Bool, true, false, none, some, [], ◌∷◌}
use metrika_agent.Prelude.Error.{Result, ok, failure}
use metrika_agent.Docker.{
  Daemon, Adapter, Container, blocks, returns, crashes, with_client, request,
  get_running_containers, any_name, match_one, match_container,
}
use metrika_agent.Docker.Locks.{
  Ended, run, run_request, unlocked, requests, containers, closes, run-Ended, failed_client_blocks,
}
use metrika_agent.Docker.Matches.{Matched, match_container-Matched}

abbrev node : Container
node = record { names = "/node" ∷ []; image = "flow" }

abbrev proxy : Container
proxy = record { names = "/proxy" ∷ []; image = "caddy" }

-- The daemon answers the `w`-th attempt to connect if `w` is 0.
abbrev daemon : Daemon ℕ
daemon = record {
  new_client = λ w. (elim w [ zero ↦ none | suc n ↦ some (failure "no daemon") ], w);
  list = λ w. (ok (node ∷ []), w);
  logs = λ c w. (ok "log", w);
  close = λ w. (none, w);
  is_not_found = λ e. false;
  is_no_such_container = λ e. false;
}

-- Another call that fails drops the client in every gap.
abbrev drops : Adapter ℕ → Adapter ℕ
drops a = record a { cli = false }

run-Ended_example :
    Ended daemon drops
      (requests containers)
      false
      0
      (run daemon drops (requests containers) (unlocked daemon drops false 0))
run-Ended_example = run-Ended daemon drops (requests containers) false 0

-- It makes the call crash.
dropped_crashes : run daemon drops (requests containers) (unlocked daemon drops true 0) ≡ crashes
unfolding get_running_containers with_client request
dropped_crashes = refl

failed_client_blocks_example :
    (b : Adapter ℕ) × (run_request daemon drops containers (unlocked daemon drops false 1)
      ≡ returns (some (failure "no daemon"), b))
    × (run daemon drops closes b ≡ blocks)
failed_client_blocks_example =
    failed_client_blocks daemon drops containers closes 1 (failure "no daemon") refl

abbrev exact : String → Result (String → Bool)
exact id = ok (λ s. s == id)

finds_node : match_container exact (failure "not found") (proxy ∷ node ∷ []) ("flow" ∷ []) ≡ ok node
unfolding match_container match_one any_name
finds_node = refl

match_container-Matched_example :
    Matched exact
      (failure "not found")
      (proxy ∷ node ∷ [])
      ("flow" ∷ [])
      (match_container exact (failure "not found") (proxy ∷ node ∷ []) ("flow" ∷ []))
match_container-Matched_example =
    match_container-Matched exact (failure "not found") (proxy ∷ node ∷ []) ("flow" ∷ [])
