-- ===== src/Docker.antt =====
-- internal/pkg/discover/utils/utils.go: `DockerProductionAdapter`, which keeps a client of the docker
-- daemon behind a mutex, and `MatchContainer`. The docker client and the package regexp are the
-- parameters `Daemon` and `compile`. A call frees the mutex before it uses the client: what other
-- calls do to the adapter meanwhile is the parameter `between`, a function of the adapter, whose
-- world can tell the gaps apart. A call that locks a mutex which is left locked waits for ever:
-- `blocks`.
pub mod Locks
pub mod Matches
mod Tests
use Prim.Native.String.{String}
use metrika_agent.Prelude.{Bool, true, false, Option, none, some, List, [], ◌∷◌, if◌then◌else◌}
use metrika_agent.Prelude.Error.{Error, Result, ok, err}

-- How a call ends. `crashes` is a nil dereference.
pub data Run (A : Type 0) : Type 0 where
  returns : A → Run A
  blocks : Run A
  crashes : Run A

pub record Container : Type 0 where
  pub names : List String
  pub image : String

-- `new_client` is `getDockerClient`; `list`, `logs` and `close` are methods of the client. The
-- tests on errors are `errors.Is(ErrContainerNotFound, err)` and the search for the text "No such
-- container".
pub record Daemon (W : Type 0) : Type 0 where
  pub new_client : W → Option Error × W
  pub list : W → Result (List Container) × W
  pub logs : String → W → Result String × W
  pub close : W → Option Error × W
  pub is_not_found : Error → Bool
  pub is_no_such_container : Error → Bool

-- `cli`: whether the pointer to the client is not nil.
pub record Adapter (W : Type 0) : Type 0 where
  pub cli : Bool
  pub locked : Bool
  pub world : W

module _ {W : Type 0} (daemon : Daemon W) where
  -- `Lock`, and what follows.
  abbrev pub with_lock : {A : Type 0} → (Adapter W → Run A) → Adapter W → Run A
  with_lock k a = if a.locked then blocks else k (record a { locked = true })

  abbrev pub unlock : Adapter W → Adapter W
  unlock a = record a { locked = false }

  unfoldable pub close : Adapter W → Run (Option Error × Adapter W)
  close = with_lock (λ a.
      let r = daemon.close a.world in
      if a.cli
      then returns (r.0, unlock (record a { cli = false; world = r.1 }))
      else returns (none, unlock a))

  unfoldable pub reset_client : Adapter W → Option Error × Adapter W
  reset_client a =
      let r = daemon.new_client a.world in
      elim r.0 [
        | some e ↦ (some e, record a { cli = false; world = r.1 })
        | none ↦ (none, record a { cli = true; world = r.1 })
      ]

  module _ (between : Adapter W → Adapter W) where
    -- The head of the three calls: a client is made if there is none. If that fails the call
    -- returns, and the mutex stays locked. Otherwise it is freed, and other calls may follow.
    unfoldable pub with_client :
        {A : Type 0}
        → (Adapter W → Run (Result A × Adapter W))
        → Adapter W
        → Run (Result A × Adapter W)
    with_client k = with_lock (λ a.
        let t = reset_client a in
        let made : Run (Result _ × Adapter W) = elim t.0 [
          | some e ↦ returns (err e, t.1)
          | none ↦ k (between (unlock t.1))
        ] in
        if a.cli then k (between (unlock a)) else made)

    -- After an error of a request the client is closed and forgotten.
    unfoldable pub drop_client : {A : Type 0} → Error → Adapter W → Run (Result A × Adapter W)
    drop_client e = with_lock (λ a.
        if a.cli
        then returns (err e, unlock (record a { cli = false; world = (daemon.close a.world).1 }))
        else crashes)

    -- The request itself, without the mutex; other calls may follow before it is locked again.
    unfoldable pub request :
        {A : Type 0} → (W → Result A × W) → (Error → Bool) → Adapter W → Run (Result A × Adapter W)
    request call keeps a =
        let r = call a.world in
        let b = record a { world = r.1 } in
        let sent : Run (Result _ × Adapter W) = elim r.0 [
          | ok x ↦ returns (ok x, b)
          | err e ↦ if keeps e then returns (err e, b) else drop_client e (between b)
        ] in
        if a.cli then sent else crashes

    unfoldable pub get_running_containers : Adapter W → Run (Result (List Container) × Adapter W)
    get_running_containers = with_client (request daemon.list daemon.is_not_found)

    unfoldable pub docker_logs : String → Adapter W → Run (Result String × Adapter W)
    docker_logs container =
        with_client (request (daemon.logs container) daemon.is_no_such_container)

    -- The channels of events are those of the client: the call itself sends nothing.
    unfoldable pub docker_events : Adapter W → Run (Result Bool × Adapter W)
    docker_events = with_client (λ a. if a.cli then returns (ok true, a) else crashes)

module _ (compile : String → Result (String → Bool)) where
  -- The loop over the names of a container.
  unfoldable pub any_name : (String → Bool) → List String → Bool
  any_name matches [] = false
  any_name matches (name ∷ names) = if matches name then true else any_name matches names

  -- The loop over the identifiers, for one container; `ok false` is no match.
  unfoldable pub match_one : Container → List String → Result Bool
  match_one c [] = ok false
  match_one c (id ∷ ids) = elim (compile id) [
    | err e ↦ err e
    | ok matches ↦
        if any_name matches c.names
        then ok true
        else if matches c.image
        then ok true
        else match_one c ids
  ]

  -- `MatchContainer`; `not_found` is `ErrContainerNotFound`.
  unfoldable pub match_container : Error → List Container → List String → Result Container
  match_container not_found [] ids = err not_found
  match_container not_found (c ∷ cs) ids =
      let rest = match_container not_found cs ids in
      elim (match_one c ids) [ err e ↦ err e | ok found ↦ if found then ok c else rest ]
