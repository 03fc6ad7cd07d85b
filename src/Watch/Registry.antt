-- ===== src/Watch/Registry.antt =====
-- internal/pkg/watch/registry.go: the registry of watchers. A watcher is named by a number, which
-- stands for the pointer that the map is keyed by. What the registry does to the watchers is the
-- list of its calls; the goroutine that runs `Start(w)` is such a call. Methods hold the mutex.
pub mod Valid
pub mod Starts
use metrika_agent.Prelude.{
  ℕ, Bool, true, false, Option, none, some, List, [], ◌∷◌, ◌++◌, map, ◌==◌, if◌then◌else◌,
}
use metrika_agent.Prelude.Outcome.{Outcome, done, panic, ◌>>=◌}

pub record WatcherInstance : Type 0 where
  pub started : Bool
  pub watcher : ℕ

pub record Registry : Type 0 where
  pub watch : List WatcherInstance
  pub watcher_map : List ℕ

-- The calls made on watchers; a channel is named by a number.
pub data Action : Type 0 where
  subscribe : ℕ → ℕ → Action
  start : ℕ → Action
  stop : ℕ → Action

unfoldable pub contains : ℕ → List ℕ → Bool
contains w [] = false
contains w (v ∷ vs) = if v == w then true else contains w vs

pub new_registry : Registry
new_registry = record { watch = []; watcher_map = [] }

abbrev pub new_instance : ℕ → WatcherInstance
new_instance w = record { started = false; watcher = w }

-- The unexported `register`, with the instance that it returns; `none` is nil. Its error is always
-- nil.
unfoldable pub register_one : ℕ → Registry → Option WatcherInstance × Registry
register_one w r = if contains w r.watcher_map then (none, r) else (
  some (new_instance w),
  record { watch = r.watch ++ new_instance w ∷ []; watcher_map = w ∷ r.watcher_map },
)

unfoldable pub register : List ℕ → Registry → Registry
register [] r = r
register (w ∷ ws) r = register ws (register_one w r).1

abbrev pub subscriptions : ℕ → List ℕ → List Action
subscriptions w chans = map (subscribe w) chans

-- One round of the function `start`.
unfoldable pub start_instance : List ℕ → WatcherInstance → WatcherInstance × List Action
start_instance chans i =
    if i.started
    then (i, [])
    else (record i { started = true }, subscriptions i.watcher chans ++ start i.watcher ∷ [])

-- `start(ch, r.watch...)`
unfoldable pub start_all : List ℕ → List WatcherInstance → List WatcherInstance × List Action
start_all chans [] = ([], [])
start_all chans (i ∷ is) =
    let (j, acts) = start_instance chans i in
    let (js, more) = start_all chans is in (j ∷ js, acts ++ more)

unfoldable pub start_registry : List ℕ → Registry → Registry × List Action
start_registry chans r = let (is, acts) = start_all chans r.watch in (record r { watch = is }, acts)

-- `start(ch, instance)` through the pointer to one instance of the registry.
unfoldable pub start_at : List ℕ → ℕ → List WatcherInstance → List WatcherInstance × List Action
start_at chans w [] = ([], [])
start_at chans w (i ∷ is) =
    let (j, acts) = start_instance chans i in
    let (js, more) = start_at chans w is in
    if i.watcher == w then (j ∷ is, acts) else (i ∷ js, more)

-- The instance of a registered watcher is nil, and `start` reads its field: a nil dereference.
unfoldable pub register_and_start : ℕ → List ℕ → Registry → Outcome (Registry × List Action)
register_and_start w chans r =
    let (instance_of, r1) = register_one w r in
    elim instance_of [
      | none ↦ panic
      | some i ↦
          let (is, acts) = start_at chans i.watcher r1.watch in
          done (record r1 { watch = is }, acts)
    ]

unfoldable pub stop_all : List WatcherInstance → List WatcherInstance × List Action
stop_all [] = ([], [])
stop_all (i ∷ is) =
    let (js, acts) = stop_all is in (record i { started = false } ∷ js, stop i.watcher ∷ acts)

unfoldable pub stop_registry : Registry → Registry × List Action
stop_registry r = let (is, acts) = stop_all r.watch in (record r { watch = is }, acts)
