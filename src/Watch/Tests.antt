-- ===== src/Watch/Tests.antt =====
-- A registry of three watchers, one of which is started, and a watch that is stopped twice.
use metrika_agent.Prelude.{ℕ, refl, true, false, [], ◌∷◌, arith}
use metrika_agent.Watch.Registry.{WatcherInstance, Registry, contains, register}
use metrika_agent.Watch.Registry.Valid.{IsValid, register-IsValid}

abbrev watcher : ℕ → WatcherInstance
watcher w = record { started = false; watcher = w }

abbrev running : ℕ → WatcherInstance
running w = record { started = true; watcher = w }

abbrev registry : Registry
registry = record { watch = watcher 1 ∷ running 2 ∷ watcher 3 ∷ []; watcher_map = 3 ∷ 2 ∷ 1 ∷ [] }

registry-IsValid : IsValid registry
unfolding contains
registry-IsValid = record { distinct = (refl, (refl, (refl, tt))); agree = λ w. ground arith }

register-IsValid_example : IsValid (register (4 ∷ 2 ∷ 4 ∷ []) registry)
register-IsValid_example = register-IsValid (4 ∷ 2 ∷ 4 ∷ []) registry registry-IsValid
