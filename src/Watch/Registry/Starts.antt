-- ===== src/Watch/Registry/Starts.antt =====
-- Which watchers the registry starts and stops.
use metrika_agent.Prelude.{
  ℕ, ◌≡◌, refl, sym, ap, ◌∙◌, true, false, List, [], ◌∷◌, ◌++◌, arith, if◌then◌else◌, Bool-cases,
  inl, inr,
}
use metrika_agent.Prelude.Outcome.{done}
use metrika_agent.Watch.Registry.{
  WatcherInstance, Registry, Action, subscribe, start, stop, contains, new_instance, register_one,
  subscriptions, start_instance, start_all, start_registry, start_at, register_and_start, stop_all,
  stop_registry,
}
use metrika_agent.Watch.Registry.Valid.{ids, IsValid}

-- The watchers that a list of calls starts, and those that it stops.
abbrev pub starts : List Action → List ℕ
starts [] = []
starts (subscribe w c ∷ acts) = starts acts
starts (start w ∷ acts) = w ∷ starts acts
starts (stop w ∷ acts) = starts acts

abbrev pub stops : List Action → List ℕ
stops [] = []
stops (subscribe w c ∷ acts) = stops acts
stops (start w ∷ acts) = stops acts
stops (stop w ∷ acts) = w ∷ stops acts

-- The watchers that are not started.
abbrev pub idle : List WatcherInstance → List ℕ
idle [] = []
idle (i ∷ is) = if i.started then idle is else i.watcher ∷ idle is

starts-append : (xs ys : List Action) → starts (xs ++ ys) ≡ starts xs ++ starts ys
starts-append [] ys = refl
starts-append (subscribe w c ∷ xs) ys = starts-append xs ys
starts-append (start w ∷ xs) ys = ap (◌∷◌ w) (starts-append xs ys)
starts-append (stop w ∷ xs) ys = starts-append xs ys

starts-subscriptions :
    (w : ℕ) (chans : List ℕ) → starts (subscriptions w chans ++ start w ∷ []) ≡ w ∷ []
starts-subscriptions w [] = refl
starts-subscriptions w (c ∷ chans) = starts-subscriptions w chans

start_all-starts :
    (chans : List ℕ) (is : List WatcherInstance)
    → (starts (start_all chans is).1 ≡ idle is)
      × (idle (start_all chans is).0 ≡ [])
      × (ids (start_all chans is).0 ≡ ids is)
unfolding start_all start_instance
start_all-starts chans [] = (refl, refl, refl)
start_all-starts chans (i ∷ is) =
    let (begun, none_idle, same) = start_all-starts chans is in
    elim (Bool-cases i.started) [
      | inl on ↦ (ground arith, ground arith, ground arith)
      | inr off ↦ (
        ground (
          arith,
          starts-append (subscriptions i.watcher chans ++ start i.watcher ∷ [])
              (start_all chans is).1,
          starts-subscriptions i.watcher chans,
        ),
        ground arith,
        ground arith,
      )
    ]

-- `Start` starts exactly the watchers that are not started, each once and in their order, and then
-- none is left that is not started; no watcher is added or removed.
pub start_registry-starts :
    (chans : List ℕ) (r : Registry)
    → (starts (start_registry chans r).1 ≡ idle r.watch)
      × (idle (start_registry chans r).0.watch ≡ [])
      × (ids (start_registry chans r).0.watch ≡ ids r.watch)
unfolding start_registry
start_registry-starts chans r = start_all-starts chans r.watch

start_all_noop :
    (chans : List ℕ) (is : List WatcherInstance) → idle is ≡ [] → start_all chans is ≡ (is, [])
unfolding start_all start_instance
start_all_noop chans [] h = refl
start_all_noop chans (i ∷ is) h = ground (arith, start_all_noop chans is)

-- A second `Start`, with whatever channels, changes nothing and calls no watcher.
pub start_registry_twice :
    (chans others : List ℕ) (r : Registry)
    → start_registry others (start_registry chans r).0 ≡ ((start_registry chans r).0, [])
unfolding start_registry
start_registry_twice chans others r =
    rw (start_all_noop others (start_all chans r.watch).0 (start_all-starts chans r.watch).1)

stop_all-stops :
    (is : List WatcherInstance) → (stops (stop_all is).1 ≡ ids is) × (idle (stop_all is).0 ≡ ids is)
unfolding stop_all
stop_all-stops [] = (refl, refl)
stop_all-stops (i ∷ is) =
    let (halted, all_idle) = stop_all-stops is in
    (ap (◌∷◌ i.watcher) halted, ap (◌∷◌ i.watcher) all_idle)

-- `Stop` stops every watcher, and a later `Start` starts every one of them again.
pub stop_then_start :
    (chans : List ℕ) (r : Registry)
    → (stops (stop_registry r).1 ≡ ids r.watch)
      × (starts (start_registry chans (stop_registry r).0).1 ≡ ids r.watch)
unfolding stop_registry start_registry
stop_then_start chans r =
    let (halted, all_idle) = stop_all-stops r.watch in
    (halted, (start_all-starts chans (stop_all r.watch).0).0 ∙ all_idle)

start_at-new :
    (chans : List ℕ) (w : ℕ) (is : List WatcherInstance)
    → contains w (ids is) ≡ false
    → start_at chans w (is ++ new_instance w ∷ [])
      ≡ (is ++ record { started = true; watcher = w } ∷ [], subscriptions w chans ++ start w ∷ [])
unfolding start_at start_instance contains
start_at-new chans w [] n = ground arith
start_at-new chans w (i ∷ is) n = ground (arith, start_at-new chans w is)

-- On a valid registry `RegisterAndStart` of a watcher that it does not know adds it, started, and
-- subscribes its channels and starts it; it calls no other watcher.
pub register_and_start-new :
    (w : ℕ) (chans : List ℕ) (r : Registry)
    → IsValid r
    → contains w r.watcher_map ≡ false
    → register_and_start w chans r
      ≡ done (
        record {
          watch = r.watch ++ record { started = true; watcher = w } ∷ [];
          watcher_map = w ∷ r.watcher_map;
        },
        subscriptions w chans ++ start w ∷ [],
      )
unfolding register_and_start register_one
register_and_start-new w chans r v unknown =
    ground (arith, start_at-new chans w r.watch (sym (v.agree w) ∙ unknown))
