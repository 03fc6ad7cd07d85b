-- ===== src/Timesync/Restart/Stuck.antt =====
-- What the locks of a second `Start` exclude, and where they do not let it go on.
use metrika_agent.Prelude.{◌≡◌, refl, Bool, true}
use metrika_agent.Timesync.Restart.{
  at_select, querying, storing, gone, Starter, outside, waiting, started, Restart, at, Step, tick,
  answer, store, leave, enter, begin, Steps, none_more, then, running,
}

-- No two goroutines tick: once the second is made the first has returned, and while the first runs
-- and the second is not made, `tickerLock` is held.
abbrev pub Single : Restart → Type 0
Single (at gone s c m h) = Unit
Single (at at_select outside c m h) = h ≡ true
Single (at at_select waiting c m h) = h ≡ true
Single (at at_select started c m h) = ⊥
Single (at querying outside c m h) = h ≡ true
Single (at querying waiting c m h) = h ≡ true
Single (at querying started c m h) = ⊥
Single (at storing outside c m h) = h ≡ true
Single (at storing waiting c m h) = h ≡ true
Single (at storing started c m h) = ⊥

Step-Single : (x y : Restart) → Step x y → Single x → Single y
Step-Single (at at_select outside c m h) _ tick p = p
Step-Single (at at_select waiting c m h) _ tick p = p
Step-Single (at at_select started c m h) _ tick p = p
Step-Single (at querying outside c m h) _ answer p = p
Step-Single (at querying waiting c m h) _ answer p = p
Step-Single (at querying started c m h) _ answer p = p
Step-Single (at storing outside c m h) _ store p = p
Step-Single (at storing waiting c m h) _ store p = p
Step-Single (at storing started c m h) _ store p = p
Step-Single _ _ leave p = tt
Step-Single (at at_select outside c m h) _ enter p = p
Step-Single (at querying outside c m h) _ enter p = p
Step-Single (at storing outside c m h) _ enter p = p
Step-Single (at gone outside c m h) _ enter p = p
Step-Single (at at_select waiting c m h) _ begin p = absurd (cc)
Step-Single (at querying waiting c m h) _ begin p = absurd (cc)
Step-Single (at storing waiting c m h) _ begin p = absurd (cc)
Step-Single (at gone waiting c m h) _ begin p = p

Steps-Single : {x y : Restart} → Steps x y → Single x → Single y
Steps-Single none_more p = p
Steps-Single (then s more) p = Steps-Single more (Step-Single _ _ s p)

-- Once `Start` has returned, in whatever order its goroutine and a second `Start` take their steps:
-- the second makes its goroutine only after the first has returned, and until then the lock of the
-- ticker is held.
pub running-Single : (y : Restart) → Steps running y → Single y
running-Single y steps = Steps-Single steps refl

-- The goroutine is inside a tick while the second `Start` holds the lock of the clock.
abbrev pub Caught : Restart → Type 0
Caught (at querying waiting c m h) = (m ≡ true) × (h ≡ true)
Caught (at storing waiting c m h) = (m ≡ true) × (h ≡ true)
Caught (at at_select s c m h) = ⊥
Caught (at gone s c m h) = ⊥
Caught (at querying outside c m h) = ⊥
Caught (at querying started c m h) = ⊥
Caught (at storing outside c m h) = ⊥
Caught (at storing started c m h) = ⊥

Step-Caught : (x y : Restart) → Step x y → Caught x → Caught y
Step-Caught (at querying waiting c m h) _ answer p = p
Step-Caught (at storing waiting c m h) _ store p = absurd (cc)
Step-Caught (at querying waiting c m h) _ begin p = absurd (cc)
Step-Caught (at storing waiting c m h) _ begin p = absurd (cc)
Step-Caught (at at_select _ c m h) y _ p = elim p [ ]
Step-Caught (at querying outside c m h) y _ p = elim p [ ]
Step-Caught (at querying started c m h) y _ p = elim p [ ]
Step-Caught (at storing outside c m h) y _ p = elim p [ ]
Step-Caught (at storing started c m h) y _ p = elim p [ ]
Step-Caught (at gone _ c m h) y _ p = elim p [ ]

Steps-Caught : {x y : Restart} → Steps x y → Caught x → Caught y
Steps-Caught none_more p = p
Steps-Caught (then s more) p = Steps-Caught more (Step-Caught _ _ s p)

abbrev pub starter_of : Restart → Starter
starter_of (at t s c m h) = s

abbrev pub lock_held : Restart → Bool
lock_held (at t s c m h) = m

held_waiting : (y : Restart) → Caught y → (starter_of y ≡ waiting) × (lock_held y ≡ true)
held_waiting (at querying waiting c m h) p = (refl, p.0)
held_waiting (at storing waiting c m h) p = (refl, p.0)
held_waiting (at at_select s c m h) p = elim p [ ]
held_waiting (at gone s c m h) p = elim p [ ]
held_waiting (at querying outside c m h) p = elim p [ ]
held_waiting (at querying started c m h) p = elim p [ ]
held_waiting (at storing outside c m h) p = elim p [ ]
held_waiting (at storing started c m h) p = elim p [ ]

-- If the goroutine of the first `Start` is in a query when the second `Start` has taken the lock of
-- the clock, then whatever steps follow, the second is still waiting and the lock is still held.
pub caught_never_starts :
    (c : Bool) (y : Restart)
    → Steps (at querying waiting c true true) y
    → (starter_of y ≡ waiting) × (lock_held y ≡ true)
caught_never_starts c y steps = held_waiting y (Steps-Caught steps (refl, refl))
