-- ===== src/Timesync/Restart.antt =====
-- pkg/timesync/timesync.go: the locks of a second `Start` while the goroutine of the first one runs,
-- as steps of the two in any order.
pub mod Stuck
use metrika_agent.Prelude.{Bool, true, false}

-- The goroutine of the first `Start`: at its `select`, in the query of a tick, before the lock that
-- `QueryNTP` takes to store the offset (the later ones of the tick are alike), or returned.
pub data Ticker : Type 0 where
  at_select querying storing gone : Ticker

-- The second `Start`: not called, waiting for `tickerLock` with the lock of the clock in its hands, or
-- with its own goroutine made.
pub data Starter : Type 0 where
  outside waiting started : Starter

-- The two, whether `tickerCtx` of the first goroutine is cancelled, whether the lock of the clock
-- is held, and whether `tickerLock` is.
pub data Restart : Type 0 where
  at : Ticker → Starter → Bool → Bool → Bool → Restart

pub data Step : Restart → Restart → Type 0 where
  tick : {s : Starter} {c m h : Bool} → Step (at at_select s c m h) (at querying s c m h)
  answer : {s : Starter} {c m h : Bool} → Step (at querying s c m h) (at storing s c m h)
  store : {s : Starter} {c h : Bool} → Step (at storing s c false h) (at at_select s c false h)
  leave : {s : Starter} {m : Bool} → Step (at at_select s true m true) (at gone s true m false)
  enter : {t : Ticker} {c h : Bool} → Step (at t outside c false h) (at t waiting true true h)
  begin : {t : Ticker} {c : Bool} → Step (at t waiting c true false) (at t started c false true)

pub data Steps : Restart → Restart → Type 0 where
  none_more : {x : Restart} → Steps x x
  then : {x y z : Restart} → Step x y → Steps y z → Steps x z

-- The first `Start` has returned.
abbrev pub running : Restart
running = at at_select outside false false true
