-- ===== src/Buf/Expiry.antt =====
-- internal/pkg/buf/queue.go: `DrainExpired`, which takes out what has been buffered for longer than
-- the time to live. `clock k` is the reading of the k-th `time.Now()`, in nanoseconds.
pub mod Fresh
use metrika_agent.Prelude.{
  ℕ, zero, suc, ◌+◌, ◌-◌, ◌*◌, Bool, ◌&&◌, Option, none, some, List, [], ◌∷◌, ◌==◌, if◌then◌else◌,
}
use metrika_agent.Prelude.Int.{ℤ, pos, negsuc, ltb_ℤ, ◌-ℤ◌}
use metrika_agent.Prelude.Outcome.{Outcome, done, out_of_fuel, ◌>>=◌}
use metrika_agent.Buf.Queue
use metrika_agent.Buf.Queue.{Item, PriorityQueue}
use metrika_agent.Buf.Heap
use metrika_agent.Buf.Multi.{MultiQueue}

-- Milliseconds as nanoseconds: `time.UnixMilli`.
abbrev pub nanos : ℤ → ℤ
nanos (pos n) = pos (n * 1_000_000)
nanos (negsuc n) = negsuc (n * 1_000_000 + 999_999)

-- A difference of times as a Duration: outside its range it is the nearest end of the range.
abbrev pub saturate : ℤ → ℤ
saturate d =
    if ltb_ℤ (pos 9_223_372_036_854_775_807) d
    then pos 9_223_372_036_854_775_807
    else if ltb_ℤ d (negsuc 9_223_372_036_854_775_807)
    then negsuc 9_223_372_036_854_775_807
    else d

-- `pq.ttl > 0 && now.Sub(time.UnixMilli(item.Timestamp)) > pq.ttl`
unfoldable pub expired : ℤ → ℤ → Item → Bool
expired ttl now x = ltb_ℤ (pos 0) ttl && ltb_ℤ ttl (saturate (now -ℤ nanos x.timestamp))

unfoldable pub drain_loop : ℕ → (ℕ → ℤ) → ℕ → PriorityQueue → Outcome PriorityQueue
drain_loop zero clock k q = out_of_fuel
drain_loop (suc fuel) clock k q =
    let drop : Outcome PriorityQueue = Heap.pop q >>= λ t. elim t.0 [
      | none ↦ done t.1
      | some x ↦ drain_loop fuel clock (suc k) t.1
    ] in
    let round : Outcome PriorityQueue = elim (Queue.peek q) [
      | none ↦ done q
      | some x ↦ if expired q.ttl (clock k) x then drop else done q
    ] in
    if Queue.len q == 0 then done q else round

-- Each round but the last takes an item out.
unfoldable pub drain_expired : (ℕ → ℤ) → PriorityQueue → Outcome PriorityQueue
drain_expired clock q = drain_loop (suc (Queue.len q)) clock 0 q

-- `DrainExpired` of `multiQueue`, queue by queue; each queue reads a clock of its own.
pub drain_expired_all : (ℕ → ℕ → ℤ) → ℕ → MultiQueue → Outcome MultiQueue
drain_expired_all clocks i [] = done []
drain_expired_all clocks i (q ∷ m) = do
  r ← drain_expired (clocks i) q
  n ← drain_expired_all clocks (suc i) m
  done (r ∷ n)
