-- ===== src/Buf/Buffer.antt =====
-- internal/pkg/buf/buf.go: `PriorityBuffer`, the `Buffer` that the controller drains. Every method
-- holds the mutex for its whole body, so a call is one step. The durations that it observes for the
-- metrics are left out, and so is a negative count in `Get`, which its callers exclude.
pub mod Spec
pub mod Fill
use metrika_agent.Prelude.{ℕ, zero, suc, ◌+◌, Option, none, some, List, [], ◌∷◌, ◌++◌}
use metrika_agent.Prelude.Int.{ℤ}
use metrika_agent.Prelude.Outcome.{Outcome, done, ◌>>=◌}
use metrika_agent.Buf.Queue.{Item}
use metrika_agent.Buf.Queue
use metrika_agent.Buf.Multi
use metrika_agent.Buf.Multi.{MultiQueue, new_priority_queue_n, new_multi_queue}

abbrev pub ItemBatch : Type 0
ItemBatch = List Item

pub record PriorityBuffer : Type 0 where
  pub q : MultiQueue
  pub ttl : ℤ

-- The loop of `Insert`.
unfoldable pub push_all : MultiQueue → ItemBatch → Outcome MultiQueue
push_all m [] = done m
push_all m (x ∷ xs) = do m' ← Multi.push m x; push_all m' xs

-- `Insert` never reports an error.
unfoldable pub insert : PriorityBuffer → ItemBatch → Outcome PriorityBuffer
insert p ms = do m ← push_all p.q ms; done (record p { q = m })

-- The loop of `Get`, by the room that is left in the result.
unfoldable pub pop_loop : ℕ → MultiQueue → ItemBatch → Outcome (ItemBatch × MultiQueue)
pop_loop zero m res = done (res, m)
pop_loop (suc room) m res = Multi.pop m >>= λ t. elim t.0 [
  | none ↦ done (res, t.1)
  | some x ↦ pop_loop room t.1 (res ++ x ∷ [])
]

-- The capacity asked for is left out: `make` fails for a count that no memory can hold.
unfoldable pub get : PriorityBuffer → ℕ → Outcome (ItemBatch × PriorityBuffer)
get p n = do (res, m) ← pop_loop n p.q []; done (res, record p { q = m })

unfoldable pub len_loop : ℕ → MultiQueue → ℕ
len_loop total [] = total
len_loop total (q ∷ m) = len_loop (total + Queue.len q) m

unfoldable pub len : PriorityBuffer → ℕ
len p = len_loop 0 p.q

-- The priorities low, med and high.
abbrev pub high : ℕ
high = 2

unfoldable pub new_priority_buffer : ℤ → Outcome PriorityBuffer
new_priority_buffer ttl = do
  queues ← new_priority_queue_n ttl (high + 1) []
  done (record { q = new_multi_queue [] queues; ttl = ttl })
