-- ===== src/Buf/Multi.antt =====
-- internal/pkg/buf/queue.go: `multiQueue`, one priority queue for each level of priority.
-- The queues are behind distinct pointers (`newPriorityQueueN` makes each afresh), so a queue that
-- is changed in place is an entry of the list that is replaced.
pub mod Items
pub mod Ops
use metrika_agent.Prelude.{
  ℕ, zero, suc, ◌+◌, ◌-◌, Option, none, List, [], ◌∷◌, ◌++◌, length, get_elem?, set, ltb, ◌==◌,
  if◌then◌else◌,
}
use metrika_agent.Prelude.Int.{ℤ}
use metrika_agent.Prelude.Outcome.{Outcome, done, or_panic, ◌>>=◌}
use metrika_agent.Buf.Queue
use metrika_agent.Buf.Queue.{Item, PriorityQueue, new_priority_queue}
use metrika_agent.Buf.Heap

abbrev pub MultiQueue : Type 0
MultiQueue = List PriorityQueue

abbrev pub min : ℕ → ℕ → ℕ
min a b = if ltb a b then a else b

-- `Len`: the loop over the queues, with its counter.
pub len_loop : ℕ → MultiQueue → ℕ
len_loop cnt [] = cnt
len_loop cnt (q ∷ m) = len_loop (cnt + Queue.len q) m

pub len : MultiQueue → ℕ
len m = len_loop 0 m

-- The index of the queue for an item, among `n` queues.
abbrev pub level : ℕ → Item → ℕ
level n x = min x.priority (n - 1)

unfoldable pub push : MultiQueue → Item → Outcome MultiQueue
push m x = do
  q ← or_panic (get_elem? m (level (length m) x))
  r ← Heap.push q x
  done (set m (level (length m) x) r)

-- The loop of `Pop`, from the highest of the queues that are left down to 0.
unfoldable pub pop_from : ℕ → MultiQueue → Outcome (Option Item × MultiQueue)
pop_from zero m = done (none, m)
pop_from (suc i) m =
    let rest = pop_from i m in
    or_panic (get_elem? m i) >>= λ q.
    let taken : Outcome (Option Item × MultiQueue) = Heap.pop q >>= λ t. done (t.0, set m i t.1) in
    if Queue.len q == 0 then rest else taken

unfoldable pub pop : MultiQueue → Outcome (Option Item × MultiQueue)
pop m = pop_from (length m) m

-- The loop of `newPriorityQueueN`: `n` more queues.
unfoldable pub new_priority_queue_n : ℤ → ℕ → MultiQueue → Outcome MultiQueue
new_priority_queue_n ttl zero queues = done queues
new_priority_queue_n ttl (suc n) queues = do
  q ← Heap.init (new_priority_queue ttl)
  new_priority_queue_n ttl n (queues ++ q ∷ [])

-- `newMultiQueue` copies the slice of pointers.
unfoldable pub new_multi_queue : MultiQueue → MultiQueue → MultiQueue
new_multi_queue m [] = m
new_multi_queue m (q ∷ queues) = new_multi_queue (m ++ q ∷ []) queues
