-- ===== src/Buf/Heap.antt =====
-- Go's `container/heap` over `priorityQueue`: Init, Push and Pop, with its loops `up` and `down`.
-- A loop runs on fuel that is more than its rounds.
pub mod Order
pub mod Up
pub mod Down
pub mod Ends
use metrika_agent.Prelude.{ℕ, zero, suc, ◌+◌, ◌-◌, ◌*◌, ◌/◌, Bool, Option, ltb, ◌==◌, if◌then◌else◌}
use metrika_agent.Prelude.Outcome.{Outcome, done, out_of_fuel, ◌>>=◌}
use metrika_agent.Buf.Queue
use metrika_agent.Buf.Queue.{PriorityQueue, Item, less, swap}

abbrev pub parent : ℕ → ℕ
parent j = (j - 1) / 2

-- `up`: the entry at `j` rises while it is less than its parent.
unfoldable pub up : ℕ → PriorityQueue → ℕ → Outcome PriorityQueue
up zero q j = out_of_fuel
up (suc fuel) q j =
    let rise : Outcome PriorityQueue = do r ← swap q (parent j) j; up fuel r (parent j)
    in let test : Outcome PriorityQueue = do
      below ← less q j (parent j)
      if below then rise else done q
      in if parent j == j then done q else test

-- The child of `i` that `down` compares with: the lesser of the two, if both lie below `n`.
unfoldable pub lesser_child : PriorityQueue → ℕ → ℕ → Outcome ℕ
lesser_child q i n =
    let left = 2 * i + 1 in
    let both : Outcome ℕ = do
      below ← less q (left + 1) left
      done (if below then left + 1 else left)
    in if ltb (left + 1) n then both else done left

-- `down`: the entry at `i` sinks, among the first `n` entries, while a child is less than it.
unfoldable pub down : ℕ → PriorityQueue → ℕ → ℕ → Outcome PriorityQueue
down zero q i n = out_of_fuel
down (suc fuel) q i n =
    let step : Outcome PriorityQueue = do
      j ← lesser_child q i n
      below ← less q j i
      let sink : Outcome PriorityQueue = do r ← swap q i j; down fuel r j n
      if below then sink else done q
    in if ltb (2 * i + 1) n then step else done q

unfoldable pub push : PriorityQueue → Item → Outcome PriorityQueue
push q x = let r = Queue.push q x in up (Queue.len r) r (Queue.len r - 1)

-- `heap.Pop`. On an empty queue it swaps at index -1, which panics.
unfoldable pub pop : PriorityQueue → Outcome (Option Item × PriorityQueue)
pop q =
    let n = Queue.len q - 1 in
    let taken : Outcome (Option Item × PriorityQueue) = do
      r ← swap q 0 n
      s ← down (n + 1) r 0 n
      Queue.pop s
    in if Queue.len q == 0 then Outcome.panic else taken

-- The loop of `heap.Init`, from the parents that are left to visit.
unfoldable pub init_from : ℕ → PriorityQueue → Outcome PriorityQueue
init_from zero q = done q
init_from (suc i) q = do r ← down (Queue.len q + 1) q i (Queue.len q); init_from i r

unfoldable pub init : PriorityQueue → Outcome PriorityQueue
init q = init_from (Queue.len q / 2) q
