-- ===== src/Buf/Heap/Order.antt =====
-- The heap order on timestamps: no entry is earlier than its parent.
use metrika_agent.Prelude.{ℕ, zero, suc, ◌<◌, List, length, arith}
use metrika_agent.Prelude.Int.{◌≤ℤ◌}
use metrika_agent.Buf.Queue.{Item, stamp}
use metrika_agent.Buf.Heap.{parent}

-- The first `n` entries are in heap order.
abbrev pub OrderedBelow : ℕ → List Item → Type 0
OrderedBelow n xs = (c : ℕ) → 0 < c → c < n → stamp xs (parent c) ≤ℤ stamp xs c

abbrev pub IsOrdered : List Item → Type 0
IsOrdered xs = OrderedBelow (length xs) xs

root_first_within :
    (k n : ℕ) (xs : List Item) (i : ℕ)
    → OrderedBelow n xs
    → i < k
    → i < n
    → stamp xs 0 ≤ℤ stamp xs i
root_first_within zero n xs i h f p = absurd (omega arith)
root_first_within (suc k) n xs zero h f p = omega arith
root_first_within (suc k) n xs (suc i) h f p =
    let above = root_first_within k n xs (parent (suc i)) h (omega arith) (omega arith) in
    let edge = h (suc i) (omega arith) p in omega arith

-- The root of a heap is the earliest of its entries.
pub root_first :
    (n : ℕ) (xs : List Item) (i : ℕ) → OrderedBelow n xs → i < n → stamp xs 0 ≤ℤ stamp xs i
root_first n xs i h p = root_first_within (suc i) n xs i h (omega arith) p
