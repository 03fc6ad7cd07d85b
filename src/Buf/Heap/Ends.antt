-- ===== src/Buf/Heap/Ends.antt =====
-- What `heap.Push` and `heap.Pop` do to a queue in heap order.
use native.Mathlib.Bridge.{le_prop}
use mathlib.Core.List.{not-mem-nil, forall_mem-cons}
use mathlib.Core.List.Perm
use metrika_agent.Prelude.{
  ℕ, suc, ◌+◌, ◌-◌, ◌<◌, ◌≡◌, refl, ap, ◌∙◌, List, [], ◌∷◌, ◌++◌, Option, some, Mem, Perm, length,
  get_elem?, take, arith, ◌==◌, length-append, length-perm, append_one-perm, get_elem?-append,
  get_elem?-take, take-append_last, get_elem?_total,
}
use metrika_agent.Prelude.Int.{ℤ, ◌≤ℤ◌}
use metrika_agent.Prelude.Outcome.{Yields, yields, Yields-bind, Yields-branch, Yields-weaken}
use metrika_agent.Buf.Queue
use metrika_agent.Buf.Queue.{PriorityQueue, Item, stamp, stamp_of, Swapped, swap-Swapped, stamps}
use metrika_agent.Buf.Heap.{parent, push, pop}
use metrika_agent.Buf.Heap.Order.{IsOrdered, root_first}
use metrika_agent.Buf.Heap.Up.{Rising, up_loop}
use metrika_agent.Buf.Heap.Down.{Sinking, Sunk, down_loop}

pub record Pushed (x : Item) (q r : PriorityQueue) : Type 0 where
  pub ordered : IsOrdered r.items
  pub same : Perm r.items (x ∷ q.items)
  pub kept : r.ttl ≡ q.ttl

-- On a queue in heap order `heap.Push` with the queue's methods ends without a panic; the queue has
-- the new item and all others, in heap order, and its time to live.
pub push-Pushed :
    (q : PriorityQueue) (x : Item) → IsOrdered q.items → Yields (Pushed x q) (push q x)
unfolding push Queue.push
push-Pushed q x h =
    let size : length (q.items ++ x ∷ []) ≡ length q.items + 1 = length-append q.items (x ∷ []) in
    let start : Rising (length (q.items ++ x ∷ []) - 1) (q.items ++ x ∷ []) = record {
      inside = omega arith;
      edges = λ c p m ne. ground (
        arith,
        h c,
        get_elem?-append q.items (x ∷ []) c,
        get_elem?-append q.items (x ∷ []) (parent c),
      );
      across = λ c p m e z. absurd (omega arith);
    } in
    Yields-weaken (up_loop _ _ (record q { items = q.items ++ x ∷ [] }) (omega arith) start) λ r s.
      record {
        ordered = s.ordered;
        same = Perm.trans s.same (append_one-perm q.items x);
        kept = s.kept;
      }

-- The first item is taken out, none is earlier, and the rest stays in heap order.
pub record Popped (q : PriorityQueue) (t : Option Item × PriorityQueue) : Type 0 where
  pub item : Item
  pub taken : t.0 ≡ some item
  pub same : Perm (item ∷ t.1.items) q.items
  pub ordered : IsOrdered t.1.items
  pub earliest : (y : Item) → Mem y q.items → item.timestamp ≤ℤ y.timestamp
  pub kept : t.1.ttl ≡ q.ttl

earliest_of_stamps :
    (a : ℤ) (xs : List Item)
    → ((i : ℕ) → i < length xs → a ≤ℤ stamp xs i)
    → (y : Item) → Mem y xs
    → a ≤ℤ y.timestamp
earliest_of_stamps a [] h = λ y m. absurd (not-mem-nil m)
earliest_of_stamps a (x ∷ xs) h =
    (forall_mem-cons λ y. le_prop).1
      (h 0 (omega arith), earliest_of_stamps a xs λ i p. h (suc i) (omega arith))

-- The first entry of a heap is no later than any.
pub first-earliest :
    (q : PriorityQueue) (x : Item)
    → IsOrdered q.items
    → get_elem? q.items 0 ≡ some x
    → (y : Item) → Mem y q.items
    → x.timestamp ≤ℤ y.timestamp
first-earliest q x h ex =
    earliest_of_stamps x.timestamp q.items
      λ i p. rw (ap stamp_of ex) at (root_first (length q.items) q.items i h p)

-- Taking the last entry off, after `down` has restored the order of the others.
pop_last :
    (q r s : PriorityQueue) (n : ℕ) (x : Item)
    → length q.items ≡ suc n
    → get_elem? q.items 0 ≡ some x
    → IsOrdered q.items
    → Swapped 0 n q r
    → Sunk n r s
    → Yields (Popped q) (Queue.pop s)
unfolding Queue.pop
pop_last q r s n x size ex h sw su =
    let size_s : length s.items ≡ suc n = omega (arith, length-perm su.same, sw.size) in
    let shorter : length s.items - 1 ≡ n = omega arith in
    let last : get_elem? s.items n ≡ some x = su.beyond n (omega arith) ∙ sw.second ∙ ex in
    let whole = take-append_last n s.items size_s last in
    let kept = Perm.trans su.same sw.same in
    let same : Perm (x ∷ take n s.items) q.items =
      Perm.trans (Perm.symm (append_one-perm (take n s.items) x)) (rw whole kept) in
    Yields-branch (length s.items == 0) (λ e. absurd (ground arith))
      λ _.
        rw (shorter, last)
          (yields (record {
            item = x;
            taken = refl;
            same = same;
            ordered = λ c p m.
                let inside : c < n = omega (arith, length-perm same) in
                ground (
                  arith,
                  su.ordered c,
                  get_elem?-take n s.items c,
                  get_elem?-take n s.items (parent c),
                );
            earliest = first-earliest q x h ex;
            kept = su.kept ∙ sw.kept;
          }))

-- On a queue in heap order that is not empty, `heap.Pop` with the queue's methods ends without a
-- panic and takes an item out whose timestamp is the earliest; the other items are kept, in heap
-- order.
pub pop-Popped :
    (q : PriorityQueue) → IsOrdered q.items → 0 < length q.items → Yields (Popped q) (pop q)
unfolding pop
pop-Popped q h p =
    let n = length q.items - 1 in
    let (x, ex) = get_elem?_total q.items 0 p in
    Yields-branch (length q.items == 0) (λ e. absurd (ground arith))
      λ _. Yields-bind (swap-Swapped q 0 n p (omega arith)) λ r sw.
        let start : Sinking n 0 r.items = record {
          bounded = omega (arith, sw.size);
          edges = λ c m l ne. ground (arith, h c, stamps sw c, stamps sw (parent c));
          across = λ c m l e z. absurd (omega arith);
        } in
        Yields-bind (down_loop (n + 1) n 0 r (omega arith) start)
          λ s su. pop_last q r s n x (omega arith) ex h sw su
