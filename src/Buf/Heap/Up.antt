-- ===== src/Buf/Heap/Up.antt =====
-- The loop `up` of container/heap: its invariant and its end.
use mathlib.Core.List.Perm
use metrika_agent.Prelude.{
  ℕ, zero, suc, ◌<◌, ◌≡◌, ◌≢◌, ◌∙◌, refl, true, Perm, List, length, ◌==◌, arith,
}
use metrika_agent.Prelude.Int.{◌≤ℤ◌, ltb_ℤ}
use metrika_agent.Prelude.Outcome.{Yields, yields, Yields-bind, Yields-branch, Yields-weaken}
use metrika_agent.Buf.Queue.{PriorityQueue, Item, stamp, Swapped, less_lem, swap-Swapped, stamps}
use metrika_agent.Buf.Heap.{parent, up}
use metrika_agent.Buf.Heap.Order.{IsOrdered}

-- Every edge but the one above `j` is in order, and so are the pairs that `j` stands between.
pub record Rising (j : ℕ) (xs : List Item) : Type 0 where
  pub inside : j < length xs
  pub edges : (c : ℕ) → 0 < c → c < length xs → c ≢ j → stamp xs (parent c) ≤ℤ stamp xs c
  pub across :
      (c : ℕ) → 0 < c → c < length xs → parent c ≡ j → 0 < j → stamp xs (parent j) ≤ℤ stamp xs c

-- Sorted into a heap: the same items, in heap order, under the same time to live.
pub record Heaped (q r : PriorityQueue) : Type 0 where
  pub ordered : IsOrdered r.items
  pub same : Perm r.items q.items
  pub kept : r.ttl ≡ q.ttl

pub Heaped-trans :
    {q r s : PriorityQueue} → Heaped r s → Perm r.items q.items → r.ttl ≡ q.ttl → Heaped q s
Heaped-trans h p e = record { ordered = h.ordered; same = Perm.trans h.same p; kept = h.kept ∙ e }

rise-Rising :
    (j : ℕ) (q r : PriorityQueue)
    → Rising j q.items
    → 0 < j
    → ltb_ℤ (stamp q.items j) (stamp q.items (parent j)) ≡ true
    → Swapped (parent j) j q r
    → Rising (parent j) r.items
rise-Rising j q r v pos_j below s =
    let at = stamps s in
    record {
      inside = omega (arith, s.size);
      edges =
          λ c p m ne. ground (arith, s.size, at c, at (parent c), v.edges c, v.edges j, v.across c);
      across = λ c p m e z.
          ground (
            arith,
            s.size,
            at c,
            at (parent (parent j)),
            v.edges c,
            v.edges (parent j),
            v.across c,
          );
    }

pub up_loop :
    (fuel j : ℕ) (q : PriorityQueue) → j < fuel → Rising j q.items → Yields (Heaped q) (up fuel q j)
unfolding up
up_loop zero j q f v = absurd (omega arith)
up_loop (suc fuel) j q f v =
    Yields-branch (parent j == j)
      (λ top.
        yields (record {
          ordered = λ c p m. v.edges c p m (ground arith);
          same = Perm.rfl;
          kept = refl;
        }))
      (λ low.
        let pos_j : 0 < j = ground arith in
        let above : parent j < length q.items = omega (arith, v.inside) in
        rw (less_lem q j (parent j) v.inside above) (
          Yields-branch (ltb_ℤ (stamp q.items j) (stamp q.items (parent j)))
            (λ below. Yields-bind (swap-Swapped q (parent j) j above v.inside) λ r s.
              Yields-weaken
                (up_loop fuel (parent j) r (omega arith) (rise-Rising j q r v pos_j below s))
                λ t h. Heaped-trans h s.same s.kept)
            (λ settled. yields (record {
              ordered = λ c p m. ground (arith, v.edges c);
              same = Perm.rfl;
              kept = refl;
            }))))
